-- ===== src/Workflow/Traversal.antt =====
-- traverse, chooseEdge, compare, findNode, hasRole and buildNotification of
-- backend/internal/service/workflow_service.go.
use nexa_flow.Prelude.{
  ℕ, zero, suc, Bool, true, false, not, ◌&&◌, List, [], ◌∷◌, ◌++◌, Option, none, some, String,
  Result, ok, err, length, keep, find_first, ◌==◌, contains, if◌then◌else◌, string_eq,
}
use nexa_flow.Strings.{contains_text}
use nexa_flow.Values.{Value, Dict, Format, value_at, as_text}
use nexa_flow.Workflow.Model.{
  WorkflowNode, WorkflowEdge, WorkflowDefinition, WorkflowTransition, Notification,
}

pub data TraverseError : Type 0 where
  node_not_found : TraverseError
  no_matching_path : String → TraverseError
  limit_exceeded : TraverseError

unfoldable pub find_node : List WorkflowNode → String → Option WorkflowNode
find_node nodes id = find_first (λ n. n.id == id) nodes

unfoldable pub has_role : List String → String → Bool
has_role roles wanted = contains roles wanted

abbrev both_gt : Format → Option ℕ → Option ℕ → Bool
both_gt fmt (some a) (some b) = fmt.float_gt a b
both_gt fmt _ _ = false

-- compare
unfoldable pub compare_values : Format → Value → String → Value → Bool
unfolding contains_text
compare_values fmt actual operator expected =
    if operator == "equals"
    then fmt.sprint actual == fmt.sprint expected
    else if operator == "not_equals"
    then not (fmt.sprint actual == fmt.sprint expected)
    else if operator == "greater_than"
    then both_gt fmt (fmt.parse_float (fmt.sprint actual)) (fmt.parse_float (fmt.sprint expected))
    else if operator == "contains"
    then contains_text (fmt.sprint actual) (fmt.sprint expected)
    else false

abbrev pub only : List WorkflowEdge → Option WorkflowEdge
only (e ∷ []) = some e
only _ = none

abbrev pub candidates : String → List WorkflowEdge → List WorkflowEdge
candidates id edges = keep (λ e. e.from == id) edges

abbrev pub branch_of : Bool → String
branch_of true = "true"
branch_of false = "false"

-- The branch that a condition node takes.
unfoldable pub wanted_branch : Format → WorkflowNode → Dict → String
unfolding compare_values value_at
wanted_branch fmt node values = branch_of (
    compare_values fmt (value_at (as_text (value_at "field" node.config)) values)
      (as_text (value_at "operator" node.config)) (value_at "value" node.config))

unfoldable pub choose_edge : Format → WorkflowNode → List WorkflowEdge → Dict → Option WorkflowEdge
choose_edge fmt node edges values =
    if not (node.type == "condition")
    then only (candidates node.id edges)
    else find_first (λ e. e.condition == wanted_branch fmt node values) (candidates node.id edges)

unfoldable pub build_notification : WorkflowNode → String → Notification
unfolding value_at
build_notification node actor_id = record {
  id = "";
  tenant_id = "";
  user_id = actor_id;
  instance_id = "";
  channel = as_text (value_at "channel" node.config);
  recipient = as_text (value_at "recipient" node.config);
  subject = as_text (value_at "subject" node.config);
  body = as_text (value_at "body" node.config);
  status = "pending";
}

abbrev pub sent_after : WorkflowNode → String → List Notification → List Notification
sent_after node actor_id sent =
    if node.type == "notification" then sent ++ build_notification node actor_id ∷ [] else sent

-- The first node of type start, or "".
unfoldable pub first_start : List WorkflowNode → String
first_start [] = ""
first_start (node ∷ nodes) = if node.type == "start" then node.id else first_start nodes

-- What one round of the loop does at a node: it stops, fails, or goes on along an edge.
pub data Round : Type 0 where
  stop : WorkflowTransition → Round
  fail : TraverseError → Round
  go_on : String → List Notification → Round

abbrev pub follow : Option WorkflowEdge → String → List Notification → Round
follow none current sent = fail (no_matching_path current)
follow (some e) current sent = go_on e.to sent

abbrev pub stopped : String → String → List Notification → Round
stopped current status sent =
    stop (record { current_node_id = current; status = status; notifications = sent })

module _ (fmt : Format) (def : WorkflowDefinition) (after : String) (values : Dict)
    (actor_id : String) where
  abbrev pub round_at : String → List Notification → Option WorkflowNode → Round
  round_at current sent none = fail node_not_found
  round_at current sent (some node) =
      if node.type == "approval" && not (current == after)
      then stopped current "pending" sent
      else if node.type == "end"
      then stopped current "completed" sent
      else follow (choose_edge fmt node def.edges values) current (sent_after node actor_id sent)

  -- The body of the loop.
  unfoldable pub round : String → List Notification → Round
  round current sent = round_at current sent (find_node def.nodes current)

  -- The loop, by the rounds that are left.
  unfoldable pub traverse_loop :
      ℕ → String → List Notification → Result TraverseError WorkflowTransition
  traverse_loop zero current sent = err limit_exceeded
  traverse_loop (suc rounds) current sent = elim (round current sent) [
    | stop t ↦ ok t
    | fail e ↦ err e
    | go_on next sent' ↦ traverse_loop rounds next sent'
  ]

  unfoldable pub traverse : Result TraverseError WorkflowTransition
  unfolding traverse_loop round first_start find_node choose_edge
  traverse =
      traverse_loop (suc (length def.nodes)) (if after == "" then first_start def.nodes else after)
        []
