-- ===== src/Workflow/Validation.antt =====
-- validateWorkflowGraph of backend/internal/service/workflow_service.go.
-- `visiting` is the chain of `walk` calls in progress: the source marks a node when its call begins
-- and clears the mark when the call returns. `visited` holds each node once, as the source's map.
-- `walk` takes fuel; `out_of_fuel` belongs to the model.
use nexa_flow.Prelude.{
  ℕ, zero, suc, Bool, true, false, not, ◌&&◌, ◌||◌, List, [], ◌∷◌, ◌++◌, Option, none, some, String,
  Result, ok, err, ◌>>=◌, ◌>>◌, guard, ltb, ◌==◌, contains, length, count_if, if◌then◌else◌,
  string_eq, nat_eq,
}
use nexa_flow.Prelude.Maps.{lookup, insert}
use nexa_flow.Strings.{trim_space}
use nexa_flow.Values.{value_at, as_text}
use nexa_flow.Workflow.Model.{WorkflowNode, WorkflowEdge}

pub data GraphError : Type 0 where
  node_count : GraphError
  bad_node : GraphError
  no_assignee_role : GraphError
  bad_channel : GraphError
  no_recipient : GraphError
  starts_and_ends : GraphError
  bad_edge : GraphError
  bad_branches : GraphError
  cycle : GraphError
  dead_end : String → GraphError
  not_reachable : GraphError
  out_of_fuel : GraphError

abbrev pub NodeMap : Type 0
NodeMap = List (String × WorkflowNode)

abbrev pub EdgeMap : Type 0
EdgeMap = List (String × List WorkflowEdge)

-- validTypes
abbrev pub valid_types : List String
valid_types = "start" ∷ "approval" ∷ "condition" ∷ "notification" ∷ "end" ∷ []

abbrev pub known_id : Option WorkflowNode → Bool
known_id none = false
known_id (some n) = not (n.id == "")

-- byID[id].ID != ""
unfoldable pub is_known : NodeMap → String → Bool
unfolding lookup
is_known by_id id = known_id (lookup id by_id)

abbrev pub type_or_empty : Option WorkflowNode → String
type_or_empty none = ""
type_or_empty (some n) = n.type

-- byID[id].Type
unfoldable pub type_of : NodeMap → String → String
unfolding lookup
type_of by_id id = type_or_empty (lookup id by_id)

-- The checks of one node's config.
unfoldable pub check_config : WorkflowNode → Result GraphError (Unit {0})
unfolding value_at
check_config node =
    if node.type == "approval" && as_text (value_at "assignee_role" node.config) == ""
    then err no_assignee_role
    else if node.type == "notification"
        && not (channel == "inapp" || channel == "email" || channel == "webhook")
    then err bad_channel
    else if node.type == "notification"
        && not (channel == "inapp")
        && trim_space (as_text (value_at "recipient" node.config)) == ""
    then err no_recipient
    else ok tt
  where
    channel : String
    channel = as_text (value_at "channel" node.config)

pub record Scan : Type 0 where
  pub by_id : NodeMap
  pub starts : ℕ
  pub ends : ℕ

unfoldable pub record_node : Scan → WorkflowNode → Scan
record_node s node = record {
  by_id = insert node.id node s.by_id;
  starts = if node.type == "start" then suc s.starts else s.starts;
  ends = if node.type == "end" then suc s.ends else s.ends;
}

-- The loop over the nodes.
unfoldable pub scan_nodes : Scan → List WorkflowNode → Result GraphError Scan
unfolding check_config record_node is_known
scan_nodes s [] = ok s
scan_nodes s (node ∷ nodes) =
    if node.id == "" || is_known s.by_id node.id || not (contains valid_types node.type)
    then err bad_node
    else (check_config node >>= λ _. scan_nodes (record_node s node) nodes)

abbrev or_empty : Option (List WorkflowEdge) → List WorkflowEdge
or_empty none = []
or_empty (some es) = es

-- out[id]
unfoldable pub edges_at : EdgeMap → String → List WorkflowEdge
unfolding lookup
edges_at out id = or_empty (lookup id out)

-- The loop over the edges.
unfoldable pub scan_edges : NodeMap → EdgeMap → List WorkflowEdge → Result GraphError EdgeMap
unfolding is_known edges_at insert
scan_edges by_id out [] = ok out
scan_edges by_id out (edge ∷ edges) =
    if not (is_known by_id edge.from) || not (is_known by_id edge.to) || edge.from == edge.to
    then err bad_edge
    else scan_edges by_id (insert edge.from (edges_at out edge.from ++ edge ∷ []) out) edges

-- branches[condition]
abbrev pub branch_count : String → List WorkflowEdge → ℕ
branch_count wanted = count_if (λ e. e.condition == wanted)

-- The loop over the condition nodes.
unfoldable pub check_branches : EdgeMap → List WorkflowNode → Result GraphError (Unit {0})
unfolding edges_at
check_branches out [] = ok tt
check_branches out (node ∷ nodes) =
    if node.type == "condition"
      && not (
          branch_count "true" (edges_at out node.id) == 1
          && branch_count "false" (edges_at out node.id) == 1
          && length (edges_at out node.id) == 2)
    then err bad_branches
    else check_branches out nodes

-- The last node of type start.
unfoldable pub start_id : String → List WorkflowNode → String
start_id start [] = start
start_id start (node ∷ nodes) = start_id (if node.type == "start" then node.id else start) nodes

-- visited[id] = true
unfoldable pub mark : String → List String → List String
mark id visited = if contains visited id then visited else id ∷ visited

abbrev pub Step : Type 0
Step = List String → String → Result GraphError (List String)

-- The loop over a node's outgoing edges.
unfoldable pub walk_edges : Step → List String → List WorkflowEdge → Result GraphError (List String)
walk_edges step visited [] = ok visited
walk_edges step visited (edge ∷ edges) = step visited edge.to >>= λ v. walk_edges step v edges

abbrev pub is_empty : List WorkflowEdge → Bool
is_empty [] = true
is_empty (_ ∷ _) = false

unfoldable pub walk : NodeMap → EdgeMap → ℕ → List String → Step
unfolding walk_edges mark edges_at type_of
walk by_id out zero visiting visited id = err out_of_fuel
walk by_id out (suc fuel) visiting visited id =
    if contains visiting id
    then err cycle
    else if contains visited id
    then ok visited
    else if not (type_of by_id id == "end") && is_empty (edges_at out id)
    then err (dead_end id)
    else (walk_edges (λ v to. walk by_id out fuel (id ∷ visiting) v to) visited (edges_at out id)
        >>= λ v. ok (mark id v))

-- The steps after the loop over the nodes.
abbrev pub after_scan : List WorkflowNode → List WorkflowEdge → Scan → Result GraphError (Unit {0})
after_scan nodes edges scan = do
  guard (scan.starts == 1 && not (ltb scan.ends 1)) starts_and_ends
  out ← scan_edges scan.by_id [] edges
  check_branches out nodes
  visited ← walk scan.by_id out (suc (length nodes)) [] [] (start_id "" nodes)
  guard (length visited == length nodes) not_reachable

unfoldable pub validate_workflow_graph :
    List WorkflowNode → List WorkflowEdge → Result GraphError (Unit {0})
unfolding scan_nodes scan_edges check_branches start_id walk
validate_workflow_graph nodes edges =
    if ltb (length nodes) 2 || ltb 100 (length nodes)
    then err node_count
    else (scan_nodes (record { by_id = []; starts = 0; ends = 0 }) nodes >>= λ scan.
        after_scan nodes edges scan)
