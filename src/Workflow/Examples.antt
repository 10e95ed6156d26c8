-- ===== src/Workflow/Examples.antt =====
-- Tests of the workflow engine, after backend/internal/service/workflow_service_test.go.
use nexa_flow.Prelude.{
  ℕ, zero, suc, length, sym, ap, ◌∙◌, ◌==◌, true, string_eq, arith, Result, All, ◌≡◌, refl, inl,
  List, [], ◌∷◌, String, ok, err, none, false, String_discrete, ℕ_discrete,
}
use nexa_flow.Prelude.Int.{pos, ℤ_discrete}
use nexa_flow.Patterns.{codes, entity_slug_pattern}
use nexa_flow.Strings.{trim_space}
use nexa_flow.Values.{Dict, Format, text, value_at}
use nexa_flow.Workflow.Model.{
  WorkflowNode, WorkflowEdge, WorkflowDefinition, WorkflowTransition, WorkflowInstance,
  WorkflowActionInput, DefineWorkflowInput,
}
use nexa_flow.Workflow.Validation.{validate_workflow_graph, cycle, no_assignee_role}
use nexa_flow.Workflow.Traversal.{traverse, has_role}
use nexa_flow.Workflow.Repository.{Tables, define_workflow, start_instance, get_instance, advance}
use nexa_flow.Workflow.Versions.{IsCounted, IsKeyed}
use nexa_flow.Workflow.History.{
  Call, to_define, to_start, no_rows, repository, serve, serve_all, serve_all-counted,
}
use nexa_flow.Workflow.Once.{act-once}
use nexa_flow.Workflow.Service.{WorkflowError, WorkflowRepository, act}
use nexa_flow.Workflow.Acyclic.{IsAcyclic, validate_workflow_graph-IsAcyclic}
use nexa_flow.Workflow.Progress.{IsResting}
use nexa_flow.Workflow.Totality.{traverse-total}
use nexa_flow.Workflow.Guards.{Granted, act-Granted}

abbrev node : String → String → Dict → WorkflowNode
node id type config = record {
  id = id;
  type = type;
  name = "";
  config = config;
  x = pos 0;
  y = pos 0;
}

abbrev edge : String → String → String → WorkflowEdge
edge from to condition = record { from = from; to = to; condition = condition }

abbrev approval_nodes : List WorkflowNode
approval_nodes =
    node "start" "start" []
    ∷ node "approve" "approval" (("assignee_role", text "admin") ∷ [])
    ∷ node "end" "end" []
    ∷ []

abbrev approval_edges : List WorkflowEdge
approval_edges = edge "start" "approve" "" ∷ edge "approve" "end" "" ∷ []

approval_accepted : validate_workflow_graph approval_nodes approval_edges ≡ ok tt
unfolding validate_workflow_graph String_discrete ℕ_discrete
approval_accepted = refl

cycle_refused :
    validate_workflow_graph approval_nodes
      (edge "start" "approve" "" ∷ edge "approve" "start" "" ∷ [])
    ≡ err cycle
unfolding validate_workflow_graph String_discrete ℕ_discrete
cycle_refused = refl

role_required :
    validate_workflow_graph
      (node "start" "start" [] ∷ node "approve" "approval" [] ∷ node "end" "end" [] ∷ [])
      approval_edges
    ≡ err no_assignee_role
unfolding validate_workflow_graph String_discrete ℕ_discrete
role_required = refl

abbrev plain : Format
plain = record { sprint = λ v. ""; parse_float = λ s. none; float_gt = λ a b. false }

abbrev approval_flow : WorkflowDefinition
approval_flow = record {
  id = "w";
  entity_id = "e";
  name = "Approval";
  slug = "approval";
  description = "";
  nodes = approval_nodes;
  edges = approval_edges;
  version = pos 1;
  status = "active";
}

stops_at_approval :
    traverse plain approval_flow "" [] "user-1"
    ≡ ok (record { current_node_id = "approve"; status = "pending"; notifications = [] })
unfolding traverse String_discrete
stops_at_approval = refl

validate_workflow_graph-IsAcyclic_example : IsAcyclic approval_nodes approval_edges
unfolding validate_workflow_graph String_discrete ℕ_discrete
validate_workflow_graph-IsAcyclic_example =
    validate_workflow_graph-IsAcyclic approval_nodes approval_edges refl

traverse-total_example :
    (t : WorkflowTransition) × (traverse plain approval_flow "" [] "user-1" ≡ ok t)
    × IsResting approval_nodes t
unfolding validate_workflow_graph String_discrete ℕ_discrete
traverse-total_example =
    traverse-total plain approval_flow "" [] "user-1" refl
      (λ p q. refl, (λ p q. refl, (λ p q. absurd (q refl), tt))) (inl refl)

abbrev pending : WorkflowInstance
pending = record {
  id = "i";
  tenant_id = "t";
  workflow_id = "w";
  entity_id = "e";
  record_id = "r";
  current_node_id = "approve";
  status = "pending";
  version = pos 2;
  submitted_by = "user-1";
}

-- A repository of one workflow and one instance.
abbrev single : WorkflowRepository (List String)
single = record {
  define = λ s t input. ok (approval_flow, "define" ∷ s);
  get = λ s t id. ok approval_flow;
  archive = λ s t id v. ok s;
  start = λ s t d r a transition. ok (pending, "start" ∷ s);
  get_instance = λ s t id. ok pending;
  advance = λ s t i a input transition. ok (i, "advance" ∷ s);
  model_get = λ s t id. ok tt;
  record_get = λ s t e id. ok [];
}

abbrev approval : WorkflowActionInput
approval = record { action = "approve"; comment = ""; expected_version = pos 2 }

abbrev request : DefineWorkflowInput
request = record {
  id = "";
  entity_id = "e";
  name = "Approval";
  slug = "approval";
  description = "";
  expected_version = pos 0;
  nodes = approval_nodes;
  edges = approval_edges;
}

act-Granted_example :
    Granted single plain [] "t" "i" "boss" ("admin" ∷ []) approval (pending, "advance" ∷ [])
unfolding act traverse has_role value_at String_discrete ℤ_discrete ℕ_discrete
act-Granted_example =
    act-Granted single plain [] "t" "i" "boss" ("admin" ∷ []) approval (pending, "advance" ∷ [])
      refl

abbrev draw : ℕ → String
draw zero = "w"
draw (suc n) = String.◌∷◌ "i" (draw n)

length-draw : (n : ℕ) → length (codes (draw n)) ≡ suc n
length-draw zero = refl
length-draw (suc n) = ap suc (length-draw n)

suc_injective : {m n : ℕ} → suc m ≡ suc n → m ≡ n
suc_injective h = omega arith

draw_injective : (m n : ℕ) → (draw m == draw n) ≡ true → m ≡ n
draw_injective m n h =
    let same : draw m ≡ draw n = ground arith in
    suc_injective (sym (length-draw m) ∙ ap (λ s. length (codes s)) same ∙ length-draw n)

abbrev no_model : Tables → String → String → Result WorkflowError (Unit {0})
no_model s t id = ok tt

abbrev no_values : Tables → String → String → String → Result WorkflowError Dict
no_values s t e id = ok []

abbrev opening : List Call
opening = to_define "t" request ∷ to_start "t" "w" "r" "user-1" ∷ []

abbrev first_approval : WorkflowActionInput
first_approval = record { action = "approve"; comment = ""; expected_version = pos 1 }

serve_all-counted_example :
    IsKeyed (serve_all draw (λ s. s) plain no_model no_values opening no_rows).instances
    × All
        (IsCounted (serve_all draw (λ s. s) plain no_model no_values opening no_rows).actions)
        (serve_all draw (λ s. s) plain no_model no_values opening no_rows).instances
serve_all-counted_example =
    serve_all-counted draw (λ s. s) plain no_model no_values draw_injective opening

abbrev or_else {ℓ} : {A : Type ℓ} → A → Result WorkflowError A → A
or_else d (ok a) = a
or_else d (err e) = d

first_result : WorkflowInstance × Tables
first_result =
    or_else (pending, no_rows)
      (act (repository draw (λ s. s) plain no_model no_values) plain
        (serve_all draw (λ s. s) plain no_model no_values opening no_rows) "t" "iw" "boss"
        ("admin" ∷ []) first_approval)

act-once_example :
    (e : WorkflowError) × (act
        (repository draw (λ s. s) plain no_model no_values)
        plain
        (serve_all draw
          (λ s. s)
          plain
          no_model
          no_values
          (to_start "t" "w" "r" "user-2" ∷ [])
          first_result.1)
        "t"
        "iw"
        "deputy"
        ("super_admin" ∷ [])
        first_approval
      ≡ err e)
unfolding first_result serve_all serve define_workflow start_instance get_instance advance act
    traverse has_role value_at validate_workflow_graph trim_space entity_slug_pattern
    String_discrete ℤ_discrete ℕ_discrete
act-once_example =
    act-once draw (λ s. s) plain no_model no_values draw_injective opening
      (to_start "t" "w" "r" "user-2" ∷ []) "t" "iw" "boss" "deputy" ("admin" ∷ [])
      ("super_admin" ∷ []) first_approval first_approval first_result refl refl
