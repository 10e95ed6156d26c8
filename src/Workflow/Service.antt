-- ===== src/Workflow/Service.antt =====
-- Define, Archive, Start and Act of backend/internal/service/workflow_service.go. The repository and
-- the two other services are Go interfaces there, and records here; a state `S` stands for what
-- they store. Tracing is left out.
use nexa_flow.Prelude.{
  Bool, not, ◌&&◌, ◌||◌, List, [], Option, none, some, String, Result, ok, err, ◌>>=◌, ◌>>◌, guard,
  ltb, ◌==◌, if◌then◌else◌, string_eq,
}
use Prim.Native.String.{len}
use nexa_flow.Prelude.Int.{ℤ, pos, ltb_ℤ, int_eq}
use nexa_flow.Patterns.{entity_slug_pattern}
use nexa_flow.Strings.{trim_space}
use nexa_flow.Values.{Dict, Format, value_at, as_text}
use nexa_flow.Workflow.Model.{
  WorkflowNode, WorkflowDefinition, DefineWorkflowInput, WorkflowInstance, WorkflowActionInput,
  WorkflowTransition,
}
use nexa_flow.Workflow.Validation.{GraphError, validate_workflow_graph}
use nexa_flow.Workflow.Traversal.{TraverseError, find_node, has_role, traverse}

-- ErrInvalidWorkflow and ErrWorkflowActionDenied by their causes, and the errors of the others.
pub data WorkflowError : Type 0 where
  invalid_name : WorkflowError
  version_required : WorkflowError
  entity_changed : WorkflowError
  invalid_graph : GraphError → WorkflowError
  invalid_path : TraverseError → WorkflowError
  invalid_action : WorkflowError
  not_actionable : WorkflowError
  not_approval : WorkflowError
  role_required : String → WorkflowError
  other : String → WorkflowError

-- WorkflowRepository, and the calls of DynamicModelService and DynamicRecordService.
pub record WorkflowRepository (S : Type 0) : Type 0 where
  pub define : S → String → DefineWorkflowInput → Result WorkflowError (WorkflowDefinition × S)
  pub get : S → String → String → Result WorkflowError WorkflowDefinition
  pub archive : S → String → String → ℤ → Result WorkflowError S
  pub start :
      S
      → String
      → WorkflowDefinition
      → String
      → String
      → WorkflowTransition
      → Result WorkflowError (WorkflowInstance × S)
  pub get_instance : S → String → String → Result WorkflowError WorkflowInstance
  pub advance :
      S
      → String
      → WorkflowInstance
      → String
      → WorkflowActionInput
      → WorkflowTransition
      → Result WorkflowError (WorkflowInstance × S)
  pub model_get : S → String → String → Result WorkflowError (Unit {0})
  pub record_get : S → String → String → String → Result WorkflowError Dict

unfoldable pub lift_graph : Result GraphError (Unit {0}) → Result WorkflowError (Unit {0})
lift_graph (ok u) = ok u
lift_graph (err e) = err (invalid_graph e)

unfoldable pub lift_path :
    Result TraverseError WorkflowTransition → Result WorkflowError WorkflowTransition
lift_path (ok t) = ok t
lift_path (err e) = err (invalid_path e)

-- The input with its texts trimmed; strings.ToLower is `to_lower`.
abbrev pub normalize : (String → String) → DefineWorkflowInput → DefineWorkflowInput
normalize to_lower input = record input {
  name = trim_space input.name;
  slug = to_lower (trim_space input.slug);
  description = trim_space input.description;
}

abbrev pub bad_names : DefineWorkflowInput → Bool
bad_names input =
    ltb (len input.name) 2
    || ltb 120 (len input.name)
    || not (entity_slug_pattern input.slug)
    || ltb 500 (len input.description)

unfoldable pub required_role : WorkflowNode → String
required_role node = as_text (value_at "assignee_role" node.config)

-- node == nil || node.Type != "approval", and the check of the role.
unfoldable pub authorize : List String → Option WorkflowNode → Result WorkflowError WorkflowNode
authorize roles none = err not_approval
authorize roles (some node) =
    if not (node.type == "approval")
    then err not_approval
    else if not (required_role node == "")
        && not (has_role roles (required_role node))
        && not (has_role roles "super_admin")
    then err (role_required (required_role node))
    else ok node

module _ {S : Type 0} (repo : WorkflowRepository S) where
  -- A saved workflow keeps its entity.
  unfoldable pub check_entity : S → String → DefineWorkflowInput → Result WorkflowError (Unit {0})
  check_entity s tenant_id input =
      if input.id == ""
      then ok tt
      else (repo.get s tenant_id input.id >>= λ existing.
          guard (existing.entity_id == input.entity_id) entity_changed)

  unfoldable pub define_checked :
      S → String → DefineWorkflowInput → Result WorkflowError (WorkflowDefinition × S)
  define_checked s tenant_id input =
      if bad_names input
      then err invalid_name
      else if not (input.id == "") && ltb_ℤ input.expected_version (pos 1)
      then err version_required
      else do
        check_entity s tenant_id input
        repo.model_get s tenant_id input.entity_id
        lift_graph (validate_workflow_graph input.nodes input.edges)
        repo.define s tenant_id input

  unfoldable pub define :
      (String → String)
      → S
      → String
      → DefineWorkflowInput
      → Result WorkflowError (WorkflowDefinition × S)
  unfolding define_checked check_entity lift_graph
  define to_lower s tenant_id input = define_checked s tenant_id (normalize to_lower input)

  unfoldable pub archive : S → String → String → ℤ → Result WorkflowError S
  archive s tenant_id id version =
      if ltb_ℤ version (pos 1) then err version_required else repo.archive s tenant_id id version

  unfoldable pub start :
      Format → S → String → String → String → String → Result WorkflowError (WorkflowInstance × S)
  unfolding lift_path
  start fmt s tenant_id workflow_id record_id actor_id = do
    definition ← repo.get s tenant_id workflow_id
    values ← repo.record_get s tenant_id definition.entity_id record_id
    transition ← lift_path (traverse fmt definition "" values actor_id)
    repo.start s tenant_id definition record_id actor_id transition

  -- The transition of an action: a rejection stays at the node, an approval goes on from it.
  unfoldable pub decide :
      Format
      → S
      → String
      → WorkflowInstance
      → WorkflowDefinition
      → WorkflowNode
      → String
      → Result WorkflowError WorkflowTransition
  decide fmt s tenant_id instance_ definition node action =
      if action == "approve"
      then (repo.record_get s tenant_id instance_.entity_id instance_.record_id >>= λ values.
          lift_path (traverse fmt definition node.id values instance_.submitted_by))
      else ok (record { current_node_id = node.id; status = "rejected"; notifications = [] })

  unfoldable pub act :
      Format
      → S
      → String
      → String
      → String
      → List String
      → WorkflowActionInput
      → Result WorkflowError (WorkflowInstance × S)
  unfolding decide authorize required_role lift_path
  act fmt s tenant_id instance_id actor_id roles input =
      if ltb_ℤ input.expected_version (pos 1)
        || (not (input.action == "approve") && not (input.action == "reject"))
      then err invalid_action
      else do
        instance_ ← repo.get_instance s tenant_id instance_id
        guard (instance_.status == "pending" && instance_.version == input.expected_version)
            not_actionable
        definition ← repo.get s tenant_id instance_.workflow_id
        node ← authorize roles (find_node definition.nodes instance_.current_node_id)
        transition ← decide fmt s tenant_id instance_ definition node input.action
        repo.advance s tenant_id instance_ actor_id input transition
