-- ===== src/Workflow/Repository.antt =====
-- backend/internal/repository/workflow_repository.go over tables that are lists. The nodes and the
-- edges of a row are kept as they are, where the code writes them as JSON and reads them back; a new
-- id is what `uuid` draws. A transaction that fails leaves the tables as they were, and failures of
-- the database itself are left out, as are times.
use nexa_flow.Prelude.{
  ℕ, suc, Bool, not, ◌&&◌, List, [], ◌∷◌, ◌++◌, map, any, find_first, Option, none, some, String,
  Result, ok, err, ◌>>=◌, ◌==◌, if◌then◌else◌, string_eq,
}
use nexa_flow.Prelude.Int.{ℤ, pos, int_eq, ◌+ℤ◌}
use nexa_flow.Values.{Dict}
use nexa_flow.Workflow.Model.{
  WorkflowDefinition, DefineWorkflowInput, WorkflowInstance, WorkflowAction, Notification,
  WorkflowActionInput, WorkflowTransition,
}
use nexa_flow.Workflow.Service.{WorkflowError, WorkflowRepository, other}

-- A row of workflows, in its tenant.
pub record WorkflowRow : Type 0 where
  pub tenant_id : String
  pub workflow : WorkflowDefinition

pub record Tables : Type 0 where
  pub workflows : List WorkflowRow
  pub instances : List WorkflowInstance
  pub actions : List WorkflowAction
  pub notifications : List Notification
  -- How many ids have been drawn.
  pub drawn : ℕ

abbrev pub or_fail {ℓ} : {A : Type ℓ} → String → Option A → Result WorkflowError A
or_fail message none = err (other message)
or_fail message (some a) = ok a

-- tenant_id = ? AND id = ? AND status = 'active'
abbrev pub is_active_row : String → String → WorkflowRow → Bool
is_active_row tenant_id id row =
    row.tenant_id == tenant_id
    && WorkflowDefinition.id row.workflow == id
    && WorkflowDefinition.status row.workflow == "active"

abbrev pub has_slug : String → String → WorkflowRow → Bool
has_slug tenant_id slug row =
    row.tenant_id == tenant_id && WorkflowDefinition.slug row.workflow == slug

abbrev pub set_workflow : WorkflowDefinition → WorkflowRow → WorkflowRow
set_workflow workflow row = record row { workflow = workflow }

abbrev pub revised : DefineWorkflowInput → WorkflowDefinition → WorkflowDefinition
revised input workflow = record workflow {
  name = input.name;
  slug = input.slug;
  description = input.description;
  nodes = input.nodes;
  edges = input.edges;
  version = workflow.version +ℤ pos 1;
}

-- Define of a saved workflow, whose row is updated by its primary key
abbrev pub define_saved :
    Tables
    → String
    → DefineWorkflowInput
    → WorkflowDefinition
    → Result WorkflowError (WorkflowDefinition × Tables)
define_saved s tenant_id input workflow =
    if not (workflow.version == input.expected_version)
    then err (other "workflow version conflict")
    else if not (workflow.entity_id == input.entity_id)
    then err (other "workflow version conflict")
    else if any
        (λ row.
          has_slug tenant_id input.slug row
          && not (WorkflowDefinition.id (WorkflowRow.workflow row) == input.id))
        s.workflows
    then err (other "workflow slug already exists")
    else ok (
      revised input workflow,
      record s {
        workflows =
            map
              (λ row.
                if WorkflowDefinition.id (WorkflowRow.workflow row) == input.id
                then set_workflow (revised input workflow) row
                else row)
              s.workflows;
      },
    )

abbrev pub get_workflow : Tables → String → String → Result WorkflowError WorkflowDefinition
get_workflow s tenant_id id =
    or_fail "workflow not found" (find_first (is_active_row tenant_id id) s.workflows) >>= λ row.
    ok (WorkflowRow.workflow row)

abbrev pub archived : WorkflowRow → WorkflowRow
archived row = record row {
  workflow = record row.workflow {
    status = "archived";
    version = WorkflowDefinition.version row.workflow +ℤ pos 1;
  };
}

abbrev pub at_version : String → String → ℤ → WorkflowRow → Bool
at_version tenant_id id version row =
    is_active_row tenant_id id row && WorkflowDefinition.version row.workflow == version

-- Archive
unfoldable pub archive_workflow : Tables → String → String → ℤ → Result WorkflowError Tables
archive_workflow s tenant_id id version =
    if any (at_version tenant_id id version) s.workflows
    then ok (record s {
      workflows =
          map (λ row. if at_version tenant_id id version row then archived row else row)
            s.workflows;
    })
    else if any (is_active_row tenant_id id) s.workflows
    then err (other "workflow version conflict")
    else err (other "workflow not found")

abbrev pub count_drawn : ℕ → List Notification → ℕ
count_drawn n [] = n
count_drawn n (x ∷ xs) = count_drawn (suc n) xs

abbrev pub is_instance : String → String → WorkflowInstance → Bool
is_instance tenant_id id x = x.tenant_id == tenant_id && x.id == id

-- GetInstance
unfoldable pub get_instance : Tables → String → String → Result WorkflowError WorkflowInstance
get_instance s tenant_id id =
    or_fail "workflow instance not found" (find_first (is_instance tenant_id id) s.instances)

-- tenant_id = ? AND id = ? AND status = 'pending' AND version = ?
abbrev pub is_pending_at : String → String → ℤ → WorkflowInstance → Bool
is_pending_at tenant_id id version x =
    is_instance tenant_id id x && x.status == "pending" && x.version == version

abbrev pub moved : WorkflowTransition → WorkflowInstance → WorkflowInstance
moved transition x = record x {
  current_node_id = transition.current_node_id;
  status = transition.status;
  version = WorkflowInstance.version x +ℤ pos 1;
}

abbrev pub move_rows :
    String → String → ℤ → WorkflowTransition → List WorkflowInstance → List WorkflowInstance
move_rows tenant_id id version transition instances =
    map (λ x. if is_pending_at tenant_id id version x then moved transition x else x) instances

module _ (uuid : ℕ → String) where
  abbrev pub first_version : Tables → DefineWorkflowInput → WorkflowDefinition
  first_version s input = record {
    id = uuid s.drawn;
    entity_id = input.entity_id;
    name = input.name;
    slug = input.slug;
    description = input.description;
    nodes = input.nodes;
    edges = input.edges;
    version = pos 1;
    status = "active";
  }

  -- Define of a new workflow
  abbrev pub define_new :
      Tables → String → DefineWorkflowInput → Result WorkflowError (WorkflowDefinition × Tables)
  define_new s tenant_id input =
      if any (has_slug tenant_id input.slug) s.workflows
      then err (other "workflow slug already exists")
      else ok (
        first_version s input,
        record s {
          workflows =
              s.workflows
              ++ record { tenant_id = tenant_id; workflow = first_version s input } ∷ [];
          drawn = suc s.drawn;
        },
      )

  -- Define
  unfoldable pub define_workflow :
      Tables → String → DefineWorkflowInput → Result WorkflowError (WorkflowDefinition × Tables)
  define_workflow s tenant_id input =
      if input.id == ""
      then define_new s tenant_id input
      else (get_workflow s tenant_id input.id >>= define_saved s tenant_id input)

  -- createNotifications, from an id on
  abbrev pub stamped : String → String → ℕ → List Notification → List Notification
  stamped tenant_id instance_id n [] = []
  stamped tenant_id instance_id n (x ∷ xs) =
      record x {
        id = uuid n;
        tenant_id = tenant_id;
        instance_id = instance_id;
        user_id =
            if Notification.user_id x == ""
            then "00000000-0000-0000-0000-000000000000"
            else Notification.user_id x;
      }
      ∷ stamped tenant_id instance_id (suc n) xs

  abbrev pub started :
      Tables → String → WorkflowDefinition → String → String → WorkflowTransition → WorkflowInstance
  started s tenant_id definition record_id actor_id transition = record {
    id = uuid s.drawn;
    tenant_id = tenant_id;
    workflow_id = definition.id;
    entity_id = definition.entity_id;
    record_id = record_id;
    current_node_id = transition.current_node_id;
    status = transition.status;
    version = pos 1;
    submitted_by = actor_id;
  }

  -- Start
  unfoldable pub start_instance :
      Tables
      → String
      → WorkflowDefinition
      → String
      → String
      → WorkflowTransition
      → Result WorkflowError (WorkflowInstance × Tables)
  start_instance s tenant_id definition record_id actor_id transition = ok (
    started s tenant_id definition record_id actor_id transition,
    record s {
      instances = s.instances ++ started s tenant_id definition record_id actor_id transition ∷ [];
      notifications =
          s.notifications
          ++ stamped tenant_id (uuid s.drawn) (suc s.drawn) transition.notifications;
      drawn = count_drawn (suc s.drawn) transition.notifications;
    },
  )

  abbrev pub action_of :
      Tables → String → WorkflowInstance → String → WorkflowActionInput → WorkflowAction
  action_of s tenant_id instance_ actor_id input = record {
    id = uuid s.drawn;
    tenant_id = tenant_id;
    instance_id = instance_.id;
    node_id = instance_.current_node_id;
    actor_id = actor_id;
    action = input.action;
    comment = input.comment;
  }

  -- Advance
  unfoldable pub advance :
      Tables
      → String
      → WorkflowInstance
      → String
      → WorkflowActionInput
      → WorkflowTransition
      → Result WorkflowError (WorkflowInstance × Tables)
  advance s tenant_id instance_ actor_id input transition =
      if any (is_pending_at tenant_id instance_.id input.expected_version) s.instances
      then ok (
        moved transition instance_,
        record s {
          instances =
              move_rows tenant_id instance_.id input.expected_version transition s.instances;
          actions = s.actions ++ action_of s tenant_id instance_ actor_id input ∷ [];
          notifications =
              s.notifications
              ++ stamped tenant_id instance_.id (suc s.drawn) transition.notifications;
          drawn = count_drawn (suc s.drawn) transition.notifications;
        },
      )
      else err (other "workflow instance version conflict")

  -- NewWorkflowRepository, beside readers of the entity schemas and of the records.
  abbrev pub workflow_repository :
      (Tables → String → String → Result WorkflowError (Unit {0}))
      → (Tables → String → String → String → Result WorkflowError Dict)
      → WorkflowRepository Tables
  workflow_repository model_get record_get = record {
    define = define_workflow;
    get = get_workflow;
    archive = archive_workflow;
    start = start_instance;
    get_instance = get_instance;
    advance = advance;
    model_get = model_get;
    record_get = record_get;
  }
