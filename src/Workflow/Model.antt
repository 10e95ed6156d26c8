-- ===== src/Workflow/Model.antt =====
-- The data of the workflow engine (backend/internal/model/workflow.go). Times are left out.
use nexa_flow.Prelude.{List, String}
use nexa_flow.Prelude.Int.{ℤ}
use nexa_flow.Values.{Dict}

pub record WorkflowNode : Type 0 where
  pub id : String
  pub type : String
  pub name : String
  pub config : Dict
  pub x : ℤ
  pub y : ℤ

pub record WorkflowEdge : Type 0 where
  pub from : String
  pub to : String
  pub condition : String

pub record WorkflowDefinition : Type 0 where
  pub id : String
  pub entity_id : String
  pub name : String
  pub slug : String
  pub description : String
  pub nodes : List WorkflowNode
  pub edges : List WorkflowEdge
  pub version : ℤ
  pub status : String

pub record DefineWorkflowInput : Type 0 where
  pub id : String
  pub entity_id : String
  pub name : String
  pub slug : String
  pub description : String
  pub expected_version : ℤ
  pub nodes : List WorkflowNode
  pub edges : List WorkflowEdge

pub record WorkflowInstance : Type 0 where
  pub id : String
  pub tenant_id : String
  pub workflow_id : String
  pub entity_id : String
  pub record_id : String
  pub current_node_id : String
  pub status : String
  pub version : ℤ
  pub submitted_by : String

pub record WorkflowAction : Type 0 where
  pub id : String
  pub tenant_id : String
  pub instance_id : String
  pub node_id : String
  pub actor_id : String
  pub action : String
  pub comment : String

pub record Notification : Type 0 where
  pub id : String
  pub tenant_id : String
  pub user_id : String
  pub instance_id : String
  pub channel : String
  pub recipient : String
  pub subject : String
  pub body : String
  pub status : String

pub record WorkflowActionInput : Type 0 where
  pub action : String
  pub comment : String
  pub expected_version : ℤ

pub record WorkflowTransition : Type 0 where
  pub current_node_id : String
  pub status : String
  pub notifications : List Notification
