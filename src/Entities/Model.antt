-- ===== src/Entities/Model.antt =====
-- FieldDefinition, EntityDefinition and DefineEntityInput of backend/internal/model/dynamic_model.go,
-- WriteRecordInput and RecordView of backend/internal/model/lowcode.go. Times are left out.
use nexa_flow.Prelude.{ℕ, Bool, List, String}
use nexa_flow.Prelude.Int.{ℤ}
use nexa_flow.Values.{Value, Dict}

pub record FieldDefinition : Type 0 where
  pub id : String
  pub name : String
  pub label : String
  pub type : String
  pub required : Bool
  pub default : Value
  pub options : List String
  pub position : ℕ

pub record EntityDefinition : Type 0 where
  pub id : String
  pub tenant_id : String
  pub name : String
  pub slug : String
  pub description : String
  pub version : ℤ
  pub status : String
  pub fields : List FieldDefinition

pub record DefineEntityInput : Type 0 where
  pub id : String
  pub name : String
  pub slug : String
  pub description : String
  pub expected_version : ℤ
  pub fields : List FieldDefinition

pub record WriteRecordInput : Type 0 where
  pub values : Dict
  pub expected_version : ℤ

pub record RecordView : Type 0 where
  pub id : String
  pub entity_id : String
  pub values : Dict
  pub version : ℤ
  pub created_by : String
  pub updated_by : String
