-- ===== src/Forms/Model.antt =====
-- FormComponent, FormDefinition and DefineFormInput of backend/internal/model/lowcode.go. Times are left
-- out.
use nexa_flow.Prelude.{Bool, List, String, ℕ}
use nexa_flow.Prelude.Int.{ℤ}
use nexa_flow.Values.{Dict}

pub record FormComponent : Type 0 where
  pub field_name : String
  pub widget : String
  pub label : String
  pub required : Bool
  pub position : ℕ
  pub props : Dict

pub record FormDefinition : Type 0 where
  pub id : String
  pub entity_id : String
  pub name : String
  pub slug : String
  pub description : String
  pub json_schema : Dict
  pub components : List FormComponent
  pub version : ℤ
  pub status : String

pub record DefineFormInput : Type 0 where
  pub id : String
  pub entity_id : String
  pub name : String
  pub slug : String
  pub description : String
  pub expected_version : ℤ
  pub components : List FormComponent
