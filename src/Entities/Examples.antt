-- ===== src/Entities/Examples.antt =====
-- Schemas and records on concrete inputs.
use nexa_flow.Prelude.{
  ℕ, ◌+◌, ◌≡◌, refl, Bool, true, false, [], ◌∷◌, none, some, String, Result, ok, err, contains, All,
  arith, string_eq, String_discrete, ℕ_discrete,
}
use nexa_flow.Prelude.Int.{pos, ℤ_discrete}
use nexa_flow.Prelude.Maps.{lookup, insert}
use nexa_flow.Strings.{trim_space}
use nexa_flow.Values.{Value, Dict}
use nexa_flow.Tenancy.{billing_tenant}
use nexa_flow.Billing.Model.{Tables}
use nexa_flow.Billing.Store.{CounterKey_discrete, quantity, plan_where}
use nexa_flow.Billing.Samples.{pro, subscribed, in_use, member, charge, charge-IsMeter}
use nexa_flow.Entities.Model.{
  FieldDefinition, EntityDefinition, DefineEntityInput, WriteRecordInput, RecordView,
}
use nexa_flow.Entities.Schema.{SchemaError}
use nexa_flow.Entities.Records.{
  RecordError, field_required, Readers, money_pattern, validate_record_values, RecordStore,
  create_record, delete_record,
}
use nexa_flow.Entities.Accepted.{names, Holds, validate_record_values-Holds}
use nexa_flow.Entities.Metering.{
  IsMetered, counted, released, create_record-used, delete_record-used,
}

abbrev field : String → String → Bool → Value → FieldDefinition
field name type required default = record {
  id = "";
  name = name;
  label = name;
  type = type;
  required = required;
  default = default;
  options = [];
  position = 0;
}

abbrev orders : EntityDefinition
orders = record {
  id = "e1";
  tenant_id = "t1";
  name = "Orders";
  slug = "orders";
  description = "";
  version = pos 1;
  status = "active";
  fields =
      field "title" "string" true Value.null ∷ field "paid" "boolean" false (Value.bool false) ∷ [];
}

abbrev no_readers : Readers
no_readers = record {
  sprint_float = λ n. "";
  is_date = λ t. false;
  is_datetime = λ t. false;
  mail_address = λ t. none;
  request_uri = λ t. none;
}

abbrev titled : Dict
titled = ("title", Value.text "A chair") ∷ []

abbrev kept : Dict
kept = ("title", Value.text "A chair") ∷ ("paid", Value.bool false) ∷ []

money_accepted : money_pattern "-12.50" ≡ true
unfolding money_pattern ℕ_discrete
money_accepted = refl

title_required : validate_record_values no_readers orders [] ≡ err (field_required "title")
unfolding validate_record_values lookup String_discrete
title_required = refl

validate_record_values-Holds_example :
    All
      (λ f.
        Holds no_readers f
          (lookup (FieldDefinition.name f) titled)
          (lookup (FieldDefinition.name f) kept))
      orders.fields
    × ((name : String)
        → contains (names orders.fields) name ≡ false
        → (lookup name titled ≡ none) × (lookup name kept ≡ none))
unfolding validate_record_values lookup insert trim_space String_discrete ℕ_discrete
validate_record_values-Holds_example =
    validate_record_values-Holds no_readers orders titled kept (refl, (refl, tt)) refl

abbrev order_input : DefineEntityInput
order_input = record {
  id = "";
  name = " Orders";
  slug = "orders";
  description = "";
  expected_version = pos 0;
  fields =
      field " title" "string" true Value.null
      ∷ field "paid" "boolean" false (Value.bool false)
      ∷ [];
}

abbrev save : ℕ → String → DefineEntityInput → Result SchemaError (EntityDefinition × ℕ)
save n tenant_id input = ok (orders, n + 1)

abbrev view : RecordView
view = record {
  id = "r1";
  entity_id = "e1";
  values = kept;
  version = pos 1;
  created_by = "u";
  updated_by = "u";
}

-- A repository that refuses to create, with billing as the meter.
abbrev refusing : RecordStore Tables
refusing = record {
  get_schema = λ s t e. ok orders;
  create = λ s t e a v. (err (RecordError.other "disk"), s);
  update = λ s t e i a n v. (ok view, s);
  delete = λ s t e i v. (ok tt, s);
  consume = charge (λ e. RecordError.other "quota");
}

abbrev refusing_metered : IsMetered refusing (λ s. s) (pos 7) (some member)
refusing_metered = record {
  meter = charge-IsMeter (λ e. RecordError.other "quota");
  create = λ s t e a v. refl;
  delete = λ s t e i v. refl;
}

abbrev write : WriteRecordInput
write = record { values = titled; expected_version = pos 1 }

create_record-used_example :
    quantity
      (create_record no_readers refusing in_use "t1" "e1" "u" write).1
      ("t1", "records", pos 7)
    ≡ pos (counted (create_record no_readers refusing in_use "t1" "e1" "u" write).0 4)
unfolding billing_tenant quantity CounterKey_discrete ℤ_discrete String_discrete ℕ_discrete
create_record-used_example =
    create_record-used no_readers refusing (λ s. s) (pos 7) (some member) refusing_metered "t1" 4
      refl in_use "e1" "u" write (omega arith) refl

delete_record-used_example :
    quantity
      (delete_record no_readers refusing in_use "t1" "e1" "r1" (pos 1)).1
      ("t1", "records", pos 7)
    ≡ pos (released (delete_record no_readers refusing in_use "t1" "e1" "r1" (pos 1)).0 4)
unfolding billing_tenant quantity lookup plan_where CounterKey_discrete ℤ_discrete String_discrete
    ℕ_discrete
delete_record-used_example =
    delete_record-used no_readers refusing (λ s. s) (pos 7) (some member) refusing_metered "t1" 4
      refl in_use "e1" "r1" (pos 1) subscribed pro refl refl (omega arith) refl
