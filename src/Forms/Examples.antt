-- ===== src/Forms/Examples.antt =====
-- A form of two fields.
use nexa_flow.Prelude.{
  ℕ, none, ◌+◌, ◌-◌, ◌≡◌, refl, true, false, List, [], ◌∷◌, String, Result, ok, err, map,
  String_discrete, ℕ_discrete,
}
use nexa_flow.Prelude.Int.{ℤ, negsuc, pos, ℤ_discrete}
use nexa_flow.Patterns.{entity_slug_pattern}
use nexa_flow.Strings.{trim_space}
use nexa_flow.Values.{Value, Dict}
use nexa_flow.Entities.Records.{
  RecordError, Readers, RecordStore, create_record, delete_record, validate_record_values,
}
use nexa_flow.Prelude.Maps.{lookup, insert}
use nexa_flow.Forms.Submission.{SubmissionStore, SubmissionError, submit}
use nexa_flow.Entities.Model.{RecordView, FieldDefinition, EntityDefinition}
use nexa_flow.Forms.Model.{FormComponent, FormDefinition, DefineFormInput}
use nexa_flow.Forms.Schema.{
  FormError, duplicate_field, incompatible_widget, Generated, generate_form, form_schema, FormStore,
  normal_form, define_form,
}
use nexa_flow.Forms.Generated.{Accepted, IsSchema, define_form-Accepted}

abbrev title : FieldDefinition
title = record {
  id = "";
  name = "title";
  label = "Title";
  type = "string";
  required = true;
  default = Value.null;
  options = [];
  position = 0;
}

abbrev paid : FieldDefinition
paid = record title { name = "paid"; label = "Paid"; type = "boolean"; required = false }

abbrev orders : EntityDefinition
orders = record {
  id = "e";
  tenant_id = "t";
  name = "Orders";
  slug = "orders";
  description = "";
  version = pos 1;
  status = "active";
  fields = title ∷ paid ∷ [];
}

abbrev component : String → String → FormComponent
component name widget = record {
  field_name = name;
  widget = widget;
  label = "";
  required = false;
  position = 0;
  props = [];
}

abbrev request : DefineFormInput
request = record {
  id = "";
  entity_id = "e";
  name = "Order";
  slug = "order";
  description = "";
  expected_version = pos 0;
  components = component "paid" "checkbox" ∷ component " title " "input" ∷ [];
}

twice_refused :
    generate_form
      (λ s. s)
      orders
      (record request {
        components = component "paid" "checkbox" ∷ component "paid" "checkbox" ∷ [];
      })
    ≡ err (duplicate_field "paid")
unfolding generate_form trim_space String_discrete ℕ_discrete
twice_refused = refl

widget_refused :
    generate_form (λ s. s) orders (record request { components = component "paid" "input" ∷ [] })
    ≡ err (incompatible_widget "input" "paid")
unfolding generate_form trim_space String_discrete ℕ_discrete
widget_refused = refl

abbrev stored : DefineFormInput → Dict → FormDefinition
stored input schema = record {
  id = "f";
  entity_id = input.entity_id;
  name = input.name;
  slug = input.slug;
  description = input.description;
  json_schema = schema;
  components = input.components;
  version = pos 1;
  status = "active";
}

abbrev kept : FormStore (List FormDefinition)
kept = record {
  define = λ s t input schema. ok (stored input schema, stored input schema ∷ s);
  get = λ s t id. err (FormError.other "form not found");
  archive = λ s t id v. ok s;
  model_get = λ s t id. ok orders;
}

abbrev or_else {ℓ} : {A : Type ℓ} → A → Result FormError A → A
or_else d (ok a) = a
or_else d (err e) = d

-- What Define answers for the form.
defined : FormDefinition × List FormDefinition
defined = or_else (stored request [], []) (define_form (λ s. s) kept [] "t" request)

title_required : map (λ c. FormComponent.required c) (defined.0).components ≡ false ∷ true ∷ []
unfolding defined define_form generate_form trim_space entity_slug_pattern String_discrete
    ℤ_discrete ℕ_discrete
title_required = refl

define_form-Accepted_example :
    (entity : EntityDefinition) × (g : Generated) × (kept.model_get [] "t" "e" ≡ ok entity)
    × Accepted entity.fields [] g
    × IsSchema "Order" g.components (form_schema "Order" g)
    × (kept.define [] "t"
          (record (normal_form (λ s. s) kept request) { components = g.components })
          (form_schema (trim_space "Order") g)
        ≡ ok defined)
unfolding defined define_form generate_form trim_space entity_slug_pattern String_discrete
    ℤ_discrete ℕ_discrete
define_form-Accepted_example = define_form-Accepted (λ s. s) kept [] "t" request defined refl

abbrev change : ℕ → ℤ → Result RecordError (Unit {0}) × ℕ
change n (pos k) = (ok tt, n + k)
change n (negsuc k) = (ok tt, n - (k + 1))

abbrev view : RecordView
view = record {
  id = "r";
  entity_id = "e";
  values = [];
  version = pos 1;
  created_by = "u";
  updated_by = "u";
}

-- Records by their count alone, and submissions that are not saved.
abbrev records : RecordStore ℕ
records = record {
  get_schema = λ s t e. ok orders;
  create = λ s t e a v. (ok view, s);
  update = λ s t e i a n v. (ok view, s);
  delete = λ s t e i v. (ok tt, s);
  consume = λ s t m q. change s q;
}

abbrev unsaved : SubmissionStore ℕ
unsaved = record {
  get_form = λ s t id. ok (stored request []);
  save = λ s t f e r a v. (err (SubmissionError.other "disk"), s);
}

abbrev readers : Readers
readers = record {
  sprint_float = λ n. "";
  is_date = λ t. false;
  is_datetime = λ t. false;
  mail_address = λ t. none;
  request_uri = λ t. none;
}

abbrev filled : Dict
filled = ("title", Value.text "Chair") ∷ []

-- A record whose submission is not saved is deleted, and its unit given back.
undone :
    submit readers records unsaved 4 "t" "f" "" filled ≡ (err (SubmissionError.other "disk"), 4)
unfolding submit create_record delete_record validate_record_values lookup insert trim_space
    String_discrete ℕ_discrete ℤ_discrete
undone = refl
