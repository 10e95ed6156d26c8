-- ===== src/Entities/Schema.antt =====
-- Define, Archive and validateEntitySchema of backend/internal/service/dynamic_model_service.go.
-- strings.ToLower and the repository are arguments.
use nexa_flow.Prelude.{
  ℕ, suc, Bool, true, false, not, ◌&&◌, ◌||◌, List, [], ◌∷◌, String, Result, ok, err, ◌>>=◌, ltb,
  ◌==◌, contains, length, if◌then◌else◌, string_eq, nat_eq,
}
use Prim.Native.String.{len}
use nexa_flow.Prelude.Int.{ℤ, pos, ltb_ℤ}
use nexa_flow.Patterns.{entity_slug_pattern, field_name_pattern}
use nexa_flow.Strings.{trim_space}
use nexa_flow.Values.{Value, Items}
use nexa_flow.Entities.Model.{FieldDefinition, EntityDefinition, DefineEntityInput}

-- ErrInvalidEntitySchema by its causes, and the errors of the repository.
pub data SchemaError : Type 0 where
  bad_name : SchemaError
  bad_slug : SchemaError
  bad_description : SchemaError
  bad_field_count : SchemaError
  bad_field_name : String → SchemaError
  reserved_name : String → SchemaError
  duplicate_field : String → SchemaError
  bad_label : String → SchemaError
  unsupported_type : String → String → SchemaError
  bad_option_count : String → SchemaError
  unexpected_options : String → String → SchemaError
  bad_option : String → SchemaError
  duplicate_option : String → String → SchemaError
  bad_default_type : String → String → SchemaError
  unknown_default : String → SchemaError
  version_required : SchemaError
  other : String → SchemaError

-- reservedFields and supportedFieldTypes
abbrev pub reserved_fields : List String
reserved_fields = "id" ∷ "tenant_id" ∷ "created_at" ∷ "updated_at" ∷ "deleted_at" ∷ []

abbrev pub supported_field_types : List String
supported_field_types =
    "string" ∷ "text" ∷ "number" ∷ "boolean" ∷ "date" ∷ "datetime" ∷ "select" ∷ "multiselect"
    ∷ "money" ∷ "email" ∷ "url" ∷ "user" ∷ "image" ∷ "attachment" ∷ []

-- The loop of validateFieldOptions.
unfoldable pub check_options : String → List String → List String → Result SchemaError (Unit {0})
check_options name seen [] = ok tt
check_options name seen (option ∷ options) =
    let value = trim_space option in
    let rest = check_options name (value ∷ seen) options in
    if value == "" || ltb 120 (len value)
    then err (bad_option name)
    else if contains seen value
    then err (duplicate_option name value)
    else rest

abbrev pub takes_options : String → Bool
takes_options type = type == "select" || type == "multiselect"

-- validateFieldOptions
unfoldable pub validate_field_options : FieldDefinition → Result SchemaError (Unit {0})
unfolding check_options
validate_field_options field =
    if takes_options field.type && (length field.options == 0 || ltb 100 (length field.options))
    then err (bad_option_count field.name)
    else if not (takes_options field.type) && ltb 0 (length field.options)
    then err (unexpected_options field.name field.type)
    else check_options field.name [] field.options

-- Every item is a text among the options.
unfoldable pub all_options : List String → Items → Bool
all_options options Items.nil = true
all_options options (Items.cons (Value.text t) items) =
    contains options t && all_options options items
all_options options (Items.cons _ items) = false

abbrev pub number_default : String → Value → Result SchemaError (Unit {0})
number_default name (Value.number n) = ok tt
number_default name _ = err (bad_default_type name "number")

abbrev pub bool_default : String → Value → Result SchemaError (Unit {0})
bool_default name (Value.bool b) = ok tt
bool_default name _ = err (bad_default_type name "boolean")

abbrev pub array_default : String → List String → Value → Result SchemaError (Unit {0})
array_default name options (Value.array items) =
    if all_options options items then ok tt else err (unknown_default name)
array_default name options _ = err (bad_default_type name "array")

abbrev pub text_default : String → String → List String → Value → Result SchemaError (Unit {0})
text_default name type options (Value.text t) =
    if type == "select" && not (contains options t) then err (unknown_default name) else ok tt
text_default name type options _ = err (bad_default_type name "string")

abbrev pub default_by_type : FieldDefinition → Value → Result SchemaError (Unit {0})
default_by_type field v =
    if field.type == "number" || field.type == "money"
    then number_default field.name v
    else if field.type == "boolean"
    then bool_default field.name v
    else if field.type == "multiselect"
    then array_default field.name field.options v
    else text_default field.name field.type field.options v

abbrev pub unless_null :
    Value → (Value → Result SchemaError (Unit {0})) → Result SchemaError (Unit {0})
unless_null Value.null k = ok tt
unless_null (Value.bool b) k = k (Value.bool b)
unless_null (Value.number n) k = k (Value.number n)
unless_null (Value.text t) k = k (Value.text t)
unless_null (Value.array i) k = k (Value.array i)
unless_null (Value.object o) k = k (Value.object o)

-- validateDefaultValue
unfoldable pub validate_default_value : FieldDefinition → Result SchemaError (Unit {0})
unfolding all_options
validate_default_value field = unless_null field.default (default_by_type field)

module _ (to_lower : String → String) where
  -- A field with its texts trimmed, as the loops of Define and validateEntitySchema make it.
  unfoldable pub normalize_field : FieldDefinition → FieldDefinition
  normalize_field raw = record raw {
    name = to_lower (trim_space raw.name);
    label = trim_space raw.label;
    type = to_lower (trim_space raw.type);
  }

  -- The loop of validateEntitySchema over the fields.
  unfoldable pub check_fields : List String → List FieldDefinition → Result SchemaError (Unit {0})
  check_fields seen [] = ok tt
  check_fields seen (raw ∷ fields) =
      let field = normalize_field raw in
      let rest = check_fields (field.name ∷ seen) fields in
      if not (field_name_pattern field.name)
      then err (bad_field_name field.name)
      else if contains reserved_fields field.name
      then err (reserved_name field.name)
      else if contains seen field.name
      then err (duplicate_field field.name)
      else if ltb (len field.label) 1 || ltb 120 (len field.label)
      then err (bad_label field.name)
      else if not (contains supported_field_types field.type)
      then err (unsupported_type field.type field.name)
      else (validate_field_options field >>= λ _. validate_default_value field >>= λ _. rest)

  -- validateEntitySchema
  unfoldable pub validate_entity_schema : DefineEntityInput → Result SchemaError (Unit {0})
  unfolding check_fields
  validate_entity_schema input =
      if ltb (len input.name) 2 || ltb 120 (len input.name)
      then err bad_name
      else if not (entity_slug_pattern input.slug)
      then err bad_slug
      else if ltb 500 (len input.description)
      then err bad_description
      else if length input.fields == 0 || ltb 100 (length input.fields)
      then err bad_field_count
      else check_fields [] input.fields

  -- The loop of Define over the fields.
  unfoldable pub place_fields : ℕ → List FieldDefinition → List FieldDefinition
  unfolding normalize_field
  place_fields index [] = []
  place_fields index (raw ∷ fields) =
      record (normalize_field raw) { position = index } ∷ place_fields (suc index) fields

  abbrev pub trimmed : DefineEntityInput → DefineEntityInput
  trimmed input = record input {
    name = trim_space input.name;
    slug = to_lower (trim_space input.slug);
    description = trim_space input.description;
  }

  abbrev pub placed : DefineEntityInput → DefineEntityInput
  placed input = record input { fields = place_fields 0 input.fields }

  -- Define; `save` is the Define of the repository.
  unfoldable pub define_entity {ℓ} :
      {S : Type ℓ}
      → (S → String → DefineEntityInput → Result SchemaError (EntityDefinition × S))
      → S
      → String
      → DefineEntityInput
      → Result SchemaError (EntityDefinition × S)
  unfolding validate_entity_schema place_fields
  define_entity save s tenant_id input =
      validate_entity_schema (trimmed input) >>= λ _. save s tenant_id (placed (trimmed input))

-- Archive; `archive` is the Archive of the repository.
unfoldable pub archive_entity {ℓ} :
    {S : Type ℓ}
    → (S → String → String → ℤ → Result SchemaError S)
    → S
    → String
    → String
    → ℤ
    → Result SchemaError S
archive_entity archive s tenant_id entity_id version =
    if ltb_ℤ version (pos 1) then err version_required else archive s tenant_id entity_id version
