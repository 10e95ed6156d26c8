-- ===== src/Forms/Schema.antt =====
-- Define, Archive and validateAndGenerateForm of backend/internal/service/form_service.go.
-- strings.ToLower is `to_lower`; the repository and the entity service are Go interfaces there, and a
-- record here. A map that is built under distinct keys is a list of its entries.
use nexa_flow.Prelude.{
  ℕ, suc, Bool, true, false, not, ◌&&◌, ◌||◌, List, [], ◌∷◌, ◌++◌, Option, none, some, String,
  Result, ok, err, ◌>>=◌, ◌>>◌, guard, ltb, ◌==◌, contains, length, if◌then◌else◌, string_eq,
  nat_eq,
}
use Prim.Native.String.{len}
use nexa_flow.Prelude.Int.{ℤ, pos, ltb_ℤ}
use nexa_flow.Prelude.Maps.{lookup, insert}
use nexa_flow.Patterns.{entity_slug_pattern, safe_prop}
use nexa_flow.Strings.{trim_space}
use nexa_flow.Values.{
  Value, null, bool, text, array, object, Items, nil, cons, Fields, end, field, Dict,
}
use nexa_flow.Entities.Model.{FieldDefinition, EntityDefinition}
use nexa_flow.Forms.Model.{FormComponent, FormDefinition, DefineFormInput}

-- ErrInvalidForm by its causes, and the errors of the others.
pub data FormError : Type 0 where
  invalid_names : FormError
  version_required : FormError
  entity_changed : FormError
  bad_component_count : FormError
  unknown_field : String → FormError
  duplicate_field : String → FormError
  incompatible_widget : String → String → FormError
  long_label : FormError
  invalid_property : FormError
  other : String → FormError

abbrev pub supported_widgets : List String
supported_widgets =
    "input" ∷ "textarea" ∷ "date" ∷ "datetime" ∷ "select" ∷ "multiselect" ∷ "money" ∷ "user"
    ∷ "image" ∷ "attachment" ∷ "checkbox" ∷ []

-- The map `allowed` of widgetSupports.
abbrev pub allowed_types : List (String × List String)
allowed_types =
    ("input", "string" ∷ "email" ∷ "url" ∷ [])
    ∷ ("textarea", "string" ∷ "text" ∷ [])
    ∷ ("date", "date" ∷ [])
    ∷ ("datetime", "datetime" ∷ [])
    ∷ ("select", "select" ∷ [])
    ∷ ("multiselect", "multiselect" ∷ [])
    ∷ ("money", "money" ∷ "number" ∷ [])
    ∷ ("user", "user" ∷ [])
    ∷ ("image", "image" ∷ [])
    ∷ ("attachment", "attachment" ∷ [])
    ∷ ("checkbox", "boolean" ∷ [])
    ∷ []

abbrev pub or_empty : Option (List String) → List String
or_empty none = []
or_empty (some types) = types

-- widgetSupports
unfoldable pub widget_supports : String → String → Bool
unfolding lookup
widget_supports widget type = contains (or_empty (lookup widget allowed_types)) type

abbrev pub texts : List String → Items
texts [] = nil
texts (s ∷ ss) = cons (text s) (texts ss)

abbrev pub json_type : String → String
json_type type =
    if type == "number" || type == "money"
    then "number"
    else if type == "boolean"
    then "boolean"
    else if type == "multiselect"
    then "array"
    else "string"

abbrev pub items_entry : FieldDefinition → Dict
items_entry f =
    if f.type == "multiselect"
    then (
      "items",
      object (field "type" (text "string") (field "enum" (array (texts f.options)) end)),
    )
      ∷ []
    else []

abbrev pub format_of : String → String
format_of type =
    if type == "date"
    then "date"
    else if type == "datetime"
    then "date-time"
    else if type == "email"
    then "email"
    else if type == "url"
    then "uri"
    else ""

abbrev pub format_entry : FieldDefinition → Dict
format_entry f = if format_of f.type == "" then [] else ("format", text (format_of f.type)) ∷ []

abbrev pub enum_entry : FieldDefinition → Dict
enum_entry f = if f.type == "select" then ("enum", array (texts f.options)) ∷ [] else []

abbrev pub default_entry : Value → Dict
default_entry null = []
default_entry v = ("default", v) ∷ []

-- fieldJSONSchema
unfoldable pub field_json_schema : FieldDefinition → String → Dict
field_json_schema f title =
    ("title", text title) ∷ ("type", text (json_type f.type)) ∷ items_entry f
    ++ format_entry f
    ++ enum_entry f
    ++ default_entry f.default

-- A decoded map as a value.
abbrev pub fields_of : Dict → Fields
fields_of [] = end
fields_of ((k, v) ∷ rest) = field k v (fields_of rest)

-- The loop that fills the map of fields.
unfoldable pub fields_from :
    List (String × FieldDefinition) → List FieldDefinition → List (String × FieldDefinition)
unfolding insert
fields_from m [] = m
fields_from m (f ∷ fs) = fields_from (insert f.name f m) fs

abbrev pub safe_props : Dict → Bool
safe_props [] = true
safe_props ((k, v) ∷ rest) = safe_prop k && safe_props rest

pub record Generated : Type 0 where
  pub components : List FormComponent
  pub properties : Dict
  pub required : List String

abbrev pub no_components : Generated
no_components = record { components = []; properties = []; required = [] }

abbrev pub or_label : String → String → String
or_label label fallback = if label == "" then fallback else label

-- A component as the loop leaves it.
abbrev pub completed : FormComponent → FieldDefinition → FormComponent
completed c f = record c { label = or_label c.label f.label; required = c.required || f.required }

abbrev pub with_component : FormComponent → FieldDefinition → Generated → Generated
with_component c f g = record {
  components = c ∷ g.components;
  properties = (f.name, object (fields_of (field_json_schema f c.label))) ∷ g.properties;
  required = if c.required then f.name ∷ g.required else g.required;
}

-- The checks of a component whose field is known, and what the loop goes on with.
abbrev pub check_component :
    List String
    → FormComponent
    → FieldDefinition
    → Result FormError Generated
    → Result FormError Generated
check_component seen c f rest =
    if contains seen c.field_name
    then err (duplicate_field c.field_name)
    else if not (contains supported_widgets c.widget) || not (widget_supports c.widget f.type)
    then err (incompatible_widget c.widget f.name)
    else if ltb 120 (len (or_label c.label f.label))
    then err long_label
    else if not (safe_props c.props)
    then err invalid_property
    else (rest >>= λ g. ok (with_component (completed c f) f g))

abbrev pub check_found :
    List String
    → FormComponent
    → Option FieldDefinition
    → Result FormError Generated
    → Result FormError Generated
check_found seen c none rest = err (unknown_field c.field_name)
check_found seen c (some f) rest = check_component seen c f rest

module _ (to_lower : String → String) where
  abbrev pub trimmed : ℕ → FormComponent → FormComponent
  trimmed index c = record c {
    field_name = trim_space c.field_name;
    widget = to_lower (trim_space c.widget);
    label = trim_space c.label;
    position = index;
  }

  -- The loop over the components.
  unfoldable pub check_components :
      List (String × FieldDefinition)
      → List String
      → ℕ
      → List FormComponent
      → Result FormError Generated
  unfolding widget_supports field_json_schema lookup
  check_components fields seen index [] = ok no_components
  check_components fields seen index (c ∷ cs) =
      check_found seen (trimmed index c) (lookup (trim_space c.field_name) fields)
        (check_components fields (trim_space c.field_name ∷ seen) (suc index) cs)

  -- validateAndGenerateForm up to the result
  unfoldable pub generate_form : EntityDefinition → DefineFormInput → Result FormError Generated
  unfolding check_components fields_from
  generate_form entity input =
      if length input.components == 0 || ltb 100 (length input.components)
      then err bad_component_count
      else check_components (fields_from [] entity.fields) [] 0 input.components

abbrev pub required_entry : List String → Dict
required_entry [] = []
required_entry (name ∷ names) = ("required", array (texts (name ∷ names))) ∷ []

-- The schema that validateAndGenerateForm answers.
abbrev pub form_schema : String → Generated → Dict
form_schema title g =
    ("$schema", text "https://json-schema.org/draft/2020-12/schema")
    ∷ ("type", text "object")
    ∷ ("title", text title)
    ∷ ("additionalProperties", bool false)
    ∷ ("properties", object (fields_of g.properties))
    ∷ required_entry g.required

-- FormRepository, and Get of DynamicModelService.
pub record FormStore (S : Type 0) : Type 0 where
  pub define : S → String → DefineFormInput → Dict → Result FormError (FormDefinition × S)
  pub get : S → String → String → Result FormError FormDefinition
  pub archive : S → String → String → ℤ → Result FormError S
  pub model_get : S → String → String → Result FormError EntityDefinition

module _ {S : Type 0} (to_lower : String → String) (store : FormStore S) where
  abbrev pub normal_form : DefineFormInput → DefineFormInput
  normal_form input = record input {
    name = trim_space input.name;
    slug = to_lower (trim_space input.slug);
    description = trim_space input.description;
  }

  abbrev pub bad_form_names : DefineFormInput → Bool
  bad_form_names input =
      ltb (len input.name) 2
      || ltb 120 (len input.name)
      || not (entity_slug_pattern input.slug)
      || ltb 500 (len input.description)

  abbrev pub same_entity : S → String → DefineFormInput → Result FormError (Unit {0})
  same_entity s tenant_id input =
      if input.id == ""
      then ok tt
      else (store.get s tenant_id input.id >>= λ existing.
          guard (FormDefinition.entity_id existing == input.entity_id) entity_changed)

  abbrev pub define_normal : S → String → DefineFormInput → Result FormError (FormDefinition × S)
  define_normal s tenant_id input =
      if bad_form_names input
      then err invalid_names
      else if not (input.id == "") && ltb_ℤ input.expected_version (pos 1)
      then err version_required
      else do
        same_entity s tenant_id input
        entity ← store.model_get s tenant_id input.entity_id
        g ← generate_form to_lower entity input
        store.define s tenant_id (record input { components = Generated.components g })
            (form_schema input.name g)

  -- Define
  unfoldable pub define_form : S → String → DefineFormInput → Result FormError (FormDefinition × S)
  unfolding generate_form
  define_form s tenant_id input = define_normal s tenant_id (normal_form input)

  -- Archive
  unfoldable pub archive_form : S → String → String → ℤ → Result FormError S
  archive_form s tenant_id id version =
      if ltb_ℤ version (pos 1) then err version_required else store.archive s tenant_id id version
