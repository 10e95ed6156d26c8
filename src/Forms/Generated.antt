-- ===== src/Forms/Generated.antt =====
-- What validateAndGenerateForm of backend/internal/service/form_service.go accepts.
use nexa_flow.Prelude.{
  String_discrete, ℕ, suc, ◌≤◌, ◌≡◌, refl, sym, ap, ◌∙◌, inl, inr, Bool, true, false, not, ◌&&◌,
  ◌||◌, List, [], ◌∷◌, map, keep, any, contains, length, All, Option, none, some, String, Result,
  ok, err, ◌==◌, string_eq, nat_eq, arith, ltb, passed, if-cases, >>=-eq-ok, ok_injective,
  Option-cases, some_injective, Bool-cases,
}
use Prim.Native.String.{len}
use mathlib.Core.Path.{subst}
use nexa_flow.Prelude.Maps.{lookup, insert, lookup-insert}
use nexa_flow.Prelude.Sets.{IsDistinct}
use nexa_flow.Values.{Value, bool, text, array, object, Items, nil, cons, Fields, end, field, Dict}
use nexa_flow.Strings.{trim_space}
use nexa_flow.Entities.Model.{FieldDefinition, EntityDefinition}
use nexa_flow.Forms.Model.{FormComponent, FormDefinition, DefineFormInput}
use nexa_flow.Forms.Schema.{
  FormError, supported_widgets, widget_supports, fields_from, safe_props, Generated, or_label,
  completed, with_component, check_component, check_found, trimmed, check_components, generate_form,
  texts, fields_of, required_entry, form_schema, FormStore, normal_form, bad_form_names,
  same_entity, define_form,
}
use nexa_flow.Prelude.Int.{pos, ltb_ℤ}

-- A field is in a list: a test that it passes is passed there.
abbrev pub IsListed : List FieldDefinition → FieldDefinition → Type 0
IsListed fs f = (p : FieldDefinition → Bool) → p f ≡ true → any p fs ≡ true

-- What a map of fields finds has the name that was asked for, and is in the list.
abbrev IsNamed : List FieldDefinition → List (String × FieldDefinition) → Type 0
IsNamed fs m =
    (n : String) (f : FieldDefinition) → lookup n m ≡ some f → (f.name ≡ n) × IsListed fs f

insert-IsNamed :
    (fs : List FieldDefinition) (m : List (String × FieldDefinition)) (f : FieldDefinition)
    → IsListed fs f
    → IsNamed fs m
    → IsNamed fs (insert f.name f m)
insert-IsNamed fs m f here named n g h =
    elim (if-cases (f.name == n) (some f) (lookup n m) (sym (lookup-insert f.name n f m) ∙ h)) [
      | inl (same, found) ↦
          subst (λ (x : FieldDefinition). (x.name ≡ n) × IsListed fs x) (some_injective found)
            (ground (arith, same), here)
      | inr (_, found) ↦ named n g found
    ]

fields_from-IsNamed :
    (all fs : List FieldDefinition) (m : List (String × FieldDefinition))
    → ((p : FieldDefinition → Bool) → any p fs ≡ true → any p all ≡ true)
    → IsNamed all m
    → IsNamed all (fields_from m fs)
unfolding fields_from
fields_from-IsNamed all [] m s named = named
fields_from-IsNamed all (f ∷ fs) m s named =
    fields_from-IsNamed all fs (insert f.name f m) (λ p h. s p (ground (arith, h)))
      (insert-IsNamed all m f (λ p h. s p (ground (arith, h))) named)

-- A component that suits its field.
abbrev pub IsFitting : List FieldDefinition → FormComponent → Type 0
IsFitting fs c =
    (f : FieldDefinition) × (f.name ≡ c.field_name)
    × IsListed fs f
    × (contains supported_widgets c.widget ≡ true)
    × (widget_supports c.widget f.type ≡ true)
    × (len c.label ≤ 120)
    × (f.required ≡ true → c.required ≡ true)

abbrev names_of : List FormComponent → List String
names_of cs = map (λ c. FormComponent.field_name c) cs

-- Of a list without those of another: no name of it was seen.
abbrev IsUnseen : List String → List String → Type 0
IsUnseen seen names = (n : String) → contains names n ≡ true → contains seen n ≡ false

pub record Accepted (fs : List FieldDefinition) (seen : List String) (g : Generated) : Type 0 where
  pub fitting : All (IsFitting fs) g.components
  pub distinct : IsDistinct (names_of g.components)
  pub unseen : IsUnseen seen (names_of g.components)
  pub properties : map (λ (e : String × _). e.0) g.properties ≡ names_of g.components
  pub required : g.required ≡ names_of (keep (λ c. FormComponent.required c) g.components)

component-IsFitting :
    (fs : List FieldDefinition) (c : FormComponent) (f : FieldDefinition)
    → f.name ≡ c.field_name
    → IsListed fs f
    → (not (contains supported_widgets c.widget) || not (widget_supports c.widget f.type)) ≡ false
    → ltb 120 (len (or_label c.label f.label)) ≡ false
    → IsFitting fs (completed c f)
component-IsFitting fs c f n l w long =
    (f, n, l, ground (arith, w), ground (arith, w), ground (arith, long), λ r. ground (arith, r))

fresh_name :
    (seen names : List String) (n : String) → IsUnseen (n ∷ seen) names → contains names n ≡ false
fresh_name seen names n u = elim (Bool-cases (contains names n)) [
  | inl there ↦ absurd (seen_here n seen (u n there))
  | inr missing ↦ missing
]
  where
    seen_here : (n : String) (seen : List String) → contains (n ∷ seen) n ≡ false → ⊥
    seen_here n seen h = ground arith

with_component-Accepted :
    (fs : List FieldDefinition) (seen : List String) (c : FormComponent) (f : FieldDefinition)
    (g : Generated)
    → f.name ≡ c.field_name
    → contains seen c.field_name ≡ false
    → IsFitting fs c
    → Accepted fs (c.field_name ∷ seen) g
    → Accepted fs seen (with_component c f g)
with_component-Accepted fs seen c f g n new fits a = record {
  fitting = (fits, Accepted.fitting a);
  distinct = (
    fresh_name seen (names_of g.components) c.field_name (Accepted.unseen a),
    Accepted.distinct a,
  );
  unseen = λ m h. ground (arith, h, new, Accepted.unseen a m);
  properties =
      ap (λ x. x ∷ map (λ e. e.0) g.properties) n
      ∙ ap (λ xs. c.field_name ∷ xs) (Accepted.properties a);
  required = elim (Bool-cases c.required) [
    | inl yes_ ↦
        rw yes_ (ap (λ x. x ∷ g.required) n ∙ ap (λ xs. c.field_name ∷ xs) (Accepted.required a))
    | inr no_ ↦ rw no_ (Accepted.required a)
  ];
}

nothing : {f : FieldDefinition} → ◌≡◌ {A = Option FieldDefinition} none (some f) → ⊥
nothing h = cc

no_field : {e : FormError} {g : Generated} → ◌≡◌ {A = Result FormError Generated} (err e) (ok g) → ⊥
no_field h = cc

module _ (to_lower : String → String) where
  check_components-Accepted :
      (fs : List FieldDefinition) (fields : List (String × FieldDefinition)) (seen : List String)
      (index : ℕ) (cs : List FormComponent) (g : Generated)
      → IsNamed fs fields
      → check_components to_lower fields seen index cs ≡ ok g
      → Accepted fs seen g
  unfolding check_components
  check_components-Accepted fs fields seen index [] g named h =
      subst (Accepted fs seen) (ok_injective h) (record {
        fitting = tt;
        distinct = tt;
        unseen = λ n k. cc;
        properties = refl;
        required = refl;
      })
  check_components-Accepted fs fields seen index (c ∷ cs) g named h =
      elim (Option-cases (lookup (trim_space c.field_name) fields)) [
        | inl missing ↦ absurd (
            no_field (
              ap
                (λ o. check_found seen (trimmed to_lower index c) o (
                  check_components to_lower fields (trim_space c.field_name ∷ seen) (suc index) cs))
                (sym missing)
              ∙ h))
        | inr (f, found) ↦
            let c' : FormComponent = trimmed to_lower index c in
            let rest =
              check_components to_lower fields (trim_space c.field_name ∷ seen) (suc index) cs in
            let k : check_component seen c' f rest ≡ ok g =
              ap (λ o. check_found seen c' o rest) (sym found) ∙ h in
            let own = named (trim_space c.field_name) f found in
            let p1 = passed (contains seen (FormComponent.field_name c')) _ _ k in
            let p2 =
              passed
                (not (contains supported_widgets (FormComponent.widget c'))
                  || not (widget_supports (FormComponent.widget c') f.type))
                _ _ p1.1 in
            let p3 = passed (ltb 120 (len (or_label (FormComponent.label c') f.label))) _ _ p2.1 in
            let p4 = passed (not (safe_props (FormComponent.props c'))) _ _ p3.1 in
            let (g0, e0, e1) = >>=-eq-ok rest _ p4.1 in
            subst (Accepted fs seen) (ok_injective e1) (
              with_component-Accepted fs seen (completed c' f) f g0 own.0 p1.0
                (component-IsFitting fs c' f own.0 own.1 p2.0 p3.0)
                (check_components-Accepted fs fields (trim_space c.field_name ∷ seen) (suc index) cs
                  g0 named e0))
      ]

  generate_form-Accepted :
      (entity : EntityDefinition) (input : DefineFormInput) (g : Generated)
      → generate_form to_lower entity input ≡ ok g
      → Accepted entity.fields [] g
  unfolding generate_form
  generate_form-Accepted entity input g h =
      let p = passed (length input.components == 0 || ltb 100 (length input.components)) _ _ h in
      check_components-Accepted entity.fields (fields_from [] entity.fields) [] 0 input.components g
        (fields_from-IsNamed entity.fields entity.fields [] (λ p h. h)
          (λ n f k. absurd (nothing k)))
        p.1

abbrev pub keys_of : Fields → List String
keys_of end = []
keys_of (field k v rest) = k ∷ keys_of rest

abbrev pub property_names : Option Value → List String
property_names (some (object fields)) = keys_of fields
property_names _ = []

abbrev pub text_items : Items → List String
text_items nil = []
text_items (cons (text t) rest) = t ∷ text_items rest
text_items (cons _ rest) = text_items rest

abbrev pub required_names : Option Value → List String
required_names (some (array items)) = text_items items
required_names _ = []

-- A JSON schema of the objects that a form's components fill: it describes a property for the field of
-- each component and no other, closes the object, and requires just those of the required components.
pub record IsSchema (title : String) (components : List FormComponent) (schema : Dict)
    : Type 0 where
  pub kind : lookup "type" schema ≡ some (text "object")
  pub titled : lookup "title" schema ≡ some (text title)
  pub closed : lookup "additionalProperties" schema ≡ some (bool false)
  pub described : property_names (lookup "properties" schema) ≡ names_of components
  pub required :
      required_names (lookup "required" schema)
      ≡ names_of (keep (λ c. FormComponent.required c) components)

keys_of-fields_of : (d : Dict) → keys_of (fields_of d) ≡ map (λ (e : String × Value). e.0) d
keys_of-fields_of [] = refl
keys_of-fields_of ((k, v) ∷ rest) = ap (λ l. k ∷ l) (keys_of-fields_of rest)

text_items-texts : (names : List String) → text_items (texts names) ≡ names
text_items-texts [] = refl
text_items-texts (n ∷ names) = ap (λ l. n ∷ l) (text_items-texts names)

required_entry-names :
    (names : List String) → required_names (lookup "required" (required_entry names)) ≡ names
unfolding lookup String_discrete
required_entry-names [] = refl
required_entry-names (n ∷ names) = ap (λ l. n ∷ l) (text_items-texts names)

form_schema-IsSchema :
    (title : String) (fs : List FieldDefinition) (g : Generated)
    → Accepted fs [] g
    → IsSchema title g.components (form_schema title g)
unfolding lookup String_discrete
form_schema-IsSchema title fs g a = record {
  kind = refl;
  titled = refl;
  closed = refl;
  described = keys_of-fields_of g.properties ∙ Accepted.properties a;
  required = required_entry-names g.required ∙ Accepted.required a;
}

module _ {S : Type 0} (to_lower : String → String) (store : FormStore S) where
  -- A form that Define saves is of components of distinct fields of its entity, each with a supported
  -- widget that suits the field's type, a label of at most 120 bytes, and required where the field is.
  -- The schema it is saved with is of an object with the form's name, has a property for each
  -- component's field, in their order, and no other, admits no further properties, and requires just
  -- the fields of the required components.
  pub define_form-Accepted :
      (s : S) (tenant_id : String) (input : DefineFormInput) (r : FormDefinition × S)
      → define_form to_lower store s tenant_id input ≡ ok r
      → (entity : EntityDefinition) × (g : Generated) × (store.model_get s tenant_id input.entity_id
          ≡ ok entity)
        × Accepted entity.fields [] g
        × IsSchema (trim_space input.name) g.components (form_schema (trim_space input.name) g)
        × (store.define s tenant_id
              (record (normal_form to_lower store input) { components = g.components })
              (form_schema (trim_space input.name) g)
            ≡ ok r)
  unfolding define_form
  define_form-Accepted s tenant_id input r h =
      let n : DefineFormInput = normal_form to_lower store input in
      let a = passed (bad_form_names to_lower store n) _ _ h in
      let b = passed (not (n.id == "") && ltb_ℤ n.expected_version (pos 1)) _ _ a.1 in
      let (u, e1, h1) = >>=-eq-ok (same_entity to_lower store s tenant_id n) _ b.1 in
      let (entity, e2, h2) = >>=-eq-ok (store.model_get s tenant_id n.entity_id) _ h1 in
      let (g, e3, h3) = >>=-eq-ok (generate_form to_lower entity n) _ h2 in
      let a = generate_form-Accepted to_lower entity n g e3 in
      (entity, g, e2, a, form_schema-IsSchema (trim_space input.name) entity.fields g a, h3)
