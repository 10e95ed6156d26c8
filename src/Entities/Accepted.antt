-- ===== src/Entities/Accepted.antt =====
-- What validateRecordValues of backend/internal/service/dynamic_record_service.go accepts.
use nexa_flow.Prelude.{
  ◌≡◌, refl, sym, ◌∙◌, ap, ◌⊎◌, inl, inr, true, false, List, [], ◌∷◌, Option, none, some, String,
  ok, >>=-eq-ok, ok_injective, passed, if-cases, ◌==◌, contains, map, All, arith, string_eq, not,
}
use nexa_flow.Prelude.Maps.{lookup, lookup-insert}
use nexa_flow.Prelude.Sets.{IsDistinct}
use nexa_flow.Values.{Value, Dict}
use nexa_flow.Entities.Model.{FieldDefinition, EntityDefinition}
use nexa_flow.Entities.Records.{
  Readers, accepts, validate_record_value, check_names, is_blank, is_null, or_null, put, take_field,
  take_fields, validate_record_values,
}

abbrev pub names : List FieldDefinition → List String
names fields = map (λ f. FieldDefinition.name f) fields

-- What a record holds for a field, of the value given for it.
abbrev pub Holds : Readers → FieldDefinition → Option Value → Option Value → Type 0
Holds rd field given held =
    ((is_blank given ≡ false)
      × (accepts rd field (or_null given) ≡ true)
      × (held ≡ some (or_null given)))
    ⊎ ((is_blank given ≡ true) × (is_null field.default ≡ false) × (held ≡ some field.default))
    ⊎ ((is_blank given ≡ true)
        × (is_null field.default ≡ true)
        × (field.required ≡ false)
        × (held ≡ none))

module _ (rd : Readers) where
  validate_record_value-accepts :
      (field : FieldDefinition) (v : Value) (u : Unit)
      → validate_record_value rd field v ≡ ok u
      → accepts rd field v ≡ true
  unfolding validate_record_value
  validate_record_value-accepts field v u h = elim (if-cases (accepts rd field v) _ _ h) [
    | inl (b, k) ↦ b
    | inr (b, k) ↦ cc
  ]

  take_field-Holds :
      (field : FieldDefinition) (given held : Option Value)
      → take_field rd field given ≡ ok held
      → Holds rd field given held
  unfolding take_field
  take_field-Holds field given held h = elim (if-cases (is_blank given) _ _ h) [
    | inl (b, k) ↦ elim (if-cases (not (is_null field.default)) _ _ k) [
      | inl (d, k') ↦ inr (inl (b, ground arith, sym (ok_injective k')))
      | inr (d, k') ↦ inr (
          inr (
            b,
            ground arith,
            (passed field.required _ _ k').0,
            sym (ok_injective (passed field.required _ _ k').1),
          ))
    ]
    | inr (b, k) ↦
        let step = >>=-eq-ok (validate_record_value rd field (or_null given)) _ k in
        inl (
          b,
          validate_record_value-accepts field (or_null given) step.0 step.1,
          sym (ok_injective step.2),
        )
  ]

  lookup-put :
      (name other : String) (v : Option Value) (values : Dict)
      → (name == other) ≡ false
      → lookup other (put name v values) ≡ lookup other values
  lookup-put name other none values ne = refl
  lookup-put name other (some v) values ne = lookup-insert name other v values ∙ rw ne refl

  lookup-put_self :
      (name : String) (v : Option Value) (values : Dict)
      → lookup name values ≡ none
      → lookup name (put name v values) ≡ v
  lookup-put_self name none values h = h
  lookup-put_self name (some v) values h = ground (arith, lookup-insert name name v values)

  take_fields-elsewhere :
      (raw : Dict) (fields : List FieldDefinition) (values out : Dict) (name : String)
      → take_fields rd raw fields values ≡ ok out
      → contains (names fields) name ≡ false
      → lookup name out ≡ lookup name values
  unfolding take_fields
  take_fields-elsewhere raw [] values out name h c = ap (lookup name) (sym (ok_injective h))
  take_fields-elsewhere raw (field ∷ fields) values out name h c =
      let step = >>=-eq-ok (take_field rd field (lookup field.name raw)) _ h in
      take_fields-elsewhere raw fields (put field.name step.0 values) out name step.2 (ground arith)
      ∙ lookup-put field.name name step.0 values (ground arith)

  absent-put :
      (name : String) (v : Option Value) (values : Dict) (fields : List FieldDefinition)
      → contains (names fields) name ≡ false
      → All (λ f. lookup (FieldDefinition.name f) values ≡ none) fields
      → All (λ f. lookup (FieldDefinition.name f) (put name v values) ≡ none) fields
  absent-put name v values [] c a = tt
  absent-put name v values (f ∷ fields) c a = (
    lookup-put name f.name v values (ground arith) ∙ a.0,
    absent-put name v values fields (ground arith) a.1,
  )

  take_fields-Holds :
      (raw : Dict) (fields : List FieldDefinition) (values out : Dict)
      → take_fields rd raw fields values ≡ ok out
      → IsDistinct (names fields)
      → All (λ f. lookup (FieldDefinition.name f) values ≡ none) fields
      → All
          (λ f.
            Holds rd f (lookup (FieldDefinition.name f) raw) (lookup (FieldDefinition.name f) out))
          fields
  unfolding take_fields
  take_fields-Holds raw [] values out h d a = tt
  take_fields-Holds raw (field ∷ fields) values out h d a =
      let step = >>=-eq-ok (take_field rd field (lookup field.name raw)) _ h in
      let held : lookup field.name out ≡ step.0 =
        take_fields-elsewhere raw fields (put field.name step.0 values) out field.name step.2 d.0
        ∙ lookup-put_self field.name step.0 values a.0 in
      (
        rw held (take_field-Holds field (lookup field.name raw) step.0 step.1),
        take_fields-Holds raw fields (put field.name step.0 values) out step.2 d.1
            (absent-put field.name step.0 values fields d.0 a.1),
      )

  lookup-nil : (name : String) → lookup {V = Value} name [] ≡ none
  unfolding lookup
  lookup-nil name = refl

  absent_empty :
      (fields : List FieldDefinition)
      → All (λ f. lookup {V = Value} (FieldDefinition.name f) [] ≡ none) fields
  unfolding lookup
  absent_empty [] = tt
  absent_empty (f ∷ fields) = (refl, absent_empty fields)

  check_names-known :
      (fields : List FieldDefinition) (raw : Dict) (name : String) (u : Unit)
      → check_names fields raw ≡ ok u
      → contains (names fields) name ≡ false
      → lookup name raw ≡ none
  unfolding check_names lookup
  check_names-known fields [] name u h c = refl
  check_names-known fields ((n, v) ∷ raw) name u h c =
      ground (arith, check_names-known fields raw name u)

  -- When the values given for a record of a schema with distinct field names are accepted, no name
  -- outside the schema was given or is held, and each field holds the value given for it, which its
  -- type accepts, or, where none or a blank one was given, its default, or nothing if it has no
  -- default and is not required.
  pub validate_record_values-Holds :
      (schema : EntityDefinition) (raw values : Dict)
      → IsDistinct (names schema.fields)
      → validate_record_values rd schema raw ≡ ok values
      → All
          (λ f.
            Holds rd f
              (lookup (FieldDefinition.name f) raw)
              (lookup (FieldDefinition.name f) values))
          schema.fields
        × ((name : String)
            → contains (names schema.fields) name ≡ false
            → (lookup name raw ≡ none) × (lookup name values ≡ none))
  unfolding validate_record_values
  validate_record_values-Holds schema raw values d h =
      let step = >>=-eq-ok (check_names schema.fields raw) _ h in
      (
        take_fields-Holds raw schema.fields [] values step.2 d (absent_empty schema.fields),
        λ name c. (
          check_names-known schema.fields raw name step.0 step.1 c,
          take_fields-elsewhere raw schema.fields [] values name step.2 c ∙ lookup-nil name,
        ),
      )
