-- ===== src/Entities/Fits.antt =====
-- The options and defaults that the validators of
-- backend/internal/service/dynamic_model_service.go accept, by what they are.
use nexa_flow.Prelude.{
  ◌≤◌, ◌≡◌, refl, ◌≢◌, ◌⊎◌, inl, inr, true, false, not, ◌&&◌, ◌||◌, List, [], ◌∷◌, map, String, ok,
  ◌==◌, contains, All, arith, string_eq, nat_eq, ltb, length, passed, Bool-cases, string_eq,
}
use Prim.Native.String.{len}
use nexa_flow.Prelude.Sets.{IsDistinct}
use nexa_flow.Strings.{trim_space}
use nexa_flow.Values.{Value, Items}
use nexa_flow.Entities.Model.{FieldDefinition}
use nexa_flow.Entities.Schema.{
  check_options, takes_options, validate_field_options, all_options, default_by_type, unless_null,
  validate_default_value,
}

-- An option has a text of at most 120 bytes between its blanks.
abbrev pub IsOption : String → Type 0
IsOption option = (trim_space option ≢ "") × (len (trim_space option) ≤ 120)

-- The options that a field of a type may have: for a select or a multiselect from one to a hundred, of
-- distinct texts, and none for another type.
pub record AreOptions (type : String) (options : List String) : Type 0 where
  pub count :
      (((type ≡ "select") ⊎ (type ≡ "multiselect")) × (1 ≤ length options) × (length options ≤ 100))
      ⊎ ((type ≢ "select") × (type ≢ "multiselect") × (options ≡ []))
  pub each : All IsOption options
  pub distinct : IsDistinct (map trim_space options)

-- Every item is a text among the options.
abbrev pub AreChosen : List String → Items → Type 0
AreChosen options Items.nil = Unit
AreChosen options (Items.cons (Value.text t) items) =
    (contains options t ≡ true) × AreChosen options items
AreChosen options (Items.cons _ items) = ⊥

-- The defaults that a field of a type and with options may have: none, or a number for number and
-- money, a truth value for boolean, a list of options for multiselect, and for the other types any
-- text, which for select is an option.
abbrev pub IsDefault : String → List String → Value → Type 0
IsDefault type options Value.null = Unit
IsDefault type options (Value.number n) = (type ≡ "number") ⊎ (type ≡ "money")
IsDefault type options (Value.bool b) = type ≡ "boolean"
IsDefault type options (Value.array items) = (type ≡ "multiselect") × AreChosen options items
IsDefault type options (Value.text t) =
    (type ≢ "number")
    × (type ≢ "money")
    × (type ≢ "boolean")
    × (type ≢ "multiselect")
    × ((type ≢ "select") ⊎ (contains options t ≡ true))
IsDefault type options (Value.object o) = ⊥

unseen_option :
    (name a : String) (seen options : List String) (u : Unit)
    → check_options name seen options ≡ ok u
    → contains seen a ≡ true
    → contains (map trim_space options) a ≡ false
unfolding check_options
unseen_option name a seen [] u h c = refl
unseen_option name a seen (option ∷ options) u h c =
    let p = passed (trim_space option == "" || ltb 120 (len (trim_space option))) _ _ h in
    let q = passed (contains seen (trim_space option)) _ _ p.1 in
    ground (
      arith,
      q.0,
      unseen_option name a (trim_space option ∷ seen) options u q.1 (ground (arith, c)),
    )

check_options-fit :
    (name : String) (seen options : List String) (u : Unit)
    → check_options name seen options ≡ ok u
    → All IsOption options × IsDistinct (map trim_space options)
unfolding check_options
check_options-fit name seen [] u h = (tt, tt)
check_options-fit name seen (option ∷ options) u h =
    let p = passed (trim_space option == "" || ltb 120 (len (trim_space option))) _ _ h in
    let q = passed (contains seen (trim_space option)) _ _ p.1 in
    let rest = check_options-fit name (trim_space option ∷ seen) options u q.1 in
    (
      ((ground (arith, p.0), ground (arith, p.0)), rest.0),
      (
        unseen_option name (trim_space option) (trim_space option ∷ seen) options u q.1
            (ground arith),
        rest.1,
      ),
    )

no_options : (options : List String) → ltb 0 (length options) ≡ false → options ≡ []
no_options [] h = refl
no_options (o ∷ options) h = absurd (ground (arith, h))

pub validate_field_options-fit :
    (f : FieldDefinition) (u : Unit) → validate_field_options f ≡ ok u → AreOptions f.type f.options
unfolding validate_field_options
validate_field_options-fit f u h =
    let p =
      passed (takes_options f.type && (length f.options == 0 || ltb 100 (length f.options))) _ _
        h in
    let q = passed (not (takes_options f.type) && ltb 0 (length f.options)) _ _ p.1 in
    let fit = check_options-fit f.name [] f.options u q.1 in
    record {
      count = elim (Bool-cases (takes_options f.type)) [
        | inl takes ↦
            inl (ground (arith, takes), ground (arith, takes, p.0), ground (arith, takes, p.0))
        | inr other ↦ inr (
          ground (arith, other),
          ground (arith, other),
          no_options f.options (ground (arith, other, q.0)),
        )
      ];
      each = fit.0;
      distinct = fit.1;
    }

all_options-AreChosen :
    (options : List String) (items : Items)
    → all_options options items ≡ true
    → AreChosen options items
unfolding all_options
all_options-AreChosen options Items.nil h = tt
all_options-AreChosen options (Items.cons (Value.text t) items) h =
    (ground (arith, h), all_options-AreChosen options items (ground (arith, h)))
all_options-AreChosen options (Items.cons Value.null items) h = cc
all_options-AreChosen options (Items.cons (Value.bool b) items) h = cc
all_options-AreChosen options (Items.cons (Value.number n) items) h = cc
all_options-AreChosen options (Items.cons (Value.array i) items) h = cc
all_options-AreChosen options (Items.cons (Value.object o) items) h = cc

default_by_type-fits :
    (f : FieldDefinition) (v : Value) (u : Unit)
    → default_by_type f v ≡ ok u
    → IsDefault f.type f.options v
default_by_type-fits f Value.null u h = tt
default_by_type-fits f (Value.number x) u h = ground (arith, h)
default_by_type-fits f (Value.bool b) u h = ground (arith, h)
default_by_type-fits f (Value.text t) u h =
    (ground (arith, h), ground (arith, h), ground (arith, h), ground (arith, h), ground (arith, h))
default_by_type-fits f (Value.array items) u h =
    (ground (arith, h), all_options-AreChosen f.options items (ground (arith, h)))
default_by_type-fits f (Value.object o) u h = ground (arith, h)

unless_null-fits :
    (f : FieldDefinition) (v : Value) (u : Unit)
    → unless_null v (default_by_type f) ≡ ok u
    → IsDefault f.type f.options v
unless_null-fits f Value.null u h = tt
unless_null-fits f (Value.number x) u h = default_by_type-fits f (Value.number x) u h
unless_null-fits f (Value.bool b) u h = default_by_type-fits f (Value.bool b) u h
unless_null-fits f (Value.text t) u h = default_by_type-fits f (Value.text t) u h
unless_null-fits f (Value.array items) u h = default_by_type-fits f (Value.array items) u h
unless_null-fits f (Value.object o) u h = default_by_type-fits f (Value.object o) u h

pub validate_default_value-fits :
    (f : FieldDefinition) (u : Unit)
    → validate_default_value f ≡ ok u
    → IsDefault f.type f.options f.default
unfolding validate_default_value
validate_default_value-fits f u h = unless_null-fits f f.default u h
