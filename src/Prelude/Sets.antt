-- ===== src/Prelude/Sets.antt =====
-- Lists read as sets of keys: distinctness, inclusion, and the count that they give.
use Prim.Native.Nat.{suc, ◌≤◌}
use mathlib.Core.Path.{◌≡◌}
use mathlib.Core.Bool.{true, false}
use mathlib.Core.List.{List, [], ◌∷◌}
use native.Mathlib.Omega.{arith}
use nexa_flow.Prelude.Tests.{if◌then◌else◌, Bool-cases}
use mathlib.Core.Logic.{inl, inr}
use nexa_flow.Prelude.Equality.{Eq, ◌==◌}
use nexa_flow.Prelude.Lists.{length, contains}

module _ {ℓ} {A : Type ℓ} ⦃e : Eq A⦄ where
  abbrev pub IsDistinct : List A → Type 0
  IsDistinct [] = Unit
  IsDistinct (x ∷ xs) = (contains xs x ≡ false) × IsDistinct xs

  abbrev pub Subset : List A → List A → Type ℓ
  Subset xs ys = (a : A) → contains xs a ≡ true → contains ys a ≡ true

  remove_one : A → List A → List A
  remove_one a [] = []
  remove_one a (x ∷ xs) = if x == a then xs else x ∷ remove_one a xs

  length-remove_one :
      (a : A) (xs : List A) → contains xs a ≡ true → length xs ≡ suc (length (remove_one a xs))
  unfolding remove_one
  length-remove_one a [] h = cc
  length-remove_one a (x ∷ xs) h = ground (arith, length-remove_one a xs)

  contains-remove_one :
      (a b : A) (xs : List A)
      → contains xs b ≡ true
      → (b ≡ a → ⊥)
      → contains (remove_one a xs) b ≡ true
  unfolding remove_one
  contains-remove_one a b [] h ne = cc
  contains-remove_one a b (x ∷ xs) h ne = ground (arith, contains-remove_one a b xs)

  not_in : {x a : A} (xs : List A) → contains xs x ≡ false → contains xs a ≡ true → a ≡ x → ⊥
  not_in xs h k p = ground arith

  pub length-Subset : (xs ys : List A) → IsDistinct xs → Subset xs ys → length xs ≤ length ys
  length-Subset [] ys d s = omega arith
  length-Subset (x ∷ xs) ys d s =
      let there : contains ys x ≡ true = s x (ground arith) in
      omega (
        arith,
        length-remove_one x ys there,
        length-Subset xs (remove_one x ys) d.1
            (λ a h. contains-remove_one x a ys (s a (ground arith)) (not_in xs d.0 h)),
      )

  pub Subset-cons :
      (a : A) (xs ys : List A) → contains ys a ≡ true → Subset xs ys → Subset (a ∷ xs) ys
  Subset-cons a xs ys h s b k = ground (arith, s b)

  -- A set as large as one that includes it leaves nothing out.
  pub Subset-full :
      (xs ys : List A) → IsDistinct xs → Subset xs ys → length xs ≡ length ys → Subset ys xs
  Subset-full xs ys d s n a h = elim (Bool-cases (contains xs a)) [
    | inl there ↦ there
    | inr missing ↦
        absurd (omega (arith, length-Subset (a ∷ xs) ys (missing, d) (Subset-cons a xs ys h s)))
  ]
