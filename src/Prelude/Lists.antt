-- ===== src/Prelude/Lists.antt =====
-- Lists measured by native numbers, membership tests and predicates over lists.
use Prim.Native.Nat.{ℕ, zero, suc, ◌+◌}
use mathlib.Core.Path.{◌≡◌, refl, subst}
use mathlib.Core.Bool.{Bool, true, false, ◌||◌}
use mathlib.Core.List.{List, [], ◌∷◌, ◌++◌}
use mathlib.Core.Option.{Option, none, some}
use native.Mathlib.Omega.{arith}
use nexa_flow.Prelude.Results.{if-cases}
use mathlib.Core.Logic.{inl, inr}
use nexa_flow.Prelude.Tests.{if◌then◌else◌}
use nexa_flow.Prelude.Equality.{Eq, ◌==◌}

pub some_injective {ℓ} : {A : Type ℓ} {a b : A} → some a ≡ some b → a ≡ b
some_injective h = cc

module _ {ℓ} {A : Type ℓ} where
  abbrev pub length : List A → ℕ
  length [] = 0
  length (x ∷ xs) = suc (length xs)

  abbrev pub take : ℕ → List A → List A
  take zero xs = []
  take (suc n) [] = []
  take (suc n) (x ∷ xs) = x ∷ take n xs

  abbrev pub drop : ℕ → List A → List A
  drop zero xs = xs
  drop (suc n) [] = []
  drop (suc n) (x ∷ xs) = drop n xs

  abbrev pub get_elem? : List A → ℕ → Option A
  get_elem? [] i = none
  get_elem? (x ∷ xs) zero = some x
  get_elem? (x ∷ xs) (suc i) = get_elem? xs i

  pub length-append : (xs ys : List A) → length (xs ++ ys) ≡ length xs + length ys
  length-append [] ys = omega arith
  length-append (x ∷ xs) ys = omega (arith, length-append xs ys)

  -- The items that pass a test.
  abbrev pub keep : (A → Bool) → List A → List A
  keep p [] = []
  keep p (x ∷ xs) = if p x then x ∷ keep p xs else keep p xs

  abbrev pub count_if : (A → Bool) → List A → ℕ
  count_if p [] = 0
  count_if p (x ∷ xs) = if p x then suc (count_if p xs) else count_if p xs

  abbrev pub find_first : (A → Bool) → List A → Option A
  find_first p [] = none
  find_first p (x ∷ xs) = if p x then some x else find_first p xs

  abbrev pub any : (A → Bool) → List A → Bool
  any p [] = false
  any p (x ∷ xs) = p x || any p xs

  pub find_first-holds :
      (p : A → Bool) (xs : List A) (a : A) → find_first p xs ≡ some a → p a ≡ true
  find_first-holds p [] a h = cc
  find_first-holds p (x ∷ xs) a h = ground (arith, find_first-holds p xs a)

  pub count_if-last :
      (p : A → Bool) (xs : List A) (a : A)
      → count_if p (xs ++ a ∷ []) ≡ (if p a then suc (count_if p xs) else count_if p xs)
  count_if-last p [] a = refl
  count_if-last p (x ∷ xs) a = ground (arith, count_if-last p xs a)

-- A predicate of every item, by recursion, which the tactics read and build.
module _ {ℓ κ} {A : Type ℓ} where
  abbrev pub All : (A → Type κ) → List A → Type κ
  All P [] = Unit
  All P (x ∷ xs) = P x × All P xs

  pub All-find_first :
      (P : A → Type κ) (p : A → Bool) (xs : List A) (a : A)
      → All P xs
      → find_first p xs ≡ some a
      → P a
  All-find_first P p [] a h f = absurd (cc)
  All-find_first P p (x ∷ xs) a h f = elim (if-cases (p x) (some x) (find_first p xs) f) [
    | inl (_, same) ↦ subst P (some_injective same) h.0
    | inr (_, later) ↦ All-find_first P p xs a h.1 later
  ]

module _ {ℓ} {A : Type ℓ} ⦃e : Eq A⦄ where
  abbrev pub contains : List A → A → Bool
  contains [] a = false
  contains (x ∷ xs) a = x == a || contains xs a
