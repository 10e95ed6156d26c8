-- ===== src/Prelude/Maps.antt =====
-- Go's maps, as association lists with one entry for a key that is present.
use mathlib.Core.Path.{◌≡◌, refl}
use mathlib.Core.List.{List, [], ◌∷◌}
use mathlib.Core.Option.{Option, none, some}
use native.Mathlib.Omega.{arith}
use nexa_flow.Prelude.Tests.{if◌then◌else◌}
use nexa_flow.Prelude.Equality.{Eq, ◌==◌}

module _ {ℓ κ} {K : Type ℓ} {V : Type κ} ⦃e : Eq K⦄ where
  -- m[k]
  unfoldable pub lookup : K → List (K × V) → Option V
  lookup k [] = none
  lookup k ((i, found) ∷ rest) = if i == k then some found else lookup k rest

  -- m[k] = v
  unfoldable pub insert : K → V → List (K × V) → List (K × V)
  insert k v [] = (k, v) ∷ []
  insert k v ((i, old) ∷ rest) = if i == k then (k, v) ∷ rest else (i, old) ∷ insert k v rest

  -- delete(m, k)
  unfoldable pub delete : K → List (K × V) → List (K × V)
  delete k [] = []
  delete k ((j, v) ∷ m) = if j == k then delete k m else (j, v) ∷ delete k m

  pub lookup-insert :
      (k other : K) (v : V) (entries : List (K × V))
      → lookup other (insert k v entries) ≡ (if k == other then some v else lookup other entries)
  unfolding lookup insert
  lookup-insert k other v ((i, old) ∷ rest) = ground (arith, lookup-insert k other v rest)
  lookup-insert k other v [] = refl

  pub lookup-delete :
      (k j : K) (m : List (K × V)) → lookup j (delete k m) ≡ (if k == j then none else lookup j m)
  unfolding lookup delete
  lookup-delete k j [] = ground arith
  lookup-delete k j ((i, w) ∷ m) = ground (arith, lookup-delete k j m)

  -- No key has two entries.
  abbrev pub IsUnique : List (K × V) → Type κ
  IsUnique [] = Unit
  IsUnique ((k, v) ∷ m) = (lookup k m ≡ none) × IsUnique m

  pub insert-IsUnique : (k : K) (v : V) (m : List (K × V)) → IsUnique m → IsUnique (insert k v m)
  unfolding lookup insert
  insert-IsUnique k v [] u = (refl, tt)
  insert-IsUnique k v ((j, w) ∷ m) u =
      ground (arith, insert-IsUnique k v m u.1, lookup-insert k j v m)
