-- ===== src/Migrations/Registry.antt =====
-- The map of known migrations of runLocked (backend/internal/migration/runner.go).
use nexa_flow.Prelude.{
  ℕ, suc, ◌≤◌, ◌<◌, ◌≡◌, refl, ◌∙◌, not, ◌||◌, List, [], ◌∷◌, none, some, ok, passed, ◌==◌, nat_eq,
  arith,
}
use nexa_flow.Prelude.Maps.{lookup, insert, lookup-insert}
use nexa_flow.Patterns.{migration_name, migration_checksum}
use nexa_flow.Migrations.Runner.{Migration, is_nil, check_registry, validate_registry, known_from}

module _ {S : Type 0} where
  -- The migrations have the versions that follow a number.
  abbrev pub IsRegistry : ℕ → List (Migration S) → Type 0
  IsRegistry start [] = Unit
  IsRegistry start (item ∷ items) = (item.version ≡ suc start) × IsRegistry (suc start) items

  check_registry-IsRegistry :
      (start : ℕ) (items : List (Migration S)) (u : Unit)
      → check_registry start items ≡ ok u
      → IsRegistry start items
  unfolding check_registry
  check_registry-IsRegistry start [] u h = tt
  check_registry-IsRegistry start (item ∷ items) u h =
      let p =
        passed
          (not (item.version == suc start)
            || not (migration_name item.name)
            || not (migration_checksum item.checksum)
            || is_nil item.apply)
          _ _ h in
      (ground (arith, p.0), check_registry-IsRegistry (suc start) items u p.1)

  pub validate_registry-IsRegistry :
      (items : List (Migration S)) (u : Unit) → validate_registry items ≡ ok u → IsRegistry 0 items
  unfolding validate_registry
  validate_registry-IsRegistry [] u h = tt
  validate_registry-IsRegistry (item ∷ items) u h = check_registry-IsRegistry 0 (item ∷ items) u h

  -- The map has the migrations under the versions that follow a number, and nothing beyond them.
  abbrev pub Serves : List (ℕ × Migration S) → ℕ → List (Migration S) → Type 0
  Serves known start [] = lookup (suc start) known ≡ none
  Serves known start (item ∷ items) =
      (lookup (suc start) known ≡ some item) × Serves known (suc start) items

  known_from-later :
      (m : List (ℕ × Migration S)) (items : List (Migration S)) (start v : ℕ)
      → IsRegistry start items
      → v ≤ start
      → lookup v (known_from m items) ≡ lookup v m
  unfolding known_from
  known_from-later m [] start v r h = refl
  known_from-later m (item ∷ items) start v r h =
      known_from-later (insert item.version item m) items (suc start) v r.1 (omega arith)
      ∙ ground (arith, lookup-insert item.version v item m, r.0)

  pub known_from-Serves :
      (m : List (ℕ × Migration S)) (items : List (Migration S)) (start : ℕ)
      → IsRegistry start items
      → ((v : ℕ) → start < v → lookup v m ≡ none)
      → Serves (known_from m items) start items
  unfolding known_from
  known_from-Serves m [] start r free = free (suc start) (omega arith)
  known_from-Serves m (item ∷ items) start r free = (
    known_from-later (insert item.version item m) items (suc start) (suc start) r.1 (omega arith)
        ∙ ground (arith, lookup-insert item.version (suc start) item m, r.0),
    known_from-Serves (insert item.version item m) items (suc start) r.1
        (λ v h. ground (arith, lookup-insert item.version v item m, r.0, free v (omega arith))),
  )
