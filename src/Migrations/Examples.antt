-- ===== src/Migrations/Examples.antt =====
-- Runs of two migrations on a database whose content is a list of tables.
use nexa_flow.Prelude.{
  ◌≡◌, refl, ◌⊎◌, false, List, [], ◌∷◌, ◌++◌, Option, none, some, String, Result, ok, err,
  String_discrete, ℕ_discrete,
}
use nexa_flow.Prelude.Maps.{lookup, insert}
use nexa_flow.Patterns.{migration_name, migration_checksum}
use nexa_flow.Migrations.Runner.{
  Migration, Database, bad_history, validate_registry, check_rows, apply_items, run,
}
use nexa_flow.Migrations.Refinement.{Refused, Migrated, run-Migrated, run-again}

abbrev sum_a : String
sum_a = "aaaaaaaaaaaaaaaaaaaaaaaaaaaaaaaaaaaaaaaaaaaaaaaaaaaaaaaaaaaaaaaa"

abbrev sum_b : String
sum_b = "00000000000000000000000000000000bbbbbbbbbbbbbbbbbbbbbbbbbbbbbbbb"

abbrev create : String → Option (List String → Result String (List String))
create table = some (λ tables. ok (tables ++ table ∷ []))

abbrev registry : List (Migration (List String))
registry =
    record { version = 1; name = "create_users"; checksum = sum_a; apply = create "users" }
    ∷ record { version = 2; name = "create_records"; checksum = sum_b; apply = create "records" }
    ∷ []

abbrev first_done : Database (List String)
first_done = record {
  superuser = false;
  bypass_rls = false;
  ledger = record { version = 1; name = "create_users"; checksum = none } ∷ [];
  content = "users" ∷ [];
}

second_applied : (run registry first_done).2.content ≡ "users" ∷ "records" ∷ []
unfolding run validate_registry migration_name migration_checksum check_rows lookup insert
    apply_items String_discrete ℕ_discrete
second_applied = refl

gap_refused :
    (run registry (record first_done {
      ledger = record { version = 2; name = "create_records"; checksum = none } ∷ [];
    })).0
    ≡ err (bad_history 1 2)
unfolding run validate_registry migration_name migration_checksum check_rows lookup insert
    apply_items String_discrete ℕ_discrete
gap_refused = refl

run-Migrated_example :
    Refused first_done (run registry first_done)
    ⊎ Migrated registry first_done (run registry first_done)
run-Migrated_example = run-Migrated registry first_done

run-again_example :
    run registry (run registry first_done).2
    ≡ (ok tt, record { current_version = 2; applied = [] }, (run registry first_done).2)
unfolding run validate_registry migration_name migration_checksum check_rows lookup insert
    apply_items String_discrete ℕ_discrete
run-again_example = run-again registry first_done refl
