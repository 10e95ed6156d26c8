-- ===== src/Migrations/Runner.antt =====
-- Run, runLocked and validateRegistry of backend/internal/migration/runner.go. A migration's SQL is a
-- function on the content of the database, which fails as a whole; versions are natural numbers. The
-- ledger is the table schema_migrations in the order of its primary key. Times, the advisory lock and
-- failures of the runner's own statements are left out.
use nexa_flow.Prelude.{
  ℕ, suc, Bool, true, false, not, ◌||◌, List, [], ◌∷◌, ◌++◌, Option, none, some, String, Result, ok,
  err, ltb, leb, ◌==◌, if◌then◌else◌, string_eq, nat_eq,
}
use nexa_flow.Prelude.Maps.{lookup, insert}
use nexa_flow.Patterns.{migration_name, migration_checksum}

pub data MigrationError : Type 0 where
  empty_registry : MigrationError
  invalid_registry : ℕ → MigrationError
  unsafe_role : MigrationError
  bad_history : ℕ → ℕ → MigrationError
  database_ahead : ℕ → MigrationError
  name_mismatch : ℕ → MigrationError
  checksum_mismatch : ℕ → MigrationError
  apply_failed : ℕ → String → MigrationError
  duplicate_version : ℕ → MigrationError

pub record Migration (S : Type 0) : Type 0 where
  pub version : ℕ
  pub name : String
  pub checksum : String
  pub apply : Option (S → Result String S)

pub record LedgerRow : Type 0 where
  pub version : ℕ
  pub name : String
  pub checksum : Option String

-- The database, with the rights of the role that the runner connects as.
pub record Database (S : Type 0) : Type 0 where
  pub superuser : Bool
  pub bypass_rls : Bool
  pub ledger : List LedgerRow
  pub content : S

pub record AppliedMigration : Type 0 where
  pub version : ℕ
  pub name : String
  pub checksum : String

pub record Report : Type 0 where
  pub current_version : ℕ
  pub applied : List AppliedMigration

-- row.Checksum after the backfill
abbrev pub or_expected : String → Option String → String
or_expected expected none = expected
or_expected expected (some c) = if c == "" then expected else c

-- The stored checksum after the backfill, which updates a null only.
abbrev pub backfilled : String → Option String → Option String
backfilled expected none = some expected
backfilled expected (some c) = some c

-- INSERT INTO schema_migrations
unfoldable pub insert_row : LedgerRow → List LedgerRow → Result MigrationError (List LedgerRow)
insert_row row [] = ok (row ∷ [])
insert_row row (r ∷ rows) =
    let rest = insert_row row rows in
    if row.version == r.version
    then err (duplicate_version row.version)
    else if ltb row.version r.version
    then ok (row ∷ r ∷ rows)
    else elim rest [ ok rows' ↦ ok (r ∷ rows') | err e ↦ err e ]

-- What the loop over the ledger goes on with, after a row.
abbrev pub check_next :
    Result MigrationError (Unit {0}) × LedgerRow
    → ℕ
    → List LedgerRow
    → Result MigrationError (Unit {0}) × ℕ × List LedgerRow
    → Result MigrationError (Unit {0}) × ℕ × List LedgerRow
check_next (ok u, row) current rows (r, current', rows') = (r, current', row ∷ rows')
check_next (err e, row) current rows rest = (err e, current, row ∷ rows)

abbrev pub no_report : Report
no_report = record { current_version = 0; applied = [] }

abbrev pub Outcome : Type 0 → Type 0
Outcome S = Result MigrationError (Unit {0}) × Report × Database S

module _ {S : Type 0} where
  abbrev pub is_nil : Option (S → Result String S) → Bool
  is_nil none = true
  is_nil (some f) = false

  -- The loop of validateRegistry.
  unfoldable pub check_registry : ℕ → List (Migration S) → Result MigrationError (Unit {0})
  check_registry index [] = ok tt
  check_registry index (item ∷ items) =
      let rest = check_registry (suc index) items in
      if not (item.version == suc index)
        || not (migration_name item.name)
        || not (migration_checksum item.checksum)
        || is_nil item.apply
      then err (invalid_registry index)
      else rest

  -- validateRegistry
  unfoldable pub validate_registry : List (Migration S) → Result MigrationError (Unit {0})
  unfolding check_registry
  validate_registry [] = err empty_registry
  validate_registry (item ∷ items) = check_registry 0 (item ∷ items)

  -- The loop that fills the map of known migrations.
  unfoldable pub known_from : List (ℕ × Migration S) → List (Migration S) → List (ℕ × Migration S)
  unfolding insert
  known_from m [] = m
  known_from m (item ∷ items) = known_from (insert item.version item m) items

  -- The check of a row against its migration, and the row as it is stored afterwards.
  unfoldable pub check_row :
      ℕ → LedgerRow → Option (Migration S) → Result MigrationError (Unit {0}) × LedgerRow
  check_row index row found =
      if not (row.version == suc index)
      then (err (bad_history (suc index) row.version), row)
      else elim found [
        | none ↦ (err (database_ahead row.version), row)
        | some expected ↦
            if not (row.name == expected.name)
            then (err (name_mismatch row.version), row)
            else if not (or_expected expected.checksum row.checksum == expected.checksum)
            then (
              err (checksum_mismatch row.version),
              record row { checksum = backfilled expected.checksum row.checksum },
            )
            else (ok tt, record row { checksum = backfilled expected.checksum row.checksum })
      ]

  -- The loop over the ledger: whether it passed, the current version, and the stored rows.
  unfoldable pub check_rows :
      List (ℕ × Migration S)
      → ℕ
      → ℕ
      → List LedgerRow
      → Result MigrationError (Unit {0}) × ℕ × List LedgerRow
  unfolding check_row lookup
  check_rows known index current [] = (ok tt, current, [])
  check_rows known index current (row ∷ rows) =
      check_next (check_row index row (lookup row.version known)) current rows (
        check_rows known (suc index) (if ltb current row.version then row.version else current)
          rows)

  abbrev pub row_of : Migration S → LedgerRow
  row_of item = record { version = item.version; name = item.name; checksum = some item.checksum }

  abbrev pub applied_of : Migration S → AppliedMigration
  applied_of item = record { version = item.version; name = item.name; checksum = item.checksum }

  abbrev pub run_apply : Option (S → Result String S) → S → Result String S
  run_apply none content = ok content
  run_apply (some f) content = f content

  -- The transaction of a migration.
  unfoldable pub apply_item : Migration S → Database S → Result MigrationError (Database S)
  unfolding insert_row
  apply_item item db = elim (run_apply item.apply db.content) [
    | err e ↦ err (apply_failed item.version e)
    | ok content ↦ elim (insert_row (row_of item) db.ledger) [
      | err e ↦ err e
      | ok ledger ↦ ok (record db { ledger = ledger; content = content })
    ]
  ]

  -- The loop over the migrations.
  unfoldable pub apply_items : Report → List (Migration S) → Database S → Outcome S
  unfolding apply_item
  apply_items report [] db = (ok tt, report, db)
  apply_items report (item ∷ items) db = elim (leb item.version report.current_version) [
    | true ↦ apply_items report items db
    | false ↦ elim (apply_item item db) [
      | err e ↦ (err e, report, db)
      | ok db' ↦
          apply_items
            (record {
              current_version = item.version;
              applied = report.applied ++ applied_of item ∷ [];
            })
            items db'
    ]
  ]

  abbrev pub after_check :
      List (Migration S)
      → Database S
      → Result MigrationError (Unit {0}) × ℕ × List LedgerRow
      → Outcome S
  after_check items db (err e, current, rows) =
      (err e, record { current_version = current; applied = [] }, record db { ledger = rows })
  after_check items db (ok u, current, rows) =
      apply_items (record { current_version = current; applied = [] }) items
        (record db { ledger = rows })

  -- runLocked
  unfoldable pub run_locked : List (Migration S) → Database S → Outcome S
  unfolding check_rows known_from apply_items
  run_locked items db =
      if db.superuser || db.bypass_rls
      then (err unsafe_role, no_report, db)
      else after_check items db (check_rows (known_from [] items) 0 0 db.ledger)

  abbrev pub if_valid : Result MigrationError (Unit {0}) → Database S → Outcome S → Outcome S
  if_valid (ok u) db outcome = outcome
  if_valid (err e) db outcome = (err e, no_report, db)

  -- Run
  unfoldable pub run : List (Migration S) → Database S → Outcome S
  unfolding validate_registry run_locked
  run items db = if_valid (validate_registry items) db (run_locked items db)
