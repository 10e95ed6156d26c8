-- ===== src/Migrations/History.antt =====
-- The check of the ledger against the registry (backend/internal/migration/runner.go).
use nexa_flow.Prelude.{
  ℕ, suc, ◌+◌, ◌≡◌, refl, sym, ap, ◌∙◌, ◌⊎◌, inl, inr, true, Bool-cases, List, [], ◌∷◌, length,
  Option, none, some, String, Result, ok, err, ◌==◌, if◌then◌else◌, nat_eq, string_eq, arith, ltb,
}
use nexa_flow.Prelude.Maps.{lookup}
use nexa_flow.Migrations.Runner.{
  Migration, MigrationError, LedgerRow, or_expected, backfilled, check_next, check_row, check_rows,
}
use nexa_flow.Migrations.Registry.{IsRegistry, Serves}

check_next-ok :
    (p : Result MigrationError (Unit {0}) × LedgerRow) (current : ℕ) (rows : List LedgerRow)
    (rest : Result MigrationError (Unit {0}) × ℕ × List LedgerRow) (u : Unit)
    → (check_next p current rows rest).0 ≡ ok u
    → (p.0 ≡ ok tt)
      × (rest.0 ≡ ok u)
      × (check_next p current rows rest ≡ (rest.0, rest.1, p.1 ∷ rest.2))
check_next-ok (ok v, row) current rows rest u h = (refl, h, refl)
check_next-ok (err e, row) current rows rest u h = cc

stored_checksum :
    (expected : String) (c : Option String)
    → (or_expected expected c == expected) ≡ true
    → (backfilled expected c ≡ some expected) ⊎ (backfilled expected c ≡ some "")
stored_checksum expected none h = inl refl
stored_checksum expected (some c) h = ground arith

backfilled_sum :
    (expected : String) (c : Option String)
    → (backfilled expected c ≡ c) ⊎ ((c ≡ none) × (backfilled expected c ≡ some expected))
backfilled_sum expected none = inr (refl, refl)
backfilled_sum expected (some c) = inl refl

check_row-none :
    (S : Type 0) (index : ℕ) (row : LedgerRow) → (check_row {S = S} index row none).0 ≡ ok tt → ⊥
unfolding check_row
check_row-none S index row h = ground arith

module _ {S : Type 0} where
  -- A row of the ledger that belongs to a migration; a checksum that was empty has stayed so.
  pub record IsRowOf (item : Migration S) (row : LedgerRow) : Type 0 where
    pub version : row.version ≡ item.version
    pub name : row.name ≡ item.name
    pub checksum : (row.checksum ≡ some item.checksum) ⊎ (row.checksum ≡ some "")

  -- The rows belong to the first migrations, one to each.
  abbrev pub IsHistory : List (Migration S) → List LedgerRow → Type 0
  IsHistory items [] = Unit
  IsHistory [] (row ∷ rows) = ⊥
  IsHistory (item ∷ items) (row ∷ rows) = IsRowOf item row × IsHistory items rows

  -- A row after the check, by the row before: a checksum that was missing is the migration's, and
  -- nothing else has changed.
  pub record IsBackfill (item : Migration S) (old new : LedgerRow) : Type 0 where
    pub same_version : new.version ≡ old.version
    pub same_name : new.name ≡ old.name
    pub sum :
        (new.checksum ≡ old.checksum)
        ⊎ ((old.checksum ≡ none) × (new.checksum ≡ some item.checksum))

  -- The rows of a ledger, each for the next migration, before and after the check.
  abbrev pub AreBackfills : List (Migration S) → List LedgerRow → List LedgerRow → Type 0
  AreBackfills items [] [] = Unit
  AreBackfills items [] (_ ∷ _) = ⊥
  AreBackfills items (_ ∷ _) [] = ⊥
  AreBackfills [] (_ ∷ _) (_ ∷ _) = ⊥
  AreBackfills (item ∷ items) (old ∷ olds) (new ∷ news) =
      IsBackfill item old new × AreBackfills items olds news

  check_row-IsRowOf :
      (index : ℕ) (row : LedgerRow) (item : Migration S)
      → item.version ≡ suc index
      → (check_row index row (some item)).0 ≡ ok tt
      → IsRowOf item (check_row index row (some item)).1
        × (row.version ≡ suc index)
        × IsBackfill item row (check_row index row (some item)).1
  unfolding check_row
  check_row-IsRowOf index row item v h = elim (Bool-cases (row.version == suc index)) [
    | inr other ↦ absurd (ground (arith, other))
    | inl here ↦ elim (Bool-cases (row.name == item.name)) [
      | inr other ↦ absurd (ground (arith, other, here))
      | inl named ↦ elim (Bool-cases (or_expected item.checksum row.checksum == item.checksum)) [
        | inr other ↦ absurd (ground (arith, other, here, named))
        | inl sum ↦
            rw (here, named, sum)
              (
                record {
                  version = ground arith;
                  name = ground arith;
                  checksum = stored_checksum item.checksum row.checksum sum;
                },
                ground arith,
                record {
                  same_version = refl;
                  same_name = refl;
                  sum = backfilled_sum item.checksum row.checksum;
                },
              )
      ]
    ]
  ]

  check_row-version :
      (index : ℕ) (row : LedgerRow) (found : Option (Migration S))
      → (check_row index row found).0 ≡ ok tt
      → row.version ≡ suc index
  unfolding check_row
  check_row-version index row found h = ground arith

  -- A check that passes has matched every row, and counted them.
  pub check_rows-IsHistory :
      (known : List (ℕ × Migration S)) (items : List (Migration S)) (start : ℕ)
      (rows : List LedgerRow) (u : Unit)
      → IsRegistry start items
      → Serves known start items
      → (check_rows known start start rows).0 ≡ ok u
      → IsHistory items (check_rows known start start rows).2
        × (length (check_rows known start start rows).2 ≡ length rows)
        × ((check_rows known start start rows).1 ≡ start + length rows)
        × AreBackfills items rows (check_rows known start start rows).2
  unfolding check_rows
  check_rows-IsHistory known items start [] u r s h = (tt, refl, omega arith, tt)
  check_rows-IsHistory known [] start (row ∷ rows) u r s h =
      let c = check_next-ok (check_row start row (lookup row.version known)) start rows _ u h in
      let v = check_row-version start row (lookup row.version known) c.0 in
      let f : lookup row.version known ≡ none = ap (λ n. lookup n known) v ∙ s in
      absurd (check_row-none S start row (ap (λ o. (check_row start row o).0) (sym f) ∙ c.0))
  check_rows-IsHistory known (item ∷ items) start (row ∷ rows) u r s h =
      let c = check_next-ok (check_row start row (lookup row.version known)) start rows _ u h in
      let v = check_row-version start row (lookup row.version known) c.0 in
      let f : lookup row.version known ≡ some item = ap (λ n. lookup n known) v ∙ s.0 in
      let next : (if ltb start row.version then row.version else start) ≡ suc start =
        ground arith in
      let rest =
        check_rows-IsHistory known items (suc start) rows u r.1 s.1
          (ap (λ n. (check_rows known (suc start) n rows).0) (sym next) ∙ c.1) in
      let here =
        check_row-IsRowOf start row item r.0 (ap (λ o. (check_row start row o).0) (sym f) ∙ c.0) in
      rw (c.2, f, next)
        ((here.0, rest.0), omega (arith, rest.1), omega (arith, rest.2), (here.2, rest.3))

  check_row-eq :
      (index : ℕ) (row : LedgerRow) (item : Migration S)
      → item.version ≡ suc index
      → IsRowOf item row
      → check_row index row (some item) ≡ (ok tt, row)
  unfolding check_row
  check_row-eq index row item v m = ground (arith, m.version, m.name, m.checksum)

  -- A history passes the check, which changes nothing.
  pub IsHistory-check_rows :
      (known : List (ℕ × Migration S)) (items : List (Migration S)) (start : ℕ)
      (rows : List LedgerRow)
      → IsRegistry start items
      → Serves known start items
      → IsHistory items rows
      → check_rows known start start rows ≡ (ok tt, start + length rows, rows)
  unfolding check_rows
  IsHistory-check_rows known items start [] r s m = ap (λ n. (ok tt, n, [])) (omega arith)
  IsHistory-check_rows known [] start (row ∷ rows) r s m = absurd m
  IsHistory-check_rows known (item ∷ items) start (row ∷ rows) r s m =
      let v : row.version ≡ suc start = m.0.version ∙ r.0 in
      let f : lookup row.version known ≡ some item = ap (λ n. lookup n known) v ∙ s.0 in
      let next : (if ltb start row.version then row.version else start) ≡ suc start =
        ground arith in
      rw
        (
          f,
          next,
          check_row-eq start row item r.0 m.0,
          IsHistory-check_rows known items (suc start) rows r.1 s.1 m.1,
        )
        (ap (λ n. (ok tt, n, row ∷ rows)) (omega arith))
