-- ===== src/Migrations/Pending.antt =====
-- The loop over the migrations (backend/internal/migration/runner.go): it skips those of the ledger and
-- applies the others.
use nexa_flow.Prelude.{
  ℕ, suc, ◌+◌, ◌≤◌, ◌<◌, ◌≡◌, refl, sym, ap, ◌∙◌, inl, inr, true, false, List, [], ◌∷◌, ◌++◌, map,
  length, drop, All, String, Result, ok, err, Result-cases, ◌>>=◌, ◌==◌, nat_eq, arith, ltb, leb,
}
use mathlib.Core.List.{append-nil, append_assoc}
use nexa_flow.Migrations.Runner.{
  Migration, MigrationError, apply_failed, LedgerRow, Database, Report, insert_row, row_of,
  applied_of, run_apply, apply_item, apply_items, Outcome,
}
use nexa_flow.Migrations.Registry.{IsRegistry}
use nexa_flow.Migrations.History.{IsHistory}

-- The versions of the ledger are at most a number.
abbrev pub AreBelow : ℕ → List LedgerRow → Type 0
AreBelow most rows = All (λ r. LedgerRow.version r ≤ most) rows

insert_row-last :
    (row : LedgerRow) (rows : List LedgerRow) (most : ℕ)
    → AreBelow most rows
    → most < row.version
    → insert_row row rows ≡ ok (rows ++ row ∷ [])
unfolding insert_row
insert_row-last row [] most b h = refl
insert_row-last row (r ∷ rows) most b h =
    let later : ltb row.version r.version ≡ false = ground (arith, b.0) in
    let other : (row.version == r.version) ≡ false = ground (arith, b.0) in
    rw (insert_row-last row rows most b.1 h, later, other) refl

below-append :
    (most : ℕ) (rows : List LedgerRow) (row : LedgerRow)
    → AreBelow most rows
    → row.version ≡ suc most
    → AreBelow (suc most) (rows ++ row ∷ [])
below-append most [] row b h = (omega (arith, h), tt)
below-append most (r ∷ rows) row b h = (omega (arith, b.0), below-append most rows row b.1 h)

module _ {S : Type 0} where
  -- Migrations applied one after the other.
  pub apply_all : List (Migration S) → S → Result String S
  apply_all [] content = ok content
  apply_all (item ∷ items) content = run_apply item.apply content >>= apply_all items

  -- The migration at which a run of the loop stopped.
  abbrev pub Stopped : S → List (Migration S) → Result MigrationError (Unit {0}) → Type 0
  Stopped content [] result = result ≡ ok tt
  Stopped content (item ∷ items) result =
      (e : String) × (run_apply item.apply content ≡ err e)
      × (result ≡ err (apply_failed item.version e))

  -- A run of the loop has applied the first of the migrations that were left, each with its row in
  -- the ledger and in the report, and has stopped at the first that fails.
  pub record Ran (todo : List (Migration S)) (version : ℕ) (report : Report) (db : Database S)
      (outcome : Outcome S) : Type 0 where
    pub done : List (Migration S)
    pub rest : List (Migration S)
    pub split : todo ≡ done ++ rest
    pub content : apply_all done db.content ≡ ok outcome.2.content
    pub ledger : outcome.2.ledger ≡ db.ledger ++ map row_of done
    pub applied : outcome.1.applied ≡ report.applied ++ map applied_of done
    pub current : outcome.1.current_version ≡ version + length done
    pub role : (outcome.2.superuser ≡ db.superuser) × (outcome.2.bypass_rls ≡ db.bypass_rls)
    pub stopped : Stopped outcome.2.content rest outcome.0

  apply_item-ok :
      (item : Migration S) (db : Database S) (most : ℕ) (content : S)
      → AreBelow most db.ledger
      → item.version ≡ suc most
      → run_apply item.apply db.content ≡ ok content
      → apply_item item db
        ≡ ok (record db { ledger = db.ledger ++ row_of item ∷ []; content = content })
  unfolding apply_item
  apply_item-ok item db most content b v h =
      rw (h, insert_row-last (row_of item) db.ledger most b (omega (arith, v)), apply_item) refl

  apply_item-err :
      (item : Migration S) (db : Database S) (e : String)
      → run_apply item.apply db.content ≡ err e
      → apply_item item db ≡ err (apply_failed item.version e)
  unfolding apply_item
  apply_item-err item db e h = rw (h, apply_item) refl

  pub apply_items-Ran :
      (items : List (Migration S)) (version : ℕ) (report : Report) (db : Database S)
      → IsRegistry version items
      → report.current_version ≡ version
      → AreBelow version db.ledger
      → Ran items version report db (apply_items report items db)
  unfolding apply_items apply_all
  apply_items-Ran [] version report db r c b = record {
    done = [];
    rest = [];
    split = refl;
    content = refl;
    ledger = sym (append-nil _);
    applied = sym (append-nil _);
    current = omega (arith, c);
    role = (refl, refl);
    stopped = refl;
  }
  apply_items-Ran (item ∷ items) version report db r c b =
      let todo : leb item.version report.current_version ≡ false = ground (arith, r.0, c) in
      elim (Result-cases (run_apply item.apply db.content)) [
        | inr (e, failed) ↦
            rw (todo, apply_item-err item db e failed, apply_items)
              (record {
                done = [];
                rest = item ∷ items;
                split = refl;
                content = refl;
                ledger = sym (append-nil _);
                applied = sym (append-nil _);
                current = omega (arith, c);
                role = (refl, refl);
                stopped = (e, failed, refl);
              })
        | inl (content, passed) ↦
            let db' : Database S = record db {
              ledger = db.ledger ++ row_of item ∷ [];
              content = content;
            } in
            let report' : Report = record {
              current_version = item.version;
              applied = report.applied ++ applied_of item ∷ [];
            } in
            let ran =
              apply_items-Ran items (suc version) report' db' r.1 r.0
                (below-append version db.ledger (row_of item) b r.0) in
            rw (todo, apply_item-ok item db version content b r.0 passed, apply_items)
              (record {
                done = item ∷ ran.done;
                rest = ran.rest;
                split = ap (◌∷◌ item) ran.split;
                content = rw passed ran.content;
                ledger =
                    ran.ledger ∙ append_assoc db.ledger (row_of item ∷ []) (map row_of ran.done);
                applied =
                    ran.applied
                    ∙ append_assoc report.applied (applied_of item ∷ []) (map applied_of ran.done);
                current = omega (arith, ran.current);
                role = ran.role;
                stopped = ran.stopped;
              })
      ]

  -- The migrations of the ledger are skipped.
  pub apply_items-skip :
      (items : List (Migration S)) (rows : List LedgerRow) (start : ℕ) (report : Report)
      (db : Database S)
      → IsRegistry start items
      → IsHistory items rows
      → start + length rows ≤ report.current_version
      → apply_items report items db ≡ apply_items report (drop (length rows) items) db
  unfolding apply_items
  apply_items-skip items [] start report db r m c = refl
  apply_items-skip [] (row ∷ rows) start report db r m c = absurd m
  apply_items-skip (item ∷ items) (row ∷ rows) start report db r m c =
      let skipped : leb item.version report.current_version ≡ true = ground (arith, r.0, c) in
      rw (skipped, apply_items)
        (apply_items-skip items rows (suc start) report db r.1 m.1 (omega (arith, c)))
