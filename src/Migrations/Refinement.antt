-- ===== src/Migrations/Refinement.antt =====
-- A run of the migrations (backend/internal/migration/runner.go) against what it promises: the
-- migrations that the ledger does not have yet, applied in their order.
use nexa_flow.Prelude.{
  ℕ, suc, ◌+◌, ◌≤◌, ◌≡◌, refl, sym, ap, ◌∙◌, ◌⊎◌, inl, inr, false, ◌||◌, Bool-cases, List, [], ◌∷◌,
  ◌++◌, map, length, drop, Result, ok, err, Result-cases, nat_eq, arith,
}
use mathlib.Core.Path.{subst}
use mathlib.Core.List.{append-nil}
use nexa_flow.Prelude.Maps.{lookup}
use nexa_flow.Migrations.Runner.{
  Migration, MigrationError, LedgerRow, Database, Report, row_of, known_from, check_rows,
  apply_items, Outcome, after_check, run_locked, validate_registry, run,
}
use nexa_flow.Migrations.Registry.{
  IsRegistry, Serves, validate_registry-IsRegistry, known_from-Serves,
}
use nexa_flow.Migrations.History.{
  IsHistory, AreBackfills, check_rows-IsHistory, IsHistory-check_rows,
}
use nexa_flow.Migrations.Pending.{AreBelow, Stopped, Ran, apply_items-Ran, apply_items-skip}

zero_plus : (n : ℕ) → 0 + n ≡ n
zero_plus n = omega arith

module _ {S : Type 0} where
  -- A run that stopped before its first migration.
  abbrev pub Refused : Database S → Outcome S → Type 0
  Refused db (result, report, db') =
      ((e : MigrationError) × (result ≡ err e)) × (report.applied ≡ []) × (db'.content ≡ db.content)

  -- A run that found the ledger in order, filled in its missing checksums, and went on from it.
  pub record Migrated (items : List (Migration S)) (db : Database S) (outcome : Outcome S)
      : Type 0 where
    pub history : List LedgerRow
    pub known : IsHistory items history
    pub backfilled : AreBackfills items db.ledger history
    pub valid : validate_registry items ≡ ok tt
    pub safe : (db.superuser || db.bypass_rls) ≡ false
    pub ran :
        Ran
          (drop (length history) items)
          (length history)
          (record { current_version = length history; applied = [] })
          (record db { ledger = history })
          outcome

  IsRegistry-drop :
      (items : List (Migration S)) (rows : List LedgerRow) (start : ℕ)
      → IsRegistry start items
      → IsHistory items rows
      → IsRegistry (start + length rows) (drop (length rows) items)
  IsRegistry-drop items [] start r m = rw (plus_zero start) r
    where
      plus_zero : (n : ℕ) → n + 0 ≡ n
      plus_zero n = omega arith
  IsRegistry-drop [] (row ∷ rows) start r m = absurd m
  IsRegistry-drop (item ∷ items) (row ∷ rows) start r m =
      rw (moved start (length rows)) (IsRegistry-drop items rows (suc start) r.1 m.1)
    where
      moved : (a b : ℕ) → a + suc b ≡ suc a + b
      moved a b = omega arith

  IsHistory-AreBelow :
      (items : List (Migration S)) (rows : List LedgerRow) (start most : ℕ)
      → IsRegistry start items
      → IsHistory items rows
      → start + length rows ≤ most
      → AreBelow most rows
  IsHistory-AreBelow items [] start most r m h = tt
  IsHistory-AreBelow [] (row ∷ rows) start most r m h = absurd m
  IsHistory-AreBelow (item ∷ items) (row ∷ rows) start most r m h = (
    omega (arith, m.0.version, r.0, h),
    IsHistory-AreBelow items rows (suc start) most r.1 m.1 (omega (arith, h)),
  )

  serves : (items : List (Migration S)) → IsRegistry 0 items → Serves (known_from [] items) 0 items
  unfolding lookup
  serves items r = known_from-Serves [] items 0 r (λ v h. refl)

  after_check-err :
      (items : List (Migration S)) (db : Database S)
      (p : Result MigrationError (Unit {0}) × ℕ × List LedgerRow) (e : MigrationError)
      → p.0 ≡ err e
      → Refused db (after_check items db p)
  after_check-err items db (err e', current, rows) e h = ((e', refl), refl, refl)
  after_check-err items db (ok u, current, rows) e h = cc

  after_check-ok :
      (items : List (Migration S)) (db : Database S)
      (p : Result MigrationError (Unit {0}) × ℕ × List LedgerRow)
      → validate_registry items ≡ ok tt
      → IsRegistry 0 items
      → (db.superuser || db.bypass_rls) ≡ false
      → (u : Unit {0}) → p.0 ≡ ok u
      → IsHistory items p.2
      → AreBackfills items db.ledger p.2
      → p.1 ≡ length p.2
      → Migrated items db (after_check items db p)
  after_check-ok items db (err e, current, rows) valid r safe u h m n c = cc
  after_check-ok items db (ok v, current, rows) valid r safe u h m n c = record {
    history = rows;
    known = m;
    backfilled = n;
    safe = safe;
    valid = valid;
    ran =
        rw
          (
            c,
            apply_items-skip items rows 0 (record { current_version = length rows; applied = [] })
                (record db { ledger = rows }) r m (omega arith),
          )
          (apply_items-Ran (drop (length rows) items) (length rows)
            (record { current_version = length rows; applied = [] }) (record db { ledger = rows })
            (subst (λ n. IsRegistry n (drop (length rows) items)) (zero_plus (length rows))
              (IsRegistry-drop items rows 0 r m))
            refl (IsHistory-AreBelow items rows 0 (length rows) r m (omega arith)));
  }

  -- A run either refuses, with an error, no migration applied and the content as it was; or the
  -- ledger had a row for each of the first migrations, with its version, its name, and its
  -- checksum or one that is blank or missing; the run has filled in the missing checksums and left these
  -- rows else as they were, and it has applied the next ones in
  -- their order, each with its row in the ledger and in the report, until one failed or none was
  -- left: the content is what these make of the old one, and a failed migration left no trace.
  pub run-Migrated :
      (items : List (Migration S)) (db : Database S)
      → Refused db (run items db) ⊎ Migrated items db (run items db)
  unfolding run run_locked
  run-Migrated items db = elim (Result-cases (validate_registry items)) [
    | inr (e, bad) ↦ rw (bad, run) (inl ((e, refl), refl, refl))
    | inl (u, good) ↦
        let r = validate_registry-IsRegistry items u good in
        elim (Bool-cases (db.superuser || db.bypass_rls)) [
          | inl unsafe ↦
              rw (good, unsafe, run, run_locked)
                (inl ((MigrationError.unsafe_role, refl), refl, refl))
          | inr safe ↦ elim (Result-cases (check_rows (known_from [] items) 0 0 db.ledger).0) [
            | inr (e, bad) ↦
                rw (good, safe, run, run_locked) (inl (after_check-err items db _ e bad))
            | inl (v, passed) ↦
                let c =
                  check_rows-IsHistory (known_from [] items) items 0 db.ledger v r (serves items r)
                    passed in
                rw (good, safe, run, run_locked)
                  (inr (
                    after_check-ok items db _ good r safe v passed c.0 c.3
                      (omega (arith, c.1, c.2))))
          ]
        ]
  ]

  -- The first migrations and the ones after them, by rows and by what was applied.
  history-append :
      (items done rest : List (Migration S)) (rows : List LedgerRow)
      → IsHistory items rows
      → drop (length rows) items ≡ done ++ rest
      → IsHistory items (rows ++ map row_of done)
  history-append items [] rest [] m e = tt
  history-append items (d ∷ done) rest [] m e = rw e (all_rows (d ∷ done) rest)
    where
      all_rows : (done rest : List (Migration S)) → IsHistory (done ++ rest) (map row_of done)
      all_rows [] rest = tt
      all_rows (d ∷ done) rest =
          (record { version = refl; name = refl; checksum = inl refl }, all_rows done rest)
  history-append [] done rest (row ∷ rows) m e = absurd m
  history-append (item ∷ items) done rest (row ∷ rows) m e =
      (m.0, history-append items done rest rows m.1 e)

  length-history :
      (items done : List (Migration S)) (rows : List LedgerRow)
      → IsHistory items rows
      → drop (length rows) items ≡ done
      → length (rows ++ map row_of done) ≡ length items
  length-history items done [] m e = rw (← e) (same_length items)
    where
      same_length : (items : List (Migration S)) → length (map row_of items) ≡ length items
      same_length [] = refl
      same_length (i ∷ items) = ap suc (same_length items)
  length-history [] done (row ∷ rows) m e = absurd m
  length-history (item ∷ items) done (row ∷ rows) m e =
      ap suc (length-history items done rows m.1 e)

  drop_all : (items : List (Migration S)) (n : ℕ) → length items ≡ n → drop n items ≡ []
  drop_all [] ℕ.zero h = refl
  drop_all [] (suc n) h = refl
  drop_all (item ∷ items) ℕ.zero h = absurd (omega (arith, h))
  drop_all (item ∷ items) (suc n) h = drop_all items n (omega (arith, h))

  nothing_left :
      (items : List (Migration S)) (db : Database S) (report : Report) {left : List (Migration S)}
      → left ≡ []
      → apply_items report left db ≡ (ok tt, report, db)
  unfolding apply_items
  nothing_left items db report e = rw e refl

  -- A run on a ledger that has every migration changes nothing.
  run_complete :
      (items : List (Migration S)) (db : Database S) (u : Unit {0})
      → validate_registry items ≡ ok u
      → (db.superuser || db.bypass_rls) ≡ false
      → IsHistory items db.ledger
      → length db.ledger ≡ length items
      → run items db ≡ (ok tt, record { current_version = length items; applied = [] }, db)
  unfolding run run_locked
  run_complete items db u good safe m n =
      let r = validate_registry-IsRegistry items u good in
      rw
        (
          good,
          safe,
          IsHistory-check_rows (known_from [] items) items 0 db.ledger r (serves items r) m,
          zero_plus (length db.ledger),
          run,
          run_locked,
        )
        (apply_items-skip items db.ledger 0
            (record { current_version = length db.ledger; applied = [] }) db r m (omega arith)
          ∙ nothing_left items db (record { current_version = length db.ledger; applied = [] })
              (drop_all items (length db.ledger) (sym n))
          ∙ ap (λ c. (ok tt, record { current_version = c; applied = [] }, db)) n)

  after_run :
      (items : List (Migration S)) (db : Database S) (outcome : Outcome S)
      → Refused db outcome ⊎ Migrated items db outcome
      → outcome.0 ≡ ok tt
      → run items outcome.2
        ≡ (ok tt, record { current_version = length items; applied = [] }, outcome.2)
  after_run items db outcome (inl refused) h = absurd (clash refused.0.1 h)
    where
      clash : {e : MigrationError} → outcome.0 ≡ err e → outcome.0 ≡ ok tt → ⊥
      clash p q = cc
  after_run items db outcome (inr m) h =
      let whole = done_all m.ran.rest m.ran.stopped h in
      let split : drop (length m.history) items ≡ m.ran.done ++ m.ran.rest = m.ran.split in
      let all : drop (length m.history) items ≡ m.ran.done =
        split ∙ ap (λ r. m.ran.done ++ r) whole ∙ append-nil m.ran.done in
      run_complete items outcome.2 tt m.valid (rw (m.ran.role.0, m.ran.role.1) m.safe)
        (rw m.ran.ledger (history-append items m.ran.done m.ran.rest m.history m.known split))
        (ap length m.ran.ledger ∙ length-history items m.ran.done m.history m.known all)
    where
      done_all :
          (rest : List (Migration S))
          → Stopped outcome.2.content rest outcome.0
          → outcome.0 ≡ ok tt
          → rest ≡ []
      done_all [] s h = refl
      done_all (item ∷ rest) (e, failed, result) h = cc

  -- When a run has succeeded, running again on what it left succeeds, applies nothing, and changes
  -- nothing.
  pub run-again :
      (items : List (Migration S)) (db : Database S)
      → (run items db).0 ≡ ok tt
      → run items (run items db).2
        ≡ (ok tt, record { current_version = length items; applied = [] }, (run items db).2)
  run-again items db h = after_run items db (run items db) (run-Migrated items db) h
