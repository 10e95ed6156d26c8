-- ===== src/Notifications/Outcomes.antt =====
-- What the loop of ProcessBatch (backend/internal/service/notification_worker.go) makes of a row.
use Prim.Native.Nat.{min, max}
use nexa_flow.Prelude.{
  ℕ, ◌-◌, ◌*◌, ◌^◌, ◌≡◌, refl, sym, ◌⊎◌, inl, inr, Bool, true, false, not, ◌&&◌, Bool-cases, List,
  [], ◌∷◌, map, any, some, String, Result, ok, err, arith, if◌then◌else◌, string_eq,
  String_discrete,
}
use mathlib.Core.Path.{subst}
use nexa_flow.Prelude.Int.{ℤ, pos, ltb_ℤ, ◌+ℤ◌}
use nexa_flow.Notifications.Outbox.{
  Row, is_claimable, is_held, mark, as_delivered, as_failed, as_dead, mark_delivered, mark_failed,
  mark_dead_letter,
}
use nexa_flow.Notifications.Worker.{
  DeliveryError, NotificationConfig, or_same, next_attempt, settle_row,
}

-- The configured attempts, where there is a bound, are used up.
abbrev pub is_used_up : NotificationConfig → ℕ → Bool
is_used_up cfg attempts =
    ltb_ℤ (pos 0) cfg.max_attempts && not (ltb_ℤ (pos attempts) cfg.max_attempts)

-- Nanoseconds until the next attempt: a minute, doubled by each attempt after the first, up to 64.
abbrev pub delay : ℕ → ℕ
delay attempts = 2 ^ min (max attempts 1 - 1) 6 * 60_000_000_000

-- A row that no later claim can take.
abbrev pub IsFinal : Row → Type 0
IsFinal row = (later before : ℤ) → is_claimable later before row ≡ false

-- What a delivery makes of a row: delivered or dead for good, or failed and claimable again from the
-- time of the next attempt on.
abbrev pub Settled :
    NotificationConfig
    → (DeliveryError → String)
    → ℤ
    → ℕ
    → Result DeliveryError (Unit {0})
    → Row
    → Type 0
Settled cfg reason now attempts (ok u) row =
    (row.status ≡ "delivered") × (row.delivered_at ≡ some now) × IsFinal row
Settled cfg reason now attempts (err e) row =
    ((is_used_up cfg attempts ≡ true)
      × (row.status ≡ "dead_letter")
      × (row.last_error ≡ reason e)
      × IsFinal row)
    ⊎ ((is_used_up cfg attempts ≡ false)
        × (row.status ≡ "failed")
        × (row.last_error ≡ reason e)
        × ((later before : ℤ)
            → is_claimable later before row ≡ not (ltb_ℤ later (now +ℤ pos (delay attempts)))))

-- Two tables of which the rows that are held under an id differ as told, and no others.
abbrev pub Changes : String → (Row → Type 0) → List Row → List Row → Type 0
Changes id P [] [] = Unit
Changes id P [] (_ ∷ _) = ⊥
Changes id P (_ ∷ _) [] = ⊥
Changes id P (old ∷ olds) (new ∷ news) =
    (((is_held id old ≡ false) × (new ≡ old))
      ⊎ ((old.id ≡ id)
          × (old.status ≡ "processing")
          × (new.id ≡ id)
          × (new.attempt_count ≡ old.attempt_count)
          × P new))
    × Changes id P olds news

-- The table with a change of the rows that are held under an id.
abbrev changed : String → (Row → Row) → List Row → List Row
changed id change rows = map (λ row. if is_held id row then change row else row) rows

unheld :
    (id : String) (change : Row → Row) (rows : List Row)
    → any (is_held id) rows ≡ false
    → changed id change rows ≡ rows
unheld id change [] h = refl
unheld id change (row ∷ rows) h = ground (arith, unheld id change rows)

marked :
    (id : String) (change : Row → Row) (rows : List Row)
    → or_same (mark id change rows) rows ≡ changed id change rows
unfolding mark
marked id change rows = elim (Bool-cases (any (is_held id) rows)) [
  | inl held ↦ rw held refl
  | inr free ↦ rw free (sym (unheld id change rows free))
]

module _ (id : String) (P : Row → Type 0) (change : Row → Row)
    (law : (row : Row)
      → ((change row).id ≡ row.id)
        × ((change row).attempt_count ≡ row.attempt_count)
        × P (change row)) where
  changed-Changes : (rows : List Row) → Changes id P rows (changed id change rows)
  changed-Changes [] = tt
  changed-Changes (row ∷ rows) = elim (Bool-cases (is_held id row)) [
    | inl held ↦
        let same : row.id ≡ id = ground (arith, held) in
        rw held (
          inr (
            same,
            ground (arith, held),
            ground (arith, same, (law row).0),
            (law row).1,
            (law row).2,
          ),
          changed-Changes rows,
        )
    | inr free ↦ rw free (inl (refl, refl), changed-Changes rows)
  ]

  marked-Changes : (rows : List Row) → Changes id P rows (or_same (mark id change rows) rows)
  marked-Changes rows =
      subst (Changes id P rows) (sym (marked id change rows)) (changed-Changes rows)

-- After a delivery the rows held in processing under the id, and only those, are changed, and keep
-- their attempts. When it succeeded, such a row is delivered at that time, and no later claim takes it.
-- When it failed and the configured attempts, where there is a bound, are used up, the row is in
-- dead_letter with the reason, and no later claim takes it. When it failed else, the row is failed with
-- the reason, and a later claim can take it from the time of the next attempt on: a minute after the
-- failure, doubled by each attempt after the first, up to 64 minutes.
pub settle_row-outcome :
    (cfg : NotificationConfig) (reason : DeliveryError → String) (now : ℤ) (row : Row)
    (result : Result DeliveryError (Unit {0})) (rows : List Row)
    → Changes row.id
        (Settled cfg reason now row.attempt_count result)
        rows
        (settle_row cfg reason now row result rows)
unfolding settle_row mark_delivered mark_failed mark_dead_letter as_delivered as_failed as_dead
    is_claimable next_attempt String_discrete
settle_row-outcome cfg reason now row (ok u) rows =
    marked-Changes row.id (Settled cfg reason now row.attempt_count (ok u)) (as_delivered now)
      (λ r. (refl, refl, (refl, refl, λ later before. refl))) rows
settle_row-outcome cfg reason now row (err e) rows =
    elim (Bool-cases (is_used_up cfg row.attempt_count)) [
      | inl last ↦ rw last (
          marked-Changes row.id (Settled cfg reason now row.attempt_count (err e))
            (as_dead (reason e)) (λ r. (refl, refl, inl (last, refl, refl, λ later before. refl)))
            rows)
      | inr more ↦ rw more (
          marked-Changes row.id (Settled cfg reason now row.attempt_count (err e))
            (as_failed (reason e) (next_attempt now row.attempt_count))
            (λ r. (refl, refl, inr (more, refl, refl, λ later before. ground arith))) rows)
    ]
