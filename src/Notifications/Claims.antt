-- ===== src/Notifications/Claims.antt =====
-- What ClaimPending of backend/internal/repository/notification_repository.go claims.
use nexa_flow.Prelude.{suc, ◌≡◌, ◌⊎◌, true, List, [], ◌∷◌, map, some, String, string_eq}
use nexa_flow.Prelude.Int.{ℤ}
use nexa_flow.Notifications.Outbox.{Row, is_claimable}

-- A row as its claim leaves it: in processing from now on, with one more attempt, and else as it was.
pub record Marked (now : ℤ) (was row : Row) : Type 0 where
  pub status : row.status ≡ "processing"
  pub attempts : row.attempt_count ≡ suc was.attempt_count
  pub since : row.claimed_at ≡ some now
  pub same_id : row.id ≡ was.id
  pub same_channel : row.channel ≡ was.channel
  pub same_recipient : row.recipient ≡ was.recipient
  pub same_subject : row.subject ≡ was.subject
  pub same_body : row.body ≡ was.body

-- The rows that a claim answers are those of the table that it has marked, in their order; every
-- other row is as it was.
abbrev pub Taken : ℤ → ℤ → List Row → List Row → List Row → Type 0
Taken now before [] [] [] = Unit
Taken now before [] (_ ∷ _) claimed = ⊥
Taken now before [] [] (_ ∷ _) = ⊥
Taken now before (_ ∷ _) [] claimed = ⊥
Taken now before (old ∷ olds) (new ∷ news) [] = (new ≡ old) × Taken now before olds news []
Taken now before (old ∷ olds) (new ∷ news) (row ∷ claimed) =
    ((new ≡ old) × Taken now before olds news (row ∷ claimed))
    ⊎ ((is_claimable now before old ≡ true)
        × Marked now old new
        × (row ≡ new)
        × Taken now before olds news claimed)

-- The identity of a claimed row.
abbrev pub ids : List Row → List String
ids rows = map (λ row. Row.id row) rows
