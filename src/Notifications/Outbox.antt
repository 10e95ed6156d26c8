-- ===== src/Notifications/Outbox.antt =====
-- ClaimPending and the three marks of backend/internal/repository/notification_repository.go, over the
-- columns of Notification (backend/internal/model/workflow.go) that they read or write. The table is a
-- list of rows in the order of created_at; locks of other transactions, and failures of the database,
-- are left out.
use nexa_flow.Prelude.{
  ℕ, zero, suc, Bool, true, false, not, ◌&&◌, ◌||◌, List, [], ◌∷◌, map, any, Option, none, some,
  String, Result, ok, err, ◌==◌, if◌then◌else◌, string_eq,
}
use nexa_flow.Prelude.Int.{ℤ, pos, pos_part, ltb_ℤ, ◌-ℤ◌}

pub record Row : Type 0 where
  pub id : String
  pub tenant_id : String
  pub channel : String
  pub recipient : String
  pub subject : String
  pub body : String
  pub status : String
  pub attempt_count : ℕ
  pub next_attempt_at : Option ℤ
  pub claimed_at : Option ℤ
  pub delivered_at : Option ℤ
  pub last_error : String

pub data OutboxError : Type 0 where
  not_found : OutboxError

-- next_attempt_at IS NULL OR next_attempt_at <= now
abbrev pub is_due : ℤ → Option ℤ → Bool
is_due now none = true
is_due now (some at) = not (ltb_ℤ now at)

-- claimed_at < before, which is not true of NULL
abbrev pub is_stale : ℤ → Option ℤ → Bool
is_stale before none = false
is_stale before (some at) = ltb_ℤ at before

unfoldable pub is_claimable : ℤ → ℤ → Row → Bool
is_claimable now before row =
    ((row.status == "pending" || row.status == "failed") && is_due now row.next_attempt_at)
    || (row.status == "processing" && is_stale before row.claimed_at)

unfoldable pub claim_row : ℤ → Row → Row
claim_row now row = record row {
  status = "processing";
  attempt_count = suc row.attempt_count;
  claimed_at = some now;
  last_error = "";
}

abbrev pub with_claimed : Row → List Row × List Row → List Row × List Row
with_claimed row (claimed, rows) = (row ∷ claimed, row ∷ rows)

abbrev pub with_kept : Row → List Row × List Row → List Row × List Row
with_kept row (claimed, rows) = (claimed, row ∷ rows)

-- The claimed rows, at most so many, and the table with them.
unfoldable pub claim_rows : ℤ → ℤ → ℕ → List Row → List Row × List Row
unfolding is_claimable claim_row
claim_rows now before most [] = ([], [])
claim_rows now before zero (row ∷ rows) = ([], row ∷ rows)
claim_rows now before (suc most) (row ∷ rows) = elim (is_claimable now before row) [
  | true ↦ with_claimed (claim_row now row) (claim_rows now before most rows)
  | false ↦ with_kept row (claim_rows now before (suc most) rows)
]

abbrev pub claim_limit : ℤ → ℕ
claim_limit limit = pos_part (if ltb_ℤ limit (pos 1) then pos 25 else limit)

-- ClaimPending
unfoldable pub claim_pending : ℤ → ℤ → ℤ → List Row → List Row × List Row
unfolding claim_rows
claim_pending now limit stale_after rows =
    claim_rows now (now -ℤ stale_after) (claim_limit limit) rows

-- id = ? AND status = 'processing'
abbrev pub is_held : String → Row → Bool
is_held id row = row.id == id && row.status == "processing"

-- The update of a held row, and the error where there is none.
unfoldable pub mark : String → (Row → Row) → List Row → Result OutboxError (List Row)
mark id change rows =
    if any (is_held id) rows
    then ok (map (λ row. if is_held id row then change row else row) rows)
    else err not_found

unfoldable pub as_delivered : ℤ → Row → Row
as_delivered at row = record row {
  status = "delivered";
  delivered_at = some at;
  claimed_at = none;
  next_attempt_at = none;
  last_error = "";
}

unfoldable pub as_failed : String → ℤ → Row → Row
as_failed reason next row = record row {
  status = "failed";
  last_error = reason;
  next_attempt_at = some next;
  claimed_at = none;
}

unfoldable pub as_dead : String → Row → Row
as_dead reason row = record row {
  status = "dead_letter";
  last_error = reason;
  next_attempt_at = none;
  claimed_at = none;
}

unfoldable pub mark_delivered : String → ℤ → List Row → Result OutboxError (List Row)
unfolding mark as_delivered
mark_delivered id at rows = mark id (as_delivered at) rows

unfoldable pub mark_failed : String → String → ℤ → List Row → Result OutboxError (List Row)
unfolding mark as_failed
mark_failed id reason next rows = mark id (as_failed reason next) rows

unfoldable pub mark_dead_letter : String → String → List Row → Result OutboxError (List Row)
unfolding mark as_dead
mark_dead_letter id reason rows = mark id (as_dead reason) rows
