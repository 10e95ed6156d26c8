-- ===== src/Jobs/Scripts.antt =====
-- The Lua scripts of backend/internal/jobs/queue.go.
use nexa_flow.Prelude.{
  ℕ, ◌-◌, List, [], ◌∷◌, String, Option, none, some, string_eq, if◌then◌else◌, get_elem?,
}
use nexa_flow.Prelude.Int.{ℤ, ltb_ℤ, ◌+ℤ◌}
use nexa_flow.Jobs.Model.{
  Key, Cell, jobs, priorities, delayed, processing, dlq, ready, Job, ready_keys,
}
use nexa_flow.Jobs.Redis.{Redis}

-- The number of a priority cell.
abbrev pub priority_cell : Option Cell → Option ℕ
priority_cell none = none
priority_cell (some (Cell.priority p)) = some p
priority_cell (some (Cell.job j)) = none

module _ (r : Redis) where
  open r use {Store, list, score, hget, get, due, members, set, hset, hdel, zadd, zrem, rpush, lpop}

  -- The part of enqueueScript after the check of the idempotency key.
  unfoldable pub store_job : Job → ℕ → ℤ → ℤ → Store → Store
  store_job j priority at now s =
      let s1 = hset priorities j.id (Cell.priority priority) (hset jobs j.id (Cell.job j) s) in
      if ltb_ℤ now at then zadd delayed at j.id s1 else rpush (ready priority) j.id s1

  abbrev pub claim_key : Option String → Job → ℕ → ℤ → ℤ → ℤ → Key → Store → String × Store
  claim_key (some existing) j priority at now ttl key s = (existing, s)
  claim_key none j priority at now ttl key s =
      (j.id, store_job j priority at now (set key j.id (now +ℤ ttl) s))

  -- enqueueScript, on a server whose clock is the client's
  unfoldable pub enqueue_script : Option Key → Job → ℕ → ℤ → ℤ → ℤ → Store → String × Store
  unfolding store_job
  enqueue_script none j priority at now ttl s = (j.id, store_job j priority at now s)
  enqueue_script (some key) j priority at now ttl s =
      claim_key (get s now key) j priority at now ttl key s

  abbrev pub pop_or :
      List String → Key → ℤ → Store → Option (String × Store) → Option (String × Store)
  pop_or [] key lease s rest = rest
  pop_or (id ∷ _) key lease s rest = some (id, zadd processing lease id (lpop key s))

  -- claimScript
  unfoldable pub claim_script : List Key → ℤ → Store → Option (String × Store)
  claim_script [] lease s = none
  claim_script (key ∷ keys) lease s = pop_or (list s key) key lease s (claim_script keys lease s)

  abbrev pub push_at : Option Key → String → Store → Store
  push_at none id s = s
  push_at (some key) id s = rpush key id s

  abbrev pub push_ready : Option ℕ → String → Store → Store
  push_ready none id s = s
  push_ready (some p) id s = push_at (get_elem? ready_keys (10 - p - 1)) id s

  unfoldable pub promote_ids : Key → List String → Store → Store
  promote_ids from [] s = s
  promote_ids from (id ∷ ids) s =
      promote_ids from ids (zrem from id (push_ready (priority_cell (hget s priorities id)) id s))

  -- promoteScript, which is reclaimScript too
  unfoldable pub promote_script : Key → ℤ → ℕ → Store → Store
  unfolding promote_ids
  promote_script from now count s = promote_ids from (due s from now count) s

  -- ackScript
  unfoldable pub ack_script : String → Store → Store
  ack_script id s = hdel priorities id (hdel jobs id (zrem processing id s))

  -- retryScript
  unfoldable pub retry_script : Job → ℤ → Store → Store
  retry_script j at s = zadd delayed at j.id (hset jobs j.id (Cell.job j) (zrem processing j.id s))

  -- deadScript
  unfoldable pub dead_script : Job → ℤ → Store → Store
  dead_script j now s = zadd dlq now j.id (hset jobs j.id (Cell.job j) (zrem processing j.id s))

  abbrev pub replay_found : Option ℤ → String → Job → ℕ → Store → Store × ℕ
  replay_found none id j priority s = (s, 0)
  replay_found (some _) id j priority s =
      (rpush (ready priority) id (hset jobs id (Cell.job j) (zrem dlq id s)), 1)

  -- replayScript
  unfoldable pub replay_script : String → Job → ℕ → Store → Store × ℕ
  replay_script id j priority s = replay_found (score s dlq id) id j priority s
