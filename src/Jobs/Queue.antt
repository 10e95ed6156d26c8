-- ===== src/Jobs/Queue.antt =====
-- The methods of Queue in backend/internal/jobs/queue.go. The clock and newID are arguments; a
-- handler answers whether it succeeded. Telemetry, tracing and logging are left out.
use nexa_flow.Prelude.{
  ℕ, zero, suc, ◌+◌, ◌-◌, ◌*◌, ◌%◌, ◌^◌, Bool, false, not, ◌||◌, List, [], ◌∷◌, ◌++◌, Option, none,
  some, String, Result, ok, err, ltb, ◌==◌, length, string_eq, if◌then◌else◌,
}
use Prim.Native.Nat.{min}
use nexa_flow.Prelude.Int.{ℤ, pos, negsuc, pos_part, ltb_ℤ, ◌+ℤ◌}
use nexa_flow.Prelude.Maps.{lookup, insert}
use nexa_flow.Jobs.Model.{
  Job, Request, Schedule, JobsConfig, Key, Cell, jobs, delayed, processing, dlq, idempotency,
  ready_keys, milli,
}
use nexa_flow.Jobs.Redis.{Redis}
use nexa_flow.Jobs.Scripts.{
  enqueue_script, claim_script, promote_script, ack_script, retry_script, dead_script,
  replay_script,
}

pub data QueueError : Type 0 where
  kind_and_handler_required : QueueError
  handler_registered : String → QueueError
  schedule_invalid : QueueError
  kind_required : QueueError
  priority_range : QueueError
  job_missing : String → QueueError

-- A handler, by whether it returns no error.
abbrev pub Handler : Type 0
Handler = Job → Bool

abbrev pub registered :
    Option Handler
    → String
    → Handler
    → List (String × Handler)
    → Result QueueError (List (String × Handler))
registered (some _) kind h handlers = err (handler_registered kind)
registered none kind h handlers = ok (insert kind h handlers)

-- Register
unfoldable pub register :
    String → Option Handler → List (String × Handler) → Result QueueError (List (String × Handler))
register kind none handlers = err kind_and_handler_required
register kind (some h) handlers =
    if kind == ""
    then err kind_and_handler_required
    else registered (lookup kind handlers) kind h handlers

-- The method Schedule
unfoldable pub add_schedule :
    String → ℤ → Request → List Schedule → Result QueueError (List Schedule)
add_schedule name every request schedules =
    if name == "" || ltb_ℤ every (pos 1) || request.kind == ""
    then err schedule_invalid
    else ok (schedules ++ record { name = name; every = every; request = request } ∷ [])

-- The 64-bit pattern of an integer, read as an int64.
abbrev pub int64 : ℕ → ℤ
int64 n = let w = n % 2 ^ 64 in if ltb w (2 ^ 63) then pos w else negsuc (2 ^ 64 - 1 - w)

-- time.Duration(math.Pow(2, attempt-1)): a half is cut to 0, and from 2^63 on the conversion gives
-- the least int64, as on amd64.
abbrev pub power : ℕ → ℕ
power zero = 0
power (suc n) = 2 ^ min n 63

-- RetryBase times the power, capped at RetryMax.
unfoldable pub backoff : JobsConfig → ℕ → ℤ
backoff cfg attempt =
    let raw = int64 (cfg.retry_base * power attempt) in
    if ltb_ℤ (pos cfg.retry_max) raw then pos cfg.retry_max else raw

-- What happens to a job whose handler failed.
pub data Verdict : Type 0 where
  dead : Job → Verdict
  retry : Job → Verdict

unfoldable pub failed : JobsConfig → ℤ → Job → Verdict
failed cfg now j =
    let next = record j { attempt = suc j.attempt } in
    if not (ltb_ℤ (pos next.attempt) next.max_attempts)
    then dead next
    else retry (record next { available_at = now +ℤ backoff cfg next.attempt })

-- A request that asks for no attempts gets five.
abbrev pub normal_attempts : ℤ → ℤ
normal_attempts n = if ltb_ℤ n (pos 1) then pos 5 else n

abbrev pub new_job : Request → String → ℤ → Job
new_job request id now = record {
  id = id;
  kind = request.kind;
  payload = request.payload;
  priority = request.priority;
  attempt = 0;
  max_attempts = normal_attempts request.max_attempts;
  available_at = now +ℤ request.delay;
  idempotency_key = request.idempotency_key;
}

abbrev pub idempotency_of : Request → Option Key
idempotency_of request =
    if request.idempotency_key == ""
    then none
    else some (idempotency request.kind request.idempotency_key)

module _ (r : Redis) where
  open r use {Store, list, score, hget, get, due, members, zrem, zadd}

  abbrev pub job_cell : Option Cell → Option Job
  job_cell none = none
  job_cell (some (Cell.job j)) = some j
  job_cell (some (Cell.priority p)) = none

  -- get
  unfoldable pub load : String → Store → Option Job
  load id s = job_cell (hget s jobs id)

  -- The job that an idempotency key names, or what is known of it where it is gone.
  abbrev pub existing_or : Option Job → String → Request → Job
  existing_or (some j) id request = j
  existing_or none id request = record {
    id = id;
    kind = request.kind;
    payload = "";
    priority = pos 0;
    attempt = 0;
    max_attempts = pos 0;
    available_at = pos 0;
    idempotency_key = request.idempotency_key;
  }

  abbrev pub enqueued : Job → Request → String × Store → Job × Store
  enqueued job request (result, s) =
      (if result == job.id then job else existing_or (load result s) result request, s)

  -- Enqueue
  unfoldable pub enqueue :
      JobsConfig → Request → String → ℤ → Store → Result QueueError (Job × Store)
  unfolding enqueue_script load
  enqueue cfg request id now s =
      if request.kind == ""
      then err kind_required
      else if ltb_ℤ request.priority (pos 0) || ltb_ℤ (pos 9) request.priority
      then err priority_range
      else (let job = new_job request id now in
          ok (
            enqueued job request (
              enqueue_script r (idempotency_of request) job (pos_part request.priority)
                (milli job.available_at) (milli now) (milli (pos cfg.idempotency_ttl)) s)))

  -- The loop of ReplayDLQ: what it has replayed, and the error that stopped it.
  unfoldable pub replay_ids : ℤ → List String → ℕ → Store → Store × ℕ × Option QueueError
  unfolding replay_script load
  replay_ids now [] replayed s = (s, replayed, none)
  replay_ids now (id ∷ ids) replayed s = elim (load id s) [
    | none ↦ (s, replayed, some (job_missing id))
    | some j ↦
        let moved =
          replay_script r id (record j { attempt = 0; available_at = now }) (pos_part j.priority)
            s in
        replay_ids now ids (replayed + moved.1) moved.0
  ]

  -- ReplayDLQ
  unfoldable pub replay_dlq : ℤ → ℤ → Store → Store × ℕ × Option QueueError
  unfolding replay_ids
  replay_dlq limit now s =
      replay_ids now (members s dlq (pos_part (if ltb_ℤ limit (pos 1) then pos 100 else limit))) 0 s

  abbrev pub loaded : Option Job → String → Store → Store × Option Job
  loaded none id s = (zrem processing id s, none)
  loaded (some j) id s = (s, some j)

  -- claim
  unfoldable pub claim : JobsConfig → ℤ → Store → Store × Option Job
  unfolding claim_script load
  claim cfg now s = elim (claim_script r ready_keys (milli (now +ℤ pos cfg.lease_timeout)) s) [
    | none ↦ (s, none)
    | some (id, s') ↦ loaded (load id s') id s'
  ]

  abbrev pub settle : Verdict → ℤ → Store → Store
  settle (dead j) now s = dead_script r j (milli now) s
  settle (retry j) now s = retry_script r j (milli j.available_at) s

  abbrev pub run_handler : Option Handler → Job → Bool
  run_handler none j = false
  run_handler (some h) j = h j

  -- handle
  unfoldable pub handle : JobsConfig → List (String × Handler) → ℤ → Job → Store → Store
  unfolding ack_script retry_script dead_script
  handle cfg handlers now j s =
      if run_handler (lookup j.kind handlers) j
      then ack_script r j.id s
      else settle (failed cfg now j) now s

  -- One tick of renewLease: ZADD with XX, which touches a member that is there.
  unfoldable pub renew_lease : JobsConfig → ℤ → String → Store → Store
  renew_lease cfg now id s = elim (score s processing id) [
    | none ↦ s
    | some _ ↦ zadd processing (milli (now +ℤ pos cfg.lease_timeout)) id s
  ]

  abbrev pub kept : Result QueueError (Job × Store) → Store → Store
  kept (ok (j, s')) s = s'
  kept (err e) s = s

  -- The request of a schedule, under the key of its name and the number of its interval.
  abbrev pub due_request : (String → ℤ → ℤ → String) → ℤ → Schedule → Request
  due_request window now item = record (item.request) {
    idempotency_key = window item.name now item.every;
  }

  -- The loop of maintain over the schedules; `new_id` gives the id for the request at a place.
  unfoldable pub run_schedules :
      JobsConfig → (String → ℤ → ℤ → String) → (ℕ → String) → ℤ → List Schedule → Store → Store
  unfolding enqueue
  run_schedules cfg window new_id now [] s = s
  run_schedules cfg window new_id now (item ∷ items) s =
      run_schedules cfg window new_id now items
        (kept (enqueue cfg (due_request window now item) (new_id (length items)) now s) s)

  -- maintain
  unfoldable pub maintain :
      JobsConfig → (String → ℤ → ℤ → String) → (ℕ → String) → ℤ → List Schedule → Store → Store
  unfolding promote_script run_schedules
  maintain cfg window new_id now schedules s =
      run_schedules cfg window new_id now schedules
        (promote_script r processing (milli now) 250 (promote_script r delayed (milli now) 250 s))
