-- ===== src/Jobs/Examples.antt =====
-- A concrete store, and runs of the queue on it.
use nexa_flow.Prelude.{
  ℕ, ◌-◌, ◌*◌, ◌^◌, ok, nat_eq, ◌≡◌, refl, Bool, true, false, List, [], ◌∷◌, ◌++◌, String, Option,
  none, some, arith, ◌==◌, ◌&&◌, if◌then◌else◌, string_eq, All, take, keep, ℕ_discrete,
  String_discrete,
}
use Prim.Native.Nat.{min}
use mathlib.Core.List.{tail}
use nexa_flow.Prelude.Int.{ℤ, pos, negsuc, ltb_ℤ}
use nexa_flow.Jobs.Model.{
  Job, Request, milli, JobsConfig, Key, Cell, jobs, priorities, delayed, processing, ready,
  idempotency, ready_keys,
}
use nexa_flow.Jobs.Redis.{Redis, key_eq, is_due, Key_discrete}
use nexa_flow.Jobs.Scripts.{claim_script, promote_script}
use nexa_flow.Jobs.Queue.{new_job, enqueue, handle, backoff}
use nexa_flow.Jobs.Retry.{backoff-eq-min, backoff_overflow}
use nexa_flow.Jobs.Claims.{Claims, claim_script-Claims}
use nexa_flow.Jobs.Moves.{Released, Fate, handle-Fate}
use nexa_flow.Jobs.Promotion.{promote_script-list}
use nexa_flow.Jobs.Idempotency.{enqueue-once}

-- A store with the names of all its members beside what the keys hold.
record Memory : Type 0 where
  list : Key → List String
  score : Key → String → Option ℤ
  hget : Key → String → Option Cell
  get : ℤ → Key → Option String
  names : List String

dues : Memory → Key → ℤ → List String → ℕ → List String
dues s k now [] n = []
dues s k now (m ∷ ms) ℕ.zero = []
dues s k now (m ∷ ms) (ℕ.suc n) =
    let rest = dues s k now ms n in if is_due now (s.score k m) then m ∷ rest else rest

dues-All :
    (s : Memory) (k : Key) (now : ℤ) (ms : List String) (n : ℕ)
    → All (λ m. is_due now (s.score k m) ≡ true) (dues s k now ms n)
unfolding dues
dues-All s k now [] n = tt
dues-All s k now (m ∷ ms) ℕ.zero = tt
dues-All s k now (m ∷ ms) (ℕ.suc n) = ground (arith, dues-All s k now ms n)

abbrev has_score : Option ℤ → Bool
has_score none = false
has_score (some z) = true

abbrev memory : Redis
memory = record {
  Store = Memory;
  list = Memory.list;
  score = Memory.score;
  hget = Memory.hget;
  get = Memory.get;
  due = λ s k now n. dues s k now s.names n;
  members = λ s k n. take n (keep (λ m. has_score (s.score k m)) s.names);
  set = λ k v until s. record s {
    get = λ at j. if k == j then (if ltb_ℤ at until then some v else none) else s.get at j;
  };
  hset = λ k f v s. record s { hget = λ j i. if k == j && f == i then some v else s.hget j i };
  hdel = λ k f s. record s { hget = λ j i. if k == j && f == i then none else s.hget j i };
  zadd = λ k z m s. record s {
    score = λ j i. if k == j && m == i then some z else s.score j i;
    names = s.names ++ m ∷ [];
  };
  zrem = λ k m s. record s { score = λ j i. if k == j && m == i then none else s.score j i };
  rpush = λ k m s. record s { list = λ j. if k == j then s.list j ++ m ∷ [] else s.list j };
  lpop = λ k s. record s { list = λ j. if k == j then tail (s.list j) else s.list j };
  due_all = λ s k now n. dues-All s k now s.names n;
  list-set = λ j v u s k. refl;
  score-set = λ j v u s k i. refl;
  hget-set = λ j v u s k i. refl;
  get-set = λ j v u s at k. refl;
  list-hset = λ j f v s k. refl;
  score-hset = λ j f v s k i. refl;
  hget-hset = λ j f v s k i. refl;
  get-hset = λ j f v s at k. refl;
  list-hdel = λ j f s k. refl;
  score-hdel = λ j f s k i. refl;
  hget-hdel = λ j f s k i. refl;
  get-hdel = λ j f s at k. refl;
  list-zadd = λ j z m s k. refl;
  score-zadd = λ j z m s k i. refl;
  hget-zadd = λ j z m s k i. refl;
  get-zadd = λ j z m s at k. refl;
  list-zrem = λ j m s k. refl;
  score-zrem = λ j m s k i. refl;
  hget-zrem = λ j m s k i. refl;
  get-zrem = λ j m s at k. refl;
  list-rpush = λ j m s k. refl;
  score-rpush = λ j m s k i. refl;
  hget-rpush = λ j m s k i. refl;
  get-rpush = λ j m s at k. refl;
  list-lpop = λ j s k. refl;
  score-lpop = λ j s k i. refl;
  hget-lpop = λ j s k i. refl;
  get-lpop = λ j s at k. refl;
}

abbrev nothing : Memory
nothing = record {
  list = λ k. [];
  score = λ k m. none;
  hget = λ k f. none;
  get = λ at k. none;
  names = [];
}

abbrev config : JobsConfig
config = record {
  lease_timeout = 30_000_000_000;
  idempotency_ttl = 86_400_000_000_000;
  retry_base = 1_000_000_000;
  retry_max = 60_000_000_000;
}

abbrev mail : Request
mail = record {
  kind = "mail";
  payload = "{}";
  priority = pos 5;
  max_attempts = pos 3;
  delay = pos 0;
  idempotency_key = "welcome";
}

abbrev mail_job : Job
mail_job = new_job mail "j1" (pos 0)

abbrev welcome : Key
welcome = idempotency "mail" "welcome"

abbrev queued : Memory
queued = memory.rpush (ready 5) "j1" nothing

abbrev waiting : Memory
waiting = memory.zadd delayed (pos 3) "j1" (memory.hset priorities "j1" (Cell.priority 5) nothing)

abbrev five : String → ℕ
five id = 5

handle-Fate_example :
    Released memory "j1" nothing (handle memory config [] (pos 0) mail_job nothing)
    × Fate memory config []
        (pos 0)
        mail_job
        3
        nothing
        (handle memory config [] (pos 0) mail_job nothing)
handle-Fate_example = handle-Fate memory config [] (pos 0) mail_job nothing 3 refl

enqueue-once_example :
    (s' : Memory) × (enqueue memory config mail "j1" (pos 0) nothing
      ≡ ok (new_job mail "j1" (pos 0), s'))
    × (memory.hget s' jobs "j1" ≡ some (Cell.job (new_job mail "j1" (pos 0))))
    × (enqueue memory config mail "j2" (pos 5_000_000) s' ≡ ok (new_job mail "j1" (pos 0), s'))
unfolding String_discrete milli
enqueue-once_example =
    enqueue-once memory config mail "j1" "j2" (pos 0) (pos 5_000_000) welcome nothing (refl, refl)
      refl refl refl (ground arith)

claim_script-Claims_example :
    Claims memory ready_keys
      (pos 9)
      queued
      "j1"
      (memory.zadd processing (pos 9) "j1" (memory.lpop (ready 5) queued))
unfolding claim_script Key_discrete ℕ_discrete String_discrete
claim_script-Claims_example = claim_script-Claims memory ready_keys (pos 9) queued refl

promote_script-list_example :
    memory.list (promote_script memory delayed (pos 10) 250 waiting) (ready 5)
    ≡ memory.list waiting (ready 5)
      ++ keep (λ id. five id == 5) (memory.due waiting delayed (pos 10) 250)
unfolding dues Key_discrete ℕ_discrete String_discrete
promote_script-list_example =
    promote_script-list memory delayed five (pos 10) 250 5 waiting ((refl, omega arith), tt)

backoff-eq-min_example : backoff config 3 ≡ pos (min (1_000_000_000 * 2 ^ 2) 60_000_000_000)
backoff-eq-min_example = backoff-eq-min config 2 (omega arith) (omega arith)

backoff_overflow_example : backoff config 35 ≡ negsuc (2 ^ 64 - 1 - 1_000_000_000 * 2 ^ 34)
backoff_overflow_example = backoff_overflow config 34 (omega arith) (omega arith) (omega arith)
