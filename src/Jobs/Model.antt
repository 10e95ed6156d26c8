-- ===== src/Jobs/Model.antt =====
-- The data of backend/internal/jobs/queue.go. Times are nanoseconds since the epoch, scores are
-- milliseconds. The carrier of a trace is left out, and a payload is its encoded text.
use nexa_flow.Prelude.{ℕ, ◌/◌, List, [], ◌∷◌, String, map}
use nexa_flow.Prelude.Int.{ℤ, pos, negsuc}

pub record Job : Type 0 where
  pub id : String
  pub kind : String
  pub payload : String
  pub priority : ℤ
  pub attempt : ℕ
  pub max_attempts : ℤ
  pub available_at : ℤ
  pub idempotency_key : String

pub record Request : Type 0 where
  pub kind : String
  pub payload : String
  pub priority : ℤ
  pub max_attempts : ℤ
  pub delay : ℤ
  pub idempotency_key : String

pub record Schedule : Type 0 where
  pub name : String
  pub every : ℤ
  pub request : Request

pub record JobsConfig : Type 0 where
  pub lease_timeout : ℕ
  pub idempotency_ttl : ℕ
  pub retry_base : ℕ
  pub retry_max : ℕ

-- UnixMilli
unfoldable pub milli : ℤ → ℤ
milli (pos n) = pos (n / 1_000_000)
milli (negsuc n) = negsuc (n / 1_000_000)

-- The Redis keys of the queue, by the parts after the namespace.
pub data Key : Type 0 where
  jobs : Key
  priorities : Key
  delayed : Key
  processing : Key
  dlq : Key
  ready : ℕ → Key
  idempotency : String → String → Key

-- What a hash holds: an encoded job, or a priority.
pub data Cell : Type 0 where
  job : Job → Cell
  priority : ℕ → Cell

-- readyKeys, from maxPriority down to minPriority
abbrev pub ready_keys : List Key
ready_keys = map ready (9 ∷ 8 ∷ 7 ∷ 6 ∷ 5 ∷ 4 ∷ 3 ∷ 2 ∷ 1 ∷ 0 ∷ [])
