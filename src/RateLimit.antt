-- ===== src/RateLimit.antt =====
-- The request limiters (backend/internal/middleware/rate_limit.go): RateLimit, which keeps its
-- buckets in the process, and RedisRateLimit, which reads a shared counter. Times and durations are
-- numbers of nanoseconds of the monotonic clock; a bucket with no start is the zero value.
pub mod Budget
mod Examples
use Prim.Native.Nat.{max}
use nexa_flow.Prelude.{
  ℕ, zero, suc, ◌+◌, ◌-◌, ◌/◌, ◌≤◌, ◌≡◌, Bool, true, false, not, ◌||◌, List, [], ◌∷◌, Option, none,
  some, String, ltb, leb, ◌==◌, length, if◌then◌else◌, string_eq,
}
use nexa_flow.Prelude.Int.{ℤ, pos, negsuc, pos_part, ltb_ℤ, ◌+ℤ◌, ◌-ℤ◌}
use nexa_flow.Prelude.Maps.{lookup, insert}

pub record Bucket : Type 0 where
  pub started : Option ℕ
  pub count : ℕ

abbrev pub Buckets : Type 0
Buckets = List (String × Bucket)

abbrev pub zero_bucket : Bucket
zero_bucket = record { started = none; count = 0 }

abbrev pub bucket_or_zero : Option Bucket → Bucket
bucket_or_zero none = zero_bucket
bucket_or_zero (some b) = b

-- now.Sub(started) >= window
abbrev pub is_over : ℕ → ℕ → Option ℕ → Bool
is_over window now none = true
is_over window now (some started) = leb (started + window) now

-- if limit < 1 { limit = 1 }
unfoldable pub normal_limit : ℤ → ℕ
normal_limit limit = if ltb_ℤ limit (pos 1) then 1 else pos_part limit

-- if window <= 0 { window = time.Minute }
unfoldable pub normal_window : ℤ → ℕ
normal_window window = if ltb_ℤ window (pos 1) then 60_000_000_000 else pos_part window

-- The bucket after a request: a new window where the old one is over, and one more request in it.
unfoldable pub hit : ℕ → ℕ → Bucket → Bucket
hit window now b =
    let fresh =
      if is_over window now b.started then record { started = some now; count = 0 } else b in
    record fresh { count = suc fresh.count }

abbrev pub max_buckets : ℕ
max_buckets = 10000

unfoldable pub evict : ℕ → ℕ → Buckets → Buckets
evict window now [] = []
evict window now ((k, b) ∷ m) =
    if is_over window now b.started then evict window now m else (k, b) ∷ evict window now m

-- The handler: the new buckets, and whether the request goes on.
unfoldable pub rate_limit : ℕ → ℕ → Buckets → ℕ → String → Buckets × Bool
rate_limit limit window buckets now key =
    let bucket = hit window now (bucket_or_zero (lookup key buckets)) in
    let stored = insert key bucket buckets in
    (
      if ltb max_buckets (length stored) then evict window now stored else stored,
      leb bucket.count limit,
    )

-- The verdicts on a key, in the order of its requests.
unfoldable pub verdicts : ℕ → ℕ → String → Buckets → List (ℕ × String) → List Bool
verdicts limit window key buckets [] = []
verdicts limit window key buckets ((now, k) ∷ rs) =
    let (next, allowed) = rate_limit limit window buckets now k in
    if k == key
    then allowed ∷ verdicts limit window key next rs
    else verdicts limit window key next rs

-- What RedisRateLimit answers.
pub data Answer : Type 0 where
  unavailable : Answer
  too_many : ℕ → ℕ → Answer
  next : ℕ → Answer

-- The answer to the script's reply, which is the count and the time to live in milliseconds: the
-- requests that remain, and the seconds to wait where there are too many.
unfoldable pub redis_answer : ℕ → Option (List ℤ) → Answer
redis_answer limit none = unavailable
redis_answer limit (some []) = unavailable
redis_answer limit (some (count ∷ [])) = unavailable
redis_answer limit (some (count ∷ ttl ∷ [])) =
    let remaining = pos_part (pos limit -ℤ count) in
    if ltb_ℤ (pos limit) count
    then too_many remaining (max (pos_part (ttl +ℤ pos 999) / 1000) 1)
    else next remaining
redis_answer limit (some (_ ∷ _ ∷ _ ∷ _)) = unavailable
