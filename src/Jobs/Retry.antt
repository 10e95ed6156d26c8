-- ===== src/Jobs/Retry.antt =====
-- Whether and how late a failing job runs again (`handle` of backend/internal/jobs/queue.go).
use nexa_flow.Prelude.{
  ℕ, suc, ◌+◌, ◌-◌, ◌*◌, ◌%◌, ◌^◌, ◌≤◌, ◌<◌, ◌≡◌, ◌⊎◌, inl, inr, false, Bool-cases, arith, ltb,
  lt→ltb, if◌then◌else◌,
}
use Prim.Native.Nat.{min}
use nexa_flow.Prelude.Int.{ℤ, pos, negsuc, ltb_ℤ, ◌+ℤ◌}
use nexa_flow.Jobs.Model.{Job, JobsConfig}
use nexa_flow.Jobs.Queue.{int64, backoff, dead, retry, failed}

-- A job dies on the failure that uses up its attempts, and on no earlier one.
pub failed-verdict :
    (cfg : JobsConfig) (now : ℤ) (j : Job) (most : ℕ)
    → j.max_attempts ≡ pos most
    → ((most ≤ j.attempt + 1) × (failed cfg now j ≡ dead (record j { attempt = suc j.attempt })))
      ⊎ ((j.attempt + 1 < most)
          × (failed cfg now j
              ≡ retry (record j {
                attempt = suc j.attempt;
                available_at = now +ℤ backoff cfg (suc j.attempt);
              })))
unfolding failed
failed-verdict cfg now j most h = elim (Bool-cases (ltb_ℤ (pos (suc j.attempt)) j.max_attempts)) [
  | inl p ↦ inr (ground arith, rw p)
  | inr p ↦ inl (ground arith, rw p)
]

int64-small : (n : ℕ) → n < 2 ^ 63 → int64 n ≡ pos n
int64-small n h = let e : n % 2 ^ 64 ≡ n = omega arith in rw e (rw (lt→ltb n (2 ^ 63) h))

int64-large : (n : ℕ) → 2 ^ 63 ≤ n → n < 2 ^ 64 → int64 n ≡ negsuc (2 ^ 64 - 1 - n)
int64-large n h k =
    let e : n % 2 ^ 64 ≡ n = omega arith in
    let f : ltb n (2 ^ 63) ≡ false = ground arith in rw e (rw f)

capped : (n m : ℕ) → (if ltb_ℤ (pos m) (pos n) then pos m else pos n) ≡ pos (min n m)
capped n m = ground arith

uncapped : (n m : ℕ) → (if ltb_ℤ (pos m) (negsuc n) then pos m else negsuc n) ≡ negsuc n
uncapped n m = ground arith

-- While the product fits an int64, the delay after the failure number `n + 1` is RetryBase doubled by
-- each failure after the first, and RetryMax where that is less.
pub backoff-eq-min :
    (cfg : JobsConfig) (n : ℕ)
    → n ≤ 63
    → cfg.retry_base * 2 ^ n < 2 ^ 63
    → backoff cfg (suc n) ≡ pos (min (cfg.retry_base * 2 ^ n) cfg.retry_max)
unfolding backoff
backoff-eq-min cfg n small fits =
    let e : min n 63 ≡ n = omega arith in rw e (rw (int64-small _ fits) (capped _ cfg.retry_max))

-- Where the product passes the largest int64 but is below 2^64, within the first 64 failures, the
-- delay is negative: the product less 2^64, to which the cap does not apply.
pub backoff_overflow :
    (cfg : JobsConfig) (n : ℕ)
    → n ≤ 63
    → 2 ^ 63 ≤ cfg.retry_base * 2 ^ n
    → cfg.retry_base * 2 ^ n < 2 ^ 64
    → backoff cfg (suc n) ≡ negsuc (2 ^ 64 - 1 - cfg.retry_base * 2 ^ n)
unfolding backoff
backoff_overflow cfg n small over fits =
    let e : min n 63 ≡ n = omega arith in
    rw e (rw (int64-large _ over fits) (uncapped _ cfg.retry_max))
