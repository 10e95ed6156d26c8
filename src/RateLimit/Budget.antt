-- ===== src/RateLimit/Budget.antt =====
-- The verdicts of RateLimit on a key are those of a bucket of its own.
use Prim.Native.Nat.{min}
use nexa_flow.Prelude.{
  ℕ, suc, ◌+◌, ◌-◌, ◌≤◌, ◌<◌, ◌≡◌, refl, ◌⊎◌, inl, inr, Bool, true, false, List, [], ◌∷◌, Option,
  none, some, String, leb, ◌==◌, length, if◌then◌else◌, string_eq, arith, count_if, String_discrete,
}
use nexa_flow.Prelude.Maps.{lookup, insert, lookup-insert, IsUnique, insert-IsUnique}
use nexa_flow.RateLimit.{
  Bucket, Buckets, zero_bucket, bucket_or_zero, is_over, hit, evict, rate_limit, verdicts,
}

-- The limiter of one key.
pub lone : ℕ → ℕ → Bucket → List ℕ → List Bool
lone limit window b [] = []
lone limit window b (now ∷ times) =
    leb (hit window now b).count limit ∷ lone limit window (hit window now b) times

abbrev pub times_of : String → List (ℕ × String) → List ℕ
times_of key [] = []
times_of key ((now, k) ∷ rs) = if k == key then now ∷ times_of key rs else times_of key rs

-- The clock does not go back.
abbrev pub IsOrdered : ℕ → List (ℕ × String) → Type 0
IsOrdered from [] = Unit
IsOrdered from ((now, k) ∷ rs) = (from ≤ now) × IsOrdered now rs

-- The stored bucket is the key's own, or is gone since the key's own window is over.
abbrev Tracks : ℕ → ℕ → Option Bucket → Bucket → Type 0
Tracks window now found b =
    (found ≡ some b) ⊎ ((found ≡ none) × (is_over window now b.started ≡ true))

is_over_mono :
    (window : ℕ) {now later : ℕ} (s : Option ℕ)
    → now ≤ later
    → is_over window now s ≡ true
    → is_over window later s ≡ true
is_over_mono window none h o = refl
is_over_mono window (some t) h o = ground arith

hit-over :
    (window now : ℕ) (b c : Bucket)
    → is_over window now b.started ≡ true
    → is_over window now c.started ≡ true
    → hit window now b ≡ hit window now c
unfolding hit
hit-over window now b c p q = ground arith

hit-Tracks :
    (window now : ℕ) (found : Option Bucket) (b : Bucket)
    → Tracks window now found b
    → hit window now (bucket_or_zero found) ≡ hit window now b
hit-Tracks window now found b (inl e) = rw e
hit-Tracks window now found b (inr (e, o)) = rw e (hit-over window now zero_bucket b refl o)

Tracks-later :
    (window : ℕ) (found : Option Bucket) (b : Bucket) {now later : ℕ}
    → now ≤ later
    → Tracks window now found b
    → Tracks window later found b
Tracks-later window found b h (inl e) = inl e
Tracks-later window found b h (inr (e, o)) = inr (e, is_over_mono window b.started h o)

lookup-evict-none :
    (window now : ℕ) (key : String) (m : Buckets)
    → lookup key m ≡ none
    → lookup key (evict window now m) ≡ none
unfolding evict lookup
lookup-evict-none window now key [] h = refl
lookup-evict-none window now key ((k, c) ∷ m) h = ground (arith, lookup-evict-none window now key m)

evict-IsUnique : (window now : ℕ) (m : Buckets) → IsUnique m → IsUnique (evict window now m)
unfolding evict
evict-IsUnique window now [] u = tt
evict-IsUnique window now ((k, c) ∷ m) u =
    ground (arith, evict-IsUnique window now m u.1, lookup-evict-none window now k m u.0)

lookup-evict :
    (window now : ℕ) (key : String) (m : Buckets) (b : Bucket)
    → IsUnique m
    → lookup key m ≡ some b
    → Tracks window now (lookup key (evict window now m)) b
unfolding evict lookup
lookup-evict window now key [] b u h = cc
lookup-evict window now key ((k, c) ∷ m) b u h =
    ground (arith, lookup-evict window now key m b u.1, lookup-evict-none window now key m)

Tracks-evict :
    (window now : ℕ) (key : String) (m : Buckets) (b : Bucket)
    → IsUnique m
    → Tracks window now (lookup key m) b
    → Tracks window now (lookup key (evict window now m)) b
Tracks-evict window now key m b u (inl e) = lookup-evict window now key m b u e
Tracks-evict window now key m b u (inr (e, o)) = inr (lookup-evict-none window now key m e, o)

module _ (limit window : ℕ) (key : String) where
  rate_limit-IsUnique :
      (m : Buckets) (now : ℕ) (k : String)
      → IsUnique m
      → IsUnique (rate_limit limit window m now k).0
  unfolding rate_limit
  rate_limit-IsUnique m now k u =
      let stored = insert k (hit window now (bucket_or_zero (lookup k m))) m in
      ground (
        arith,
        insert-IsUnique k (hit window now (bucket_or_zero (lookup k m))) m u,
        evict-IsUnique window now stored,
      )

  stored-Tracks :
      (m : Buckets) (now : ℕ) (k : String) (b : Bucket)
      → Tracks window now (lookup key m) b
      → Tracks window now
          (lookup key (insert k (hit window now (bucket_or_zero (lookup k m))) m))
          (if k == key then hit window now b else b)
  stored-Tracks m now k b t = elim (String_discrete k key) [
    | yes e ↦ inl (
        ground (
          arith,
          lookup-insert k key (hit window now (bucket_or_zero (lookup k m))) m,
          hit-Tracks window now (lookup key m) b t,
        ))
    | no ne ↦ ground (arith, lookup-insert k key (hit window now (bucket_or_zero (lookup k m))) m)
  ]

  evicted-Tracks :
      (full : Bool) (m : Buckets) (now : ℕ) (b : Bucket)
      → IsUnique m
      → Tracks window now (lookup key m) b
      → Tracks window now (lookup key (if full then evict window now m else m)) b
  evicted-Tracks true m now b u t = Tracks-evict window now key m b u t
  evicted-Tracks false m now b u t = t

  -- What a request leaves for the key.
  rate_limit-Tracks :
      (m : Buckets) (now : ℕ) (k : String) (b : Bucket)
      → IsUnique m
      → Tracks window now (lookup key m) b
      → Tracks window now
          (lookup key (rate_limit limit window m now k).0)
          (if k == key then hit window now b else b)
  unfolding rate_limit
  rate_limit-Tracks m now k b u t =
      evicted-Tracks _ _ now _
        (insert-IsUnique k (hit window now (bucket_or_zero (lookup k m))) m u)
        (stored-Tracks m now k b t)

  verdict :
      (m : Buckets) (now : ℕ) (b : Bucket)
      → Tracks window now (lookup key m) b
      → (rate_limit limit window m now key).1 ≡ leb (hit window now b).count limit
  unfolding rate_limit
  verdict m now b t = rw (hit-Tracks window now (lookup key m) b t)

  verdicts-lone :
      (m : Buckets) (b : Bucket) (from : ℕ) (rs : List (ℕ × String))
      → IsUnique m
      → Tracks window from (lookup key m) b
      → IsOrdered from rs
      → verdicts limit window key m rs ≡ lone limit window b (times_of key rs)
  unfolding verdicts lone
  verdicts-lone m b from [] u t o = refl
  verdicts-lone m b from ((now, k) ∷ rs) u t o =
      let t' = Tracks-later window (lookup key m) b o.0 t in
      let rest =
        verdicts-lone (rate_limit limit window m now k).0 (if k == key then hit window now b else b)
          now rs (rate_limit-IsUnique m now k u) (rate_limit-Tracks m now k b u t') o.1 in
      ground (arith, rest, verdict m now b t')

-- The verdicts on a key, whatever the requests for other keys and the evictions between them, are
-- those of a bucket that the key has alone, if the clock does not go back.
pub verdicts-eq-lone :
    (limit window from : ℕ) (key : String) (rs : List (ℕ × String))
    → IsOrdered from rs
    → verdicts limit window key [] rs ≡ lone limit window zero_bucket (times_of key rs)
unfolding lookup
verdicts-eq-lone limit window from key rs o =
    verdicts-lone limit window key [] zero_bucket from rs tt (inr (refl, refl)) o

hit-within :
    (window t start c : ℕ)
    → t < start + window
    → hit window t (record { started = some start; count = c })
      ≡ record { started = some start; count = suc c }
unfolding hit
hit-within window t start c h = ground arith

-- All times lie before the end.
abbrev pub Before : ℕ → List ℕ → Type 0
Before end [] = Unit
Before end (t ∷ ts) = (t < end) × Before end ts

lone-within :
    (limit window start c : ℕ) (times : List ℕ)
    → Before (start + window) times
    → count_if (λ b. b) (lone limit window (record { started = some start; count = c }) times)
      ≡ min (limit - c) (length times)
unfolding lone
lone-within limit window start c [] h = omega arith
lone-within limit window start c (t ∷ ts) h =
    rw (hit-within window t start c h.0)
      (ground (arith, lone-within limit window start (suc c) ts h.1))

-- Of a key's requests that fall into one window, counted from the first, exactly the first `limit`
-- go on, whatever happens on other keys.
pub verdicts-budget :
    (limit window from first : ℕ) (key : String) (rs : List (ℕ × String)) (times : List ℕ)
    → IsOrdered from rs
    → times_of key rs ≡ first ∷ times
    → Before (first + window) times
    → count_if (λ b. b) (verdicts limit window key [] rs) ≡ min limit (suc (length times))
unfolding lone hit
verdicts-budget limit window from first key rs times o e h =
    rw (verdicts-eq-lone limit window from key rs o, e)
      (ground (arith, lone-within limit window first 1 times h))
