-- ===== src/Billing/Quota.antt =====
-- The quotas that RecordUsage of backend/internal/repository/billing_repository.go keeps.
use nexa_flow.Prelude.{
  ℕ, ◌+◌, ◌-◌, ◌^◌, ◌≤◌, ◌<◌, ◌≡◌, refl, sym, ◌∙◌, ap, ◌⊎◌, inl, inr, Bool, true, false, ◌&&◌, List,
  [], ◌∷◌, String, ◌==◌, All, arith, Bool-cases, if◌then◌else◌, string_eq,
}
use nexa_flow.Prelude.Int.{ℤ, pos, negsuc, pos_part, neg_part, ltb_ℤ, ◌+ℤ◌, int_eq}
use nexa_flow.Prelude.Maps.{lookup-insert}
use nexa_flow.Billing.Model.{Tables}
use nexa_flow.Billing.Store.{
  CounterKey, counter_eq, quantity, wrap, at_least_zero, with_counter, record_usage,
}

wrap-small : (z : ℤ) → pos_part z < 2 ^ 63 → neg_part z < 2 ^ 63 → wrap z ≡ z
unfolding wrap
wrap-small (pos n) h k = ground arith
wrap-small (negsuc n) h k = ground arith

pub quantity-with_counter :
    (key other : CounterKey) (n : ℤ) (s : Tables)
    → quantity (with_counter key n s) other ≡ (if key == other then n else quantity s other)
unfolding quantity
quantity-with_counter key other n s = ground (arith, lookup-insert key other n s.counters)

-- The next quantity of a counter.
abbrev pub next_quantity : ℕ → ℤ → ℤ
next_quantity used q = at_least_zero (pos used +ℤ q)

abbrev pub counter : String → String → ℤ → CounterKey
counter t m month = (t, m, month)

-- What RecordUsage does with a counter at `used`, where no sum overflows.
abbrev pub Usage : ℤ → Tables → CounterKey → ℕ → ℤ → ℕ → Bool × Tables → Type 0
Usage month s key used q limit (allowed, s') =
    ((allowed ≡ true)
      × ((pos_part q ≡ 0) ⊎ (used + pos_part q ≤ limit))
      × (quantity s' key ≡ next_quantity used q))
    ⊎ ((allowed ≡ false)
        × (limit < used + pos_part q)
        × (0 < pos_part q)
        × (quantity s' key ≡ pos used))

pub sum-small :
    (used : ℕ) (q : ℤ)
    → used + pos_part q < 2 ^ 63
    → neg_part q < 2 ^ 63
    → wrap (pos used +ℤ q) ≡ pos used +ℤ q
sum-small used (pos n) h k = wrap-small (pos used +ℤ pos n) (ground arith) (ground arith)
sum-small used (negsuc n) h k = wrap-small (pos used +ℤ negsuc n) (ground arith) (ground arith)

-- For a counter whose sum with the usage does not overflow, RecordUsage allows a positive usage only
-- within the limit, and then adds it; it refuses one beyond the limit and keeps the counter; it
-- allows giving back, down to 0. Every other counter, and
-- the subscriptions, stay as they were.
pub record_usage-Usage :
    (month : ℤ) (s : Tables) (t m : String) (q : ℤ) (limit used : ℕ)
    → quantity s (t, m, month) ≡ pos used
    → used + pos_part q < 2 ^ 63
    → neg_part q < 2 ^ 63
    → Usage month s (t, m, month) used q limit (record_usage month s t m q (pos limit))
      × ((key : CounterKey)
          → (counter t m month == key) ≡ false
          → quantity (record_usage month s t m q (pos limit)).1 key ≡ quantity s key)
      × ((record_usage month s t m q (pos limit)).1.subscriptions ≡ s.subscriptions)
unfolding record_usage
record_usage-Usage month s t m q limit used now h k =
    let key = counter t m month in
    elim (Bool-cases (ltb_ℤ (pos 0) q && ltb_ℤ (pos limit) (pos used +ℤ q))) [
      | inl over ↦
          rw (now, sum-small used q h k, over)
            (
              inr (
                refl,
                ground arith,
                ground arith,
                quantity-with_counter key key (pos used) s ∙ ground arith,
              ),
              λ other ne. quantity-with_counter key other (pos used) s ∙ rw ne refl,
              refl,
            )
      | inr fits ↦
          rw (now, sum-small used q h k, fits)
            (
              inl (
                refl,
                ground arith,
                quantity-with_counter key key (next_quantity used q) s ∙ ground arith,
              ),
              λ other ne. quantity-with_counter key other (next_quantity used q) s ∙ rw ne refl,
              refl,
            )
    ]

pub next_quantity-eq :
    (used : ℕ) (q : ℤ) → next_quantity used q ≡ pos (used + pos_part q - neg_part q)
next_quantity-eq used (pos n) = ground arith
next_quantity-eq used (negsuc n) = ground arith

-- Usages of a month, one after the other, by any tenants.
unfoldable pub record_all : ℤ → (String → String → ℕ) → Tables → List (String × String × ℤ) → Tables
record_all month limits s [] = s
record_all month limits s ((t, m, q) ∷ rest) =
    record_all month limits (record_usage month s t m q (pos (limits t m))).1 rest

-- Every counter of the month is a number within its limit.
abbrev pub IsWithin : ℤ → (String → String → ℕ) → Tables → Type 0
IsWithin month limits s =
    (t m : String) → (n : ℕ) × (quantity s (counter t m month) ≡ pos n) × (n ≤ limits t m)

-- A usage far from overflow.
abbrev pub IsSmall : String × String × ℤ → Type 0
IsSmall (t, m, q) = (pos_part q < 2 ^ 62) × (neg_part q < 2 ^ 62)

after_bound :
    (used limit : ℕ) (q : ℤ)
    → (pos_part q ≡ 0) ⊎ (used + pos_part q ≤ limit)
    → used ≤ limit
    → used + pos_part q - neg_part q ≤ limit
after_bound used limit q (inl z) h = omega arith
after_bound used limit q (inr p) h = omega arith

Usage-bound :
    (month : ℤ) (s : Tables) (key : CounterKey) (used : ℕ) (q : ℤ) (limit : ℕ) (r : Bool × Tables)
    → Usage month s key used q limit r
    → used ≤ limit
    → (n : ℕ) × (quantity r.1 key ≡ pos n) × (n ≤ limit)
Usage-bound month s key used q limit r (inl (a, fits, e)) h =
    (used + pos_part q - neg_part q, e ∙ next_quantity-eq used q, after_bound used limit q fits h)
Usage-bound month s key used q limit r (inr (a, over, some_, e)) h = (used, e, h)

same_counter : (a b : CounterKey) → (a == b) ≡ true → a ≡ b
same_counter a b h = ground arith

record_usage-IsWithin :
    (month : ℤ) (limits : String → String → ℕ) (s : Tables) (t m : String) (q : ℤ)
    → ((t m : String) → limits t m ≤ 2 ^ 62)
    → IsSmall (t, m, q)
    → IsWithin month limits s
    → IsWithin month limits (record_usage month s t m q (pos (limits t m))).1
record_usage-IsWithin month limits s t m q small usage within t' m' =
    let used = within t m in
    let bound = small t m in
    let law =
      record_usage-Usage month s t m q (limits t m) used.0 used.1
        (omega (arith, used.2, bound, usage.0)) (omega (arith, usage.1)) in
    elim (Bool-cases (counter t m month == counter t' m' month)) [
      | inl same ↦
          let p = same_counter (counter t m month) (counter t' m' month) same in
          rw (sym (ap (λ k. k.0) p), sym (ap (λ k. k.1) p))
            (Usage-bound month s (counter t m month) used.0 q (limits t m) _ law.0 used.2)
      | inr differ ↦
          let other = within t' m' in
          (other.0, law.1 (counter t' m' month) differ ∙ other.1, other.2)
    ]

-- Usages of a month that are recorded one after the other, of any tenants and metrics and in any
-- order, leave every counter within its limit, if the usages are below 2^62, the limits at most
-- 2^62, and the counters within the limits at first.
pub record_all-IsWithin :
    (month : ℤ) (limits : String → String → ℕ) (s : Tables) (usages : List (String × String × ℤ))
    → ((t m : String) → limits t m ≤ 2 ^ 62)
    → All IsSmall usages
    → IsWithin month limits s
    → IsWithin month limits (record_all month limits s usages)
unfolding record_all
record_all-IsWithin month limits s [] small a within = within
record_all-IsWithin month limits s ((t, m, q) ∷ rest) small a within =
    record_all-IsWithin month limits (record_usage month s t m q (pos (limits t m))).1 rest small
      a.1 (record_usage-IsWithin month limits s t m q small a.0 within)
