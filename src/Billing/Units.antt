-- ===== src/Billing/Units.antt =====
-- What Consume of backend/internal/service/billing_service.go takes, and what it gives back afterwards.
use nexa_flow.Prelude.{
  find_first, ℕ, ◌+◌, ◌-◌, ◌^◌, ◌<◌, ◌≡◌, refl, sym, ◌∙◌, ap, inl, inr, Bool, true, false, ◌&&◌,
  String, Option, none, some, Result, ok, err, ◌==◌, arith, Bool-cases, Option-cases, Result-cases,
  string_eq, >>=-eq-ok, ok_injective,
}
use nexa_flow.Prelude.Int.{ℤ, pos, pos_part, neg_part, ltb_ℤ, ◌+ℤ◌}
use nexa_flow.Prelude.Maps.{lookup, lookup-insert}
use nexa_flow.Tenancy.{Context, billing_tenant}
use nexa_flow.Billing.Model.{Plan, Subscription, BillingOverview, Tables}
use nexa_flow.Billing.Store.{
  counter_eq, found, usage_of, or_zero, BillingError, quantity, record_usage, overview, start_free,
  view_of, plan_where,
}
use nexa_flow.Billing.Service.{limit_of, allowed_or, consume}
use nexa_flow.Billing.Quota.{
  counter, sum-small, quantity-with_counter, next_quantity, next_quantity-eq,
}

-- A usage that was taken has been added to the counter; one that was not has left it.
abbrev pub Counted : ℤ → String → String → ℕ → ℕ → Bool × Tables → Type 0
Counted month t m n k (true, s) = quantity s (counter t m month) ≡ pos (n + k)
Counted month t m n k (false, s) = quantity s (counter t m month) ≡ pos n

record_usage-Counted :
    (month : ℤ) (s : Tables) (t m : String) (n k : ℕ) (limit : ℤ)
    → quantity s (counter t m month) ≡ pos n
    → n + k < 2 ^ 63
    → Counted month t m n k (record_usage month s t m (pos k) limit)
unfolding record_usage
record_usage-Counted month s t m n k limit now small =
    let key = counter t m month in
    elim (Bool-cases (ltb_ℤ (pos 0) (pos k) && ltb_ℤ limit (pos n +ℤ pos k))) [
      | inl over ↦
          rw (now, sum-small n (pos k) (ground arith) (ground arith), over)
            (quantity-with_counter key key (pos n) s ∙ ground arith)
      | inr fits ↦
          rw (now, sum-small n (pos k) (ground arith) (ground arith), fits)
            (quantity-with_counter key key (next_quantity n (pos k)) s ∙ ground arith)
    ]

-- A usage of nothing or less is always recorded.
record_usage-back :
    (month : ℤ) (s : Tables) (t m : String) (n : ℕ) (q limit : ℤ)
    → quantity s (counter t m month) ≡ pos n
    → n < 2 ^ 63
    → neg_part q < 2 ^ 63
    → pos_part q ≡ 0
    → quantity (record_usage month s t m q limit).1 (counter t m month) ≡ pos (n - neg_part q)
unfolding record_usage
record_usage-back month s t m n q limit now small k none_more =
    let key = counter t m month in
    let fits : (ltb_ℤ (pos 0) q && ltb_ℤ limit (pos n +ℤ q)) ≡ false = ground (arith, none_more) in
    rw (now, sum-small n q (omega (arith, none_more, small)) k, fits)
      (quantity-with_counter key key (next_quantity n q) s
        ∙ ground (arith, next_quantity-eq n q, none_more))

record_usage-keeps :
    (month : ℤ) (s : Tables) (t m : String) (q limit : ℤ)
    → ((record_usage month s t m q limit).1.plans ≡ s.plans)
      × ((record_usage month s t m q limit).1.subscriptions ≡ s.subscriptions)
unfolding record_usage
record_usage-keeps month s t m q limit = ground arith

start_free-keeps :
    (uuid : String) (month : ℤ) (s : Tables) (t : String) (found : Option Subscription)
    {r : Subscription × Tables}
    → lookup t s.subscriptions ≡ found
    → start_free uuid month s t found ≡ ok r
    → (lookup t r.1.subscriptions ≡ some r.0) × (r.1.plans ≡ s.plans) × (r.1.counters ≡ s.counters)
start_free-keeps uuid month s t (some sub) {r} known h =
    let e : (sub, s) ≡ r = ok_injective h in rw (← e) (known, refl, refl)
start_free-keeps uuid month s t none {r} known h =
    let (free, found, k) = >>=-eq-ok (plan_where (λ p. Plan.code p == "free") s) _ h in
    let e = ok_injective k in
    rw (← e) (lookup-insert t t _ s.subscriptions ∙ ground arith, refl, refl)

view_of-ok :
    (t : String) (month : ℤ) (sub : Subscription) (s : Tables) {r : BillingOverview × Tables}
    → view_of t month (sub, s) ≡ ok r
    → (plan_where (λ p. Plan.id p == sub.plan_id) s ≡ ok (BillingOverview.plan r.0)) × (s ≡ r.1)
view_of-ok t month sub s {r} h =
    let (plan, e, k) = >>=-eq-ok (plan_where (λ p. Plan.id p == sub.plan_id) s) _ h in
    let same = ok_injective k in
    (e ∙ ap (λ x. ok (BillingOverview.plan x.0)) same, ap (λ x. x.1) same)

plan_where-keeps :
    (p : Plan → Bool) (s s2 : Tables) → s2.plans ≡ s.plans → plan_where p s2 ≡ plan_where p s
unfolding plan_where
plan_where-keeps p s s2 e = ap (λ plans. found (find_first p plans)) e

-- A tenant's overview, on tables with its subscription and the plan of that, shows that plan.
pub overview-known :
    (uuid : String) (month : ℤ) (s : Tables) (t : String) (sub : Subscription) (plan : Plan)
    → lookup t s.subscriptions ≡ some sub
    → plan_where (λ p. Plan.id p == sub.plan_id) s ≡ ok plan
    → (o : BillingOverview) × (overview uuid month s t ≡ ok (o, s)) × (o.plan ≡ plan)
unfolding overview
overview-known uuid month s t sub plan known found = (
  record { plan = plan; subscription = sub; usage = usage_of t month s.counters },
  rw (known, found) refl,
  refl,
)

-- An overview leaves the plans and the counters, and another one of the tenant, on tables with the
-- same plans and subscriptions, shows the same plan and changes nothing.
overview-again :
    (uuid : String) (month : ℤ) (s s' : Tables) (t : String) (o : BillingOverview)
    → overview uuid month s t ≡ ok (o, s')
    → (s'.counters ≡ s.counters)
      × ((uuid' : String) (s2 : Tables)
          → s2.plans ≡ s'.plans
          → s2.subscriptions ≡ s'.subscriptions
          → (o2 : BillingOverview) × (overview uuid' month s2 t ≡ ok (o2, s2)) × (o2.plan ≡ o.plan))
unfolding overview
overview-again uuid month s s' t o h =
    let (r, e, k) = >>=-eq-ok (start_free uuid month s t (lookup t s.subscriptions)) _ h in
    let kept = start_free-keeps uuid month s t (lookup t s.subscriptions) refl e in
    let seen = view_of-ok t month (r.0) (r.1) k in
    let same : r.1 ≡ s' = seen.1 in
    (
      ap (λ x. Tables.counters x) (sym same) ∙ kept.2,
      λ uuid' s2 plans subs.
          overview-known uuid' month s2 t (r.0) o.plan
            (ap (lookup t) (subs ∙ ap (λ x. Tables.subscriptions x) (sym same)) ∙ kept.0)
            (plan_where-keeps _ (r.1) s2 (plans ∙ ap (λ x. Tables.plans x) (sym same)) ∙ seen.0),
    )

-- A unit of a metric that was taken for a tenant, and what giving it back in the same month does.
abbrev pub Taken :
    ℤ → Context → String → String → ℕ → ℕ → Result BillingError (Unit {0}) × Tables → Type 0
Taken month ctx t m n k (ok u, s) =
    (quantity s (counter t m month) ≡ pos (n + k))
    × ((uuid : String) (q : ℤ)
        → pos_part q ≡ 0
        → neg_part q ≡ k
        → quantity (consume uuid month ctx s t m q).1 (counter t m month) ≡ pos n)
Taken month ctx t m n k (err e, s) = quantity s (counter t m month) ≡ pos n

quantity-counters :
    (s s2 : Tables) (key : String × String × ℤ)
    → s2.counters ≡ s.counters
    → quantity s2 key ≡ quantity s key
unfolding quantity
quantity-counters s s2 key e = ap (λ c. or_zero (lookup key c)) e

-- Giving back is recorded for a tenant whose overview shows a plan with a limit for the metric.
pub consume-back :
    (uuid : String) (month : ℤ) (ctx : Context) (s : Tables) (t m : String) (n : ℕ) (q limit : ℤ)
    (o : BillingOverview) (s' : Tables)
    → billing_tenant ctx t ≡ ok t
    → overview uuid month s t ≡ ok (o, s')
    → limit_of o.plan m ≡ some limit
    → quantity s (counter t m month) ≡ pos n
    → n < 2 ^ 63
    → neg_part q < 2 ^ 63
    → pos_part q ≡ 0
    → quantity (consume uuid month ctx s t m q).1 (counter t m month) ≡ pos (n - neg_part q)
unfolding consume
consume-back uuid month ctx s t m n q limit o s' own shown known now small low none_more =
    let kept = overview-again uuid month s s' t o shown in
    let same = quantity-counters s s' (counter t m month) kept.0 ∙ now in
    rw (own, shown, known, tables_of (record_usage month s' t m q limit))
      (record_usage-back month s' t m n q limit same small low none_more)
  where
    tables_of : (r : Bool × Tables) → (allowed_or r).1 ≡ r.1
    tables_of (true, x) = refl
    tables_of (false, x) = refl

module _ (month : ℤ) (ctx : Context) (t m : String) (n k : ℕ) (own : billing_tenant ctx t ≡ ok t)
    (small : n + k < 2 ^ 63) where
  allowed-Taken :
      (s : Tables) (plan : Plan) (limit : ℤ) (r : Bool × Tables)
      → ((uuid : String) (s2 : Tables)
          → s2.plans ≡ s.plans
          → s2.subscriptions ≡ s.subscriptions
          → (o : BillingOverview) × (overview uuid month s2 t ≡ ok (o, s2)) × (o.plan ≡ plan))
      → limit_of plan m ≡ some limit
      → (r.1.plans ≡ s.plans) × (r.1.subscriptions ≡ s.subscriptions)
      → Counted month t m n k r
      → Taken month ctx t m n k (allowed_or r)
  allowed-Taken s plan limit (false, s2) again known kept c = c
  allowed-Taken s plan limit (true, s2) again known kept c = (
    c,
    λ uuid q less size.
        let (o, shown, same) = again uuid s2 kept.0 kept.1 in
        consume-back uuid month ctx s2 t m (n + k) q limit o s2 own shown
          (ap (λ p. limit_of p m) same ∙ known) c small (omega (arith, size, small)) less
        ∙ ap pos (omega (arith, size)),
  )

  -- Consume of a usage that does not overflow adds it or leaves the counter, and a usage that it has
  -- taken can be given back in the same month.
  pub consume-Taken :
      (uuid : String) (s : Tables)
      → quantity s (counter t m month) ≡ pos n
      → Taken month ctx t m n k (consume uuid month ctx s t m (pos k))
  unfolding consume
  consume-Taken uuid s now = elim (Result-cases (overview uuid month s t)) [
    | inr (e, failed) ↦ rw (own, failed) now
    | inl ((o, s'), shown) ↦
        let again = overview-again uuid month s s' t o shown in
        let same = quantity-counters s s' (counter t m month) again.0 ∙ now in
        elim (Option-cases (limit_of o.plan m)) [
          | inl unknown ↦ rw (own, shown, unknown) same
          | inr (limit, known) ↦
              rw (own, shown, known)
                (allowed-Taken s' o.plan limit (record_usage month s' t m (pos k) limit) again.1
                  known (record_usage-keeps month s' t m (pos k) limit)
                  (record_usage-Counted month s' t m n k limit same small))
        ]
  ]
