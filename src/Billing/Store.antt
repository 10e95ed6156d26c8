-- ===== src/Billing/Store.antt =====
-- Overview, RecordUsage and ApplyEvent of backend/internal/repository/billing_repository.go. A
-- transaction answers the tables that it leaves; one that fails leaves them as they were. A failure of
-- the database itself is left out; newUUID and the clock are arguments.
use nexa_flow.Prelude.{
  ◌^◌, ◌-◌, Bool, true, false, ◌&&◌, List, [], ◌∷◌, Option, none, some, String, Result, ok, err,
  ◌>>=◌, ◌==◌, find_first, if◌then◌else◌, string_eq, Eq, String_discrete,
}
use nexa_flow.Prelude.Int.{ℤ, pos, negsuc, ltb_ℤ, ◌+ℤ◌, ◌-ℤ◌, int_eq, ℤ_discrete}
use nexa_flow.Prelude.Maps.{lookup, insert}
use nexa_flow.Billing.Model.{Plan, Subscription, ProviderEvent, BillingOverview, Tables}

pub data BillingError : Type 0 where
  not_found : BillingError
  tenant_required : BillingError
  unknown_metric : BillingError
  quota_exceeded : BillingError
  invalid_plan : BillingError
  other : String → BillingError

-- The sum of two int64, which wraps around.
unfoldable pub wrap : ℤ → ℤ
wrap z =
    if ltb_ℤ (pos (2 ^ 63 - 1)) z
    then z -ℤ pos (2 ^ 64)
    else if ltb_ℤ z (negsuc (2 ^ 63 - 1))
    then z +ℤ pos (2 ^ 64)
    else z

abbrev pub CounterKey : Type 0
CounterKey = String × String × ℤ

unfoldable pub CounterKey_discrete : Discrete CounterKey
CounterKey_discrete = hlevel (String_discrete, ℤ_discrete)

instance abbrev pub counter_eq : Eq CounterKey
counter_eq = record { dec = CounterKey_discrete }

abbrev pub or_zero : Option ℤ → ℤ
or_zero none = pos 0
or_zero (some n) = n

-- The quantity of a counter, which is 0 where there is none.
unfoldable pub quantity : Tables → CounterKey → ℤ
unfolding lookup
quantity s key = or_zero (lookup key s.counters)

abbrev pub at_least_zero : ℤ → ℤ
at_least_zero n = if ltb_ℤ n (pos 0) then pos 0 else n

abbrev pub with_counter : CounterKey → ℤ → Tables → Tables
with_counter key n s = record s { counters = insert key n s.counters }

-- RecordUsage: whether the usage is within the limit, and the tables.
unfoldable pub record_usage : ℤ → Tables → String → String → ℤ → ℤ → Bool × Tables
unfolding quantity wrap insert
record_usage month s t m q limit =
    let key : CounterKey = (t, m, month) in
    let next = wrap (quantity s key +ℤ q) in
    if ltb_ℤ (pos 0) q && ltb_ℤ limit next
    then (false, with_counter key (quantity s key) s)
    else (true, with_counter key (at_least_zero next) s)

abbrev pub found : Option Plan → Result BillingError Plan
found none = err not_found
found (some p) = ok p

unfoldable pub plan_where : (Plan → Bool) → Tables → Result BillingError Plan
plan_where p s = found (find_first p s.plans)

-- The subscription to the free plan that a tenant starts with.
abbrev pub free_subscription : String → ℤ → String → Plan → Subscription
free_subscription uuid month t free = record {
  id = uuid;
  tenant_id = t;
  plan_id = free.id;
  provider = "local";
  provider_customer_id = "";
  provider_subscription_id = "";
  status = "active";
  period_start = month;
  period_end = month +ℤ pos 1;
}

abbrev pub start_free :
    String → ℤ → Tables → String → Option Subscription → Result BillingError (Subscription × Tables)
start_free uuid month s t (some sub) = ok (sub, s)
start_free uuid month s t none = plan_where (λ p. Plan.code p == "free") s >>= λ free. ok (
  free_subscription uuid month t free,
  record s { subscriptions = insert t (free_subscription uuid month t free) s.subscriptions },
)

-- The counters of a tenant in a month, by their metric.
unfoldable pub usage_of : String → ℤ → List (CounterKey × ℤ) → List (String × ℤ)
unfolding insert
usage_of t month [] = []
usage_of t month (((t', m, month'), n) ∷ rows) =
    let rest = usage_of t month rows in if t' == t && month' == month then (m, n) ∷ rest else rest

abbrev pub view_of :
    String → ℤ → Subscription × Tables → Result BillingError (BillingOverview × Tables)
view_of t month (sub, s) = plan_where (λ p. Plan.id p == sub.plan_id) s >>= λ plan.
    ok (record { plan = plan; subscription = sub; usage = usage_of t month s.counters }, s)

-- Overview
unfoldable pub overview :
    String → ℤ → Tables → String → Result BillingError (BillingOverview × Tables)
unfolding lookup insert plan_where usage_of
overview uuid month s t = start_free uuid month s t (lookup t s.subscriptions) >>= view_of t month

-- The subscription that an event makes.
abbrev pub event_subscription : String → ProviderEvent → Plan → Subscription
event_subscription uuid e plan = record {
  id = uuid;
  tenant_id = e.tenant_id;
  plan_id = plan.id;
  provider = "stripe";
  provider_customer_id = e.customer;
  provider_subscription_id = e.subscription;
  status = if e.type == "customer.subscription.deleted" then "canceled" else "active";
  period_start = e.start;
  period_end = e.end;
}

-- An upsert keeps the id of the tenant's row.
abbrev pub upserted : Option Subscription → Subscription → Subscription
upserted none new = new
upserted (some old) new = record new { id = old.id }

abbrev pub subscribe : String → ProviderEvent → Plan → Tables → Tables
subscribe uuid e plan s = record s {
  events = insert e.id e.type s.events;
  subscriptions =
      insert e.tenant_id
        (upserted (lookup e.tenant_id s.subscriptions) (event_subscription uuid e plan))
        s.subscriptions;
}

abbrev pub apply_new : String → Tables → ProviderEvent → Option String → Result BillingError Tables
apply_new uuid s e (some type) = ok s
apply_new uuid s e none = plan_where (λ p. Plan.stripe_price_id p == e.price_id) s >>= λ plan.
    ok (subscribe uuid e plan s)

-- ApplyEvent
unfoldable pub apply_event : String → Tables → ProviderEvent → Result BillingError Tables
unfolding lookup insert plan_where
apply_event uuid s e = apply_new uuid s e (lookup e.id s.events)
