-- ===== src/Billing/Examples.antt =====
-- Usage and billing events on concrete tables.
use nexa_flow.Prelude.{
  ℕ, ◌≡◌, refl, sym, ok_injective, false, List, [], ◌∷◌, some, String, ok, err, ◌==◌, arith,
  string_eq, String_discrete, ℕ_discrete,
}
use nexa_flow.Prelude.Int.{ℤ, pos, negsuc, ℤ_discrete}
use nexa_flow.Prelude.Maps.{lookup}
use nexa_flow.Billing.Model.{Plan, Subscription, ProviderEvent, BillingOverview, Tables}
use nexa_flow.Billing.Store.{
  CounterKey, counter_eq, CounterKey_discrete, quantity, plan_where, quota_exceeded, record_usage,
  apply_event, overview, usage_of,
}
use nexa_flow.Billing.Service.{consume}
use nexa_flow.Billing.Quota.{
  Usage, counter, record_usage-Usage, record_all, IsWithin, record_all-IsWithin,
}
use nexa_flow.Billing.Events.{apply_events, apply_event-once, apply_event-overview}
use nexa_flow.Tenancy.{Scope, billing_tenant}

abbrev plan : String → String → ℕ → String → Plan
plan id code records price = record {
  id = id;
  code = code;
  name = code;
  price_cents = pos 0;
  currency = "usd";
  stripe_price_id = price;
  max_users = pos 5;
  max_records = pos records;
  max_knowledge_bytes = pos 1000;
  max_ai_tokens = pos 1000;
  status = "active";
}

abbrev first_day : Tables
first_day = record {
  plans = plan "p1" "free" 2 "" ∷ plan "p2" "pro" 100 "price_pro" ∷ [];
  subscriptions = [];
  counters = [];
  events = [];
}

abbrev member : Scope
member = record {
  tenant_id = "t1";
  user_id = "u1";
  primary_role = "member";
  roles = [];
  permissions = [];
  system = false;
}

abbrev full : Tables
full = record first_day { counters = (("t1", "records", pos 7), pos 2) ∷ [] }

third_refused :
    (consume "sub" (pos 7) (some member) full "" "records" (pos 1)).0 ≡ err quota_exceeded
unfolding consume billing_tenant CounterKey_discrete ℤ_discrete String_discrete ℕ_discrete
third_refused = refl

abbrev paid_event : ProviderEvent
paid_event = record {
  id = "evt_1";
  type = "customer.subscription.deleted";
  tenant_id = "t1";
  customer = "cus";
  subscription = "sub";
  price_id = "price_pro";
  start = pos 7;
  end = pos 8;
}

abbrev pro_subscription : Subscription
pro_subscription = record {
  id = "s1";
  tenant_id = "t1";
  plan_id = "p2";
  provider = "stripe";
  provider_customer_id = "cus";
  provider_subscription_id = "sub";
  status = "canceled";
  period_start = pos 7;
  period_end = pos 8;
}

abbrev after_event : Tables
after_event = record first_day {
  subscriptions = ("t1", pro_subscription) ∷ [];
  events = ("evt_1", "customer.subscription.deleted") ∷ [];
}

-- A later event of the same tenant.
abbrev other_event : ProviderEvent
other_event = record paid_event { id = "evt_2"; type = "customer.subscription.updated" }

apply_event-once_example :
    apply_event "s3"
      (apply_events after_event (("s2", other_event) ∷ []))
      (record paid_event { type = "other" })
    ≡ ok (apply_events after_event (("s2", other_event) ∷ []))
unfolding apply_event String_discrete
apply_event-once_example =
    apply_event-once "s1" "s3" first_day after_event paid_event
      (record paid_event { type = "other" }) (("s2", other_event) ∷ []) refl refl

ok_pro :
    (p : Plan)
    → plan_where (λ p'. Plan.stripe_price_id p' == "price_pro") first_day ≡ ok p
    → plan_where (λ p'. Plan.id p' == p.id) first_day ≡ ok p
unfolding plan_where String_discrete
ok_pro p h = rw (sym (ok_injective h)) refl

apply_event-overview_example :
    (view : BillingOverview) × (overview "s2" (pos 7) after_event "t1" ≡ ok (view, after_event))
    × (plan_where (λ p. Plan.stripe_price_id p == "price_pro") first_day ≡ ok view.plan)
    × (view.subscription.status ≡ "canceled")
    × (view.usage ≡ usage_of "t1" (pos 7) [])
    × ((t : String) → ("t1" == t) ≡ false → lookup t after_event.subscriptions ≡ lookup t [])
unfolding apply_event lookup String_discrete
apply_event-overview_example =
    apply_event-overview "s1" "s2" (pos 7) first_day after_event paid_event refl refl ok_pro

record_usage-Usage_example :
    Usage
      (pos 7)
      first_day
      (counter "t1" "records" (pos 7))
      0
      (pos 1)
      2
      (record_usage (pos 7) first_day "t1" "records" (pos 1) (pos 2))
    × ((key : CounterKey)
        → (counter "t1" "records" (pos 7) == key) ≡ false
        → quantity (record_usage (pos 7) first_day "t1" "records" (pos 1) (pos 2)).1 key
          ≡ quantity first_day key)
    × ((record_usage (pos 7) first_day "t1" "records" (pos 1) (pos 2)).1.subscriptions ≡ [])
unfolding quantity
record_usage-Usage_example =
    record_usage-Usage (pos 7) first_day "t1" "records" (pos 1) 2 0 refl (omega arith) (omega arith)

abbrev usages : List (String × String × ℤ)
usages =
    ("t1", "records", pos 1)
    ∷ ("t2", "records", pos 2)
    ∷ ("t1", "records", pos 2)
    ∷ ("t1", "records", negsuc 0)
    ∷ []

abbrev two : String → String → ℕ
two t m = 2

record_all-IsWithin_example : IsWithin (pos 7) two (record_all (pos 7) two first_day usages)
unfolding quantity
record_all-IsWithin_example =
    record_all-IsWithin (pos 7) two first_day usages (λ t m. omega arith)
      (
        (omega arith, omega arith),
        (
          (omega arith, omega arith),
          ((omega arith, omega arith), ((omega arith, omega arith), tt)),
        ),
      )
      (λ t m. (0, refl, omega arith))
