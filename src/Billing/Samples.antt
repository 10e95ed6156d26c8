-- ===== src/Billing/Samples.antt =====
-- Tables with a subscription and usage, and a meter on them, for the tests of the services that count.
use nexa_flow.Prelude.{◌≡◌, refl, false, [], ◌∷◌, some, String, Result, ok, err}
use nexa_flow.Prelude.Int.{ℤ, pos}
use nexa_flow.Tenancy.{Scope}
use nexa_flow.Billing.Model.{Plan, Subscription, Tables}
use nexa_flow.Billing.Store.{BillingError}
use nexa_flow.Billing.Service.{consume}
use nexa_flow.Billing.Meter.{is_ok, IsMeter}

abbrev pub pro : Plan
pro = record {
  id = "p2";
  code = "pro";
  name = "pro";
  price_cents = pos 0;
  currency = "usd";
  stripe_price_id = "price_pro";
  max_users = pos 5;
  max_records = pos 100;
  max_knowledge_bytes = pos 1000;
  max_ai_tokens = pos 1000;
  status = "active";
}

abbrev pub subscribed : Subscription
subscribed = record {
  id = "s1";
  tenant_id = "t1";
  plan_id = "p2";
  provider = "stripe";
  provider_customer_id = "cus";
  provider_subscription_id = "sub";
  status = "active";
  period_start = pos 7;
  period_end = pos 8;
}

abbrev pub in_use : Tables
in_use = record {
  plans = pro ∷ [];
  subscriptions = ("t1", subscribed) ∷ [];
  counters = (("t1", "records", pos 7), pos 4) ∷ (("t1", "knowledge_bytes", pos 7), pos 10) ∷ [];
  events = [];
}

abbrev pub member : Scope
member = record {
  tenant_id = "t1";
  user_id = "u1";
  primary_role = "member";
  roles = [];
  permissions = [];
  system = false;
}

abbrev pub passed_on {ℓ} :
    {E : Type ℓ}
    → (BillingError → E)
    → Result BillingError (Unit {0}) × Tables
    → Result E (Unit {0}) × Tables
passed_on f (ok u, s) = (ok u, s)
passed_on f (err e, s) = (err (f e), s)

-- Consume in the month 7 with the scope above, whose errors a service passes on as its own.
abbrev pub charge :
    {E : Type 0} → (BillingError → E) → Tables → String → String → ℤ → Result E (Unit {0}) × Tables
charge f s t m q = passed_on f (consume "sub" (pos 7) (some member) s t m q)

passed_on-tables :
    {E : Type 0} (f : BillingError → E) (r : Result BillingError (Unit {0}) × Tables)
    → (passed_on f r).1 ≡ r.1
passed_on-tables f (ok u, s) = refl
passed_on-tables f (err e, s) = refl

passed_on-is_ok :
    {E : Type 0} (f : BillingError → E) (r : Result BillingError (Unit {0}) × Tables)
    → is_ok (passed_on f r).0 ≡ is_ok r.0
passed_on-is_ok f (ok u, s) = refl
passed_on-is_ok f (err e, s) = refl

pub charge-IsMeter :
    {E : Type 0} (f : BillingError → E) → IsMeter (λ s. s) (pos 7) (some member) (charge f)
charge-IsMeter f = record {
  uuid = λ s. "sub";
  same_tables = λ s t m q. passed_on-tables f (consume "sub" (pos 7) (some member) s t m q);
  same_answer = λ s t m q. passed_on-is_ok f (consume "sub" (pos 7) (some member) s t m q);
}
