-- ===== src/Billing/Service.antt =====
-- Consume, Checkout and Webhook of backend/internal/service/billing_service.go. The provider is a Go
-- interface there, and functions here; the count of denials is left out.
use nexa_flow.Prelude.{
  Bool, true, false, ◌&&◌, Option, none, some, String, Result, ok, err, ◌>>=◌, ◌==◌, if◌then◌else◌,
  string_eq, find_first,
}
use nexa_flow.Prelude.Int.{ℤ, pos, ltb_ℤ}
use nexa_flow.Billing.Model.{Plan, ProviderEvent, BillingOverview, Tables}
use nexa_flow.Billing.Store.{
  BillingError, tenant_required, unknown_metric, quota_exceeded, invalid_plan, overview,
  record_usage, apply_event,
}
use nexa_flow.Tenancy.{Context, TenantError, billing_tenant}

-- limits[m]
unfoldable pub limit_of : Plan → String → Option ℤ
limit_of plan m =
    if m == "users"
    then some plan.max_users
    else if m == "records"
    then some plan.max_records
    else if m == "knowledge_bytes"
    then some plan.max_knowledge_bytes
    else if m == "ai_tokens"
    then some plan.max_ai_tokens
    else none

abbrev pub tenant_of : Result TenantError String → Result BillingError String
tenant_of (ok t) = ok t
tenant_of (err e) = err tenant_required

-- A denial comes after RecordUsage has committed.
abbrev pub allowed_or : Bool × Tables → Result BillingError (Unit {0}) × Tables
allowed_or (true, s) = (ok tt, s)
allowed_or (false, s) = (err quota_exceeded, s)

abbrev pub within :
    ℤ → String → String → ℤ → Option ℤ → Tables → Result BillingError (Unit {0}) × Tables
within month t m q none s = (err unknown_metric, s)
within month t m q (some limit) s = allowed_or (record_usage month s t m q limit)

abbrev pub consume_for :
    ℤ
    → String
    → String
    → ℤ
    → Tables
    → Result BillingError (BillingOverview × Tables)
    → Result BillingError (Unit {0}) × Tables
consume_for month t m q s (err e) = (err e, s)
consume_for month t m q s (ok (o, s')) = within month t m q (limit_of o.plan m) s'

abbrev pub consume_as :
    String
    → ℤ
    → Tables
    → Result BillingError String
    → String
    → ℤ
    → Result BillingError (Unit {0}) × Tables
consume_as uuid month s (err e) m q = (err e, s)
consume_as uuid month s (ok t) m q = consume_for month t m q s (overview uuid month s t)

-- Consume
unfoldable pub consume :
    String → ℤ → Context → Tables → String → String → ℤ → Result BillingError (Unit {0}) × Tables
unfolding overview limit_of record_usage
consume uuid month ctx s requested m q =
    consume_as uuid month s (tenant_of (billing_tenant ctx requested)) m q

abbrev pub paid : Option Plan → (Plan → Result BillingError String) → Result BillingError String
paid none k = err invalid_plan
paid (some p) k = k p

-- Checkout, over the active plans; `checkout` is the provider's.
unfoldable pub checkout :
    (String → Plan → Result BillingError String)
    → Context
    → Tables
    → String
    → String
    → Result BillingError String
checkout provider ctx s requested code = tenant_of (billing_tenant ctx requested) >>= λ t.
    paid
      (find_first
        (λ p.
          Plan.status p == "active" && Plan.code p == code && ltb_ℤ (pos 0) (Plan.price_cents p))
        s.plans)
      (provider t)

-- Webhook; `parse` is the provider's ParseWebhook.
unfoldable pub webhook :
    (String → String → Result BillingError ProviderEvent)
    → String
    → Tables
    → String
    → String
    → Result BillingError Tables
unfolding apply_event
webhook parse uuid s payload signature = parse payload signature >>= λ e. apply_event uuid s e
