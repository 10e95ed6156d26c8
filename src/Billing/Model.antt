-- ===== src/Billing/Model.antt =====
-- The tables of backend/internal/model/billing.go. A period is the number of its month; the times of
-- creation and update are left out.
use nexa_flow.Prelude.{List, String}
use nexa_flow.Prelude.Int.{ℤ}

pub record Plan : Type 0 where
  pub id : String
  pub code : String
  pub name : String
  pub price_cents : ℤ
  pub currency : String
  pub stripe_price_id : String
  pub max_users : ℤ
  pub max_records : ℤ
  pub max_knowledge_bytes : ℤ
  pub max_ai_tokens : ℤ
  pub status : String

pub record Subscription : Type 0 where
  pub id : String
  pub tenant_id : String
  pub plan_id : String
  pub provider : String
  pub provider_customer_id : String
  pub provider_subscription_id : String
  pub status : String
  pub period_start : ℤ
  pub period_end : ℤ

-- A billing event of the provider, as ParseWebhook answers it.
pub record ProviderEvent : Type 0 where
  pub id : String
  pub type : String
  pub tenant_id : String
  pub customer : String
  pub subscription : String
  pub price_id : String
  pub start : ℤ
  pub end : ℤ

pub record BillingOverview : Type 0 where
  pub plan : Plan
  pub subscription : Subscription
  pub usage : List (String × ℤ)

-- The tables: subscriptions by tenant, counters by tenant, metric and month, events by id and type.
pub record Tables : Type 0 where
  pub plans : List Plan
  pub subscriptions : List (String × Subscription)
  pub counters : List ((String × String × ℤ) × ℤ)
  pub events : List (String × String)
