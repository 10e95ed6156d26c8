-- ===== src/Billing.antt =====
-- Plans, subscriptions and metered usage (backend/internal/model/billing.go, billing_repository.go of
-- backend/internal/repository, billing_service.go of backend/internal/service).
pub mod Model
pub mod Store
pub mod Service
pub mod Quota
pub mod Units
pub mod Meter
pub mod Samples
pub mod Events
mod Examples
