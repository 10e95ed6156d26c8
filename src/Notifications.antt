-- ===== src/Notifications.antt =====
-- The delivery of notifications: the outbox of
-- backend/internal/repository/notification_repository.go and the worker of
-- backend/internal/service/notification_worker.go.
pub mod Outbox
pub mod Worker
pub mod Claims
pub mod Webhooks
pub mod Outcomes
mod Examples
