-- ===== src/Jobs.antt =====
-- The job queue (backend/internal/jobs/queue.go).
pub mod Model
pub mod Redis
pub mod Scripts
pub mod Queue
pub mod Retry
pub mod Claims
pub mod Moves
pub mod Promotion
pub mod Idempotency
mod Examples
