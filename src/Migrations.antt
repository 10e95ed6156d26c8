-- ===== src/Migrations.antt =====
-- The migration of the database (backend/internal/migration/runner.go).
pub mod Runner
pub mod Registry
pub mod History
pub mod Pending
pub mod Refinement
mod Examples
