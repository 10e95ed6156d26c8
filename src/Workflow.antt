-- ===== src/Workflow.antt =====
-- The workflow engine (backend/internal/service/workflow_service.go).
pub mod Model
pub mod Validation
pub mod Traversal
pub mod Walk
pub mod Scans
pub mod EdgeScans
pub mod Links
pub mod Acyclic
pub mod Fuel
pub mod Choice
pub mod Progress
pub mod Totality
pub mod Service
pub mod Guards
pub mod Repository
pub mod Versions
pub mod History
pub mod Once
mod Examples
