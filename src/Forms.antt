-- ===== src/Forms.antt =====
-- Form definitions and submissions (backend/internal/service/form_service.go and
-- form_submission_service.go).
pub mod Model
pub mod Schema
pub mod Generated
pub mod Submission
mod Examples
