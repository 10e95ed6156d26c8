-- ===== src/Knowledge.antt =====
-- The knowledge base (backend/internal/service/knowledge_service.go).
pub mod Splitting
pub mod Windows
pub mod Service
pub mod Metering
mod Examples
