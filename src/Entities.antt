-- ===== src/Entities.antt =====
-- Entity schemas and the records that they type (backend/internal/service/dynamic_model_service.go
-- and dynamic_record_service.go beside it).
pub mod Model
pub mod Schema
pub mod Records
pub mod Accepted
pub mod Fits
pub mod Names
pub mod Metering
mod Examples
