-- ===== src/Accounts.antt =====
-- Users, their tenants, roles and sessions: backend/internal/repository/auth_repository.go,
-- backend/internal/service/auth_service.go and backend/internal/middleware/auth.go.
pub mod Model
pub mod Store
pub mod Roles
pub mod Service
pub mod Registration
pub mod Gate
pub mod Bearer
pub mod Grants
pub mod Sessions
pub mod Admins
pub mod SignIn
mod Newcomer
mod Examples
