-- ===== src/Accounts/Model.antt =====
-- The tables and the views of backend/internal/model/auth.go, install.go and tenant.go that signing in
-- needs. A table that a query orders is a list in that order; times are numbers.
use nexa_flow.Prelude.{List, Option, String}
use nexa_flow.Prelude.Int.{ℤ}

pub record User : Type 0 where
  pub id : String
  pub username : String
  pub email : String
  pub password_hash : String
  pub status : String

pub record Tenant : Type 0 where
  pub id : String
  pub slug : String
  pub name : String
  pub status : String

pub record Membership : Type 0 where
  pub tenant_id : String
  pub user_id : String
  pub status : String

pub record Role : Type 0 where
  pub id : String
  pub name : String

pub record Permission : Type 0 where
  pub id : String
  pub name : String

pub record UserRole : Type 0 where
  pub tenant_id : String
  pub user_id : String
  pub role_id : String

pub record RolePermission : Type 0 where
  pub tenant_id : String
  pub role_id : String
  pub permission_id : String

pub record RefreshSession : Type 0 where
  pub id : String
  pub tenant_id : String
  pub user_id : String
  pub token_hash : String
  pub expires_at : ℤ
  pub revoked_at : Option ℤ

pub record Accounts : Type 0 where
  pub users : List User
  pub tenants : List Tenant
  pub memberships : List Membership
  pub roles : List Role
  pub permissions : List Permission
  pub user_roles : List UserRole
  pub role_permissions : List RolePermission
  pub sessions : List RefreshSession
  -- The setting tenant.primary_id, or "".
  pub primary_tenant : String

pub record AuthUser : Type 0 where
  pub id : String
  pub username : String
  pub email : String
  pub status : String
  pub roles : List String
  pub permissions : List String
  pub active_tenant_id : String
  pub tenants : List Tenant

pub data AccessError : Type 0 where
  user_not_found : AccessError
  user_exists : AccessError
  session_not_found : AccessError
  tenant_access : AccessError
  account_disabled : AccessError
  super_admin_protected : AccessError
  last_super_admin : AccessError
  self_disable : AccessError
  no_roles : AccessError
  unknown_roles : AccessError
  unknown_permissions : AccessError
  unknown_role : AccessError
  fixed_permissions : AccessError
  unsupported_status : AccessError
  invalid_credentials : AccessError
  invalid_input : AccessError
  invalid_token : AccessError
  other : String → AccessError
