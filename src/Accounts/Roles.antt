-- ===== src/Accounts/Roles.antt =====
-- SetRolePermissions, SetUserRoles and SetUserStatus of
-- backend/internal/repository/auth_repository.go.
use nexa_flow.Prelude.{
  ℕ, Bool, not, ◌&&◌, List, ◌++◌, map, keep, any, count_if, find_first, length, contains, String,
  Result, ok, err, ◌>>=◌, ◌==◌, if◌then◌else◌, string_eq, nat_eq, ltb,
}
use nexa_flow.Accounts.Model.{
  User, Role, Permission, UserRole, RolePermission, Accounts, AccessError, tenant_access,
  super_admin_protected, last_super_admin, self_disable, no_roles, unknown_roles,
  unknown_permissions, unknown_role, fixed_permissions, unsupported_status,
}
use nexa_flow.Accounts.Store.{or_error, member_count}

abbrev pub grant_all : String → String → List Permission → List RolePermission
grant_all tenant_id role_id permissions =
    map (λ p. record { tenant_id = tenant_id; role_id = role_id; permission_id = Permission.id p })
      permissions

abbrev pub set_permissions : Accounts → String → List String → Role → Result AccessError Accounts
set_permissions s tenant_id names role =
    let permissions = keep (λ p. contains names (Permission.name p)) s.permissions in
    if role.name == "super_admin"
    then err fixed_permissions
    else if not (length permissions == length names)
    then err unknown_permissions
    else ok (record s {
      role_permissions =
          keep
            (λ rp.
              not
                (RolePermission.tenant_id rp == tenant_id && RolePermission.role_id rp == role.id))
            s.role_permissions
          ++ grant_all tenant_id role.id permissions;
    })

-- SetRolePermissions
unfoldable pub set_role_permissions :
    Accounts → String → String → List String → Result AccessError Accounts
set_role_permissions s tenant_id role_id names =
    or_error unknown_role (find_first (λ r. Role.id r == role_id) s.roles)
    >>= set_permissions s tenant_id names

-- The row of a user's role in a tenant that is the super admin's.
abbrev pub is_super : List Role → String → UserRole → Bool
is_super roles tenant_id ur =
    ur.tenant_id == tenant_id
    && any (λ r. Role.id r == ur.role_id && Role.name r == "super_admin") roles

-- currentSuperAdmin: those of active members
unfoldable pub current_super_admins : Accounts → String → ℕ
unfolding member_count
current_super_admins s tenant_id =
    count_if
      (λ ur.
        is_super s.roles tenant_id ur && ltb 0 (member_count s tenant_id (UserRole.user_id ur)))
      s.user_roles

-- targetIsSuperAdmin
unfoldable pub target_super_admin : Accounts → String → String → ℕ
target_super_admin s tenant_id user_id =
    count_if (λ ur. is_super s.roles tenant_id ur && UserRole.user_id ur == user_id) s.user_roles

abbrev pub has_super : List Role → Bool
has_super roles = any (λ r. Role.name r == "super_admin") roles

abbrev pub is_row_of : String → String → UserRole → Bool
is_row_of tenant_id user_id ur = ur.tenant_id == tenant_id && ur.user_id == user_id

abbrev pub rows_for : String → String → List Role → List UserRole
rows_for tenant_id user_id roles =
    map (λ r. record { tenant_id = tenant_id; user_id = user_id; role_id = Role.id r }) roles

abbrev pub replace_roles : Accounts → String → String → List Role → Accounts
replace_roles s tenant_id user_id roles = record s {
  user_roles =
      keep (λ ur. not (is_row_of tenant_id user_id ur)) s.user_roles
      ++ rows_for tenant_id user_id roles;
}

-- The transaction of SetUserRoles, once the roles have been found.
abbrev pub set_roles : Accounts → String → String → List Role → Result AccessError Accounts
set_roles s tenant_id user_id roles =
    if has_super roles && target_super_admin s tenant_id user_id == 0
    then err super_admin_protected
    else if ltb 0 (target_super_admin s tenant_id user_id)
        && not (ltb 1 (current_super_admins s tenant_id))
        && not (has_super roles)
    then err last_super_admin
    else ok (replace_roles s tenant_id user_id roles)

-- SetUserRoles
unfoldable pub set_user_roles :
    Accounts → String → String → List String → Result AccessError Accounts
set_user_roles s tenant_id user_id names =
    let roles = keep (λ r. contains names (Role.name r)) s.roles in
    if length names == 0
    then err no_roles
    else if not (member_count s tenant_id user_id == 1)
    then err tenant_access
    else if not (length roles == length names)
    then err unknown_roles
    else set_roles s tenant_id user_id roles

abbrev pub is_active_user : Accounts → String → Bool
is_active_user s user_id = any (λ u. User.id u == user_id && User.status u == "active") s.users

-- activeSuperAdmins
unfoldable pub active_super_admins : Accounts → String → ℕ
unfolding member_count
active_super_admins s tenant_id =
    count_if
      (λ ur.
        is_super s.roles tenant_id ur
        && ltb 0 (member_count s tenant_id (UserRole.user_id ur))
        && is_active_user s (UserRole.user_id ur))
      s.user_roles

abbrev pub write_status : Accounts → String → String → Result AccessError Accounts
write_status s user_id status =
    if count_if (λ u. User.id u == user_id) s.users == 1
    then ok (record s {
      users = map (λ u. if User.id u == user_id then record u { status = status } else u) s.users;
    })
    else err tenant_access

-- SetUserStatus
unfoldable pub set_user_status :
    Accounts → String → String → String → String → Result AccessError Accounts
set_user_status s tenant_id actor_id user_id status =
    if not (status == "active") && not (status == "suspended")
    then err unsupported_status
    else if actor_id == user_id && status == "suspended"
    then err self_disable
    else if not (member_count s tenant_id user_id == 1)
    then err tenant_access
    else if status == "suspended"
        && ltb 0 (target_super_admin s tenant_id user_id)
        && not (ltb 1 (active_super_admins s tenant_id))
    then err last_super_admin
    else write_status s user_id status
