-- ===== src/Accounts/Store.antt =====
-- The users, tenants and sessions of backend/internal/repository/auth_repository.go. A transaction
-- answers the tables that it leaves; one that fails leaves them as they were. Joins are on primary
-- keys; failures of the database itself are left out, and newUUID and the clock are arguments.
use nexa_flow.Prelude.{
  ℕ, Bool, true, false, not, ◌&&◌, ◌||◌, List, [], ◌∷◌, ◌++◌, map, keep, any, count_if, find_first,
  Option, none, some, String, Result, ok, err, ◌>>=◌, ◌==◌, if◌then◌else◌, string_eq, nat_eq,
}
use nexa_flow.Prelude.Int.{ℤ, ltb_ℤ}
use nexa_flow.Accounts.Model.{
  User, Tenant, Membership, Role, Permission, UserRole, RolePermission, RefreshSession, Accounts,
  AuthUser, AccessError, user_not_found, user_exists, session_not_found, tenant_access,
  account_disabled, other,
}

abbrev pub or_error {ℓ} : {A : Type ℓ} → AccessError → Option A → Result AccessError A
or_error e none = err e
or_error e (some a) = ok a

abbrev pub is_active_member : String → String → Membership → Bool
is_active_member tenant_id user_id m =
    m.tenant_id == tenant_id && m.user_id == user_id && m.status == "active"

-- How many active memberships a user has in a tenant.
unfoldable pub member_count : Accounts → String → String → ℕ
member_count s tenant_id user_id = count_if (is_active_member tenant_id user_id) s.memberships

abbrev pub holds : String → String → String → UserRole → Bool
holds tenant_id user_id role_id ur =
    ur.tenant_id == tenant_id && ur.user_id == user_id && ur.role_id == role_id

-- The names of a user's roles in a tenant.
unfoldable pub role_names : Accounts → String → String → List String
role_names s tenant_id user_id =
    map (λ r. Role.name r)
      (keep (λ r. any (holds tenant_id user_id (Role.id r)) s.user_roles) s.roles)

-- A grant of a permission to a role that the user has in the tenant.
abbrev pub grants : Accounts → String → String → String → RolePermission → Bool
grants s tenant_id user_id permission_id rp =
    rp.tenant_id == tenant_id
    && rp.permission_id == permission_id
    && any (holds tenant_id user_id rp.role_id) s.user_roles

-- The names of the permissions that a user's roles have in a tenant.
unfoldable pub permission_names : Accounts → String → String → List String
permission_names s tenant_id user_id =
    map (λ p. Permission.name p)
      (keep (λ p. any (grants s tenant_id user_id (Permission.id p)) s.role_permissions)
        s.permissions)

-- The active tenants that a user is an active member of, in the order of the memberships.
unfoldable pub tenants_of : List Tenant → String → List Membership → List Tenant
tenants_of tenants user_id [] = []
tenants_of tenants user_id (m ∷ ms) =
    let rest = tenants_of tenants user_id ms in
    if m.user_id == user_id && m.status == "active"
    then keep (λ t. Tenant.id t == m.tenant_id && Tenant.status t == "active") tenants ++ rest
    else rest

-- FindCredentials, for an address in lower case
unfoldable pub find_credentials : Accounts → String → Result AccessError User
find_credentials s email = or_error user_not_found (find_first (λ u. User.email u == email) s.users)

-- ResolveTenant
unfoldable pub resolve_tenant : Accounts → String → String → Result AccessError Tenant
unfolding tenants_of
resolve_tenant s user_id tenant_id = or_error tenant_access (
    find_first (λ t. tenant_id == "" || Tenant.id t == tenant_id)
      (tenants_of s.tenants user_id s.memberships))

-- The view of an active user in an active tenant of theirs.
abbrev pub view_user : Accounts → User → String → AuthUser
view_user s user tenant_id = record {
  id = user.id;
  username = user.username;
  email = user.email;
  status = user.status;
  roles = role_names s tenant_id user.id;
  permissions = permission_names s tenant_id user.id;
  active_tenant_id = tenant_id;
  tenants = tenants_of s.tenants user.id s.memberships;
}

abbrev pub active_tenant : String → Tenant → Bool
active_tenant tenant_id t = t.id == tenant_id && t.status == "active"

-- AuthUser, after the query of the user
abbrev pub auth_user_of : Accounts → String → User → Result AccessError AuthUser
auth_user_of s tenant_id user =
    if not (user.status == "active")
    then err account_disabled
    else if not (count_if (active_tenant tenant_id) s.tenants == 1)
    then err tenant_access
    else if not (member_count s tenant_id user.id == 1)
    then err tenant_access
    else ok (view_user s user tenant_id)

-- AuthUser
unfoldable pub auth_user : Accounts → String → String → Result AccessError AuthUser
auth_user s user_id tenant_id =
    or_error user_not_found (find_first (λ u. User.id u == user_id) s.users)
    >>= auth_user_of s tenant_id

-- CreateUser, with the new id and an address in lower case
unfoldable pub create_user :
    Accounts → String → String → String → String → Result AccessError (AuthUser × Accounts)
create_user s id username email password_hash =
    if any (λ u. User.email u == email || User.username u == username) s.users
    then err user_exists
    else do
      tenant ←
          or_error (other "load primary tenant")
            (find_first (active_tenant s.primary_tenant) s.tenants)
      role ←
          or_error (other "load employee role")
            (find_first (λ r. Role.name r == "employee") s.roles)
      ok (
        record {
          id = id;
          username = username;
          email = email;
          status = "active";
          roles = "employee" ∷ [];
          permissions = [];
          active_tenant_id = tenant.id;
          tenants = tenant ∷ [];
        },
        record s {
          users =
              s.users
              ++ record {
                id = id;
                username = username;
                email = email;
                password_hash = password_hash;
                status = "active";
              }
                ∷ [];
          memberships =
              s.memberships
              ++ record { tenant_id = tenant.id; user_id = id; status = "active" } ∷ [];
          user_roles =
              s.user_roles
              ++ record { tenant_id = tenant.id; user_id = id; role_id = role.id } ∷ [];
        },
      )

-- CreateSession
unfoldable pub create_session : RefreshSession → Accounts → Accounts
create_session session s = record s { sessions = s.sessions ++ session ∷ [] }

abbrev pub is_unrevoked : Option ℤ → Bool
is_unrevoked none = true
is_unrevoked (some at) = false

-- token_hash = ? AND revoked_at IS NULL AND expires_at > ?
abbrev pub is_live : ℤ → String → RefreshSession → Bool
is_live now hash session =
    session.token_hash == hash && is_unrevoked session.revoked_at && ltb_ℤ now session.expires_at

-- UPDATE refresh_sessions SET revoked_at
unfoldable pub revoke_where :
    (RefreshSession → Bool) → ℤ → List RefreshSession → List RefreshSession
revoke_where p now sessions =
    map (λ x. if p x then record x { revoked_at = some now } else x) sessions

abbrev pub target_or : String → String → String
target_or target own = if target == "" then own else target

abbrev pub rotate_current :
    Accounts
    → ℤ
    → String
    → RefreshSession
    → RefreshSession
    → Result AccessError (String × String × Accounts)
rotate_current s now target next current =
    if not (member_count s (target_or target current.tenant_id) current.user_id == 1)
    then err tenant_access
    else ok (
      current.user_id,
      target_or target current.tenant_id,
      record s {
        sessions =
            revoke_where (λ x. RefreshSession.id x == current.id) now s.sessions
            ++ record next {
              user_id = current.user_id;
              tenant_id = target_or target current.tenant_id;
            }
              ∷ [];
      },
    )

-- RotateSession
unfoldable pub rotate_session :
    Accounts
    → ℤ
    → String
    → String
    → RefreshSession
    → Result AccessError (String × String × Accounts)
unfolding revoke_where
rotate_session s now old_hash target next =
    or_error session_not_found (find_first (is_live now old_hash) s.sessions)
    >>= rotate_current s now target next

-- RevokeSession
unfoldable pub revoke_session : ℤ → String → Accounts → Accounts
unfolding revoke_where
revoke_session now hash s = record s {
  sessions =
      revoke_where
        (λ x. RefreshSession.token_hash x == hash && is_unrevoked (RefreshSession.revoked_at x)) now
        s.sessions;
}

abbrev pub is_own_session : String → String → String → RefreshSession → Bool
is_own_session user_id tenant_id id x =
    x.id == id && x.user_id == user_id && x.tenant_id == tenant_id && is_unrevoked x.revoked_at

-- RevokeSessionByID
unfoldable pub revoke_session_by_id :
    ℤ → String → String → String → Accounts → Result AccessError Accounts
unfolding revoke_where
revoke_session_by_id now user_id tenant_id id s =
    if any (is_own_session user_id tenant_id id) s.sessions
    then ok
        (record s { sessions = revoke_where (is_own_session user_id tenant_id id) now s.sessions })
    else err session_not_found
