-- ===== src/Accounts/Registration.antt =====
-- Register and CreateTenant of backend/internal/service/auth_service.go, and CreateTenant of
-- backend/internal/repository/auth_repository.go. A new id is an argument; `Q` is what the meter
-- stores. A slug that is taken fails by its unique index.
use nexa_flow.Prelude.{
  Bool, not, ◌&&◌, ◌||◌, List, [], ◌∷◌, ◌++◌, keep, any, contains, length, find_first, Option, none,
  some, String, Result, ok, err, ◌>>=◌, ◌==◌, if◌then◌else◌, string_eq, nat_eq, ltb,
}
use Prim.Native.String.{len}
use nexa_flow.Prelude.Int.{ℤ, pos, negsuc}
use nexa_flow.Patterns.{tenant_slug_pattern}
use nexa_flow.Strings.{trim_space}
use nexa_flow.Tenancy.{Context, Scope, require}
use nexa_flow.Accounts.Model.{
  Tenant, Role, Permission, RolePermission, Accounts, AuthUser, AccessError, tenant_access,
  unknown_role, invalid_input, other,
}
use nexa_flow.Accounts.Store.{or_error, create_user}
use nexa_flow.Accounts.Roles.{grant_all}
use nexa_flow.Accounts.Service.{Security, or_denied}

-- validateIdentity
abbrev pub is_identity : Security → String → String → String → Bool
is_identity sec username email password =
    not (ltb (len username) 3 || ltb 64 (len username))
    && Security.is_address sec email
    && not (ltb (len password) 12 || ltb 72 (len password))

-- PrimaryTenantID
unfoldable pub primary_tenant_id : Accounts → Result AccessError String
primary_tenant_id s = if s.primary_tenant == "" then err tenant_access else ok s.primary_tenant

module _ {Q : Type 0} (sec : Security)
    (meter : Option (Q → String → ℤ → Result AccessError (Unit {0}) × Q)) where
  abbrev pub charge_for :
      (Q → String → ℤ → Result AccessError (Unit {0}) × Q)
      → Q
      → Result AccessError String
      → Result AccessError (Unit {0}) × Q
  charge_for consume q (err e) = (err e, q)
  charge_for consume q (ok tenant_id) = consume q tenant_id (pos 1)

  -- What is taken of the quota before the user is created.
  abbrev pub charge : Accounts → Q → Result AccessError (Unit {0}) × Q
  charge s q = elim meter [
    | none ↦ (ok tt, q)
    | some consume ↦ charge_for consume q (primary_tenant_id s)
  ]

  abbrev pub refund_for :
      (Q → String → ℤ → Result AccessError (Unit {0}) × Q) → Q → Result AccessError String → Q
  refund_for consume q (err e) = q
  refund_for consume q (ok tenant_id) = (consume q tenant_id (negsuc 0)).1

  abbrev pub refund : Accounts → Q → Q
  refund s q = elim meter [ none ↦ q | some consume ↦ refund_for consume q (primary_tenant_id s) ]

  abbrev pub created_or_refund :
      Accounts
      → Q
      → Result AccessError (AuthUser × Accounts)
      → Result AccessError AuthUser × Accounts × Q
  created_or_refund s q (ok (user, s')) = (ok user, s', q)
  created_or_refund s q (err e) = (err e, s, refund s q)

  abbrev pub if_charged :
      Accounts
      → Result AccessError (Unit {0}) × Q
      → Result AccessError (AuthUser × Accounts)
      → Result AccessError AuthUser × Accounts × Q
  if_charged s (err e, q) created = (err e, s, q)
  if_charged s (ok u, q) created = created_or_refund s q created

  abbrev pub register_hashed :
      String
      → Accounts
      → Q
      → String
      → String
      → Result AccessError String
      → Result AccessError AuthUser × Accounts × Q
  register_hashed id s q username email (err e) = (err e, s, q)
  register_hashed id s q username email (ok hash) =
      if_charged s (charge s q) (create_user s id username email hash)

  abbrev pub register_trimmed :
      String → Accounts → Q → String → String → String → Result AccessError AuthUser × Accounts × Q
  register_trimmed id s q username email password =
      if is_identity sec username email password
      then register_hashed id s q username email (sec.hash_password password)
      else (err invalid_input, s, q)

  -- Register
  unfoldable pub register :
      String → Accounts → Q → String → String → String → Result AccessError AuthUser × Accounts × Q
  unfolding create_user primary_tenant_id
  register id s q username email password =
      register_trimmed id s q (trim_space username) (sec.to_lower (trim_space email)) password

-- The permissions of a role by their names, or an error when one is missing.
abbrev pub default_grants :
    Accounts → String → String → List String → Result AccessError (List RolePermission)
default_grants s tenant_id role_name names =
    or_error unknown_role (find_first (λ r. Role.name r == role_name) s.roles) >>= λ role.
    let permissions = keep (λ p. contains names (Permission.name p)) s.permissions in
    if not (length permissions == length names)
    then err (other "default tenant permission vocabulary is incomplete")
    else ok (grant_all tenant_id (Role.id role) permissions)

abbrev pub all_grants :
    Accounts → String → List (String × List String) → Result AccessError (List RolePermission)
all_grants s tenant_id [] = ok []
all_grants s tenant_id ((role_name, names) ∷ rest) = do
  granted ← default_grants s tenant_id role_name names
  more ← all_grants s tenant_id rest
  ok (granted ++ more)

-- defaultGrants
abbrev pub default_roles : List (String × List String)
default_roles =
    (
      "super_admin",
      "dashboard.view" ∷ "dashboard.manage" ∷ "user.view" ∷ "user.create" ∷ "user.delete"
          ∷ "role.manage" ∷ "order.view" ∷ "finance.manage" ∷ "system.manage" ∷ "entity.view"
          ∷ "entity.manage" ∷ "record.view" ∷ "record.manage" ∷ "form.view" ∷ "form.manage"
          ∷ "form.submit" ∷ "workflow.view" ∷ "workflow.manage" ∷ "workflow.submit"
          ∷ "workflow.approve" ∷ "knowledge.view" ∷ "knowledge.manage" ∷ "knowledge.search"
          ∷ "ai.chat" ∷ "billing.manage" ∷ "file.view" ∷ "file.manage" ∷ "tenant.view"
          ∷ "tenant.manage" ∷ "tenant.lifecycle" ∷ [],
    )
    ∷ (
      "admin",
      "dashboard.view" ∷ "dashboard.manage" ∷ "user.view" ∷ "user.create" ∷ "user.delete"
          ∷ "audit.view" ∷ "order.view" ∷ "entity.view" ∷ "entity.manage" ∷ "record.view"
          ∷ "record.manage" ∷ "form.view" ∷ "form.manage" ∷ "form.submit" ∷ "workflow.view"
          ∷ "workflow.manage" ∷ "workflow.submit" ∷ "workflow.approve" ∷ "knowledge.view"
          ∷ "knowledge.manage" ∷ "knowledge.search" ∷ "ai.chat" ∷ "billing.manage" ∷ "file.view"
          ∷ "file.manage" ∷ "tenant.view" ∷ "tenant.manage" ∷ [],
    )
    ∷ (
      "employee",
      "dashboard.view" ∷ "order.view" ∷ "entity.view" ∷ "record.view" ∷ "form.view" ∷ "form.submit"
          ∷ "workflow.view" ∷ "workflow.submit" ∷ "knowledge.view" ∷ "knowledge.search" ∷ "ai.chat"
          ∷ "file.view" ∷ [],
    )
    ∷ ("guest", "dashboard.view" ∷ [])
    ∷ []

abbrev pub new_tenant : String → String → String → Tenant
new_tenant id name slug = record { id = id; slug = slug; name = name; status = "active" }

-- CreateTenant of the repository, with the new id; the settings are left out
unfoldable pub insert_tenant :
    Accounts → String → String → String → String → Result AccessError (Tenant × Accounts)
insert_tenant s id owner_id name slug =
    if any (λ t. Tenant.slug t == slug) s.tenants then err (other "duplicate slug") else do
      super ← or_error unknown_role (find_first (λ r. Role.name r == "super_admin") s.roles)
      granted ← all_grants s id default_roles
      ok (
        new_tenant id name slug,
        record s {
          tenants = s.tenants ++ new_tenant id name slug ∷ [];
          memberships =
              s.memberships
              ++ record { tenant_id = id; user_id = owner_id; status = "active" } ∷ [];
          user_roles =
              s.user_roles
              ++ record { tenant_id = id; user_id = owner_id; role_id = Role.id super } ∷ [];
          role_permissions = s.role_permissions ++ granted;
        },
      )

abbrev pub create_named :
    Accounts → String → String → String → String → Result AccessError (Tenant × Accounts)
create_named s id owner_id name slug =
    if ltb (len name) 2 || ltb 180 (len name)
    then err invalid_input
    else if not (tenant_slug_pattern slug)
    then err invalid_input
    else insert_tenant s id owner_id name slug

-- CreateTenant
unfoldable pub create_tenant :
    Security
    → Context
    → Accounts
    → String
    → String
    → String
    → String
    → Result AccessError (Tenant × Accounts)
unfolding insert_tenant
create_tenant sec ctx s id owner_id name slug = or_denied (require ctx) >>= λ scope.
    if not (Scope.user_id scope == owner_id)
    then err tenant_access
    else create_named s id owner_id (trim_space name) (Security.to_lower sec (trim_space slug))
