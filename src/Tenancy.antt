-- ===== src/Tenancy.antt =====
-- The tenant scope that a request's context carries (backend/internal/tenantcontext/context.go), and
-- billingTenant of backend/internal/service/billing_service.go. A context is what it has under the
-- package's key.
mod Examples
use nexa_flow.Prelude.{
  ◌≡◌, refl, sym, ◌∙◌, ap, ◌≢◌, ◌⊎◌, inl, inr, Bool, true, false, not, ◌&&◌, ◌||◌, List, [], Option,
  none, some, String, Result, ok, err, ◌>>=◌, ◌==◌, contains, passed, if-cases, >>=-eq-ok,
  ok_injective, arith, if◌then◌else◌, string_eq,
}

pub data TenantError : Type 0 where
  required : TenantError
  tenant_mismatch : TenantError

pub record Scope : Type 0 where
  pub tenant_id : String
  pub user_id : String
  pub primary_role : String
  pub roles : List String
  pub permissions : List String
  pub system : Bool

abbrev pub Context : Type 0
Context = Option Scope

-- With
abbrev pub with_scope : Context → Scope → Context
with_scope ctx scope = some scope

abbrev pub system_scope : Scope
system_scope = record {
  tenant_id = "";
  user_id = "";
  primary_role = "";
  roles = [];
  permissions = [];
  system = true;
}

-- WithSystem
abbrev pub with_system : Context → Context
with_system ctx = with_scope ctx system_scope

-- Require, after From
unfoldable pub require : Context → Result TenantError Scope
require none = err required
require (some scope) =
    if scope.system || scope.tenant_id == "" || scope.user_id == "" then err required else ok scope

-- RequireTenant
unfoldable pub require_tenant : Context → String → Result TenantError Scope
unfolding require
require_tenant ctx requested = require ctx >>= λ scope.
    if not (requested == "") && not (requested == scope.tenant_id)
    then err tenant_mismatch
    else ok scope

-- HasPermission
unfoldable pub has_permission : Context → String → Bool
has_permission none permission = false
has_permission (some scope) permission =
    if scope.system then true else contains scope.permissions permission

abbrev pub own_tenant : Result TenantError Scope → Result TenantError String
own_tenant m = m >>= λ scope. ok scope.tenant_id

-- billingTenant
unfoldable pub billing_tenant : Context → String → Result TenantError String
unfolding require_tenant
billing_tenant none requested = err required
billing_tenant (some scope) requested =
    if scope.system
    then (if requested == "" then err required else ok requested)
    else own_tenant (require_tenant (some scope) requested)

pub require_tenant-own :
    (scope found : Scope) (requested : String)
    → require_tenant (some scope) requested ≡ ok found
    → (found ≡ scope)
      × (scope.system ≡ false)
      × ((scope.tenant_id == "") ≡ false)
      × ((requested ≡ "") ⊎ (requested ≡ scope.tenant_id))
unfolding require_tenant require
require_tenant-own scope found requested h =
    let step = >>=-eq-ok (require (some scope)) _ h in
    let known = passed (scope.system || scope.tenant_id == "" || scope.user_id == "") _ _ step.1 in
    let same = ok_injective known.1 in
    let matched =
      passed (not (requested == "") && not (requested == (step.0).tenant_id)) _ _ step.2 in
    (
      sym (ok_injective matched.1) ∙ sym same,
      ground arith,
      ground arith,
      ground (arith, ap Scope.tenant_id same, matched.0),
    )

-- A tenant that billingTenant answers is not blank, and it is the scope's own unless the scope is
-- the system's.
pub billing_tenant-own :
    (scope : Scope) (requested t : String)
    → billing_tenant (some scope) requested ≡ ok t
    → ((t == "") ≡ false)
      × ((scope.system ≡ true × t ≡ requested)
          ⊎ (scope.system ≡ false
              × t ≡ scope.tenant_id
              × ((requested ≡ "") ⊎ (requested ≡ scope.tenant_id))))
unfolding billing_tenant
billing_tenant-own scope requested t h = elim (if-cases scope.system _ _ h) [
  | inl (sys, k) ↦
      let p = passed (requested == "") _ _ k in
      (ground (arith, ok_injective p.1, p.0), inl (sys, sym (ok_injective p.1)))
  | inr (user, k) ↦
      let step = >>=-eq-ok (require_tenant (some scope) requested) _ k in
      let own = require_tenant-own scope step.0 requested step.1 in
      let named : t ≡ scope.tenant_id = sym (ok_injective step.2) ∙ ap Scope.tenant_id own.0 in
      (rw named own.2, inr (user, named, own.3))
]
