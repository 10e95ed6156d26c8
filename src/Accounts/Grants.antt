-- ===== src/Accounts/Grants.antt =====
-- Whom the chain of backend/internal/middleware/auth.go admits to a handler.
use nexa_flow.Prelude.{
  ℕ, ◌≡◌, refl, sym, ap, ◌∙◌, inl, inr, ◌⊎◌, Bool, true, false, not, ◌&&◌, ◌||◌, List, [], ◌∷◌,
  contains, Option, none, some, String, Result, ok, err, ◌==◌, string_eq, nat_eq, arith, passed,
  if-cases, >>=-eq-ok, ok_injective, keep, any, map, count_if, find_first, find_first-holds,
}
use nexa_flow.Prelude.Int.{ℤ}
use Prim.Native.Char.{code}
use nexa_flow.Tenancy.{
  require_tenant-own, Context, Scope, with_scope, require_tenant, has_permission,
}
use nexa_flow.Strings.{trim_space}
use nexa_flow.Accounts.Model.{User, Permission, Accounts, AuthUser, AccessError, user_not_found}
use nexa_flow.Accounts.Store.{
  or_error, auth_user, permission_names, member_count, grants, active_tenant,
}
use nexa_flow.Accounts.Roles.{is_active_user}
use nexa_flow.Accounts.Service.{
  Security, AuthConfig, AccessClaims, parse_access_token, me, or_denied, own_scope,
}
use nexa_flow.Accounts.Bearer.{IsBearer, split_space-Around, bearer-IsBearer}
use nexa_flow.Accounts.Gate.{
  HttpRequest, bearer, coded, split_space, or_member_code, provisional, authenticate,
  tenant_context, scope_of, require_permission, is_scoped, or_refused, admitted,
}

module _ {ℓ} {A : Type ℓ} where
  find_first-any :
      (p q : A → Bool) (xs : List A) (a : A)
      → find_first p xs ≡ some a
      → q a ≡ true
      → any (λ x. p x && q x) xs ≡ true
  find_first-any p q [] a h k = cc
  find_first-any p q (x ∷ xs) a h k = ground (arith, find_first-any p q xs a)

  contains-keep :
      (name : A → String) (q : A → Bool) (n : String) (xs : List A)
      → contains (map name (keep q xs)) n ≡ true
      → any (λ x. name x == n && q x) xs ≡ true
  contains-keep name q n [] h = cc
  contains-keep name q n (x ∷ xs) h = ground (arith, contains-keep name q n xs)

pub or_error-eq-ok {ℓ} :
    {A : Type ℓ} (e : AccessError) (o : Option A) {a : A} → or_error e o ≡ ok a → o ≡ some a
or_error-eq-ok e none h = cc
or_error-eq-ok e (some b) h = cc

-- What stands behind a view of a user in a tenant.
pub record Standing (s : Accounts) (user_id tenant_id : String) (user : AuthUser) : Type 0 where
  pub same_user : user.id ≡ user_id
  pub same_tenant : user.active_tenant_id ≡ tenant_id
  pub active_user : is_active_user s user_id ≡ true
  pub one_tenant : count_if (active_tenant tenant_id) s.tenants ≡ 1
  pub member : member_count s tenant_id user_id ≡ 1
  pub permissions : user.permissions ≡ permission_names s tenant_id user_id

pub auth_user-Standing :
    (s : Accounts) (user_id tenant_id : String) {user : AuthUser}
    → auth_user s user_id tenant_id ≡ ok user
    → Standing s user_id tenant_id user
unfolding auth_user
auth_user-Standing s user_id tenant_id h =
    let step =
      >>=-eq-ok (or_error user_not_found (find_first (λ u. User.id u == user_id) s.users)) _ h in
    let u : User = step.0 in
    let found : find_first (λ v. User.id v == user_id) s.users ≡ some u =
      or_error-eq-ok _ _ step.1 in
    let known : User.id u ≡ user_id =
      ground (arith, find_first-holds (λ u. User.id u == user_id) s.users step.0 found) in
    let a = passed (not (User.status u == "active")) _ _ step.2 in
    let b = passed (not (count_if (active_tenant tenant_id) s.tenants == 1)) _ _ a.1 in
    let c = passed (not (member_count s tenant_id (User.id u) == 1)) _ _ b.1 in
    let view = ok_injective c.1 in
    record {
      same_user = sym (ap (λ v. AuthUser.id v) view) ∙ known;
      same_tenant = sym (ap (λ v. AuthUser.active_tenant_id v) view);
      active_user =
          find_first-any (λ u. User.id u == user_id) (λ u. User.status u == "active") s.users step.0
            found (ground arith);
      one_tenant = ground arith;
      member = ap (member_count s tenant_id) (sym known) ∙ ground arith;
      permissions =
          sym (ap (λ v. AuthUser.permissions v) view) ∙ ap (permission_names s tenant_id) known;
    }

own_scope-user :
    (ctx : Context) (user_id tenant_id : String) {scope : Scope}
    → own_scope ctx user_id tenant_id ≡ ok scope
    → or_denied (require_tenant ctx tenant_id) ≡ ok scope
own_scope-user ctx user_id tenant_id h =
    let step = >>=-eq-ok (or_denied (require_tenant ctx tenant_id)) _ h in
    let p = passed (not (Scope.user_id step.0 == user_id)) _ _ step.2 in
    step.1 ∙ ap ok (ok_injective p.1)

coded-eq-ok {ℓ} :
    {A : Type ℓ} (code : ℕ) (m : Result AccessError A) {a : A} → coded code m ≡ ok a → m ≡ ok a
coded-eq-ok code (ok b) h = ap ok (ok_injective h)
coded-eq-ok code (err e) h = cc

or_member_code-eq-ok {ℓ} :
    {A : Type ℓ} (m : Result AccessError A) {a : A} → or_member_code m ≡ ok a → m ≡ ok a
or_member_code-eq-ok (ok b) h = ap ok (ok_injective h)
or_member_code-eq-ok (err e) h = cc

or_denied-eq-ok {ℓ} : {A : Type ℓ} (m : Result _ A) {a : A} → or_denied m ≡ ok a → m ≡ ok a
or_denied-eq-ok (ok b) h = ap ok (ok_injective h)
or_denied-eq-ok (err e) h = cc

me-Standing :
    (ctx : Context) (s : Accounts) (claims : AccessClaims) {user : AuthUser}
    → me (with_scope ctx (provisional claims)) s claims.subject claims.tenant_id ≡ ok user
    → Standing s claims.subject claims.tenant_id user
unfolding me
me-Standing ctx s claims h =
    let step =
      >>=-eq-ok (own_scope (with_scope ctx (provisional claims)) claims.subject claims.tenant_id) _
        h in
    let scope : Scope = step.0 in
    let own = require_tenant-own (provisional claims) scope claims.tenant_id (
      or_denied-eq-ok (require_tenant (some (provisional claims)) claims.tenant_id)
        (own_scope-user (some (provisional claims)) claims.subject claims.tenant_id step.1)) in
    auth_user-Standing s claims.subject claims.tenant_id
      (ap (λ (x : Scope). auth_user s claims.subject x.tenant_id) (sym own.0) ∙ step.2)

-- A permission of a role that the user has in the tenant.
pub is_granted : Accounts → String → String → String → Bool
is_granted s tenant_id user_id permission =
    any
      (λ p.
        Permission.name p == permission
        && any (grants s tenant_id user_id (Permission.id p)) s.role_permissions)
      s.permissions

require_permission-eq-ok :
    (permission : String) (ctx : Context) {c : Context}
    → require_permission permission ctx ≡ ok c
    → (has_permission ctx permission ≡ true) × (ctx ≡ c)
unfolding require_permission
require_permission-eq-ok permission ctx h =
    elim (if-cases (is_scoped ctx) (or_refused permission ctx) (err 3002) h) [
      | inl (_, k) ↦ elim (if-cases (has_permission ctx permission) (ok ctx) (err 3003) k) [
        | inl (allowed, same) ↦ (allowed, ok_injective same)
        | inr (_, bad) ↦ cc
      ]
      | inr (_, bad) ↦ cc
    ]

-- Whom a handler may serve: the bearer of a token of theirs, active in an active tenant that the
-- request does not contradict, with the permission through a role.
pub record Entitled (sec : Security) (cfg : AuthConfig) (now : ℤ) (permission : String)
    (request : HttpRequest) (s : Accounts) (scope : Scope) : Type 0 where
  pub token : String
  pub claims : AccessClaims
  pub sent : IsBearer sec request.authorization token
  pub parsed : parse_access_token sec cfg now token ≡ ok claims
  pub subject : scope.user_id ≡ claims.subject
  pub tenant : scope.tenant_id ≡ claims.tenant_id
  pub not_contradicted :
      (trim_space request.x_tenant_id ≡ "")
      ⊎ (trim_space request.x_tenant_id ≡ AccessClaims.tenant_id claims)
  pub not_system : scope.system ≡ false
  pub active_user : is_active_user s claims.subject ≡ true
  pub one_tenant : count_if (active_tenant claims.tenant_id) s.tenants ≡ 1
  pub member : member_count s claims.tenant_id claims.subject ≡ 1
  pub granted : is_granted s claims.tenant_id claims.subject permission ≡ true

-- A request that the chain admits to a handler that asks for a permission comes with an Authorization
-- header of the scheme Bearer whose token parses, does not name another tenant than the token's, and runs in the scope, not the system's, of
-- the token's subject in the token's tenant: an active user who is an active member of that active
-- tenant and has a role there with the permission.
pub admitted-Entitled :
    (sec : Security) (cfg : AuthConfig) (now : ℤ) (permission : String) (request : HttpRequest)
    (s : Accounts) (ctx : Context)
    → admitted sec cfg now permission request s ≡ ok ctx
    → (scope : Scope) × (ctx ≡ some scope) × Entitled sec cfg now permission request s scope
unfolding admitted authenticate tenant_context require_permission has_permission is_granted
    permission_names
admitted-Entitled sec cfg now permission request s ctx h =
    let a = >>=-eq-ok (authenticate sec cfg now request s) _ h in
    let user : AuthUser = a.0 in
    let b = >>=-eq-ok (tenant_context request.context user) _ a.2 in
    let t = passed (AuthUser.id user == "" || AuthUser.active_tenant_id user == "") _ _ b.1 in
    let tok = >>=-eq-ok (bearer sec (split_space request.authorization)) _ a.1 in
    let par = >>=-eq-ok (coded 3002 (parse_access_token sec cfg now tok.0)) _ tok.2 in
    let claims : AccessClaims = par.0 in
    let i =
      passed
        (not (trim_space request.x_tenant_id == "")
          && not (trim_space request.x_tenant_id == AccessClaims.tenant_id claims))
        _ _ par.2 in
    let st = me-Standing request.context s claims (
      or_member_code-eq-ok
        (me (with_scope request.context (provisional claims)) s (AccessClaims.subject claims)
          (AccessClaims.tenant_id claims))
        i.1) in
    let named : some (scope_of user) ≡ b.0 = ok_injective t.1 in
    let c = require_permission-eq-ok permission b.0 b.2 in
    let has : contains (AuthUser.permissions user) permission ≡ true =
      ap (λ x. has_permission x permission) named ∙ c.0 in
    let listed : contains
          (permission_names s (AccessClaims.tenant_id claims) (AccessClaims.subject claims))
          permission
        ≡ true =
      ap (λ names. contains names permission) (sym (Standing.permissions st)) ∙ has in
    let e : Entitled sec cfg now permission request s (scope_of user) = record {
      token = tok.0;
      claims = claims;
      sent =
          bearer-IsBearer sec request.authorization (split_space request.authorization) tok.0
            (split_space-Around request.authorization) tok.1;
      parsed = coded-eq-ok 3002 (parse_access_token sec cfg now tok.0) par.1;
      subject = Standing.same_user st;
      tenant = Standing.same_tenant st;
      not_contradicted = ground arith;
      not_system = refl;
      active_user = Standing.active_user st;
      one_tenant = Standing.one_tenant st;
      member = Standing.member st;
      granted =
          contains-keep (λ p. Permission.name p)
            (λ p.
              any
                (grants s (AccessClaims.tenant_id claims) (AccessClaims.subject claims)
                  (Permission.id p))
                s.role_permissions)
            permission s.permissions listed;
    } in
    (scope_of user, sym c.1 ∙ sym named, e)
