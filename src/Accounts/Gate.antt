-- ===== src/Accounts/Gate.antt =====
-- The chain of backend/internal/middleware/auth.go before a handler: Authenticate, TenantContext and
-- RequirePermission. A refusal is its code; a request is its headers and the context it comes with.
use nexa_flow.Prelude.{
  ℕ, Bool, true, false, not, ◌&&◌, ◌||◌, List, [], ◌∷◌, Option, none, some, String, Result, ok, err,
  ◌>>=◌, ◌==◌, if◌then◌else◌, string_eq, nat_eq,
}
use nexa_flow.Prelude.Int.{ℤ}
use Prim.Native.Char.{Char, code}
use nexa_flow.Strings.{trim_space}
use nexa_flow.Tenancy.{Context, Scope, with_scope, require, has_permission}
use nexa_flow.Accounts.Model.{Accounts, AuthUser, AccessError, account_disabled}
use nexa_flow.Accounts.Service.{Security, AuthConfig, AccessClaims, parse_access_token, me}

pub record HttpRequest : Type 0 where
  pub authorization : String
  pub x_tenant_id : String
  pub context : Context

abbrev pub after_char : Char → Option (String × String) → Option (String × String)
after_char c none = none
after_char c (some (before, after)) = some (String.◌∷◌ c before, after)

-- The parts of strings.SplitN(header, " ", 2), when there are two.
unfoldable pub split_space : String → Option (String × String)
split_space String.[] = none
split_space (String.◌∷◌ c s) = if code c == 32 then some ("", s) else after_char c (split_space s)

-- What follows "Bearer " in the header, if that is how it starts.
abbrev pub bearer : Security → Option (String × String) → Result ℕ String
bearer sec none = err 3001
bearer sec (some (scheme, token)) =
    if not (Security.to_lower sec scheme == "bearer") || trim_space token == ""
    then err 3001
    else ok (trim_space token)

abbrev pub coded {ℓ} : {A : Type ℓ} → ℕ → Result AccessError A → Result ℕ A
coded code (ok a) = ok a
coded code (err e) = err code

abbrev pub member_code : AccessError → ℕ
member_code account_disabled = 3107
member_code e = 3005

abbrev pub or_member_code {ℓ} : {A : Type ℓ} → Result AccessError A → Result ℕ A
or_member_code (ok a) = ok a
or_member_code (err e) = err (member_code e)

abbrev pub provisional : AccessClaims → Scope
provisional claims = record {
  tenant_id = claims.tenant_id;
  user_id = claims.subject;
  primary_role = "";
  roles = claims.roles;
  permissions = claims.permissions;
  system = false;
}

abbrev pub identify : HttpRequest → Accounts → AccessClaims → Result ℕ AuthUser
identify request s claims =
    if not (trim_space request.x_tenant_id == "")
      && not (trim_space request.x_tenant_id == claims.tenant_id)
    then err 3004
    else or_member_code
        (me (with_scope request.context (provisional claims)) s claims.subject claims.tenant_id)

-- Authenticate
unfoldable pub authenticate : Security → AuthConfig → ℤ → HttpRequest → Accounts → Result ℕ AuthUser
unfolding parse_access_token me split_space
authenticate sec cfg now request s = bearer sec (split_space request.authorization) >>= λ token.
    coded 3002 (parse_access_token sec cfg now token) >>= identify request s

abbrev pub head_or_blank : List String → String
head_or_blank [] = ""
head_or_blank (role ∷ roles) = role

abbrev pub scope_of : AuthUser → Scope
scope_of user = record {
  tenant_id = user.active_tenant_id;
  user_id = user.id;
  primary_role = head_or_blank user.roles;
  roles = user.roles;
  permissions = user.permissions;
  system = false;
}

-- TenantContext
unfoldable pub tenant_context : Context → AuthUser → Result ℕ Context
tenant_context ctx user =
    if user.id == "" || user.active_tenant_id == ""
    then err 3002
    else ok (with_scope ctx (scope_of user))

abbrev pub or_refused : String → Context → Result ℕ Context
or_refused permission ctx = if has_permission ctx permission then ok ctx else err 3003

abbrev pub is_scoped : Context → Bool
is_scoped ctx = elim (require ctx) [ ok scope ↦ true | err e ↦ false ]

-- RequirePermission, which answers the context that the handler runs in
unfoldable pub require_permission : String → Context → Result ℕ Context
unfolding require has_permission
require_permission permission ctx = if is_scoped ctx then or_refused permission ctx else err 3002

-- The chain, which answers the context that the handler runs in.
unfoldable pub admitted :
    Security → AuthConfig → ℤ → String → HttpRequest → Accounts → Result ℕ Context
unfolding authenticate tenant_context require_permission
admitted sec cfg now permission request s = authenticate sec cfg now request s >>= λ user.
    tenant_context request.context user >>= require_permission permission
