-- ===== src/Accounts/Service.antt =====
-- backend/internal/service/auth_service.go over the tables. bcrypt, SHA-256, net/mail, strings.ToLower
-- and the signing of tokens are the fields of Security; random tokens, new ids and the clock are
-- arguments. What a session notes of its client is left out.
use nexa_flow.Prelude.{
  Bool, not, ◌||◌, List, Option, none, some, String, Result, ok, err, ◌>>=◌, ◌==◌, if◌then◌else◌,
  string_eq, ltb,
}
use nexa_flow.Prelude.Int.{ℤ, ◌+ℤ◌}
use Prim.Native.String.{len}
use nexa_flow.Strings.{trim_space}
use nexa_flow.Tenancy.{Context, Scope, TenantError, require_tenant}
use nexa_flow.Accounts.Model.{
  User, Tenant, RefreshSession, Accounts, AuthUser, AccessError, user_not_found, session_not_found,
  tenant_access, account_disabled, invalid_credentials, invalid_input, invalid_token,
}
use nexa_flow.Accounts.Store.{
  find_credentials, resolve_tenant, auth_user, create_session, rotate_session, revoke_session,
  revoke_session_by_id,
}
use nexa_flow.Accounts.Roles.{set_role_permissions, set_user_roles, set_user_status}

pub record AccessClaims : Type 0 where
  pub email : String
  pub tenant_id : String
  pub roles : List String
  pub permissions : List String
  pub issuer : String
  pub subject : String
  pub id : String
  pub issued_at : ℤ
  pub expires_at : ℤ

pub record AuthConfig : Type 0 where
  pub jwt_secret : String
  pub issuer : String
  pub access_token_ttl : ℤ
  pub refresh_token_ttl : ℤ

pub record Security : Type 0 where
  pub to_lower : String → String
  -- bcrypt.CompareHashAndPassword, of a hash and a password
  pub password_matches : String → String → Bool
  -- bcrypt.GenerateFromPassword
  pub hash_password : String → Result AccessError String
  -- mail.ParseAddress succeeds
  pub is_address : String → Bool
  pub hash_token : String → String
  -- jwt's SignedString, by the secret
  pub sign : String → AccessClaims → Result AccessError String
  -- jwt.ParseWithClaims for HS256, by the secret, the issuer and the time
  pub parse : String → String → ℤ → String → Option AccessClaims

-- What a call reads from the clock and from crypto/rand: the refresh token, a session's id and a
-- token's id.
pub record Moment : Type 0 where
  pub now : ℤ
  pub refresh_token : Result AccessError String
  pub session_id : String
  pub token_id : String

pub record TokenPair : Type 0 where
  pub access_token : String
  pub refresh_token : String
  pub expires_at : ℤ
  pub user : AuthUser

-- mapTenantError is the identity on these errors, which the services share with the repository.
abbrev pub or_credentials : AccessError → AccessError
or_credentials user_not_found = invalid_credentials
or_credentials e = e

abbrev pub or_token : AccessError → AccessError
or_token session_not_found = invalid_token
or_token e = e

abbrev pub map_error {ℓ} :
    {A : Type ℓ} → (AccessError → AccessError) → Result AccessError A → Result AccessError A
map_error f (ok a) = ok a
map_error f (err e) = err (f e)

abbrev pub or_denied {ℓ} : {A : Type ℓ} → Result TenantError A → Result AccessError A
or_denied (ok a) = ok a
or_denied (err e) = err tenant_access

module _ (sec : Security) (cfg : AuthConfig) where
  abbrev pub claims_of : Moment → AuthUser → AccessClaims
  claims_of at user = record {
    email = user.email;
    tenant_id = user.active_tenant_id;
    roles = user.roles;
    permissions = user.permissions;
    issuer = cfg.issuer;
    subject = user.id;
    id = at.token_id;
    issued_at = at.now;
    expires_at = at.now +ℤ cfg.access_token_ttl;
  }

  -- signAccessToken
  abbrev pub sign_access_token : Moment → AuthUser → Result AccessError String
  sign_access_token at user = sec.sign cfg.jwt_secret (claims_of at user)

  abbrev pub pair_of : Moment → String → AuthUser → String → TokenPair
  pair_of at raw user access = record {
    access_token = access;
    refresh_token = raw;
    expires_at = at.now +ℤ cfg.access_token_ttl;
    user = user;
  }

  abbrev pub session_of : Moment → String → String → String → RefreshSession
  session_of at raw user_id tenant_id = record {
    id = at.session_id;
    tenant_id = tenant_id;
    user_id = user_id;
    token_hash = sec.hash_token raw;
    expires_at = at.now +ℤ cfg.refresh_token_ttl;
    revoked_at = none;
  }

  -- The end of issueTokenPair: a session whose access token is not signed is revoked.
  abbrev pub signed_or_revoked :
      Moment
      → String
      → AuthUser
      → Accounts
      → Result AccessError String
      → Result AccessError TokenPair × Accounts
  signed_or_revoked at raw user s (ok access) = (ok (pair_of at raw user access), s)
  signed_or_revoked at raw user s (err e) = (err e, revoke_session at.now (sec.hash_token raw) s)

  -- issueTokenPair
  abbrev pub issue_token_pair :
      Moment
      → Accounts
      → Result AccessError String
      → AuthUser
      → Result AccessError TokenPair × Accounts
  issue_token_pair at s (err e) user = (err e, s)
  issue_token_pair at s (ok raw) user =
      signed_or_revoked at raw user
        (create_session (session_of at raw user.id user.active_tenant_id) s)
        (sign_access_token at user)

  -- Login up to the view of the user, after the query of the credentials
  abbrev pub admit : Accounts → String → String → User → Result AccessError AuthUser
  admit s password tenant_id user =
      if not (sec.password_matches user.password_hash password)
      then err invalid_credentials
      else if not (user.status == "active")
      then err account_disabled
      else do tenant ← resolve_tenant s user.id tenant_id; auth_user s user.id (Tenant.id tenant)

  -- Login up to the view of the user
  unfoldable pub check_login : Accounts → String → String → String → Result AccessError AuthUser
  check_login s email password tenant_id =
      map_error or_credentials (find_credentials s (sec.to_lower (trim_space email)))
      >>= admit s password tenant_id

  abbrev pub issue_for :
      Moment → Accounts → Result AccessError AuthUser → Result AccessError TokenPair × Accounts
  issue_for at s (err e) = (err e, s)
  issue_for at s (ok user) = issue_token_pair at s at.refresh_token user

  -- Login
  unfoldable pub login :
      Moment → Accounts → String → String → String → Result AccessError TokenPair × Accounts
  unfolding check_login
  login at s email password tenant_id = issue_for at s (check_login s email password tenant_id)

  -- The end of rotate, after the session has been rotated
  abbrev pub after_rotation :
      Moment
      → String
      → Accounts
      → Result AccessError (String × String × Accounts)
      → Result AccessError TokenPair × Accounts
  after_rotation at raw s (err e) = (err (or_token e), s)
  after_rotation at raw s (ok (user_id, tenant_id, s')) = (
    (do
      user ← auth_user s' user_id tenant_id
      access ← sign_access_token at user
      ok (pair_of at raw user access)),
    s',
  )

  abbrev pub rotate_to :
      Moment
      → Accounts
      → String
      → String
      → Result AccessError String
      → Result AccessError TokenPair × Accounts
  rotate_to at s refresh_token target (err e) = (err e, s)
  rotate_to at s refresh_token target (ok raw) =
      after_rotation at raw s
        (rotate_session s at.now (sec.hash_token refresh_token) target (session_of at raw "" ""))

  -- rotate; Refresh is this with no target
  unfoldable pub rotate :
      Moment → Accounts → String → String → Result AccessError TokenPair × Accounts
  rotate at s refresh_token target =
      if ltb (len refresh_token) 32
      then (err invalid_token, s)
      else rotate_to at s refresh_token target at.refresh_token

  -- SwitchTenant
  unfoldable pub switch_tenant :
      Moment → Accounts → String → String → Result AccessError TokenPair × Accounts
  unfolding rotate
  switch_tenant at s refresh_token target =
      if target == "" then (err invalid_input, s) else rotate at s refresh_token target

  -- Logout
  unfoldable pub logout : Moment → Accounts → String → Result AccessError Accounts
  logout at s refresh_token =
      if refresh_token == ""
      then err invalid_token
      else ok (revoke_session at.now (sec.hash_token refresh_token) s)

  -- ParseAccessToken, at a time
  unfoldable pub parse_access_token : ℤ → String → Result AccessError AccessClaims
  parse_access_token now raw = elim (sec.parse cfg.jwt_secret cfg.issuer now raw) [
    | none ↦ err invalid_token
    | some claims ↦
        if AccessClaims.subject claims == "" || AccessClaims.tenant_id claims == ""
        then err invalid_token
        else ok claims
  ]

-- Of the scope that a request's context has for a tenant, if it is that of the user.
abbrev pub own_scope : Context → String → String → Result AccessError Scope
own_scope ctx user_id tenant_id = or_denied (require_tenant ctx tenant_id) >>= λ scope.
    if not (scope.user_id == user_id) then err tenant_access else ok scope

-- Me
unfoldable pub me : Context → Accounts → String → String → Result AccessError AuthUser
unfolding auth_user
me ctx s user_id tenant_id =
    own_scope ctx user_id tenant_id >>= λ scope. auth_user s user_id scope.tenant_id

-- RevokeSession
unfoldable pub revoke_own_session :
    Context → ℤ → Accounts → String → String → String → Result AccessError Accounts
revoke_own_session ctx now s user_id tenant_id session_id =
    own_scope ctx user_id tenant_id >>= λ scope.
    revoke_session_by_id now scope.user_id scope.tenant_id session_id s

-- SetRolePermissions
unfoldable pub set_permissions_of_role :
    Context → Accounts → String → String → List String → Result AccessError Accounts
set_permissions_of_role ctx s tenant_id role_id permissions =
    or_denied (require_tenant ctx tenant_id) >>= λ scope.
    set_role_permissions s scope.tenant_id role_id permissions

-- SetUserRoles
unfoldable pub set_roles_of_user :
    Context → Accounts → String → String → List String → Result AccessError Accounts
set_roles_of_user ctx s tenant_id user_id roles =
    or_denied (require_tenant ctx tenant_id) >>= λ scope.
    set_user_roles s scope.tenant_id user_id roles

-- SetUserStatus
unfoldable pub set_status_of_user :
    Context → Accounts → String → String → String → String → Result AccessError Accounts
set_status_of_user ctx s tenant_id actor_id user_id status =
    own_scope ctx actor_id tenant_id >>= λ scope.
    set_user_status s scope.tenant_id scope.user_id user_id status
