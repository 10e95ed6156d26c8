-- ===== src/Accounts/SignIn.antt =====
-- Signing in and staying signed in: Login, Refresh and Me of backend/internal/service/auth_service.go.
use nexa_flow.Prelude.{
  ◌≡◌, refl, sym, ap, ◌∙◌, inl, inr, Bool, true, false, not, List, [], ◌∷◌, ◌++◌, none, some,
  String, Result, ok, err, ◌>>=◌, ◌==◌, string_eq, nat_eq, arith, ltb, passed, >>=-eq-ok,
  ok_injective, Option-cases, Result-cases, find_first, String_discrete, ℕ_discrete,
}
use nexa_flow.Prelude.Int.{ℤ, ltb_ℤ, ◌+ℤ◌}
use Prim.Native.String.{len}
use mathlib.Core.Path.{subst}
use nexa_flow.Strings.{trim_space}
use nexa_flow.Accounts.Model.{
  User, Tenant, RefreshSession, Accounts, AuthUser, AccessError, invalid_credentials,
}
use nexa_flow.Accounts.Store.{
  find_credentials, resolve_tenant, auth_user, is_live, revoke_where, rotate_current,
  rotate_session, create_session, member_count, role_names, permission_names, tenants_of,
}
use nexa_flow.Accounts.Grants.{Standing, auth_user-Standing}
use nexa_flow.Tenancy.{Context, Scope, with_scope, require, require_tenant}
use nexa_flow.Accounts.Gate.{HttpRequest, bearer, split_space, identify, provisional, authenticate}
use nexa_flow.Accounts.Service.{
  Security, AuthConfig, Moment, AccessClaims, TokenPair, login, check_login, issue_for, rotate,
  sign_access_token, claims_of, parse_access_token, own_scope, me, map_error, or_credentials,
  session_of, signed_or_revoked, pair_of, issue_token_pair,
}

pub err_ok {ℓ κ ι} :
    {E : Type ℓ} {A : Type κ} {B : Type ι} {e : E} {a : A} → ◌≡◌ {A = Result E A} (err e) (ok a) → B
err_ok h = absurd (cc)

pub find_first-last {ℓ} :
    {A : Type ℓ} (p : A → Bool) (xs : List A) (a : A)
    → find_first p xs ≡ none
    → p a ≡ true
    → find_first p (xs ++ a ∷ []) ≡ some a
find_first-last p [] a h k = rw k refl
find_first-last p (x ∷ xs) a h k = ground (arith, find_first-last p xs a)

find_first-none :
    (hash : String) (now : ℤ) (xs : List RefreshSession)
    → find_first (λ x. RefreshSession.token_hash x == hash) xs ≡ none
    → find_first (is_live now hash) xs ≡ none
find_first-none hash now [] h = refl
find_first-none hash now (x ∷ xs) h = ground (arith, find_first-none hash now xs)

open-is_live :
    (now : ℤ) (x : RefreshSession)
    → x.revoked_at ≡ none
    → ltb_ℤ now x.expires_at ≡ true
    → is_live now x.token_hash x ≡ true
open-is_live now x u l = ground (arith, u, l)

own_scope-own :
    (scope : Scope)
    → scope.system ≡ false
    → (scope.user_id == "") ≡ false
    → (scope.tenant_id == "") ≡ false
    → own_scope (some scope) scope.user_id scope.tenant_id ≡ ok scope
unfolding require_tenant require
own_scope-own scope u k n = ground (arith, u, k, n)

module _ (sec : Security) (cfg : AuthConfig) where
  -- Login answers invalid_credentials both for an address that no user has and for a password that
  -- does not match, and writes nothing in either case.
  pub login-refused :
      (at : Moment) (s : Accounts) (email password tenant_id : String)
      → ((user : User)
          → find_first (λ u. User.email u == sec.to_lower (trim_space email)) s.users ≡ some user
          → sec.password_matches user.password_hash password ≡ false)
      → login sec cfg at s email password tenant_id ≡ (err invalid_credentials, s)
  unfolding login find_credentials
  login-refused at s email password tenant_id wrong =
      elim (Option-cases
        (find_first (λ u. User.email u == sec.to_lower (trim_space email)) s.users)) [
          | inl missing ↦ rw missing refl
          | inr (user, found) ↦ rw (found, wrong user found) refl
        ]

  auth_user-own :
      (s : Accounts) (user_id tenant_id : String) {user : AuthUser}
      → auth_user s user_id tenant_id ≡ ok user
      → auth_user s user.id user.active_tenant_id ≡ ok user
  auth_user-own s user_id tenant_id h =
      let st = auth_user-Standing s user_id tenant_id h in
      ap (auth_user s _) (Standing.same_tenant st)
      ∙ ap (λ u. auth_user s u tenant_id) (Standing.same_user st)
      ∙ h

  check_login-own :
      (s : Accounts) (email password tenant_id : String) {user : AuthUser}
      → check_login sec cfg s email password tenant_id ≡ ok user
      → auth_user s user.id user.active_tenant_id ≡ ok user
  unfolding check_login
  check_login-own s email password tenant_id h =
      let a =
        >>=-eq-ok (map_error or_credentials (find_credentials s (sec.to_lower (trim_space email))))
          _ h in
      let user : User = a.0 in
      let b = passed (not (sec.password_matches (User.password_hash user) password)) _ _ a.2 in
      let c = passed (not (User.status user == "active")) _ _ b.1 in
      let d = >>=-eq-ok (resolve_tenant s (User.id user) tenant_id) _ c.1 in
      auth_user-own s (User.id user) (Tenant.id d.0) d.2

  -- What a login that answered a pair did.
  record Issued (at : Moment) (s s' : Accounts) (pair : TokenPair) : Type 0 where
    raw : String
    access : String
    user : AuthUser
    drawn : at.refresh_token ≡ ok raw
    signed : sign_access_token sec cfg at user ≡ ok access
    viewed : auth_user s user.id user.active_tenant_id ≡ ok user
    answered : pair_of sec cfg at raw user access ≡ pair
    stored : create_session (session_of sec cfg at raw user.id user.active_tenant_id) s ≡ s'

  signed-Issued :
      (at : Moment) (raw : String) (user : AuthUser) (s : Accounts) (r : Result AccessError String)
      {pair : TokenPair} {s' : Accounts}
      → at.refresh_token ≡ ok raw
      → sign_access_token sec cfg at user ≡ r
      → auth_user s user.id user.active_tenant_id ≡ ok user
      → signed_or_revoked sec cfg at raw user
          (create_session (session_of sec cfg at raw user.id user.active_tenant_id) s)
          r
        ≡ (ok pair, s')
      → Issued at s s' pair
  signed-Issued at raw user s (err e) t g v h = err_ok (ap (λ x. x.0) h)
  signed-Issued at raw user s (ok access) t g v h = record {
    raw = raw;
    access = access;
    user = user;
    drawn = t;
    signed = g;
    viewed = v;
    answered = ok_injective (ap (λ x. x.0) h);
    stored = ap (λ x. x.1) h;
  }

  login-Issued :
      (at : Moment) (s s' : Accounts) (email password tenant_id : String) (pair : TokenPair)
      → login sec cfg at s email password tenant_id ≡ (ok pair, s')
      → Issued at s s' pair
  unfolding login
  login-Issued at s s' email password tenant_id pair h =
      elim (Result-cases (check_login sec cfg s email password tenant_id)) [
        | inl (user, good) ↦ elim (Result-cases at.refresh_token) [
          | inl (raw, drawn) ↦
              signed-Issued at raw user s (sign_access_token sec cfg at user) drawn refl
                (check_login-own s email password tenant_id good)
                (sym (
                    ap (issue_for sec cfg at s) good
                    ∙ ap (λ t. issue_token_pair sec cfg at s t user) drawn)
                  ∙ h)
          | inr (e, failed) ↦ err_ok (
              ap (λ x. x.0)
                (sym (
                    ap (issue_for sec cfg at s) good
                    ∙ ap (λ t. issue_token_pair sec cfg at s t user) failed)
                  ∙ h))
        ]
        | inr (e, bad) ↦ err_ok (ap (λ x. x.0) (sym (ap (issue_for sec cfg at s) bad) ∙ h))
      ]

  -- Only the sessions differ.
  auth_user-sessions :
      (s : Accounts) (sessions : List RefreshSession) (user_id tenant_id : String)
      → auth_user (record s { sessions = sessions }) user_id tenant_id
        ≡ auth_user s user_id tenant_id
  unfolding auth_user member_count role_names permission_names tenants_of
  auth_user-sessions s sessions user_id tenant_id = refl

  rotate_current-own :
      (s : Accounts) (now : ℤ) (next c : RefreshSession)
      → member_count s c.tenant_id c.user_id ≡ 1
      → rotate_current s now "" next c
        ≡ ok (
          c.user_id,
          c.tenant_id,
          record s {
            sessions =
                revoke_where (λ x. RefreshSession.id x == c.id) now s.sessions
                ++ record next { user_id = c.user_id; tenant_id = c.tenant_id } ∷ [];
          },
        )
  unfolding String_discrete ℕ_discrete
  rotate_current-own s now next c m = rw (m, rotate_current) refl

  rotate_session-issued :
      (at later : Moment) (s : Accounts) (raw : String) (user : AuthUser) (next : RefreshSession)
      → member_count s user.active_tenant_id user.id ≡ 1
      → find_first (λ x. RefreshSession.token_hash x == sec.hash_token raw) s.sessions ≡ none
      → ltb_ℤ later.now (at.now +ℤ cfg.refresh_token_ttl) ≡ true
      → (sessions : List RefreshSession) × (rotate_session
            (create_session (session_of sec cfg at raw user.id user.active_tenant_id) s)
            later.now
            (sec.hash_token raw)
            ""
            next
          ≡ ok (user.id, user.active_tenant_id, record s { sessions = sessions }))
  unfolding rotate_session create_session member_count
  rotate_session-issued at later s raw user next m fresh live =
      let own : RefreshSession = session_of sec cfg at raw user.id user.active_tenant_id in
      let found : find_first (is_live later.now (sec.hash_token raw)) (s.sessions ++ own ∷ [])
          ≡ some own =
        find_first-last (is_live later.now (sec.hash_token raw)) s.sessions own
          (find_first-none (sec.hash_token raw) later.now s.sessions fresh)
          (open-is_live later.now own refl live) in
      (
        revoke_where (λ x. RefreshSession.id x == own.id) later.now (s.sessions ++ own ∷ [])
            ++ record next { user_id = user.id; tenant_id = user.active_tenant_id } ∷ [],
        rw found (
            rotate_current-own (record s { sessions = s.sessions ++ own ∷ [] }) later.now next own
              m),
      )

  rotate-issued :
      (at later : Moment) (s : Accounts) (raw next access : String) (user : AuthUser)
      → auth_user s user.id user.active_tenant_id ≡ ok user
      → find_first (λ x. RefreshSession.token_hash x == sec.hash_token raw) s.sessions ≡ none
      → ltb (len raw) 32 ≡ false
      → ltb_ℤ later.now (at.now +ℤ cfg.refresh_token_ttl) ≡ true
      → later.refresh_token ≡ ok next
      → sign_access_token sec cfg later user ≡ ok access
      → (rotate sec cfg later
          (create_session (session_of sec cfg at raw user.id user.active_tenant_id) s)
          raw
          "").0
        ≡ ok (pair_of sec cfg later next user access)
  unfolding rotate
  rotate-issued at later s raw next access user v fresh long live drawn signed =
      let st = auth_user-Standing s user.id user.active_tenant_id v in
      let r =
        rotate_session-issued at later s raw user (session_of sec cfg later next "" "")
          (Standing.member st) fresh live in
      rw (long, drawn, r.1, auth_user-sessions s r.0 user.id user.active_tenant_id, v, signed) refl

  -- A refresh with the token of a pair that Login answered, on the tables as Login left them, before the
  -- session ends and where no stored session had the token's hash, answers a pair for the same view of the user, with the token
  -- that it draws, if the token has the 32 bytes that are asked for and the new access token is signed.
  pub login-rotate :
      (at later : Moment) (s s' : Accounts) (email password tenant_id next access : String)
      (pair : TokenPair)
      → login sec cfg at s email password tenant_id ≡ (ok pair, s')
      → find_first
          (λ x. RefreshSession.token_hash x == sec.hash_token pair.refresh_token)
          s.sessions
        ≡ none
      → ltb (len pair.refresh_token) 32 ≡ false
      → ltb_ℤ later.now (at.now +ℤ cfg.refresh_token_ttl) ≡ true
      → later.refresh_token ≡ ok next
      → sign_access_token sec cfg later pair.user ≡ ok access
      → (rotate sec cfg later s' pair.refresh_token "").0
        ≡ ok (pair_of sec cfg later next pair.user access)
  login-rotate at later s s' email password tenant_id next access pair h fresh long live drawn
        signed =
      let i = login-Issued at s s' email password tenant_id pair h in
      ap (λ x. (rotate sec cfg later x pair.refresh_token "").0) (sym (Issued.stored i))
      ∙ subst
          (λ (p : TokenPair).
            find_first (λ x. RefreshSession.token_hash x == sec.hash_token p.refresh_token)
                s.sessions
              ≡ none
            → ltb (len p.refresh_token) 32 ≡ false
            → sign_access_token sec cfg later p.user ≡ ok access
            → (rotate sec cfg later
                (create_session
                  (session_of sec cfg at (Issued.raw i) (AuthUser.id (Issued.user i))
                    (AuthUser.active_tenant_id (Issued.user i)))
                  s)
                p.refresh_token "").0
              ≡ ok (pair_of sec cfg later next p.user access))
          (Issued.answered i)
          (λ f l g.
            rotate-issued at later s (Issued.raw i) next access (Issued.user i) (Issued.viewed i) f
              l live drawn g)
          fresh long signed

  me-issued :
      (ctx : Context) (s : Accounts) (claims : AccessClaims) (user : AuthUser)
      → (claims.subject == "") ≡ false
      → (claims.tenant_id == "") ≡ false
      → auth_user s claims.subject claims.tenant_id ≡ ok user
      → me (with_scope ctx (provisional claims)) s claims.subject claims.tenant_id ≡ ok user
  unfolding me
  me-issued ctx s claims user known named v =
      ap
        (λ (m : Result AccessError Scope).
          m >>= λ scope. auth_user s claims.subject scope.tenant_id)
        (own_scope-own (provisional claims) refl known named)
      ∙ v

  parsed-issued :
      (now : ℤ) (raw : String) (claims : AccessClaims)
      → (claims.subject == "") ≡ false
      → (claims.tenant_id == "") ≡ false
      → sec.parse cfg.jwt_secret cfg.issuer now raw ≡ some claims
      → parse_access_token sec cfg now raw ≡ ok claims
  unfolding parse_access_token
  parsed-issued now raw claims known named p = rw (parse_access_token, p, known, named) refl

  identify-issued :
      (request : HttpRequest) (s : Accounts) (claims : AccessClaims) (user : AuthUser)
      → (claims.subject == "") ≡ false
      → (claims.tenant_id == "") ≡ false
      → trim_space request.x_tenant_id ≡ ""
      → auth_user s claims.subject claims.tenant_id ≡ ok user
      → identify request s claims ≡ ok user
  unfolding String_discrete
  identify-issued request s claims user known named blank v =
      rw (blank, me-issued request.context s claims user known named v) refl

  authenticate-issued :
      (at : Moment) (later : ℤ) (s : Accounts) (raw access : String) (user : AuthUser)
      (request : HttpRequest)
      → auth_user s user.id user.active_tenant_id ≡ ok user
      → (user.id == "") ≡ false
      → (user.active_tenant_id == "") ≡ false
      → sec.parse cfg.jwt_secret cfg.issuer later access ≡ some (claims_of sec cfg at user)
      → bearer sec (split_space request.authorization) ≡ ok access
      → trim_space request.x_tenant_id ≡ ""
      → authenticate sec cfg later request
          (create_session (session_of sec cfg at raw user.id user.active_tenant_id) s)
        ≡ ok user
  unfolding authenticate create_session
  authenticate-issued at later s raw access user request v known named p b blank =
      rw (b, parsed-issued later access (claims_of sec cfg at user) known named p)
        (identify-issued request _ (claims_of sec cfg at user) user known named blank
          (auth_user-sessions s _ user.id user.active_tenant_id ∙ v))

  -- Where jwt.ParseWithClaims reads back the claims of the service's issuer that SignedString signed
  -- with the same secret, until they end, a request that carries the access token of a pair that Login
  -- answered, on the tables as Login left them, before that token ends, and that asks for no tenant is
  -- authenticated as the pair's user, if neither the user's id nor the tenant's is blank.
  pub login-authenticate :
      (at : Moment) (later : ℤ) (s s' : Accounts) (email password tenant_id : String)
      (pair : TokenPair) (request : HttpRequest)
      → ((now : ℤ) (claims : AccessClaims) (token : String)
          → sec.sign cfg.jwt_secret claims ≡ ok token
          → claims.issuer ≡ cfg.issuer
          → ltb_ℤ now claims.expires_at ≡ true
          → sec.parse cfg.jwt_secret cfg.issuer now token ≡ some claims)
      → login sec cfg at s email password tenant_id ≡ (ok pair, s')
      → ltb_ℤ later pair.expires_at ≡ true
      → (AuthUser.id pair.user == "") ≡ false
      → (AuthUser.active_tenant_id pair.user == "") ≡ false
      → bearer sec (split_space request.authorization) ≡ ok pair.access_token
      → trim_space request.x_tenant_id ≡ ""
      → authenticate sec cfg later request s' ≡ ok pair.user
  login-authenticate at later s s' email password tenant_id pair request law h live known named b
        blank =
      let i = login-Issued at s s' email password tenant_id pair h in
      let user : AuthUser = Issued.user i in
      ap (authenticate sec cfg later request) (sym (Issued.stored i))
      ∙ subst
          (λ (p : TokenPair).
            ltb_ℤ later p.expires_at ≡ true
            → (AuthUser.id p.user == "") ≡ false
            → (AuthUser.active_tenant_id p.user == "") ≡ false
            → bearer sec (split_space request.authorization) ≡ ok p.access_token
            → authenticate sec cfg later request (
                create_session
                  (session_of sec cfg at (Issued.raw i) (AuthUser.id user)
                    (AuthUser.active_tenant_id user))
                  s)
              ≡ ok p.user)
          (Issued.answered i)
          (λ l k n t.
            authenticate-issued at later s (Issued.raw i) (Issued.access i) user request
              (Issued.viewed i) k n
              (law later (claims_of sec cfg at user) (Issued.access i) (Issued.signed i) refl l) t
              blank)
          live known named b
