-- ===== src/Accounts/Examples.antt =====
-- Runs of signing in with one user, whose tokens are signed by a table of one entry.
use nexa_flow.Prelude.{
  ℕ, ◌≡◌, ◌+◌, ◌-◌, ◌≤◌, refl, sym, ap, inl, inr, ◌∙◌, Bool, true, false, ◌&&◌, List, [], ◌∷◌,
  Option, none, some, String, Result, ok, err, ◌==◌, if◌then◌else◌, string_eq, arith, if-cases,
  ok_injective, String_discrete, ℕ_discrete, find_first,
}
use nexa_flow.Prelude.Int.{pos_part, neg_part, ℤ, pos, ltb_ℤ, int_eq, ℤ_discrete}
use nexa_flow.Strings.{trim_space}
use nexa_flow.Tenancy.{Context, Scope, require, require_tenant, has_permission}
use nexa_flow.Accounts.Model.{
  User, RefreshSession, Accounts, AuthUser, AccessError, invalid_credentials, session_not_found,
  other,
}
use nexa_flow.Accounts.Store.{
  create_user, find_credentials, resolve_tenant, auth_user, tenants_of, member_count, role_names,
  permission_names, revoke_where, rotate_session,
}
use nexa_flow.Accounts.Roles.{
  current_super_admins, target_super_admin, active_super_admins, set_user_roles, set_user_status,
}
use nexa_flow.Accounts.Service.{
  AccessClaims, Security, AuthConfig, Moment, TokenPair, login, check_login, rotate, pair_of,
  parse_access_token, me,
}
use nexa_flow.Accounts.Registration.{register}
use nexa_flow.Accounts.Newcomer.{register-login}
use nexa_flow.Accounts.Gate.{
  HttpRequest, split_space, authenticate, tenant_context, require_permission, admitted,
}
use nexa_flow.Accounts.Grants.{Entitled, admitted-Entitled}
use nexa_flow.Accounts.Sessions.{revoke_one, exec_all, rotate_session-once}
use nexa_flow.Accounts.Admins.{set_user_roles-keeps_super, set_user_status-keeps_super}
use nexa_flow.Accounts.SignIn.{login-refused, login-rotate, login-authenticate}

abbrev owner : User
owner = record {
  id = "u1";
  username = "ada";
  email = "ada@x.org";
  password_hash = "secret";
  status = "active";
}

abbrev second : User
second = record owner { id = "u2"; username = "bob"; email = "bob@x.org" }

abbrev tables : Accounts
tables = record {
  users = owner ∷ second ∷ [];
  tenants = record { id = "t1"; slug = "main"; name = "Main"; status = "active" } ∷ [];
  memberships =
      record { tenant_id = "t1"; user_id = "u1"; status = "active" }
      ∷ record { tenant_id = "t1"; user_id = "u2"; status = "active" }
      ∷ [];
  roles = record { id = "r1"; name = "super_admin" } ∷ record { id = "r2"; name = "employee" } ∷ [];
  permissions = record { id = "p1"; name = "user.view" } ∷ [];
  user_roles =
      record { tenant_id = "t1"; user_id = "u1"; role_id = "r1" }
      ∷ record { tenant_id = "t1"; user_id = "u2"; role_id = "r1" }
      ∷ [];
  role_permissions = record { tenant_id = "t1"; role_id = "r1"; permission_id = "p1" } ∷ [];
  sessions = [];
  primary_tenant = "t1";
}

abbrev same_texts : List String → List String → Bool
same_texts [] [] = true
same_texts (x ∷ xs) (y ∷ ys) = x == y && same_texts xs ys
same_texts [] (y ∷ ys) = false
same_texts (x ∷ xs) [] = false

same_texts-eq : (xs ys : List String) → same_texts xs ys ≡ true → xs ≡ ys
same_texts-eq [] [] h = refl
same_texts-eq (x ∷ xs) (y ∷ ys) h = ground (arith, same_texts-eq xs ys)
same_texts-eq [] (y ∷ ys) h = cc
same_texts-eq (x ∷ xs) [] h = cc

abbrev same_claims : AccessClaims → AccessClaims → Bool
same_claims a b =
    a.email == b.email
    && a.tenant_id == b.tenant_id
    && same_texts a.roles b.roles
    && same_texts a.permissions b.permissions
    && a.issuer == b.issuer
    && a.subject == b.subject
    && a.id == b.id
    && a.issued_at == b.issued_at
    && a.expires_at == b.expires_at

abbrev claims_from :
    String → String → List String → List String → String → String → String → ℤ → ℤ → AccessClaims
claims_from e t r p i s d a x = record {
  email = e;
  tenant_id = t;
  roles = r;
  permissions = p;
  issuer = i;
  subject = s;
  id = d;
  issued_at = a;
  expires_at = x;
}

same_claims-eq : (a b : AccessClaims) → same_claims a b ≡ true → a ≡ b
same_claims-eq a b h =
    let e : a.email ≡ b.email = ground arith in
    let t : a.tenant_id ≡ b.tenant_id = ground arith in
    let r : a.roles ≡ b.roles = same_texts-eq a.roles b.roles (ground arith) in
    let p : a.permissions ≡ b.permissions =
      same_texts-eq a.permissions b.permissions (ground arith) in
    let i : a.issuer ≡ b.issuer = ground arith in
    let s : a.subject ≡ b.subject = ground arith in
    let d : a.id ≡ b.id = ground arith in
    let o : a.issued_at ≡ b.issued_at = ground arith in
    let x : a.expires_at ≡ b.expires_at = ground arith in
    let all : claims_from a.email a.tenant_id a.roles a.permissions a.issuer a.subject a.id
          a.issued_at a.expires_at
        ≡ claims_from b.email b.tenant_id b.roles b.permissions b.issuer b.subject b.id b.issued_at
            b.expires_at =
      rw (e, t, r, p, i, s, d, o, x) refl in
    all

abbrev view_of_owner : AuthUser
view_of_owner = record {
  id = "u1";
  username = "ada";
  email = "ada@x.org";
  status = "active";
  roles = "super_admin" ∷ [];
  permissions = "user.view" ∷ [];
  active_tenant_id = "t1";
  tenants = tables.tenants;
}

abbrev config : AuthConfig
config = record {
  jwt_secret = "k";
  issuer = "nexaflow";
  access_token_ttl = pos 900;
  refresh_token_ttl = pos 86400;
}

abbrev raw_a : String
raw_a = "aaaaaaaaaaaaaaaaaaaaaaaaaaaaaaaaaaaaaaaaaaa"

abbrev raw_b : String
raw_b = "bbbbbbbbbbbbbbbbbbbbbbbbbbbbbbbbbbbbbbbbbbb"

abbrev first : Moment
first = record { now = pos 100; refresh_token = ok raw_a; session_id = "s1"; token_id = "j1" }

abbrev later : Moment
later = record { now = pos 200; refresh_token = ok raw_b; session_id = "s2"; token_id = "j2" }

abbrev signed_claims : AccessClaims
signed_claims =
    claims_from "ada@x.org" "t1" ("super_admin" ∷ []) ("user.view" ∷ []) "nexaflow" "u1" "j1"
      (pos 100) (pos 1000)

abbrev sign_one : String → AccessClaims → Result AccessError String
sign_one secret claims =
    if same_claims claims signed_claims then ok "token" else err (other "signing")

abbrev parse_one : String → String → ℤ → String → Option AccessClaims
parse_one secret issuer now token =
    if token == "token" && ltb_ℤ now (pos 1000) then some signed_claims else none

abbrev security : Security
security = record {
  to_lower = λ s. s;
  password_matches = λ hash password. hash == password;
  hash_password = λ s. ok s;
  is_address = λ s. true;
  hash_token = λ s. s;
  sign = sign_one;
  parse = parse_one;
}

-- One that signs all claims.
abbrev signing : Security
signing = record security { sign = λ secret claims. ok "token" }

found_claims :
    (now : ℤ) (claims : AccessClaims) (token : String)
    → claims ≡ signed_claims
    → "token" ≡ token
    → ltb_ℤ now claims.expires_at ≡ true
    → parse_one "k" "nexaflow" now token ≡ some claims
unfolding String_discrete
found_claims now claims token c t l =
    let live : ltb_ℤ now (pos 1000) ≡ true =
      ap (λ (x : AccessClaims). ltb_ℤ now x.expires_at) (sym c) ∙ l in
    rw (sym t, live) (ap some (sym c))

err_token :
    {token : String} → ◌≡◌ {A = Result AccessError String} (err (other "signing")) (ok token) → ⊥
err_token h = cc

parse_one-sign_one :
    (now : ℤ) (claims : AccessClaims) (token : String)
    → sign_one "k" claims ≡ ok token
    → claims.issuer ≡ "nexaflow"
    → ltb_ℤ now claims.expires_at ≡ true
    → parse_one "k" "nexaflow" now token ≡ some claims
parse_one-sign_one now claims token h i l =
    elim (if-cases (same_claims claims signed_claims) (ok "token") (err (other "signing")) h) [
      | inl (same, t) ↦
          found_claims now claims token (same_claims-eq claims signed_claims same) (ok_injective t)
            l
      | inr (differ, bad) ↦ absurd (err_token bad)
    ]

abbrev accepts : String → Option User → Bool
accepts password none = false
accepts password (some u) = u.password_hash == password

owner_found : find_first (λ u. User.email u == trim_space "ada@x.org") tables.users ≡ some owner
unfolding trim_space String_discrete ℕ_discrete
owner_found = refl

owner_refused : accepts "wrong" (some owner) ≡ false
unfolding String_discrete
owner_refused = refl

login-refused_example :
    login security config first tables "ada@x.org" "wrong" "" ≡ (err invalid_credentials, tables)
login-refused_example =
    login-refused security config first tables "ada@x.org" "wrong" ""
      (λ user found. ap (accepts "wrong") (sym found ∙ owner_found) ∙ owner_refused)

signed_in : Accounts
signed_in = (login security config first tables "ada@x.org" "secret" "").1

pair_a : TokenPair
pair_a = pair_of security config first raw_a view_of_owner "token"

login_succeeds : login security config first tables "ada@x.org" "secret" "" ≡ (ok pair_a, signed_in)
unfolding login check_login find_credentials resolve_tenant auth_user tenants_of member_count
    role_names permission_names trim_space signed_in pair_a String_discrete ℕ_discrete ℤ_discrete
login_succeeds = refl

login-rotate_example :
    (rotate signing config later signed_in raw_a "").0
    ≡ ok (pair_of signing config later raw_b view_of_owner "token")
unfolding login check_login find_credentials resolve_tenant auth_user tenants_of member_count
    role_names permission_names trim_space signed_in String_discrete ℕ_discrete ℤ_discrete
login-rotate_example =
    login-rotate signing config first later tables signed_in "ada@x.org" "secret" "" raw_b "token"
      (pair_of signing config first raw_a view_of_owner "token") refl refl refl refl refl refl

abbrev request : HttpRequest
request = record { authorization = "bearer token"; x_tenant_id = " "; context = none }

login-authenticate_example :
    authenticate security config (pos 500) request signed_in ≡ ok view_of_owner
unfolding login check_login find_credentials resolve_tenant auth_user tenants_of member_count
    role_names permission_names trim_space split_space signed_in pair_a String_discrete ℕ_discrete
    ℤ_discrete
login-authenticate_example =
    login-authenticate security config first (pos 500) tables signed_in "ada@x.org" "secret" ""
      pair_a request parse_one-sign_one refl refl refl refl refl refl

admitted_context : Context
admitted_context = some (record {
  tenant_id = "t1";
  user_id = "u1";
  primary_role = "super_admin";
  roles = "super_admin" ∷ [];
  permissions = "user.view" ∷ [];
  system = false;
})

admitted-Entitled_example :
    (scope : Scope) × (admitted_context ≡ some scope)
    × Entitled security config (pos 500) "user.view" request tables scope
unfolding admitted admitted_context authenticate parse_access_token me require_tenant require
    tenant_context require_permission has_permission auth_user tenants_of member_count role_names
    permission_names trim_space split_space String_discrete ℕ_discrete ℤ_discrete
admitted-Entitled_example =
    admitted-Entitled security config (pos 500) "user.view" request tables admitted_context refl

not_allowed : admitted security config (pos 500) "user.delete" request tables ≡ err 3003
unfolding admitted authenticate parse_access_token me require_tenant require tenant_context
    require_permission has_permission auth_user tenants_of member_count role_names permission_names
    trim_space split_space String_discrete ℕ_discrete ℤ_discrete
not_allowed = refl

abbrev session_a : RefreshSession
session_a = record {
  id = "s1";
  tenant_id = "t1";
  user_id = "u1";
  token_hash = "a";
  expires_at = pos 1000;
  revoked_at = none;
}

abbrev session_b : RefreshSession
session_b = record session_a { id = "s2"; token_hash = "b" }

abbrev with_a : Accounts
with_a = record tables { sessions = session_a ∷ [] }

abbrev rotated : Accounts
rotated = record tables {
  sessions = record session_a { revoked_at = some (pos 200) } ∷ session_b ∷ [];
}

rotate_session-once_example :
    rotate_session (exec_all (revoke_one (pos 300) "b" ∷ []) rotated) (pos 400) "a" "" session_b
    ≡ err session_not_found
unfolding rotate_session revoke_where member_count String_discrete ℕ_discrete
rotate_session-once_example =
    rotate_session-once with_a rotated (pos 200) (pos 400) "a" "" "" "u1" "t1" session_b session_b
      (revoke_one (pos 300) "b" ∷ []) (omega arith) refl (refl, tt) refl

abbrev demoted : Accounts
demoted = record tables {
  user_roles =
      record { tenant_id = "t1"; user_id = "u1"; role_id = "r1" }
      ∷ record { tenant_id = "t1"; user_id = "u2"; role_id = "r2" }
      ∷ [];
}

set_user_roles-keeps_super_example : 1 ≤ current_super_admins demoted "t1"
unfolding set_user_roles target_super_admin current_super_admins member_count String_discrete
    ℕ_discrete
set_user_roles-keeps_super_example =
    set_user_roles-keeps_super tables demoted "t1" "u2" ("employee" ∷ []) (omega arith)
      (omega arith) refl

abbrev suspended : Accounts
suspended = record tables { users = owner ∷ record second { status = "suspended" } ∷ [] }

set_user_status-keeps_super_example : 1 ≤ active_super_admins suspended "t1"
unfolding set_user_status target_super_admin active_super_admins member_count String_discrete
    ℕ_discrete
set_user_status-keeps_super_example =
    set_user_status-keeps_super tables suspended "t1" "u1" "u2" "suspended" (omega arith)
      (omega arith) refl

-- With the second super admin suspended, the first loses the role all the same.
abbrev locked_out : Accounts
locked_out = record suspended {
  user_roles =
      record { tenant_id = "t1"; user_id = "u2"; role_id = "r1" }
      ∷ record { tenant_id = "t1"; user_id = "u1"; role_id = "r2" }
      ∷ [];
}

last_active_demoted :
    (set_user_roles suspended "t1" "u1" ("employee" ∷ []) ≡ ok locked_out)
    × (active_super_admins locked_out "t1" ≡ 0)
unfolding set_user_roles target_super_admin current_super_admins active_super_admins member_count
    String_discrete ℕ_discrete
last_active_demoted = (refl, refl)

abbrev counting : Option (ℕ → String → ℤ → Result AccessError (Unit {0}) × ℕ)
counting = some (λ q t n. (ok tt, q + pos_part n - neg_part n))

registered : Result AccessError AuthUser × Accounts × ℕ
registered = register security counting "u3" tables 2 " eve " "eve@x.org" "long enough password"

abbrev user_or : AuthUser → Result AccessError AuthUser → AuthUser
user_or d (ok a) = a
user_or d (err e) = d

meter_raised : registered.2 ≡ 3
unfolding registered register create_user trim_space String_discrete ℕ_discrete
meter_raised = refl

no_secrets :
    (s hash : String) → ◌≡◌ {A = Result AccessError String} (ok s) (ok hash) → (hash == s) ≡ true
no_secrets s hash h = let same : s ≡ hash = ok_injective h in ground (arith, same)

register-login_example :
    (view : AuthUser) × (check_login security config registered.1 "eve@x.org" "long enough password"
        ""
      ≡ ok view)
    × (view.id ≡ "u3")
    × (view.active_tenant_id ≡ AuthUser.active_tenant_id (user_or view_of_owner registered.0))
unfolding registered register create_user trim_space String_discrete ℕ_discrete
register-login_example =
    register-login security config counting "u3" " eve " "eve@x.org" "long enough password" tables
      registered.1 2 registered.2 (user_or view_of_owner registered.0)
      (no_secrets "long enough password") refl refl (omega arith) refl
