-- ===== src/Accounts/Newcomer.antt =====
-- A user that Register of backend/internal/service/auth_service.go has created, and Login.
use nexa_flow.Prelude.{
  suc, ◌≤◌, ◌≡◌, refl, sym, ap, ◌∙◌, inl, inr, Bool, true, false, ◌&&◌, ◌||◌, List, [], ◌∷◌, ◌++◌,
  keep, any, count_if, count_if-last, find_first, find_first-holds, Option, none, some, String,
  Result, ok, err, ◌==◌, if◌then◌else◌, string_eq, nat_eq, arith, passed, >>=-eq-ok, ok_injective,
  Result-cases, Bool-cases, String_discrete, ℕ_discrete,
}
use mathlib.Core.Path.{subst}
use nexa_flow.Prelude.Int.{ℤ}
use nexa_flow.Strings.{trim_space}
use nexa_flow.Accounts.Model.{
  User, Tenant, Membership, Role, Accounts, AuthUser, AccessError, other, invalid_input,
}
use nexa_flow.Accounts.Store.{
  or_error, is_active_member, member_count, active_tenant, tenants_of, find_credentials,
  resolve_tenant, auth_user, view_user, create_user,
}
use nexa_flow.Accounts.Service.{Security, AuthConfig, check_login}
use nexa_flow.Accounts.Registration.{is_identity, register, register_hashed, charge, if_charged}
use nexa_flow.Accounts.Grants.{or_error-eq-ok}
use nexa_flow.Accounts.SignIn.{err_ok, find_first-last}

tenants_of-last :
    (tenants : List Tenant) (user_id : String) (ms : List Membership) (m : Membership)
    → any (λ x. Membership.user_id x == user_id) ms ≡ false
    → m.user_id ≡ user_id
    → m.status ≡ "active"
    → tenants_of tenants user_id (ms ++ m ∷ []) ≡ keep (active_tenant m.tenant_id) tenants ++ []
unfolding tenants_of
tenants_of-last tenants user_id [] m f u a =
    let own : (m.user_id == user_id && m.status == "active") ≡ true = ground (arith, u, a) in
    rw own refl
tenants_of-last tenants user_id (x ∷ ms) m f u a =
    ground (arith, tenants_of-last tenants user_id ms m, f, u, a)

find_first-keep :
    {A : Type 0} (p q : A → Bool) (xs : List A)
    → ((x : A) → q x ≡ true)
    → find_first q (keep p xs ++ []) ≡ find_first p xs
find_first-keep p q [] h = refl
find_first-keep p q (x ∷ xs) h = ground (arith, h x, find_first-keep p q xs h)

find_first-any-none :
    {A : Type 0} (p q : A → Bool) (xs : List A)
    → any (λ x. p x || q x) xs ≡ false
    → find_first p xs ≡ none
find_first-any-none p q [] h = refl
find_first-any-none p q (x ∷ xs) h = ground (arith, find_first-any-none p q xs, h)

no_members :
    (t u : String) (ms : List Membership)
    → any (λ x. Membership.user_id x == u) ms ≡ false
    → count_if (is_active_member t u) ms ≡ 0
no_members t u [] h = refl
no_members t u (m ∷ ms) h = ground (arith, no_members t u ms, h)

active_tenants :
    (id : String) (ts : List Tenant)
    → count_if (active_tenant id) ts ≤ count_if (λ x. Tenant.id x == id) ts
active_tenants id [] = omega arith
active_tenants id (x ∷ ts) = ground (arith, active_tenants id ts)

found_counts :
    {A : Type 0} (p : A → Bool) (xs : List A) (a : A) → find_first p xs ≡ some a → 1 ≤ count_if p xs
found_counts p [] a f = cc
found_counts p (x ∷ xs) a f = ground (arith, found_counts p xs a)

blank_first : (b : Bool) → (◌==◌ {A = String} "" "" || b) ≡ true
unfolding String_discrete
blank_first b = refl

same_text : (t : String) → (t == t) ≡ true
same_text t = ground arith

own_member :
    (t u : String) (ms : List Membership) (m : Membership)
    → any (λ x. Membership.user_id x == u) ms ≡ false
    → is_active_member t u m ≡ true
    → count_if (is_active_member t u) (ms ++ m ∷ []) ≡ 1
own_member t u ms m h own =
    count_if-last (is_active_member t u) ms m
    ∙ ap
        (λ b.
          if b
          then suc (count_if (is_active_member t u) ms)
          else count_if (is_active_member t u) ms)
        own
    ∙ ap suc (no_members t u ms h)

module _ (sec : Security) (cfg : AuthConfig) where
  -- The row of a created user.
  abbrev newcomer : String → String → String → String → User
  newcomer id username email hash = record {
    id = id;
    username = username;
    email = email;
    password_hash = hash;
    status = "active";
  }

  -- A login answers a view of a user with an id in a tenant.
  abbrev pub Welcomed : Accounts → String → String → String → String → Type 0
  Welcomed s email password id tenant_id =
      (view : AuthUser) × (check_login sec cfg s email password "" ≡ ok view)
      × (view.id ≡ id)
      × (view.active_tenant_id ≡ tenant_id)

  auth_user-newcomer :
      (s : Accounts) (u : User) (t : String)
      → find_first (λ x. User.id x == u.id) s.users ≡ some u
      → u.status ≡ "active"
      → count_if (active_tenant t) s.tenants ≡ 1
      → member_count s t u.id ≡ 1
      → auth_user s u.id t ≡ ok (view_user s u t)
  unfolding auth_user String_discrete ℕ_discrete
  auth_user-newcomer s u t f a c m = rw (f, a, c, m) refl

  check_login-newcomer :
      (s : Accounts) (u : User) (t : Tenant) (email password : String)
      → find_first (λ x. User.email x == sec.to_lower (trim_space email)) s.users ≡ some u
      → sec.password_matches u.password_hash password ≡ true
      → (u.status == "active") ≡ true
      → resolve_tenant s u.id "" ≡ ok t
      → auth_user s u.id t.id ≡ ok (view_user s u t.id)
      → check_login sec cfg s email password "" ≡ ok (view_user s u t.id)
  unfolding check_login find_credentials
  check_login-newcomer s u t email password f p a r v = rw (f, p, a, r, v) refl

  resolve_tenant-newcomer :
      (s : Accounts) (ms : List Membership) (m : Membership) (id : String) (t : Tenant)
      → s.memberships ≡ ms ++ m ∷ []
      → any (λ x. Membership.user_id x == id) ms ≡ false
      → m.user_id ≡ id
      → m.status ≡ "active"
      → find_first (active_tenant m.tenant_id) s.tenants ≡ some t
      → resolve_tenant s id "" ≡ ok t
  unfolding resolve_tenant
  resolve_tenant-newcomer s ms m id t e fresh u a f =
      rw
        (
          e,
          tenants_of-last s.tenants id ms m fresh u a,
          find_first-keep (active_tenant m.tenant_id)
              (λ x. ◌==◌ {A = String} "" "" || Tenant.id x == "") s.tenants
              (λ x. blank_first (Tenant.id x == "")),
          f,
        )
        refl

  member-newcomer :
      (s : Accounts) (ms : List Membership) (m : Membership) (t id : String)
      → s.memberships ≡ ms ++ m ∷ []
      → any (λ x. Membership.user_id x == id) ms ≡ false
      → is_active_member t id m ≡ true
      → member_count s t id ≡ 1
  unfolding member_count
  member-newcomer s ms m t id e fresh own =
      ap (count_if (is_active_member t id)) e ∙ own_member t id ms m fresh own

  created-Welcomed :
      (id username email password hash : String) (s s' : Accounts) (user : AuthUser)
      → sec.password_matches hash password ≡ true
      → find_first (λ u. User.id u == id) s.users ≡ none
      → any (λ m. Membership.user_id m == id) s.memberships ≡ false
      → count_if (λ t. Tenant.id t == s.primary_tenant) s.tenants ≤ 1
      → create_user s id username (sec.to_lower (trim_space email)) hash ≡ ok (user, s')
      → Welcomed s' email password id user.active_tenant_id
  unfolding create_user
  created-Welcomed id username email password hash s s' user match fresh alone primary h =
      let address = sec.to_lower (trim_space email) in
      let a =
        passed (any (λ u. User.email u == address || User.username u == username) s.users) _ _ h in
      let (tenant, e1, h1) =
        >>=-eq-ok
          (or_error (other "load primary tenant")
            (find_first (active_tenant s.primary_tenant) s.tenants))
          _ a.1 in
      let (role, e2, h2) =
        >>=-eq-ok
          (or_error (other "load employee role")
            (find_first (λ r. Role.name r == "employee") s.roles))
          _ h1 in
      let r = ok_injective h2 in
      let u : User = newcomer id username address hash in
      let m : Membership = record { tenant_id = tenant.id; user_id = id; status = "active" } in
      let s1 : Accounts = record s {
        users = s.users ++ u ∷ [];
        memberships = s.memberships ++ m ∷ [];
        user_roles =
            s.user_roles ++ record { tenant_id = tenant.id; user_id = id; role_id = role.id } ∷ [];
      } in
      let tfound : find_first (active_tenant s.primary_tenant) s.tenants ≡ some tenant =
        or_error-eq-ok _ _ e1 in
      let tid : tenant.id ≡ s.primary_tenant =
        ground (arith, find_first-holds (active_tenant s.primary_tenant) s.tenants tenant tfound) in
      let tf : find_first (active_tenant tenant.id) s.tenants ≡ some tenant =
        ap (λ x. find_first (active_tenant x) s.tenants) tid ∙ tfound in
      let counted : count_if (active_tenant s.primary_tenant) s.tenants ≡ 1 = omega (
        arith,
        active_tenants s.primary_tenant s.tenants,
        primary,
        found_counts (active_tenant s.primary_tenant) s.tenants tenant tfound,
      ) in
      let auth : auth_user s1 id tenant.id ≡ ok (view_user s1 u tenant.id) =
        auth_user-newcomer s1 u tenant.id
          (find_first-last (λ x. User.id x == id) s.users u fresh (same_text id)) refl
          (ap (λ x. count_if (active_tenant x) s.tenants) tid ∙ counted)
          (member-newcomer s1 s.memberships m tenant.id id refl alone (ground arith)) in
      let welcome : Welcomed s1 email password id tenant.id = (
        view_user s1 u tenant.id,
        check_login-newcomer s1 u tenant email password
            (find_first-last (λ x. User.email x == address) s.users u
              (find_first-any-none (λ x. User.email x == address) (λ x. User.username x == username)
                s.users a.0)
              (same_text address))
            match (same_text "active")
            (resolve_tenant-newcomer s1 s.memberships m id tenant refl alone refl refl tf) auth,
        refl,
        refl,
      ) in
      subst
        (λ (p : AuthUser × Accounts).
          Welcomed p.1 email password id (AuthUser.active_tenant_id p.0))
        r welcome

  module _ {Q : Type 0} (meter : Option (Q → String → ℤ → Result AccessError (Unit {0}) × Q)) where
    if_charged-ok :
        (s s' : Accounts) (q' : Q) (user : AuthUser) (r : Result AccessError (Unit {0}) × Q)
        (created : Result AccessError (AuthUser × Accounts))
        → if_charged sec meter s r created ≡ (ok user, s', q')
        → created ≡ ok (user, s')
    if_charged-ok s s' q' user (ok u, q) (ok (user', s'')) h =
        ap (λ x. ok (x, s'')) (ok_injective (ap (λ x. x.0) h))
        ∙ ap (λ x. ok (user, x)) (ap (λ x. x.1) h)
    if_charged-ok s s' q' user (ok u, q) (err e) h = err_ok (ap (λ x. x.0) h)
    if_charged-ok s s' q' user (err e, q) created h = err_ok (ap (λ x. x.0) h)

    -- Where no user and no membership has the new id, no two tenants have the id of the primary one, and
    -- bcrypt matches a password with its own hash, a user whom Register has answered can sign in with
    -- the same address and password, with that id and in the tenant that Register answered.
    pub register-login :
        (id username email password : String) (s s' : Accounts) (q q' : Q) (user : AuthUser)
        → ((hash : String)
            → sec.hash_password password ≡ ok hash
            → sec.password_matches hash password ≡ true)
        → find_first (λ u. User.id u == id) s.users ≡ none
        → any (λ m. Membership.user_id m == id) s.memberships ≡ false
        → count_if (λ t. Tenant.id t == s.primary_tenant) s.tenants ≤ 1
        → register sec meter id s q username email password ≡ (ok user, s', q')
        → Welcomed s' email password id user.active_tenant_id
    unfolding register
    register-login id username email password s s' q q' user law fresh alone primary h =
        let address = sec.to_lower (trim_space email) in
        let name = trim_space username in
        elim (Bool-cases (is_identity sec name address password)) [
          | inr bad ↦ err_ok (
              sym (
                ap (λ x. x.0)
                  (ap
                    (λ b.
                      if b
                      then register_hashed sec meter id s q name address
                          (sec.hash_password password)
                      else (err invalid_input, s, q))
                    bad))
              ∙ ap (λ x. x.0) h)
          | inl good ↦ elim (Result-cases (sec.hash_password password)) [
            | inl (hash, hashed) ↦
                created-Welcomed id name email password hash s s' user (law hash hashed) fresh alone
                  primary
                  (if_charged-ok s s' q' user (charge sec meter s q)
                    (create_user s id name address hash)
                    (sym (
                        ap
                          (λ b.
                            if b
                            then register_hashed sec meter id s q name address
                                (sec.hash_password password)
                            else (err invalid_input, s, q))
                          good
                        ∙ ap (register_hashed sec meter id s q name address) hashed)
                      ∙ h))
            | inr (e, failed) ↦ err_ok (
                sym (
                  ap (λ x. x.0)
                    (ap
                        (λ b.
                          if b
                          then register_hashed sec meter id s q name address
                              (sec.hash_password password)
                          else (err invalid_input, s, q))
                        good
                      ∙ ap (register_hashed sec meter id s q name address) failed))
                ∙ ap (λ x. x.0) h)
          ]
        ]
