-- ===== src/Accounts/Admins.antt =====
-- The super admins that SetUserRoles and SetUserStatus of
-- backend/internal/repository/auth_repository.go leave in a tenant.
use nexa_flow.Prelude.{
  ◌+◌, ◌≤◌, ◌≡◌, sym, ◌⊎◌, inl, inr, Bool, true, false, not, ◌&&◌, List, [], ◌∷◌, ◌++◌, String, ok,
  ◌==◌, if◌then◌else◌, string_eq, nat_eq, arith, ltb, passed, ok_injective, Bool-cases, if-cases,
  map, keep, any, count_if, length, contains,
}
use nexa_flow.Accounts.Model.{User, Role, UserRole, Accounts}
use nexa_flow.Accounts.Store.{member_count}
use nexa_flow.Accounts.Roles.{
  is_super, current_super_admins, target_super_admin, has_super, is_row_of, rows_for, replace_roles,
  set_user_roles, is_active_user, active_super_admins, set_user_status,
}

module _ {ℓ} {A : Type ℓ} where
  count_if-append :
      (p : A → Bool) (xs ys : List A) → count_if p (xs ++ ys) ≡ count_if p xs + count_if p ys
  count_if-append p [] ys = omega arith
  count_if-append p (x ∷ xs) ys = ground (arith, count_if-append p xs ys)

  -- What a test counts is kept, or counted by another.
  count_if-keep :
      (q p r : A → Bool) (xs : List A)
      → ((x : A) → q x ≡ true → (p x ≡ true) ⊎ (r x ≡ true))
      → count_if q xs ≤ count_if q (keep p xs) + count_if r xs
  count_if-keep q p r [] h = omega arith
  count_if-keep q p r (x ∷ xs) h = ground (arith, h x, count_if-keep q p r xs h)

  count_if-cover :
      (q p r : A → Bool) (xs : List A)
      → ((x : A) → q x ≡ true → (p x ≡ true) ⊎ (r x ≡ true))
      → count_if q xs ≤ count_if p xs + count_if r xs
  count_if-cover q p r [] h = omega arith
  count_if-cover q p r (x ∷ xs) h = ground (arith, h x, count_if-cover q p r xs h)

  count_if_mono :
      (q p : A → Bool) (xs : List A)
      → ((x : A) → q x ≡ true → p x ≡ true)
      → count_if q xs ≤ count_if p xs
  count_if_mono q p [] h = omega arith
  count_if_mono q p (x ∷ xs) h = ground (arith, h x, count_if_mono q p xs h)

  any-keep : (p q : A → Bool) (xs : List A) → any p (keep q xs) ≡ true → any p xs ≡ true
  any-keep p q [] h = cc
  any-keep p q (x ∷ xs) h = ground (arith, any-keep p q xs)

  -- An item that passes a test, which is in the list: any test that it passes is passed there.
  any-witness :
      (p : A → Bool) (xs : List A)
      → any p xs ≡ true
      → (a : A) × (p a ≡ true) × ((r : A → Bool) → r a ≡ true → any r xs ≡ true)
  any-witness p [] h = cc
  any-witness p (x ∷ xs) h = elim (Bool-cases (p x)) [
    | inl here ↦ (x, here, λ r k. ground (arith, k))
    | inr not_here ↦
        let rest = any-witness p xs (ground arith) in
        (rest.0, rest.1, λ r k. ground (arith, rest.2 r k))
  ]

count_if-map :
    {A : Type 0} {B : Type 0} (p : B → Bool) (f : A → B) (xs : List A)
    → any (λ x. p (f x)) xs ≡ true
    → 1 ≤ count_if p (map f xs)
count_if-map p f [] h = cc
count_if-map p f (x ∷ xs) h = ground (arith, count_if-map p f xs)

-- The rows that currentSuperAdmin counts.
abbrev is_current : Accounts → String → UserRole → Bool
is_current s tenant_id ur =
    is_super s.roles tenant_id ur && ltb 0 (member_count s tenant_id (UserRole.user_id ur))

abbrev is_target : Accounts → String → String → UserRole → Bool
is_target s tenant_id user_id ur = is_super s.roles tenant_id ur && UserRole.user_id ur == user_id

super-rows_for :
    (s : Accounts) (tenant_id user_id : String) (c : Role → Bool)
    → member_count s tenant_id user_id ≡ 1
    → has_super (keep c s.roles) ≡ true
    → 1 ≤ count_if (is_current s tenant_id) (rows_for tenant_id user_id (keep c s.roles))
super-rows_for s tenant_id user_id c m h =
    let w = any-witness (λ r. Role.name r == "super_admin") (keep c s.roles) h in
    let a : Role = w.0 in
    let listed : any (λ r. Role.id r == Role.id a && Role.name r == "super_admin") s.roles ≡ true =
      any-keep (λ r. Role.id r == Role.id a && Role.name r == "super_admin") c s.roles
        (w.2 (λ r. Role.id r == Role.id a && Role.name r == "super_admin") (ground (arith, w.1))) in
    count_if-map (is_current s tenant_id) _ (keep c s.roles) (
      w.2
        (λ r.
          is_current s tenant_id
            (record { tenant_id = tenant_id; user_id = user_id; role_id = Role.id r }))
        (rw (listed, m) (ground arith)))

count-replace_roles :
    (s : Accounts) (tenant_id user_id : String) (roles : List Role)
    → current_super_admins (replace_roles s tenant_id user_id roles) tenant_id
      ≡ count_if
          (is_current s tenant_id)
          (keep (λ ur. not (is_row_of tenant_id user_id ur)) s.user_roles)
        + count_if (is_current s tenant_id) (rows_for tenant_id user_id roles)
unfolding current_super_admins member_count
count-replace_roles s tenant_id user_id roles =
    count_if-append (is_current s tenant_id)
      (keep (λ ur. not (is_row_of tenant_id user_id ur)) s.user_roles)
      (rows_for tenant_id user_id roles)

current-kept :
    (s : Accounts) (tenant_id user_id : String)
    → current_super_admins s tenant_id
      ≤ count_if
          (is_current s tenant_id)
          (keep (λ ur. not (is_row_of tenant_id user_id ur)) s.user_roles)
        + target_super_admin s tenant_id user_id
unfolding current_super_admins target_super_admin
current-kept s tenant_id user_id =
    count_if-keep (is_current s tenant_id) (λ ur. not (is_row_of tenant_id user_id ur))
      (is_target s tenant_id user_id) s.user_roles
      (λ ur h. elim (Bool-cases (is_row_of tenant_id user_id ur)) [
        | inl row ↦ inr (ground arith)
        | inr other ↦ inl (ground arith)
      ])

-- Where a user has the super admin's role at most once in a tenant and some active member has it, as
-- many as one still has it after SetUserRoles has replaced the roles of any user there.
pub set_user_roles-keeps_super :
    (s s' : Accounts) (tenant_id user_id : String) (names : List String)
    → target_super_admin s tenant_id user_id ≤ 1
    → 1 ≤ current_super_admins s tenant_id
    → set_user_roles s tenant_id user_id names ≡ ok s'
    → 1 ≤ current_super_admins s' tenant_id
unfolding set_user_roles
set_user_roles-keeps_super s s' tenant_id user_id names u some_one h =
    let roles = keep (λ r. contains names (Role.name r)) s.roles in
    let a = passed (length names == 0) _ _ h in
    let b = passed (not (member_count s tenant_id user_id == 1)) _ _ a.1 in
    let c = passed (not (length roles == length names)) _ _ b.1 in
    let d = passed (has_super roles && target_super_admin s tenant_id user_id == 0) _ _ c.1 in
    let e =
      passed
        (ltb 0 (target_super_admin s tenant_id user_id)
          && not (ltb 1 (current_super_admins s tenant_id))
          && not (has_super roles))
        _ _ d.1 in
    let left = count-replace_roles s tenant_id user_id roles in
    let kept = current-kept s tenant_id user_id in
    rw (sym (ok_injective e.1)) (elim (Bool-cases (has_super roles)) [
      | inl super ↦ omega (
        arith,
        left,
        super-rows_for s tenant_id user_id (λ r. contains names (Role.name r)) (ground arith) super,
      )
      | inr plain ↦ ground (arith, left, kept, u, some_one, plain, e.0)
    ])

-- The rows that activeSuperAdmins counts.
abbrev is_active_row : Accounts → String → UserRole → Bool
is_active_row s tenant_id ur =
    is_super s.roles tenant_id ur
    && ltb 0 (member_count s tenant_id (UserRole.user_id ur))
    && is_active_user s (UserRole.user_id ur)

abbrev with_status : String → String → User → User
with_status user_id status u = if User.id u == user_id then record u { status = status } else u

active-with_status :
    (other user_id status : String) (users : List User)
    → (status ≡ "active") ⊎ ((other == user_id) ≡ false)
    → any (λ u. User.id u == other && User.status u == "active") users ≡ true
    → any
        (λ u. User.id u == other && User.status u == "active")
        (map (with_status user_id status) users)
      ≡ true
active-with_status other user_id status [] o h = cc
active-with_status other user_id status (u ∷ us) o h =
    ground (arith, active-with_status other user_id status us o)

active-cover :
    (s : Accounts) (tenant_id user_id status : String) (ur : UserRole)
    → (status ≡ "active") ⊎ ((ur.user_id == user_id) ≡ false)
    → is_active_row s tenant_id ur ≡ true
    → is_active_row (record s { users = map (with_status user_id status) s.users }) tenant_id ur
      ≡ true
unfolding member_count
active-cover s tenant_id user_id status ur o h =
    ground (arith, active-with_status (UserRole.user_id ur) user_id status s.users o, h)

count-activated :
    (s : Accounts) (tenant_id user_id status : String)
    → status ≡ "active"
    → active_super_admins s tenant_id
      ≤ active_super_admins
          (record s { users = map (with_status user_id status) s.users })
          tenant_id
unfolding active_super_admins
count-activated s tenant_id user_id status e =
    count_if_mono (is_active_row s tenant_id) _ s.user_roles
      (λ ur. active-cover s tenant_id user_id status ur (inl e))

count-suspended :
    (s : Accounts) (tenant_id user_id status : String)
    → active_super_admins s tenant_id
      ≤ active_super_admins
          (record s { users = map (with_status user_id status) s.users })
          tenant_id
        + target_super_admin s tenant_id user_id
unfolding active_super_admins target_super_admin
count-suspended s tenant_id user_id status =
    count_if-cover (is_active_row s tenant_id) _ (is_target s tenant_id user_id) s.user_roles
      (λ ur h. elim (Bool-cases (UserRole.user_id ur == user_id)) [
        | inl own ↦ inr (ground arith)
        | inr other ↦ inl (active-cover s tenant_id user_id status ur (inr other) h)
      ])

-- Where a user has the super admin's role at most once in a tenant and some active user who is an
-- active member has it, as many as one still has it after SetUserStatus.
pub set_user_status-keeps_super :
    (s s' : Accounts) (tenant_id actor_id user_id status : String)
    → target_super_admin s tenant_id user_id ≤ 1
    → 1 ≤ active_super_admins s tenant_id
    → set_user_status s tenant_id actor_id user_id status ≡ ok s'
    → 1 ≤ active_super_admins s' tenant_id
unfolding set_user_status
set_user_status-keeps_super s s' tenant_id actor_id user_id status u some_one h =
    let a = passed (not (status == "active") && not (status == "suspended")) _ _ h in
    let b = passed (actor_id == user_id && status == "suspended") _ _ a.1 in
    let c = passed (not (member_count s tenant_id user_id == 1)) _ _ b.1 in
    let d =
      passed
        (status == "suspended"
          && ltb 0 (target_super_admin s tenant_id user_id)
          && not (ltb 1 (active_super_admins s tenant_id)))
        _ _ c.1 in
    let e = if-cases (count_if (λ u. User.id u == user_id) s.users == 1) _ _ d.1 in
    elim e [
      | inl (one, done) ↦ rw (sym (ok_injective done)) (elim (Bool-cases (status == "active")) [
        | inl active ↦
            omega (arith, count-activated s tenant_id user_id status (ground arith), some_one)
        | inr inactive ↦
            ground (arith, count-suspended s tenant_id user_id status, u, some_one, a.0, d.0)
      ])
      | inr (_, bad) ↦ cc
    ]
