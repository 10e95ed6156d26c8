-- ===== src/Accounts/Sessions.antt =====
-- The refresh sessions of backend/internal/repository/auth_repository.go over a history of operations.
use nexa_flow.Prelude.{
  ◌≤◌, ◌≡◌, refl, sym, ap, ◌∙◌, inl, inr, Bool, true, false, not, ◌&&◌, List, [], ◌∷◌, ◌++◌, Option,
  none, some, String, Result, ok, err, ◌==◌, if◌then◌else◌, string_eq, nat_eq, arith, passed,
  >>=-eq-ok, ok_injective, Result-cases, Bool-cases, any, count_if, find_first, some_injective, All,
}
use nexa_flow.Prelude.Int.{ℤ}
use nexa_flow.Accounts.Model.{RefreshSession, Accounts, AccessError, session_not_found}
use nexa_flow.Accounts.Grants.{or_error-eq-ok}
use nexa_flow.Accounts.Store.{
  or_error, member_count, create_session, is_unrevoked, is_live, revoke_where, target_or,
  rotate_session, revoke_session, is_own_session, revoke_session_by_id,
}

-- The operations that write the table of sessions.
pub data Command : Type 0 where
  create_one : RefreshSession → Command
  rotate_one : ℤ → String → String → RefreshSession → Command
  revoke_one : ℤ → String → Command
  revoke_by_id : ℤ → String → String → String → Command

abbrev pub written {ℓ} : {A : Type ℓ} → (A → Accounts) → Accounts → Result AccessError A → Accounts
written f s (ok a) = f a
written f s (err e) = s

unfoldable pub exec : Command → Accounts → Accounts
unfolding create_session rotate_session revoke_session revoke_session_by_id
exec (create_one session) s = create_session session s
exec (rotate_one now hash target next) s =
    written (λ r. r.2) s (rotate_session s now hash target next)
exec (revoke_one now hash) s = revoke_session now hash s
exec (revoke_by_id now user_id tenant_id id) s =
    written (λ s'. s') s (revoke_session_by_id now user_id tenant_id id s)

unfoldable pub exec_all : List Command → Accounts → Accounts
exec_all [] s = s
exec_all (c ∷ cs) s = exec_all cs (exec c s)

-- An operation does not bring a session with a hash, as the index on token_hash ensures.
abbrev pub avoids : String → Command → Bool
avoids hash (create_one session) = not (session.token_hash == hash)
avoids hash (rotate_one now old target next) = not (next.token_hash == hash)
avoids hash (revoke_one now other) = true
avoids hash (revoke_by_id now user_id tenant_id id) = true

abbrev IsDead : String → RefreshSession → Type 0
IsDead hash x = (x.token_hash == hash && is_unrevoked x.revoked_at) ≡ false

abbrev AllDead : String → List RefreshSession → Type 0
AllDead hash = All (IsDead hash)

AllDead-append :
    (hash : String) (xs ys : List RefreshSession)
    → AllDead hash xs
    → AllDead hash ys
    → AllDead hash (xs ++ ys)
AllDead-append hash [] ys a b = b
AllDead-append hash (x ∷ xs) ys a b = (a.0, AllDead-append hash xs ys a.1 b)

IsDead-revoked :
    (hash : String) (b : Bool) (now : ℤ) (x : RefreshSession)
    → IsDead hash x
    → IsDead hash (if b then record x { revoked_at = some now } else x)
IsDead-revoked hash true now x d = ground arith
IsDead-revoked hash false now x d = d

AllDead-revoke_where :
    (hash : String) (p : RefreshSession → Bool) (now : ℤ) (xs : List RefreshSession)
    → AllDead hash xs
    → AllDead hash (revoke_where p now xs)
unfolding revoke_where
AllDead-revoke_where hash p now [] d = tt
AllDead-revoke_where hash p now (x ∷ xs) d =
    (IsDead-revoked hash (p x) now x d.0, AllDead-revoke_where hash p now xs d.1)

AllDead-find_first :
    (hash : String) (now : ℤ) (xs : List RefreshSession)
    → AllDead hash xs
    → find_first (is_live now hash) xs ≡ none
AllDead-find_first hash now [] d = refl
AllDead-find_first hash now (x ∷ xs) d = ground (arith, AllDead-find_first hash now xs d.1)

AllDead-count_if :
    (hash : String) (xs : List RefreshSession)
    → count_if (λ x. RefreshSession.token_hash x == hash) xs ≡ 0
    → AllDead hash xs
AllDead-count_if hash [] h = tt
AllDead-count_if hash (x ∷ xs) h = elim (Bool-cases (RefreshSession.token_hash x == hash)) [
  | inl e ↦ absurd (ground (arith, e))
  | inr e ↦ (ground arith, AllDead-count_if hash xs (ground arith))
]

found_here {ℓ} :
    {A : Type ℓ} (p : A → Bool) (x : A) (xs : List A) {c : A}
    → p x ≡ true
    → find_first p (x ∷ xs) ≡ some c
    → x ≡ c
found_here p x xs e f = some_injective (sym (rw e refl) ∙ f)

found_later {ℓ} :
    {A : Type ℓ} (p : A → Bool) (x : A) (xs : List A) {c : A}
    → p x ≡ false
    → find_first p (x ∷ xs) ≡ some c
    → find_first p xs ≡ some c
found_later p x xs e f = sym (rw e refl) ∙ f

none-some {ℓ} : {A : Type ℓ} {a : A} → ◌≡◌ {A = Option A} none (some a) → ⊥
none-some h = cc

IsDead-same :
    (hash : String) (at : ℤ) (x c : RefreshSession)
    → x.id ≡ c.id
    → IsDead hash (if x.id == c.id then record x { revoked_at = some at } else x)
IsDead-same hash at x c e = ground (arith, e)

-- Of the sessions with a hash, rotation finds the only one and revokes it.
AllDead-rotated :
    (hash : String) (now at : ℤ) (xs : List RefreshSession) (c : RefreshSession)
    → count_if (λ x. RefreshSession.token_hash x == hash) xs ≤ 1
    → find_first (is_live now hash) xs ≡ some c
    → AllDead hash (revoke_where (λ x. RefreshSession.id x == c.id) at xs)
unfolding revoke_where
AllDead-rotated hash now at [] c u f = tt
AllDead-rotated hash now at (x ∷ xs) c u f = elim (Bool-cases (is_live now hash x)) [
  | inl live ↦
      let same : x ≡ c = found_here (is_live now hash) x xs live f in
      (
        IsDead-same hash at x c (ap (λ y. RefreshSession.id y) same),
        AllDead-revoke_where hash _ at xs (AllDead-count_if hash xs (ground arith)),
      )
  | inr idle ↦
      let later : find_first (is_live now hash) xs ≡ some c =
        found_later (is_live now hash) x xs idle f in
      elim (Bool-cases (RefreshSession.token_hash x == hash)) [
        | inl e ↦ absurd (
            none-some (
              sym (AllDead-find_first hash now xs (AllDead-count_if hash xs (ground arith)))
              ∙ later))
        | inr e ↦ (
          IsDead-revoked hash (RefreshSession.id x == c.id) at x (ground arith),
          AllDead-rotated hash now at xs c (ground arith) later,
        )
      ]
]

-- What a rotation leaves: the found session revoked and one added.
rotate_session-sessions :
    (s : Accounts) (now : ℤ) (old target : String) (next : RefreshSession)
    {r : String × String × Accounts}
    → rotate_session s now old target next ≡ ok r
    → (c : RefreshSession) × (find_first (is_live now old) s.sessions ≡ some c)
      × ((r.2).sessions
          ≡ revoke_where (λ x. RefreshSession.id x == c.id) now s.sessions
            ++ record next { user_id = c.user_id; tenant_id = target_or target c.tenant_id } ∷ [])
unfolding rotate_session
rotate_session-sessions s now old target next h =
    let step =
      >>=-eq-ok (or_error session_not_found (find_first (is_live now old) s.sessions)) _ h in
    let p =
      passed
        (not (
          member_count s (target_or target (RefreshSession.tenant_id step.0))
            (RefreshSession.user_id step.0)
          == 1))
        _ _ step.2 in
    (
      step.0,
      or_error-eq-ok _ _ step.1,
      ap (λ (r : String × String × Accounts). Accounts.sessions r.2) (sym (ok_injective p.1)),
    )

exec-AllDead :
    (hash : String) (c : Command) (s : Accounts)
    → avoids hash c ≡ true
    → AllDead hash s.sessions
    → AllDead hash (exec c s).sessions
unfolding exec create_session revoke_session revoke_session_by_id
exec-AllDead hash (create_one session) s a d = AllDead-append hash s.sessions _ d (ground arith, tt)
exec-AllDead hash (revoke_one now other) s a d = AllDead-revoke_where hash _ now s.sessions d
exec-AllDead hash (rotate_one now old target next) s a d =
    elim (Result-cases (rotate_session s now old target next)) [
      | inl (r, good) ↦
          let shape = rotate_session-sessions s now old target next good in
          rw (good, shape.2)
            (AllDead-append hash _ _ (AllDead-revoke_where hash _ now s.sessions d)
              (ground arith, tt))
      | inr (e, bad) ↦ rw bad d
    ]
exec-AllDead hash (revoke_by_id now user_id tenant_id id) s a d =
    elim (Bool-cases (any (is_own_session user_id tenant_id id) s.sessions)) [
      | inl own ↦ rw (own, revoke_session_by_id) (AllDead-revoke_where hash _ now s.sessions d)
      | inr none_own ↦ rw (none_own, revoke_session_by_id) d
    ]

exec_all-AllDead :
    (hash : String) (cs : List Command) (s : Accounts)
    → All (λ c. avoids hash c ≡ true) cs
    → AllDead hash s.sessions
    → AllDead hash (exec_all cs s).sessions
unfolding exec_all
exec_all-AllDead hash [] s a d = d
exec_all-AllDead hash (c ∷ cs) s a d =
    exec_all-AllDead hash cs (exec c s) a.1 (exec-AllDead hash c s a.0 d)

-- Once a token has been rotated, and where no two sessions have its hash, then after any sequence of
-- creations, rotations and revocations of other tokens a rotation of it at any time, to any tenant,
-- answers that there is no such session.
pub rotate_session-once :
    (s s' : Accounts) (now later : ℤ) (hash target other user_id tenant_id : String)
    (next another : RefreshSession) (cs : List Command)
    → count_if (λ x. RefreshSession.token_hash x == hash) s.sessions ≤ 1
    → (next.token_hash == hash) ≡ false
    → All (λ c. avoids hash c ≡ true) cs
    → rotate_session s now hash target next ≡ ok (user_id, tenant_id, s')
    → rotate_session (exec_all cs s') later hash other another ≡ err session_not_found
unfolding rotate_session
rotate_session-once s s' now later hash target other user_id tenant_id next another cs u f a h =
    let shape = rotate_session-sessions s now hash target next h in
    let dead : AllDead hash s'.sessions = rw (shape.2) (
      AllDead-append hash _ _ (AllDead-rotated hash now now s.sessions shape.0 u shape.1)
        (ground arith, tt)) in
    rw
      (AllDead-find_first hash later (exec_all cs s').sessions (exec_all-AllDead hash cs s' a dead))
      refl
