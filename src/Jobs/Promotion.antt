-- ===== src/Jobs/Promotion.antt =====
-- promoteScript and reclaimScript put each job back on the list of its own priority.
use nexa_flow.Prelude.{
  ℕ, zero, suc, ◌-◌, ◌≤◌, ◌≡◌, refl, ap, ◌∙◌, List, [], ◌∷◌, ◌++◌, String, some, All, arith, ◌==◌,
  string_eq, nat_eq, keep, get_elem?,
}
use mathlib.Core.List.{append-nil, append_assoc}
use nexa_flow.Prelude.Int.{ℤ}
use nexa_flow.Jobs.Model.{Key, Cell, ready, priorities, ready_keys}
use nexa_flow.Jobs.Redis.{Redis, key_eq}
use nexa_flow.Jobs.Scripts.{push_ready, promote_ids, promote_script}

-- ARGV[10 - priority] is the list of that priority.
ready_keys-index : (p : ℕ) → p ≤ 9 → get_elem? ready_keys (10 - p - 1) ≡ some (ready p)
ready_keys-index zero h = refl
ready_keys-index (suc zero) h = refl
ready_keys-index (suc (suc zero)) h = refl
ready_keys-index (suc (suc (suc zero))) h = refl
ready_keys-index (suc (suc (suc (suc zero)))) h = refl
ready_keys-index (suc (suc (suc (suc (suc zero))))) h = refl
ready_keys-index (suc (suc (suc (suc (suc (suc zero)))))) h = refl
ready_keys-index (suc (suc (suc (suc (suc (suc (suc zero))))))) h = refl
ready_keys-index (suc (suc (suc (suc (suc (suc (suc (suc zero)))))))) h = refl
ready_keys-index (suc (suc (suc (suc (suc (suc (suc (suc (suc zero))))))))) h = refl
ready_keys-index (suc (suc (suc (suc (suc (suc (suc (suc (suc (suc p)))))))))) h =
    absurd (omega arith)

module _ (r : Redis) where
  open r use {Store, list, score, hget, due, rpush, zrem}

  -- A job's stored priority.
  abbrev pub HasPriority : Store → (String → ℕ) → String → Type 0
  HasPriority s pr id = (hget s priorities id ≡ some (Cell.priority (pr id))) × (pr id ≤ 9)

  push_ready-eq :
      (s : Store) (pr : String → ℕ) (id : String)
      → HasPriority s pr id
      → push_ready r (some (pr id)) id s ≡ rpush (ready (pr id)) id s
  push_ready-eq s pr id h = rw (ready_keys-index (pr id) h.1)

  abbrev step : Key → (String → ℕ) → String → Store → Store
  step from pr id s = zrem from id (rpush (ready (pr id)) id s)

  step-HasPriority :
      (from : Key) (pr : String → ℕ) (id : String) (s : Store) (ids : List String)
      → All (HasPriority s pr) ids
      → All (HasPriority (step from pr id s) pr) ids
  step-HasPriority from pr id s [] h = tt
  step-HasPriority from pr id s (i ∷ ids) h = (
    (
      r.hget-zrem from id (rpush (ready (pr id)) id s) priorities i
          ∙ r.hget-rpush (ready (pr id)) id s priorities i
          ∙ h.0.0,
      h.0.1,
    ),
    step-HasPriority from pr id s ids h.1,
  )

  promote_ids-cons :
      (from : Key) (pr : String → ℕ) (id : String) (ids : List String) (s : Store)
      → HasPriority s pr id
      → promote_ids r from (id ∷ ids) s ≡ promote_ids r from ids (step from pr id s)
  unfolding promote_ids
  promote_ids-cons from pr id ids s h = rw h.0 (rw (ready_keys-index (pr id) h.1))

  promote_ids-list :
      (from : Key) (pr : String → ℕ) (p : ℕ) (ids : List String) (s : Store)
      → All (HasPriority s pr) ids
      → list (promote_ids r from ids s) (ready p) ≡ list s (ready p) ++ keep (λ id. pr id == p) ids
  unfolding promote_ids
  promote_ids-list from pr p [] s h = rw append-nil
  promote_ids-list from pr p (id ∷ ids) s h =
      ap (λ t. list t (ready p)) (promote_ids-cons from pr id ids s h.0)
      ∙ promote_ids-list from pr p ids (step from pr id s) (step-HasPriority from pr id s ids h.1)
      ∙ ground (
        arith,
        r.list-zrem from id (rpush (ready (pr id)) id s) (ready p),
        r.list-rpush (ready (pr id)) id s (ready p),
        append_assoc (list s (ready p)) (id ∷ []) (keep (λ i. pr i == p) ids),
      )

  -- When each job that is due in a sorted set has a stored priority of at most 9, those of a
  -- priority go, in their order, to the end of the list of that priority.
  pub promote_script-list :
      (from : Key) (pr : String → ℕ) (now : ℤ) (count p : ℕ) (s : Store)
      → All (HasPriority s pr) (due s from now count)
      → list (promote_script r from now count s) (ready p)
        ≡ list s (ready p) ++ keep (λ id. pr id == p) (due s from now count)
  unfolding promote_script
  promote_script-list from pr now count p s h =
      promote_ids-list from pr p (due s from now count) s h
