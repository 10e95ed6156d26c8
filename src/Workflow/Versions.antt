-- ===== src/Workflow/Versions.antt =====
-- What Start and Advance of backend/internal/repository/workflow_repository.go keep of the instances
-- and the actions on them.
use nexa_flow.Prelude.{
  ℕ, suc, ◌≤◌, ◌≡◌, refl, sym, ap, ◌∙◌, inl, inr, Bool, true, false, ◌&&◌, List, [], ◌∷◌, ◌++◌, any,
  count_if, count_if-last, String, ok, ◌==◌, if◌then◌else◌, string_eq, nat_eq, arith, Bool-cases,
  if-cases, ok_injective, All,
}
use nexa_flow.Prelude.Int.{ℤ, pos, int_eq}
use mathlib.Core.Path.{subst}
use nexa_flow.Workflow.Model.{
  WorkflowInstance, WorkflowAction, WorkflowActionInput, WorkflowTransition, WorkflowDefinition,
  Notification,
}
use nexa_flow.Workflow.Repository.{
  Tables, advance, action_of, count_drawn, start_instance, started, is_instance, is_pending_at,
  moved, move_rows,
}

abbrev pub is_action_of : String → String → WorkflowAction → Bool
is_action_of tenant_id id a = a.tenant_id == tenant_id && a.instance_id == id

-- An instance's version counts the actions on it.
abbrev pub IsCounted : List WorkflowAction → WorkflowInstance → Type 0
IsCounted actions x = x.version ≡ pos (suc (count_if (is_action_of x.tenant_id x.id) actions))

-- No two instances have the same key.
abbrev pub IsKeyed : List WorkflowInstance → Type 0
IsKeyed [] = Unit
IsKeyed (x ∷ xs) = (any (is_instance x.tenant_id x.id) xs ≡ false) × IsKeyed xs

module _ (tenant_id id : String) (version : ℤ) (transition : WorkflowTransition)
    (a : WorkflowAction) where
  abbrev move_row : WorkflowInstance → WorkflowInstance
  move_row x = if is_pending_at tenant_id id version x then moved transition x else x

  other_row-IsCounted :
      (actions : List WorkflowAction) (x : WorkflowInstance)
      → a.tenant_id ≡ tenant_id
      → a.instance_id ≡ id
      → is_instance tenant_id id x ≡ false
      → IsCounted actions x
      → IsCounted (actions ++ a ∷ []) (move_row x)
  other_row-IsCounted actions x t i o c =
      let still : is_pending_at tenant_id id version x ≡ false = rw o refl in
      rw (still, count_if-last (is_action_of x.tenant_id x.id) actions a)
        (ground (arith, t, i, o, c))

  own_row-IsCounted :
      (actions : List WorkflowAction) (x : WorkflowInstance)
      → a.tenant_id ≡ tenant_id
      → a.instance_id ≡ id
      → is_pending_at tenant_id id version x ≡ true
      → IsCounted actions x
      → IsCounted (actions ++ a ∷ []) (move_row x)
  own_row-IsCounted actions x t i p c =
      rw (p, count_if-last (is_action_of x.tenant_id x.id) actions a) (ground (arith, t, i, p, c))

  pending-instance :
      (xs : List WorkflowInstance)
      → any (is_instance tenant_id id) xs ≡ false
      → any (is_pending_at tenant_id id version) xs ≡ false
  pending-instance [] h = refl
  pending-instance (x ∷ xs) h = ground (arith, pending-instance xs)

  others-IsCounted :
      (actions : List WorkflowAction) (xs : List WorkflowInstance)
      → a.tenant_id ≡ tenant_id
      → a.instance_id ≡ id
      → any (is_instance tenant_id id) xs ≡ false
      → All (IsCounted actions) xs
      → All (IsCounted (actions ++ a ∷ [])) (move_rows tenant_id id version transition xs)
  others-IsCounted actions [] t i o c = tt
  others-IsCounted actions (x ∷ xs) t i o c = (
    other_row-IsCounted actions x t i (ground (arith, o)) c.0,
    others-IsCounted actions xs t i (ground (arith, o)) c.1,
  )

  rows-IsCounted :
      (actions : List WorkflowAction) (xs : List WorkflowInstance)
      → a.tenant_id ≡ tenant_id
      → a.instance_id ≡ id
      → IsKeyed xs
      → any (is_pending_at tenant_id id version) xs ≡ true
      → All (IsCounted actions) xs
      → All (IsCounted (actions ++ a ∷ [])) (move_rows tenant_id id version transition xs)
  rows-IsCounted actions [] t i k p c = cc
  rows-IsCounted actions (x ∷ xs) t i k p c = elim (Bool-cases (is_instance tenant_id id x)) [
    | inl own ↦
        let rest : any (is_instance tenant_id id) xs ≡ false = ground (arith, own, k.0) in
        (
          own_row-IsCounted actions x t i (ground (arith, p, pending-instance xs rest)) c.0,
          others-IsCounted actions xs t i rest c.1,
        )
    | inr foreign ↦ (
      other_row-IsCounted actions x t i foreign c.0,
      rows-IsCounted actions xs t i k.1 (ground (arith, foreign, p)) c.1,
    )
  ]

  any-move_rows :
      (t i : String) (xs : List WorkflowInstance)
      → any (is_instance t i) (move_rows tenant_id id version transition xs)
        ≡ any (is_instance t i) xs
  any-move_rows t i [] = refl
  any-move_rows t i (x ∷ xs) = elim (Bool-cases (is_pending_at tenant_id id version x)) [
    | inl p ↦ rw (p, any-move_rows t i xs) refl
    | inr p ↦ rw (p, any-move_rows t i xs) refl
  ]

  move_rows-IsKeyed :
      (xs : List WorkflowInstance)
      → IsKeyed xs
      → IsKeyed (move_rows tenant_id id version transition xs)
  move_rows-IsKeyed [] k = tt
  move_rows-IsKeyed (x ∷ xs) k = elim (Bool-cases (is_pending_at tenant_id id version x)) [
    | inl p ↦ rw p (any-move_rows x.tenant_id x.id xs ∙ k.0, move_rows-IsKeyed xs k.1)
    | inr p ↦ rw p (any-move_rows x.tenant_id x.id xs ∙ k.0, move_rows-IsKeyed xs k.1)
  ]

  any_id-move_rows :
      (i : String) (xs : List WorkflowInstance)
      → any (λ x. WorkflowInstance.id x == i) (move_rows tenant_id id version transition xs)
        ≡ any (λ x. WorkflowInstance.id x == i) xs
  any_id-move_rows i [] = refl
  any_id-move_rows i (x ∷ xs) = elim (Bool-cases (is_pending_at tenant_id id version x)) [
    | inl p ↦ rw (p, any_id-move_rows i xs) refl
    | inr p ↦ rw (p, any_id-move_rows i xs) refl
  ]

  pending-other :
      (i : String) (xs : List WorkflowInstance)
      → any (is_pending_at tenant_id id version) xs ≡ true
      → any (λ x. WorkflowInstance.id x == i) xs ≡ false
      → (id == i) ≡ false
  pending-other i [] p h = cc
  pending-other i (x ∷ xs) p h = ground (arith, pending-other i xs, p, h)

module _ {ℓ} {A : Type ℓ} where
  any-last :
      (p : A → Bool) (xs : List A) (a : A)
      → any p xs ≡ false
      → p a ≡ false
      → any p (xs ++ a ∷ []) ≡ false
  any-last p [] a h k = rw k refl
  any-last p (x ∷ xs) a h k = ground (arith, any-last p xs a)

  All-last : (P : A → Type 0) (xs : List A) (a : A) → All P xs → P a → All P (xs ++ a ∷ [])
  All-last P [] a h k = (k, tt)
  All-last P (x ∷ xs) a h k = (h.0, All-last P xs a h.1 k)

last-IsKeyed :
    (xs : List WorkflowInstance) (y : WorkflowInstance)
    → any (λ x. WorkflowInstance.id x == WorkflowInstance.id y) xs ≡ false
    → IsKeyed xs
    → IsKeyed (xs ++ y ∷ [])
last-IsKeyed [] y h k = (refl, tt)
last-IsKeyed (x ∷ xs) y h k = (
  any-last (is_instance x.tenant_id x.id) xs y k.0 (ground (arith, h)),
  last-IsKeyed xs y (ground (arith, h)) k.1,
)

no_actions :
    (t i : String) (as_ : List WorkflowAction)
    → any (λ a. WorkflowAction.instance_id a == i) as_ ≡ false
    → count_if (is_action_of t i) as_ ≡ 0
no_actions t i [] h = refl
no_actions t i (a ∷ as_) h = ground (arith, no_actions t i as_)

count_drawn-least : (n : ℕ) (xs : List Notification) → n ≤ count_drawn n xs
count_drawn-least n [] = omega arith
count_drawn-least n (x ∷ xs) = omega (arith, count_drawn-least (suc n) xs)

up_to : {a b c : ℕ} → b ≤ c → a ≤ b → a ≤ c
up_to h k = omega arith

step_down : {a b : ℕ} → suc a ≤ b → a ≤ b
step_down h = omega arith

module _ (uuid : ℕ → String) where
  apart : (m n : ℕ) → suc m ≤ n → ((uuid m == uuid n) ≡ true → m ≡ n) → (uuid m == uuid n) ≡ false
  apart m n b d = elim (Bool-cases (uuid m == uuid n)) [
    | inl same ↦ absurd (omega (arith, d same, b))
    | inr other ↦ other
  ]

  -- The ids that are still to be drawn are of no instance.
  abbrev pub IsFresh : Tables → Type 0
  IsFresh s =
      (n : ℕ)
      → s.drawn ≤ n
      → (any (λ x. WorkflowInstance.id x == uuid n) s.instances ≡ false)
        × (any (λ a. WorkflowAction.instance_id a == uuid n) s.actions ≡ false)

  pub record Sound (s : Tables) : Type 0 where
    pub keyed : IsKeyed s.instances
    pub counted : All (IsCounted s.actions) s.instances
    pub fresh : IsFresh s

  pub advance-Sound :
      (s s' : Tables) (t actor_id : String) (instance_ i : WorkflowInstance)
      (input : WorkflowActionInput) (transition : WorkflowTransition)
      → advance uuid s t instance_ actor_id input transition ≡ ok (i, s')
      → Sound s
      → Sound s'
  unfolding advance
  advance-Sound s s' t actor_id instance_ i input transition h sound =
      elim (if-cases (any (is_pending_at t instance_.id input.expected_version) s.instances) _ _
        h) [
          | inl (p, done) ↦
              let a : WorkflowAction = action_of uuid s t instance_ actor_id input in
              let next : Sound _ = record {
                keyed =
                    move_rows-IsKeyed t instance_.id input.expected_version transition a s.instances
                      (Sound.keyed sound);
                counted =
                    rows-IsCounted t instance_.id input.expected_version transition a s.actions
                      s.instances refl refl (Sound.keyed sound) p (Sound.counted sound);
                fresh = λ n most.
                    let old = Sound.fresh sound n (
                      omega
                        (arith, most, count_drawn-least (suc s.drawn) transition.notifications)) in
                    (
                      any_id-move_rows t instance_.id input.expected_version transition a (uuid n)
                            s.instances
                          ∙ old.0,
                      any-last (λ b. WorkflowAction.instance_id b == uuid n) s.actions a old.1
                          (pending-other t instance_.id input.expected_version transition a (uuid n)
                            s.instances p old.0),
                    );
              } in
              subst Sound (ap (λ (r : WorkflowInstance × Tables). r.1) (ok_injective done)) next
          | inr (_, bad) ↦ cc
        ]

  pub start-Sound :
      (s s' : Tables) (t record_id actor_id : String) (definition : WorkflowDefinition)
      (i : WorkflowInstance) (transition : WorkflowTransition)
      → ((m n : ℕ) → (uuid m == uuid n) ≡ true → m ≡ n)
      → start_instance uuid s t definition record_id actor_id transition ≡ ok (i, s')
      → Sound s
      → Sound s'
  unfolding start_instance
  start-Sound s s' t record_id actor_id definition i transition distinct h sound =
      let y : WorkflowInstance = started uuid s t definition record_id actor_id transition in
      let own = Sound.fresh sound s.drawn (omega arith) in
      let next : Sound _ = record {
        keyed = last-IsKeyed s.instances y own.0 (Sound.keyed sound);
        counted =
            All-last (IsCounted s.actions) s.instances y (Sound.counted sound)
              (ap (λ n. pos (suc n)) (sym (no_actions t (uuid s.drawn) s.actions own.1)));
        fresh = λ n most.
            let below : suc s.drawn ≤ n =
              up_to most (count_drawn-least (suc s.drawn) transition.notifications) in
            let old = Sound.fresh sound n (step_down below) in
            (
              any-last (λ x. WorkflowInstance.id x == uuid n) s.instances y old.0
                  (apart s.drawn n below (distinct s.drawn n)),
              old.1,
            );
      } in
      subst Sound (ap (λ (r : WorkflowInstance × Tables). r.1) (ok_injective h)) next

  -- Tables with the same instances and actions, and as many ids drawn or more.
  pub kept-Sound :
      (s s' : Tables)
      → s.instances ≡ s'.instances
      → s.actions ≡ s'.actions
      → s.drawn ≤ s'.drawn
      → Sound s
      → Sound s'
  kept-Sound s s' i a d sound = record {
    keyed = subst IsKeyed i (Sound.keyed sound);
    counted =
        subst (λ as_. All (IsCounted as_) s'.instances) a
          (subst (All (IsCounted s.actions)) i (Sound.counted sound));
    fresh = λ n most.
        let old = Sound.fresh sound n (omega (arith, d, most)) in
        (
          ap (any (λ x. WorkflowInstance.id x == uuid n)) (sym i) ∙ old.0,
          ap (any (λ b. WorkflowAction.instance_id b == uuid n)) (sym a) ∙ old.1,
        );
  }
