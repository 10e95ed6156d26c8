-- ===== src/Workflow/Once.antt =====
-- Actions on one instance through a history of requests: Act of
-- backend/internal/service/workflow_service.go on the tables of
-- backend/internal/repository/workflow_repository.go.
use nexa_flow.Prelude.{
  ℕ, suc, ◌≤◌, ◌≡◌, refl, sym, ap, ◌∙◌, inl, inr, true, List, [], ◌∷◌, ◌++◌, count_if,
  count_if-last, find_first, find_first-holds, All-find_first, Option, none, some, String, Result,
  ok, err, ◌==◌, if◌then◌else◌, string_eq, nat_eq, arith, Result-cases, passed, >>=-eq-ok,
  ok_injective,
}
use nexa_flow.Prelude.Int.{pos, pos_part, ltb_ℤ, int_eq}
use mathlib.Core.Path.{subst}
use nexa_flow.Values.{Dict, Format}
use nexa_flow.Workflow.Model.{WorkflowInstance, WorkflowAction, WorkflowActionInput}
use nexa_flow.Workflow.Service.{WorkflowError, normalize, lift_path, define, archive, start, act}
use nexa_flow.Workflow.Traversal.{traverse}
use nexa_flow.Workflow.Guards.{Granted, act-Granted, define-validates}
use nexa_flow.Workflow.Repository.{
  Tables, get_workflow, is_instance, get_instance, start_instance, action_of, or_fail,
}
use nexa_flow.Workflow.Versions.{is_action_of, IsCounted, Sound, advance-Sound}
use nexa_flow.Workflow.History.{
  Call, to_define, to_archive, to_start, to_act, no_rows, repository, serve, serve_all,
  advance-actions, define_workflow-Kept, archive_workflow-Kept, serve_all-Sound, no_rows-Sound,
}

or_fail-eq-ok {ℓ} :
    {A : Type ℓ} (message : String) (o : Option A) {a : A} → or_fail message o ≡ ok a → o ≡ some a
or_fail-eq-ok message none h = cc
or_fail-eq-ok message (some b) h = cc

more :
    (t id : String) (xs : List WorkflowAction) (a : WorkflowAction)
    → count_if (is_action_of t id) xs ≤ count_if (is_action_of t id) (xs ++ a ∷ [])
more t id [] a = omega arith
more t id (x ∷ xs) a = ground (arith, more t id xs a)

same_count :
    (t id : String) {xs ys : List WorkflowAction}
    → xs ≡ ys
    → count_if (is_action_of t id) xs ≤ count_if (is_action_of t id) ys
same_count t id {xs} e =
    subst (λ zs. count_if (is_action_of t id) xs ≤ count_if (is_action_of t id) zs) e (omega arith)

module _ (uuid : ℕ → String) (to_lower : String → String) (fmt : Format)
    (model_get : Tables → String → String → Result WorkflowError (Unit {0}))
    (record_get : Tables → String → String → String → Result WorkflowError Dict) where
  -- The actions on an instance, by number.
  abbrev acted : String → String → Tables → ℕ
  acted t id s = count_if (is_action_of t id) s.actions

  serve-acted :
      (t id : String) (r : Call) (s : Tables)
      → acted t id s ≤ acted t id (serve uuid to_lower fmt model_get record_get r s)
  unfolding serve start archive start_instance
  serve-acted t id (to_act t' id' actor_id roles input) s =
      elim (Result-cases (
        act (repository uuid to_lower fmt model_get record_get) fmt s t' id' actor_id roles
          input)) [
            | inl (r, good) ↦
                let g =
                  act-Granted (repository uuid to_lower fmt model_get record_get) fmt s t' id'
                    actor_id roles input r good in
                let a =
                  advance-actions uuid to_lower fmt model_get record_get s r.1 t' actor_id
                    (Granted.was g) r.0 input (Granted.transition g) (Granted.written g) in
                rw (good, a)
                  (more t id s.actions (action_of uuid s t' (Granted.was g) actor_id input))
            | inr (e, bad) ↦ rw bad (omega arith)
          ]
  serve-acted t id (to_start t' workflow_id record_id actor_id) s =
      elim (Result-cases (
        start (repository uuid to_lower fmt model_get record_get) fmt s t' workflow_id record_id
          actor_id)) [
            | inl (r, good) ↦
                let (definition, _, h1) = >>=-eq-ok (get_workflow s t' workflow_id) _ good in
                let (values, _, h2) =
                  >>=-eq-ok (record_get s t' definition.entity_id record_id) _ h1 in
                let (transition, _, h3) =
                  >>=-eq-ok (lift_path (traverse fmt definition "" values actor_id)) _ h2 in
                rw good (
                  same_count t id
                    (ap (λ (x : WorkflowInstance × Tables). Tables.actions x.1) (ok_injective h3)))
            | inr (e, bad) ↦ rw bad (omega arith)
          ]
  serve-acted t id (to_archive t' id' version) s =
      elim (Result-cases
        (archive (repository uuid to_lower fmt model_get record_get) s t' id' version)) [
          | inl (s', good) ↦
              let k =
                archive_workflow-Kept uuid to_lower fmt model_get record_get s s' t' id' version
                  (passed (ltb_ℤ version (pos 1)) _ _ good).1 in
              rw good (same_count t id k.1)
          | inr (e, bad) ↦ rw bad (omega arith)
        ]
  serve-acted t id (to_define t' input) s =
      elim (Result-cases
        (define (repository uuid to_lower fmt model_get record_get) to_lower s t' input)) [
          | inl (r, good) ↦
              let v =
                define-validates (repository uuid to_lower fmt model_get record_get) to_lower s t'
                  input r good in
              let k =
                define_workflow-Kept uuid to_lower fmt model_get record_get s r.1 t'
                  (normalize to_lower input) r.0 v.2 in
              rw good (same_count t id k.1)
          | inr (e, bad) ↦ rw bad (omega arith)
        ]

  serve_all-acted :
      (t id : String) (rs : List Call) (s : Tables)
      → acted t id s ≤ acted t id (serve_all uuid to_lower fmt model_get record_get rs s)
  unfolding serve_all
  serve_all-acted t id [] s = omega arith
  serve_all-acted t id (r ∷ rs) s = omega (
    arith,
    serve-acted t id r s,
    serve_all-acted t id rs (serve uuid to_lower fmt model_get record_get r s),
  )

  action_here :
      (t id : String) (a : WorkflowAction)
      → a.tenant_id ≡ t
      → a.instance_id ≡ id
      → is_action_of t id a ≡ true
  action_here t id a p q = ground (arith, p, q)

  -- In sound tables, an action that succeeds was asked at the version that the actions give.
  act-version :
      (s : Tables) (t id actor_id : String) (roles : List String) (input : WorkflowActionInput)
      (r : WorkflowInstance × Tables)
      → Sound uuid s
      → act (repository uuid to_lower fmt model_get record_get) fmt s t id actor_id roles input
        ≡ ok r
      → (input.expected_version ≡ pos (suc (acted t id s))) × (acted t id r.1 ≡ suc (acted t id s))
  unfolding get_instance
  act-version s t id actor_id roles input r sound h =
      let g =
        act-Granted (repository uuid to_lower fmt model_get record_get) fmt s t id actor_id roles
          input r h in
      let was : WorkflowInstance = Granted.was g in
      let found : find_first (is_instance t id) s.instances ≡ some was =
        or_fail-eq-ok _ _ (Granted.loaded g) in
      let key = find_first-holds (is_instance t id) s.instances was found in
      let own_t : WorkflowInstance.tenant_id was ≡ t = ground (arith, key) in
      let own_id : WorkflowInstance.id was ≡ id = ground (arith, key) in
      let c : WorkflowInstance.version was
          ≡ pos (
              suc (
                count_if (is_action_of (WorkflowInstance.tenant_id was) (WorkflowInstance.id was))
                  s.actions)) =
        All-find_first (IsCounted s.actions) (is_instance t id) s.instances was
          (Sound.counted sound) found in
      let a =
        advance-actions uuid to_lower fmt model_get record_get s r.1 t actor_id was r.0 input
          (Granted.transition g) (Granted.written g) in
      let b : WorkflowAction = action_of uuid s t was actor_id input in
      (
        sym (Granted.current g)
            ∙ c
            ∙ ap (λ u. pos (suc (count_if (is_action_of u (WorkflowInstance.id was)) s.actions)))
                own_t
            ∙ ap (λ u. pos (suc (count_if (is_action_of t u) s.actions))) own_id,
        ap (count_if (is_action_of t id)) a
            ∙ count_if-last (is_action_of t id) s.actions b
            ∙ ap (λ x. if x then suc (acted t id s) else acted t id s)
                (action_here t id b refl own_id),
      )

  -- Where no id is drawn twice: once an action on an instance has succeeded, in tables that requests
  -- have left, then after any further requests an action on it that expects the same version, of
  -- whomever and whatever, fails.
  pub act-once :
      ((m n : ℕ) → (uuid m == uuid n) ≡ true → m ≡ n)
      → (qs rs : List Call)
      → (t id actor_id other_actor : String) (roles other_roles : List String)
        (input again : WorkflowActionInput)
      → (r : WorkflowInstance × Tables)
      → act
          (repository uuid to_lower fmt model_get record_get)
          fmt
          (serve_all uuid to_lower fmt model_get record_get qs no_rows)
          t
          id
          actor_id
          roles
          input
        ≡ ok r
      → again.expected_version ≡ input.expected_version
      → (e : WorkflowError) × (act
            (repository uuid to_lower fmt model_get record_get)
            fmt
            (serve_all uuid to_lower fmt model_get record_get rs r.1)
            t
            id
            other_actor
            other_roles
            again
          ≡ err e)
  act-once distinct qs rs t id actor_id other_actor roles other_roles input again r h same =
      elim (Result-cases (
        act (repository uuid to_lower fmt model_get record_get) fmt
          (serve_all uuid to_lower fmt model_get record_get rs r.1) t id other_actor other_roles
          again)) [
            | inl (r', good) ↦
                let s = serve_all uuid to_lower fmt model_get record_get qs no_rows in
                let sound =
                  serve_all-Sound uuid to_lower fmt model_get record_get distinct qs no_rows
                    (no_rows-Sound uuid to_lower fmt model_get record_get) in
                let g =
                  act-Granted (repository uuid to_lower fmt model_get record_get) fmt s t id
                    actor_id roles input r h in
                let next =
                  advance-Sound uuid s r.1 t actor_id (Granted.was g) r.0 input
                    (Granted.transition g) (Granted.written g) sound in
                let v = act-version s t id actor_id roles input r sound h in
                let v' =
                  act-version (serve_all uuid to_lower fmt model_get record_get rs r.1) t id
                    other_actor other_roles again r'
                    (serve_all-Sound uuid to_lower fmt model_get record_get distinct rs r.1 next)
                    good in
                absurd (
                  omega (
                    arith,
                    ap pos_part (sym v.0 ∙ sym same ∙ v'.0),
                    v.1,
                    serve_all-acted t id rs r.1,
                  ))
            | inr (e, bad) ↦ (e, bad)
          ]
