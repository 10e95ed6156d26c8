-- ===== src/Workflow/History.antt =====
-- Define, Archive, Start and Act of backend/internal/service/workflow_service.go on the tables of
-- backend/internal/repository/workflow_repository.go, through a history of requests.
use nexa_flow.Prelude.{
  ℕ, ◌≤◌, ◌≡◌, refl, sym, ap, inl, inr, true, not, ◌&&◌, List, [], ◌∷◌, ◌++◌, any, String, Result,
  ok, err, ◌==◌, string_eq, nat_eq, arith, Result-cases, if-cases, passed, >>=-eq-ok, ok_injective,
  All,
}
use nexa_flow.Prelude.Int.{ℤ, pos, ltb_ℤ, int_eq}
use mathlib.Core.Path.{subst}
use nexa_flow.Values.{Dict, Format}
use nexa_flow.Workflow.Model.{
  WorkflowDefinition, DefineWorkflowInput, WorkflowInstance, WorkflowActionInput,
  WorkflowTransition,
}
use nexa_flow.Workflow.Service.{
  WorkflowError, WorkflowRepository, other, normalize, lift_path, define, archive, start, act,
}
use nexa_flow.Workflow.Traversal.{traverse}
use nexa_flow.Workflow.Guards.{Granted, act-Granted, define-validates}
use nexa_flow.Workflow.Repository.{
  Tables, WorkflowRow, workflow_repository, has_slug, is_active_row, at_version, get_workflow,
  define_workflow, archive_workflow, is_pending_at, action_of, advance,
}
use nexa_flow.Workflow.Versions.{IsCounted, IsKeyed, Sound, advance-Sound, start-Sound, kept-Sound}

pub data Call : Type 0 where
  to_define : String → DefineWorkflowInput → Call
  to_archive : String → String → ℤ → Call
  to_start : String → String → String → String → Call
  to_act : String → String → String → List String → WorkflowActionInput → Call

abbrev pub left_by {ℓ} : {A : Type ℓ} → (A → Tables) → Tables → Result WorkflowError A → Tables
left_by f s (ok a) = f a
left_by f s (err e) = s

abbrev pub no_rows : Tables
no_rows = record { workflows = []; instances = []; actions = []; notifications = []; drawn = 0 }

abbrev Kept : Tables → Tables → Type 0
Kept s s' = (s.instances ≡ s'.instances) × (s.actions ≡ s'.actions) × (s.drawn ≤ s'.drawn)

module _ (uuid : ℕ → String) (to_lower : String → String) (fmt : Format)
    (model_get : Tables → String → String → Result WorkflowError (Unit {0}))
    (record_get : Tables → String → String → String → Result WorkflowError Dict) where
  abbrev pub repository : WorkflowRepository Tables
  repository = workflow_repository uuid model_get record_get

  -- The tables after a request; one that fails leaves them as they were.
  unfoldable pub serve : Call → Tables → Tables
  unfolding define archive start act
  serve (to_define t input) s = left_by (λ r. r.1) s (define repository to_lower s t input)
  serve (to_archive t id version) s = left_by (λ s'. s') s (archive repository s t id version)
  serve (to_start t workflow_id record_id actor_id) s =
      left_by (λ r. r.1) s (start repository fmt s t workflow_id record_id actor_id)
  serve (to_act t id actor_id roles input) s =
      left_by (λ r. r.1) s (act repository fmt s t id actor_id roles input)

  unfoldable pub serve_all : List Call → Tables → Tables
  serve_all [] s = s
  serve_all (r ∷ rs) s = serve_all rs (serve r s)

  pub advance-actions :
      (s s' : Tables) (t actor_id : String) (instance_ i : WorkflowInstance)
      (input : WorkflowActionInput) (transition : WorkflowTransition)
      → advance uuid s t instance_ actor_id input transition ≡ ok (i, s')
      → s'.actions ≡ s.actions ++ action_of uuid s t instance_ actor_id input ∷ []
  unfolding advance
  advance-actions s s' t actor_id instance_ i input transition h =
      elim (if-cases (any (is_pending_at t instance_.id input.expected_version) s.instances) _ _
        h) [
          | inl (_, done) ↦
              sym (ap (λ (r : WorkflowInstance × Tables). Tables.actions r.1) (ok_injective done))
          | inr (_, bad) ↦ cc
        ]

  pub define_workflow-Kept :
      (s s' : Tables) (t : String) (input : DefineWorkflowInput) (w : WorkflowDefinition)
      → define_workflow uuid s t input ≡ ok (w, s')
      → Kept s s'
  unfolding define_workflow
  define_workflow-Kept s s' t input w h = elim (if-cases (input.id == "") _ _ h) [
    | inl (_, k) ↦
        let p = passed (any (has_slug t input.slug) s.workflows) _ _ k in
        subst (Kept s) (ap (λ (r : WorkflowDefinition × Tables). r.1) (ok_injective p.1))
          (refl, refl, omega arith)
    | inr (_, k) ↦
        let found = >>=-eq-ok (get_workflow s t input.id) _ k in
        let workflow : WorkflowDefinition = found.0 in
        let a = passed (not (workflow.version == input.expected_version)) _ _ found.2 in
        let b = passed (not (workflow.entity_id == input.entity_id)) _ _ a.1 in
        let c =
          passed
            (any
              (λ row.
                has_slug t input.slug row
                && not (WorkflowDefinition.id (WorkflowRow.workflow row) == input.id))
              s.workflows)
            _ _ b.1 in
        subst (Kept s) (ap (λ (r : WorkflowDefinition × Tables). r.1) (ok_injective c.1))
          (refl, refl, omega arith)
  ]

  pub archive_workflow-Kept :
      (s s' : Tables) (t id : String) (version : ℤ)
      → archive_workflow s t id version ≡ ok s'
      → Kept s s'
  unfolding archive_workflow
  archive_workflow-Kept s s' t id version h =
      elim (if-cases (any (at_version t id version) s.workflows) _ _ h) [
        | inl (_, k) ↦ subst (Kept s) (ok_injective k) (refl, refl, omega arith)
        | inr (_, k) ↦
            elim (if-cases (any (is_active_row t id) s.workflows)
              (err (other "workflow version conflict")) (err (other "workflow not found")) k) [
                | inl (_, bad) ↦ cc
                | inr (_, bad) ↦ cc
              ]
      ]

  serve-Sound :
      ((m n : ℕ) → (uuid m == uuid n) ≡ true → m ≡ n)
      → (r : Call) (s : Tables) → Sound uuid s
      → Sound uuid (serve r s)
  unfolding serve start archive
  serve-Sound distinct (to_act t id actor_id roles input) s sound =
      elim (Result-cases (act repository fmt s t id actor_id roles input)) [
        | inl (r, good) ↦
            let g = act-Granted repository fmt s t id actor_id roles input r good in
            rw good (
              advance-Sound uuid s r.1 t actor_id (Granted.was g) r.0 input (Granted.transition g)
                (Granted.written g) sound)
        | inr (e, bad) ↦ rw bad sound
      ]
  serve-Sound distinct (to_start t workflow_id record_id actor_id) s sound =
      elim (Result-cases (start repository fmt s t workflow_id record_id actor_id)) [
        | inl (r, good) ↦
            let (definition, _, h1) = >>=-eq-ok (get_workflow s t workflow_id) _ good in
            let (values, _, h2) = >>=-eq-ok (record_get s t definition.entity_id record_id) _ h1 in
            let (transition, _, h3) =
              >>=-eq-ok (lift_path (traverse fmt definition "" values actor_id)) _ h2 in
            rw good (
              start-Sound uuid s r.1 t record_id actor_id definition r.0 transition distinct h3
                sound)
        | inr (e, bad) ↦ rw bad sound
      ]
  serve-Sound distinct (to_archive t id version) s sound =
      elim (Result-cases (archive repository s t id version)) [
        | inl (s', good) ↦
            let k =
              archive_workflow-Kept s s' t id version (passed (ltb_ℤ version (pos 1)) _ _ good).1 in
            rw good (kept-Sound uuid s s' k.0 k.1 k.2 sound)
        | inr (e, bad) ↦ rw bad sound
      ]
  serve-Sound distinct (to_define t input) s sound =
      elim (Result-cases (define repository to_lower s t input)) [
        | inl (r, good) ↦
            let v = define-validates repository to_lower s t input r good in
            let k = define_workflow-Kept s r.1 t (normalize to_lower input) r.0 v.2 in
            rw good (kept-Sound uuid s r.1 k.0 k.1 k.2 sound)
        | inr (e, bad) ↦ rw bad sound
      ]

  pub serve_all-Sound :
      ((m n : ℕ) → (uuid m == uuid n) ≡ true → m ≡ n)
      → (rs : List Call) (s : Tables) → Sound uuid s
      → Sound uuid (serve_all rs s)
  unfolding serve_all
  serve_all-Sound distinct [] s sound = sound
  serve_all-Sound distinct (r ∷ rs) s sound =
      serve_all-Sound distinct rs (serve r s) (serve-Sound distinct r s sound)

  pub no_rows-Sound : Sound uuid no_rows
  no_rows-Sound = record { keyed = tt; counted = tt; fresh = λ n most. (refl, refl) }

  -- Where no id is drawn twice, after any requests to define, to archive, to start and to act, from
  -- empty tables on, no two instances have the same tenant and id, and each instance's version is one
  -- more than the actions that are recorded on it.
  pub serve_all-counted :
      ((m n : ℕ) → (uuid m == uuid n) ≡ true → m ≡ n)
      → (rs : List Call)
      → IsKeyed (serve_all rs no_rows).instances
        × All (IsCounted (serve_all rs no_rows).actions) (serve_all rs no_rows).instances
  serve_all-counted distinct rs =
      let sound = serve_all-Sound distinct rs no_rows no_rows-Sound in
      (Sound.keyed sound, Sound.counted sound)
