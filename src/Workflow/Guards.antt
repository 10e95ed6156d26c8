-- ===== src/Workflow/Guards.antt =====
-- What an action on a workflow instance requires, and what a saved definition satisfies.
use nexa_flow.Prelude.{
  ◌∙◌, String_discrete, if◌then◌else◌, sym, ap, [], inl, inr, ◌>>=◌, ok_injective, ◌≡◌, refl, ◌⊎◌,
  true, false, not, ◌&&◌, ◌||◌, List, Option, none, some, String, Result, ok, err, >>=-eq-ok,
  passed, guarded, ◌==◌, string_eq, arith,
}
use nexa_flow.Prelude.Int.{pos, ltb_ℤ, int_eq}
use nexa_flow.Values.{Dict, Format}
use nexa_flow.Workflow.Model.{
  WorkflowNode, WorkflowDefinition, DefineWorkflowInput, WorkflowInstance, WorkflowActionInput,
  WorkflowTransition,
}
use nexa_flow.Workflow.Validation.{GraphError, validate_workflow_graph}
use nexa_flow.Workflow.Traversal.{TraverseError, find_node, has_role, traverse}
use nexa_flow.Workflow.Service.{
  WorkflowError, WorkflowRepository, lift_path, required_role, authorize, decide, act, lift_graph,
  define, check_entity, normalize, bad_names,
}

lift_graph-ok : (m : Result GraphError (Unit {0})) {u : Unit {0}} → lift_graph m ≡ ok u → m ≡ ok tt
unfolding lift_graph
lift_graph-ok (ok tt) h = refl
lift_graph-ok (err e) h = cc

authorize-ok :
    (roles : List String) (found : Option WorkflowNode) {node : WorkflowNode}
    → authorize roles found ≡ ok node
    → (found ≡ some node)
      × (node.type ≡ "approval")
      × ((required_role node ≡ "")
          ⊎ (has_role roles (required_role node) ≡ true)
          ⊎ (has_role roles "super_admin" ≡ true))
unfolding authorize
authorize-ok roles none h = cc
authorize-ok roles (some n) {node} h =
    let e : n ≡ node = ground arith in rw (← e) (refl, ground arith, ground arith)

lift_path-ok :
    (m : Result TraverseError WorkflowTransition) {t : WorkflowTransition}
    → lift_path m ≡ ok t
    → m ≡ ok t
unfolding lift_path
lift_path-ok (ok t) h = ap ok (ok_injective h)
lift_path-ok (err e) h = cc

module _ {S : Type 0} (repo : WorkflowRepository S) where
  rejects {ℓ} :
      {A : Type ℓ} (id action : String)
      → action ≡ "reject"
      → (x y : A) → (if action == "approve" then x else y) ≡ y
  unfolding String_discrete
  rejects id action h x y = rw h refl

  -- What the action of an approval or a rejection comes to.
  abbrev pub Decided :
      Format
      → S
      → String
      → WorkflowInstance
      → WorkflowDefinition
      → WorkflowNode
      → String
      → WorkflowTransition
      → Type 0
  Decided fmt s tenant_id was definition node action transition =
      ((action ≡ "reject")
        × (transition.current_node_id ≡ node.id)
        × (transition.status ≡ "rejected")
        × (transition.notifications ≡ []))
      ⊎ ((action ≡ "approve")
          × ((values : Dict) × (repo.record_get s tenant_id was.entity_id was.record_id ≡ ok values)
              × (traverse fmt definition node.id values was.submitted_by ≡ ok transition)))

  decide-Decided :
      (fmt : Format) (s : S) (tenant_id : String) (was : WorkflowInstance)
      (definition : WorkflowDefinition) (node : WorkflowNode) (action : String)
      (transition : WorkflowTransition)
      → (action ≡ "approve") ⊎ (action ≡ "reject")
      → decide repo fmt s tenant_id was definition node action ≡ ok transition
      → Decided fmt s tenant_id was definition node action transition
  unfolding decide
  decide-Decided fmt s tenant_id was definition node action transition (inl approved) h =
      let approval : (repo.record_get s tenant_id was.entity_id was.record_id >>= λ values.
      lift_path (traverse fmt definition node.id values was.submitted_by))
          ≡ ok transition =
        ground (arith, approved, h) in
      let (values, e, k) =
        >>=-eq-ok (repo.record_get s tenant_id was.entity_id was.record_id) _ approval in
      inr (approved, (values, e, lift_path-ok _ k))
  decide-Decided fmt s tenant_id was definition node action transition (inr rejected) h =
      let stay : WorkflowTransition = record {
        current_node_id = node.id;
        status = "rejected";
        notifications = [];
      } in
      let answer : ◌≡◌ {A = Result WorkflowError WorkflowTransition} (ok stay) (ok transition) =
        sym (rejects node.id action rejected _ _) ∙ h in
      let e : stay ≡ transition = ok_injective answer in
      inl (
        rejected,
        ap (λ t. WorkflowTransition.current_node_id t) (sym e),
        ap (λ t. WorkflowTransition.status t) (sym e),
        ap (λ t. WorkflowTransition.notifications t) (sym e),
      )

  -- The grounds on which an action is carried out, and the write that it makes.
  pub record Granted (fmt : Format) (s : S) (tenant_id instance_id actor_id : String)
      (roles : List String) (input : WorkflowActionInput) (result : WorkflowInstance × S)
      : Type 0 where
    pub was : WorkflowInstance
    pub definition : WorkflowDefinition
    pub node : WorkflowNode
    pub transition : WorkflowTransition
    pub action : (input.action ≡ "approve") ⊎ (input.action ≡ "reject")
    pub loaded : repo.get_instance s tenant_id instance_id ≡ ok was
    pub pending : was.status ≡ "pending"
    pub current : was.version ≡ input.expected_version
    pub defined : repo.get s tenant_id was.workflow_id ≡ ok definition
    pub at : find_node definition.nodes was.current_node_id ≡ some node
    pub approval : node.type ≡ "approval"
    pub allowed :
        (required_role node ≡ "")
        ⊎ (has_role roles (required_role node) ≡ true)
        ⊎ (has_role roles "super_admin" ≡ true)
    pub decided : Decided fmt s tenant_id was definition node input.action transition
    pub written : repo.advance s tenant_id was actor_id input transition ≡ ok result

  -- An action that succeeds was an approval or a rejection of the pending instance in the version
  -- that the caller saw, at an approval node; the caller holds the role that the node names or
  -- `super_admin`, or the node names no role. What it writes, by one call of the repository, is for a
  -- rejection the stay at the node as rejected, without notifications, and for an approval what the
  -- traversal from the node answers on the record's values.
  pub act-Granted :
      (fmt : Format) (s : S) (tenant_id instance_id actor_id : String) (roles : List String)
      (input : WorkflowActionInput) (result : WorkflowInstance × S)
      → act repo fmt s tenant_id instance_id actor_id roles input ≡ ok result
      → Granted fmt s tenant_id instance_id actor_id roles input result
  unfolding act
  act-Granted fmt s tenant_id instance_id actor_id roles input result h =
      let (b, h0) =
        passed
          (ltb_ℤ input.expected_version (pos 1)
            || (not (input.action == "approve") && not (input.action == "reject")))
          _ _ h in
      let (was, e1, h1) = >>=-eq-ok (repo.get_instance s tenant_id instance_id) _ h0 in
      let (g, h2) =
        guarded (was.status == "pending" && was.version == input.expected_version) _ _ h1 in
      let (definition, e3, h3) = >>=-eq-ok (repo.get s tenant_id was.workflow_id) _ h2 in
      let (node, e4, h4) =
        >>=-eq-ok (authorize roles (find_node definition.nodes was.current_node_id)) _ h3 in
      let (transition, e5, h5) =
        >>=-eq-ok (decide repo fmt s tenant_id was definition node input.action) _ h4 in
      let (found, kind, allowed) = authorize-ok roles _ e4 in
      record {
        was = was;
        definition = definition;
        node = node;
        transition = transition;
        action = ground arith;
        loaded = e1;
        pending = ground arith;
        current = ground arith;
        defined = e3;
        at = found;
        approval = kind;
        allowed = allowed;
        decided =
            decide-Decided fmt s tenant_id was definition node input.action transition
              (ground arith) e5;
        written = h5;
      }

  -- A definition that is saved has a graph that the validation accepts, and names within their bounds.
  pub define-validates :
      (to_lower : String → String) (s : S) (tenant_id : String) (input : DefineWorkflowInput)
      (result : WorkflowDefinition × S)
      → define repo to_lower s tenant_id input ≡ ok result
      → (bad_names (normalize to_lower input) ≡ false)
        × (validate_workflow_graph input.nodes input.edges ≡ ok tt)
        × (repo.define s tenant_id (normalize to_lower input) ≡ ok result)
  unfolding define
  define-validates to_lower s tenant_id input result h =
      let (b, h0) = passed (bad_names (normalize to_lower input)) _ _ h in
      let (c, h1) = passed (not (input.id == "") && ltb_ℤ input.expected_version (pos 1)) _ _ h0 in
      let (_, _, h2) = >>=-eq-ok (check_entity repo s tenant_id (normalize to_lower input)) _ h1 in
      let (_, _, h3) = >>=-eq-ok (repo.model_get s tenant_id input.entity_id) _ h2 in
      let (_, v, h4) =
        >>=-eq-ok (lift_graph (validate_workflow_graph input.nodes input.edges)) _ h3 in
      (b, lift_graph-ok _ v, h4)
