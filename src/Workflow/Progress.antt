-- ===== src/Workflow/Progress.antt =====
-- Traversal of an accepted graph: it never runs into its limit, and it comes to rest at an approval
-- or an end node.
use nexa_flow.Prelude.{
  ℕ, zero, suc, ◌<◌, ◌≡◌, refl, ◌≢◌, ◌⊎◌, ap, inl, inr, true, not, ◌&&◌, List, [], ◌∷◌, none, some,
  Option-cases, String, ok, Bool-cases, contains, All, arith, string_eq, nat_eq, ◌==◌,
}
use nexa_flow.Values.{Dict, Format}
use nexa_flow.Workflow.Model.{
  WorkflowNode, WorkflowEdge, WorkflowDefinition, WorkflowTransition, Notification,
}
use nexa_flow.Workflow.Traversal.{
  no_matching_path, Round, stop, fail, go_on, find_node, candidates, choose_edge, round,
  traverse_loop, sent_after,
}
use nexa_flow.Workflow.Scans.{ids}
use nexa_flow.Workflow.Choice.{
  find_node-All, find_node-ids, choose_edge-All, IsDetermined, choose_edge-IsDetermined,
}
use nexa_flow.Workflow.Acyclic.{IsAcyclic}

-- Where a traversal rests.
pub record IsResting (nodes : List WorkflowNode) (t : WorkflowTransition) : Type 0 where
  pub node : WorkflowNode
  pub here : find_node nodes t.current_node_id ≡ some node
  pub kind :
      ((t.status ≡ "pending") × (node.type ≡ "approval"))
      ⊎ ((t.status ≡ "completed") × (node.type ≡ "end"))

module _ (fmt : Format) (def : WorkflowDefinition) (after : String) (values : Dict)
    (actor_id : String) where
  module _ (current : String) (sent : List Notification) (node : WorkflowNode) where
    abbrev Outcome : Round → Type 0
    Outcome r =
        ((t : WorkflowTransition) × (r ≡ stop t) × IsResting def.nodes t)
        ⊎ ((node.type ≢ "end")
            × (choose_edge fmt node def.edges values ≡ none)
            × (r ≡ fail (no_matching_path current)))
        ⊎ ((e : WorkflowEdge) × (sent' : List Notification) × (choose_edge fmt node def.edges values
              ≡ some e)
            × (r ≡ go_on e.to sent'))

    -- What a round does at a node that is there.
    round-Outcome :
        find_node def.nodes current ≡ some node
        → Outcome (round fmt def after values actor_id current sent)
    unfolding round
    round-Outcome h = rw h (elim (Bool-cases (node.type == "approval" && not (current == after))) [
      | inl a ↦ inl (
        record { current_node_id = current; status = "pending"; notifications = sent },
        rw a,
        record { node = node; here = h; kind = inl (refl, ground arith) },
      )
      | inr a ↦ elim (Bool-cases (node.type == "end")) [
        | inl b ↦ inl (
          record { current_node_id = current; status = "completed"; notifications = sent },
          rw (a, b),
          record { node = node; here = h; kind = inr (refl, ground arith) },
        )
        | inr b ↦ elim (Option-cases (choose_edge fmt node def.edges values)) [
          | inl c ↦ inr (inl ((λ p. ground arith), c, rw (a, b, c)))
          | inr (e, c) ↦ inr (inr (e, sent_after node actor_id sent, c, rw (a, b, c)))
        ]
      ]
    ])

-- The edges of a node lead to known nodes with a smaller number.
module _ (nodes : List WorkflowNode) (number : String → ℕ) where
  abbrev Lower : ℕ → WorkflowEdge → Type 0
  Lower n e = (number e.to < n) × (contains (ids nodes) e.to ≡ true)

  candidates-Lower :
      (a : String) (es : List WorkflowEdge)
      → All (λ e. number e.to < number e.from) es
      → All (λ e. contains (ids nodes) e.to ≡ true) es
      → All (Lower (number a)) (candidates a es)
  candidates-Lower a [] f j = tt
  candidates-Lower a (e ∷ es) f j = ground (arith, candidates-Lower a es f.1 j.1)

module _ (fmt : Format) (def : WorkflowDefinition) (after : String) (values : Dict)
    (actor_id : String) (acyclic : IsAcyclic def.nodes def.edges)
    (joined : All (λ e. contains (ids def.nodes) e.to ≡ true) def.edges) where
  pub traverse_loop-total :
      (rounds : ℕ) (current : String) (sent : List Notification)
      → All (IsDetermined def.edges) def.nodes
      → contains (ids def.nodes) current ≡ true
      → acyclic.number current < rounds
      → (t : WorkflowTransition) × (traverse_loop fmt def after values actor_id rounds current sent
          ≡ ok t)
        × IsResting def.nodes t
  unfolding traverse_loop
  traverse_loop-total zero current sent d k h = absurd (omega arith)
  traverse_loop-total (suc rounds) current sent d k h =
      let (node, here) = find_node-ids def.nodes current k in
      let (dn, same) = find_node-All (IsDetermined def.edges) def.nodes current d here in
      elim (round-Outcome fmt def after values actor_id current sent node here) [
        | inl (t, e, rest) ↦ (t, rw (e, traverse_loop), rest)
        | inr (inl (ne, c, _)) ↦
            let (e, p) = choose_edge-IsDetermined fmt node def.edges values dn ne in absurd (cc)
        | inr (inr (e, sent', c, p)) ↦
            let (low, there) =
              choose_edge-All (Lower def.nodes acyclic.number (acyclic.number node.id)) fmt node
                def.edges values
                (candidates-Lower def.nodes acyclic.number node.id def.edges acyclic.falls joined)
                c in
            let (t, q, rest) =
              traverse_loop-total rounds e.to sent' d there
                (omega (arith, ap acyclic.number same)) in
            (t, rw (p, traverse_loop) q, rest)
      ]
