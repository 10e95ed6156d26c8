-- ===== src/Workflow/Totality.antt =====
-- A workflow that the validation accepted runs to an approval or to an end node.
use nexa_flow.Prelude.{
  suc, ◌<◌, ◌≡◌, refl, ◌≢◌, ◌⊎◌, Bool, true, false, List, [], ◌∷◌, String, ok, length, contains,
  count_if, All, arith, string_eq, ◌==◌, if◌then◌else◌,
}
use nexa_flow.Values.{Dict, Format}
use nexa_flow.Workflow.Model.{WorkflowNode, WorkflowEdge, WorkflowDefinition, WorkflowTransition}
use nexa_flow.Workflow.Validation.{NodeMap, EdgeMap, edges_at, is_known, validate_workflow_graph}
use nexa_flow.Workflow.Traversal.{candidates, first_start, traverse}
use nexa_flow.Workflow.Scans.{ids, starts-scan_nodes}
use nexa_flow.Workflow.EdgeScans.{HasBranches, EdgePasses, check_branches-All}
use nexa_flow.Workflow.Acyclic.{Run, validate-Run, IsAcyclic, Run-IsAcyclic}
use nexa_flow.Workflow.Links.{known, edge_passes, edges_at-out}
use nexa_flow.Workflow.Choice.{IsDetermined}
use nexa_flow.Workflow.Progress.{IsResting, traverse_loop-total}

-- A node that is neither a condition nor an end has one outgoing edge.
abbrev pub IsLinear : List WorkflowEdge → WorkflowNode → Type 0
IsLinear edges n = n.type ≢ "condition" → n.type ≢ "end" → length (candidates n.id edges) ≡ 1

first_start-ids :
    (nodes : List WorkflowNode)
    → 0 < count_if (λ n. n.type == "start") nodes
    → contains (ids nodes) (first_start nodes) ≡ true
unfolding first_start
first_start-ids [] h = absurd (omega arith)
first_start-ids (n ∷ nodes) h = ground (arith, first_start-ids nodes)

joined :
    (by_id : NodeMap) (xs : List String) (es : List WorkflowEdge)
    → ((k : String) → is_known by_id k ≡ true → contains xs k ≡ true)
    → All (EdgePasses by_id) es
    → All (λ e. contains xs e.to ≡ true) es
joined by_id xs [] k p = tt
joined by_id xs (e ∷ es) k p = (k e.to p.0.to_known, joined by_id xs es k p.1)

determined :
    (out : EdgeMap) (edges : List WorkflowEdge) (nodes : List WorkflowNode)
    → ((a : String) → edges_at out a ≡ candidates a edges)
    → All (λ n. n.type ≡ "condition" → HasBranches (edges_at out n.id)) nodes
    → All (IsLinear edges) nodes
    → All (IsDetermined edges) nodes
determined out edges [] same b l = tt
determined out edges (n ∷ nodes) same b l = (
  record { branches = λ c. rw (← same n.id) (b.0 c); single = l.0 },
  determined out edges nodes same b.1 l.1,
)

pick-ids :
    (xs : List String) (b : Bool) (f a : String)
    → contains xs f ≡ true
    → (b ≡ false → contains xs a ≡ true)
    → contains xs (if b then f else a) ≡ true
pick-ids xs true f a h k = h
pick-ids xs false f a h k = k refl

-- A traversal of an accepted workflow whose plain nodes have one outgoing edge each, from the start
-- or from any of its nodes, succeeds within the loop's limit; it rests at an approval node as
-- pending, or at an end node as completed.
pub traverse-total :
    (fmt : Format) (def : WorkflowDefinition) (after : String) (values : Dict) (actor_id : String)
    → validate_workflow_graph def.nodes def.edges ≡ ok tt
    → All (IsLinear def.edges) def.nodes
    → (after ≡ "") ⊎ (contains (ids def.nodes) after ≡ true)
    → (t : WorkflowTransition) × (traverse fmt def after values actor_id ≡ ok t)
      × IsResting def.nodes t
unfolding traverse
traverse-total fmt def after values actor_id valid linear place =
    traverse_loop-total fmt def after values actor_id acyclic
      (joined run.scan.by_id (ids def.nodes) def.edges (known def.nodes def.edges run.links)
        (edge_passes def.nodes def.edges run.links))
      (suc (length def.nodes)) from []
      (determined run.out def.edges def.nodes (edges_at-out def.nodes def.edges run.links)
        (check_branches-All run.out def.nodes run.branched) linear)
      there (omega (arith, acyclic.bounded from there))
  where
    run : Run def.nodes def.edges
    run = validate-Run def.nodes def.edges valid

    acyclic : IsAcyclic def.nodes def.edges
    acyclic = Run-IsAcyclic def.nodes def.edges run

    from : String
    from = if after == "" then first_start def.nodes else after

    start : contains (ids def.nodes) (first_start def.nodes) ≡ true
    start =
        first_start-ids def.nodes
          (omega (arith, starts-scan_nodes _ def.nodes run.scan run.scanned, run.starts))

    there : contains (ids def.nodes) from ≡ true
    there = pick-ids (ids def.nodes) (after == "") _ after start (λ p. ground arith)
