-- ===== src/Workflow/Links.antt =====
-- What is known of a graph once the loops of validateWorkflowGraph over its nodes and edges have
-- passed, before the walk.
use nexa_flow.Prelude.{
  ◌≡◌, inl, inr, true, List, [], ◌∷◌, String, ok, contains, All, arith, string_eq, nat_eq,
  String_discrete,
}
use nexa_flow.Prelude.Maps.{lookup}
use nexa_flow.Workflow.Model.{WorkflowNode, WorkflowEdge}
use nexa_flow.Workflow.Validation.{
  EdgeMap, NodeMap, Scan, is_known, scan_nodes, scan_edges, edges_at, start_id,
}
use nexa_flow.Workflow.Traversal.{find_node, candidates}
use nexa_flow.Workflow.Scans.{ids, lookup-scan_nodes, starts-scan_nodes}
use nexa_flow.Workflow.EdgeScans.{EdgePasses, scan_edges-All, edges_at-scan_edges, start_id-ids}
use nexa_flow.Workflow.Walk.{Lead}

-- The results of the two loops.
pub record Links (nodes : List WorkflowNode) (edges : List WorkflowEdge) : Type 0 where
  pub scan : Scan
  pub out : EdgeMap
  pub scanned : scan_nodes (record { by_id = []; starts = 0; ends = 0 }) nodes ≡ ok scan
  pub starts : scan.starts ≡ 1
  pub linked : scan_edges scan.by_id [] edges ≡ ok out

known-ids :
    (m : NodeMap) (k : String) (nodes : List WorkflowNode)
    → lookup k m ≡ find_node nodes k
    → is_known m k ≡ true
    → contains (ids nodes) k ≡ true
unfolding is_known find_node
known-ids m k [] e h = ground arith
known-ids m k (n ∷ nodes) e h = elim (String_discrete n.id k) [
  | yes p ↦ ground arith
  | no ne ↦ ground (arith, known-ids m k nodes (ground arith) h)
]

Lead-candidates :
    (by_id : NodeMap) (xs : List String) (a : String) (es : List WorkflowEdge)
    → ((k : String) → is_known by_id k ≡ true → contains xs k ≡ true)
    → All (EdgePasses by_id) es
    → Lead xs (candidates a es)
Lead-candidates by_id xs a [] known p = tt
Lead-candidates by_id xs a (e ∷ es) known p =
    ground (arith, known e.to p.0.to_known, Lead-candidates by_id xs a es known p.1)

module _ (nodes : List WorkflowNode) (edges : List WorkflowEdge) (r : Links nodes edges) where
  -- The map of the nodes is the list of the nodes.
  pub lookup-by_id : (k : String) → lookup k r.scan.by_id ≡ find_node nodes k
  unfolding lookup
  lookup-by_id k = lookup-scan_nodes _ nodes r.scan r.scanned (λ j n h. cc) k

  pub known : (k : String) → is_known r.scan.by_id k ≡ true → contains (ids nodes) k ≡ true
  known k h = known-ids r.scan.by_id k nodes (lookup-by_id k) h

  -- The map of the edges is the list of the edges.
  pub edges_at-out : (a : String) → edges_at r.out a ≡ candidates a edges
  unfolding edges_at lookup
  edges_at-out a = edges_at-scan_edges r.scan.by_id [] edges r.out r.linked a

  pub closed : (a : String) → Lead (ids nodes) (edges_at r.out a)
  closed a = rw (edges_at-out a) (
      Lead-candidates r.scan.by_id (ids nodes) a edges known
        (scan_edges-All r.scan.by_id [] edges r.out r.linked))

  pub start-ids : contains (ids nodes) (start_id "" nodes) ≡ true
  start-ids = elim (start_id-ids "" nodes) [
    | inl p ↦ absurd (omega (arith, starts-scan_nodes _ nodes r.scan r.scanned, r.starts, p.0))
    | inr h ↦ h
  ]

  pub edge_passes : All (EdgePasses r.scan.by_id) edges
  edge_passes = scan_edges-All r.scan.by_id [] edges r.out r.linked
