-- ===== src/Workflow/EdgeScans.antt =====
-- What the loops over the edges and the condition nodes of validateWorkflowGraph establish when
-- they pass.
use nexa_flow.Prelude.{
  ◌≡◌, refl, ◌≢◌, ◌⊎◌, ◌∙◌, inl, inr, true, not, ◌||◌, List, [], ◌∷◌, ◌++◌, String, ok, length,
  contains, count_if, All, arith, string_eq, passed, ok_injective, ◌==◌, if◌then◌else◌,
}
use mathlib.Core.List.{append-nil, append_assoc}
use nexa_flow.Prelude.Maps.{insert, lookup-insert}
use nexa_flow.Workflow.Model.{WorkflowNode, WorkflowEdge}
use nexa_flow.Workflow.Validation.{
  NodeMap, EdgeMap, is_known, edges_at, scan_edges, branch_count, check_branches, start_id,
}
use nexa_flow.Workflow.Scans.{ids}
use nexa_flow.Workflow.Traversal.{candidates}

abbrev add_edge : EdgeMap → WorkflowEdge → EdgeMap
add_edge out edge = insert edge.from (edges_at out edge.from ++ edge ∷ []) out

edges_at-insert :
    (out : EdgeMap) (k j : String) (es : List WorkflowEdge)
    → edges_at (insert k es out) j ≡ (if k == j then es else edges_at out j)
unfolding edges_at
edges_at-insert out k j es = ground (arith, lookup-insert k j es out)

-- An edge that passes joins two known nodes.
pub record EdgePasses (by_id : NodeMap) (e : WorkflowEdge) : Type 0 where
  pub from_known : is_known by_id e.from ≡ true
  pub to_known : is_known by_id e.to ≡ true
  pub no_loop : e.from ≢ e.to

scan_edges-cons :
    (by_id : NodeMap) (out : EdgeMap) (edge : WorkflowEdge) (edges : List WorkflowEdge)
    {t : EdgeMap}
    → scan_edges by_id out (edge ∷ edges) ≡ ok t
    → EdgePasses by_id edge × (scan_edges by_id (add_edge out edge) edges ≡ ok t)
unfolding scan_edges
scan_edges-cons by_id out edge edges h =
    let (b, h0) =
      passed
        (not (is_known by_id edge.from) || not (is_known by_id edge.to) || edge.from == edge.to) _ _
        h in
    (record { from_known = ground arith; to_known = ground arith; no_loop = λ e. ground arith }, h0)

pub scan_edges-All :
    (by_id : NodeMap) (out : EdgeMap) (edges : List WorkflowEdge) (t : EdgeMap)
    → scan_edges by_id out edges ≡ ok t
    → All (EdgePasses by_id) edges
scan_edges-All by_id out [] t h = tt
scan_edges-All by_id out (edge ∷ edges) t h =
    let (p, h1) = scan_edges-cons by_id out edge edges h in
    (p, scan_edges-All by_id (add_edge out edge) edges t h1)

-- The map of edges lists the outgoing edges of a node in their order.
pub edges_at-scan_edges :
    (by_id : NodeMap) (out : EdgeMap) (edges : List WorkflowEdge) (t : EdgeMap)
    → scan_edges by_id out edges ≡ ok t
    → (id : String) → edges_at t id ≡ edges_at out id ++ candidates id edges
unfolding scan_edges
edges_at-scan_edges by_id out [] t h id = rw (← ok_injective h, append-nil)
edges_at-scan_edges by_id out (edge ∷ edges) t h id =
    let (p, h1) = scan_edges-cons by_id out edge edges h in
    edges_at-scan_edges by_id (add_edge out edge) edges t h1 id
    ∙ ground (
      arith,
      edges_at-insert out edge.from id (edges_at out edge.from ++ edge ∷ []),
      append_assoc (edges_at out id) (edge ∷ []) (candidates id edges),
    )

-- The branches of a condition node.
pub record HasBranches (es : List WorkflowEdge) : Type 0 where
  pub one_true : branch_count "true" es ≡ 1
  pub one_false : branch_count "false" es ≡ 1
  pub two : length es ≡ 2

pub check_branches-All :
    (out : EdgeMap) (nodes : List WorkflowNode)
    → check_branches out nodes ≡ ok tt
    → All (λ n. n.type ≡ "condition" → HasBranches (edges_at out n.id)) nodes
unfolding check_branches
check_branches-All out [] h = tt
check_branches-All out (node ∷ nodes) h =
    (λ c. ground arith, check_branches-All out nodes (ground arith))

-- With a start node, both searches for it find a node of the list.
pub start_id-ids :
    (d : String) (nodes : List WorkflowNode)
    → (count_if (λ n. n.type == "start") nodes ≡ 0) × (start_id d nodes ≡ d)
      ⊎ (contains (ids nodes) (start_id d nodes) ≡ true)
unfolding start_id
start_id-ids d [] = inl (refl, refl)
start_id-ids d (n ∷ nodes) = elim (start_id-ids (if n.type == "start" then n.id else d) nodes) [
  | inl p ↦ ground arith
  | inr q ↦ inr (ground arith)
]
