-- ===== src/Workflow/Acyclic.antt =====
-- A graph that validateWorkflowGraph accepts has no cycle: its nodes can be numbered so that every
-- edge leads to a smaller number.
use nexa_flow.Prelude.{
  ℕ, suc, ◌<◌, ◌≡◌, refl, ◌≢◌, ◌∙◌, sym, true, false, not, ◌&&◌, ◌||◌, List, [], ◌∷◌, String, ok,
  >>=-eq-ok, length, contains, All, arith, string_eq, nat_eq, passed, guarded, ◌==◌, if◌then◌else◌,
  ltb, String_discrete,
}
use nexa_flow.Prelude.Sets.{IsDistinct, Subset, Subset-full}
use nexa_flow.Workflow.Model.{WorkflowNode, WorkflowEdge}
use nexa_flow.Workflow.Validation.{
  EdgeMap, NodeMap, is_known, scan_nodes, scan_edges, edges_at, check_branches, start_id, walk,
  validate_workflow_graph,
}
use nexa_flow.Workflow.Traversal.{candidates}
use nexa_flow.Workflow.Scans.{length-ids, ids}
use nexa_flow.Workflow.EdgeScans.{EdgePasses}
use nexa_flow.Workflow.Links.{Links, known, edges_at-out, closed, start-ids, edge_passes}
use nexa_flow.Workflow.Walk.{Lead, Lead-mono, Topo, IsGood, walk-Grows}

-- The results of the steps of an accepted validation.
pub record Run (nodes : List WorkflowNode) (edges : List WorkflowEdge) : Type 0 where
  pub links : Links nodes edges
  pub open links use *
  pub visited : List String
  pub branched : check_branches out nodes ≡ ok tt
  pub walked : walk scan.by_id out (suc (length nodes)) [] [] (start_id "" nodes) ≡ ok visited
  pub all_visited : length visited ≡ length nodes

unit : (x : Unit {0}) → x ≡ tt
unit tt = refl

pub validate-Run :
    (nodes : List WorkflowNode) (edges : List WorkflowEdge)
    → validate_workflow_graph nodes edges ≡ ok tt
    → Run nodes edges
unfolding validate_workflow_graph
validate-Run nodes edges h =
    let (b, h0) = passed (ltb (length nodes) 2 || ltb 100 (length nodes)) _ _ h in
    let (scan, e1, h1) =
      >>=-eq-ok (scan_nodes (record { by_id = []; starts = 0; ends = 0 }) nodes) _ h0 in
    let (g2, h2) = guarded (scan.starts == 1 && not (ltb scan.ends 1)) _ _ h1 in
    let (out, e3, h3) = >>=-eq-ok (scan_edges scan.by_id [] edges) _ h2 in
    let (u, e4, h4) = >>=-eq-ok (check_branches out nodes) _ h3 in
    let (visited, e5, h5) =
      >>=-eq-ok (walk scan.by_id out (suc (length nodes)) [] [] (start_id "" nodes)) _ h4 in
    record {
      links = record { scan = scan; out = out; scanned = e1; starts = ground arith; linked = e3 };
      visited = visited;
      branched = rw (← unit u) e4;
      walked = e5;
      all_visited = ground arith;
    }

-- The place of a node in the visited list, counted from its end.
pub rank : List String → String → ℕ
rank [] a = 0
rank (x ∷ xs) a = if x == a then length xs else rank xs a

rank-lt : (xs : List String) (a : String) → contains xs a ≡ true → rank xs a < length xs
unfolding rank
rank-lt [] a h = cc
rank-lt (x ∷ xs) a h = ground (arith, rank-lt xs a)

rank_self : (x : String) (xs : List String) → rank (x ∷ xs) x ≡ length xs
unfolding rank
rank_self x xs = ground arith

rank-other : (x : String) (xs : List String) (a : String) → x ≢ a → rank (x ∷ xs) a ≡ rank xs a
unfolding rank
rank-other x xs a ne = ground arith

-- A new head that is not in the list changes no rank of its members.
rank-head :
    (x : String) (xs : List String) (n : ℕ) (es : List WorkflowEdge)
    → contains xs x ≡ false
    → Lead xs es
    → All (λ e. rank xs e.to < n) es
    → All (λ e. rank (x ∷ xs) e.to < n) es
unfolding rank
rank-head x xs n [] d l r = tt
rank-head x xs n (e ∷ es) d l r = (ground arith, rank-head x xs n es d l.1 r.1)

Lead-rank :
    (xs : List String) (es : List WorkflowEdge)
    → Lead xs es
    → All (λ e. rank xs e.to < length xs) es
Lead-rank xs [] l = tt
Lead-rank xs (e ∷ es) l = (rank-lt xs e.to l.0, Lead-rank xs es l.1)

Topo-Lead :
    (out : EdgeMap) (xs : List String) (a : String)
    → Topo out xs
    → contains xs a ≡ true
    → Lead xs (edges_at out a)
Topo-Lead out [] a t h = cc
Topo-Lead out (x ∷ xs) a t h =
    Lead-mono xs (x ∷ xs) (edges_at out a) (λ b k. ground arith)
      (elim (String_discrete x a) [
        | yes e ↦ rw (← e) t.0
        | no ne ↦ Topo-Lead out xs a t.1 (ground arith)
      ])

-- In a list in which every edge leads back, edges lead to smaller ranks.
rank-falls :
    (out : EdgeMap) (xs : List String) (a : String)
    → Topo out xs
    → IsDistinct xs
    → contains xs a ≡ true
    → All (λ e. rank xs e.to < rank xs a) (edges_at out a)
rank-falls out [] a t d h = cc
rank-falls out (x ∷ xs) a t d h = elim (String_discrete x a) [
  | yes e ↦ rw (← e) (
      rw (rank_self x xs)
        (rank-head x xs (length xs) (edges_at out x) d.0 t.0 (Lead-rank xs (edges_at out x) t.0)))
  | no ne ↦ rw (rank-other x xs a ne) (
      rank-head x xs (rank xs a) (edges_at out a) d.0 (Topo-Lead out xs a t.1 (ground arith))
        (rank-falls out xs a t.1 d.1 (ground arith)))
]

-- A numbering of the nodes along which every edge falls, so that no path of edges returns.
pub record IsAcyclic (nodes : List WorkflowNode) (edges : List WorkflowEdge) : Type 0 where
  pub number : String → ℕ
  pub bounded : (a : String) → contains (ids nodes) a ≡ true → number a < length nodes
  pub falls : All (λ e. number e.to < number e.from) edges

Falls : (String → ℕ) → List WorkflowEdge → String → Type 0
Falls number es a = All (λ e. number e.to < number a) (candidates a es)

Falls-tail :
    (number : String → ℕ) (e : WorkflowEdge) (es : List WorkflowEdge) (a : String)
    → Falls number (e ∷ es) a
    → Falls number es a
unfolding Falls
Falls-tail number e es a f = ground arith

Falls-head :
    (number : String → ℕ) (e : WorkflowEdge) (es : List WorkflowEdge)
    → Falls number (e ∷ es) e.from
    → number e.to < number e.from
unfolding Falls
Falls-head number e es f = ground arith

Falls-All :
    (by_id : NodeMap) (xs : List String) (number : String → ℕ) (es : List WorkflowEdge)
    → ((k : String) → is_known by_id k ≡ true → contains xs k ≡ true)
    → All (EdgePasses by_id) es
    → ((a : String) → contains xs a ≡ true → Falls number es a)
    → All (λ e. number e.to < number e.from) es
Falls-All by_id xs number [] known p f = tt
Falls-All by_id xs number (e ∷ es) known p f = (
  Falls-head number e es (f e.from (known e.from p.0.from_known)),
  Falls-All by_id xs number es known p.1 (λ a h. Falls-tail number e es a (f a h)),
)

module _ (nodes : List WorkflowNode) (edges : List WorkflowEdge) (r : Run nodes edges) where
  visited-IsGood : IsGood r.out (ids nodes) (closed nodes edges r.links) r.visited
  visited-IsGood =
      (walk-Grows r.out (ids nodes) (closed nodes edges r.links) r.scan.by_id _ [] []
        (start_id "" nodes) r.visited r.walked (start-ids nodes edges r.links)
        (record { topo = tt; distinct = tt; within = λ a h. cc })).0.good

  all_visited : Subset (ids nodes) r.visited
  all_visited =
      Subset-full r.visited (ids nodes) visited-IsGood.distinct visited-IsGood.within
        (r.all_visited ∙ sym (length-ids nodes))

  out-Falls : (a : String) → contains (ids nodes) a ≡ true → Falls (rank r.visited) edges a
  unfolding Falls
  out-Falls a h =
      rw (edges_at-out nodes edges r.links a) at
        (rank-falls r.out r.visited a visited-IsGood.topo visited-IsGood.distinct (all_visited a h))

  pub Run-IsAcyclic : IsAcyclic nodes edges
  Run-IsAcyclic = record {
    number = rank r.visited;
    bounded = λ a h. omega (arith, rank-lt r.visited a (all_visited a h), r.all_visited);
    falls =
        Falls-All r.scan.by_id (ids nodes) (rank r.visited) edges (known nodes edges r.links)
          (edge_passes nodes edges r.links) out-Falls;
  }

-- A graph that the validation accepts has a numbering of its nodes below their count along which
-- every edge falls: it has no cycle.
pub validate_workflow_graph-IsAcyclic :
    (nodes : List WorkflowNode) (edges : List WorkflowEdge)
    → validate_workflow_graph nodes edges ≡ ok tt
    → IsAcyclic nodes edges
validate_workflow_graph-IsAcyclic nodes edges h =
    Run-IsAcyclic nodes edges (validate-Run nodes edges h)
