-- ===== src/Workflow/Fuel.antt =====
-- The walk of validateWorkflowGraph ends: one call for each node is deep enough.
use nexa_flow.Prelude.{
  ℕ, zero, suc, ◌+◌, ◌≤◌, ◌≡◌, ◌≢◌, ◌&&◌, ◌||◌, not, inl, inr, true, List, [], ◌∷◌, ◌++◌, String,
  ok, err, guard, >>=-eq-err, if-cases, length, contains, arith, string_eq, nat_eq, ◌==◌, ltb,
}
use nexa_flow.Prelude.Maps.{insert}
use nexa_flow.Prelude.Sets.{IsDistinct, Subset, Subset-cons, length-Subset}
use nexa_flow.Workflow.Model.{WorkflowNode, WorkflowEdge}
use nexa_flow.Workflow.Validation.{
  out_of_fuel, NodeMap, EdgeMap, Scan, Step, edges_at, walk_edges, walk, scan_nodes, record_node,
  scan_edges, check_branches, start_id, type_of, is_empty, dead_end, node_count, starts_and_ends,
  after_scan, not_reachable, validate_workflow_graph,
}
use nexa_flow.Workflow.Scans.{ids, length-ids}
use nexa_flow.Workflow.Links.{Links, closed, start-ids}
use nexa_flow.Workflow.Walk.{Lead}

walk_edges-fueled :
    (ids : List String) (step : Step)
    → ((v : List String) (to : String) → contains ids to ≡ true → step v to ≢ err out_of_fuel)
    → (es : List WorkflowEdge) (visited : List String) → Lead ids es
    → walk_edges step visited es ≢ err out_of_fuel
unfolding walk_edges
walk_edges-fueled ids step fueled [] visited l h = cc
walk_edges-fueled ids step fueled (e ∷ es) visited l h = elim (>>=-eq-err (step visited e.to) _ h) [
  | inl p ↦ fueled visited e.to l.0 p
  | inr (u, _, p) ↦ walk_edges-fueled ids step fueled es u l.1 p
]

module _ (by_id : NodeMap) (out : EdgeMap) (ids : List String)
    (closed : (a : String) → Lead ids (edges_at out a)) where
  walk-fueled :
      (fuel : ℕ) (visiting visited : List String) (id : String)
      → IsDistinct visiting
      → Subset visiting ids
      → contains ids id ≡ true
      → suc (length ids) ≤ length visiting + fuel
      → walk by_id out fuel visiting visited id ≢ err out_of_fuel
  unfolding walk
  walk-fueled zero visiting visited id d s k n h = omega (arith, length-Subset visiting ids d s)
  walk-fueled (suc fuel) visiting visited id d s k n h =
      elim (if-cases (contains visiting id) _ _ h) [
        | inl (_, p) ↦ cc
        | inr (new, p) ↦ elim (if-cases (contains visited id) _ _ p) [
          | inl (_, q) ↦ cc
          | inr (_, q) ↦
              elim (if-cases (not (type_of by_id id == "end") && is_empty (edges_at out id))
                (err (dead_end id)) _ q) [
                  | inl (_, r) ↦ cc
                  | inr (_, r) ↦ elim (>>=-eq-err (walk_edges _ visited (edges_at out id)) _ r) [
                    | inl e ↦
                        walk_edges-fueled ids _
                          (λ v to there.
                            walk-fueled fuel (id ∷ visiting) v to (new, d)
                              (Subset-cons id visiting ids k s) there (omega arith))
                          (edges_at out id) visited (closed id) e
                    | inr (u, _, e) ↦ cc
                  ]
                ]
        ]
      ]

scan_edges-fueled :
    (by_id : NodeMap) (out : EdgeMap) (edges : List WorkflowEdge)
    → scan_edges by_id out edges ≢ err out_of_fuel
unfolding scan_edges
scan_edges-fueled by_id out [] h = cc
scan_edges-fueled by_id out (edge ∷ edges) h = ground (
  arith,
  scan_edges-fueled by_id (insert edge.from (edges_at out edge.from ++ edge ∷ []) out) edges,
)

scan_nodes-fueled : (s : Scan) (nodes : List WorkflowNode) → scan_nodes s nodes ≢ err out_of_fuel
unfolding scan_nodes
scan_nodes-fueled s [] h = cc
scan_nodes-fueled s (node ∷ nodes) h = ground (arith, scan_nodes-fueled (record_node s node) nodes)

check_branches-fueled :
    (out : EdgeMap) (nodes : List WorkflowNode) → check_branches out nodes ≢ err out_of_fuel
unfolding check_branches
check_branches-fueled out [] h = cc
check_branches-fueled out (node ∷ nodes) h = ground (arith, check_branches-fueled out nodes)

-- The validation decides every graph: it never runs out of the fuel that the model gives the walk,
-- one more call than there are nodes.
pub validate_workflow_graph-decides :
    (nodes : List WorkflowNode) (edges : List WorkflowEdge)
    → validate_workflow_graph nodes edges ≢ err out_of_fuel
unfolding validate_workflow_graph
validate_workflow_graph-decides nodes edges h =
    elim (if-cases (ltb (length nodes) 2 || ltb 100 (length nodes)) (err node_count) _ h) [
      | inl (_, p) ↦ cc
      | inr (_, p) ↦
          elim (>>=-eq-err (scan_nodes (record { by_id = []; starts = 0; ends = 0 }) nodes) _ p) [
            | inl q ↦ scan_nodes-fueled _ nodes q
            | inr (scan, e1, q) ↦ linked scan e1 q
          ]
    ]
  where
    walked :
        (l : Links nodes edges)
        → walk l.scan.by_id l.out (suc (length nodes)) [] [] (start_id "" nodes) ≢ err out_of_fuel
    walked l =
        walk-fueled l.scan.by_id l.out (ids nodes) (closed nodes edges l) (suc (length nodes)) [] []
          (start_id "" nodes) tt (λ a k. cc) (start-ids nodes edges l)
          (omega (arith, length-ids nodes))

    linked :
        (scan : Scan)
        → scan_nodes (record { by_id = []; starts = 0; ends = 0 }) nodes ≡ ok scan
        → after_scan nodes edges scan ≡ err out_of_fuel
        → ⊥
    linked scan e1 h =
        elim (>>=-eq-err (guard (scan.starts == 1 && not (ltb scan.ends 1)) starts_and_ends) _ h) [
          | inl q ↦ ground arith
          | inr (_, e2, q) ↦ elim (>>=-eq-err (scan_edges scan.by_id [] edges) _ q) [
            | inl p ↦ scan_edges-fueled scan.by_id [] edges p
            | inr (out, e3, p) ↦ elim (>>=-eq-err (check_branches out nodes) _ p) [
              | inl r ↦ check_branches-fueled out nodes r
              | inr (_, _, r) ↦
                  elim (>>=-eq-err
                    (walk scan.by_id out (suc (length nodes)) [] [] (start_id "" nodes))
                    (λ visited. guard (length visited == length nodes) not_reachable) r) [
                      | inl w ↦
                          walked
                            (record {
                              scan = scan;
                              out = out;
                              scanned = e1;
                              starts = ground arith;
                              linked = e3;
                            })
                            w
                      | inr (v, _, w) ↦ ground arith
                    ]
            ]
          ]
        ]
