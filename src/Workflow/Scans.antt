-- ===== src/Workflow/Scans.antt =====
-- What the loop over the nodes of validateWorkflowGraph establish when they pass.
use nexa_flow.Prelude.{
  suc, length, ap, ◌+◌, ◌≡◌, refl, ◌≢◌, ap, inl, inr, true, false, not, ◌||◌, List, [], ◌∷◌, map,
  Option, none, some, Option-cases, String, ok, >>=-eq-ok, contains, count_if, All, arith,
  string_eq, passed, ok_injective, ◌==◌,
}
use nexa_flow.Prelude.Maps.{lookup, lookup-insert}
use nexa_flow.Prelude.Sets.{IsDistinct}
use nexa_flow.Workflow.Model.{WorkflowNode}
use nexa_flow.Workflow.Validation.{
  NodeMap, Scan, is_known, check_config, record_node, scan_nodes, valid_types,
}
use nexa_flow.Workflow.Traversal.{find_node}

abbrev pub ids : List WorkflowNode → List String
ids = map λ n. n.id

pub length-ids : (nodes : List WorkflowNode) → length (ids nodes) ≡ length nodes
length-ids [] = refl
length-ids (n ∷ nodes) = ap suc (length-ids nodes)

-- A map from ids to nodes holds each node under its own id, which is not empty.
abbrev pub IsKeyed : NodeMap → Type 0
IsKeyed m = (k : String) (n : WorkflowNode) → lookup k m ≡ some n → (n.id ≡ k) × (k ≢ "")

abbrev pub or_else : Option WorkflowNode → Option WorkflowNode → Option WorkflowNode
or_else none b = b
or_else (some a) b = some a

or_else-none : (o : Option WorkflowNode) → o ≡ or_else o none
or_else-none none = refl
or_else-none (some n) = refl

pub record NodePasses (s : Scan) (node : WorkflowNode) : Type 0 where
  pub named : node.id ≢ ""
  pub fresh : is_known s.by_id node.id ≡ false
  pub valid : contains valid_types node.type ≡ true
  pub config : check_config node ≡ ok tt

-- One round of the loop over the nodes, where it passes.
scan_nodes-cons :
    (s : Scan) (node : WorkflowNode) (nodes : List WorkflowNode) {t : Scan}
    → scan_nodes s (node ∷ nodes) ≡ ok t
    → NodePasses s node × (scan_nodes (record_node s node) nodes ≡ ok t)
unfolding scan_nodes
scan_nodes-cons s node nodes h =
    let (b, h0) =
      passed (node.id == "" || is_known s.by_id node.id || not (contains valid_types node.type)) _ _
        h in
    let (u, h1, h2) = >>=-eq-ok (check_config node) _ h0 in
    (
      record {
        named = λ e. ground arith;
        fresh = ground arith;
        valid = ground arith;
        config = ground arith;
      },
      h2,
    )

known-lookup :
    (m : NodeMap) (k : String) → IsKeyed m → k ≢ "" → is_known m k ≡ false → lookup k m ≡ none
unfolding is_known
known-lookup m k keyed ne h = elim (Option-cases (lookup k m)) [
  | inl e ↦ e
  | inr (n, e) ↦ ground (arith, keyed k n e)
]

record_node-IsKeyed :
    (s : Scan) (node : WorkflowNode)
    → node.id ≢ ""
    → IsKeyed s.by_id
    → IsKeyed (record_node s node).by_id
unfolding record_node
record_node-IsKeyed s node ne keyed k n h =
    ground (arith, lookup-insert node.id k node s.by_id, keyed k n)

pub lookup-scan_nodes :
    (s : Scan) (nodes : List WorkflowNode) (t : Scan)
    → scan_nodes s nodes ≡ ok t
    → IsKeyed s.by_id
    → (k : String) → lookup k t.by_id ≡ or_else (lookup k s.by_id) (find_node nodes k)
unfolding scan_nodes find_node
lookup-scan_nodes s [] t h keyed k = rw (← ok_injective h) (or_else-none (lookup k s.by_id))
lookup-scan_nodes s (node ∷ nodes) t h keyed k =
    let (p, h1) = scan_nodes-cons s node nodes h in
    ground (
      arith,
      lookup-scan_nodes (record_node s node) nodes t h1 (record_node-IsKeyed s node p.named keyed)
          k,
      known-lookup s.by_id node.id keyed p.named p.fresh,
      lookup-insert node.id k node s.by_id,
    )

older :
    (s : Scan) (node : WorkflowNode) (ns : List WorkflowNode)
    → All (λ n. lookup n.id (record_node s node).by_id ≡ none) ns
    → All (λ n. lookup n.id s.by_id ≡ none) ns
unfolding record_node
older s node [] f = tt
older s node (n ∷ ns) f =
    (ground (arith, lookup-insert node.id n.id node s.by_id), older s node ns f.1)

others :
    (s : Scan) (node : WorkflowNode) (ns : List WorkflowNode)
    → All (λ n. lookup n.id (record_node s node).by_id ≡ none) ns
    → contains (ids ns) node.id ≡ false
unfolding record_node
others s node [] f = refl
others s node (n ∷ ns) f =
    ground (arith, others s node ns f.1, lookup-insert node.id n.id node s.by_id)

-- Every node is new to the map, and to the nodes before it.
pub scan_nodes-fresh :
    (s : Scan) (nodes : List WorkflowNode) (t : Scan)
    → scan_nodes s nodes ≡ ok t
    → IsKeyed s.by_id
    → All (λ n. lookup n.id s.by_id ≡ none) nodes × IsDistinct (ids nodes)
scan_nodes-fresh s [] t h keyed = (tt, tt)
scan_nodes-fresh s (node ∷ nodes) t h keyed =
    let (p, h1) = scan_nodes-cons s node nodes h in
    let (f, d) =
      scan_nodes-fresh (record_node s node) nodes t h1 (record_node-IsKeyed s node p.named keyed) in
    (
      (known-lookup s.by_id node.id keyed p.named p.fresh, older s node nodes f),
      (others s node nodes f, d),
    )

pub starts-scan_nodes :
    (s : Scan) (nodes : List WorkflowNode) (t : Scan)
    → scan_nodes s nodes ≡ ok t
    → t.starts ≡ s.starts + count_if (λ n. n.type == "start") nodes
unfolding scan_nodes record_node
starts-scan_nodes s [] t h = omega (arith, ap (λ (u : Scan). u.starts) (ok_injective h))
starts-scan_nodes s (node ∷ nodes) t h =
    ground
      (arith, starts-scan_nodes (record_node s node) nodes t (scan_nodes-cons s node nodes h).1)

pub named-scan_nodes :
    (s : Scan) (nodes : List WorkflowNode) (t : Scan)
    → scan_nodes s nodes ≡ ok t
    → All (λ n. n.id ≢ "") nodes
named-scan_nodes s [] t h = tt
named-scan_nodes s (node ∷ nodes) t h =
    let (p, h1) = scan_nodes-cons s node nodes h in
    (p.named, named-scan_nodes (record_node s node) nodes t h1)
