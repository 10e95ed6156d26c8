-- ===== src/Workflow/Choice.antt =====
-- The edges that chooseEdge picks, and the nodes that findNode finds.
use nexa_flow.Prelude.{
  ◌<◌, ◌≡◌, refl, ◌≢◌, ◌⊎◌, ◌∙◌, inl, inr, Bool, true, false, not, List, [], ◌∷◌, some, String,
  Bool-cases, length, contains, count_if, find_first, All, arith, string_eq, nat_eq, ◌==◌,
  String_discrete, if-cases,
}
use nexa_flow.Values.{Dict, Format}
use nexa_flow.Workflow.Model.{WorkflowNode, WorkflowEdge}
use nexa_flow.Workflow.Traversal.{
  find_node, candidates, choose_edge, only, branch_of, wanted_branch,
}
use nexa_flow.Workflow.Scans.{ids}
use nexa_flow.Workflow.EdgeScans.{HasBranches}

pub find_node-All {κ} :
    (P : WorkflowNode → Type κ) (nodes : List WorkflowNode) (k : String) {n : WorkflowNode}
    → All P nodes
    → find_node nodes k ≡ some n
    → P n × (n.id ≡ k)
unfolding find_node
find_node-All P [] k a h = cc
find_node-All P (m ∷ nodes) k {n} a h = elim (String_discrete m.id k) [
  | yes e ↦ let p : m ≡ n = ground arith in rw (← p) (a.0, e)
  | no ne ↦ find_node-All P nodes k a.1 (ground arith)
]

pub find_node-ids :
    (nodes : List WorkflowNode) (k : String)
    → contains (ids nodes) k ≡ true
    → (n : WorkflowNode) × (find_node nodes k ≡ some n)
unfolding find_node
find_node-ids [] k h = cc
find_node-ids (n ∷ nodes) k h = elim (String_discrete n.id k) [
  | yes e ↦ (n, ground arith)
  | no ne ↦ let (m, e) = find_node-ids nodes k (ground arith) in (m, ground arith)
]

find_first-All {κ} :
    (P : WorkflowEdge → Type κ) (test : WorkflowEdge → Bool) (es : List WorkflowEdge)
    {e : WorkflowEdge}
    → All P es
    → find_first test es ≡ some e
    → P e
find_first-All P test [] a h = cc
find_first-All P test (d ∷ es) {e} a h = elim (Bool-cases (test d)) [
  | inl t ↦ let p : d ≡ e = ground arith in rw (← p) a.0
  | inr t ↦ find_first-All P test es a.1 (ground arith)
]

only-All {κ} :
    (P : WorkflowEdge → Type κ) (es : List WorkflowEdge) {e : WorkflowEdge}
    → All P es
    → only es ≡ some e
    → P e
only-All P [] a h = cc
only-All P (d ∷ []) {e} a h = let p : d ≡ e = cc in rw (← p) a.0
only-All P (d ∷ c ∷ es) a h = cc

only-one : (es : List WorkflowEdge) → length es ≡ 1 → (e : WorkflowEdge) × (only es ≡ some e)
only-one [] h = absurd (omega arith)
only-one (d ∷ []) h = (d, refl)
only-one (d ∷ c ∷ es) h = absurd (omega arith)

find_first-count :
    (test : WorkflowEdge → Bool) (es : List WorkflowEdge)
    → 0 < count_if test es
    → (e : WorkflowEdge) × (find_first test es ≡ some e)
find_first-count test [] h = absurd (omega arith)
find_first-count test (d ∷ es) h = elim (Bool-cases (test d)) [
  | inl p ↦ (d, ground arith)
  | inr p ↦ let (e, q) = find_first-count test es (ground arith) in (e, ground arith)
]

-- The chosen edge is one of the node's.
pub choose_edge-All {κ} :
    (P : WorkflowEdge → Type κ) (fmt : Format) (node : WorkflowNode) (edges : List WorkflowEdge)
    (values : Dict) {e : WorkflowEdge}
    → All P (candidates node.id edges)
    → choose_edge fmt node edges values ≡ some e
    → P e
unfolding choose_edge
choose_edge-All P fmt node edges values a h =
    elim (if-cases (not (node.type == "condition")) (only (candidates node.id edges)) _ h) [
      | inl (_, p) ↦ only-All P (candidates node.id edges) a p
      | inr (_, p) ↦ find_first-All P _ (candidates node.id edges) a p
    ]

-- A node with one way on, whatever the record holds.
pub record IsDetermined (edges : List WorkflowEdge) (n : WorkflowNode) : Type 0 where
  pub branches : n.type ≡ "condition" → HasBranches (candidates n.id edges)
  pub single : n.type ≢ "condition" → n.type ≢ "end" → length (candidates n.id edges) ≡ 1

branch_name : (b : Bool) → (branch_of b ≡ "true") ⊎ (branch_of b ≡ "false")
branch_name true = inl refl
branch_name false = inr refl

wanted_branch-cases :
    (fmt : Format) (node : WorkflowNode) (values : Dict)
    → (wanted_branch fmt node values ≡ "true") ⊎ (wanted_branch fmt node values ≡ "false")
unfolding wanted_branch
wanted_branch-cases fmt node values = branch_name _

choose_edge-condition :
    (fmt : Format) (node : WorkflowNode) (edges : List WorkflowEdge) (values : Dict)
    → node.type ≡ "condition"
    → choose_edge fmt node edges values
      ≡ find_first (λ e. e.condition == wanted_branch fmt node values) (candidates node.id edges)
unfolding choose_edge
choose_edge-condition fmt node edges values c = ground arith

-- A determined node that is no end has an edge to follow.
pub choose_edge-IsDetermined :
    (fmt : Format) (node : WorkflowNode) (edges : List WorkflowEdge) (values : Dict)
    → IsDetermined edges node
    → node.type ≢ "end"
    → (e : WorkflowEdge) × (choose_edge fmt node edges values ≡ some e)
unfolding choose_edge
choose_edge-IsDetermined fmt node edges values d ne = elim (String_discrete node.type "condition") [
  | yes c ↦ elim (wanted_branch-cases fmt node values) [
    | inl w ↦
        let (e, p) =
          find_first-count (λ e. e.condition == "true") (candidates node.id edges)
            (omega (arith, (d.branches c).one_true)) in
        (e, choose_edge-condition fmt node edges values c ∙ rw w p)
    | inr w ↦
        let (e, p) =
          find_first-count (λ e. e.condition == "false") (candidates node.id edges)
            (omega (arith, (d.branches c).one_false)) in
        (e, choose_edge-condition fmt node edges values c ∙ rw w p)
  ]
  | no c ↦ let (e, p) = only-one (candidates node.id edges) (d.single c ne) in (e, ground arith)
]
