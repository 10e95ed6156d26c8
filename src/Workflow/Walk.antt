-- ===== src/Workflow/Walk.antt =====
-- What the depth-first walk of validateWorkflowGraph leaves behind: a list of visited nodes in which
-- every edge of a node leads further back.
use nexa_flow.Prelude.{
  ℕ, zero, suc, ◌≡◌, ◌⊎◌, inl, inr, true, List, [], ◌∷◌, String, ok, >>=-eq-ok, Bool-cases,
  contains, All, arith, string_eq, passed, if-cases, ok_injective,
}
use nexa_flow.Prelude.Sets.{IsDistinct, Subset, Subset-cons}
use nexa_flow.Workflow.Model.{WorkflowEdge}
use nexa_flow.Workflow.Validation.{NodeMap, EdgeMap, Step, edges_at, mark, walk_edges, walk}

-- Every edge from these leads to one of those.
abbrev pub Lead : List String → List WorkflowEdge → Type 0
Lead ids = All λ e. contains ids e.to ≡ true

abbrev pub Topo : EdgeMap → List String → Type 0
Topo out [] = Unit
Topo out (x ∷ xs) = Lead xs (edges_at out x) × Topo out xs

pub Lead-mono :
    (xs ys : List String) (es : List WorkflowEdge) → Subset xs ys → Lead xs es → Lead ys es
Lead-mono xs ys [] s l = tt
Lead-mono xs ys (e ∷ es) s l = (s e.to l.0, Lead-mono xs ys es s l.1)

-- How a walk succeeds: the node was visited before, or its edges are walked and it is marked.
walk-cases :
    (by_id : NodeMap) (out : EdgeMap) (fuel : ℕ) (visiting visited : List String) (id : String)
    {v : List String}
    → walk by_id out (suc fuel) visiting visited id ≡ ok v
    → ((contains visited id ≡ true) × (visited ≡ v))
      ⊎ ((u : List String) × (walk_edges
              (walk by_id out fuel (id ∷ visiting))
              visited
              (edges_at out id)
            ≡ ok u)
          × (mark id u ≡ v))
unfolding walk
walk-cases by_id out fuel visiting visited id h =
    elim (if-cases (contains visited id) (ok visited) _ (passed (contains visiting id) _ _ h).1) [
      | inl (there, e) ↦ inl (there, ok_injective e)
      | inr (_, e) ↦
          let (u, h0, h1) =
            >>=-eq-ok (walk_edges _ visited (edges_at out id)) _ (passed _ _ _ e).1 in
          inr (u, h0, ok_injective h1)
    ]

module _ (out : EdgeMap) (ids : List String)
    (closed : (a : String) → Lead ids (edges_at out a)) where
  pub record IsGood (visited : List String) : Type 0 where
    pub topo : Topo out visited
    pub distinct : IsDistinct visited
    pub within : Subset visited ids

  pub record Grows (before after : List String) : Type 0 where
    pub good : IsGood after
    pub more : Subset before after

  Grows-refl : {a : List String} → IsGood a → Grows a a
  Grows-refl g = record { good = g; more = λ x k. k }

  Grows-trans : {a b c : List String} → Grows a b → Grows b c → Grows a c
  Grows-trans g h = record { good = h.good; more = λ x k. h.more x (g.more x k) }

  abbrev Keeps : Step → Type 0
  Keeps step =
      (visited : List String) (id : String) (v : List String)
      → step visited id ≡ ok v
      → contains ids id ≡ true
      → IsGood visited
      → Grows visited v × (contains v id ≡ true)

  walk_edges-Grows :
      (step : Step)
      → Keeps step
      → (es : List WorkflowEdge) (visited v : List String) → walk_edges step visited es ≡ ok v
      → Lead ids es
      → IsGood visited
      → Grows visited v × Lead v es
  unfolding walk_edges
  walk_edges-Grows step keeps [] visited v h l g = rw (← ok_injective h) (Grows-refl g, tt)
  walk_edges-Grows step keeps (e ∷ es) visited v h l g =
      let (u, h0, h1) = >>=-eq-ok (step visited e.to) _ h in
      let (g0, m0) = keeps visited e.to u h0 l.0 g in
      let (g1, m1) = walk_edges-Grows step keeps es u v h1 l.1 g0.good in
      (Grows-trans g0 g1, (g1.more e.to m0, m1))

  mark-Grows :
      (id : String) (visited : List String)
      → contains ids id ≡ true
      → Lead visited (edges_at out id)
      → IsGood visited
      → Grows visited (mark id visited) × (contains (mark id visited) id ≡ true)
  unfolding mark
  mark-Grows id visited h l g = elim (Bool-cases (contains visited id)) [
    | inl there ↦ rw there (Grows-refl g, there)
    | inr missing ↦ rw missing (
      record {
        good = record {
          topo = (l, g.topo);
          distinct = (missing, g.distinct);
          within = Subset-cons id visited ids h g.within;
        };
        more = λ a k. ground arith;
      },
      ground arith,
    )
  ]

  -- A walk that succeeds has visited its node, and keeps the list in order.
  pub walk-Grows :
      (by_id : NodeMap) (fuel : ℕ) (visiting : List String) → Keeps (walk by_id out fuel visiting)
  unfolding walk
  walk-Grows by_id zero visiting visited id v h k g = cc
  walk-Grows by_id (suc fuel) visiting visited id v h k g =
      elim (walk-cases by_id out fuel visiting visited id h) [
        | inl (there, e) ↦ rw (← e) (Grows-refl g, there)
        | inr (u, h0, e) ↦
            let (g0, m0) =
              walk_edges-Grows _ (walk-Grows by_id fuel (id ∷ visiting)) (edges_at out id) visited u
                h0 (closed id) g in
            let (g1, m1) = mark-Grows id u k m0 g0.good in rw (← e) (Grows-trans g0 g1, m1)
      ]
