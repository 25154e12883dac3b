-- ===== src/Ordering/Topological/Edges.antt =====
-- ordering/partial_order.go: the edges that TopologicalSort collects, and their decrements.
use chrono.Prelude.{
  ℕ, ◌+◌, ◌-◌, ◌≡◌, ap, ◌∙◌, Bool, true, List, [], ◌∷◌, ◌==◌, ==_iff, if◌then◌else◌, arith,
  Bool-cases, inl, inr, ◌&&◌, not,
}
use chrono.Ordering.Topological.{Graph, update, add_edge, row_loop, graph_loop, no_edges, decrement}
use chrono.Ordering.Topological.Counts.{count, count_if, count-append_one}

module _ (before : ℕ → ℕ → Bool) where
  -- An edge of the graph.
  abbrev pub edge : ℕ → ℕ → Bool
  edge i j = not (i == j) && before i j

  add_edge-in_deg :
      (i j k : ℕ) (g : Graph)
      → (add_edge before i k g).in_deg j ≡ g.in_deg j + (if k == j && edge i k then 1 else 0)
  unfolding add_edge
  add_edge-in_deg i j k g = elim (Bool-cases (i == k)) [
    | inl e ↦ rw e (ground arith)
    | inr e ↦ elim (Bool-cases (before i k)) [
      | inl b ↦ rw (e, b) (ground (arith, ==_iff k j, ==_iff j k))
      | inr b ↦ rw (e, b) (ground arith)
    ]
  ]

  add_edge-succ :
      (i j h k : ℕ) (g : Graph)
      → count j ((add_edge before i k g).succ h)
        ≡ count j (g.succ h) + (if h == i && (k == j && edge i k) then 1 else 0)
  unfolding add_edge
  add_edge-succ i j h k g = elim (Bool-cases (i == k)) [
    | inl e ↦ rw e (ground arith)
    | inr e ↦ elim (Bool-cases (before i k)) [
      | inl b ↦ rw (e, b) (ground (arith, ==_iff h i, count-append_one j k (g.succ i)))
      | inr b ↦ rw (e, b) (ground arith)
    ]
  ]

  edge_same : (i j k : ℕ) → (k == j) ≡ true → edge i k ≡ edge i j
  edge_same i j k e = ap (edge i) ((==_iff k j).0 e)

  row-in_deg :
      (i j : ℕ) (js : List ℕ) (g : Graph)
      → (row_loop before i js g).in_deg j ≡ g.in_deg j + (if edge i j then count j js else 0)
  unfolding row_loop
  row-in_deg i j [] g = ground arith
  row-in_deg i j (k ∷ js) g = elim (Bool-cases (k == j)) [
    | inl e ↦
        row-in_deg i j js (add_edge before i k g)
        ∙ rw (add_edge-in_deg i j k g, e, edge_same i j k e) (ground arith)
    | inr e ↦
        row-in_deg i j js (add_edge before i k g) ∙ rw (add_edge-in_deg i j k g, e) (ground arith)
  ]

  row-succ :
      (i j h : ℕ) (js : List ℕ) (g : Graph)
      → count j ((row_loop before i js g).succ h)
        ≡ count j (g.succ h) + (if h == i && edge i j then count j js else 0)
  unfolding row_loop
  row-succ i j h [] g = ground arith
  row-succ i j h (k ∷ js) g = elim (Bool-cases (k == j)) [
    | inl e ↦
        row-succ i j h js (add_edge before i k g)
        ∙ rw (add_edge-succ i j h k g, e, edge_same i j k e) (ground arith)
    | inr e ↦
        row-succ i j h js (add_edge before i k g) ∙ rw (add_edge-succ i j h k g, e) (ground arith)
  ]

  module _ (all : List ℕ) (j : ℕ) (once : (i : ℕ) → edge i j ≡ true → count j all ≡ 1) where
    graph-in_deg :
        (is : List ℕ) (g : Graph)
        → (graph_loop before all is g).in_deg j ≡ g.in_deg j + count_if (λ i. edge i j) is
    unfolding graph_loop
    graph-in_deg [] g = omega arith
    graph-in_deg (i ∷ is) g =
        ground (arith, graph-in_deg is (row_loop before i all g), row-in_deg i j all g, once i)

    graph-succ :
        (h : ℕ) (is : List ℕ) (g : Graph)
        → count j ((graph_loop before all is g).succ h)
          ≡ count j (g.succ h) + (if edge h j then count h is else 0)
    unfolding graph_loop
    graph-succ h [] g = ground arith
    graph-succ h (i ∷ is) g =
        ground (
          arith,
          graph-succ h is (row_loop before i all g),
          row-succ i j h all g,
          once i,
          ==_iff h i,
        )

    -- After the loops inDeg holds the number of the predecessors, and succ the successors.
    pub no_edges-in_deg :
        (is : List ℕ) → (graph_loop before all is no_edges).in_deg j ≡ count_if (λ i. edge i j) is
    unfolding no_edges
    no_edges-in_deg is = omega (arith, graph-in_deg is no_edges)

    pub no_edges-succ :
        (h : ℕ) (is : List ℕ)
        → count j ((graph_loop before all is no_edges).succ h)
          ≡ (if edge h j then count h is else 0)
    unfolding no_edges
    no_edges-succ h is = ground (arith, graph-succ h is no_edges)

pub decrement_lem :
    (ss : List ℕ) (in_deg : ℕ → ℕ) (j : ℕ) → decrement in_deg ss j ≡ in_deg j - count j ss
unfolding decrement
decrement_lem [] in_deg j = omega arith
decrement_lem (s ∷ ss) in_deg j =
    ground (arith, decrement_lem ss (update in_deg s (in_deg s - 1)) j, ==_iff s j)
