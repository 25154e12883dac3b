-- ===== src/Ordering/Topological.antt =====
-- ordering/partial_order.go: TopologicalSort, for any stamps with a HappensBefore. The slices succ,
-- inDeg and used are functions of the index, of which the code only visits those below the number of
-- events. An entry of inDeg is decremented once for each time it was incremented, so that it does
-- not get below 0.
pub mod Counts
pub mod Edges
pub mod Choice
pub mod Rounds
pub mod Correct
pub mod Stamps
mod Examples
use chrono.Prelude.{
  ℕ, zero, suc, ◌+◌, ◌-◌, Bool, true, false, not, ◌&&◌, Option, none, some, List, [], ◌∷◌, ◌++◌,
  ◌==◌, if◌then◌else◌, length, get_elem?,
}
use chrono.Prelude.Strings.{Str, str_lt}
use chrono.Prelude.Sort.{sort_stable}
use chrono.Ordering.Extremes.{Event}

-- The indices from `i` on, `n` of them.
abbrev pub range : ℕ → ℕ → List ℕ
range i zero = []
range i (suc n) = i ∷ range (suc i) n

-- `a[i] = v`
abbrev pub update {ℓ} : {A : Type ℓ} → (ℕ → A) → ℕ → A → ℕ → A
update a i v j = if j == i then v else a j

pub record Graph : Type 0 where
  pub succ : ℕ → List ℕ
  pub in_deg : ℕ → ℕ

unfoldable pub no_edges : Graph
no_edges = record { succ = λ i. []; in_deg = λ i. 0 }

-- One round of the inner loop, at the indices `i` and `j`.
unfoldable pub add_edge : (ℕ → ℕ → Bool) → ℕ → ℕ → Graph → Graph
add_edge before i j g =
    if i == j
    then g
    else if before i j
    then record {
      succ = update g.succ i (g.succ i ++ (j ∷ []));
      in_deg = update g.in_deg j (g.in_deg j + 1);
    }
    else g

unfoldable pub row_loop : (ℕ → ℕ → Bool) → ℕ → List ℕ → Graph → Graph
unfolding add_edge
row_loop before i [] g = g
row_loop before i (j ∷ rest) g = row_loop before i rest (add_edge before i j g)

unfoldable pub graph_loop : (ℕ → ℕ → Bool) → List ℕ → List ℕ → Graph → Graph
unfolding row_loop
graph_loop before all [] g = g
graph_loop before all (i ∷ rest) g = graph_loop before all rest (row_loop before i all g)

-- The search through `order`: none is the index -1.
unfoldable pub choose : (ℕ → Bool) → (ℕ → ℕ) → List ℕ → Option ℕ
choose used in_deg [] = none
choose used in_deg (i ∷ rest) =
    let more = choose used in_deg rest in if not (used i) && in_deg i == 0 then some i else more

-- `for _, s := range succ[chosen] { inDeg[s]-- }`
unfoldable pub decrement : (ℕ → ℕ) → List ℕ → ℕ → ℕ
decrement in_deg [] = in_deg
decrement in_deg (s ∷ rest) = decrement (update in_deg s (in_deg s - 1)) rest

-- The main loop, with the number of events that are still missing in `out`. `at i` is the event at
-- an index, as a list of one.
module _ {ℓ} {E : Type ℓ} (order : List ℕ) (succ : ℕ → List ℕ) (at : ℕ → List E) where
  unfoldable pub main_loop : ℕ → (ℕ → Bool) → (ℕ → ℕ) → List E → List E
  unfolding choose decrement
  main_loop zero used in_deg out = out
  main_loop (suc missing) used in_deg out = elim (choose used in_deg order) [
    | none ↦ out
    | some chosen ↦
        main_loop missing (update used chosen true) (decrement in_deg (succ chosen))
          (out ++ at chosen)
  ]

module _ {ℓ} {T D : Type ℓ} where
  -- `events[i].Stamp.HappensBefore(events[j].Stamp)`
  abbrev pub before_at : (T → T → Bool) → List (Event T D) → ℕ → ℕ → Bool
  before_at happens_before events i j = elim (get_elem? events i) [
    | none ↦ false
    | some e ↦ elim (get_elem? events j) [ none ↦ false | some f ↦ happens_before e.stamp f.stamp ]
  ]

  -- `events[i].ID`
  abbrev pub id_at : List (Event T D) → ℕ → Str
  id_at events i = elim (get_elem? events i) [ none ↦ [] | some e ↦ e.id ]

  -- `events[i]`
  abbrev pub event_at : List (Event T D) → ℕ → List (Event T D)
  event_at events i = elim (get_elem? events i) [ none ↦ [] | some e ↦ e ∷ [] ]

  -- The indices sorted by the ids.
  unfoldable pub id_order : List (Event T D) → List ℕ
  id_order events =
      sort_stable (λ i j. str_lt (id_at events i) (id_at events j)) (range 0 (length events))

  unfoldable pub topological_sort : (T → T → Bool) → List (Event T D) → List (Event T D)
  unfolding graph_loop no_edges main_loop id_order
  topological_sort happens_before events =
      let n = length events in
      let all = range 0 n in
      let g = graph_loop (before_at happens_before events) all all no_edges in
      if n == 0
      then []
      else main_loop (id_order events) g.succ (event_at events) n (λ i. false) g.in_deg []
