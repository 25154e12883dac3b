-- ===== src/Ordering/Topological/Correct.antt =====
-- ordering/partial_order.go: what TopologicalSort returns.
use chrono.Prelude.{
  ℕ, zero, suc, ◌≤◌, ◌<◌, ◌≡◌, refl, ap, ◌∙◌, Bool, true, false, List, [], ◌∷◌, ◌==◌, ltb,
  if◌then◌else◌, arith, Bool-cases, Option-cases, inl, inr, length, get_elem?, get_elem?_bound,
}
use chrono.Prelude.Strings.{Str, str_lt, str_lt_irrefl, str_lt_trans, str_lt_total}
use chrono.Prelude.Sort.{IsOrdered, sort_stable-IsOrdered}
use chrono.Ordering.Extremes.{Event}
use chrono.Ordering.Topological.{
  range, no_edges, graph_loop, before_at, id_at, event_at, id_order, topological_sort,
}
use chrono.Ordering.Topological.Counts.{count, count-range, count-sort_stable, count_if}
use chrono.Ordering.Topological.Edges.{edge, no_edges-in_deg, no_edges-succ}
use chrono.Ordering.Topological.Rounds.{
  indices, indices-zero, pick, main_loop-indices, Respects, IsLeast, IsRound, count-indices,
  indices-Respects, indices-IsLeast,
}

str_lt_asymm : (a b : Str) → str_lt a b ≡ true → str_lt b a ≡ false
str_lt_asymm a b h = elim (Bool-cases (str_lt b a)) [
  | inl e ↦ cc (str_lt_trans a b a h e, str_lt_irrefl a)
  | inr e ↦ e
]

not-str_lt_trans : (a b c : Str) → str_lt c b ≡ false → str_lt b a ≡ false → str_lt c a ≡ false
not-str_lt_trans a b c h k = elim (Bool-cases (str_lt c a)) [
  | inr e ↦ e
  | inl e ↦ elim (Bool-cases (str_lt a b)) [
    | inl f ↦ cc (str_lt_trans c a b e f, h)
    | inr f ↦ cc (h, ap (str_lt c) (str_lt_total a b f k))
  ]
]

count_pass : (p : ℕ → Bool) (xs : List ℕ) → ((i : ℕ) → p i ≡ true) → count_if p xs ≡ length xs
count_pass p [] h = refl
count_pass p (x ∷ xs) h = rw (h x) (omega (arith, count_pass p xs h))

length-range : (i n : ℕ) → length (range i n) ≡ n
length-range i zero = refl
length-range i (suc n) = omega (arith, length-range (suc i) n)

module _ {T D : Type 0} (happens_before : T → T → Bool) (events : List (Event T D)) where
  abbrev pub before : ℕ → ℕ → Bool
  before = before_at happens_before events

  -- The order of the ids.
  abbrev pub id_less : ℕ → ℕ → Bool
  id_less i j = str_lt (id_at events i) (id_at events j)

  abbrev all : List ℕ
  all = range 0 (length events)

  -- Only events come before one another.
  before_within : (i j : ℕ) → before i j ≡ true → (i < length events) × (j < length events)
  before_within i j h = elim (Option-cases (get_elem? events i)) [
    | inl n ↦ cc (rw (n, before_at) at h)
    | inr (e, ei) ↦ elim (Option-cases (get_elem? events j)) [
      | inl n ↦ cc (rw (ei, n, before_at) at h)
      | inr (f, fj) ↦ (get_elem?_bound events i e ei, get_elem?_bound events j f fj)
    ]
  ]

  count-all : (i : ℕ) → count i all ≡ (if ltb i (length events) then 1 else 0)
  count-all i = ground (arith, count-range i 0 (length events))

  sorted : List ℕ
  sorted =
      indices (id_order events) ((graph_loop before all all no_edges).succ) (length events)
        (λ i. false) ((graph_loop before all all no_edges).in_deg)

  topological_sort-pick : topological_sort happens_before events ≡ pick (event_at events) sorted
  unfolding topological_sort sorted
  topological_sort-pick = elim (Bool-cases (length events == 0)) [
    | inl e ↦ let empty : length events ≡ 0 = ground arith in rw e (rw empty (rw indices-zero refl))
    | inr e ↦ rw e (main_loop-indices (id_order events) _ (event_at events) (length events) _ _ [])
  ]

  module _ (irrefl : (i : ℕ) → before i i ≡ false)
      (trans : (i j k : ℕ) → before i j ≡ true → before j k ≡ true → before i k ≡ true) where
    order-IsOrdered : IsOrdered id_less (id_order events)
    unfolding id_order
    order-IsOrdered =
        sort_stable-IsOrdered id_less (λ i j. str_lt_asymm (id_at events i) (id_at events j))
          (λ i j k. not-str_lt_trans (id_at events i) (id_at events j) (id_at events k)) all

    order_perm : (i : ℕ) → count i (id_order events) ≡ count i all
    unfolding id_order
    order_perm i = count-sort_stable id_less i all

    once : (i : ℕ) → count i all ≤ 1
    once i = ground (arith, count-all i)

    succs :
        (h j : ℕ)
        → count j ((graph_loop before all all no_edges).succ h)
          ≡ (if edge before h j then count h all else 0)
    succs h j =
        no_edges-succ before all j (λ i e. ground (arith, before_within i j, count-all j)) h all

    first-IsRound :
        IsRound before all
          (length events)
          (λ i. false)
          ((graph_loop before all all no_edges).in_deg)
    first-IsRound = record {
      degs = λ j.
          no_edges-in_deg before all j (λ i e. ground (arith, before_within i j, count-all j)) all;
      left = count_pass (λ i. true) all (λ i. refl) ∙ length-range 0 (length events);
    }

-- Where HappensBefore is irreflexive and transitive on the events, TopologicalSort returns the events
-- at indices `is` in which every index occurs once, so that no event is lost or repeated. No event
-- happens before one in front of it. And at each place stands the event with the least id of those
-- that could stand there: no later event that no event from this place on happens before has a lesser
-- id.
pub topological_sort_correct :
    {T D : Type 0} (happens_before : T → T → Bool) (events : List (Event T D))
    → ((i : ℕ) → before happens_before events i i ≡ false)
    → ((i j k : ℕ)
        → before happens_before events i j ≡ true
        → before happens_before events j k ≡ true
        → before happens_before events i k ≡ true)
    → (is : List ℕ) × (topological_sort happens_before events ≡ pick (event_at events) is)
      × ((i : ℕ) → count i is ≡ (if ltb i (length events) then 1 else 0))
      × Respects (before happens_before events) is
      × IsLeast (before happens_before events) (id_less happens_before events) is
unfolding sorted
topological_sort_correct happens_before events irrefl trans =
    let less_irrefl = λ (i : ℕ). str_lt_irrefl (id_at events i) in
    let ordered = order-IsOrdered happens_before events irrefl trans in
    let perm = order_perm happens_before events irrefl trans in
    let single = once happens_before events irrefl trans in
    let next = succs happens_before events irrefl trans in
    let round = first-IsRound happens_before events irrefl trans in
    let b = before happens_before events in
    let less = id_less happens_before events in
    let order = id_order events in
    let g = graph_loop b (range 0 (length events)) (range 0 (length events)) no_edges in
    (
      sorted happens_before events,
      topological_sort-pick happens_before events,
      λ i.
          count-indices b less _ order _ irrefl trans less_irrefl ordered perm single next _ _ _
            round i
          ∙ count-all happens_before events i,
      indices-Respects b less _ order _ irrefl trans less_irrefl ordered perm single next _ _ _
          round,
      indices-IsLeast b less _ order _ irrefl trans less_irrefl ordered perm single next _ _ _
          round,
    )
