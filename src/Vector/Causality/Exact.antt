-- ===== src/Vector/Causality/Exact.antt =====
-- vector/compare.go: Compare on the stamps of an execution.
use chrono.Prelude.{
  ℕ, ◌<◌, ◌≤◌, ◌≡◌, ◌≢◌, ◌⊎◌, ◌↔◌, refl, sym, ap, ◌∙◌, subst, inl, inr, some, List, arith,
  eq_of_some,
}
use chrono.Prelude.Strings.{Str}
use chrono.GoMap.{counter}
use chrono.Vector.{Clock, Snapshot, new}
use chrono.Vector.Compare.{Relation, compare, before, after, equal, concurrent}
use chrono.Vector.Compare.Laws.{Le, compare_decides}
use chrono.Vector.Causality.{vector, vector_clock_condition}
use chrono.Vector.Causality.Traced.{IsTraced}
use chrono.Vector.Causality.Origin.{Run-IsTraced}
use chrono.Causal.{Event, event_at, HappensBefore, program, through, Run}
use chrono.Causal.Order.{Run-Seen}

trichotomy : (i j : ℕ) → (i < j) ⊎ ((i ≡ j) ⊎ (j < i))
trichotomy i j = grind arith

Relation-cases : (r : Relation) → (r ≡ before) ⊎ ((r ≡ after) ⊎ ((r ≡ equal) ⊎ (r ≡ concurrent)))
Relation-cases before = inl refl
Relation-cases after = inr (inl refl)
Relation-cases equal = inr (inr (inl refl))
Relation-cases concurrent = inr (inr (inr refl))

module _ (id : ℕ → Str) {cs : ℕ → Clock} {h : List (Event Snapshot)} {i j : ℕ}
    {a b : Event Snapshot} (traced : IsTraced id cs h) (ea : event_at h i ≡ some a)
    (eb : event_at h j ≡ some b) where
  -- An event whose own counter another one has reached is that one or happened before it.
  reached :
      counter a.stamp.vec (id a.process) ≤ counter b.stamp.vec (id a.process)
      → (i ≡ j) ⊎ HappensBefore h i j
  reached le = elim (traced.origin j a.process b eb) [
    | inl zero ↦ absurd (omega (arith, traced.counted i a ea))
    | inr (k, c, ec, pr, own, rel) ↦ elim (trichotomy k i) [
      | inl lt ↦
          let more = traced.grows k i c a lt ec ea pr in
          let own' = ap (λ p. counter c.stamp.vec (id p)) pr in
          let up : counter a.stamp.vec (id c.process) ≡ counter a.stamp.vec (id a.process) =
            ap (λ p. counter a.stamp.vec (id p)) pr in
          absurd (omega (arith, more, own, own', up))
      | inr (inl same) ↦ subst (λ n. (n ≡ j) ⊎ HappensBefore h n j) same rel
      | inr (inr lt) ↦
          let first : HappensBefore h i k = program lt ea ec (sym pr) in
          inr (elim rel [
            | inl last ↦ subst (λ n. HappensBefore h i n) last first
            | inr hb ↦ through first hb
          ])
    ]
  ]

module _ (id : ℕ → Str) (apart : (p q : ℕ) → p ≢ q → id p ≢ id q) {cs : ℕ → Clock}
    {h : List (Event Snapshot)} {a b : Event Snapshot} (i j : ℕ)
    (run : Run vector (λ p. new (id p)) cs h) (ea : event_at h i ≡ some a)
    (eb : event_at h j ≡ some b) where
  reached_le : Le a.stamp.vec b.stamp.vec → (i ≡ j) ⊎ HappensBefore h i j
  reached_le le = reached id (Run-IsTraced id apart run) ea eb (le (id a.process))

  same_event : i ≡ j → a ≡ b
  same_event e = eq_of_some (sym ea ∙ (ap (event_at h) e ∙ eb))

  same_le : i ≡ j → Le b.stamp.vec a.stamp.vec
  same_le e k =
      let same = ap (λ (x : Event Snapshot). counter x.stamp.vec k) (same_event e) in
      omega (arith, same)

-- In an execution of processes that start from new clocks with node ids of their own, Compare tells
-- exactly how two events are related, as long as no event finds its node's counter, its own or the
-- one received, at the largest uint64. Of their stamps it says Before exactly if the first event
-- happens before the second, After exactly if the second happens before the first, Equal exactly if
-- they are one event, and Concurrent exactly if they are two events of which neither happens before
-- the other.
pub compare_exact :
    (id : ℕ → Str)
    → ((p q : ℕ) → p ≢ q → id p ≢ id q)
    → {cs : ℕ → Clock} {h : List (Event Snapshot)} {a b : Event Snapshot} (i j : ℕ)
    → Run vector (λ p. new (id p)) cs h
    → event_at h i ≡ some a
    → event_at h j ≡ some b
    → ((compare a.stamp b.stamp ≡ before) ↔ HappensBefore h i j)
      × ((compare a.stamp b.stamp ≡ after) ↔ HappensBefore h j i)
      × ((compare a.stamp b.stamp ≡ equal) ↔ (i ≡ j))
      × ((compare a.stamp b.stamp ≡ concurrent)
          ↔ ((i ≢ j) × (¬ (HappensBefore h i j)) × (¬ (HappensBefore h j i))))
compare_exact id apart {h} {a} {b} i j run ea eb =
    let (is_equal, is_before, is_after, is_concurrent) =
      compare_decides a.stamp b.stamp ((Run-Seen vector i run ea).is_map)
        ((Run-Seen vector j run eb).is_map) in
    let forth = reached_le id apart i j run ea eb in
    let back = reached_le id apart j i run eb ea in
    let first : HappensBefore h i j → compare a.stamp b.stamp ≡ before =
      λ hb. (vector_clock_condition run hb ea eb).0 in
    let second : HappensBefore h j i → compare a.stamp b.stamp ≡ after =
      λ hb. (vector_clock_condition run hb eb ea).1 in
    let one : i ≡ j → compare a.stamp b.stamp ≡ equal =
      λ e. is_equal.1 (same_le id apart j i run eb ea (sym e), same_le id apart i j run ea eb e) in
    let before_only : compare a.stamp b.stamp ≡ before → HappensBefore h i j =
      λ e. elim (forth (is_before.0 e).0) [ inl same ↦ cc (one same, e) | inr hb ↦ hb ] in
    let after_only : compare a.stamp b.stamp ≡ after → HappensBefore h j i =
      λ e. elim (back (is_after.0 e).1) [ inl same ↦ cc (one (sym same), e) | inr hb ↦ hb ] in
    let equal_only : compare a.stamp b.stamp ≡ equal → i ≡ j =
      λ e. elim (forth (is_equal.0 e).0) [ inl same ↦ same | inr hb ↦ cc (first hb, e) ] in
    (
      (before_only, first),
      (after_only, second),
      (equal_only, one),
      (
        λ e. (λ s. cc (one s, e), λ hb. cc (first hb, e), λ hb. cc (second hb, e)),
        λ n. elim (Relation-cases (compare a.stamp b.stamp)) [
          | inl e ↦ absurd (n.1 (before_only e))
          | inr (inl e) ↦ absurd (n.2 (after_only e))
          | inr (inr (inl e)) ↦ absurd (n.0 (equal_only e))
          | inr (inr (inr e)) ↦ e
        ],
      ),
    )
