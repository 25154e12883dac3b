-- ===== src/Ordering/Topological/Stamps.antt =====
-- ordering/partial_order.go with the stamps of ordering/happens_before.go: TopologicalSort of events
-- that carry them.
use chrono.Prelude.{
  ℕ, zero, suc, ◌≡◌, refl, true, false, some, List, [], ◌∷◌, All, get_elem?, Option-cases, inl, inr,
  eq_of_some, subst, ltb, if◌then◌else◌, length,
}
use chrono.Ordering.{Stamp, happens_before}
use chrono.Ordering.Adapters.{IsStamp, happens_before_irrefl, happens_before_trans}
use chrono.Ordering.Extremes.{Event}
use chrono.Ordering.Topological.{before_at, event_at, topological_sort}
use chrono.Ordering.Topological.Counts.{count}
use chrono.Ordering.Topological.Rounds.{pick, Respects, IsLeast}
use chrono.Ordering.Topological.Correct.{before, id_less, topological_sort_correct}

All-get_elem? {ℓ κ} :
    {A : Type ℓ} (P : A → Type κ) (xs : List A) (i : ℕ) (x : A)
    → All P xs
    → get_elem? xs i ≡ some x
    → P x
All-get_elem? P [] i x h e = cc
All-get_elem? P (y ∷ ys) zero x (p, h) e = subst P (eq_of_some e) p
All-get_elem? P (y ∷ ys) (suc i) x (p, h) e = All-get_elem? P ys i x h e

module _ {D : Type 0} (events : List (Event Stamp D)) where
  abbrev pub HasStamps : Type 0
  HasStamps = All (λ (e : Event Stamp D). IsStamp e.stamp) events

  module _ (valid : HasStamps) where
    stamp_at : (i : ℕ) (e : Event Stamp D) → get_elem? events i ≡ some e → IsStamp e.stamp
    stamp_at i e at = All-get_elem? (λ (e : Event Stamp D). IsStamp e.stamp) events i e valid at

    pub before_irrefl : (i : ℕ) → before happens_before events i i ≡ false
    before_irrefl i = elim (Option-cases (get_elem? events i)) [
      | inl n ↦ rw (n, before_at) refl
      | inr (e, at) ↦ rw (at, before_at) (rw at (happens_before_irrefl e.stamp (stamp_at i e at)))
    ]

    pub before_trans :
        (i j k : ℕ)
        → before happens_before events i j ≡ true
        → before happens_before events j k ≡ true
        → before happens_before events i k ≡ true
    before_trans i j k p q = elim (Option-cases (get_elem? events i)) [
      | inl n ↦ cc (rw (n, before_at) at p)
      | inr (e, ei) ↦ elim (Option-cases (get_elem? events j)) [
        | inl n ↦ cc (rw (n, before_at) at q)
        | inr (f, fj) ↦ elim (Option-cases (get_elem? events k)) [
          | inl n ↦ cc (rw (fj, n, before_at) at q)
          | inr (g, gk) ↦
              rw (ei, gk, before_at)
                (happens_before_trans e.stamp f.stamp g.stamp (stamp_at i e ei) (stamp_at j f fj)
                  (stamp_at k g gk) (rw (ei, fj, before_at) at p) (rw (fj, gk, before_at) at q))
        ]
      ]
    ]

-- For events with the stamps of the three clocks, of one kind or mixed, TopologicalSort returns the
-- events at indices in which every index occurs once, no event happens before one in front of it, and
-- at each place stands the event with the least id of those that could stand there.
pub topological_sort_stamps :
    {D : Type 0} (events : List (Event Stamp D))
    → HasStamps events
    → (is : List ℕ) × (topological_sort happens_before events ≡ pick (event_at events) is)
      × ((i : ℕ) → count i is ≡ (if ltb i (length events) then 1 else 0))
      × Respects (before happens_before events) is
      × IsLeast (before happens_before events) (id_less happens_before events) is
topological_sort_stamps events valid =
    topological_sort_correct happens_before events (before_irrefl events valid)
      (before_trans events valid)
