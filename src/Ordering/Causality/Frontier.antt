-- ===== src/Ordering/Causality/Frontier.antt =====
-- ordering/partial_order.go with vector/compare.go: the frontiers of the events of an execution.
use chrono.Prelude.{
  ℕ, zero, suc, ◌≡◌, ◌≢◌, ◌↔◌, refl, Bool, Bool-cases, inl, inr, true, false, some, List, [], ◌∷◌,
  All, get_elem?, eq_of_some, subst, arith,
}
use chrono.Prelude.Strings.{Str}
use chrono.Causal.{Event as CausalEvent, HappensBefore, Run}
use chrono.Vector.{Clock, Snapshot, new}
use chrono.Vector.Compare.{Relation, compare, before, after, equal, concurrent}
use chrono.Vector.Causality.{vector}
use chrono.Vector.Causality.Exact.{compare_exact}
use chrono.Ordering.{Stamp, is_before, vector_stamp, happens_before}
use chrono.Ordering.Adapters.{happens_before_irrefl}
use chrono.Ordering.Topological.Stamps.{HasStamps}
use chrono.Ordering.Causality.{IsRecorded, vector_adapter, recorded-HasStamps}
use chrono.Ordering.Extremes.{Event, maximal_elements, minimal_elements}
use chrono.Ordering.Extremes.Frontier.{select, none_of, is_last, is_first, extremes-select}

none_of-cons :
    {A : Type 0} (p : A → Bool) (x : A) (xs : List A)
    → none_of p (x ∷ xs) ≡ true
    → (p x ≡ false) × (none_of p xs ≡ true)
unfolding none_of
none_of-cons p x xs h = ground (arith, h)

-- The test fails at every index.
none_of-true :
    {A : Type 0} (p : A → Bool) (xs : List A)
    → none_of p xs ≡ true
    → (m : ℕ) (x : A) → get_elem? xs m ≡ some x
    → p x ≡ false
none_of-true p [] h m x at = cc
none_of-true p (y ∷ ys) h zero x at =
    subst (λ z. p z ≡ false) (eq_of_some at) (none_of-cons p y ys h).0
none_of-true p (y ∷ ys) h (suc m) x at = none_of-true p ys (none_of-cons p y ys h).1 m x at

none_of-none :
    {A : Type 0} (p : A → Bool) (xs : List A)
    → ((m : ℕ) (x : A) → get_elem? xs m ≡ some x → p x ≡ false)
    → none_of p xs ≡ true
unfolding none_of
none_of-none p [] f = refl
none_of-none p (y ∷ ys) f = rw (f zero y refl) (none_of-none p ys (λ m x at. f (suc m) x at))

is_before-true : (r : Relation) → (is_before r ≡ true) ↔ (r ≡ before)
unfolding is_before
is_before-true before = (λ e. refl, λ e. refl)
is_before-true after = ground arith
is_before-true equal = ground arith
is_before-true concurrent = ground arith

happens_before-compare :
    (s t : Snapshot)
    → (happens_before (vector_stamp s) (vector_stamp t) ≡ true) ↔ (compare s t ≡ before)
unfolding happens_before
happens_before-compare s t = is_before-true (compare s t)

module _ (id : ℕ → Str) (apart : (p q : ℕ) → p ≢ q → id p ≢ id q) {D : Type 0} {cs : ℕ → Clock}
    {h : List (CausalEvent Snapshot)} (number : ℕ → ℕ) (events : List (Event Stamp D))
    (run : Run vector (λ p. new (id p)) cs h)
    (recorded : IsRecorded vector vector_adapter h number events) where
  stamps_exact :
      (k m : ℕ) (e f : Event Stamp D)
      → get_elem? events k ≡ some e
      → get_elem? events m ≡ some f
      → (happens_before e.stamp f.stamp ≡ true) ↔ HappensBefore h (number k) (number m)
  stamps_exact k m e f ek fm =
      let (a, ea, same_a) = recorded k e ek in
      let (b, eb, same_b) = recorded m f fm in
      let exact = (compare_exact id apart (number k) (number m) run ea eb).0 in
      let test = happens_before-compare a.stamp b.stamp in
      rw (same_a, same_b) (λ t. exact.0 (test.0 t), λ hb. test.1 (exact.1 hb))

  is_last_iff :
      (k : ℕ) (e : Event Stamp D)
      → get_elem? events k ≡ some e
      → (is_last happens_before events e ≡ true) ↔ (
          (m : ℕ) (f : Event Stamp D)
          → get_elem? events m ≡ some f
          → ¬ (HappensBefore h (number k) (number m)))
  is_last_iff k e ek = (
    λ last m f fm hb. cc (
      none_of-true (λ g. happens_before e.stamp g.stamp) events last m f fm,
      (stamps_exact k m e f ek fm).1 hb,
    ),
    λ no_effect.
        none_of-none (λ g. happens_before e.stamp g.stamp) events
          (λ m f fm. elim (Bool-cases (happens_before e.stamp f.stamp)) [
            | inl test ↦ absurd (no_effect m f fm ((stamps_exact k m e f ek fm).0 test))
            | inr test ↦ test
          ]),
  )

  is_first_iff :
      (k : ℕ) (e : Event Stamp D)
      → get_elem? events k ≡ some e
      → (is_first happens_before events e ≡ true) ↔ (
          (m : ℕ) (f : Event Stamp D)
          → get_elem? events m ≡ some f
          → ¬ (HappensBefore h (number m) (number k)))
  is_first_iff k e ek = (
    λ first m f fm hb. cc (
      none_of-true (λ g. happens_before g.stamp e.stamp) events first m f fm,
      (stamps_exact m k f e fm ek).1 hb,
    ),
    λ no_cause.
        none_of-none (λ g. happens_before g.stamp e.stamp) events
          (λ m f fm. elim (Bool-cases (happens_before f.stamp e.stamp)) [
            | inl test ↦ absurd (no_cause m f fm ((stamps_exact m k f e fm ek).0 test))
            | inr test ↦ test
          ]),
  )

stamps_irrefl :
    {D : Type 0} (events : List (Event Stamp D))
    → HasStamps events
    → All (λ (e : Event Stamp D). happens_before e.stamp e.stamp ≡ false) events
stamps_irrefl [] valid = tt
stamps_irrefl (e ∷ rest) (valid, others) =
    (happens_before_irrefl e.stamp valid, stamps_irrefl rest others)

-- For an execution of processes with vector clocks that start new and have node ids of their own, and
-- events that carry its stamps through the adapter, MaximalElements returns exactly the events that
-- happen before no event of the input, and MinimalElements exactly those that no event of the input
-- happens before, in the causal order of the execution itself: each of them as often as it occurs and
-- in the input's order, as long as no event of the execution finds its node's counter, its own or the
-- one received, at the largest uint64.
pub causal_frontiers :
    (id : ℕ → Str)
    → ((p q : ℕ) → p ≢ q → id p ≢ id q)
    → {D : Type 0} {cs : ℕ → Clock} {h : List (CausalEvent Snapshot)} (number : ℕ → ℕ)
      (events : List (Event Stamp D))
    → Run vector (λ p. new (id p)) cs h
    → IsRecorded vector vector_adapter h number events
    → (last first : Event Stamp D → Bool) × (maximal_elements happens_before events
        ≡ select last events)
      × (minimal_elements happens_before events ≡ select first events)
      × ((k : ℕ) (e : Event Stamp D)
          → get_elem? events k ≡ some e
          → ((last e ≡ true) ↔ (
              (m : ℕ) (f : Event Stamp D)
              → get_elem? events m ≡ some f
              → ¬ (HappensBefore h (number k) (number m))))
            × ((first e ≡ true) ↔ (
                (m : ℕ) (f : Event Stamp D)
                → get_elem? events m ≡ some f
                → ¬ (HappensBefore h (number m) (number k)))))
causal_frontiers id apart number events run recorded =
    let stamps = recorded-HasStamps vector vector_adapter number events run recorded in
    let (maximal, minimal) = extremes-select happens_before events (stamps_irrefl events stamps) in
    (
      is_last happens_before events,
      is_first happens_before events,
      maximal,
      minimal,
      λ k e ek. (
        is_last_iff id apart number events run recorded k e ek,
        is_first_iff id apart number events run recorded k e ek,
      ),
    )
