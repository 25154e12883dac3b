-- ===== src/Ordering/Causality.antt =====
-- ordering/doc.go: the stamps of an execution as Comparables, and sorting its events causally.
pub mod Frontier
mod Examples
use chrono.Prelude.{
  ℕ, zero, suc, ◌<◌, ◌≡◌, refl, sym, subst, true, false, some, List, [], ◌∷◌, All, get_elem?, ltb,
  if◌then◌else◌, length, arith,
}
use chrono.Causal.{LogicalClock, Event as CausalEvent, event_at, HappensBefore, Run}
use chrono.Causal.Order.{clock_condition, Run-Seen}
use chrono.Lamport.Causality.{lamport}
use chrono.Hlc.{Timestamp, less}
use chrono.Hlc.Causality.{hlc}
use chrono.Vector.{Snapshot}
use chrono.Vector.Causality.{vector, Lt}
use chrono.Ordering.{Stamp, lamport_stamp, hlc_stamp, vector_stamp, happens_before}
use chrono.Ordering.Adapters.{IsStamp}
use chrono.Ordering.Extremes.{Event}
use chrono.Ordering.Topological.{event_at as placed, topological_sort, before_at}
use chrono.Ordering.Topological.Counts.{count, count-All}
use chrono.Ordering.Topological.Rounds.{pick, Respects}
use chrono.Ordering.Topological.Correct.{before, topological_sort_correct}
use chrono.Ordering.Topological.Stamps.{HasStamps, before_irrefl, before_trans}

-- What an adapter makes of the stamps of its clock.
pub record Adapter (clock : LogicalClock) : Type 0 where
  pub stamp : clock.Stamp → Stamp
  pub follows : (s t : clock.Stamp) → clock.Lt s t → happens_before (stamp s) (stamp t) ≡ true
  pub valid : (s : clock.Stamp) (c : clock.Clock) → clock.Seen s c → IsStamp (stamp s)

pub lamport_follows : (s t : ℕ) → s < t → happens_before (lamport_stamp s) (lamport_stamp t) ≡ true
unfolding happens_before
lamport_follows s t h = ground arith

abbrev pub lamport_adapter : Adapter lamport
lamport_adapter = record { stamp = lamport_stamp; follows = lamport_follows; valid = λ s c h. tt }

pub vector_follows :
    (s t : Snapshot) → Lt s t → happens_before (vector_stamp s) (vector_stamp t) ≡ true
unfolding happens_before
vector_follows s t lt = rw lt.order refl

pub hlc_follows :
    (s t : Timestamp) → less s t ≡ true → happens_before (hlc_stamp s) (hlc_stamp t) ≡ true
unfolding happens_before
hlc_follows s t lt = lt

abbrev pub hlc_adapter : Adapter hlc
hlc_adapter = record { stamp = hlc_stamp; follows = hlc_follows; valid = λ s c h. tt }

abbrev pub vector_adapter : Adapter vector
vector_adapter = record {
  stamp = vector_stamp;
  follows = vector_follows;
  valid = λ s c h. h.is_map;
}

get_elem?-some {ℓ} :
    {A : Type ℓ} (xs : List A) (i : ℕ) → i < length xs → (x : A) × (get_elem? xs i ≡ some x)
get_elem?-some [] i h = absurd (omega arith)
get_elem?-some (x ∷ xs) zero h = (x, refl)
get_elem?-some (x ∷ xs) (suc i) h = get_elem?-some xs i (omega arith)

get_elem?-All {ℓ κ} :
    {A : Type ℓ} (P : A → Type κ) (xs : List A)
    → ((i : ℕ) (x : A) → get_elem? xs i ≡ some x → P x)
    → All P xs
get_elem?-All P [] f = tt
get_elem?-All P (x ∷ xs) f = (f zero x refl, get_elem?-All P xs (λ i y e. f (suc i) y e))

module _ (clock : LogicalClock) (adapter : Adapter clock) {D : Type 0}
    (h : List (CausalEvent clock.Stamp)) (number : ℕ → ℕ) (events : List (Event Stamp D)) where
  -- The event at each index is that of the execution with the number of the index, with its stamp.
  abbrev pub IsRecorded : Type 0
  IsRecorded =
      (k : ℕ) (e : Event Stamp D)
      → get_elem? events k ≡ some e
      → (a : CausalEvent clock.Stamp) × (event_at h (number k) ≡ some a)
        × (e.stamp ≡ adapter.stamp a.stamp)

-- No event happens before one in front of it.
abbrev pub RespectsCauses : {S : Type 0} → List (CausalEvent S) → (ℕ → ℕ) → List ℕ → Type 0
RespectsCauses h number [] = Unit
RespectsCauses h number (i ∷ rest) =
    All (λ j. ¬ (HappensBefore h (number j) (number i))) rest × RespectsCauses h number rest

module _ (clock : LogicalClock) (adapter : Adapter clock) {D : Type 0} {init cs : ℕ → clock.Clock}
    {h : List (CausalEvent clock.Stamp)} (number : ℕ → ℕ) (events : List (Event Stamp D))
    (run : Run clock init cs h) (recorded : IsRecorded clock adapter h number events) where
  pub recorded-HasStamps : HasStamps events
  recorded-HasStamps =
      get_elem?-All (λ (e : Event Stamp D). IsStamp e.stamp) events
        (λ k e at.
          let (a, ea, same) = recorded k e at in
          subst IsStamp (sym same)
            (adapter.valid a.stamp (cs a.process) (Run-Seen clock (number k) run ea)))

  causes_before :
      (i j : ℕ)
      → i < length events
      → j < length events
      → HappensBefore h (number i) (number j)
      → before happens_before events i j ≡ true
  causes_before i j hi hj hb =
      let (e, ei) = get_elem?-some events i hi in
      let (f, fj) = get_elem?-some events j hj in
      let (a, ea, same_a) = recorded i e ei in
      let (b, eb, same_b) = recorded j f fj in
      rw (ei, fj, before_at)
        (rw (same_a, same_b) (adapter.follows a.stamp b.stamp (clock_condition clock run hb ea eb)))

  no_cause :
      (i : ℕ) (rest : List ℕ)
      → i < length events
      → All (λ j. j < length events) rest
      → All (λ j. before happens_before events j i ≡ false) rest
      → All (λ j. ¬ (HappensBefore h (number j) (number i))) rest
  no_cause i [] hi hs n = tt
  no_cause i (j ∷ rest) hi (hj, hs) (nj, n) =
      (λ hb. cc (causes_before j i hj hi hb, nj), no_cause i rest hi hs n)

  Respects-RespectsCauses :
      (is : List ℕ)
      → All (λ j. j < length events) is
      → Respects (before happens_before events) is
      → RespectsCauses h number is
  Respects-RespectsCauses [] hs r = tt
  Respects-RespectsCauses (i ∷ rest) (hi, hs) (n, r) =
      (no_cause i rest hi hs n, Respects-RespectsCauses rest hs r)

within_length :
    (n : ℕ) (is : List ℕ)
    → ((i : ℕ) → count i is ≡ (if ltb i n then 1 else 0))
    → All (λ j. j < n) is
within_length n is once = count-All (λ j. j < n) is (λ i some_time. ground (arith, once i))

-- Sorting the events of an execution sorts them causally. For an execution of processes with Lamport,
-- hybrid logical or vector clocks, and events that carry its stamps through the adapter of the clock,
-- TopologicalSort returns the events at indices in which every index occurs once and no event is
-- behind one that it happens before, as long as no event finds a counter at its largest value.
pub sort_causally :
    (clock : LogicalClock) (adapter : Adapter clock) {D : Type 0} {init cs : ℕ → clock.Clock}
    {h : List (CausalEvent clock.Stamp)} (number : ℕ → ℕ) (events : List (Event Stamp D))
    → Run clock init cs h
    → IsRecorded clock adapter h number events
    → (is : List ℕ) × (topological_sort happens_before events ≡ pick (placed events) is)
      × ((i : ℕ) → count i is ≡ (if ltb i (length events) then 1 else 0))
      × RespectsCauses h number is
sort_causally clock adapter number events run recorded =
    let stamps = recorded-HasStamps clock adapter number events run recorded in
    let (is, picked, once, respects, least) =
      topological_sort_correct happens_before events (before_irrefl events stamps)
        (before_trans events stamps) in
    (
      is,
      picked,
      once,
      Respects-RespectsCauses clock adapter number events run recorded is
          (within_length (length events) is once) respects,
    )
