-- ===== src/Ordering/Causality/Examples.antt =====
-- The frontiers of the events of an execution with vector clocks, the theorem at a concrete input.
use chrono.Prelude.{
  ℕ, zero, suc, ◌≡◌, ◌↔◌, refl, ap, sym, Bool, true, some, List, [], ◌∷◌, ◌==◌, if◌then◌else◌,
  get_elem?, eq_of_some,
}
use chrono.Prelude.Strings.{str_eq}
use chrono.GoMap.{lookup}
use chrono.Causal.{HappensBefore}
use chrono.Vector.Compare.{compare, compare_loop, absent_loop}
use chrono.Vector.Causality.{vector}
use chrono.Vector.Causality.Delivery.{id, ids_apart, sent, received, message-Run}
use chrono.Ordering.{Stamp, vector_stamp, happens_before}
use chrono.Ordering.Extremes.{Event, maximal_elements, minimal_elements}
use chrono.Ordering.Extremes.Frontier.{select}
use chrono.Ordering.Causality.{IsRecorded, vector_adapter}
use chrono.Ordering.Causality.Frontier.{causal_frontiers}

abbrev receipt : Event Stamp ℕ
receipt = record { id = b'r' ∷ []; stamp = vector_stamp received.stamp; payload = 0 }

abbrev sending : Event Stamp ℕ
sending = record { id = b's' ∷ []; stamp = vector_stamp sent.stamp; payload = 0 }

-- The receipt is in front, and the second event of the execution.
abbrev trace : List (Event Stamp ℕ)
trace = receipt ∷ sending ∷ []

abbrev number : ℕ → ℕ
number k = if k == 0 then 1 else 0

trace-IsRecorded : IsRecorded vector vector_adapter (received ∷ sent ∷ []) number trace
trace-IsRecorded zero e at =
    (received, refl, ap (λ (x : Event Stamp ℕ). x.stamp) (sym (eq_of_some at)))
trace-IsRecorded (suc zero) e at =
    (sent, refl, ap (λ (x : Event Stamp ℕ). x.stamp) (sym (eq_of_some at)))
trace-IsRecorded (suc (suc k)) e at = cc

last_event : maximal_elements happens_before trace ≡ receipt ∷ []
unfolding maximal_elements happens_before compare compare_loop absent_loop lookup str_eq
last_event = refl

first_event : minimal_elements happens_before trace ≡ sending ∷ []
unfolding minimal_elements happens_before compare compare_loop absent_loop lookup str_eq
first_event = refl

causal_frontiers_example :
    (last first : Event Stamp ℕ → Bool) × (maximal_elements happens_before trace
      ≡ select last trace)
    × (minimal_elements happens_before trace ≡ select first trace)
    × ((k : ℕ) (e : Event Stamp ℕ)
        → get_elem? trace k ≡ some e
        → ((last e ≡ true) ↔ (
            (m : ℕ) (f : Event Stamp ℕ)
            → get_elem? trace m ≡ some f
            → ¬ (HappensBefore (received ∷ sent ∷ []) (number k) (number m))))
          × ((first e ≡ true) ↔ (
              (m : ℕ) (f : Event Stamp ℕ)
              → get_elem? trace m ≡ some f
              → ¬ (HappensBefore (received ∷ sent ∷ []) (number m) (number k)))))
causal_frontiers_example = causal_frontiers id ids_apart number trace message-Run trace-IsRecorded
