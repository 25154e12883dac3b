-- ===== src/Ordering/Examples.antt =====
-- Runs of ordering, and its theorems at concrete inputs.
use chrono.Prelude.{
  arith, zero, suc, none, some, inl, sym, ap, eq_of_some, ◌==◌, ltb, if◌then◌else◌,
}
use chrono.Causal.{Event as CausalEvent, update, Run, start, local_event, receive_event}
use chrono.Lamport.{Clock, new, tick, receive}
use chrono.Lamport.Causality.{lamport}
use chrono.Ordering.Causality.{IsRecorded, lamport_adapter, RespectsCauses, sort_causally}
use chrono.Ordering.Topological.{event_at, topological_sort}
use chrono.Ordering.Topological.Counts.{count}
use chrono.Ordering.Topological.Rounds.{pick}
use chrono.Prelude.{ℕ, ◌≡◌, refl, List, [], ◌∷◌, ltb}
use chrono.Ordering.{Stamp, lamport_stamp, vector_stamp, happens_before}
use chrono.Ordering.Extremes.{Event, maximal_elements}

abbrev early : Stamp
early = vector_stamp (record { node_id = b'a' ∷ []; vec = (b'a' ∷ [], 1) ∷ [] })

abbrev late : Stamp
late = vector_stamp (record { node_id = b'b' ∷ []; vec = (b'b' ∷ [], 1) ∷ (b'a' ∷ [], 1) ∷ [] })

abbrev event : ℕ → ℕ → Event ℕ ℕ
event s d = record { id = []; stamp = s; payload = d }

abbrev events : List (Event ℕ ℕ)
events = event 2 0 ∷ event 1 0 ∷ event 3 0 ∷ event 3 1 ∷ []

frontier : maximal_elements ltb events ≡ event 3 0 ∷ event 3 1 ∷ []
unfolding maximal_elements
frontier = refl

-- Process 0 sends to process 1, with Lamport clocks; the list has the receipt in front.
abbrev sent : CausalEvent ℕ
sent = record { process = 0; stamp = 1; source = none }

abbrev received : CausalEvent ℕ
received = record { process = 1; stamp = 2; source = some 0 }

abbrev clocks : ℕ → Clock
clocks = update (update (λ _. new) 0 (record { counter = 1 })) 1 (record { counter = 2 })

message-Run : Run lamport (λ _. new) clocks (received ∷ sent ∷ [])
unfolding new tick receive
message-Run =
    receive_event 1 0 (local_event 0 start (omega arith, inl refl)) refl (omega arith, refl)

abbrev trace : List (Event Stamp ℕ)
trace =
    record { id = b'r' ∷ []; stamp = lamport_stamp 2; payload = 0 }
    ∷ record { id = b's' ∷ []; stamp = lamport_stamp 1; payload = 0 }
    ∷ []

abbrev number : ℕ → ℕ
number k = if k == 0 then 1 else 0

trace-IsRecorded : IsRecorded lamport lamport_adapter (received ∷ sent ∷ []) number trace
trace-IsRecorded zero e at =
    (received, refl, ap (λ (x : Event Stamp ℕ). x.stamp) (sym (eq_of_some at)))
trace-IsRecorded (suc zero) e at =
    (sent, refl, ap (λ (x : Event Stamp ℕ). x.stamp) (sym (eq_of_some at)))
trace-IsRecorded (suc (suc k)) e at = cc

sort_causally_example :
    (is : List ℕ) × (topological_sort happens_before trace ≡ pick (event_at trace) is)
    × ((i : ℕ) → count i is ≡ (if ltb i 2 then 1 else 0))
    × RespectsCauses (received ∷ sent ∷ []) number is
sort_causally_example =
    sort_causally lamport lamport_adapter number trace message-Run trace-IsRecorded
