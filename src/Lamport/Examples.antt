-- ===== src/Lamport/Examples.antt =====
-- Runs of the Lamport clock, and its theorems at concrete inputs.
use chrono.Prelude.{ℕ, ◌≤◌, ◌+◌, ◌<◌, ◌≡◌, refl, inl, none, some, [], ◌∷◌, max, arith}
use chrono.Lamport.{Clock, new, new_at, tick, receive, now, reset}
use chrono.Lamport.Bounds.{tick_op, apply, max_u64, apply_wraps}
use chrono.Lamport.Causality.{lamport, lamport_clock_condition, no_saturation}
use chrono.Causal.{Event, event_at, update, Run, start, local_event, receive_event, message}

restored : (tick (new_at 41)).1 ≡ 42
unfolding tick new_at
restored = refl

after_reset : now (reset (new_at 41) 7) ≡ 7
unfolding now reset
after_reset = refl

apply_wraps_example :
    ((apply (record { counter = max_u64 }) tick_op).1 ≡ 0)
    × (now (apply (record { counter = max_u64 }) tick_op).0 < max_u64)
apply_wraps_example = apply_wraps (record { counter = max_u64 }) tick_op refl

abbrev sent : Event ℕ
sent = record { process = 0; stamp = 1; source = none }

abbrev received : Event ℕ
received = record { process = 1; stamp = 2; source = some 0 }

abbrev clocks : ℕ → Clock
clocks = update (update (λ _. new) 0 (record { counter = 1 })) 1 (record { counter = 2 })

-- Process 0 sends, and process 1 receives.
message-Run : Run lamport (λ _. new) clocks (received ∷ sent ∷ [])
unfolding new tick receive
message-Run =
    receive_event 1 0 (local_event 0 start (omega arith, inl refl)) refl (omega arith, refl)

lamport_clock_condition_example : sent.stamp < received.stamp
lamport_clock_condition_example =
    lamport_clock_condition message-Run
      (message {i = 0} {j = 1} {a = sent} {b = received} refl refl refl) refl refl

no_saturation_example :
    ((clocks 1).counter ≤ 2)
    × ((c : Clock) × Run lamport
          (λ _. new)
          (update clocks 1 c)
          (record { process = 1; stamp = (clocks 1).counter + 1; source = none }
            ∷ received
            ∷ sent
            ∷ []))
    × ((i : ℕ) (a : Event ℕ)
        → event_at (received ∷ sent ∷ []) i ≡ some a
        → (a.stamp ≤ 2)
          × ((c : Clock) × Run lamport
                (λ _. new)
                (update clocks 1 c)
                (record { process = 1; stamp = max (clocks 1).counter a.stamp + 1; source = some i }
                  ∷ received
                  ∷ sent
                  ∷ [])))
no_saturation_example = no_saturation message-Run (omega arith) 1
