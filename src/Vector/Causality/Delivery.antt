-- ===== src/Vector/Causality/Delivery.antt =====
-- An execution of vector clocks for the examples: process 0 sends to process 1. The node ids are
-- strings of different lengths.
use chrono.Prelude.{ℕ, zero, suc, ◌≡◌, ◌≢◌, refl, ap, none, some, inl, [], ◌∷◌, length, arith}
use chrono.Prelude.Strings.{Str, str_eq}
use chrono.GoMap.{insert, copy_into, lookup}
use chrono.GoMap.Loops.{merge_loop}
use chrono.Causal.{Event, update, Run, start, local_event, receive_event}
use chrono.Vector.{Clock, Snapshot, new, tick, receive}
use chrono.Vector.Causality.{Local, Receive, vector}

abbrev unary : ℕ → Str
unary zero = []
unary (suc n) = b'x' ∷ unary n

abbrev pub id : ℕ → Str
id p = b'x' ∷ unary p

length-unary : (n : ℕ) → length (unary n) ≡ n
length-unary zero = refl
length-unary (suc n) = rw (length-unary n) refl

pub ids_apart : (p q : ℕ) → p ≢ q → id p ≢ id q
ids_apart p q ne e =
    ne (omega (arith, ap (λ (k : Str). length k) e, length-unary p, length-unary q))

abbrev pub first : Str
first = id 0

abbrev pub second : Str
second = id 1

abbrev pub sent : Event Snapshot
sent = record {
  process = 0;
  stamp = record { node_id = first; vec = (first, 1) ∷ [] };
  source = none;
}

abbrev pub received : Event Snapshot
received = record {
  process = 1;
  stamp = record { node_id = second; vec = (first, 1) ∷ (second, 1) ∷ [] };
  source = some 0;
}

abbrev pub begin : ℕ → Clock
begin p = new (id p)

abbrev pub clocks : ℕ → Clock
clocks =
    update (update begin 0 (record { node_id = first; vec = sent.stamp.vec })) 1
      (record { node_id = second; vec = received.stamp.vec })

departure : Local (begin 0) (clocks 0) sent.stamp
unfolding new tick insert copy_into lookup
departure = record { is_map = tt; room = omega arith; call = inl refl }

arrival : Receive (begin 1) sent.stamp (clocks 1) received.stamp
unfolding new receive merge_loop insert copy_into lookup str_eq
arrival = record { is_map = tt; remote_map = (refl, tt); room = omega arith; call = refl }

pub message-Run : Run vector begin clocks (received ∷ sent ∷ [])
message-Run = receive_event 1 0 (local_event 0 start departure) refl arrival
