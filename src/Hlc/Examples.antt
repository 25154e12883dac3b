-- ===== src/Hlc/Examples.antt =====
-- Runs of the hybrid logical clock, and its theorems at concrete inputs.
use chrono.Prelude.{
  ℕ, ◌≡◌, ◌≢◌, ◌↔◌, refl, inl, inr, true, none, some, List, [], ◌∷◌, length, arith,
}
use chrono.Prelude.Int.{pos, negsuc, ◌+ℤ◌, ◌≤ℤ◌}
use chrono.Prelude.Words.{to_u64}
use chrono.Prelude.Bytes.{be_bytes}
use chrono.Hlc.{
  Timestamp, IsTimestamp, Clock, zero_timestamp, less, now, send, current, receive, new,
  new_with_max_drift, ok, max_drift_exceeded, merged,
}
use chrono.Hlc.Advance.{HasRoom, new_wall, receive_wall, now_advances, receive_advances}
use chrono.Hlc.Drift.{Op, now_op, send_op, receive_op, run, drift_bounded, overflow_rejects}
use chrono.Hlc.Encode.{marshal_binary, unmarshal_binary, corrupt_encoding}
use chrono.Prelude.Json.{Json}
use chrono.Prelude.Decimal.{decimal, digits}
use chrono.Hlc.Json.{JsonTimestamp, marshal_json, unmarshal_json, take_json}
use chrono.Hlc.Text.{to_string, decimal_ℤ}
use chrono.Hlc.Forms.{parse, forms_round_trip}
use chrono.Hlc.Encode.RoundTrip.{marshal_binary-unmarshal_binary}
use chrono.Hlc.Causality.{hlc, hlc_clock_condition, Local, Receive}
use chrono.Causal.{Event, update, Run, start, local_event, receive_event, message}

abbrev at : ℕ → ℕ → Timestamp
at w c = record { wall_time = pos w; logical = c }

abbrev clock : Timestamp → ℕ → Clock
clock s d = record { state = s; max_drift = pos d }

-- The wall clock stands still: the logical counter moves.
now_advances_example :
    ((less (current (clock (at 9 4) 0)) (now (clock (at 9 4) 0) (pos 5)).1 ≡ true)
      ↔ HasRoom (at 9 4) (new_wall (clock (at 9 4) 0) (pos 5)))
    × ((now (clock (at 9 4) 0) (pos 5)).1.wall_time ≡ new_wall (clock (at 9 4) 0) (pos 5))
    × (current (now (clock (at 9 4) 0) (pos 5)).0 ≡ (now (clock (at 9 4) 0) (pos 5)).1)
    × (send (clock (at 9 4) 0) (pos 5) ≡ now (clock (at 9 4) 0) (pos 5))
now_advances_example = now_advances (clock (at 9 4) 0) (pos 5) (omega arith)

accepted : receive (clock (at 9 4) 0) (pos 5) (at 9 7) ≡ (clock (at 9 8) 0, ok (at 9 8))
unfolding receive merged
accepted = refl

receive_advances_example :
    (((less (current (clock (at 9 4) 0)) (at 9 8) ≡ true) × (less (at 9 7) (at 9 8) ≡ true)) ↔ (
      HasRoom (at 9 4) (receive_wall (clock (at 9 4) 0) (pos 5) (at 9 7))
      × HasRoom (at 9 7) (receive_wall (clock (at 9 4) 0) (pos 5) (at 9 7))))
    × (pos 9 ≡ receive_wall (clock (at 9 4) 0) (pos 5) (at 9 7))
    × (current (clock (at 9 8) 0) ≡ at 9 8)
    × (pos 0 ≡ pos 0)
receive_advances_example =
    receive_advances (clock (at 9 4) 0) (clock (at 9 8) 0) (pos 5) (at 9 7) (at 9 8) (omega arith)
      (omega arith) accepted

abbrev calls : List Op
calls =
    receive_op (pos 5) (at 14 3)
    ∷ receive_op (pos 6) (at 90 0)
    ∷ send_op (pos 4)
    ∷ now_op (pos 2)
    ∷ []

drift_bounded_example : (run (new_with_max_drift (pos 10)) calls).state.wall_time ≤ℤ pos 6 +ℤ pos 10
unfolding ◌+ℤ◌
drift_bounded_example =
    drift_bounded (pos 6) (pos 10) calls (omega arith) (omega arith) (omega arith)

overflow_rejects_example :
    receive (clock (at 0 0) 1) (pos 9223372036854775807) (at 9223372036854775807 3) ≡ (
      clock (at 0 0) 1,
      max_drift_exceeded (pos 9223372036854775807) (pos 9223372036854775807) (pos 1),
    )
unfolding ◌+ℤ◌
overflow_rejects_example =
    overflow_rejects (clock (at 0 0) 1) (pos 9223372036854775807) 3 (omega arith) (omega arith)
      (omega arith) (omega arith)

abbrev early : Timestamp
early = record { wall_time = negsuc 4; logical = 258 }

abbrev early_object : JsonTimestamp
early_object = record { wall_time = negsuc 4; logical = 258 }

data Failure : Type 0 where
  syntax_error : Failure

-- One object, as the bytes `{}`.
abbrev json : Json JsonTimestamp Failure
json = record {
  marshal = λ j. (b'{' ∷ b'}' ∷ [], none);
  unmarshal = λ bytes j. (early_object, none);
}

abbrev broken : Json JsonTimestamp Failure
broken = record {
  marshal = λ j. ([], some syntax_error);
  unmarshal = λ bytes j. (j, some syntax_error);
}

unmarshal_fails : unmarshal_json broken (at 9 4) [] ≡ (at 9 4, some syntax_error)
unfolding unmarshal_json take_json
unmarshal_fails = refl

text : to_string early ≡ b'-' ∷ b'5' ∷ b'.' ∷ b'2' ∷ b'5' ∷ b'8' ∷ []
unfolding to_string decimal_ℤ decimal digits
text = refl

forms_round_trip_example :
    (unmarshal_binary zero_timestamp (marshal_binary early) ≡ (early, none))
    × ((bytes : List ℕ) × (marshal_json json early ≡ (bytes, none))
        × (unmarshal_json json zero_timestamp bytes ≡ (early, none)))
    × (parse (to_string early) ≡ early)
forms_round_trip_example =
    forms_round_trip json early zero_timestamp (omega arith)
      (record { bytes = b'{' ∷ b'}' ∷ []; written = refl; parsed = refl })

minus_five :
    marshal_binary (record { wall_time = negsuc 4; logical = 258 })
    ≡ 255 ∷ 255 ∷ 255 ∷ 255 ∷ 255 ∷ 255 ∷ 255 ∷ 251 ∷ 0 ∷ 0 ∷ 1 ∷ 2 ∷ []
unfolding marshal_binary be_bytes to_u64
minus_five = refl

abbrev bytes : List ℕ
bytes = 0 ∷ 0 ∷ 0 ∷ 0 ∷ 0 ∷ 0 ∷ 1 ∷ 44 ∷ 0 ∷ 0 ∷ 0 ∷ 9 ∷ []

marshal_binary-unmarshal_binary_example :
    (length bytes ≡ 12
      → IsTimestamp (unmarshal_binary zero_timestamp bytes).0
        × (marshal_binary (unmarshal_binary zero_timestamp bytes).0 ≡ bytes)
        × ((unmarshal_binary zero_timestamp bytes).1 ≡ none))
    × (length bytes ≢ 12
        → unmarshal_binary zero_timestamp bytes ≡ (zero_timestamp, some corrupt_encoding))
marshal_binary-unmarshal_binary_example =
    marshal_binary-unmarshal_binary zero_timestamp bytes (omega arith)

-- Process 0 sends at wall time 30, and process 1, whose wall clock reads 10, receives.
abbrev sent : Event Timestamp
sent = record { process = 0; stamp = at 30 0; source = none }

abbrev received : Event Timestamp
received = record { process = 1; stamp = at 30 1; source = some 0 }

abbrev clocks : ℕ → Clock
clocks = update (update (λ _. new) 0 (clock (at 30 0) 0)) 1 (clock (at 30 1) 0)

sending : Local new (clock (at 30 0) 0) (at 30 0)
unfolding new now
sending = record { pt = pos 30; room = inl (omega arith); call = refl }

receiving : Receive new (at 30 0) (clock (at 30 1) 0) (at 30 1)
unfolding new receive merged
receiving = record {
  pt = pos 10;
  room = inl (omega arith);
  remote_room = inr (omega arith);
  call = refl;
}

message-Run : Run hlc (λ _. new) clocks (received ∷ sent ∷ [])
message-Run = receive_event 1 0 (local_event 0 start sending) refl receiving

hlc_clock_condition_example : less sent.stamp received.stamp ≡ true
hlc_clock_condition_example =
    hlc_clock_condition message-Run
      (message {i = 0} {j = 1} {a = sent} {b = received} refl refl refl) refl refl
