-- ===== src/Truetime/Ntp/Examples.antt =====
-- Queries of an NTPSource, and its theorems at concrete inputs.
use chrono.Prelude.{true, ℕ, ◌≡◌, ◌≢◌, refl, false, List, [], ◌∷◌, arith}
use chrono.Prelude.Int.{ℤ, pos, ◌+ℤ◌, ◌-ℤ◌, ◌≤ℤ◌}
use chrono.Prelude.Bytes.{be_value}
use chrono.Truetime.{sub_time}
use chrono.Prelude.Words.{i64}
use chrono.Truetime.Ntp.{NtpSource, received, query, half, ntp_time_from_bytes}
use chrono.Truetime.Ntp.Measurement.{
  IsInRange, measured, server_received, server_sent, query_accuracy,
}
use chrono.Truetime.Ntp.Refresh.{
  ok, new_ntp_source, zero_source, State, created, looping, initial, start, enter, begin, exit,
  close_channel, stop_call, stop_return, starts, begins, exits, stop_calls, stop_returns, Reach,
  here, next,
}
use chrono.Truetime.Ntp.Refresh.Lifecycle.{stop_quiesces}
use chrono.Truetime.Ntp.Refresh.StartTwice.{Leaks, Crashes, start_twice}

abbrev minute : ℤ
minute = pos 60_000_000_000

-- A reply with a root dispersion of 2 s, which the server got after 5 s and sent after 6 s.
abbrev reply : List ℕ
reply =
    0 ∷ 0 ∷ 0 ∷ 0 ∷ 0 ∷ 0 ∷ 0 ∷ 0 ∷ 0 ∷ 2 ∷ 0 ∷ 0 ∷ 0 ∷ 0 ∷ 0 ∷ 0 ∷ 0 ∷ 0 ∷ 0 ∷ 0 ∷ 0 ∷ 0 ∷ 0 ∷ 0
    ∷ 0 ∷ 0 ∷ 0 ∷ 0 ∷ 0 ∷ 0 ∷ 0 ∷ 0 ∷ 131 ∷ 170 ∷ 126 ∷ 133 ∷ 0 ∷ 0 ∷ 0 ∷ 0 ∷ 131 ∷ 170 ∷ 126 ∷ 134
    ∷ 0 ∷ 0 ∷ 0 ∷ 0 ∷ []

arrives : server_received reply ≡ pos 5_000_000_000
unfolding ntp_time_from_bytes be_value
arrives = refl

departs : server_sent reply ≡ pos 6_000_000_000
unfolding ntp_time_from_bytes be_value
departs = refl

-- The local clock is 100 ms behind: it sends at 4.7 s and receives at 6.1 s.
reply-IsInRange : IsInRange reply (pos 4_700_000_000) (pos 6_100_000_000)
unfolding ntp_time_from_bytes be_value half ◌-ℤ◌ ◌+ℤ◌
reply-IsInRange = record {
  out = record { above = omega arith; below = omega arith };
  back = record { above = omega arith; below = omega arith };
  both = record { above = omega arith; below = omega arith };
  trip = record { above = omega arith; below = omega arith };
  served = record { above = omega arith; below = omega arith };
  delay = record { above = omega arith; below = omega arith };
  dispersion = record { above = omega arith; below = omega arith };
}

abbrev after_reply : NtpSource
after_reply = measured ℕ (zero_source minute) reply (pos 4_700_000_000) (pos 6_100_000_000)

query_accuracy_example :
    (after_reply.last_query ≡ pos 6_100_000_000)
    × (pos 6_100_000_000 +ℤ pos 100_000_000
        ≤ℤ pos 6_100_000_000 +ℤ after_reply.last_offset +ℤ after_reply.last_dispersion +ℤ pos 1)
    × (pos 6_100_000_000 +ℤ after_reply.last_offset
        ≤ℤ pos 6_100_000_000 +ℤ pos 100_000_000 +ℤ after_reply.last_dispersion +ℤ pos 1)
unfolding ntp_time_from_bytes be_value ◌-ℤ◌ ◌+ℤ◌
query_accuracy_example =
    query_accuracy ℕ (zero_source minute) reply (pos 4_700_000_000) (pos 6_100_000_000)
      (pos 100_000_000) (pos 5_000_000_000) (pos 6_000_000_000) reply-IsInRange (omega arith)
      (omega arith) (omega arith) (omega arith)

-- The offset that this query measures is 100 ms, and its dispersion 2.2 s.
measures :
    new_ntp_source {Error = ℕ} minute (received reply (pos 4_700_000_000) (pos 6_100_000_000))
    ≡ ok (record {
      query_interval = minute;
      last_offset = pos 100_000_000;
      last_dispersion = pos 2_200_000_000;
      last_query = pos 6_100_000_000;
    })
unfolding new_ntp_source query ntp_time_from_bytes be_value half sub_time i64 ◌-ℤ◌ ◌+ℤ◌
measures = refl

-- Start, the goroutine begins, Stop up to its wait, and the goroutine ends.
abbrev launched : State
launched = start (initial (zero_source minute))

abbrev ready : State
ready = begin launched 0

abbrev waiting : State
waiting = stop_call ready 0

abbrev over : State
over = exit waiting 0

launched-Reach : Reach ℕ (initial (zero_source minute)) launched
unfolding initial
launched-Reach = next here refl (starts refl)

ready-Reach : Reach ℕ (initial (zero_source minute)) ready
unfolding start initial
ready-Reach = next launched-Reach refl (begins 0 refl)

waiting-Reach : Reach ℕ (initial (zero_source minute)) waiting
unfolding start initial begin enter
waiting-Reach = next ready-Reach refl (stop_calls 0 refl refl)

over-Reach : Reach ℕ (initial (zero_source minute)) over
unfolding start initial begin enter stop_call
over-Reach = next waiting-Reach refl (exits 0 refl refl)

stop_quiesces_example :
    ((stop_return over).source ≡ over.source)
    × ((j : ℕ) → ((stop_return over).phase j ≢ created) × ((stop_return over).phase j ≢ looping))
    × ((stop_return over).panicked ≡ false)
unfolding stop_return exit close_channel stop_call begin enter start initial
stop_quiesces_example =
    stop_quiesces (zero_source minute) 0 (omega arith) over-Reach (omega arith) refl refl
      (next here refl (stop_returns 0 refl refl refl)) refl

start_twice_example :
    (launched.phase 0 ≡ looping → Leaks ℕ launched 0)
    × (launched.phase 0 ≡ created → Crashes ℕ launched 0)
unfolding start initial
start_twice_example = start_twice (zero_source minute) 0 (omega arith) launched-Reach refl refl

-- The first goroutine has not begun.
launched-created : launched.phase 0 ≡ created
unfolding start initial
launched-created = refl

-- With an interval of 0 the goroutine panics in its first step.
no_ticker : (begin (start (initial (zero_source (pos 0)))) 0).panicked ≡ true
unfolding begin enter exit close_channel start initial
no_ticker = refl
