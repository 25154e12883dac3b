-- ===== src/Truetime/Ntp/Measurement.antt =====
-- truetime/ntp_source.go: how good the offset is that a query measures.
use chrono.Prelude.{ℕ, ◌*◌, ◌/◌, ◌^◌, ◌≡◌, refl, List, take, drop, arith}
use chrono.Prelude.Int.{ℤ, pos, negsuc, ◌+ℤ◌, ◌-ℤ◌, ◌≤ℤ◌, int_laws}
use chrono.Prelude.Words.{IsI64, i64_self}
use chrono.Prelude.Bytes.{be_value}
use chrono.Truetime.{sub_time}
use chrono.Truetime.Ntp.{NtpSource, received, query, half, ntp_time_from_bytes}

sub_time_self : (t u : ℤ) → IsI64 (t -ℤ u) → sub_time t u ≡ t -ℤ u
unfolding sub_time
sub_time_self t u h = ground arith

-- Half of an integer, rounded, is off by half of one at most.
half_bounds : (z : ℤ) → (half z +ℤ half z ≤ℤ z +ℤ pos 1) × (z ≤ℤ half z +ℤ half z +ℤ pos 1)
unfolding half ◌+ℤ◌
half_bounds (pos n) = ground arith
half_bounds (negsuc n) = ground arith

-- The times that the server wrote into a reply, and its root dispersion in nanoseconds.
abbrev pub server_received : List ℕ → ℤ
server_received resp = ntp_time_from_bytes (take 8 (drop 32 resp))

abbrev pub server_sent : List ℕ → ℤ
server_sent resp = ntp_time_from_bytes (take 8 (drop 40 resp))

abbrev pub root_dispersion : List ℕ → ℤ
root_dispersion resp = pos (be_value (take 4 (drop 8 resp)) * 1_000_000_000 / 2 ^ 16)

-- The int64 values that `query` computes on the way do not overflow.
pub record IsInRange (resp : List ℕ) (t1 t4 : ℤ) : Type 0 where
  pub out : IsI64 (server_received resp -ℤ t1)
  pub back : IsI64 (server_sent resp -ℤ t4)
  pub both : IsI64 (server_received resp -ℤ t1 +ℤ (server_sent resp -ℤ t4))
  pub trip : IsI64 (t4 -ℤ t1)
  pub served : IsI64 (server_sent resp -ℤ server_received resp)
  pub delay : IsI64 (t4 -ℤ t1 -ℤ (server_sent resp -ℤ server_received resp))
  pub dispersion :
      IsI64 (root_dispersion resp +ℤ half (t4 -ℤ t1 -ℤ (server_sent resp -ℤ server_received resp)))

-- The source after a query that got a reply.
abbrev pub measured : (Error : Type 0) → NtpSource → List ℕ → ℤ → ℤ → NtpSource
measured Error s resp t1 t4 = (query {Error = Error} s (received resp t1 t4)).0

pub query-source :
    (Error : Type 0) (s : NtpSource) (resp : List ℕ) (t1 t4 : ℤ)
    → IsInRange resp t1 t4
    → (query {Error = Error} s (received resp t1 t4)).0 ≡ record s {
      last_offset = half (server_received resp -ℤ t1 +ℤ (server_sent resp -ℤ t4));
      last_dispersion =
          root_dispersion resp +ℤ half (t4 -ℤ t1 -ℤ (server_sent resp -ℤ server_received resp));
      last_query = t4;
    }
unfolding query
query-source Error s resp t1 t4 h =
    rw
      (
        sub_time_self (server_received resp) t1 h.out,
        sub_time_self (server_sent resp) t4 h.back,
        sub_time_self t4 t1 h.trip,
        sub_time_self (server_sent resp) (server_received resp) h.served,
      )
      (rw (i64_self _ h.both, i64_self _ h.delay) (rw (i64_self _ h.dispersion) refl))

-- A query measures the offset within its dispersion, up to a nanosecond of rounding. Suppose that
-- the true time is the local clock plus `offset` while the request is under way, that the server
-- gets the request at the true time `arrival`, no earlier than it is sent, and sends its reply at
-- `departure`, no later than it is received, and that the times in its reply are off by at most its
-- root dispersion, the first not too early and the second not too late. Then at the local time of the
-- last query the true time is within the recorded dispersion plus 1 ns of the corrected local time.
-- (The int64 values on the way do not overflow.)
pub query_accuracy :
    (Error : Type 0) (s : NtpSource) (resp : List ℕ) (t1 t4 offset arrival departure : ℤ)
    → IsInRange resp t1 t4
    → t1 +ℤ offset ≤ℤ arrival
    → departure ≤ℤ t4 +ℤ offset
    → arrival ≤ℤ server_received resp +ℤ root_dispersion resp
    → server_sent resp ≤ℤ departure +ℤ root_dispersion resp
    → ((measured Error s resp t1 t4).last_query ≡ t4)
      × (t4 +ℤ offset
          ≤ℤ t4
            +ℤ (measured Error s resp t1 t4).last_offset
            +ℤ (measured Error s resp t1 t4).last_dispersion
            +ℤ pos 1)
      × (t4 +ℤ (measured Error s resp t1 t4).last_offset
          ≤ℤ t4 +ℤ offset +ℤ (measured Error s resp t1 t4).last_dispersion +ℤ pos 1)
query_accuracy Error s resp t1 t4 offset arrival departure h out back early late =
    let sum = server_received resp -ℤ t1 +ℤ (server_sent resp -ℤ t4) in
    let trip = t4 -ℤ t1 -ℤ (server_sent resp -ℤ server_received resp) in
    let (sum_hi, sum_lo) = half_bounds sum in
    let (trip_hi, trip_lo) = half_bounds trip in
    rw (query-source Error s resp t1 t4 h) (refl, omega int_laws, omega int_laws)
