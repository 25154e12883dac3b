-- ===== src/Hlc/Drift.antt =====
-- hlc/clock.go: the drift check of Receive.
use chrono.Prelude.{◌^◌, ℕ, ◌≡◌, arith, List, [], ◌∷◌, All, refl}
use chrono.Prelude.Int.{ℤ, pos, ◌+ℤ◌, ◌<ℤ◌, ◌≤ℤ◌, +ℤ_parts}
use chrono.Prelude.Words.{IsI64, i64, i64_self, i64_overflow}
use chrono.Hlc.{
  Timestamp, Clock, new_with_max_drift, now, send, receive, merged, max_drift_exceeded,
}

abbrev pub TooFar : Clock → ℤ → Timestamp → Type 0
TooFar c pt remote = (pos 0 <ℤ c.max_drift) × (pt +ℤ c.max_drift <ℤ remote.wall_time)

-- A call on the clock, with what the wall clock reads during it.
pub data Op : Type 0 where
  now_op : ℤ → Op
  send_op : ℤ → Op
  receive_op : ℤ → Timestamp → Op

unfoldable pub apply : Clock → Op → Clock
unfolding now send receive
apply c (now_op pt) = (now c pt).0
apply c (send_op pt) = (send c pt).0
apply c (receive_op pt remote) = (receive c pt remote).0

unfoldable pub run : Clock → List Op → Clock
unfolding apply
run c [] = c
run c (op ∷ ops) = run (apply c op) ops

abbrev pub reading : Op → ℤ
reading (now_op pt) = pt
reading (send_op pt) = pt
reading (receive_op pt remote) = pt

-- The reading is at most `top`, and adding the bound to it does not overflow.
abbrev pub IsReading : ℤ → ℤ → Op → Type 0
IsReading top d op = (reading op ≤ℤ top) × IsI64 (reading op +ℤ d)

abbrev Within : ℤ → ℤ → Clock → Type 0
Within top d c = (c.state.wall_time ≤ℤ top +ℤ d) × (c.max_drift ≡ d)

abbrev clock_at : Timestamp → ℤ → Clock
clock_at s d = record { state = s; max_drift = d }

now-Within :
    (top d : ℤ) (s : Timestamp) (pt : ℤ)
    → pos 0 <ℤ d
    → pt ≤ℤ top
    → s.wall_time ≤ℤ top +ℤ d
    → Within top d (now (clock_at s d) pt).0
unfolding now
now-Within top d s pt p r w = ground (arith, +ℤ_parts top d)

send-Within :
    (top d : ℤ) (s : Timestamp) (pt : ℤ)
    → pos 0 <ℤ d
    → pt ≤ℤ top
    → s.wall_time ≤ℤ top +ℤ d
    → Within top d (send (clock_at s d) pt).0
unfolding send
send-Within top d s pt p r w = now-Within top d s pt p r w

receive-Within :
    (top d : ℤ) (s : Timestamp) (pt : ℤ) (remote : Timestamp)
    → pos 0 <ℤ d
    → pt ≤ℤ top
    → IsI64 (pt +ℤ d)
    → s.wall_time ≤ℤ top +ℤ d
    → Within top d (receive (clock_at s d) pt remote).0
unfolding receive merged
receive-Within top d s pt remote p r fits w =
    rw (i64_self (pt +ℤ d) fits) (ground (arith, +ℤ_parts top d, +ℤ_parts pt d))

apply-Within :
    (top d : ℤ) (c : Clock) (op : Op)
    → pos 0 <ℤ d
    → IsReading top d op
    → Within top d c
    → Within top d (apply c op)
unfolding apply
apply-Within top d c (now_op pt) p r w =
    let e : c ≡ clock_at c.state d = λ i. record { state = c.state; max_drift = w.1 i } in
    rw e (now-Within top d c.state pt p r.0 w.0)
apply-Within top d c (send_op pt) p r w =
    let e : c ≡ clock_at c.state d = λ i. record { state = c.state; max_drift = w.1 i } in
    rw e (send-Within top d c.state pt p r.0 w.0)
apply-Within top d c (receive_op pt remote) p r w =
    let e : c ≡ clock_at c.state d = λ i. record { state = c.state; max_drift = w.1 i } in
    rw e (receive-Within top d c.state pt remote p r.0 r.1 w.0)

run-Within :
    (top d : ℤ) (c : Clock) (ops : List Op)
    → pos 0 <ℤ d
    → All (IsReading top d) ops
    → Within top d c
    → Within top d (run c ops)
unfolding run
run-Within top d c [] p r w = w
run-Within top d c (op ∷ ops) p (r, rs) w =
    run-Within top d (apply c op) ops p rs (apply-Within top d c op p r w)

-- A clock with a positive drift bound never gets further ahead of the wall clock than the bound:
-- after any calls of Now, Send and Receive, whatever the messages, its WallTime is at most the
-- bound above the largest reading of the wall clock. (The readings plus the bound do not overflow,
-- and the largest is not so far before 1970 that the initial WallTime of 0 is ahead of it.)
pub drift_bounded :
    (top d : ℤ) (ops : List Op)
    → pos 0 <ℤ d
    → pos 0 ≤ℤ top +ℤ d
    → All (IsReading top d) ops
    → (run (new_with_max_drift d) ops).state.wall_time ≤ℤ top +ℤ d
unfolding new_with_max_drift
drift_bounded top d ops p start rs = (run-Within top d _ ops p rs (start, refl)).0

-- Where the sum overflows, the check rejects messages that are not ahead at all: one that carries
-- the wall clock's own time is refused.
pub overflow_rejects :
    (c : Clock) (pt : ℤ) (logical : ℕ)
    → IsI64 pt
    → IsI64 c.max_drift
    → pos 0 <ℤ c.max_drift
    → pos (2 ^ 63) ≤ℤ pt +ℤ c.max_drift
    → receive c pt (record { wall_time = pt; logical = logical })
      ≡ (c, max_drift_exceeded pt pt c.max_drift)
unfolding receive
overflow_rejects c pt logical hp hd p over =
    let sum = pt +ℤ c.max_drift in
    let wraps : i64 sum <ℤ pos 0 = i64_overflow sum over (omega (arith, +ℤ_parts pt c.max_drift)) in
    let ahead : pos 0 ≤ℤ pt = omega (arith, +ℤ_parts pt c.max_drift) in ground arith
