-- ===== src/Lamport/Bounds.antt =====
-- lamport/clock.go: the stamp of each method, and the wrap-around.
use chrono.Prelude.{ℕ, ◌+◌, ◌-◌, ◌^◌, ◌<◌, ◌≡◌, max, arith}
use chrono.Prelude.Words.{IsU64}
use chrono.Lamport.{Clock, tick, send, receive, now}

abbrev pub max_u64 : ℕ
max_u64 = 2 ^ 64 - 1

-- A call of one of the methods that record an event.
pub data Op : Type 0 where
  tick_op send_op : Op
  receive_op : ℕ → Op

unfoldable pub apply : Clock → Op → Clock × ℕ
unfolding tick send receive
apply c tick_op = tick c
apply c send_op = send c
apply c (receive_op remote) = receive c remote

-- The larger of the values that the method looks at.
abbrev pub top : Clock → Op → ℕ
top c tick_op = c.counter
top c send_op = c.counter
top c (receive_op remote) = max c.counter remote

-- Below the largest uint64, each of Tick, Send and Receive returns one more than the larger of the
-- counter and the remote stamp, which is a uint64, and Now reads the same value afterwards.
pub apply-eq-top :
    (c : Clock) (op : Op)
    → top c op < max_u64
    → ((apply c op).1 ≡ top c op + 1) × IsU64 (apply c op).1 × (now (apply c op).0 ≡ (apply c op).1)
unfolding apply now
apply-eq-top c tick_op h = ground arith
apply-eq-top c send_op h = ground arith
apply-eq-top c (receive_op remote) h = ground arith

-- At the largest uint64 each of the three methods returns 0, which is below the counter before it
-- or below the remote stamp: the clock goes backward.
pub apply_wraps :
    (c : Clock) (op : Op)
    → top c op ≡ max_u64
    → ((apply c op).1 ≡ 0) × (now (apply c op).0 < top c op)
unfolding apply now
apply_wraps c tick_op h = ground arith
apply_wraps c send_op h = ground arith
apply_wraps c (receive_op remote) h = ground arith
