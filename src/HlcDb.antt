-- ===== src/HlcDb.antt =====
-- examples/hlc_db/main.go: two nodes, whose wall clocks disagree, send one message each way. The lines
-- with constant text are left out; what the others show is the result.
pub mod Rounds
mod Examples
use chrono.Prelude.{Bool}
use chrono.Prelude.Int.{ℤ, pos, ◌+ℤ◌}
use chrono.Wallclock.{new_fake, fake_clock}
use chrono.Hlc.{
  Timestamp, Clock, Outcome, ok, max_drift_exceeded, zero_timestamp, new, send, receive, less,
}

-- time.Unix(1_700_000_000, 0), and 30 * time.Millisecond.
abbrev pub program_base : ℤ
program_base = pos 1_700_000_000_000_000_000

abbrev pub program_skew : ℤ
program_skew = pos 30_000_000

-- `t, _ := node.Receive(msg)`: the timestamp is zero where there is an error.
abbrev pub received : Outcome → Timestamp
received (ok s) = s
received (max_drift_exceeded remote local max_drift) = zero_timestamp

-- What a round shows: the timestamps of the message and of its receipt, and whether Less orders them.
pub record Round : Type 0 where
  pub sent : Timestamp
  pub received_at : Timestamp
  pub ordered : Bool

-- The node with reading `from_pt` sends to the node with reading `to_pt`.
unfoldable pub round : Clock → ℤ → Clock → ℤ → Clock × Clock × Round
round from from_pt to to_pt =
    let (from', msg) = send from from_pt in
    let (to', outcome) = receive to to_pt msg in
    (
      from',
      to',
      record { sent = msg; received_at = received outcome; ordered = less msg (received outcome) },
    )

-- `main`, from the first node's wall clock and by how much the second one's is ahead.
unfoldable pub exchange : ℤ → ℤ → Round × Round
unfolding new_fake fake_clock new round
exchange base skew =
    let pt1 = (fake_clock (new_fake base)).now_nanos in
    let pt2 = (fake_clock (new_fake (base +ℤ skew))).now_nanos in
    let (node1, node2, first) = round new pt1 new pt2 in
    let (node2', node1', second) = round node2 pt2 node1 pt1 in (first, second)
