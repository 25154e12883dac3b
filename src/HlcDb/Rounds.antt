-- ===== src/HlcDb/Rounds.antt =====
-- examples/hlc_db/main.go with hlc/clock.go: the order of the four timestamps.
use chrono.Prelude.{◌+◌, ◌≤◌, ◌<◌, ◌≡◌, refl, inr, ap, ◌∙◌, true, arith, max}
use chrono.Prelude.Int.{ℤ, pos, ◌+ℤ◌, max_ℤ, eq_of_parts}
use chrono.Wallclock.{unix_nano, new_fake, fake_clock}
use chrono.Hlc.{
  Timestamp, Clock, new, now, send, receive, merged, receive_logical, less, zero_timestamp,
}
use chrono.Hlc.Advance.{now-Before, merged-Before_state, merged-Before_remote, max_u32}
use chrono.Hlc.Timestamps.{Before, Before→less}
use chrono.HlcDb.{round, exchange}

-- A clock of `New`, which has no drift check, with the state `s`.
abbrev node : Timestamp → Clock
node s = record { state = s; max_drift = pos 0 }

-- The state after `Send`.
sent : Timestamp → ℤ → Timestamp
unfolding send now
sent s pt = (send (node s) pt).1

sent_logical : (s : Timestamp) (pt : ℤ) → s.logical < max_u32 → (sent s pt).logical ≤ s.logical + 1
unfolding sent send now
sent_logical s pt h = ground arith

sent-Before : (s : Timestamp) (pt : ℤ) → s.logical < max_u32 → Before s (sent s pt)
unfolding sent send
sent-Before s pt h = now-Before (node s) pt (inr h)

merged_logical :
    (s m : Timestamp) (pt : ℤ)
    → s.logical < max_u32
    → m.logical < max_u32
    → (merged s pt m).logical ≤ max s.logical m.logical + 1
unfolding merged receive_logical
merged_logical s m pt h k = ground arith

round_lem :
    (s t : Timestamp) (pt qt : ℤ)
    → round (node s) pt (node t) qt ≡ (
      node (sent s pt),
      node (merged t qt (sent s pt)),
      record {
        sent = sent s pt;
        received_at = merged t qt (sent s pt);
        ordered = less (sent s pt) (merged t qt (sent s pt));
      },
    )
unfolding round sent send now receive
round_lem s t pt qt = refl

-- A round keeps the order, and the counters grow by at most two.
record Kept (s t m r : Timestamp) : Type 0 where
  after_sender : Before s m
  after_message : Before m r
  after_receiver : Before t r
  message_small : m.logical ≤ s.logical + 1
  receipt_small : r.logical ≤ max t.logical m.logical + 1

round-Kept :
    (s t : Timestamp) (pt qt : ℤ)
    → s.logical + 1 < max_u32
    → t.logical < max_u32
    → Kept s t (sent s pt) (merged t qt (sent s pt))
round-Kept s t pt qt h k =
    let small = sent_logical s pt (omega arith) in
    let room : (sent s pt).logical < max_u32 = omega arith in
    record {
      after_sender = sent-Before s pt (omega arith);
      after_message = merged-Before_remote t (sent s pt) qt (inr k) (inr room);
      after_receiver = merged-Before_state t (sent s pt) qt (inr k) (inr room);
      message_small = small;
      receipt_small = merged_logical t (sent s pt) qt k room;
    }

wall-sent : (s : Timestamp) (pt : ℤ) → (sent s pt).wall_time ≡ max_ℤ pt s.wall_time
unfolding sent send now
wall-sent s pt = refl

wall-merged :
    (s m : Timestamp) (pt : ℤ)
    → (merged s pt m).wall_time ≡ max_ℤ pt (max_ℤ m.wall_time s.wall_time)
unfolding merged
wall-merged s m pt = refl

-- The larger of the readings stays the larger one through the four events.
largest :
    (p q z : ℤ)
    → max_ℤ p (max_ℤ (max_ℤ q (max_ℤ q (max_ℤ (max_ℤ p z) z))) (max_ℤ p z)) ≡ max_ℤ p (max_ℤ q z)
largest p q z = eq_of_parts _ _ (ground arith)

-- Whatever the two wall clocks read, each message is before its receipt, and the first receipt before
-- the second message, in the order of Less, so that both rounds report it; the last timestamp has the
-- largest of 0 and the two readings, as 64-bit nanoseconds, as its WallTime, and a logical counter of at
-- most 4.
pub exchange_lem :
    (base skew : ℤ)
    → let (first, second) = exchange base skew in
      (first.ordered ≡ true)
      × (less first.received_at second.sent ≡ true)
      × (second.ordered ≡ true)
      × (second.received_at.wall_time
          ≡ max_ℤ (unix_nano base) (max_ℤ (unix_nano (base +ℤ skew)) (pos 0)))
      × (second.received_at.logical ≤ 4)
unfolding exchange new_fake fake_clock new round sent send now receive
exchange_lem base skew =
    let p = unix_nano base in
    let q = unix_nano (base +ℤ skew) in
    let m1 = sent zero_timestamp p in
    let r1 = merged zero_timestamp q m1 in
    let m2 = sent r1 q in
    let r2 = merged m1 p m2 in
    let first = round-Kept zero_timestamp zero_timestamp p q (omega arith) (omega arith) in
    let second = round-Kept r1 m1 q p (omega arith) (omega arith) in
    (
      Before→less m1 r1 first.after_message,
      Before→less r1 m2 second.after_sender,
      Before→less m2 r2 second.after_message,
      wall-merged m1 m2 p
          ∙ ap (λ w. max_ℤ p (max_ℤ w (max_ℤ p (pos 0))))
              (wall-sent r1 q ∙ ap (λ w. max_ℤ q w) (wall-merged zero_timestamp m1 q))
          ∙ largest p q (pos 0),
      omega arith,
    )
