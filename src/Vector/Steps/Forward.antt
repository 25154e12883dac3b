-- ===== src/Vector/Steps/Forward.antt =====
-- vector/clock.go: the snapshots before and after Tick, Send and Receive.
use chrono.Prelude.{◌<◌, ◌≡◌, arith, max}
use chrono.Prelude.Strings.{Str, str_eq_iff, str_eq_refl}
use chrono.GoMap.{counter, IsMap}
use chrono.Vector.{Clock, Snapshot, tick, receive, now}
use chrono.Vector.Compare.{compare, before}
use chrono.Vector.Compare.Laws.{Le, compare_decides}
use chrono.Vector.Steps.{
  max_u64, tick_counters, receive_counters, tick-IsMap, receive-IsMap, snapshot-vec,
}

-- A vector that is at least another one everywhere, and more at some node, comes after it.
pub before_of_lt :
    (a b : Snapshot) (k : Str)
    → IsMap a.vec
    → IsMap b.vec
    → Le a.vec b.vec
    → counter a.vec k < counter b.vec k
    → compare a b ≡ before
before_of_lt a b k ha hb le lt = (compare_decides a b ha hb).1.1 (le, λ ge. omega (arith, ge k))

-- The clock's vector as a snapshot, which is what Now returns.
abbrev pub at : Clock → Snapshot
at c = record { node_id = c.node_id; vec = c.vec }

pub now-at : (c : Clock) → IsMap c.vec → now c ≡ at c
unfolding now
now-at c h = snapshot-vec c h

module _ (c : Clock) (h : IsMap c.vec) where
  module _ (room : counter c.vec c.node_id < max_u64) where
    tick_le : Le c.vec (tick c).1.vec
    tick_le k = ground (arith, (tick_counters c h).0 k, str_eq_iff c.node_id k)

    tick_own : counter c.vec c.node_id < counter (tick c).1.vec c.node_id
    tick_own = ground (arith, (tick_counters c h).0 c.node_id, str_eq_refl c.node_id)

    pub tick_at : compare (at c) (tick c).1 ≡ before
    tick_at = before_of_lt (at c) (tick c).1 c.node_id h (tick-IsMap c) tick_le tick_own

  module _ (remote : Snapshot) (hr : IsMap remote.vec)
      (room : max (counter c.vec c.node_id) (counter remote.vec c.node_id) < max_u64) where
    receive_le : Le c.vec (receive c remote).1.vec
    receive_le k = ground (arith, (receive_counters c remote h hr).0 k, str_eq_iff c.node_id k)

    receive_le_remote : Le remote.vec (receive c remote).1.vec
    receive_le_remote k =
        ground (arith, (receive_counters c remote h hr).0 k, str_eq_iff c.node_id k)

    receive_own :
        max (counter c.vec c.node_id) (counter remote.vec c.node_id)
        < counter (receive c remote).1.vec c.node_id
    receive_own =
        ground (arith, (receive_counters c remote h hr).0 c.node_id, str_eq_refl c.node_id)

    pub receive_at : compare (at c) (receive c remote).1 ≡ before
    receive_at =
        before_of_lt (at c) (receive c remote).1 c.node_id h (receive-IsMap c remote) receive_le
          (omega (arith, receive_own))

    pub receive_remote : compare remote (receive c remote).1 ≡ before
    receive_remote =
        before_of_lt remote (receive c remote).1 c.node_id hr (receive-IsMap c remote)
          receive_le_remote (omega (arith, receive_own))

-- Below the largest uint64, the snapshot before a Tick or Send compares as Before the one it returns.
pub tick_forward :
    (c : Clock)
    → IsMap c.vec
    → counter c.vec c.node_id < max_u64
    → compare (now c) (tick c).1 ≡ before
tick_forward c h room = rw (now-at c h) (tick_at c h room)

-- Below the largest uint64, both the snapshot before a Receive and the message's compare as Before
-- the snapshot that it returns.
pub receive_forward :
    (c : Clock) (remote : Snapshot)
    → IsMap c.vec
    → IsMap remote.vec
    → max (counter c.vec c.node_id) (counter remote.vec c.node_id) < max_u64
    → (compare (now c) (receive c remote).1 ≡ before)
      × (compare remote (receive c remote).1 ≡ before)
receive_forward c remote h hr room =
    (rw (now-at c h) (receive_at c h remote hr room), receive_remote c h remote hr room)

-- At the largest uint64 Tick and Send wrap this node's counter to 0: the snapshot that they return
-- compares as Before the one from before them.
pub tick_wraps :
    (c : Clock)
    → IsMap c.vec
    → counter c.vec c.node_id ≡ max_u64
    → compare (tick c).1 (now c) ≡ before
tick_wraps c h full = rw (now-at c h) (
    before_of_lt (tick c).1 (at c) c.node_id (tick-IsMap c) h
      (λ k. ground (arith, (tick_counters c h).0 k, str_eq_iff c.node_id k))
      (ground (arith, (tick_counters c h).0 c.node_id, str_eq_refl c.node_id)))
