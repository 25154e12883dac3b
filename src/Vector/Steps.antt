-- ===== src/Vector/Steps.antt =====
-- vector/clock.go: what Tick, Send and Receive do to each counter.
pub mod Forward
use chrono.Prelude.{
  ℕ, ◌+◌, ◌-◌, ◌^◌, ◌≤◌, ◌<◌, ◌≡◌, refl, Bool, true, false, List, [], ◌∷◌, arith, ltb,
  if◌then◌else◌, max, All,
}
use chrono.Prelude.Words.{IsU64, u64}
use chrono.Prelude.Strings.{Str, str_eq, str_eq_iff, str_eq_refl}
use chrono.GoMap.{Counters, lookup, insert, copy_into, counter, IsMap}
use chrono.GoMap.Laws.{counter-insert, insert-IsMap, copy_into-nil, copy_into-IsMap}
use chrono.GoMap.Loops.{merge_loop, counter-merge_loop, merge_loop-IsMap}
use chrono.Vector.{Clock, Snapshot, snapshot_locked, bump, tick, send, receive, now}
use chrono.Vector.Compare.{compare, before}
use chrono.Vector.Compare.Laws.{Le, compare_decides}

abbrev pub max_u64 : ℕ
max_u64 = 2 ^ 64 - 1

pub counter-bump :
    (k j : Str) (vec : Counters)
    → counter (bump k vec) j ≡ (if str_eq k j then u64 (counter vec k + 1) else counter vec j)
unfolding bump
counter-bump k j vec = counter-insert k j _ vec

bump-IsMap : (k : Str) (vec : Counters) → IsMap vec → IsMap (bump k vec)
unfolding bump
bump-IsMap k vec h = insert-IsMap k _ vec h

-- The vector that an event leaves in the clock, after the merge if there is a message.
abbrev pub merge : Clock → Snapshot → Counters
merge c remote = merge_loop c.vec remote.vec

-- A snapshot has the node id and the entries of its clock.
pub snapshot-vec :
    (c : Clock) → IsMap c.vec → snapshot_locked c ≡ record { node_id = c.node_id; vec = c.vec }
unfolding snapshot_locked
snapshot-vec c h = λ i. record { node_id = c.node_id; vec = copy_into-nil c.vec h i }

-- Tick and Send add one, modulo 2 ^ 64, to this node's counter and change no other. They return what
-- Now then reads, and the map stays a map.
pub tick_counters :
    (c : Clock)
    → IsMap c.vec
    → ((k : Str)
        → counter (tick c).1.vec k
          ≡ (if str_eq c.node_id k then u64 (counter c.vec k + 1) else counter c.vec k))
      × ((tick c).1 ≡ now (tick c).0)
      × IsMap (tick c).0.vec
      × (send c ≡ tick c)
unfolding tick send now
tick_counters c h = (
  λ k.
      rw (copy_into-nil (bump c.node_id c.vec) (bump-IsMap c.node_id c.vec h))
        (ground (arith, counter-bump c.node_id k c.vec, str_eq_iff c.node_id k)),
  refl,
  bump-IsMap c.node_id c.vec h,
  refl,
)

-- Receive takes the larger counter at every node, missing entries counting as 0, and then adds one,
-- modulo 2 ^ 64, to this node's. It returns what Now then reads, and the map stays a map.
pub receive_counters :
    (c : Clock) (remote : Snapshot)
    → IsMap c.vec
    → IsMap remote.vec
    → ((k : Str)
        → counter (receive c remote).1.vec k ≡ (
            if str_eq c.node_id k
            then u64 (max (counter c.vec k) (counter remote.vec k) + 1)
            else max (counter c.vec k) (counter remote.vec k)))
      × ((receive c remote).1 ≡ now (receive c remote).0)
      × IsMap (receive c remote).0.vec
unfolding receive now
receive_counters c remote h hr =
    let merged : IsMap (merge c remote) = merge_loop-IsMap c.vec remote.vec h in
    let bumped : IsMap (bump c.node_id (merge c remote)) = bump-IsMap c.node_id _ merged in
    (
      λ k. rw (copy_into-nil (bump c.node_id (merge c remote)) bumped) (
          ground (
            arith,
            counter-bump c.node_id k (merge c remote),
            counter-merge_loop c.vec remote.vec hr k,
            counter-merge_loop c.vec remote.vec hr c.node_id,
            str_eq_iff c.node_id k,
          )),
      refl,
      bumped,
    )

pub tick-IsMap : (c : Clock) → IsMap (tick c).1.vec
unfolding tick
tick-IsMap c = copy_into-IsMap [] _ tt

pub receive-IsMap : (c : Clock) (remote : Snapshot) → IsMap (receive c remote).1.vec
unfolding receive
receive-IsMap c remote = copy_into-IsMap [] _ tt
