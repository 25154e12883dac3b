-- ===== src/Vector.antt =====
-- vector/clock.go: the vector clock of one process and its snapshots. The mutex makes each method one
-- step; the map of a snapshot is a copy, so that a later step on the clock does not reach it.
pub mod Compare
pub mod Steps
pub mod Equal
pub mod Causality
pub mod Encode
pub mod Json
mod Examples
use chrono.Prelude.{
  ℕ, ◌+◌, Bool, true, false, ◌≡◌, List, [], ◌∷◌, arith, ltb, ◌==◌, if◌then◌else◌, not, length,
}
use chrono.Prelude.Words.{IsU64, u64}
use chrono.Prelude.Strings.{Str}
use chrono.GoMap.{Map, Counters, lookup, insert, copy_into, counter}
use chrono.GoMap.Loops.{merge_loop, equal_loop}

pub record Clock : Type 0 where
  pub node_id : Str
  pub vec : Counters

pub record Snapshot : Type 0 where
  pub node_id : Str
  pub vec : Counters

unfoldable pub new : Str → Clock
new node_id = record { node_id = node_id; vec = [] }

-- `maps.Copy` into a new map.
unfoldable pub new_from_map : Str → Counters → Clock
new_from_map node_id initial = record { node_id = node_id; vec = copy_into [] initial }

-- `snapshotLocked`
unfoldable pub snapshot_locked : Clock → Snapshot
snapshot_locked c = record { node_id = c.node_id; vec = copy_into [] c.vec }

-- `c.vec[c.nodeID]++`
unfoldable pub bump : Str → Counters → Counters
bump k vec = insert k (u64 (counter vec k + 1)) vec

unfoldable pub tick : Clock → Clock × Snapshot
unfolding bump snapshot_locked
tick c = let c' = record c { vec = bump c.node_id c.vec } in (c', snapshot_locked c')

unfoldable pub send : Clock → Clock × Snapshot
unfolding bump snapshot_locked
send c = let c' = record c { vec = bump c.node_id c.vec } in (c', snapshot_locked c')

unfoldable pub receive : Clock → Snapshot → Clock × Snapshot
unfolding bump merge_loop snapshot_locked
receive c remote =
    let c' = record c { vec = bump c.node_id (merge_loop c.vec remote.vec) } in
    (c', snapshot_locked c')

unfoldable pub now : Clock → Snapshot
unfolding snapshot_locked
now c = snapshot_locked c

-- `Snapshot.Get`
unfoldable pub get : Snapshot → Str → ℕ
get s node_id = counter s.vec node_id

-- `Snapshot.Nodes`
unfoldable pub keys : Counters → List Str
keys [] = []
keys ((k, v) ∷ m) = k ∷ keys m

unfoldable pub nodes : Snapshot → List Str
unfolding keys
nodes s = keys s.vec

unfoldable pub equal : Snapshot → Snapshot → Bool
unfolding equal_loop
equal s other = if not (length s.vec == length other.vec) then false else equal_loop other.vec s.vec

-- `Snapshot.Copy`
unfoldable pub copy : Snapshot → Snapshot
copy s = record { node_id = s.node_id; vec = copy_into [] s.vec }
