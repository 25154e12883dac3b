-- ===== src/Ordering.antt =====
-- ordering/happens_before.go: the interface Comparable and its three adapters. A value of the
-- interface is one of the adapters' types; the Go methods test for their own type first.
pub mod Adapters
pub mod Extremes
pub mod Topological
pub mod Causality
mod Examples
use chrono.Prelude.{ℕ, Bool, true, false, ltb, ◌==◌}
use chrono.Hlc.{Timestamp}
use chrono.Hlc
use chrono.Vector.{Snapshot}
use chrono.Vector.Compare.{Relation, before, after, equal, concurrent, compare}

pub data Stamp : Type 0 where
  lamport_stamp : ℕ → Stamp
  hlc_stamp : Timestamp → Stamp
  vector_stamp : Snapshot → Stamp

unfoldable pub is_before : Relation → Bool
is_before before = true
is_before after = false
is_before equal = false
is_before concurrent = false

unfoldable pub is_concurrent : Relation → Bool
is_concurrent before = false
is_concurrent after = false
is_concurrent equal = false
is_concurrent concurrent = true

unfoldable pub happens_before : Stamp → Stamp → Bool
unfolding is_before
happens_before (lamport_stamp s) (lamport_stamp o) = ltb s o
happens_before (hlc_stamp h) (hlc_stamp o) = Hlc.less h o
happens_before (vector_stamp v) (vector_stamp o) = is_before (compare v o)
happens_before _ _ = false

unfoldable pub are_concurrent : Stamp → Stamp → Bool
unfolding is_concurrent
are_concurrent (lamport_stamp s) (lamport_stamp o) = s == o
are_concurrent (hlc_stamp h) (hlc_stamp o) = Hlc.equal h o
are_concurrent (vector_stamp v) (vector_stamp o) = is_concurrent (compare v o)
are_concurrent _ _ = false
