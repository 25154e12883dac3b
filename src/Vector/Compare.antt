-- ===== src/Vector/Compare.antt =====
-- vector/compare.go: the causal relation of two snapshots.
pub mod Laws
pub mod Order
pub mod Text
use chrono.Prelude.{
  ℕ, Bool, true, false, ◌&&◌, Option, none, some, List, [], ◌∷◌, ltb, if◌then◌else◌,
}
use chrono.GoMap.{Counters, lookup, counter}
use chrono.Vector.{Snapshot}

pub data Relation : Type 0 where
  before after equal concurrent : Relation

-- The first loop: `a_le` and `b_le` are aLessOrEq and bLessOrEq.
unfoldable pub compare_loop : Counters → Counters → Bool → Bool → Bool × Bool
compare_loop b [] a_le b_le = (a_le, b_le)
compare_loop b ((k, av) ∷ rest) a_le b_le =
    let bv = counter b k in
    compare_loop b rest (if ltb bv av then false else a_le) (if ltb av bv then false else b_le)

abbrev pub is_some : Option ℕ → Bool
is_some none = false
is_some (some v) = true

-- The second loop, over the keys of `b`.
unfoldable pub absent_loop : Counters → Counters → Bool → Bool
absent_loop a [] b_le = b_le
absent_loop a ((k, bv) ∷ rest) b_le =
    absent_loop a rest (if is_some (lookup k a) then b_le else (if ltb 0 bv then false else b_le))

unfoldable pub relation : Bool → Bool → Relation
relation a_le b_le =
    if a_le && b_le then equal else if a_le then before else if b_le then after else concurrent

unfoldable pub compare : Snapshot → Snapshot → Relation
unfolding relation
compare a b =
    let (a_le, b_le) = compare_loop b.vec a.vec true true in
    relation a_le (absent_loop a.vec b.vec b_le)
