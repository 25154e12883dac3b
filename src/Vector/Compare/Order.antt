-- ===== src/Vector/Compare/Order.antt =====
-- vector/compare.go: Compare with its arguments swapped, chained, or replaced by others.
use chrono.Prelude.{◌≡◌, ◌↔◌, refl, arith}
use chrono.GoMap.{Counters, IsMap}
use chrono.GoMap.Loops.{SameCounters}
use chrono.Vector.{Snapshot}
use chrono.Vector.Compare.{Relation, before, after, equal, concurrent, compare}
use chrono.Vector.Compare.Laws.{Le, compare_decides}

pub Le_trans : (a b c : Counters) → Le a b → Le b c → Le a c
Le_trans a b c h k j = omega (arith, h j, k j)

-- Before is a strict order on snapshots: irreflexive and transitive.
pub before_trans :
    (a b c : Snapshot)
    → IsMap a.vec
    → IsMap b.vec
    → IsMap c.vec
    → compare a b ≡ before
    → compare b c ≡ before
    → compare a c ≡ before
before_trans a b c ha hb hc e f =
    let (ab, not_ba) = (compare_decides a b ha hb).1.0 e in
    let (bc, not_cb) = (compare_decides b c hb hc).1.0 f in
    (compare_decides a c ha hc).1.1
      (Le_trans a.vec b.vec c.vec ab bc, λ ca. not_cb (Le_trans c.vec a.vec b.vec ca ab))

abbrev pub flip : Relation → Relation
flip before = after
flip after = before
flip equal = equal
flip concurrent = concurrent

flip-eq_of_cases :
    (a b : Snapshot) (ha : IsMap a.vec) (hb : IsMap b.vec) (r : Relation)
    → compare a b ≡ r
    → compare b a ≡ flip r
flip-eq_of_cases a b ha hb before e =
    let (le, not_ge) = (compare_decides a b ha hb).1.0 e in
    (compare_decides b a hb ha).2.1 (not_ge, le)
flip-eq_of_cases a b ha hb after e =
    let (not_le, ge) = (compare_decides a b ha hb).2.0 e in
    (compare_decides b a hb ha).1.1 (ge, not_le)
flip-eq_of_cases a b ha hb equal e =
    let (le, ge) = (compare_decides a b ha hb).0.0 e in (compare_decides b a hb ha).0.1 (ge, le)
flip-eq_of_cases a b ha hb concurrent e =
    let (not_le, not_ge) = (compare_decides a b ha hb).3.0 e in
    (compare_decides b a hb ha).3.1 (not_ge, not_le)

-- Comparing the other way round swaps Before and After and keeps Equal and Concurrent.
pub compare-flip : (a b : Snapshot) → IsMap a.vec → IsMap b.vec → compare b a ≡ flip (compare a b)
compare-flip a b ha hb = flip-eq_of_cases a b ha hb (compare a b) refl

eq_of_cases :
    (a b a' b' : Snapshot) (ha : IsMap a.vec) (hb : IsMap b.vec) (ha' : IsMap a'.vec)
    (hb' : IsMap b'.vec) (r : Relation)
    → (Le a.vec b.vec ↔ Le a'.vec b'.vec)
    → (Le b.vec a.vec ↔ Le b'.vec a'.vec)
    → compare a b ≡ r
    → compare a' b' ≡ r
eq_of_cases a b a' b' ha hb ha' hb' before p q e =
    let (le, not_ge) = (compare_decides a b ha hb).1.0 e in
    (compare_decides a' b' ha' hb').1.1 (p.0 le, λ ge. not_ge (q.1 ge))
eq_of_cases a b a' b' ha hb ha' hb' after p q e =
    let (not_le, ge) = (compare_decides a b ha hb).2.0 e in
    (compare_decides a' b' ha' hb').2.1 (λ le. not_le (p.1 le), q.0 ge)
eq_of_cases a b a' b' ha hb ha' hb' equal p q e =
    let (le, ge) = (compare_decides a b ha hb).0.0 e in
    (compare_decides a' b' ha' hb').0.1 (p.0 le, q.0 ge)
eq_of_cases a b a' b' ha hb ha' hb' concurrent p q e =
    let (not_le, not_ge) = (compare_decides a b ha hb).3.0 e in
    (compare_decides a' b' ha' hb').3.1 (λ le. not_le (p.1 le), λ ge. not_ge (q.1 ge))

-- Compare depends on the counters alone: not on the node ids, not on the order in which Go visits
-- the maps, and not on entries of 0.
pub compare-SameCounters :
    (a b a' b' : Snapshot)
    → IsMap a.vec
    → IsMap b.vec
    → IsMap a'.vec
    → IsMap b'.vec
    → SameCounters a.vec a'.vec
    → SameCounters b.vec b'.vec
    → compare a' b' ≡ compare a b
compare-SameCounters a b a' b' ha hb ha' hb' p q =
    eq_of_cases a b a' b' ha hb ha' hb' (compare a b)
      (λ le k. omega (arith, le k, p k, q k), λ le k. omega (arith, le k, p k, q k))
      (λ le k. omega (arith, le k, p k, q k), λ le k. omega (arith, le k, p k, q k)) refl
