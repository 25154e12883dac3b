-- ===== src/Ordering/Adapters.antt =====
-- ordering/happens_before.go: HappensBefore and Concurrent across the three adapters.
use chrono.Prelude.{◌≡◌, true, false, arith}
use chrono.GoMap.{IsMap}
use chrono.Hlc.{less, equal}
use chrono.Hlc.Timestamps.{less_irrefl, less_trans}
use chrono.Vector.Compare.{Relation, before, equal as same, compare}
use chrono.Vector.Compare.Laws.{compare_decides}
use chrono.Vector.Compare.Order.{before_trans}
use chrono.Ordering.{
  Stamp, lamport_stamp, hlc_stamp, vector_stamp, is_before, happens_before, are_concurrent,
}

-- What every Go value satisfies: the vector of a snapshot is a map.
abbrev pub IsStamp : Stamp → Type 0
IsStamp (lamport_stamp s) = Unit
IsStamp (hlc_stamp h) = Unit
IsStamp (vector_stamp v) = IsMap v.vec

is_before→eq : (r : Relation) → is_before r ≡ true → r ≡ before
unfolding is_before
is_before→eq r h = ground arith

pub happens_before_irrefl : (s : Stamp) → IsStamp s → happens_before s s ≡ false
unfolding happens_before
happens_before_irrefl (lamport_stamp s) h = ground arith
happens_before_irrefl (hlc_stamp t) h = less_irrefl t
happens_before_irrefl (vector_stamp v) h =
    let e : compare v v ≡ same =
      (compare_decides v v h h).0.1 (λ k. omega arith, λ k. omega arith) in
    rw e

pub happens_before_trans :
    (r s t : Stamp)
    → IsStamp r
    → IsStamp s
    → IsStamp t
    → happens_before r s ≡ true
    → happens_before s t ≡ true
    → happens_before r t ≡ true
unfolding happens_before
happens_before_trans (lamport_stamp a) (lamport_stamp b) (lamport_stamp c) hr hs ht p q =
    ground arith
happens_before_trans (hlc_stamp a) (hlc_stamp b) (hlc_stamp c) hr hs ht p q = less_trans a b c p q
happens_before_trans (vector_stamp a) (vector_stamp b) (vector_stamp c) hr hs ht p q =
    rw (before_trans a b c hr hs ht (is_before→eq (compare a b) p) (is_before→eq (compare b c) q))
happens_before_trans r s t hr hs ht p q = cc

before_not_concurrent : (s t : Stamp) → happens_before s t ≡ true → are_concurrent s t ≡ false
unfolding happens_before are_concurrent equal less
before_not_concurrent (lamport_stamp a) (lamport_stamp b) p = ground arith
before_not_concurrent (hlc_stamp a) (hlc_stamp b) p = ground arith
before_not_concurrent (vector_stamp a) (vector_stamp b) p = rw (is_before→eq (compare a b) p)
before_not_concurrent s t p = cc

-- On the stamps of the three clocks, of one kind or mixed, HappensBefore is irreflexive and
-- transitive, and of stamps where one happens before the other Concurrent does not hold.
pub stamp_order :
    (r s t : Stamp)
    → IsStamp r
    → IsStamp s
    → IsStamp t
    → (happens_before s s ≡ false)
      × (happens_before r s ≡ true → happens_before s t ≡ true → happens_before r t ≡ true)
      × (happens_before s t ≡ true → are_concurrent s t ≡ false)
stamp_order r s t hr hs ht =
    (happens_before_irrefl s hs, happens_before_trans r s t hr hs ht, before_not_concurrent s t)
