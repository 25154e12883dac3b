-- ===== src/Vector/Examples.antt =====
-- Runs of the vector clock, and its theorems at concrete inputs.
use chrono.Prelude.{ℕ, ◌+◌, ◌≡◌, ◌≢◌, ◌↔◌, refl, true, false, [], ◌∷◌, max, arith, if◌then◌else◌}
use chrono.Prelude.Words.{u64}
use chrono.Prelude.Strings.{Str, str_eq, str_eq_iff}
use chrono.GoMap.{lookup, insert, copy_into, counter, IsMap}
use chrono.GoMap.Loops.{SameCounters}
use chrono.Vector.{
  Clock, Snapshot, new, new_from_map, tick, send, receive, now, get, nodes, copy, equal,
}
use chrono.Vector.Compare.{
  compare, before, after, equal as same, concurrent, compare_loop, absent_loop,
}
use chrono.Vector.Compare.Laws.{Le, compare_decides}
use chrono.Vector.Steps.{receive_counters}
use chrono.Vector.Causality.Exact.{compare_exact}
use chrono.Causal.{HappensBefore}
use chrono.Vector.Causality.Delivery.{id, ids_apart, sent, received, message-Run}
use chrono.Vector.Equal.{equal_unsound}

abbrev a : Str
a = b'a' ∷ []

abbrev b : Str
b = b'b' ∷ []

abbrev left : Snapshot
left = record { node_id = a; vec = (a, 2) ∷ (b, 1) ∷ [] }

abbrev right : Snapshot
right = record { node_id = b; vec = (b, 3) ∷ [] }

left-IsMap : IsMap left.vec
unfolding lookup str_eq
left-IsMap = (refl, (refl, tt))

right-IsMap : IsMap right.vec
unfolding lookup
right-IsMap = (refl, tt)

diverged : compare left right ≡ concurrent
unfolding compare compare_loop absent_loop lookup str_eq
diverged = refl

-- The example of vector/doc.go: a ticks and sends, and b receives.
sending : (send (tick (new a)).0).1.vec ≡ (a, 2) ∷ []
unfolding send tick new insert copy_into lookup str_eq
sending = refl

receiving :
    (receive (new b) (record { node_id = a; vec = (a, 2) ∷ [] })).1.vec ≡ (a, 2) ∷ (b, 1) ∷ []
unfolding receive new insert copy_into lookup str_eq
receiving = refl

copies : copy left ≡ left
unfolding copy copy_into insert str_eq
copies = refl

-- Nodes lists a node whose counter is 0.
zero_listed : nodes (now (new_from_map a ((b, 0) ∷ []))) ≡ b ∷ []
unfolding nodes now new_from_map copy_into insert
zero_listed = refl

missing : get right a ≡ 0
unfolding get lookup str_eq
missing = refl

compare_decides_example :
    ((compare left right ≡ same) ↔ (Le left.vec right.vec × Le right.vec left.vec))
    × ((compare left right ≡ before) ↔ (Le left.vec right.vec × ¬ (Le right.vec left.vec)))
    × ((compare left right ≡ after) ↔ ((¬ (Le left.vec right.vec)) × Le right.vec left.vec))
    × ((compare left right ≡ concurrent)
        ↔ ((¬ (Le left.vec right.vec)) × ¬ (Le right.vec left.vec)))
compare_decides_example = compare_decides left right left-IsMap right-IsMap

-- The entries of `left` in another order, and with a further one of 0.
abbrev reordered : Snapshot
reordered = record { node_id = b; vec = (b, 1) ∷ (a, 2) ∷ [] }

reordered-IsMap : IsMap reordered.vec
unfolding lookup str_eq
reordered-IsMap = (refl, (refl, tt))

reordered-same : SameCounters left.vec reordered.vec
unfolding lookup
reordered-same k = ground (arith, str_eq_iff a k, str_eq_iff b k)

abbrev clock : Clock
clock = record { node_id = a; vec = left.vec }

receive_counters_example :
    ((k : Str)
      → counter (receive clock right).1.vec k ≡ (
          if str_eq a k
          then u64 (max (counter left.vec k) (counter right.vec k) + 1)
          else max (counter left.vec k) (counter right.vec k)))
    × ((receive clock right).1 ≡ now (receive clock right).0)
    × IsMap (receive clock right).0.vec
receive_counters_example = receive_counters clock right left-IsMap right-IsMap

abbrev full : Clock
full = record { node_id = a; vec = (a, 18446744073709551615) ∷ [] }

different : a ≢ b
different e = cc ((str_eq_iff a b).1 e, apart)
  where
    apart : str_eq a b ≡ false
    apart = unfold str_eq in refl

equal_unsound_example :
    (equal (record { node_id = a; vec = (a, 0) ∷ [] }) (record { node_id = a; vec = (b, 5) ∷ [] })
      ≡ true)
    × (equal (record { node_id = a; vec = (b, 5) ∷ [] }) (record { node_id = a; vec = (a, 0) ∷ [] })
        ≡ false)
    × (compare
          (record { node_id = a; vec = (a, 0) ∷ [] })
          (record { node_id = a; vec = (b, 5) ∷ [] })
        ≡ before)
unfolding lookup
equal_unsound_example = equal_unsound a a b 5 [] tt refl refl different (omega arith)

abbrev sender : ℕ
sender = 0

abbrev receiver : ℕ
receiver = 1

compare_exact_example :
    ((compare sent.stamp received.stamp ≡ before)
      ↔ HappensBefore (received ∷ sent ∷ []) sender receiver)
    × ((compare sent.stamp received.stamp ≡ after)
        ↔ HappensBefore (received ∷ sent ∷ []) receiver sender)
    × ((compare sent.stamp received.stamp ≡ same) ↔ (sender ≡ receiver))
    × ((compare sent.stamp received.stamp ≡ concurrent) ↔ (
        (sender ≢ receiver)
        × (¬ (HappensBefore (received ∷ sent ∷ []) sender receiver))
        × (¬ (HappensBefore (received ∷ sent ∷ []) receiver sender))))
compare_exact_example = compare_exact id ids_apart sender receiver message-Run refl refl
