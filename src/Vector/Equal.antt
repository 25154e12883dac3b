-- ===== src/Vector/Equal.antt =====
-- vector/clock.go: Snapshot.Equal, with and without zero entries.
use chrono.Prelude.{ℕ, ◌<◌, ◌≡◌, ◌≢◌, ◌↔◌, refl, true, false, none, ◌∷◌, arith}
use chrono.Prelude.Strings.{Str, str_eq_iff, str_eq_refl}
use chrono.GoMap.{Counters, lookup, IsMap}
use chrono.GoMap.Loops.{
  IsPositive, SameCounters, test_equal, test_equal_sound, test_equal_complete, equal_loop_cons,
}
use chrono.Vector.{Snapshot, equal}
use chrono.Vector.Compare.{compare, before}
use chrono.Vector.Steps.Forward.{before_of_lt}

equal-test_equal : (s t : Snapshot) → equal s t ≡ test_equal s.vec t.vec
unfolding equal
equal-test_equal s t = refl

-- On snapshots without zero entries Equal holds exactly when every counter agrees, whatever the node
-- ids and the orders of the entries.
pub equal_iff :
    (s t : Snapshot)
    → IsMap s.vec
    → IsMap t.vec
    → IsPositive s.vec
    → IsPositive t.vec
    → (equal s t ≡ true) ↔ SameCounters s.vec t.vec
equal_iff s t hs ht ps pt =
    rw (equal-test_equal s t)
      (test_equal_sound s.vec t.vec hs ht ps, test_equal_complete s.vec t.vec hs ht ps pt)

-- A zero entry makes Equal unsound: two snapshots that share the entries `m`, one with a further
-- node `k` at 0 and the other with a further node `j` at `n > 0`, pass the test, although Compare
-- says Before, and the test fails the other way round.
pub equal_unsound :
    (id : Str) (k j : Str) (n : ℕ) (m : Counters)
    → IsMap m
    → lookup k m ≡ none
    → lookup j m ≡ none
    → k ≢ j
    → 0 < n
    → (equal (record { node_id = id; vec = (k, 0) ∷ m }) (record { node_id = id; vec = (j, n) ∷ m })
        ≡ true)
      × (equal
            (record { node_id = id; vec = (j, n) ∷ m })
            (record { node_id = id; vec = (k, 0) ∷ m })
          ≡ false)
      × (compare
            (record { node_id = id; vec = (k, 0) ∷ m })
            (record { node_id = id; vec = (j, n) ∷ m })
          ≡ before)
unfolding equal lookup
equal_unsound id k j n m h fk fj ne pos = (
  ground (arith, equal_loop_cons j n m h fj, str_eq_iff j k),
  ground (arith, str_eq_iff k j),
  before_of_lt (record { node_id = id; vec = (k, 0) ∷ m })
      (record { node_id = id; vec = (j, n) ∷ m }) j (fk, h) (fj, h)
      (λ i. ground (arith, str_eq_iff k i, str_eq_iff j i, fresh_key i))
      (ground (arith, str_eq_refl j, str_eq_iff k j)),
)
  where
    fresh_key : (i : Str) → j ≡ i → lookup i m ≡ none
    fresh_key i e = rw (← e) fj
