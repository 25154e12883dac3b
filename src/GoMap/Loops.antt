-- ===== src/GoMap/Loops.antt =====
-- Two loops over counters that vector/clock.go and dotted/version.go both have.
use chrono.Prelude.{
  ℕ, ◌<◌, ◌≡◌, ◌↔◌, sym, Bool, true, false, [], ◌∷◌, arith, ltb, ◌==◌, if◌then◌else◌, not, max,
  length, All, none, some, Option-cases, Bool-cases, ap, inl, inr,
}
use chrono.Prelude.Strings.{Str, str_eq, str_eq_iff}
use chrono.GoMap.{Counters, lookup, insert, counter, IsMap}
use chrono.GoMap.Laws.{counter-insert, insert-IsMap}
use chrono.GoMap.Entries.{All-lookup, lookup-All}
use chrono.GoMap.Keys.{KeysWithin, KeysWithin-symm, KeysWithin-length-le}

-- The `for` loop of `Receive` and the second one of `Merge`, over what is left of the other map.
unfoldable pub merge_loop : Counters → Counters → Counters
merge_loop vec [] = vec
merge_loop vec ((node, rv) ∷ rest) =
    merge_loop (if ltb (counter vec node) rv then insert node rv vec else vec) rest

-- The `for` loop of `Equal` and `Equals`.
unfoldable pub equal_loop : Counters → Counters → Bool
equal_loop other [] = true
equal_loop other ((k, v) ∷ rest) =
    let more = equal_loop other rest in if not (counter other k == v) then false else more

-- The merge takes the larger counter at every key.
pub counter-merge_loop :
    (vec rem : Counters)
    → IsMap rem
    → (k : Str) → counter (merge_loop vec rem) k ≡ max (counter vec k) (counter rem k)
unfolding merge_loop lookup
counter-merge_loop vec [] h k = omega arith
counter-merge_loop vec ((node, rv) ∷ rest) (fresh, h) k = ground (
  arith,
  counter-merge_loop (if ltb (counter vec node) rv then insert node rv vec else vec) rest h k,
  counter-insert node k rv vec,
  str_eq_iff node k,
)

pub merge_loop-IsMap : (vec rem : Counters) → IsMap vec → IsMap (merge_loop vec rem)
unfolding merge_loop
merge_loop-IsMap vec [] h = h
merge_loop-IsMap vec ((node, rv) ∷ rest) h =
    merge_loop-IsMap (if ltb (counter vec node) rv then insert node rv vec else vec) rest
      (ground (arith, insert-IsMap node rv vec h))

equal_loop_lem :
    (other m : Counters)
    → (equal_loop other m ≡ true) ↔ All (λ (e : Str × ℕ). counter other e.0 ≡ e.1) m
unfolding equal_loop
equal_loop_lem other [] = ground arith
equal_loop_lem other ((k, v) ∷ m) = ground (arith, equal_loop_lem other m)

-- No entry is 0.
abbrev pub IsPositive : Counters → Type 0
IsPositive m = All (λ (e : Str × ℕ). 0 < e.1) m

-- Two maps that read the same at every key.
abbrev pub SameCounters : Counters → Counters → Type 0
SameCounters a b = (k : Str) → counter a k ≡ counter b k

-- The test that Equal and Equals make.
abbrev pub test_equal : Counters → Counters → Bool
test_equal a b = if not (length a == length b) then false else equal_loop b a

-- Where the counters agree, a map without zeros has no key that the other lacks.
KeysWithin-same :
    (a b : Counters)
    → IsPositive a
    → ((k : Str) (v : ℕ) → lookup k a ≡ some v → counter b k ≡ v)
    → KeysWithin a b
KeysWithin-same a b p same k e = elim (Option-cases (lookup k a)) [
  | inl e' ↦ e'
  | inr (v, e') ↦
      let pos : 0 < v = All-lookup (λ x. 0 < x.1) a k v p e' in absurd (ground (arith, same k v e'))
]

-- If the first map has no zeros, the test passes only for the same counters.
pub test_equal_sound :
    (a b : Counters) → IsMap a → IsMap b → IsPositive a → test_equal a b ≡ true → SameCounters a b
test_equal_sound a b ha hb p e k =
    let passed : (length a ≡ length b) × (equal_loop b a ≡ true) = ground arith in
    let all = (equal_loop_lem b a).0 passed.1 in
    let same : (j : Str) (v : ℕ) → lookup j a ≡ some v → counter b j ≡ v =
      λ j v at. All-lookup (λ x. counter b x.0 ≡ x.1) a j v all at in
    let back = KeysWithin-symm a b ha hb passed.0 (KeysWithin-same a b p same) in
    elim (Option-cases (lookup k a)) [
      | inl none_a ↦ rw (none_a, back k none_a)
      | inr (v, at) ↦ rw at (sym (same k v at))
    ]

KeysWithin-SameCounters : (a b : Counters) → IsPositive a → SameCounters a b → KeysWithin a b
KeysWithin-SameCounters a b p same = KeysWithin-same a b p (λ k v e. ground (arith, same k))

-- If neither map has zeros, the test passes for the same counters.
pub test_equal_complete :
    (a b : Counters)
    → IsMap a
    → IsMap b
    → IsPositive a
    → IsPositive b
    → SameCounters a b
    → test_equal a b ≡ true
test_equal_complete a b ha hb pa pb same =
    let within = KeysWithin-SameCounters a b pa same in
    let within' = KeysWithin-SameCounters b a pb (λ k. sym (same k)) in
    let all : equal_loop b a ≡ true =
      (equal_loop_lem b a).1
        (lookup-All (λ x. counter b x.0 ≡ x.1) a ha (λ k v e. ground (arith, same k))) in
    ground (arith, KeysWithin-length-le a b ha hb within, KeysWithin-length-le b a hb ha within')

counter_behind :
    (j k : Str) (n v : ℕ) (m : Counters)
    → lookup j m ≡ none
    → lookup k m ≡ some v
    → counter ((j, n) ∷ m) k ≡ v
unfolding lookup
counter_behind j k n v m fresh e = elim (Bool-cases (str_eq j k)) [
  | inl same ↦ cc (fresh, e, ap (λ t. lookup t m) ((str_eq_iff j k).0 same))
  | inr other ↦ rw (other, e)
]

-- The loop passes on a map that only has one more entry in front.
pub equal_loop_cons :
    (j : Str) (n : ℕ) (m : Counters)
    → IsMap m
    → lookup j m ≡ none
    → equal_loop ((j, n) ∷ m) m ≡ true
equal_loop_cons j n m h fresh = (equal_loop_lem ((j, n) ∷ m) m).1 (
    lookup-All (λ x. counter ((j, n) ∷ m) x.0 ≡ x.1) m h
      (λ k v e. counter_behind j k n v m fresh e))
