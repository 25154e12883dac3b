-- ===== src/Dotted/Converge.antt =====
-- dotted/doc.go: replicas that merge the versions that reach them, in any order.
use chrono.Prelude.{ℕ, ◌≡◌, ◌≤◌, ◌⊎◌, inl, inr, true, List, [], ◌∷◌, All, arith}
use chrono.Prelude.Strings.{Str}
use chrono.GoMap.{counter, IsMap}
use chrono.GoMap.Loops.{SameCounters, test_equal_complete}
use chrono.Dotted.{Version, merge, equals}
use chrono.Dotted.Equals.{equals-test_equal}
use chrono.Dotted.Merge.{IsVersion, merge-counter, merge-IsVersion}

-- A replica that merges the versions that it receives, from the first one on.
abbrev pub receive_all : Version → List Version → Version
receive_all start [] = start
receive_all start (x ∷ xs) = receive_all (merge start x) xs

abbrev pub HasMaps : List Version → Type 0
HasMaps xs = All (λ (x : Version). IsMap x.dots) xs

-- The version is one of the list, up to the order of its entries.
abbrev pub Among : Version → List Version → Type 0
Among x [] = ⊥
Among x (y ∷ ys) = SameCounters x.dots y.dots ⊎ Among x ys

-- Every version of the first list was also received in the second one.
abbrev pub AllAmong : List Version → List Version → Type 0
AllAmong xs ys = All (λ (x : Version). Among x ys) xs

receive_all-IsVersion :
    (start : Version) (xs : List Version) → IsVersion start → IsVersion (receive_all start xs)
receive_all-IsVersion start [] h = h
receive_all-IsVersion start (x ∷ xs) h =
    receive_all-IsVersion (merge start x) xs (merge-IsVersion start x h)

module _ (k : Str) where
  -- What a replica has counted is at least what it started with and what it received.
  start-le :
      (start : Version) (xs : List Version)
      → IsVersion start
      → HasMaps xs
      → counter start.dots k ≤ counter (receive_all start xs).dots k
  start-le start [] h hs = omega arith
  start-le start (x ∷ xs) h (hx, hs) = omega (
    arith,
    merge-counter start x h.is_map hx k,
    start-le (merge start x) xs (merge-IsVersion start x h) hs,
  )

  received-le :
      (start x : Version) (xs : List Version)
      → IsVersion start
      → HasMaps xs
      → Among x xs
      → counter x.dots k ≤ counter (receive_all start xs).dots k
  received-le start x [] h hs c = absurd c
  received-le start x (y ∷ ys) h (hy, hs) (inl e) = omega (
    arith,
    e k,
    merge-counter start y h.is_map hy k,
    start-le (merge start y) ys (merge-IsVersion start y h) hs,
  )
  received-le start x (y ∷ ys) h (hy, hs) (inr c) =
      received-le (merge start y) x ys (merge-IsVersion start y h) hs c

  -- And it is no more.
  receive_all-le :
      (start : Version) (xs : List Version) (n : ℕ)
      → IsVersion start
      → HasMaps xs
      → counter start.dots k ≤ n
      → All (λ (x : Version). counter x.dots k ≤ n) xs
      → counter (receive_all start xs).dots k ≤ n
  receive_all-le start [] n h hs le all = le
  receive_all-le start (x ∷ xs) n h (hx, hs) le (lx, all) =
      receive_all-le (merge start x) xs n (merge-IsVersion start x h) hs
        (omega (arith, merge-counter start x h.is_map hx k)) all

  All-received :
      (start : Version) (xs ys : List Version)
      → IsVersion start
      → HasMaps ys
      → AllAmong xs ys
      → All (λ (x : Version). counter x.dots k ≤ counter (receive_all start ys).dots k) xs
  All-received start [] ys h hs w = tt
  All-received start (x ∷ xs) ys h hs (c, w) =
      (received-le start x ys h hs c, All-received start xs ys h hs w)

  -- A replica that has received no more than another one has counted no more.
  receive_all_mono :
      (a b : Version) (xs ys : List Version)
      → IsVersion a
      → IsVersion b
      → HasMaps xs
      → HasMaps ys
      → counter a.dots k ≤ counter b.dots k
      → AllAmong xs ys
      → counter (receive_all a xs).dots k ≤ counter (receive_all b ys).dots k
  receive_all_mono a b xs ys ha hb hx hy le w =
      receive_all-le a xs (counter (receive_all b ys).dots k) ha hx
        (omega (arith, start-le b ys hb hy)) (All-received b xs ys hb hy w)

-- Strong convergence: two replicas that start with the same counters and have received the same
-- versions hold versions that Equals finds equal, in whatever order, how often, and with whatever
-- order of the entries each of them received them. (They start without zero counters.)
pub replicas_converge :
    (a b : Version) (xs ys : List Version)
    → IsVersion a
    → IsVersion b
    → HasMaps xs
    → HasMaps ys
    → SameCounters a.dots b.dots
    → AllAmong xs ys
    → AllAmong ys xs
    → equals (receive_all a xs) (receive_all b ys) ≡ true
replicas_converge a b xs ys ha hb hx hy same there back =
    let va = receive_all-IsVersion a xs ha in
    let vb = receive_all-IsVersion b ys hb in
    rw (equals-test_equal (receive_all a xs) (receive_all b ys)) (
      test_equal_complete (receive_all a xs).dots (receive_all b ys).dots va.is_map vb.is_map
        va.positive vb.positive
        (λ k. omega (
          arith,
          receive_all_mono k a b xs ys ha hb hx hy (omega (arith, same k)) there,
          receive_all_mono k b a ys xs hb ha hy hx (omega (arith, same k)) back,
        )))
