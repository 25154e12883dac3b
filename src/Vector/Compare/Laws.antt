-- ===== src/Vector/Compare/Laws.antt =====
-- vector/compare.go: the loops of Compare against the pointwise order of the counters.
use chrono.Prelude.{
  ℕ, ◌≤◌, ◌≡◌, ◌↔◌, ◌⊎◌, Bool, true, false, [], ◌∷◌, ltb, if◌then◌else◌, arith, refl, All,
  Option-cases, inl, inr,
}
use chrono.Prelude.Strings.{Str}
use chrono.GoMap.{Counters, lookup, counter, IsMap}
use chrono.GoMap.Entries.{All-lookup, lookup-All}
use chrono.Vector.{Snapshot}
use chrono.Vector.Compare.{
  before, after, equal, concurrent, compare_loop, absent_loop, relation, compare, is_some,
}

-- Every counter of `a` is at most that of `b`; a missing key counts as 0.
abbrev pub Le : Counters → Counters → Type 0
Le a b = (k : Str) → counter a k ≤ counter b k

-- What the loops find: for the entries of `a`, both directions, and for those of `b` that `a` lacks.
abbrev EntriesLe : Counters → Counters → Type 0
EntriesLe a b = All (λ (e : Str × ℕ). e.1 ≤ counter b e.0) a

abbrev EntriesGe : Counters → Counters → Type 0
EntriesGe a b = All (λ (e : Str × ℕ). counter b e.0 ≤ e.1) a

abbrev AbsentZero : Counters → Counters → Type 0
AbsentZero a b = All (λ (e : Str × ℕ). (is_some (lookup e.0 a) ≡ true) ⊎ (e.1 ≡ 0)) b

compare_loop_le :
    (b a : Counters) (x y : Bool) → ((compare_loop b a x y).0 ≡ true) ↔ ((x ≡ true) × EntriesLe a b)
unfolding compare_loop
compare_loop_le b [] x y = ground arith
compare_loop_le b ((k, av) ∷ a) x y = ground (
  arith,
  compare_loop_le b a (if ltb (counter b k) av then false else x)
      (if ltb av (counter b k) then false else y),
)

compare_loop_ge :
    (b a : Counters) (x y : Bool) → ((compare_loop b a x y).1 ≡ true) ↔ ((y ≡ true) × EntriesGe a b)
unfolding compare_loop
compare_loop_ge b [] x y = ground arith
compare_loop_ge b ((k, av) ∷ a) x y = ground (
  arith,
  compare_loop_ge b a (if ltb (counter b k) av then false else x)
      (if ltb av (counter b k) then false else y),
)

absent_loop_lem :
    (a b : Counters) (y : Bool) → (absent_loop a b y ≡ true) ↔ ((y ≡ true) × AbsentZero a b)
unfolding absent_loop
absent_loop_lem a [] y = ground arith
absent_loop_lem a ((k, bv) ∷ b) y = ground (
  arith,
  absent_loop_lem a b (if is_some (lookup k a) then y else (if ltb 0 bv then false else y)),
)

EntriesLe-Le : (a b : Counters) → IsMap a → EntriesLe a b ↔ Le a b
EntriesLe-Le a b h = (
  λ all k. elim (Option-cases (lookup k a)) [
    | inl e ↦ rw e (omega arith)
    | inr (v, e) ↦ rw e (All-lookup (λ x. x.1 ≤ counter b x.0) a k v all e)
  ],
  λ le. lookup-All (λ x. x.1 ≤ counter b x.0) a h (λ k v e. rw e at (le k)),
)

EntriesGe-Le : (a b : Counters) → IsMap a → IsMap b → (EntriesGe a b × AbsentZero a b) ↔ Le b a
EntriesGe-Le a b ha hb = (
  λ all k. elim (Option-cases (lookup k a)) [
    | inl e ↦ elim (Option-cases (lookup k b)) [
      | inl e' ↦ rw (e', e) (omega arith)
      | inr (v, e') ↦
          let z : (is_some (lookup k a) ≡ true) ⊎ (v ≡ 0) =
            All-lookup (λ x. (is_some (lookup x.0 a) ≡ true) ⊎ (x.1 ≡ 0)) b k v all.1 e' in
          ground arith
    ]
    | inr (v, e) ↦ rw e (All-lookup (λ x. counter b x.0 ≤ x.1) a k v all.0 e)
  ],
  λ le. (
    lookup-All (λ x. counter b x.0 ≤ x.1) a ha (λ k v e. rw e at (le k)),
    lookup-All (λ x. (is_some (lookup x.0 a) ≡ true) ⊎ (x.1 ≡ 0)) b hb
        (λ k v e. ground (arith, le k)),
  ),
)

-- The flags aLessOrEq and bLessOrEq after the two loops.
abbrev a_flag : Counters → Counters → Bool
a_flag a b = (compare_loop b a true true).0

abbrev b_flag : Counters → Counters → Bool
b_flag a b = absent_loop a b (compare_loop b a true true).1

a_flag_lem : (a b : Counters) → IsMap a → (a_flag a b ≡ true) ↔ Le a b
a_flag_lem a b h =
    let loop = compare_loop_le b a true true in
    let entries = EntriesLe-Le a b h in
    (λ e. entries.0 (loop.0 e).1, λ le. loop.1 (refl, entries.1 le))

b_flag_lem : (a b : Counters) → IsMap a → IsMap b → (b_flag a b ≡ true) ↔ Le b a
b_flag_lem a b ha hb =
    let loop = compare_loop_ge b a true true in
    let absent = absent_loop_lem a b (compare_loop b a true true).1 in
    let entries = EntriesGe-Le a b ha hb in
    (
      λ e. let (y, zero) = absent.0 e in entries.0 ((loop.0 y).1, zero),
      λ le. let (all, zero) = entries.1 le in absent.1 (loop.1 (refl, all), zero),
    )

relation_cases :
    (x y : Bool) {P Q : Type 0}
    → (x ≡ true) ↔ P
    → (y ≡ true) ↔ Q
    → ((relation x y ≡ equal) ↔ (P × Q))
      × ((relation x y ≡ before) ↔ (P × ¬ Q))
      × ((relation x y ≡ after) ↔ ((¬ P) × Q))
      × ((relation x y ≡ concurrent) ↔ ((¬ P) × ¬ Q))
unfolding relation
relation_cases true true p q =
    let hp = p.0 refl in
    let hq = q.0 refl in
    (
      (λ e. (hp, hq), λ h. refl),
      (λ e. cc, λ h. absurd (h.1 hq)),
      (λ e. cc, λ h. absurd (h.0 hp)),
      (λ e. cc, λ h. absurd (h.0 hp)),
    )
relation_cases true false {Q} p q =
    let hp = p.0 refl in
    let nq : ¬ Q = λ h. cc (q.1 h) in
    (
      (λ e. cc, λ h. absurd (nq h.1)),
      (λ e. (hp, nq), λ h. refl),
      (λ e. cc, λ h. absurd (nq h.1)),
      (λ e. cc, λ h. absurd (h.0 hp)),
    )
relation_cases false true {P} p q =
    let np : ¬ P = λ h. cc (p.1 h) in
    let hq = q.0 refl in
    (
      (λ e. cc, λ h. absurd (np h.0)),
      (λ e. cc, λ h. absurd (np h.0)),
      (λ e. (np, hq), λ h. refl),
      (λ e. cc, λ h. absurd (h.1 hq)),
    )
relation_cases false false {P} {Q} p q =
    let np : ¬ P = λ h. cc (p.1 h) in
    let nq : ¬ Q = λ h. cc (q.1 h) in
    (
      (λ e. cc, λ h. absurd (np h.0)),
      (λ e. cc, λ h. absurd (np h.0)),
      (λ e. cc, λ h. absurd (nq h.1)),
      (λ e. (np, nq), λ h. refl),
    )

-- Compare decides the pointwise order of the counters, where a missing key counts as 0: it is Equal
-- when each side is at most the other, Before when only the first is at most the second, After when
-- only the second is at most the first, and Concurrent when neither is.
pub compare_decides :
    (a b : Snapshot)
    → IsMap a.vec
    → IsMap b.vec
    → ((compare a b ≡ equal) ↔ (Le a.vec b.vec × Le b.vec a.vec))
      × ((compare a b ≡ before) ↔ (Le a.vec b.vec × ¬ (Le b.vec a.vec)))
      × ((compare a b ≡ after) ↔ ((¬ (Le a.vec b.vec)) × Le b.vec a.vec))
      × ((compare a b ≡ concurrent) ↔ ((¬ (Le a.vec b.vec)) × ¬ (Le b.vec a.vec)))
unfolding compare
compare_decides a b ha hb =
    relation_cases (a_flag a.vec b.vec) (b_flag a.vec b.vec) (a_flag_lem a.vec b.vec ha)
      (b_flag_lem a.vec b.vec ha hb)
