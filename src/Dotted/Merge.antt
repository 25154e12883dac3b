-- ===== src/Dotted/Merge.antt =====
-- dotted/version.go: Increment and Merge, on versions without zero counters.
use chrono.Prelude.{ℕ, ◌+◌, ◌-◌, ◌^◌, ◌<◌, ◌≡◌, true, [], ◌∷◌, ltb, if◌then◌else◌, arith, max}
use chrono.Prelude.Words.{u64}
use chrono.Prelude.Strings.{Str, str_eq, str_eq_iff, str_eq_refl}
use chrono.GoMap.{Counters, insert, counter, IsMap}
use chrono.GoMap.Laws.{counter-insert, insert-IsMap, copy_into-nil}
use chrono.GoMap.Loops.{IsPositive, merge_loop, counter-merge_loop, merge_loop-IsMap}
use chrono.Dotted.{Version, increment, merge, descends, dominates}
use chrono.Dotted.Causal.{descends_iff}
use chrono.Dotted.Dominates.{dominates_iff}

abbrev pub max_u64 : ℕ
max_u64 = 2 ^ 64 - 1

-- A version as the methods of the package make them: a map, with no zero counters.
pub record IsVersion (v : Version) : Type 0 where
  pub is_map : IsMap v.dots
  pub positive : IsPositive v.dots

IsPositive-insert :
    (k : Str) (c : ℕ) (m : Counters) → IsPositive m → 0 < c → IsPositive (insert k c m)
unfolding insert
IsPositive-insert k c [] p pos = (pos, tt)
IsPositive-insert k c ((j, w) ∷ m) (q, p) pos = ground (arith, IsPositive-insert k c m p pos)

IsPositive-merge_loop : (vec m : Counters) → IsPositive vec → IsPositive (merge_loop vec m)
unfolding merge_loop
IsPositive-merge_loop vec [] p = p
IsPositive-merge_loop vec ((k, c) ∷ m) p =
    IsPositive-merge_loop (if ltb (counter vec k) c then insert k c vec else vec) m
      (ground (arith, IsPositive-insert k c vec p))

increment-counter :
    (v : Version) (actor : Str)
    → IsMap v.dots
    → (k : Str)
    → counter (increment v actor).dots k
      ≡ (if str_eq actor k then u64 (counter v.dots k + 1) else counter v.dots k)
unfolding increment
increment-counter v actor h k = rw (copy_into-nil v.dots h) (
    ground
      (arith, counter-insert actor k (u64 (counter v.dots actor + 1)) v.dots, str_eq_iff actor k))

increment-IsVersion :
    (v : Version) (actor : Str)
    → IsVersion v
    → counter v.dots actor < max_u64
    → IsVersion (increment v actor)
unfolding increment
increment-IsVersion v actor h room = rw (copy_into-nil v.dots h.is_map) (record {
  is_map = insert-IsMap actor _ v.dots h.is_map;
  positive = IsPositive-insert actor _ v.dots h.positive (omega arith);
})

pub merge-counter :
    (v other : Version)
    → IsMap v.dots
    → IsMap other.dots
    → (k : Str) → counter (merge v other).dots k ≡ max (counter v.dots k) (counter other.dots k)
unfolding merge
merge-counter v other hv ho k =
    rw (copy_into-nil v.dots hv) (counter-merge_loop v.dots other.dots ho k)

pub merge-IsMap : (v other : Version) → IsMap v.dots → IsMap (merge v other).dots
unfolding merge
merge-IsMap v other h = rw (copy_into-nil v.dots h) (merge_loop-IsMap v.dots other.dots h)

pub merge-IsVersion : (v other : Version) → IsVersion v → IsVersion (merge v other)
unfolding merge
merge-IsVersion v other h = rw (copy_into-nil v.dots h.is_map) (record {
  is_map = merge_loop-IsMap v.dots other.dots h.is_map;
  positive = IsPositive-merge_loop v.dots other.dots h.positive;
})

-- Increment makes a version that dominates the old one: the actor's counter goes up by one and no other
-- changes, as long as it is below the largest uint64. The result again has no zero counters.
pub increment_lem :
    (v : Version) (actor : Str)
    → IsVersion v
    → counter v.dots actor < max_u64
    → ((k : Str)
        → counter (increment v actor).dots k
          ≡ (if str_eq actor k then counter v.dots k + 1 else counter v.dots k))
      × (dominates (increment v actor) v ≡ true)
      × IsVersion (increment v actor)
increment_lem v actor h room = (
  counters,
  (dominates_iff (increment v actor) v next.is_map h.is_map next.positive).1 (
    λ k. ground (arith, counters k),
    λ back. ground (arith, back actor, counters actor, str_eq_refl actor),
  ),
  next,
)
  where
    next : IsVersion (increment v actor)
    next = increment-IsVersion v actor h room

    counters :
        (k : Str)
        → counter (increment v actor).dots k
          ≡ (if str_eq actor k then counter v.dots k + 1 else counter v.dots k)
    counters k = ground (arith, increment-counter v actor h.is_map k, str_eq_iff actor k)

-- Merge is the least upper bound of two histories: the result descends from both, every version that
-- descends from both descends from it, and it has no zero counters.
pub merge_lem :
    (v other w : Version)
    → IsVersion v
    → IsVersion other
    → (descends (merge v other) v ≡ true)
      × (descends (merge v other) other ≡ true)
      × (descends w v ≡ true → descends w other ≡ true → descends w (merge v other) ≡ true)
      × IsVersion (merge v other)
merge_lem v other w hv ho = (
  (descends_iff (merge v other) v hv.is_map).1 (λ k. omega (arith, counters k)),
  (descends_iff (merge v other) other ho.is_map).1 (λ k. omega (arith, counters k)),
  λ e f.
      let le = (descends_iff w v hv.is_map).0 e in
      let le' = (descends_iff w other ho.is_map).0 f in
      (descends_iff w (merge v other) joined.is_map).1
        (λ k. omega (arith, counters k, le k, le' k)),
  joined,
)
  where
    joined : IsVersion (merge v other)
    joined = merge-IsVersion v other hv

    counters :
        (k : Str) → counter (merge v other).dots k ≡ max (counter v.dots k) (counter other.dots k)
    counters = merge-counter v other hv.is_map ho.is_map
