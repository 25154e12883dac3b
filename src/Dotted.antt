-- ===== src/Dotted.antt =====
-- dotted/version.go: version vectors. A Version is immutable, and every operation returns a new one.
pub mod Causal
pub mod Dominates
pub mod Merge
pub mod History
pub mod Converge
pub mod Equals
pub mod Resolve
mod Examples
use chrono.Prelude.{
  ℕ, ◌+◌, Bool, true, false, ◌&&◌, not, List, [], ◌∷◌, ltb, ◌==◌, if◌then◌else◌, length, Option,
  none, some,
}
use chrono.Prelude.Words.{u64}
use chrono.Prelude.Strings.{Str}
use chrono.GoMap.{Counters, lookup, insert, copy_into, counter}
use chrono.GoMap.Loops.{merge_loop, equal_loop}

pub record Version : Type 0 where
  pub dots : Counters

unfoldable pub new_version : Version
new_version = record { dots = [] }

unfoldable pub increment : Version → Str → Version
increment v actor =
    let out = copy_into [] v.dots in
    record { dots = insert actor (u64 (counter out actor + 1)) out }

unfoldable pub merge : Version → Version → Version
unfolding merge_loop
merge v other = record { dots = merge_loop (copy_into [] v.dots) other.dots }

-- The `for` loop of `Descends`.
unfoldable pub descends_loop : Counters → Counters → Bool
descends_loop dots [] = true
descends_loop dots ((k, c) ∷ rest) =
    let more = descends_loop dots rest in if ltb (counter dots k) c then false else more

unfoldable pub descends : Version → Version → Bool
descends v other = descends_loop v.dots other.dots

-- The first loop of `Dominates`: `none` is its early return of false, and otherwise the result is
-- `strictly` at the end.
unfoldable pub strict_loop : Counters → Counters → Bool → Option Bool
strict_loop dots [] strictly = some strictly
strict_loop dots ((k, c) ∷ rest) strictly =
    let vc = counter dots k in
    let more = strict_loop dots rest (if ltb c vc then true else strictly) in
    if ltb vc c then none else more

-- The second loop of `Dominates`: some key of `dots` is missing in the other map.
unfoldable pub extra_loop : Counters → Counters → Bool
extra_loop other [] = false
extra_loop other ((k, c) ∷ rest) =
    let more = extra_loop other rest in elim (lookup k other) [ none ↦ true | some _ ↦ more ]

-- What `Dominates` returns after its loops.
unfoldable pub verdict : Option Bool → Bool → Bool
verdict none extra = false
verdict (some strictly) extra =
    if not strictly then (if extra then true else strictly) else strictly

unfoldable pub dominates : Version → Version → Bool
dominates v other = verdict (strict_loop v.dots other.dots false) (extra_loop other.dots v.dots)

unfoldable pub equals : Version → Version → Bool
equals v other =
    if not (length v.dots == length other.dots) then false else equal_loop other.dots v.dots

unfoldable pub concurrent : Version → Version → Bool
unfolding descends
concurrent v other = not (descends v other) && not (descends other v)

-- `Dots`
unfoldable pub dots : Version → Counters
dots v = copy_into [] v.dots
