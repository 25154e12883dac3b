-- ===== src/GoMap.antt =====
-- Go's `map[string]V` as an association list with distinct keys, in the order in which `range`
-- happens to visit it. Go leaves that order open; a list stands for each order that it may take.
use chrono.Prelude.{
  ℕ, ◌+◌, ◌≤◌, ◌≡◌, refl, Bool, true, false, Option, none, some, List, [], ◌∷◌, arith,
  if◌then◌else◌, length,
}
use chrono.Prelude.Strings.{Str, str_eq}
pub mod Laws
pub mod Keys
pub mod Entries
pub mod Loops

abbrev pub Map {ℓ} : Type ℓ → Type ℓ
Map V = List (Str × V)

module _ {ℓ} {V : Type ℓ} where
  -- `v, ok := m[k]`
  unfoldable pub lookup : Str → Map V → Option V
  lookup k [] = none
  lookup k ((j, v) ∷ m) = if str_eq j k then some v else lookup k m

  -- `m[k] = v`
  unfoldable pub insert : Str → V → Map V → Map V
  insert k v [] = (k, v) ∷ []
  insert k v ((j, w) ∷ m) = if str_eq j k then (j, v) ∷ m else (j, w) ∷ insert k v m

  -- `for k, v := range m { out[k] = v }`, which copies a map into `out`.
  unfoldable pub copy_into : Map V → Map V → Map V
  copy_into out [] = out
  copy_into out ((k, v) ∷ m) = copy_into (insert k v out) m

  -- What every Go map satisfies: a key occurs once.
  abbrev pub IsMap : Map V → Type ℓ
  IsMap [] = Unit
  IsMap ((k, v) ∷ m) = (lookup k m ≡ none) × IsMap m

-- A map of counters, where a missing key reads as 0.
abbrev pub Counters : Type 0
Counters = Map ℕ

abbrev pub or_zero : Option ℕ → ℕ
or_zero none = 0
or_zero (some n) = n

-- `m[k]`
abbrev pub counter : Counters → Str → ℕ
counter m k = or_zero (lookup k m)
