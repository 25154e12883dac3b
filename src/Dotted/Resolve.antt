-- ===== src/Dotted/Resolve.antt =====
-- dotted/resolve.go: choosing among siblings.
pub mod Latest
use chrono.Prelude.{
  ℕ, zero, suc, ◌+◌, Option, none, some, List, [], ◌∷◌, ltb, if◌then◌else◌, ◌==◌, length, get_elem?,
}
use chrono.Prelude.Words.{u64}
use chrono.GoMap.{Counters}
use chrono.Dotted.{Version}

pub record Sibling {ℓ} (T : Type ℓ) : Type ℓ where
  pub version : Version
  pub value : T

-- The loop of `dotSum`; the sum wraps.
unfoldable pub sum_loop : Counters → ℕ → ℕ
sum_loop [] sum = sum
sum_loop ((k, c) ∷ rest) sum = sum_loop rest (u64 (sum + c))

unfoldable pub dot_sum : Version → ℕ
unfolding sum_loop
dot_sum v = sum_loop v.dots 0

module _ {ℓ} {T : Type ℓ} where
  -- `none` is the panic on an empty slice.
  unfoldable pub resolve_by_custom :
      List (Sibling T) → (List (Sibling T) → Sibling T) → Option (Sibling T)
  resolve_by_custom siblings picker = if length siblings == 0 then none else some (picker siblings)

  -- The loop of `ResolveLatestWriteWins`, from index `i` on: the best index at its end.
  unfoldable pub best_loop : List (Sibling T) → ℕ → ℕ → ℕ → ℕ
  best_loop [] i best_idx best_sum = best_idx
  best_loop (x ∷ rest) i best_idx best_sum =
      let s = dot_sum x.version in
      best_loop rest (i + 1) (if ltb best_sum s then i else best_idx)
        (if ltb best_sum s then s else best_sum)

  unfoldable pub resolve_latest_write_wins : List (Sibling T) → Option (Sibling T)
  unfolding best_loop
  resolve_latest_write_wins [] = none
  resolve_latest_write_wins (x ∷ xs) =
      get_elem? (x ∷ xs) (best_loop (x ∷ xs) 0 0 (dot_sum x.version))
