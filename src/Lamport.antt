-- ===== src/Lamport.antt =====
-- lamport/clock.go: the Lamport clock. The mutex makes each method one step on the counter; a
-- method returns the new clock and its result. A uint64 is a number below 2 ^ 64 that wraps.
pub mod Bounds
pub mod Causality
mod Examples
use chrono.Prelude.{ℕ, ◌+◌, max}
use chrono.Prelude.Words.{u64}

pub record Clock : Type 0 where
  pub counter : ℕ

unfoldable pub new : Clock
new = record { counter = 0 }

unfoldable pub new_at : ℕ → Clock
new_at start = record { counter = start }

unfoldable pub tick : Clock → Clock × ℕ
tick c = let n = u64 (c.counter + 1) in (record { counter = n }, n)

unfoldable pub send : Clock → Clock × ℕ
send c = let n = u64 (c.counter + 1) in (record { counter = n }, n)

unfoldable pub receive : Clock → ℕ → Clock × ℕ
receive c remote = let n = u64 (max c.counter remote + 1) in (record { counter = n }, n)

unfoldable pub now : Clock → ℕ
now c = c.counter

unfoldable pub reset : Clock → ℕ → Clock
reset c to = record c { counter = to }
