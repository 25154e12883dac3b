-- ===== src/TruetimeExternal/Examples.antt =====
-- Runs of the two scenarios.
use chrono.Prelude.{ℕ, ◌+◌, ◌<◌, ◌≡◌, Option, none, some, arith, ltb, if◌then◌else◌}
use chrono.Prelude.Int.{pos}
use chrono.TruetimeExternal.{
  without_commit_wait, initial, with_commit_wait_report, consistent, fail,
}
use chrono.TruetimeExternal.Timing.{scenario_reports}

-- A timeout that fires in the select after the fourth call of Now, or later.
abbrev timeout : ℕ → Option ℕ
timeout i = if ltb i 3 then none else some 9

scenario_reports_example :
    (without_commit_wait initial ≡ some (pos 7_000_000))
    × (((j : ℕ) → j < 5 → timeout j ≡ none)
        → with_commit_wait_report 5 timeout 5 ≡ consistent (pos 23_000_000))
    × ((n : ℕ) (x : ℕ)
        → n + 2 < 5
        → timeout (n + 2) ≡ some x
        → ((j : ℕ) → j < n + 2 → timeout j ≡ none)
        → with_commit_wait_report 5 timeout 5 ≡ fail x)
scenario_reports_example = scenario_reports 5 timeout (omega arith)
