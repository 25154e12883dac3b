-- ===== src/Truetime/CommitWait.antt =====
-- truetime/commit_wait.go. The source and the context are the environment: `source i` is the interval
-- that the i-th call of Now returns, and `done i` is the error of the context if the select after
-- that call takes the branch of ctx.Done(); otherwise the timer fires. The number of the next call of
-- Now is the state: each function takes it and returns the new one.
pub mod Safety
pub mod Progress
use chrono.Prelude.{ℕ, zero, suc, ◌+◌, Bool, true, false, Option, none, some, if◌then◌else◌}
use chrono.Prelude.Int.{ℤ, pos, ltb_ℤ}
use chrono.Truetime.{Interval, clock_after, sub_time}

-- `nil`, the error of the context, the error of `fn`, and no result yet: the fuel ran out.
pub data Outcome (Error : Type 0) : Type 0 where
  ok : Outcome Error
  cancelled : Error → Outcome Error
  failed : Error → Outcome Error
  waiting : Outcome Error

-- The duration of the timer: the gap, at most 100 ms and at least 100 µs.
unfoldable pub wait_time : ℤ → Interval → ℤ
unfolding sub_time
wait_time commit_at interval =
    let wait = sub_time commit_at interval.earliest in
    let wait = (if ltb_ℤ (pos 100_000_000) wait then pos 100_000_000 else wait) in
    if ltb_ℤ wait (pos 100_000) then pos 100_000 else wait

module _ {Error : Type 0} (source : ℕ → Interval) (done : ℕ → Option Error) where
  -- The `for` loop.
  unfoldable pub wait_loop : ℕ → ℤ → ℕ → Outcome Error × ℕ
  unfolding clock_after
  wait_loop zero commit_at i = (waiting, i)
  wait_loop (suc fuel) commit_at i =
      let rest = wait_loop fuel commit_at (i + 1) in
      if clock_after (source i) commit_at
      then (ok, i + 1)
      else elim (done i) [ some e ↦ (cancelled e, i + 1) | none ↦ rest ]

  unfoldable pub commit_wait : ℕ → ℤ → ℕ → Outcome Error × ℕ
  unfolding clock_after
  commit_wait fuel commit_at i =
      if clock_after (source i) commit_at then (ok, i + 1) else wait_loop fuel commit_at (i + 1)

  -- `fn` enters as its result.
  unfoldable pub with_commit_wait : ℕ → Option Error → ℕ → Outcome Error × ℕ
  with_commit_wait fuel (some e) i = (failed e, i)
  with_commit_wait fuel none i = commit_wait fuel (source i).latest (i + 1)
