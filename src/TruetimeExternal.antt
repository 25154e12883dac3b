-- ===== src/TruetimeExternal.antt =====
-- examples/truetime_external/main.go: two scenarios on a FakeSource, without and with a commit wait.
-- What the program prints is the result; the durations of real time that it also prints are left out.
pub mod Timing
mod Examples
use chrono.Prelude.{ℕ, ◌+◌, ◌*◌, Bool, Option, none, some, ltb, if◌then◌else◌}
use chrono.Prelude.Int.{ℤ, pos, ltb_ℤ}
use chrono.Truetime.{Interval, new_fake_source, set, fake_now, sub_time}
use chrono.Truetime.CommitWait.{Outcome, ok, cancelled, failed, waiting, commit_wait}

-- time.Unix(1_700_000_000, 0), and instants that are some milliseconds later.
abbrev pub after_base : ℕ → ℤ
after_base ms = pos (1_700_000_000_000_000_000 + ms * 1_000_000)

abbrev pub initial : Interval
initial = record { earliest = after_base 0; latest = after_base 7 }

-- What the goroutine of the second scenario sets.
abbrev pub later : Interval
later = record { earliest = after_base 30; latest = after_base 37 }

-- The first scenario: by how much T2 is earlier than T1, if it is.
unfoldable pub without_commit_wait : Interval → Option ℤ
unfolding sub_time new_fake_source fake_now
without_commit_wait interval =
    let src = new_fake_source interval in
    let t1 = (fake_now src).latest in
    let t2 = (fake_now src).earliest in if ltb_ℤ t2 t1 then some (sub_time t1 t2) else none

-- What the i-th call of Now returns, where the goroutine calls Set between the calls `k - 1` and `k`.
unfoldable pub source : ℕ → ℕ → Interval
unfolding new_fake_source set fake_now
source k i =
    let src = new_fake_source initial in if ltb i k then fake_now src else fake_now (set src later)

-- The end of the second scenario: the error of CommitWait, by how much T2 is later than T1, no line
-- if it is not, and no end yet.
pub data Report (Error : Type 0) : Type 0 where
  fail : Error → Report Error
  consistent : ℤ → Report Error
  silent : Report Error
  unfinished : Report Error

-- After CommitWait returned, where the next call of Now is the one in `interval`.
unfoldable pub report : {Error : Type 0} → Outcome Error → ℤ → Interval → Report Error
unfolding sub_time
report ok t1 interval =
    let t2 = interval.earliest in if ltb_ℤ t1 t2 then consistent (sub_time t2 t1) else silent
report (cancelled e) t1 interval = fail e
report (failed e) t1 interval = fail e
report waiting t1 interval = unfinished

unfoldable pub with_commit_wait_report :
    {Error : Type 0} → ℕ → (ℕ → Option Error) → ℕ → Report Error
unfolding report source
with_commit_wait_report k done fuel =
    let t1 = (source k 0).latest in
    let (r, n) = commit_wait (source k) done fuel t1 1 in report r t1 (source k n)
