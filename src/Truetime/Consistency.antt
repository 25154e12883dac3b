-- ===== src/Truetime/Consistency.antt =====
-- truetime/doc.go: what a clock promises, and the order of transactions that it is for.
use chrono.Prelude.{ℕ, ◌+◌, ◌≤◌, ◌<◌, ◌≡◌, true, Option, none, arith}
use chrono.Prelude.Int.{ℤ, pos, ◌+ℤ◌, ◌-ℤ◌, ◌≤ℤ◌, ◌<ℤ◌}
use chrono.Prelude.Words.{IsI64}
use chrono.Truetime.{Interval, contains}
use chrono.Truetime.CommitWait.{ok, with_commit_wait}
use chrono.Truetime.CommitWait.Safety.{commit_wait_result}
use chrono.Truetime.Ntp.{NtpSource, now}
use chrono.Truetime.Ntp.Accuracy.{max_elapsed, drift, now-contains}

-- The clock of one node: `interval i` is what the i-th call of Now returns, `instant i` the true time
-- of that call, which the interval contains. Calls of a node follow one another in true time.
pub record TrueTime : Type 0 where
  pub interval : ℕ → Interval
  pub instant : ℕ → ℤ
  pub forward : (j k : ℕ) → j ≤ k → instant j ≤ℤ instant k
  pub within : (j : ℕ) → contains (interval j) (instant j) ≡ true

contains_bounds : (i : Interval) (t : ℤ) → contains i t ≡ true → (i.earliest ≤ℤ t) × (t ≤ℤ i.latest)
unfolding contains
contains_bounds i t h = ground arith

-- External consistency. Suppose that a transaction at one node commits by a successful WithCommitWait
-- and another one, at the same node or any other, calls Now no earlier in true time than the last call
-- of the commit wait. Then the true time of that last call is past the commit timestamp of the first
-- transaction, the latest instant of the interval that it read after `fn`, and the latest instant that
-- the second one reads, its own commit timestamp, is greater.
pub external_consistency :
    {Error : Type 0} (s t : TrueTime) (done : ℕ → Option Error) (fuel i j k : ℕ)
    → (with_commit_wait s.interval done fuel none i).0 ≡ ok
    → (with_commit_wait s.interval done fuel none i).1 ≡ j + 1
    → s.instant j ≤ℤ t.instant k
    → (i < j)
      × ((s.interval i).latest <ℤ s.instant j)
      × ((s.interval i).latest <ℤ (t.interval k).latest)
unfolding with_commit_wait
external_consistency s t done fuel i j k committed last later =
    let (m, n, le, past) =
      (commit_wait_result s.interval done fuel (s.interval i).latest (i + 1)).0 committed in
    let same : j ≡ m = omega arith in
    let (low, high) = contains_bounds (s.interval m) (s.instant m) (s.within m) in
    let (low', high') = contains_bounds (t.interval k) (t.instant k) (t.within k) in
    let later' : s.instant m ≤ℤ t.instant k = rw same at later in
    rw same (omega arith, omega arith, omega arith)

-- A node whose clock is an NTPSource: for each call of Now the source's fields, the nanoseconds since
-- its last query, and the true times of that query and of the call. The fields say that the query was
-- as good as it recorded, and that the local clock has kept within 200 ppm since.
pub record NtpNode : Type 0 where
  pub source : ℕ → NtpSource
  pub elapsed : ℕ → ℕ
  pub queried : ℕ → ℤ
  pub called : ℕ → ℤ
  pub in_order : (j k : ℕ) → j ≤ k → called j ≤ℤ called k
  pub recent : (j : ℕ) → elapsed j ≤ max_elapsed
  pub not_late :
      (j : ℕ)
      → queried j ≤ℤ (source j).last_query +ℤ (source j).last_offset +ℤ (source j).last_dispersion
  pub not_early :
      (j : ℕ)
      → (source j).last_query +ℤ (source j).last_offset ≤ℤ queried j +ℤ (source j).last_dispersion
  pub not_fast : (j : ℕ) → called j ≤ℤ queried j +ℤ pos (elapsed j + drift (elapsed j))
  pub not_slow : (j : ℕ) → queried j +ℤ pos (elapsed j) ≤ℤ called j +ℤ pos (drift (elapsed j))
  pub fits : (j : ℕ) → IsI64 ((source j).last_dispersion +ℤ pos (drift (elapsed j)))
  pub negated_fits :
      (j : ℕ) → IsI64 (pos 0 -ℤ ((source j).last_dispersion +ℤ pos (drift (elapsed j))))

-- Such a node keeps the promise.
unfoldable pub ntp_true_time : NtpNode → TrueTime
ntp_true_time n = record {
  interval = λ j. now (n.source j) ((n.source j).last_query +ℤ pos (n.elapsed j));
  instant = n.called;
  forward = n.in_order;
  within = λ j.
      now-contains (n.source j) (n.elapsed j) (n.queried j) (n.called j) (n.recent j) (n.not_late j)
        (n.not_early j) (n.not_fast j) (n.not_slow j) (n.fits j) (n.negated_fits j);
}
