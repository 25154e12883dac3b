-- ===== src/Truetime/Examples.antt =====
-- Runs of truetime, and its theorems at concrete inputs.
use chrono.Prelude.{ℕ, ◌<◌, ◌+◌, ◌*◌, ◌≡◌, ◌≢◌, ◌↔◌, refl, true, Option, none, some, arith}
use chrono.Prelude.Int.{pos, negsuc, ◌+ℤ◌, ◌-ℤ◌, ◌<ℤ◌, +ℤ_parts}
use chrono.Truetime.{
  Interval, new_fake_source, set, advance, fake_now, width, sub_time, contains, definitely,
  clock_after, clock_before,
}
use chrono.Truetime.Intervals.{after-definitely}
use chrono.Truetime.CommitWait.{
  ok, cancelled, failed, wait_time, wait_loop, commit_wait, with_commit_wait,
}
use chrono.Truetime.CommitWait.Safety.{SamplePast, DoneAt, commit_wait_result}
use chrono.Truetime.Consistency.{TrueTime, NtpNode, ntp_true_time, external_consistency}
use chrono.Truetime.CommitWait.Progress.{Runs, wait_time_bounds, commit_wait_ends}
use chrono.Truetime.Ntp.{NtpSource, query, net_error, now, half}
use chrono.Truetime.Ntp.Accuracy.{now-contains}

-- A fake source keeps the width of its interval when it moves.
moved :
    width
      (fake_now (advance (new_fake_source (record { earliest = pos 3; latest = pos 17 })) (pos 10)))
    ≡ pos 14
unfolding width fake_now advance new_fake_source sub_time ◌-ℤ◌ ◌+ℤ◌
moved = refl

set_source :
    fake_now (
      set
        (new_fake_source (record { earliest = pos 3; latest = pos 17 }))
        (record { earliest = pos 4; latest = pos 4 }))
    ≡ record { earliest = pos 4; latest = pos 4 }
unfolding fake_now set
set_source = refl

toward_zero : half (negsuc 2) ≡ negsuc 0
unfolding half
toward_zero = refl

abbrev measured : NtpSource
measured = record {
  query_interval = pos 1_000;
  last_offset = pos 40;
  last_dispersion = pos 10;
  last_query = pos 1000;
}

-- A query that fails leaves the last measurement in place.
failing : query measured (net_error tt) ≡ (measured, some tt)
unfolding query
failing = refl

-- Each call of Now finds the clock 200 ms further, with 1 ms of uncertainty on each side.
abbrev source : ℕ → Interval
source i = record { earliest = pos (200_000_000 * i); latest = pos (200_000_000 * i + 2_000_000) }

abbrev never_done : ℕ → Option ℕ
never_done i = none

source-Runs : Runs source never_done (pos 202_000_000) 1
source-Runs i from open_yet = omega (
  arith,
  wait_time_bounds (pos 202_000_000) (source i),
  +ℤ_parts (source i).earliest (wait_time (pos 202_000_000) (source i)),
)

after-definitely_example :
    ((clock_after (source 1) (pos 5) ≡ true)
      ↔ ((definitely (source 1) (pos 5) ≡ true) × (pos 5 ≢ (source 1).earliest)))
    × (clock_after (source 1) (pos 5) ≡ true → pos 5 <ℤ pos 201_000_000)
    × (clock_before (source 1) (pos 5) ≡ true → pos 201_000_000 <ℤ pos 5)
unfolding contains
after-definitely_example = after-definitely (source 1) (pos 5) (pos 201_000_000) refl

-- The loop waits 2 ms after its first call of Now.
commit_wait_ends_example : (commit_wait source never_done 22 (pos 202_000_000) 0).0 ≡ ok
commit_wait_ends_example =
    commit_wait_ends source never_done (pos 202_000_000) 0 21 source-Runs (λ j. refl)
      (omega (arith, +ℤ_parts (source 1).earliest (pos 2_100_000)))

commit_wait_result_example :
    ((commit_wait source never_done 3 (pos 2_000_000) 0).0 ≡ ok
      → SamplePast source never_done
          (pos 2_000_000)
          0
          (commit_wait source never_done 3 (pos 2_000_000) 0).1)
    × ((e : ℕ)
        → (commit_wait source never_done 3 (pos 2_000_000) 0).0 ≡ cancelled e
        → DoneAt source never_done
            (pos 2_000_000)
            0
            (commit_wait source never_done 3 (pos 2_000_000) 0).1
            e)
    × ((e : ℕ) → (commit_wait source never_done 3 (pos 2_000_000) 0).0 ≢ failed e)
commit_wait_result_example = commit_wait_result source never_done 3 (pos 2_000_000) 0

-- The commit of this source succeeds, on the second call of Now.
committed : with_commit_wait source never_done 3 none 0 ≡ (ok, 2)
unfolding with_commit_wait commit_wait wait_loop clock_after
committed = refl

-- The node of this source, whose calls come in the middle of the intervals.
source-contains : (j : ℕ) → contains (source j) (pos (200_000_000 * j + 1_000_000)) ≡ true
unfolding contains
source-contains j = ground arith

abbrev node : TrueTime
node = record {
  interval = source;
  instant = λ i. pos (200_000_000 * i + 1_000_000);
  forward = λ j k h. omega arith;
  within = source-contains;
}

-- Another node, with an NTPSource that was queried when its clock showed 199.999 ms. At each call 5000
-- ns have passed since then; its true time is 201 ms.
abbrev other : NtpNode
unfolding ◌+ℤ◌ ◌-ℤ◌
other = record {
  source = λ j. record {
    query_interval = pos 60_000_000_000;
    last_offset = pos 0;
    last_dispersion = pos 2_000_000;
    last_query = pos 199_999_000;
  };
  elapsed = λ j. 5000;
  queried = λ j. pos 200_995_000;
  called = λ j. pos 201_000_000;
  in_order = λ j k h. omega arith;
  recent = λ j. omega arith;
  not_late = λ j. omega arith;
  not_early = λ j. omega arith;
  not_fast = λ j. omega arith;
  not_slow = λ j. omega arith;
  fits = λ j. omega arith;
  negated_fits = λ j. omega arith;
}

external_consistency_example :
    (0 < 1)
    × ((node.interval 0).latest <ℤ node.instant 1)
    × ((node.interval 0).latest <ℤ ((ntp_true_time other).interval 0).latest)
unfolding with_commit_wait commit_wait wait_loop clock_after ntp_true_time other
external_consistency_example =
    external_consistency node (ntp_true_time other) never_done 3 0 1 0 refl refl (omega arith)

-- After 5000 ns, one of which the 200 ppm allow for.
now-contains_example : contains (now measured (pos 1000 +ℤ pos 5000)) (pos 6035) ≡ true
unfolding ◌+ℤ◌ ◌-ℤ◌
now-contains_example =
    now-contains measured 5000 (pos 1035) (pos 6035) (omega arith) (omega arith) (omega arith)
      (omega arith) (omega arith) (omega arith) (omega arith)
