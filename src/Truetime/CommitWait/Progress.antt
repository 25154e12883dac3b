-- ===== src/Truetime/CommitWait/Progress.antt =====
-- truetime/commit_wait.go: the rounds of the loop.
use chrono.Prelude.{
  ℕ, zero, suc, ◌+◌, ◌*◌, ◌≤◌, ◌≡◌, true, false, Option, none, arith, Bool-cases, inl, inr,
}
use chrono.Prelude.Int.{ℤ, pos, ◌+ℤ◌, ◌≤ℤ◌, ◌<ℤ◌, +ℤ_parts}
use chrono.Truetime.{Interval, clock_after}
use chrono.Truetime.CommitWait.{ok, wait_time, wait_loop, commit_wait}

-- The timer never waits less than 100 µs nor more than 100 ms.
pub wait_time_bounds :
    (t : ℤ) (interval : Interval)
    → (pos 100_000 ≤ℤ wait_time t interval) × (wait_time t interval ≤ℤ pos 100_000_000)
unfolding wait_time
wait_time_bounds t interval = ground arith

module _ {Error : Type 0} (source : ℕ → Interval) (done : ℕ → Option Error) (t : ℤ)
    (first : ℕ) where
  -- Where a timer runs between two calls of Now, which is where an interval of the loop is not past the
  -- commit time, the earliest instant of the source moves on by at least its duration. The loop's first
  -- call of Now is the one with the number `first`.
  abbrev pub Runs : Type 0
  Runs =
      (i : ℕ)
      → first ≤ i
      → clock_after (source i) t ≡ false
      → (source i).earliest +ℤ wait_time t (source i) ≤ℤ (source (i + 1)).earliest

  module _ (runs : Runs) (free : (i : ℕ) → done i ≡ none) where
    after-true : (i : ℕ) → t <ℤ (source i).earliest → clock_after (source i) t ≡ true
    unfolding clock_after
    after-true i h = ground arith

    after-false : (i : ℕ) → clock_after (source i) t ≡ false → (source i).earliest ≤ℤ t
    unfolding clock_after
    after-false i h = ground arith

    next_gap :
        (i n : ℕ)
        → first ≤ i
        → clock_after (source i) t ≡ false
        → t <ℤ (source i).earliest +ℤ pos (100_000 * suc n)
        → t <ℤ (source (i + 1)).earliest +ℤ pos (100_000 * n)
    next_gap i n from open_yet gap = omega (
      arith,
      +ℤ_parts (source i).earliest (pos (100_000 * suc n)),
      +ℤ_parts (source (i + 1)).earliest (pos (100_000 * n)),
      +ℤ_parts (source i).earliest (wait_time t (source i)),
      runs i from open_yet,
      wait_time_bounds t (source i),
    )

    wait_loop_ends :
        (n i : ℕ)
        → first ≤ i
        → t <ℤ (source i).earliest +ℤ pos (100_000 * n)
        → (wait_loop source done (suc n) t i).0 ≡ ok
    unfolding wait_loop
    wait_loop_ends zero i from gap =
        rw (after-true i (omega (arith, +ℤ_parts (source i).earliest (pos (100_000 * zero)))))
    wait_loop_ends (suc n) i from gap = elim (Bool-cases (clock_after (source i) t)) [
      | inl e ↦ rw e
      | inr e ↦ rw (e, free i) (wait_loop_ends n (i + 1) (omega arith) (next_gap i n from e gap))
    ]

-- If during each timer that CommitWait starts the source's earliest instant moves on by at least the
-- timer's duration, and the context is never done, CommitWait returns nil: with a gap of less than `n` times 100 µs between
-- the first interval of its loop and the commit time, within `n + 1` rounds.
pub commit_wait_ends :
    {Error : Type 0} (source : ℕ → Interval) (done : ℕ → Option Error) (t : ℤ) (i n : ℕ)
    → Runs source done t (i + 1)
    → ((j : ℕ) → done j ≡ none)
    → t <ℤ (source (i + 1)).earliest +ℤ pos (100_000 * n)
    → (commit_wait source done (suc n) t i).0 ≡ ok
unfolding commit_wait
commit_wait_ends source done t i n runs free gap = elim (Bool-cases (clock_after (source i) t)) [
  | inl e ↦ rw e
  | inr e ↦ rw (e, wait_loop_ends source done t (i + 1) runs free n (i + 1) (omega arith) gap)
]
