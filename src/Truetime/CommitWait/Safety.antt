-- ===== src/Truetime/CommitWait/Safety.antt =====
-- truetime/commit_wait.go: the results of CommitWait and WithCommitWait.
use chrono.Prelude.{
  ℕ, zero, suc, ◌+◌, ◌≤◌, ◌≡◌, ◌≢◌, refl, subst, true, false, Option, some, arith, Bool-cases,
  Option-cases, inl, inr,
}
use chrono.Prelude.Int.{ℤ, ◌≤ℤ◌, ◌<ℤ◌}
use chrono.Truetime.{Interval, clock_after}
use chrono.Truetime.CommitWait.{Outcome, ok, cancelled, waiting, failed, wait_loop, commit_wait}

module _ {Error : Type 0} (source : ℕ → Interval) (done : ℕ → Option Error) where
  -- The last call of Now in front of the `n`-th one, itself the i-th or a later one, returned an
  -- interval past `t`.
  abbrev pub SamplePast : ℤ → ℕ → ℕ → Type 0
  SamplePast t i n = (j : ℕ) × (n ≡ j + 1) × (i ≤ j) × (t <ℤ (source j).earliest)

  -- The select after that call found the context done, and the interval was not past `t`.
  abbrev pub DoneAt : ℤ → ℕ → ℕ → Error → Type 0
  DoneAt t i n e = (j : ℕ) × (n ≡ j + 1) × (i ≤ j) × (done j ≡ some e) × ((source j).earliest ≤ℤ t)

  after-lt : (i : ℕ) (t : ℤ) → clock_after (source i) t ≡ true → t <ℤ (source i).earliest
  unfolding clock_after
  after-lt i t e = ground arith

  after-le : (i : ℕ) (t : ℤ) → clock_after (source i) t ≡ false → (source i).earliest ≤ℤ t
  unfolding clock_after
  after-le i t e = ground arith

  Ends : ℤ → ℕ → Outcome Error → ℕ → Type 0
  Ends t i ok n = SamplePast t i n
  Ends t i (cancelled e) n = DoneAt t i n e
  Ends t i (failed e) n = ⊥
  Ends t i waiting n = Unit

  Ends-later : (t : ℤ) (i : ℕ) (r : Outcome Error) (n : ℕ) → Ends t (i + 1) r n → Ends t i r n
  unfolding Ends
  Ends-later t i ok n (j, e, le, past) = (j, e, omega arith, past)
  Ends-later t i (cancelled x) n (j, e, le, d, past) = (j, e, omega arith, d, past)
  Ends-later t i (failed x) n h = h
  Ends-later t i waiting n h = h

  abbrev Ended : ℤ → ℕ → Outcome Error × ℕ → Type 0
  Ended t i (r, n) = Ends t i r n

  wait_loop-Ended : (fuel : ℕ) (t : ℤ) (i : ℕ) → Ended t i (wait_loop source done fuel t i)
  unfolding wait_loop Ends
  wait_loop-Ended zero t i = tt
  wait_loop-Ended (suc fuel) t i = elim (Bool-cases (clock_after (source i) t)) [
    | inl e ↦ rw e (i, refl, omega arith, after-lt i t e)
    | inr e ↦ elim (Option-cases (done i)) [
      | inl n ↦ rw (e, n) (Ends-later t i _ _ (wait_loop-Ended fuel t (i + 1)))
      | inr (x, d) ↦ rw (e, d) (i, refl, omega arith, d, after-le i t e)
    ]
  ]

  commit_wait-Ended : (fuel : ℕ) (t : ℤ) (i : ℕ) → Ended t i (commit_wait source done fuel t i)
  unfolding commit_wait Ends
  commit_wait-Ended fuel t i = elim (Bool-cases (clock_after (source i) t)) [
    | inl e ↦ rw e (i, refl, omega arith, after-lt i t e)
    | inr e ↦ rw e (Ends-later t i _ _ (wait_loop-Ended fuel t (i + 1)))
  ]

-- CommitWait returns nil only if the last call of Now that it made returned an interval past the
-- commit time, and the error of the context only if the context was done after that call, whose
-- interval was not past it. It returns no other error.
pub commit_wait_result :
    {Error : Type 0} (source : ℕ → Interval) (done : ℕ → Option Error) (fuel : ℕ) (t : ℤ) (i : ℕ)
    → ((commit_wait source done fuel t i).0 ≡ ok
        → SamplePast source done t i (commit_wait source done fuel t i).1)
      × ((e : Error)
          → (commit_wait source done fuel t i).0 ≡ cancelled e
          → DoneAt source done t i (commit_wait source done fuel t i).1 e)
      × ((e : Error) → (commit_wait source done fuel t i).0 ≢ failed e)
unfolding Ends
commit_wait_result source done fuel t i =
    let n = (commit_wait source done fuel t i).1 in
    let ends = commit_wait-Ended source done fuel t i in
    (
      λ r. subst (λ o. Ends source done t i o n) r ends,
      λ e r. subst (λ o. Ends source done t i o n) r ends,
      λ e r. subst (λ o. Ends source done t i o n) r ends,
    )
