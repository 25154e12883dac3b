-- ===== src/TruetimeExternal/Timing.antt =====
-- examples/truetime_external/main.go: the second scenario, whenever its goroutine runs.
use chrono.Prelude.{
  ℕ, zero, suc, ◌+◌, ◌-◌, ◌<◌, ◌≤◌, ◌≡◌, refl, true, false, Option, none, some, ltb, ltb→lt, lt→ltb,
  arith, Bool-cases, inl, inr,
}
use chrono.Prelude.Int.{pos, ◌-ℤ◌}
use chrono.Truetime.{clock_after}
use chrono.Truetime.CommitWait.{ok, cancelled, wait_loop, commit_wait}
use chrono.TruetimeExternal.{
  after_base, initial, later, without_commit_wait, source, consistent, fail, report,
  with_commit_wait_report,
}

source-initial : (k i : ℕ) → i < k → source k i ≡ initial
unfolding source
source-initial k i h = rw (lt→ltb i k h) refl

source-later : (k i : ℕ) → k ≤ i → source k i ≡ later
unfolding source
source-later k i h = let e : ltb i k ≡ false = ground arith in rw e refl

module _ {Error : Type 0} (k : ℕ) (done : ℕ → Option Error) where
  past : (i : ℕ) → k ≤ i → clock_after (source k i) (after_base 7) ≡ true
  unfolding clock_after
  past i h = rw (source-later k i h) refl

  not_past : (i : ℕ) → i < k → clock_after (source k i) (after_base 7) ≡ false
  unfolding clock_after
  not_past i h = rw (source-initial k i h) refl

  -- The loop ends with the first call of Now after Set.
  wait_loop_set :
      (fuel n i : ℕ)
      → n < fuel
      → i + n ≡ k
      → ((j : ℕ) → j < k → done j ≡ none)
      → wait_loop (source k) done fuel (after_base 7) i ≡ (ok, k + 1)
  unfolding wait_loop
  wait_loop_set zero n i h e free = absurd (omega arith)
  wait_loop_set (suc fuel) zero i h e free =
      let same : i ≡ k = omega arith in rw (past i (omega arith), same) refl
  wait_loop_set (suc fuel) (suc n) i h e free =
      rw (not_past i (omega arith), free i (omega arith))
        (wait_loop_set fuel n (i + 1) (omega arith) (omega arith) free)

  -- A context that is done before that ends it.
  wait_loop_done :
      (fuel n i : ℕ) (x : Error)
      → n < fuel
      → i + n < k
      → done (i + n) ≡ some x
      → ((j : ℕ) → j < i + n → done j ≡ none)
      → wait_loop (source k) done fuel (after_base 7) i ≡ (cancelled x, i + n + 1)
  unfolding wait_loop
  wait_loop_done zero n i x h lt d free = absurd (omega arith)
  wait_loop_done (suc fuel) zero i x h lt d free =
      let same : i + 0 ≡ i = omega arith in
      let d' : done i ≡ some x = rw same at d in rw (not_past i (omega arith), d', same) refl
  wait_loop_done (suc fuel) (suc n) i x h lt d free =
      let same : i + suc n ≡ i + 1 + n = omega arith in
      rw (not_past i (omega arith), free i (omega arith), same)
        (wait_loop_done fuel n (i + 1) x (omega arith) (omega arith) (rw same at d)
          (λ j below. free j (omega arith)))

  commit_wait_set :
      0 < k
      → ((j : ℕ) → j < k → done j ≡ none)
      → commit_wait (source k) done k (after_base 7) 1 ≡ (ok, k + 1)
  unfolding commit_wait
  commit_wait_set some_call free = elim (Bool-cases (ltb 1 k)) [
    | inl more ↦ rw (not_past 1 (ltb→lt 1 k more)) (
        wait_loop_set k (k - 2) 2 (omega (arith, ltb→lt 1 k more)) (omega (arith, ltb→lt 1 k more))
          free)
    | inr last ↦ let one : k ≡ 1 = ground arith in rw (past 1 (omega arith), one) refl
  ]

  commit_wait_done :
      (n : ℕ) (x : Error)
      → n + 2 < k
      → done (n + 2) ≡ some x
      → ((j : ℕ) → j < n + 2 → done j ≡ none)
      → commit_wait (source k) done k (after_base 7) 1 ≡ (cancelled x, n + 3)
  unfolding commit_wait
  commit_wait_done n x lt d free =
      let same : 2 + n ≡ n + 2 = omega arith in
      let last : 2 + n + 1 ≡ n + 3 = omega arith in
      rw (not_past 1 (omega arith), ← last)
        (wait_loop_done k n 2 x (omega arith) (omega arith) (rw same d)
          (λ j h. free j (omega arith)))

-- The program shows what it says it shows. Without a commit wait T2 is 7 ms earlier than T1. With
-- one, however many calls of Now the goroutine lets pass before it sets the source, at least the one
-- that T1 reads, T2 is 23 ms later than T1, as long as the context is not done before; and if it is,
-- CommitWait's error is reported.
pub scenario_reports :
    {Error : Type 0} (k : ℕ) (done : ℕ → Option Error)
    → 0 < k
    → (without_commit_wait initial ≡ some (pos 7_000_000))
      × (((j : ℕ) → j < k → done j ≡ none)
          → with_commit_wait_report k done k ≡ consistent (pos 23_000_000))
      × ((n : ℕ) (x : Error)
          → n + 2 < k
          → done (n + 2) ≡ some x
          → ((j : ℕ) → j < n + 2 → done j ≡ none)
          → with_commit_wait_report k done k ≡ fail x)
unfolding with_commit_wait_report without_commit_wait report ◌-ℤ◌
scenario_reports k done some_call =
    let first = source-initial k 0 some_call in
    (
      refl,
      λ free.
          rw (first, commit_wait_set k done some_call free, source-later k (k + 1) (omega arith))
            refl,
      λ n x lt d free. rw (first, commit_wait_done k done n x lt d free) refl,
    )
