-- ===== src/Truetime/Intervals.antt =====
-- truetime/interval.go and truetime/clock.go: the predicates on the instants of an interval.
use chrono.Prelude.{◌≡◌, ◌↔◌, true, false, arith, ◌≢◌, inl, inr}
use chrono.Prelude.Int.{ℤ, ◌<ℤ◌, parts_of_eq, ℤ_trichotomy}
use chrono.Truetime.{Interval, contains, before, definitely, clock_after, clock_before}

-- If one interval is Before another, every instant that the first contains is earlier than every
-- instant that the second contains, and no instant lies in both.
pub before-contains :
    (i j : Interval) (t u : ℤ)
    → before i j ≡ true
    → contains i t ≡ true
    → contains j u ≡ true
    → (t <ℤ u) × (contains j t ≡ false)
unfolding before contains
before-contains i j t u h a b = ground arith

-- The clock's After is strict, and Definitely is not: they differ exactly at the earliest instant. If
-- After holds of `t`, every instant of the interval is past `t`; if Before holds, none has reached it.
pub after-definitely :
    (i : Interval) (t u : ℤ)
    → contains i u ≡ true
    → ((clock_after i t ≡ true) ↔ ((definitely i t ≡ true) × (t ≢ i.earliest)))
      × (clock_after i t ≡ true → t <ℤ u)
      × (clock_before i t ≡ true → u <ℤ t)
unfolding clock_after clock_before definitely contains
after-definitely i t u c = (
  (λ h. (ground arith, λ e. ground (arith, parts_of_eq t i.earliest)), λ h. after_of h.0 h.1),
  λ h. ground arith,
  λ h. ground arith,
)
  where
    after_of : definitely i t ≡ true → t ≢ i.earliest → clock_after i t ≡ true
    after_of d n = elim (ℤ_trichotomy t i.earliest) [
      | inl lt ↦ ground arith
      | inr (inl e) ↦ absurd (n e)
      | inr (inr gt) ↦ ground arith
    ]
