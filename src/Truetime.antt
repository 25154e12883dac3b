-- ===== src/Truetime.antt =====
-- truetime/interval.go and truetime/clock.go: intervals that contain the global time. A time.Time is
-- the integer number of nanoseconds since the Unix epoch, a time.Duration an int64 of them.
pub mod Intervals
pub mod CommitWait
pub mod Ntp
pub mod Consistency
mod Examples
use chrono.Prelude.{ℕ, ◌^◌, ◌-◌, Bool, ◌&&◌, not, if◌then◌else◌}
use chrono.Prelude.Int.{ℤ, pos, negsuc, ◌+ℤ◌, ◌-ℤ◌, ltb_ℤ}

pub record Interval : Type 0 where
  pub earliest : ℤ
  pub latest : ℤ

-- `t.Sub(u)` of package time: the difference, held to the range of an int64.
unfoldable pub sub_time : ℤ → ℤ → ℤ
sub_time t u =
    let d = t -ℤ u in
    if ltb_ℤ (pos (2 ^ 63 - 1)) d
    then pos (2 ^ 63 - 1)
    else if ltb_ℤ d (negsuc (2 ^ 63 - 1))
    then negsuc (2 ^ 63 - 1)
    else d

unfoldable pub width : Interval → ℤ
unfolding sub_time
width i = sub_time i.latest i.earliest

unfoldable pub contains : Interval → ℤ → Bool
contains i t = not (ltb_ℤ t i.earliest) && not (ltb_ℤ i.latest t)

unfoldable pub before : Interval → Interval → Bool
before i other = ltb_ℤ i.latest other.earliest

unfoldable pub definitely : Interval → ℤ → Bool
definitely i t = not (ltb_ℤ i.earliest t)

-- `Clock.After` and `Clock.Before`, on the interval that the source returns to them.
unfoldable pub clock_after : Interval → ℤ → Bool
clock_after sample t = ltb_ℤ t sample.earliest

unfoldable pub clock_before : Interval → ℤ → Bool
clock_before sample t = ltb_ℤ sample.latest t

pub record FakeSource : Type 0 where
  pub interval : Interval

unfoldable pub new_fake_source : Interval → FakeSource
new_fake_source initial = record { interval = initial }

unfoldable pub set : FakeSource → Interval → FakeSource
set f interval = record f { interval = interval }

unfoldable pub advance : FakeSource → ℤ → FakeSource
advance f d = record {
  interval = record { earliest = f.interval.earliest +ℤ d; latest = f.interval.latest +ℤ d };
}

unfoldable pub fake_now : FakeSource → Interval
fake_now f = f.interval
