-- ===== src/Wallclock.antt =====
-- internal/wallclock: the clock that hlc reads, and the Fake that a test controls. A time.Time is
-- the integer number of nanoseconds since the Unix epoch; a time.Duration is an int64 of them.
pub mod Laws
mod Examples
use chrono.Prelude.Int.{ℤ, pos, ◌+ℤ◌, ◌-ℤ◌}
use chrono.Prelude.Words.{i64}

-- `Clock`: an implementation gives both readings.
pub record Clock : Type 0 where
  pub now : ℤ
  pub now_nanos : ℤ

-- `UnixNano`: nanoseconds as an int64.
unfoldable pub unix_nano : ℤ → ℤ
unix_nano t = i64 t

-- `Real`, at an instant `t` of the system clock.
unfoldable pub real : ℤ → Clock
unfolding unix_nano
real t = record { now = t; now_nanos = unix_nano t }

pub record Fake : Type 0 where
  pub now : ℤ

unfoldable pub new_fake : ℤ → Fake
new_fake initial = record { now = initial }

-- `Now` and `NowNanos` of a Fake.
unfoldable pub fake_clock : Fake → Clock
unfolding unix_nano
fake_clock f = record { now = f.now; now_nanos = unix_nano f.now }

unfoldable pub set : Fake → ℤ → Fake
set f t = record f { now = t }

unfoldable pub advance : Fake → ℤ → Fake
advance f d = record f { now = f.now +ℤ d }

unfoldable pub step : Fake → ℤ → Fake
step f d = record f { now = f.now +ℤ d }

-- `-d` is an int64 too: it wraps at the least one.
unfoldable pub reverse : Fake → ℤ → Fake
reverse f d = record f { now = f.now +ℤ i64 (pos 0 -ℤ d) }
