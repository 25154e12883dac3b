-- ===== src/Wallclock/Examples.antt =====
-- Runs of the fake clock, and its theorems at concrete inputs.
use chrono.Prelude.{◌≡◌, refl}
use chrono.Prelude.Int.{pos}
use chrono.Wallclock.{new_fake, fake_clock, real, set}

-- A Fake and the system clock read alike at the same instant.
readings : fake_clock (set (new_fake (pos 1)) (pos 5)) ≡ real (pos 5)
unfolding fake_clock set real new_fake
readings = refl
