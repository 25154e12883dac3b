-- ===== src/Truetime/Ntp/Accuracy.antt =====
-- truetime/ntp_source.go: the interval of NTPSource.Now and the true time.
use chrono.Prelude.{ℕ, ◌*◌, ◌/◌, ◌+◌, ◌-◌, ◌^◌, ◌≤◌, ◌<◌, ◌≡◌, true, arith}
use chrono.Prelude.Int.{ℤ, pos, ◌+ℤ◌, ◌-ℤ◌, ◌≤ℤ◌, int_laws}
use chrono.Prelude.Words.{IsI64, i64_self}
use chrono.Truetime.{sub_time, contains}
use chrono.Truetime.Ntp.{NtpSource, extra, per_million, now, drift_ppm, at_least_zero}

-- About one and a half years: the longest time without a query for which the product of the elapsed
-- nanoseconds with `drift_ppm` fits an int64.
abbrev pub max_elapsed : ℕ
max_elapsed = (2 ^ 63 - 1) / 200

inside :
    (mid un t : ℤ)
    → mid +ℤ (pos 0 -ℤ un) ≤ℤ t
    → t ≤ℤ mid +ℤ un
    → contains (record { earliest = mid +ℤ (pos 0 -ℤ un); latest = mid +ℤ un }) t ≡ true
unfolding contains
inside mid un t h k = ground arith

-- The drift allowed after `n` nanoseconds.
abbrev pub drift : ℕ → ℕ
drift n = n * drift_ppm / 1_000_000

sub_time-pos : (u : ℤ) (n : ℕ) → n < 2 ^ 63 → sub_time (u +ℤ pos n) u ≡ pos n
unfolding sub_time
sub_time-pos u n h = let e : u +ℤ pos n -ℤ u ≡ pos n = omega int_laws in rw e (ground arith)

at_least_zero-pos : (n : ℕ) → at_least_zero (pos n) ≡ pos n
unfolding at_least_zero
at_least_zero-pos n = ground arith

-- After `n` nanoseconds, within the range of the product, the extra uncertainty is the drift.
extra_lem : (last : ℤ) (n : ℕ) → n ≤ max_elapsed → extra (last +ℤ pos n) last ≡ pos (drift n)
unfolding extra per_million
extra_lem last n h =
    let fits : IsI64 (pos (n * 200)) = omega arith in
    rw (sub_time-pos last n (omega arith), at_least_zero-pos n) (rw (i64_self (pos (n * 200)) fits))

-- Now's interval contains the true time `true_now` under three conditions. At the last query the
-- true time `true_last` was within the recorded dispersion of the corrected local time. Since then
-- the local clock has run for `n` nanoseconds, in which the true time advanced by `n` up to the
-- 200 ppm that the code allows for. The uncertainty fits an int64, and so does its negation.
pub now-contains :
    (s : NtpSource) (n : ℕ) (true_last true_now : ℤ)
    → n ≤ max_elapsed
    → true_last ≤ℤ s.last_query +ℤ s.last_offset +ℤ s.last_dispersion
    → s.last_query +ℤ s.last_offset ≤ℤ true_last +ℤ s.last_dispersion
    → true_now ≤ℤ true_last +ℤ pos (n + drift n)
    → true_last +ℤ pos n ≤ℤ true_now +ℤ pos (drift n)
    → IsI64 (s.last_dispersion +ℤ pos (drift n))
    → IsI64 (pos 0 -ℤ (s.last_dispersion +ℤ pos (drift n)))
    → contains (now s (s.last_query +ℤ pos n)) true_now ≡ true
unfolding now
now-contains s n a b h lo hi up down fits fits' = rw (extra_lem s.last_query n h) (
    rw (i64_self (s.last_dispersion +ℤ pos (drift n)) fits, i64_self _ fits')
      (inside (s.last_query +ℤ pos n +ℤ s.last_offset) (s.last_dispersion +ℤ pos (drift n)) b
        (omega int_laws) (omega int_laws)))
