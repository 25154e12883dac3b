-- ===== src/Wallclock/Laws.antt =====
-- Moving a Fake forward and back.
use chrono.Prelude.{◌^◌, ◌-◌, ◌≡◌, ◌≢◌, ap, arith}
use chrono.Prelude.Int.{ℤ, pos, negsuc, ◌+ℤ◌, ◌-ℤ◌, ◌<ℤ◌, int_laws, eq_of_parts}
use chrono.Prelude.Words.{IsI64, i64, i64_self}
use chrono.Wallclock.{Fake, advance, step, reverse}

-- The least int64, whose negation is itself.
abbrev pub min_i64 : ℤ
min_i64 = negsuc (2 ^ 63 - 1)

neg-IsI64 : (d : ℤ) → IsI64 d → d ≢ min_i64 → IsI64 (pos 0 -ℤ d)
unfolding ◌-ℤ◌
neg-IsI64 d h n = ground (arith, eq_of_parts d min_i64)

-- Reverse undoes Advance and Step for every duration but the least one.
pub reverse-advance :
    (f : Fake) (d : ℤ)
    → IsI64 d
    → d ≢ min_i64
    → (reverse (advance f d) d ≡ f) × (reverse (step f d) d ≡ f)
unfolding reverse advance step
reverse-advance f d h n =
    let back : f.now +ℤ d +ℤ i64 (pos 0 -ℤ d) ≡ f.now =
      rw (i64_self (pos 0 -ℤ d) (neg-IsI64 d h n)) (omega int_laws) in
    (ap (λ t. record { now = t }) back, ap (λ t. record { now = t }) back)

-- At the least duration Reverse moves the clock backward once more instead of forward.
pub reverse-min : (f : Fake) → (reverse f min_i64).now <ℤ f.now
unfolding reverse ◌+ℤ◌ ◌-ℤ◌ i64
reverse-min f = ground arith
