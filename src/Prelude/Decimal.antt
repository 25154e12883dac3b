-- ===== src/Prelude/Decimal.antt =====
-- Decimal numerals, as the verb %d of fmt writes a uint64.
use Prim.Native.Nat.{ℕ, zero, suc, ◌+◌, ◌-◌, ◌*◌, ◌/◌, ◌%◌, ◌^◌, ◌<◌, ◌≤◌}
use mathlib.Core.Path.{◌≡◌, refl, ap, ◌∙◌}
use mathlib.Core.Logic.{inl, inr}
use mathlib.Core.List.{[], ◌∷◌}
use native.Mathlib.Omega.{arith}
use chrono.Prelude.Tests.{ltb, if◌then◌else◌, Bool-cases}
use chrono.Prelude.Lists.{All}
use chrono.Prelude.Strings.{Str}

-- The digits of `n` before `after`; `fuel` bounds their number.
unfoldable pub digits : ℕ → ℕ → Str → Str
digits zero n after = after
digits (suc fuel) n after =
    let after' = (48 + n % 10) ∷ after in
    let more = digits fuel (n / 10) after' in if ltb n 10 then after' else more

-- A uint64 has at most 20 digits.
unfoldable pub decimal : ℕ → Str
unfolding digits
decimal n = digits 20 n []

-- The number that the digits continue from `n`.
unfoldable pub value : ℕ → Str → ℕ
value n [] = n
value n (c ∷ cs) = value (n * 10 + (c - 48)) cs

digits_value :
    (fuel n : ℕ) (after : Str) → n < 10 ^ fuel → value 0 (digits fuel n after) ≡ value n after
unfolding digits value
digits_value zero n after h = (let e : n ≡ 0 = omega arith in rw e refl)
digits_value (suc fuel) n after h = elim (Bool-cases (ltb n 10)) [
  | inl small ↦
      let e : 0 * 10 + ((48 + n % 10) - 48) ≡ n = ground arith in
      rw small (ap (λ m. value m after) e)
  | inr large ↦
      let e : n / 10 * 10 + ((48 + n % 10) - 48) ≡ n = omega arith in
      rw large (
        digits_value fuel (n / 10) ((48 + n % 10) ∷ after) (omega arith)
        ∙ ap (λ m. value m after) e)
]

-- The numeral of a uint64 has its value.
pub decimal_value : (n : ℕ) → n < 2 ^ 64 → value 0 (decimal n) ≡ n
unfolding decimal value
decimal_value n h = digits_value 20 n [] (omega arith)

-- The bytes of digits are from 48 on.
abbrev pub HasDigits : Str → Type 0
HasDigits = All (λ c. 48 ≤ c)

digits-HasDigits : (fuel n : ℕ) (after : Str) → HasDigits after → HasDigits (digits fuel n after)
unfolding digits
digits-HasDigits zero n after h = h
digits-HasDigits (suc fuel) n after h = elim (Bool-cases (ltb n 10)) [
  | inl small ↦ rw small (omega arith, h)
  | inr large ↦ rw large (digits-HasDigits fuel (n / 10) ((48 + n % 10) ∷ after) (omega arith, h))
]

pub decimal-HasDigits : (n : ℕ) → HasDigits (decimal n)
unfolding decimal
decimal-HasDigits n = digits-HasDigits 20 n [] tt
