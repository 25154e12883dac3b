-- ===== src/Prelude/Words.antt =====
-- Machine words: unsigned ones as numbers that wrap by `%`, int64 as an integer that wraps through
-- its bit pattern, and the big-endian byte forms of encoding/binary.
use Prim.Native.Nat.{ℕ, ◌-◌, ◌%◌, ◌^◌, ◌≤◌, ◌<◌}
use mathlib.Core.Path.{◌≡◌}
use native.Mathlib.Omega.{arith}
use chrono.Prelude.Tests.{ltb, if◌then◌else◌}
use chrono.Prelude.Int.{ℤ, pos, negsuc, pos_part, neg_part, ◌<ℤ◌, ◌≤ℤ◌}

abbrev pub IsU64 : ℕ → Type 0
IsU64 n = n < 2 ^ 64

abbrev pub IsU32 : ℕ → Type 0
IsU32 n = n < 2 ^ 32

abbrev pub IsByte : ℕ → Type 0
IsByte b = b < 256

-- uint64 and uint32 results.
abbrev pub u64 : ℕ → ℕ
u64 n = n % 2 ^ 64

abbrev pub u32 : ℕ → ℕ
u32 n = n % 2 ^ 32

pub record IsI64 (z : ℤ) : Type 0 where
  pub above : neg_part z ≤ 2 ^ 63
  pub below : pos_part z < 2 ^ 63

-- uint64(z): the two's complement pattern of an integer.
unfoldable pub to_u64 : ℤ → ℕ
to_u64 (pos n) = n % 2 ^ 64
to_u64 (negsuc n) = 2 ^ 64 - 1 - n % 2 ^ 64

-- int64(w) of a pattern below 2 ^ 64.
unfoldable pub from_u64 : ℕ → ℤ
from_u64 w = if ltb w (2 ^ 63) then pos w else negsuc (2 ^ 64 - w - 1)

-- The int64 that an exact result wraps to.
unfoldable pub i64 : ℤ → ℤ
unfolding to_u64 from_u64
i64 z = from_u64 (to_u64 z)

pub to_u64-IsU64 : (z : ℤ) → IsU64 (to_u64 z)
unfolding to_u64
to_u64-IsU64 (pos n) = omega arith
to_u64-IsU64 (negsuc n) = omega arith

pub from_u64-to_u64 : (z : ℤ) → IsI64 z → from_u64 (to_u64 z) ≡ z
unfolding to_u64 from_u64
from_u64-to_u64 (pos n) h = ground arith
from_u64-to_u64 (negsuc n) h = ground arith

pub to_u64-from_u64 : (w : ℕ) → IsU64 w → to_u64 (from_u64 w) ≡ w
unfolding to_u64 from_u64
to_u64-from_u64 w h = ground arith

pub from_u64-IsI64 : (w : ℕ) → IsU64 w → IsI64 (from_u64 w)
unfolding from_u64
from_u64-IsI64 w h = ground arith

pub i64_self : (z : ℤ) → IsI64 z → i64 z ≡ z
unfolding i64
i64_self z h = from_u64-to_u64 z h

pub i64-IsI64 : (z : ℤ) → IsI64 (i64 z)
unfolding i64
i64-IsI64 z = from_u64-IsI64 (to_u64 z) (to_u64-IsU64 z)

-- A sum that is too large for an int64 wraps to a negative number.
pub i64_overflow : (z : ℤ) → pos (2 ^ 63) ≤ℤ z → z <ℤ pos (2 ^ 64) → i64 z <ℤ pos 0
unfolding i64
i64_overflow (pos n) h k = ground arith
i64_overflow (negsuc n) h k = absurd (omega arith)
