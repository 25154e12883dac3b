-- ===== src/Prelude/Bytes.antt =====
-- The big-endian byte forms of encoding/binary.
use Prim.Native.Nat.{ℕ, zero, suc, ◌+◌, ◌*◌, ◌/◌, ◌%◌, ◌^◌, ◌<◌}
use mathlib.Core.Path.{◌≡◌, refl}
use mathlib.Core.List.{List, [], ◌∷◌}
use native.Mathlib.Omega.{arith}
use chrono.Prelude.Lists.{All, length}
use chrono.Prelude.Words.{IsByte}

-- The `n` low bytes of `w`, the most significant first: PutUint16, PutUint32 and PutUint64 at
-- 2, 4 and 8.
unfoldable pub be_bytes : ℕ → ℕ → List ℕ
be_bytes zero w = []
be_bytes (suc n) w = (w / 256 ^ n % 256) ∷ be_bytes n w

-- Uint16, Uint32 and Uint64 of a slice of 2, 4 and 8 bytes.
unfoldable pub be_value : List ℕ → ℕ
be_value [] = 0
be_value (b ∷ bs) = b * 256 ^ length bs + be_value bs

pub length-be_bytes : (n w : ℕ) → length (be_bytes n w) ≡ n
unfolding be_bytes
length-be_bytes zero w = refl
length-be_bytes (suc n) w = omega (arith, length-be_bytes n w)

pub be_bytes-IsByte : (n w : ℕ) → All IsByte (be_bytes n w)
unfolding be_bytes
be_bytes-IsByte zero w = tt
be_bytes-IsByte (suc n) w = (omega arith, be_bytes-IsByte n w)

pub be_value-be_bytes_two : (w : ℕ) → w < 2 ^ 16 → be_value (be_bytes 2 w) ≡ w
unfolding be_bytes be_value
be_value-be_bytes_two w h = omega arith

pub be_value-be_bytes_four : (w : ℕ) → w < 2 ^ 32 → be_value (be_bytes 4 w) ≡ w
unfolding be_bytes be_value
be_value-be_bytes_four w h = omega arith

pub be_value-be_bytes_eight : (w : ℕ) → w < 2 ^ 64 → be_value (be_bytes 8 w) ≡ w
unfolding be_bytes be_value
be_value-be_bytes_eight w h = omega arith

module _ (a b c d : ℕ) (byte : All IsByte (a ∷ b ∷ c ∷ d ∷ [])) where
  four_lem : be_bytes 4 (be_value (a ∷ b ∷ c ∷ d ∷ [])) ≡ a ∷ b ∷ c ∷ d ∷ []
  unfolding be_bytes be_value
  four_lem = ground arith

pub be_bytes-be_value_four :
    (bs : List ℕ) → All IsByte bs → length bs ≡ 4 → be_bytes 4 (be_value bs) ≡ bs
be_bytes-be_value_four (a ∷ b ∷ c ∷ d ∷ []) h e = four_lem a b c d h
be_bytes-be_value_four (a ∷ b ∷ c ∷ d ∷ x ∷ bs) h e = absurd (omega arith)
be_bytes-be_value_four _ h e = absurd (omega arith)

pub be_value_lt_four : (bs : List ℕ) → All IsByte bs → length bs ≡ 4 → be_value bs < 2 ^ 32
unfolding be_value
be_value_lt_four (a ∷ b ∷ c ∷ d ∷ []) h e = omega arith
be_value_lt_four (a ∷ b ∷ c ∷ d ∷ x ∷ bs) h e = absurd (omega arith)
be_value_lt_four _ h e = absurd (omega arith)

module _ (a b c d e f g h : ℕ) (byte : All IsByte (a ∷ b ∷ c ∷ d ∷ e ∷ f ∷ g ∷ h ∷ [])) where
  abbrev eight : List ℕ
  eight = a ∷ b ∷ c ∷ d ∷ e ∷ f ∷ g ∷ h ∷ []

  eight_lem : be_bytes 8 (be_value eight) ≡ eight
  unfolding be_bytes be_value
  eight_lem = ground arith

  eight_lt : be_value eight < 2 ^ 64
  unfolding be_value
  eight_lt = omega arith

pub be_bytes-be_value_eight :
    (bs : List ℕ) → All IsByte bs → length bs ≡ 8 → be_bytes 8 (be_value bs) ≡ bs
be_bytes-be_value_eight (a ∷ b ∷ c ∷ d ∷ e ∷ f ∷ g ∷ h ∷ []) w n = eight_lem a b c d e f g h w
be_bytes-be_value_eight (a ∷ b ∷ c ∷ d ∷ e ∷ f ∷ g ∷ h ∷ x ∷ bs) w n = absurd (omega arith)
be_bytes-be_value_eight _ w n = absurd (omega arith)

pub be_value_lt_eight : (bs : List ℕ) → All IsByte bs → length bs ≡ 8 → be_value bs < 2 ^ 64
be_value_lt_eight (a ∷ b ∷ c ∷ d ∷ e ∷ f ∷ g ∷ h ∷ []) w n = eight_lt a b c d e f g h w
be_value_lt_eight (a ∷ b ∷ c ∷ d ∷ e ∷ f ∷ g ∷ h ∷ x ∷ bs) w n = absurd (omega arith)
be_value_lt_eight _ w n = absurd (omega arith)
