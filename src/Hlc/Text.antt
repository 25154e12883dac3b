-- ===== src/Hlc/Text.antt =====
-- hlc/clock.go: the text of a timestamp.
use chrono.Prelude.{suc, ◌∷◌, ◌++◌}
use chrono.Prelude.Int.{ℤ, pos, negsuc}
use chrono.Prelude.Strings.{Str}
use chrono.Prelude.Decimal.{decimal}
use chrono.Hlc.{Timestamp}

-- The verb %d for an int64.
unfoldable pub decimal_ℤ : ℤ → Str
decimal_ℤ (pos n) = decimal n
decimal_ℤ (negsuc n) = b'-' ∷ decimal (suc n)

-- `Timestamp.String`
unfoldable pub to_string : Timestamp → Str
unfolding decimal_ℤ
to_string a = decimal_ℤ a.wall_time ++ (b'.' ∷ decimal a.logical)
