-- ===== src/Hlc/Encode.antt =====
-- hlc/encode.go: the 12-byte form of a timestamp.
pub mod RoundTrip
use chrono.Prelude.{
  ℕ, ◌+◌, ◌*◌, ◌<◌, ◌≡◌, ◌≢◌, ◌↔◌, refl, ap, ap₂, ◌∙◌, Option, none, some, List, [], ◌∷◌, ◌++◌,
  arith, ◌==◌, if◌then◌else◌, length, take, drop, All,
}
use chrono.Prelude.Words.{
  IsByte, to_u64, from_u64, to_u64-IsU64, from_u64-to_u64, from_u64-IsI64, to_u64-from_u64,
}
use chrono.Prelude.Bytes.{be_bytes, be_value, length-be_bytes}
use chrono.Hlc.{Timestamp, IsTimestamp}

pub data Error : Type 0 where
  corrupt_encoding : Error

unfoldable pub marshal_binary : Timestamp → List ℕ
marshal_binary a = be_bytes 8 (to_u64 a.wall_time) ++ be_bytes 4 a.logical

-- The receiver after the call, and the error if there is one.
unfoldable pub unmarshal_binary : Timestamp → List ℕ → Timestamp × Option Error
unmarshal_binary a bytes =
    if length bytes == 12
    then (
      record {
        wall_time = from_u64 (be_value (take 8 bytes));
        logical = be_value (take 4 (drop 8 bytes));
      },
      none,
    )
    else (a, some corrupt_encoding)
