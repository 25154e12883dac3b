-- ===== src/Truetime/Ntp.antt =====
-- truetime/ntp_source.go: the offset that an NTP reply gives, and the interval computed from it. The
-- network and the system clock are the arguments: what a query got, and what time.Now returned.
pub mod Accuracy
pub mod Measurement
pub mod Refresh
mod Examples
use chrono.Prelude.{
  ℕ, suc, ◌+◌, ◌-◌, ◌*◌, ◌/◌, ◌%◌, ◌^◌, Option, none, some, List, take, drop, if◌then◌else◌,
}
use chrono.Prelude.Int.{ℤ, pos, negsuc, ◌+ℤ◌, ◌-ℤ◌, ltb_ℤ, sub_ℕ, pos_part}
use chrono.Prelude.Words.{i64}
use chrono.Prelude.Bytes.{be_value}
use chrono.Truetime.{Interval, sub_time}

abbrev pub drift_ppm : ℕ
drift_ppm = 200

abbrev pub ntp_epoch_offset : ℕ
ntp_epoch_offset = 2208988800

-- The interval of the queries and the last measurement. (The server is the network's, and the fields
-- that stop the refresh goroutine are in Refresh.)
pub record NtpSource : Type 0 where
  pub query_interval : ℤ
  pub last_offset : ℤ
  pub last_dispersion : ℤ
  pub last_query : ℤ

-- `ntpTimeFromBytes`. The product is below 2 ^ 62, and `time.Unix` adds nanoseconds to seconds.
unfoldable pub ntp_time_from_bytes : List ℕ → ℤ
ntp_time_from_bytes b =
    let raw = be_value b in
    let sec = raw / 2 ^ 32 in
    let nsec = raw % 2 ^ 32 * 1_000_000_000 / 2 ^ 32 in
    sub_ℕ (sec * 1_000_000_000 + nsec) (ntp_epoch_offset * 1_000_000_000)

-- `d / 2` on int64, which rounds toward zero.
unfoldable pub half : ℤ → ℤ
half (pos n) = pos (n / 2)
half (negsuc n) = sub_ℕ 0 (suc n / 2)

-- What the network does in one query: an error of Dial, Write or Read, or the 48 bytes of the buffer
-- after Read, with the times before Write and after Read.
pub data Reply (Error : Type 0) : Type 0 where
  net_error : Error → Reply Error
  received : (resp : List ℕ) (t1 t4 : ℤ) → Reply Error

-- `query`: the source after it, and its error. The dispersion of at most 2 ^ 32 / 2 ^ 16 seconds does
-- not overflow.
unfoldable pub query : {Error : Type 0} → NtpSource → Reply Error → NtpSource × Option Error
query s (net_error e) = (s, some e)
query s (received resp t1 t4) =
    let t2 = ntp_time_from_bytes (take 8 (drop 32 resp)) in
    let t3 = ntp_time_from_bytes (take 8 (drop 40 resp)) in
    let offset = half (i64 (sub_time t2 t1 +ℤ sub_time t3 t4)) in
    let delay = i64 (sub_time t4 t1 -ℤ sub_time t3 t2) in
    let root_disp_raw = be_value (take 4 (drop 8 resp)) in
    let root_disp = root_disp_raw * 1_000_000_000 / 2 ^ 16 in
    (
      record s {
        last_offset = offset;
        last_dispersion = i64 (pos root_disp +ℤ half delay);
        last_query = t4;
      },
      none,
    )

-- `d / 1_000_000` on int64.
unfoldable pub per_million : ℤ → ℤ
per_million (pos n) = pos (n / 1_000_000)
per_million (negsuc n) = sub_ℕ 0 (suc n / 1_000_000)

-- `if elapsed < 0 { elapsed = 0 }`
unfoldable pub at_least_zero : ℤ → ℤ
at_least_zero elapsed = if ltb_ℤ elapsed (pos 0) then pos 0 else elapsed

-- The drift that is allowed for since the last query.
unfoldable pub extra : ℤ → ℤ → ℤ
extra now last =
    let elapsed = at_least_zero (sub_time now last) in
    per_million (i64 (pos (pos_part elapsed * drift_ppm)))

-- `Now`, when the system clock reads `now`.
unfoldable pub now : NtpSource → ℤ → Interval
now s now_time =
    let mid = now_time +ℤ s.last_offset in
    let un = i64 (s.last_dispersion +ℤ extra now_time s.last_query) in
    record { earliest = mid +ℤ i64 (pos 0 -ℤ un); latest = mid +ℤ un }
