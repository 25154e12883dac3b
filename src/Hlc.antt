-- ===== src/Hlc.antt =====
-- hlc/clock.go: hybrid logical timestamps and the clock that issues them. WallTime is an int64, an
-- integer in range; Logical is a uint32, a number below 2 ^ 32 that wraps. The mutex makes a method
-- one step on the state; what the wall clock reads during it is the argument `pt`.
pub mod Timestamps
pub mod Advance
pub mod Drift
pub mod Causality
mod Examples
pub mod Encode
pub mod Json
pub mod Text
pub mod Forms
use chrono.Prelude.{ℕ, ◌+◌, ◌<◌, Bool, ◌&&◌, not, max, ltb, ◌==◌, if◌then◌else◌}
use chrono.Prelude.Int.{ℤ, pos, negsuc, ◌+ℤ◌, ltb_ℤ, eqb_ℤ, max_ℤ}
use chrono.Prelude.Words.{IsI64, IsU32, i64, u32}

pub record Timestamp : Type 0 where
  pub wall_time : ℤ
  pub logical : ℕ

-- The values that the Go type has.
pub record IsTimestamp (t : Timestamp) : Type 0 where
  pub wall_fits : IsI64 t.wall_time
  pub logical_fits : IsU32 t.logical

unfoldable pub less : Timestamp → Timestamp → Bool
less a b =
    if not (eqb_ℤ a.wall_time b.wall_time)
    then ltb_ℤ a.wall_time b.wall_time
    else ltb a.logical b.logical

unfoldable pub equal : Timestamp → Timestamp → Bool
equal a b = eqb_ℤ a.wall_time b.wall_time && a.logical == b.logical

unfoldable pub compare : Timestamp → Timestamp → ℤ
compare a b =
    if ltb_ℤ a.wall_time b.wall_time
    then negsuc 0
    else if ltb_ℤ b.wall_time a.wall_time
    then pos 1
    else if ltb a.logical b.logical
    then negsuc 0
    else if ltb b.logical a.logical
    then pos 1
    else pos 0

-- The fields that change or are set; `wall` enters each method as its reading.
pub record Clock : Type 0 where
  pub state : Timestamp
  pub max_drift : ℤ

abbrev pub zero_timestamp : Timestamp
zero_timestamp = record { wall_time = pos 0; logical = 0 }

unfoldable pub new : Clock
new = record { state = zero_timestamp; max_drift = pos 0 }

unfoldable pub new_with_max_drift : ℤ → Clock
new_with_max_drift max_drift = record { state = zero_timestamp; max_drift = max_drift }

-- `advanceLocked`
unfoldable pub advance_locked : Clock → ℤ → Clock × Timestamp
advance_locked c pt =
    let new_l = max_ℤ pt c.state.wall_time in
    let new_c = if eqb_ℤ new_l c.state.wall_time then u32 (c.state.logical + 1) else 0 in
    let s : Timestamp = record { wall_time = new_l; logical = new_c } in (record c { state = s }, s)

unfoldable pub now : Clock → ℤ → Clock × Timestamp
unfolding advance_locked
now c pt = advance_locked c pt

unfoldable pub send : Clock → ℤ → Clock × Timestamp
unfolding now
send c pt = now c pt

unfoldable pub current : Clock → Timestamp
current c = c.state

-- The error of `Receive` is ErrMaxDriftExceeded, with the values that its message shows.
pub data Outcome : Type 0 where
  ok : Timestamp → Outcome
  max_drift_exceeded : (remote local max_drift : ℤ) → Outcome

-- The logical counter of the `switch` in `Receive`.
unfoldable pub receive_logical : Timestamp → Timestamp → ℤ → ℕ
receive_logical state remote new_l =
    if eqb_ℤ new_l state.wall_time && eqb_ℤ new_l remote.wall_time
    then u32 (max state.logical remote.logical + 1)
    else if eqb_ℤ new_l state.wall_time
    then u32 (state.logical + 1)
    else if eqb_ℤ new_l remote.wall_time
    then u32 (remote.logical + 1)
    else 0

-- The timestamp that an accepted `Receive` stores and returns.
unfoldable pub merged : Timestamp → ℤ → Timestamp → Timestamp
unfolding receive_logical
merged state pt remote =
    let new_l = max_ℤ pt (max_ℤ remote.wall_time state.wall_time) in
    record { wall_time = new_l; logical = receive_logical state remote new_l }

unfoldable pub receive : Clock → ℤ → Timestamp → Clock × Outcome
receive c pt remote =
    if ltb_ℤ (pos 0) c.max_drift && ltb_ℤ (i64 (pt +ℤ c.max_drift)) remote.wall_time
    then (c, max_drift_exceeded remote.wall_time pt c.max_drift)
    else (let s = merged c.state pt remote in (record c { state = s }, ok s))
