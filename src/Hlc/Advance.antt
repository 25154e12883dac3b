-- ===== src/Hlc/Advance.antt =====
-- hlc/clock.go: the timestamps of Now, Send and Receive against the state before.
use chrono.Prelude.{ℕ, ◌-◌, ◌^◌, ◌<◌, ◌≡◌, ◌↔◌, refl, ap, ◌⊎◌, true, arith}
use chrono.Prelude.Int.{ℤ, ◌<ℤ◌, max_ℤ, eq_of_parts}
use chrono.Hlc.{Timestamp, Clock, less, now, send, merged, receive, current, ok}
use chrono.Hlc.Timestamps.{Before, Before→less, less→Before}
use chrono.Prelude.Words.{IsU32}

abbrev pub max_u32 : ℕ
max_u32 = 2 ^ 32 - 1

abbrev pub merged_wall : Timestamp → ℤ → Timestamp → ℤ
merged_wall s pt remote = max_ℤ pt (max_ℤ remote.wall_time s.wall_time)

-- The logical counter can still grow, or the wall time `new_l` is past the timestamp and resets it.
abbrev pub HasRoom : Timestamp → ℤ → Type 0
HasRoom s new_l = (s.wall_time <ℤ new_l) ⊎ (s.logical < max_u32)

abbrev pub new_wall : Clock → ℤ → ℤ
new_wall c pt = max_ℤ pt c.state.wall_time

abbrev pub receive_wall : Clock → ℤ → Timestamp → ℤ
receive_wall c pt remote = merged_wall c.state pt remote

pub now-Before :
    (c : Clock) (pt : ℤ) → HasRoom c.state (new_wall c pt) → Before c.state (now c pt).1
unfolding now
now-Before c pt h = ground (arith, eq_of_parts pt c.state.wall_time)

Before-now :
    (c : Clock) (pt : ℤ)
    → IsU32 c.state.logical
    → Before c.state (now c pt).1
    → HasRoom c.state (new_wall c pt)
unfolding now
Before-now c pt f h = ground arith

-- Now and Send return a timestamp that is greater than the state before exactly when the logical
-- counter has room; its WallTime is the larger of the state's and the wall clock's, and the new
-- state, which Current reads, is the timestamp returned.
pub now_advances :
    (c : Clock) (pt : ℤ)
    → IsU32 c.state.logical
    → ((less (current c) (now c pt).1 ≡ true) ↔ HasRoom c.state (new_wall c pt))
      × ((now c pt).1.wall_time ≡ new_wall c pt)
      × (current (now c pt).0 ≡ (now c pt).1)
      × (send c pt ≡ now c pt)
unfolding now current send
now_advances c pt f = (
  (
    λ h. Before-now c pt f (less→Before c.state (now c pt).1 h),
    λ h. Before→less c.state (now c pt).1 (now-Before c pt h),
  ),
  refl,
  refl,
  refl,
)

pub merged-Before_state :
    (s remote : Timestamp) (pt : ℤ)
    → HasRoom s (merged_wall s pt remote)
    → HasRoom remote (merged_wall s pt remote)
    → Before s (merged s pt remote)
unfolding merged
merged-Before_state s remote pt h k =
    ground (arith, eq_of_parts s.wall_time pt, eq_of_parts s.wall_time remote.wall_time)

pub merged-Before_remote :
    (s remote : Timestamp) (pt : ℤ)
    → HasRoom s (merged_wall s pt remote)
    → HasRoom remote (merged_wall s pt remote)
    → Before remote (merged s pt remote)
unfolding merged
merged-Before_remote s remote pt h k =
    ground (arith, eq_of_parts remote.wall_time pt, eq_of_parts remote.wall_time s.wall_time)

Before-merged :
    (s remote : Timestamp) (pt : ℤ)
    → IsU32 s.logical
    → IsU32 remote.logical
    → Before s (merged s pt remote)
    → Before remote (merged s pt remote)
    → HasRoom s (merged_wall s pt remote) × HasRoom remote (merged_wall s pt remote)
unfolding merged
Before-merged s remote pt f g h k = ground arith

-- What an accepted Receive returns and stores.
pub receive-ok :
    (c c' : Clock) (pt : ℤ) (remote s : Timestamp)
    → receive c pt remote ≡ (c', ok s)
    → (s ≡ merged c.state pt remote) × (c' ≡ record c { state = s })
unfolding receive
receive-ok c c' pt remote s e = ground arith

merged_advances :
    (s remote : Timestamp) (pt : ℤ)
    → IsU32 s.logical
    → IsU32 remote.logical
    → ((less s (merged s pt remote) ≡ true) × (less remote (merged s pt remote) ≡ true))
      ↔ (HasRoom s (merged_wall s pt remote) × HasRoom remote (merged_wall s pt remote))
merged_advances s remote pt f g = (
  λ h.
      Before-merged s remote pt f g (less→Before s (merged s pt remote) h.0)
        (less→Before remote (merged s pt remote) h.1),
  λ h. (
    Before→less s (merged s pt remote) (merged-Before_state s remote pt h.0 h.1),
    Before→less remote (merged s pt remote) (merged-Before_remote s remote pt h.0 h.1),
  ),
)

wall_time-merged :
    (s remote : Timestamp) (pt : ℤ) → (merged s pt remote).wall_time ≡ merged_wall s pt remote
unfolding merged
wall_time-merged s remote pt = refl

-- An accepted Receive returns a timestamp that is greater than both the state before and the
-- message's exactly when both logical counters have room; its WallTime is the largest of the three,
-- Current then reads it, and the drift bound is kept.
pub receive_advances :
    (c c' : Clock) (pt : ℤ) (remote s : Timestamp)
    → IsU32 c.state.logical
    → IsU32 remote.logical
    → receive c pt remote ≡ (c', ok s)
    → (((less (current c) s ≡ true) × (less remote s ≡ true))
        ↔ (HasRoom c.state (receive_wall c pt remote) × HasRoom remote (receive_wall c pt remote)))
      × (s.wall_time ≡ receive_wall c pt remote)
      × (current c' ≡ s)
      × (c'.max_drift ≡ c.max_drift)
unfolding current
receive_advances c c' pt remote s f g e =
    let (es, ec) = receive-ok c c' pt remote s e in
    (
      rw es (merged_advances c.state remote pt f g),
      rw es (wall_time-merged c.state remote pt),
      ap (λ (x : Clock). x.state) ec,
      ap (λ (x : Clock). x.max_drift) ec,
    )
