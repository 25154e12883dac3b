-- ===== src/HlcDb/Examples.antt =====
-- Runs of the exchange of two nodes, and its theorem at the program's clocks.
use chrono.Prelude.{ℕ, ◌+◌, ◌≤◌, ◌≡◌, refl, true}
use chrono.Prelude.Int.{pos, ◌+ℤ◌, max_ℤ}
use chrono.Prelude.Words.{i64}
use chrono.Wallclock.{new_fake, fake_clock, unix_nano}
use chrono.Hlc.{Timestamp, new, send, receive, receive_logical, merged, less}
use chrono.HlcDb.{exchange, round, program_base, program_skew}
use chrono.HlcDb.Rounds.{exchange_lem}

abbrev at : ℕ → ℕ → Timestamp
at ms logical = record { wall_time = pos (1_700_000_000_000_000_000 + ms); logical = logical }

-- The second node's wall clock is 30 milliseconds ahead, and the first one's WallTime jumps to it.
program : exchange program_base program_skew ≡ (
  record { sent = at 0 0; received_at = at 30_000_000 0; ordered = true },
  record { sent = at 30_000_000 1; received_at = at 30_000_000 2; ordered = true },
)
unfolding exchange round new send receive merged receive_logical less new_fake fake_clock unix_nano
    i64 ◌+ℤ◌
program = refl

-- Both clocks read 0: only the logical counters grow, up to the bound.
stopped : exchange (pos 0) (pos 0) ≡ (
  record {
    sent = record { wall_time = pos 0; logical = 1 };
    received_at = record { wall_time = pos 0; logical = 2 };
    ordered = true;
  },
  record {
    sent = record { wall_time = pos 0; logical = 3 };
    received_at = record { wall_time = pos 0; logical = 4 };
    ordered = true;
  },
)
unfolding exchange round new send receive merged receive_logical less new_fake fake_clock unix_nano
    i64 ◌+ℤ◌
stopped = refl

exchange_lem_example :
    let (first, second) = exchange program_base program_skew in
    (first.ordered ≡ true)
    × (less first.received_at second.sent ≡ true)
    × (second.ordered ≡ true)
    × (second.received_at.wall_time
        ≡ max_ℤ (unix_nano program_base) (max_ℤ (unix_nano (program_base +ℤ program_skew)) (pos 0)))
    × (second.received_at.logical ≤ 4)
exchange_lem_example = exchange_lem program_base program_skew
