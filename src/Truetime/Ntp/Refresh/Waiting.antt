-- ===== src/Truetime/Ntp/Refresh/Waiting.antt =====
-- truetime/ntp_source.go: the wait of Stop for its channel.
use chrono.Prelude.{ℕ, ◌≡◌, false}
use chrono.Truetime.Ntp.Refresh.{
  State, Move, starts, begins, ticks, exits, parent_ends, stop_calls, stop_skips, stop_returns,
}

module _ {Error : Type 0} where
  -- The steps that are left to Stop and to the goroutine of the Start with the number `i`: it begins, it
  -- ends, and Stop returns.
  abbrev pub IsOwn : ℕ → {s t : State} → Move Error s t → Type 0
  IsOwn i (starts idle) = ⊥
  IsOwn i (begins j new) = j ≡ i
  IsOwn i (ticks j reply live) = ⊥
  IsOwn i (exits j live done) = j ≡ i
  IsOwn i (parent_ends j) = ⊥
  IsOwn i (stop_calls j idle cur) = ⊥
  IsOwn i (stop_skips idle unset) = ⊥
  IsOwn i (stop_returns j waiting cur shut) = Unit

-- What is reached by those steps alone.
pub data Ends (Error : Type 0) (i : ℕ) (s : State) : State → Type 0 where
  as_is : Ends Error i s s
  further :
      {t u : State}
      → Ends Error i s t
      → t.panicked ≡ false
      → (step : Move Error t u) → IsOwn i step
      → Ends Error i s u

-- Stop has returned by those steps, and the source is as it was.
record Returns (Error : Type 0) (i : ℕ) (s t : State) : Type 0 where
  pub reached : Ends Error i s t
  pub stopped : t.stopping ≡ false
  pub calm : t.panicked ≡ false
  pub same : t.source ≡ s.source
