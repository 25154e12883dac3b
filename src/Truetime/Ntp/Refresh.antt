-- ===== src/Truetime/Ntp/Refresh.antt =====
-- truetime/ntp_source.go: NewNTPSource, LastDispersion, and the goroutines that Start leaves behind
-- and Stop ends. Start and Stop are called by one goroutine, as the unlocked fields that they share
-- require; a step of a refresh goroutine falls between their steps in any order.
pub mod Sound
pub mod Lifecycle
pub mod Waiting
pub mod StartTwice
use chrono.Prelude.{ℕ, ◌+◌, ◌≡◌, ◌≢◌, Bool, true, false, Option, none, some, ◌==◌, if◌then◌else◌}
use chrono.Prelude.Int.{ℤ, pos, negsuc, ltb_ℤ}
use chrono.Truetime.Ntp.{NtpSource, Reply, query}

-- The fields of `&NTPSource{...}` that the composite literal leaves out.
-- The zero time.Time is 1 January of the year 1.
abbrev pub zero_source : ℤ → NtpSource
zero_source query_interval = record {
  query_interval = query_interval;
  last_offset = pos 0;
  last_dispersion = pos 0;
  last_query = negsuc 62_135_596_799_999_999_999;
}

pub data NewResult (Error : Type 0) : Type 0 where
  ok : NtpSource → NewResult Error
  failed : Error → NewResult Error

abbrev new_result : {Error : Type 0} → NtpSource × Option Error → NewResult Error
new_result (s, none) = ok s
new_result (s, some e) = failed e

-- `NewNTPSource`, with what the network does in its query. The interval may be any int64.
unfoldable pub new_ntp_source : {Error : Type 0} → ℤ → Reply Error → NewResult Error
new_ntp_source query_interval reply = new_result (query (zero_source query_interval) reply)

unfoldable pub last_dispersion : NtpSource → ℤ
last_dispersion s = s.last_dispersion

-- Where a refresh goroutine is: no Start has made it, it has not run yet, it is in its loop, or it has
-- returned.
pub data Phase : Type 0 where
  absent created looping returned : Phase

-- The calls of Start are numbered, and with them the goroutine, the context and the channel that each
-- makes. `current` is the one whose cancel and channel are in s.cancel and s.done, if Start was called.
-- `cancelled` tells which contexts are done, `deferred` which channel a goroutine closes at its end, and
-- `closed` which channels are closed. `stopping` is true while Stop waits for its channel, and `panicked`
-- after a panic, which ends the program.
pub record State : Type 0 where
  pub source : NtpSource
  pub started : ℕ
  pub current : Option ℕ
  pub phase : ℕ → Phase
  pub cancelled : ℕ → Bool
  pub deferred : ℕ → Option ℕ
  pub closed : ℕ → Bool
  pub stopping : Bool
  pub panicked : Bool

abbrev pub update {ℓ} : {A : Type ℓ} → (ℕ → A) → ℕ → A → ℕ → A
update f i v j = if j == i then v else f j

-- A source that NewNTPSource made, before any call of Start.
unfoldable pub initial : NtpSource → State
initial source = record {
  source = source;
  started = 0;
  current = none;
  phase = λ i. absent;
  cancelled = λ i. false;
  deferred = λ i. none;
  closed = λ i. false;
  stopping = false;
  panicked = false;
}

unfoldable pub start : State → State
start s = record s {
  started = s.started + 1;
  current = some s.started;
  phase = update s.phase s.started created;
}

-- `case <-t.C: _ = s.query()`
unfoldable pub tick : {Error : Type 0} → State → Reply Error → State
tick s reply = record s { source = (query s.source reply).0 }

-- `close` of a channel: that of a nil channel or a closed one panics.
unfoldable pub close_channel : State → Option ℕ → State
close_channel s none = record s { panicked = true }
close_channel s (some c) =
    if s.closed c
    then record s { panicked = true }
    else record s { closed = update s.closed c true }

-- `case <-ctx.Done(): return`, and the deferred close.
unfoldable pub exit : State → ℕ → State
unfolding close_channel
exit s i = record (close_channel s (s.deferred i)) { phase = update s.phase i returned }

-- From `defer close(s.done)`, which reads s.done when the goroutine begins to run, into the loop.
unfoldable pub enter : State → ℕ → State
enter s i = record s { phase = update s.phase i looping; deferred = update s.deferred i s.current }

-- The first step of a goroutine. NewTicker panics if the interval is not positive: the deferred close
-- runs then, and the program ends.
unfoldable pub begin : State → ℕ → State
unfolding enter exit
begin s i =
    if ltb_ℤ (pos 0) s.source.query_interval
    then enter s i
    else record (exit (enter s i) i) { panicked = true }

-- The context that was given to Start is done.
unfoldable pub parent_done : State → ℕ → State
parent_done s i = record s { cancelled = update s.cancelled i true }

-- Stop as far as `<-s.done`, where s.cancel is not nil.
unfoldable pub stop_call : State → ℕ → State
stop_call s i = record s { cancelled = update s.cancelled i true; stopping = true }

-- The rest of Stop, once the channel is closed.
unfoldable pub stop_return : State → State
stop_return s = record s { stopping = false }

module _ (Error : Type 0) where
  -- The steps of a system that has not panicked. Where both cases of the select are ready, either may
  -- be taken. Stop without a Start before it (`stop_skips`) does nothing.
  pub data Move (s : State) : State → Type 0 where
    starts : s.stopping ≡ false → Move s (start s)
    begins : (i : ℕ) → s.phase i ≡ created → Move s (begin s i)
    ticks : (i : ℕ) (reply : Reply Error) → s.phase i ≡ looping → Move s (tick s reply)
    exits : (i : ℕ) → s.phase i ≡ looping → s.cancelled i ≡ true → Move s (exit s i)
    parent_ends : (i : ℕ) → Move s (parent_done s i)
    stop_calls : (i : ℕ) → s.stopping ≡ false → s.current ≡ some i → Move s (stop_call s i)
    stop_skips : s.stopping ≡ false → s.current ≡ none → Move s s
    stop_returns :
        (i : ℕ)
        → s.stopping ≡ true
        → s.current ≡ some i
        → s.closed i ≡ true
        → Move s (stop_return s)

  pub data Reach (s : State) : State → Type 0 where
    here : Reach s s
    next : {t u : State} → Reach s t → t.panicked ≡ false → Move t u → Reach s u
