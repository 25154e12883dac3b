-- ===== src/Truetime/Ntp/Refresh/StartTwice.antt =====
-- truetime/ntp_source.go: a Start after another one.
use chrono.Prelude.{ℕ, ◌≡◌, ◌≢◌, refl, sym, subst, ◌∙◌, true, false, some, arith, ==_iff, ==_refl}
use chrono.Prelude.Int.{pos, ◌<ℤ◌}
use chrono.Truetime.Ntp.{NtpSource, Reply}
use chrono.Truetime.Ntp.Refresh.{
  created, looping, State, initial, start, enter, begin, tick, exit, parent_done, stop_call,
  stop_return, Move, begins, ticks, exits, parent_ends, stop_calls, stop_returns, Reach, here, next,
}
use chrono.Truetime.Ntp.Refresh.Sound.{
  IsSound, initial-IsSound, Reach-IsSound, exit-finished, exit-closed, finished, Reach-paced,
  begin-enter,
}

module _ (s : State) where
  -- After a Start: Stop is called, the new goroutine begins and ends.
  abbrev again : State
  again = enter (stop_call (start s) s.started) s.started

  abbrev ended : State
  ended = finished again s.started s.started

  again-deferred : again.deferred s.started ≡ some s.started
  unfolding enter stop_call start
  again-deferred = rw (==_refl s.started) refl

  again-phase : again.phase s.started ≡ looping
  unfolding enter
  again-phase = rw (==_refl s.started) refl

  again-cancelled : again.cancelled s.started ≡ true
  unfolding begin stop_call
  again-cancelled = rw (==_refl s.started) refl

  -- The goroutine of another Start is where it was.
  ended-phase : (i : ℕ) → i ≢ s.started → ended.phase i ≡ s.phase i
  unfolding enter stop_call start
  ended-phase i other = ground (arith, ==_iff i s.started)

  again-closed : IsSound s → again.closed s.started ≡ false
  unfolding enter stop_call start
  again-closed h = (h.fresh s.started (omega arith)).1

  -- A goroutine that had not begun when Start was called again takes the same channel.
  abbrev late : ℕ → State
  late i = parent_done (enter ended i) i

-- After a Start at `s`, Stop was called for it and can return from `waiting`, with the goroutine `i` of
-- another Start in its loop.
pub record Leaks (Error : Type 0) (s : State) (i : ℕ) : Type 0 where
  pub waiting : State
  pub reached : Reach Error (start s) waiting
  pub waits : waiting.stopping ≡ true
  pub latest : waiting.current ≡ some s.started
  pub calm : waiting.panicked ≡ false
  pub returns : Move Error waiting (stop_return waiting)
  pub still : (stop_return waiting).phase i ≡ looping
  pub same_context : (stop_return waiting).cancelled i ≡ s.cancelled i
  pub refreshes :
      (reply : Reply Error) → Move Error (stop_return waiting) (tick (stop_return waiting) reply)

-- After a Start at `s`, the goroutine `i` of another Start ends with the channel of this Start, which
-- is closed.
pub record Crashes (Error : Type 0) (s : State) (i : ℕ) : Type 0 where
  pub ending : State
  pub reached : Reach Error (start s) ending
  pub calm : ending.panicked ≡ false
  pub takes : ending.deferred i ≡ some s.started
  pub shut : ending.closed s.started ≡ true
  pub exiting : Move Error ending (exit ending i)
  pub breaks : (exit ending i).panicked ≡ true

module _ {Error : Type 0} (s : State) (h : IsSound s) (idle : s.stopping ≡ false)
    (alive : s.panicked ≡ false) (pace : pos 0 <ℤ s.source.query_interval) where
  again-Reach : Reach Error (start s) (again s)
  unfolding stop_call start
  again-Reach =
      subst (λ (t : State). Reach Error (start s) t)
        (begin-enter (stop_call (start s) s.started) s.started pace)
        (next (next here alive (stop_calls s.started idle refl)) alive
          (begins s.started (rw (==_refl s.started) refl)))

  ended-Reach : Reach Error (start s) (ended s)
  unfolding enter stop_call start
  ended-Reach =
      subst (λ (t : State). Reach Error (start s) t)
        (exit-finished (again s) s.started s.started (again-deferred s) (again-closed s h))
        (next again-Reach alive (exits s.started (again-phase s) (again-cancelled s)))

  -- Stop is about to return while another goroutine is in its loop.
  leaks : (i : ℕ) → s.phase i ≡ looping → Leaks Error s i
  unfolding enter stop_call start stop_return
  leaks i live =
      let other : i ≢ s.started = λ e. cc ((h.fresh i (omega (arith, e))).0, live) in
      let keeps : (ended s).phase i ≡ looping = ended-phase s i other ∙ live in
      record {
        waiting = ended s;
        reached = ended-Reach;
        waits = refl;
        latest = refl;
        calm = alive;
        returns = stop_returns s.started refl refl (rw (==_refl s.started) refl);
        still = keeps;
        same_context = ground (arith, ==_iff i s.started);
        refreshes = λ reply. ticks i reply keeps;
      }

  crashes : (i : ℕ) → s.phase i ≡ created → Crashes Error s i
  unfolding enter stop_call start parent_done
  crashes i new =
      let other : i ≢ s.started = λ e. cc ((h.fresh i (omega (arith, e))).0, new) in
      let keeps : (ended s).phase i ≡ created = ended-phase s i other ∙ new in
      let own : (late s i).deferred i ≡ some s.started = rw (==_refl i) refl in
      let live : (late s i).phase i ≡ looping = rw (==_refl i) refl in
      let done : (late s i).cancelled i ≡ true = rw (==_refl i) refl in
      let shut : (late s i).closed s.started ≡ true = rw (==_refl s.started) refl in
      let entered : Reach Error (start s) (enter (ended s) i) =
        subst (λ (t : State). Reach Error (start s) t) (begin-enter (ended s) i pace)
          (next ended-Reach alive (begins i keeps)) in
      record {
        ending = late s i;
        reached = next entered alive (parent_ends i);
        calm = alive;
        takes = own;
        shut = shut;
        exiting = exits i live done;
        breaks = rw (exit-closed (late s i) i s.started own shut) refl;
      }

-- A second Start breaks the first one, where the interval of the queries is positive. If the first
-- goroutine is in its loop, a call of Stop gets to its return with this goroutine still in the loop, to
-- refresh the source whenever its ticker fires, and with its context as it was. If it has not begun to
-- run, it can take the channel of the second Start, find it closed when it ends, and panic on closing it
-- again.
pub start_twice :
    {Error : Type 0} (source : NtpSource) {s : State} (i : ℕ)
    → pos 0 <ℤ source.query_interval
    → Reach Error (initial source) s
    → s.stopping ≡ false
    → s.panicked ≡ false
    → (s.phase i ≡ looping → Leaks Error s i) × (s.phase i ≡ created → Crashes Error s i)
unfolding initial
start_twice source {s} i pace r idle alive =
    let h = Reach-IsSound r (initial-IsSound source) in
    let paced = subst (λ z. pos 0 <ℤ z) (sym (Reach-paced r)) pace in
    (leaks s h idle alive paced i, crashes s h idle alive paced i)
