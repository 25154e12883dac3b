-- ===== src/Truetime/Ntp/Refresh/Sound.antt =====
-- truetime/ntp_source.go: how the goroutines, their contexts and their channels stand to one another.
use chrono.Prelude.{
  ℕ, ◌+◌, ◌≤◌, ◌<◌, ◌≡◌, ◌≢◌, refl, ap, ◌∙◌, true, false, Option, none, some, arith, ==_iff,
  ==_refl, eq_of_some, Option-cases, Bool-cases, inl, inr,
}
use chrono.Prelude.Int.{pos, ltb_ℤ, ◌<ℤ◌}
use chrono.Truetime.Ntp.{NtpSource, Reply, net_error, received, query}
use chrono.Truetime.Ntp.Refresh.{
  absent, created, looping, returned, State, update, initial, start, enter, begin, tick,
  close_channel, exit, parent_done, stop_call, stop_return, Move, starts, begins, ticks, exits,
  parent_ends, stop_calls, stop_skips, stop_returns, Reach, here, next,
}

-- What no Start has made does not run and is not closed. s.cancel and s.done belong to the last Start.
-- The goroutine of the last Start closes its own channel, and has closed it once it has returned, if
-- nothing panicked. While Stop waits, the context of that goroutine is done.
pub record IsSound (s : State) : Type 0 where
  pub fresh : (i : ℕ) → s.started ≤ i → (s.phase i ≡ absent) × (s.closed i ≡ false)
  pub made : (i : ℕ) → i < s.started → s.phase i ≢ absent
  pub last : (i : ℕ) → s.current ≡ some i → i + 1 ≡ s.started
  pub latest : (i : ℕ) → i + 1 ≡ s.started → s.current ≡ some i
  pub own : (i : ℕ) → s.current ≡ some i → s.phase i ≡ looping → s.deferred i ≡ some i
  pub ended :
      (i : ℕ) → s.current ≡ some i → s.phase i ≡ returned → s.panicked ≡ false → s.closed i ≡ true
  pub deferred_made : (i c : ℕ) → s.phase i ≡ looping → s.deferred i ≡ some c → c < s.started
  pub waits : s.stopping ≡ true → (i : ℕ) × (s.current ≡ some i) × (s.cancelled i ≡ true)

pub initial-IsSound : (source : NtpSource) → IsSound (initial source)
unfolding initial
initial-IsSound source = record {
  fresh = λ i h. (refl, refl);
  made = λ i h. absurd (omega arith);
  last = λ i e. cc;
  latest = λ i e. absurd (omega arith);
  own = λ i e. cc;
  ended = λ i e. cc;
  deferred_made = λ i c e. cc;
  waits = λ e. cc;
}

start-IsSound : (s : State) → s.stopping ≡ false → IsSound s → IsSound (start s)
unfolding start
start-IsSound s idle h = record {
  fresh = λ i le. ground (arith, h.fresh i);
  made = λ i lt. ground (arith, h.made i);
  last = λ i e. ground (arith, eq_of_some e);
  latest = λ i e. ap some (omega arith);
  own = λ i e. ground (arith, eq_of_some e);
  ended = λ i e. ground (arith, eq_of_some e);
  deferred_made = λ i c l e. ground (arith, h.deferred_made i c);
  waits = λ e. cc (e, idle);
}

enter-IsSound : (s : State) (i : ℕ) → s.phase i ≡ created → IsSound s → IsSound (enter s i)
unfolding enter
enter-IsSound s i new h = record {
  fresh = λ j le. ground (arith, h.fresh j);
  made = λ j lt. ground (arith, h.made j);
  last = h.last;
  latest = h.latest;
  own = λ j e l. ground (arith, h.own j);
  ended = λ j e l. ground (arith, h.ended j);
  deferred_made = λ j c l e. ground (arith, h.deferred_made j c, h.last c);
  waits = h.waits;
}

-- The two ways in which a goroutine ends.
abbrev pub crashed : State → ℕ → State
crashed s i = record s { phase = update s.phase i returned; panicked = true }

abbrev pub finished : State → ℕ → ℕ → State
finished s i c = record s { phase = update s.phase i returned; closed = update s.closed c true }

pub exit-finished :
    (s : State) (i c : ℕ) → s.deferred i ≡ some c → s.closed c ≡ false → exit s i ≡ finished s i c
unfolding exit
exit-finished s i c e open_yet = rw (e, open_yet, close_channel) refl

pub exit-closed :
    (s : State) (i c : ℕ) → s.deferred i ≡ some c → s.closed c ≡ true → exit s i ≡ crashed s i
unfolding exit
exit-closed s i c e shut = rw (e, shut, close_channel) refl

exit-nil : (s : State) (i : ℕ) → s.deferred i ≡ none → exit s i ≡ crashed s i
unfolding exit
exit-nil s i e = rw (e, close_channel) refl

module _ (s : State) (i : ℕ) (live : s.phase i ≡ looping) (h : IsSound s) where
  crashed-IsSound : IsSound (crashed s i)
  crashed-IsSound = record {
    fresh = λ j le. ground (arith, h.fresh j);
    made = λ j lt. ground (arith, h.made j);
    last = h.last;
    latest = h.latest;
    own = λ j e l. ground (arith, h.own j);
    ended = λ j e l p. cc;
    deferred_made = λ j c l e. ground (arith, h.deferred_made j c);
    waits = h.waits;
  }

  finished-IsSound : (c : ℕ) → s.deferred i ≡ some c → IsSound (finished s i c)
  finished-IsSound c d = record {
    fresh = λ j le. ground (arith, h.fresh j, h.deferred_made i c);
    made = λ j lt. ground (arith, h.made j);
    last = h.last;
    latest = h.latest;
    own = λ j e l. ground (arith, h.own j);
    ended = λ j e l p. ground (arith, h.ended j, h.own j, ==_iff j i, ==_refl c);
    deferred_made = λ j k l e. ground (arith, h.deferred_made j k);
    waits = h.waits;
  }

  exit-IsSound : IsSound (exit s i)
  exit-IsSound = elim (Option-cases (s.deferred i)) [
    | inl e ↦ rw (exit-nil s i e) crashed-IsSound
    | inr (c, e) ↦ elim (Bool-cases (s.closed c)) [
      | inl shut ↦ rw (exit-closed s i c e shut) crashed-IsSound
      | inr free ↦ rw (exit-finished s i c e free) (finished-IsSound c e)
    ]
  ]

panicked-IsSound : (s : State) → IsSound s → IsSound (record s { panicked = true })
panicked-IsSound s h = record {
  fresh = h.fresh;
  made = h.made;
  last = h.last;
  latest = h.latest;
  own = h.own;
  ended = λ j e l p. cc;
  deferred_made = h.deferred_made;
  waits = h.waits;
}

enter-looping : (s : State) (i : ℕ) → (enter s i).phase i ≡ looping
unfolding enter
enter-looping s i = rw (==_refl i) refl

-- A goroutine gets into its loop where the interval is positive.
pub begin-enter : (s : State) (i : ℕ) → pos 0 <ℤ s.source.query_interval → begin s i ≡ enter s i
unfolding begin
begin-enter s i pace =
    let e : ltb_ℤ (pos 0) s.source.query_interval ≡ true = ground arith in rw e refl

begin-IsSound : (s : State) (i : ℕ) → s.phase i ≡ created → IsSound s → IsSound (begin s i)
unfolding begin
begin-IsSound s i new h =
    let h' = enter-IsSound s i new h in
    elim (Bool-cases (ltb_ℤ (pos 0) s.source.query_interval)) [
      | inl e ↦ rw e h'
      | inr e ↦ rw e (
          panicked-IsSound (exit (enter s i) i) (exit-IsSound (enter s i) i (enter-looping s i) h'))
    ]

stop_call-IsSound : (s : State) (i : ℕ) → s.current ≡ some i → IsSound s → IsSound (stop_call s i)
unfolding stop_call
stop_call-IsSound s i cur h = record {
  fresh = h.fresh;
  made = h.made;
  last = h.last;
  latest = h.latest;
  own = h.own;
  ended = h.ended;
  deferred_made = h.deferred_made;
  waits = λ e. (i, cur, ground (arith, ==_refl i));
}

parent_done-IsSound : (s : State) (i : ℕ) → IsSound s → IsSound (parent_done s i)
unfolding parent_done
parent_done-IsSound s i h = record {
  fresh = h.fresh;
  made = h.made;
  last = h.last;
  latest = h.latest;
  own = h.own;
  ended = h.ended;
  deferred_made = h.deferred_made;
  waits = λ e. (let (j, cur, done) = h.waits e in (j, cur, ground arith));
}

close_channel-started : (s : State) (c : Option ℕ) → (close_channel s c).started ≡ s.started
unfolding close_channel
close_channel-started s none = refl
close_channel-started s (some c) = ground arith

exit-started : (s : State) (i : ℕ) → (exit s i).started ≡ s.started
unfolding exit
exit-started s i = close_channel-started s (s.deferred i)

begin-started : (s : State) (i : ℕ) → (begin s i).started ≡ s.started
unfolding begin enter
begin-started s i = elim (Bool-cases (ltb_ℤ (pos 0) s.source.query_interval)) [
  | inl e ↦ rw e refl
  | inr e ↦ rw e (exit-started (enter s i) i)
]

close_channel-source : (s : State) (c : Option ℕ) → (close_channel s c).source ≡ s.source
unfolding close_channel
close_channel-source s none = refl
close_channel-source s (some c) = ground arith

exit-source : (s : State) (i : ℕ) → (exit s i).source ≡ s.source
unfolding exit
exit-source s i = close_channel-source s (s.deferred i)

begin-source : (s : State) (i : ℕ) → (begin s i).source ≡ s.source
unfolding begin enter
begin-source s i = elim (Bool-cases (ltb_ℤ (pos 0) s.source.query_interval)) [
  | inl e ↦ rw e refl
  | inr e ↦ rw e (exit-source (enter s i) i)
]

query-interval :
    {Error : Type 0} (s : NtpSource) (reply : Reply Error)
    → (query s reply).0.query_interval ≡ s.query_interval
unfolding query
query-interval s (net_error e) = refl
query-interval s (received resp t1 t4) = refl

module _ {Error : Type 0} where
  pub Move-IsSound : {s t : State} → Move Error s t → IsSound s → IsSound t
  unfolding tick stop_return
  Move-IsSound {s} (starts idle) h = start-IsSound s idle h
  Move-IsSound {s} (begins i new) h = begin-IsSound s i new h
  Move-IsSound (ticks i reply live) h = record {
    fresh = h.fresh;
    made = h.made;
    last = h.last;
    latest = h.latest;
    own = h.own;
    ended = h.ended;
    deferred_made = h.deferred_made;
    waits = h.waits;
  }
  Move-IsSound {s} (exits i live done) h = exit-IsSound s i live h
  Move-IsSound {s} (parent_ends i) h = parent_done-IsSound s i h
  Move-IsSound {s} (stop_calls i idle cur) h = stop_call-IsSound s i cur h
  Move-IsSound (stop_skips idle unset) h = h
  Move-IsSound (stop_returns i waiting cur shut) h = record {
    fresh = h.fresh;
    made = h.made;
    last = h.last;
    latest = h.latest;
    own = h.own;
    ended = h.ended;
    deferred_made = h.deferred_made;
    waits = λ e. cc;
  }

  pub Reach-IsSound : {s t : State} → Reach Error s t → IsSound s → IsSound t
  Reach-IsSound here h = h
  Reach-IsSound (next r alive step) h = Move-IsSound step (Reach-IsSound r h)

  pub Move-started : {s t : State} → Move Error s t → s.started ≤ t.started
  unfolding start tick parent_done stop_call stop_return
  Move-started (starts idle) = omega arith
  Move-started {s} (begins i new) = omega (arith, begin-started s i)
  Move-started (ticks i reply live) = omega arith
  Move-started {s} (exits i live done) = omega (arith, exit-started s i)
  Move-started (parent_ends i) = omega arith
  Move-started (stop_calls i idle cur) = omega arith
  Move-started (stop_skips idle unset) = omega arith
  Move-started (stop_returns i waiting cur shut) = omega arith

  pub Reach-started : {s t : State} → Reach Error s t → s.started ≤ t.started
  Reach-started here = omega arith
  Reach-started (next r alive step) = omega (arith, Reach-started r, Move-started step)

  -- No step changes the interval of the queries.
  Move-paced : {s t : State} → Move Error s t → t.source.query_interval ≡ s.source.query_interval
  unfolding start tick parent_done stop_call stop_return
  Move-paced (starts idle) = refl
  Move-paced {s} (begins i new) = ap (λ (x : NtpSource). x.query_interval) (begin-source s i)
  Move-paced {s} (ticks i reply live) = query-interval s.source reply
  Move-paced {s} (exits i live done) = ap (λ (x : NtpSource). x.query_interval) (exit-source s i)
  Move-paced (parent_ends i) = refl
  Move-paced (stop_calls i idle cur) = refl
  Move-paced (stop_skips idle unset) = refl
  Move-paced (stop_returns i waiting cur shut) = refl

  pub Reach-paced :
      {s t : State} → Reach Error s t → t.source.query_interval ≡ s.source.query_interval
  Reach-paced here = refl
  Reach-paced (next r alive step) = Move-paced step ∙ Reach-paced r
