-- ===== src/Truetime/Ntp/Refresh/Lifecycle.antt =====
-- truetime/ntp_source.go: Stop, while it waits and after it.
use chrono.Prelude.{
  ℕ, ◌≤◌, ◌<◌, ◌≡◌, ◌≢◌, ◌⊎◌, refl, sym, true, false, some, inl, inr, arith, ◌==◌, ==_iff, ==_refl,
  Bool-cases, subst, ltb, ltb→lt,
}
use chrono.Prelude.Int.{pos, ◌<ℤ◌}
use chrono.Truetime.Ntp.{NtpSource}
use chrono.Truetime.Ntp.Refresh.{
  absent, created, looping, returned, State, initial, start, enter, tick, exit, parent_done,
  stop_call, stop_return, Move, starts, begins, ticks, exits, parent_ends, stop_calls, stop_skips,
  stop_returns, Reach, here, next,
}
use chrono.Truetime.Ntp.Refresh.Sound.{
  IsSound, initial-IsSound, Reach-IsSound, Move-started, Reach-started, Reach-paced, exit-finished,
  begin-enter,
}

-- With one Start at most, its channel is closed only once its goroutine has returned.
record IsSole (s : State) : Type 0 where
  shut : s.closed 0 ≡ true → s.phase 0 ≡ returned
  calm : s.panicked ≡ false

looping_lt : (s : State) (i : ℕ) → IsSound s → s.phase i ≡ looping → i < s.started
looping_lt s i h live = elim (Bool-cases (ltb i s.started)) [
  | inl e ↦ ltb→lt i s.started e
  | inr e ↦ absurd (ground (arith, h.fresh i))
]

exit-IsSole :
    (s : State) (i : ℕ)
    → IsSound s
    → s.started ≤ 1
    → s.phase i ≡ looping
    → IsSole s
    → IsSole (exit s i)
exit-IsSole s i h once live q =
    let made = looping_lt s i h live in
    let zero_th : i ≡ 0 = omega arith in
    let live0 : s.phase 0 ≡ looping = rw zero_th at live in
    let own : s.deferred 0 ≡ some 0 = h.own 0 (h.latest 0 (omega arith)) live0 in
    let free : s.closed 0 ≡ false = elim (Bool-cases (s.closed 0)) [
      | inl e ↦ cc (q.shut e, live0)
      | inr e ↦ e
    ] in
    rw (zero_th, exit-finished s 0 0 own free)
      (record { shut = λ e. ground (arith, ==_refl 0); calm = q.calm })

enter-IsSole : (s : State) (i : ℕ) → s.phase i ≡ created → IsSole s → IsSole (enter s i)
unfolding enter
enter-IsSole s i new q = record { shut = λ e. ground (arith, q.shut); calm = q.calm }

module _ {Error : Type 0} where
  Move-IsSole :
      {s t : State}
      → Move Error s t
      → pos 0 <ℤ s.source.query_interval
      → IsSound s
      → t.started ≤ 1
      → IsSole s
      → IsSole t
  unfolding start tick parent_done stop_call stop_return
  Move-IsSole {s} (starts idle) pace h once q = record {
    shut = λ e. ground (arith, h.fresh 0);
    calm = q.calm;
  }
  Move-IsSole {s} (begins i new) pace h once q = rw (begin-enter s i pace) (enter-IsSole s i new q)
  Move-IsSole (ticks i reply live) pace h once q = record { shut = q.shut; calm = q.calm }
  Move-IsSole {s} (exits i live done) pace h once q =
      exit-IsSole s i h
        (omega (arith, Move-started {Error = Error} {s = s} {t = exit s i} (exits i live done)))
        live q
  Move-IsSole (parent_ends i) pace h once q = record { shut = q.shut; calm = q.calm }
  Move-IsSole (stop_calls i idle cur) pace h once q = record { shut = q.shut; calm = q.calm }
  Move-IsSole (stop_skips idle unset) pace h once q = q
  Move-IsSole (stop_returns i waiting cur shut) pace h once q = record {
    shut = q.shut;
    calm = q.calm;
  }

  Reach-IsSole :
      (source : NtpSource) {s : State}
      → pos 0 <ℤ source.query_interval
      → Reach Error (initial source) s
      → s.started ≤ 1
      → IsSole s
  unfolding initial
  Reach-IsSole source pace here once = record { shut = λ e. cc; calm = refl }
  Reach-IsSole source pace (next {t} {u} r alive step) once =
      let before : t.started ≤ 1 = omega (arith, Move-started step) in
      Move-IsSole step (subst (λ z. pos 0 <ℤ z) (sym (Reach-paced r)) pace)
        (Reach-IsSound r (initial-IsSound source)) once (Reach-IsSole source pace r before)

-- No goroutine runs or will run, and the source is `source`.
pub record IsQuiet (source : NtpSource) (s : State) : Type 0 where
  pub none_created : (i : ℕ) → s.phase i ≢ created
  pub none_looping : (i : ℕ) → s.phase i ≢ looping
  pub same : s.source ≡ source
  pub calm : s.panicked ≡ false

module _ {Error : Type 0} (source : NtpSource) where
  Move-IsQuiet :
      {s t : State} → Move Error s t → s.started ≡ t.started → IsQuiet source s → IsQuiet source t
  unfolding start parent_done stop_call stop_return
  Move-IsQuiet (starts idle) e q = absurd (omega arith)
  Move-IsQuiet (begins i new) e q = absurd (q.none_created i new)
  Move-IsQuiet (ticks i reply live) e q = absurd (q.none_looping i live)
  Move-IsQuiet (exits i live done) e q = absurd (q.none_looping i live)
  Move-IsQuiet (parent_ends i) e q = record {
    none_created = q.none_created;
    none_looping = q.none_looping;
    same = q.same;
    calm = q.calm;
  }
  Move-IsQuiet (stop_calls i idle cur) e q = record {
    none_created = q.none_created;
    none_looping = q.none_looping;
    same = q.same;
    calm = q.calm;
  }
  Move-IsQuiet (stop_skips idle unset) e q = q
  Move-IsQuiet (stop_returns i waiting cur shut) e q = record {
    none_created = q.none_created;
    none_looping = q.none_looping;
    same = q.same;
    calm = q.calm;
  }

  Reach-IsQuiet :
      {s t : State} → Reach Error s t → s.started ≡ t.started → IsQuiet source s → IsQuiet source t
  Reach-IsQuiet here e q = q
  Reach-IsQuiet (next r alive step) e q =
      Move-IsQuiet step (omega (arith, Reach-started r, Move-started step))
        (Reach-IsQuiet r (omega (arith, Reach-started r, Move-started step)) q)

sole-IsQuiet :
    (s : State) (i : ℕ)
    → IsSound s
    → IsSole s
    → s.started ≤ 1
    → s.current ≡ some i
    → s.closed i ≡ true
    → IsQuiet s.source s
sole-IsQuiet s i h q once cur shut =
    let zero_th : i ≡ 0 = omega (arith, h.last i cur) in
    let over : s.phase 0 ≡ returned = q.shut (rw zero_th at shut) in
    let out : (j : ℕ) → (s.phase j ≡ returned) ⊎ (s.phase j ≡ absent) = λ j.
      elim (Bool-cases (j == 0)) [
        | inl e ↦ inl (rw ((==_iff j 0).0 e) over)
        | inr e ↦ inr (h.fresh j (ground (arith, ==_iff j 0))).0
      ] in
    record {
      none_created = λ j e. elim (out j) [ inl r ↦ cc (r, e) | inr a ↦ cc (a, e) ];
      none_looping = λ j e. elim (out j) [ inl r ↦ cc (r, e) | inr a ↦ cc (a, e) ];
      same = refl;
      calm = q.calm;
    }

-- Where the interval of the queries is positive and Start was called once at most, nothing touches the source once the channel is closed for
-- which Stop waits: whatever steps follow, up to another call of Start, the source stays as it is, no
-- goroutine runs or will run, and nothing has panicked.
pub stop_quiesces :
    {Error : Type 0} (source : NtpSource) {s t : State} (i : ℕ)
    → pos 0 <ℤ source.query_interval
    → Reach Error (initial source) s
    → s.started ≤ 1
    → s.current ≡ some i
    → s.closed i ≡ true
    → Reach Error s t
    → t.started ≡ s.started
    → (t.source ≡ s.source)
      × ((j : ℕ) → (t.phase j ≢ created) × (t.phase j ≢ looping))
      × (t.panicked ≡ false)
stop_quiesces source {s} i pace r once cur shut later same =
    let sound = Reach-IsSound r (initial-IsSound source) in
    let sole = Reach-IsSole source pace r once in
    let quiet =
      Reach-IsQuiet s.source later (sym same) (sole-IsQuiet s i sound sole once cur shut) in
    (quiet.same, λ j. (quiet.none_created j, quiet.none_looping j), quiet.calm)
