-- ===== src/LamportMessaging/Schedules.antt =====
-- examples/lamport_messaging/main.go: the runs of main under every schedule of its goroutines.
use chrono.Prelude.{
  ℕ, zero, suc, ◌+◌, ◌≤◌, ◌≡◌, ◌⊎◌, refl, true, Option, none, some, List, [], ◌∷◌, ◌++◌, All,
  All-append, Option-cases, Bool-cases, inl, inr, arith, if◌then◌else◌,
}
use chrono.Prelude.Strings.{Str, str_lt}
use chrono.Prelude.Sort.{sort_stable, sort_insert}
use chrono.Lamport.{new, tick, send, receive}
use chrono.LamportMessaging.{
  Event, Main, started, add_event, tick_left, tick_right, record_left, record_right, send_left,
  send_right, receive_left, receive_right, step_left, step_right, is_finished, event_less,
  sorted_events,
}
use chrono.LamportMessaging.Texts.{
  a, b, tick_kind, send_kind, recv_kind, hello, world, loading_config, init_complete, hello_to_b,
  from_b, shutting_down, warming_up, from_a, world_to_a,
}

module _ (quoted : Str → Str) where
  -- One of the goroutines takes a step.
  pub data Step (s : Main) : Main → Type 0 where
    left_step : {t : Main} → step_left quoted s.left.at s ≡ some t → Step s t
    right_step : {t : Main} → step_right quoted s.right.at s ≡ some t → Step s t

  -- A number of steps of main.
  pub data Run : ℕ → Main → Type 0 where
    begin : Run 0 started
    step : {n : ℕ} {s t : Main} → Run n s → Step s t → Run (suc n) t

  -- What main prints, with the stamps in their order.
  abbrev pub output : List Event
  output =
      record { process = a; kind = tick_kind; detail = loading_config; stamp = 1 }
      ∷ record { process = b; kind = tick_kind; detail = warming_up; stamp = 1 }
      ∷ record { process = a; kind = tick_kind; detail = init_complete; stamp = 2 }
      ∷ record { process = a; kind = send_kind; detail = hello_to_b; stamp = 3 }
      ∷ record { process = b; kind = recv_kind; detail = quoted hello ++ from_a; stamp = 4 }
      ∷ record { process = b; kind = send_kind; detail = world_to_a; stamp = 5 }
      ∷ record { process = a; kind = recv_kind; detail = quoted world ++ from_b; stamp = 6 }
      ∷ record { process = a; kind = tick_kind; detail = shutting_down; stamp = 7 }
      ∷ []

  abbrev if_stuck : Main → Option Main → Option Main → List (List Event)
  if_stuck s none none = (if is_finished s then sorted_events s else []) ∷ []
  if_stuck s none (some u) = []
  if_stuck s (some t) r = []

  abbrev continue : (Main → List (List Event)) → Option Main → List (List Event)
  continue f none = []
  continue f (some t) = f t

  -- What is printed at the ends of the schedules from a state, of `n` steps at most. A schedule that
  -- is longer, or stuck before the goroutines are done, prints nothing.
  abbrev outputs : ℕ → Main → List (List Event)
  outputs zero s = [] ∷ []
  outputs (suc n) s =
      let l = step_left quoted s.left.at s in
      let r = step_right quoted s.right.at s in
      if_stuck s l r ++ (continue (outputs n) l ++ continue (outputs n) r)

  abbrev copies : ℕ → List (List Event)
  copies zero = []
  copies (suc n) = output ∷ copies n

  outputs_all : outputs 13 started ≡ copies 72
  unfolding started step_left step_right tick_left tick_right add_event record_left record_right
      send_left send_right receive_left receive_right is_finished event_less sorted_events
      sort_stable sort_insert str_lt new tick send receive
  outputs_all = refl

  abbrev IsOutput : List Event → Type 0
  IsOutput l = l ≡ output

  copies-IsOutput : (n : ℕ) → All IsOutput (copies n)
  copies-IsOutput zero = tt
  copies-IsOutput (suc n) = (refl, copies-IsOutput n)

  tails-IsOutput :
      (n : ℕ) (s : Main)
      → All IsOutput (outputs (suc n) s)
      → All IsOutput (if_stuck s (step_left quoted s.left.at s) (step_right quoted s.right.at s))
        × All IsOutput (
            continue (outputs n) (step_left quoted s.left.at s)
            ++ continue (outputs n) (step_right quoted s.right.at s))
  tails-IsOutput n s h =
      let l = step_left quoted s.left.at s in
      let r = step_right quoted s.right.at s in
      All-append IsOutput (if_stuck s l r) (continue (outputs n) l ++ continue (outputs n) r) h

  -- The rest of a schedule after its first step.
  Step-IsOutput :
      (n : ℕ) (s t : Main)
      → Step s t
      → All IsOutput (outputs (suc n) s)
      → All IsOutput (outputs n t)
  Step-IsOutput n s t (left_step e) h =
      let (front, tails) = tails-IsOutput n s h in
      rw e at
        (All-append IsOutput (continue (outputs n) (step_left quoted s.left.at s))
          (continue (outputs n) (step_right quoted s.right.at s)) tails).0
  Step-IsOutput n s t (right_step e) h =
      let (front, tails) = tails-IsOutput n s h in
      rw e at
        (All-append IsOutput (continue (outputs n) (step_left quoted s.left.at s))
          (continue (outputs n) (step_right quoted s.right.at s)) tails).1

  later-IsOutput :
      (n m : ℕ) (s t : Main)
      → n + m ≡ 13
      → All IsOutput (outputs m s)
      → Step s t
      → (k : ℕ) × (suc n + k ≡ 13) × All IsOutput (outputs k t)
  later-IsOutput n zero s t e (p, h) st = cc p
  later-IsOutput n (suc m) s t e h st = (m, omega (arith, e), Step-IsOutput m s t st h)

  Run-IsOutput : {n : ℕ} {t : Main} → Run n t → (m : ℕ) × (n + m ≡ 13) × All IsOutput (outputs m t)
  Run-IsOutput begin = (13, refl, rw outputs_all (copies-IsOutput 72))
  Run-IsOutput (step {n} {s} {t} run st) =
      let (m, e, h) = Run-IsOutput run in later-IsOutput n m s t e h st

  finished-IsOutput :
      (s : Main)
      → (if is_finished s then sorted_events s else []) ≡ output
      → (is_finished s ≡ true) × (sorted_events s ≡ output)
  finished-IsOutput s h = elim (Bool-cases (is_finished s)) [
    | inl e ↦ (e, rw e at h)
    | inr e ↦ (let nothing : [] ≡ output = rw e at h in cc nothing)
  ]

  -- A state that the schedules reach with steps to spare.
  ends :
      (n m : ℕ) (t : Main)
      → n + m ≡ 13
      → All IsOutput (outputs m t)
      → (n ≤ 12) × (((is_finished t ≡ true) × (sorted_events t ≡ output)) ⊎ ((u : Main) × Step t u))
  ends n zero t e (p, h) = cc p
  ends n (suc m) t e h = (
    omega (arith, e),
    elim (Option-cases (step_left quoted t.left.at t)) [
      | inr (u, l) ↦ inr (u, left_step l)
      | inl l ↦ elim (Option-cases (step_right quoted t.right.at t)) [
        | inr (u, r) ↦ inr (u, right_step r)
        | inl r ↦
            let front = (tails-IsOutput m t h).0 in
            let stuck : All IsOutput (if_stuck t none none) = rw (l, r) at front in
            inl (finished-IsOutput t stuck.0)
      ]
    ],
  )

-- Under every schedule of its two goroutines main ends, after 12 steps at most, and prints the same
-- events in the same order: as long as the two are not both done, one of them can take a step, and
-- once they are, the sorted events are `output`, whatever the order in which they were recorded.
pub schedule_output :
    (quoted : Str → Str) (n : ℕ) (t : Main)
    → Run quoted n t
    → (n ≤ 12)
      × (((is_finished t ≡ true) × (sorted_events t ≡ output quoted))
          ⊎ ((u : Main) × Step quoted t u))
schedule_output quoted n t run = let (m, e, h) = Run-IsOutput quoted run in ends quoted n m t e h
