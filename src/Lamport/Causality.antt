-- ===== src/Lamport/Causality.antt =====
-- lamport/clock.go as a logical clock: the clock condition that lamport/doc.go is about, and the
-- size of the stamps of an execution.
use chrono.Prelude.{
  ℕ, ◌+◌, ◌≤◌, ◌<◌, ◌≡◌, ◌⊎◌, some, List, ◌∷◌, length, max, arith, Bool-cases, inl, inr, ◌==◌, none,
  refl,
}
use chrono.Prelude.Words.{u64}
use chrono.Lamport.{Clock, new, tick, send, receive}
use chrono.Lamport.Bounds.{max_u64}
use chrono.Causal.{
  LogicalClock, Event, event_at, update, HappensBefore, Run, start, local_event, receive_event,
}
use chrono.Causal.Order.{clock_condition}

-- A Tick or a Send while the counter can still grow.
abbrev pub Local : Clock → Clock → ℕ → Type 0
Local c c' s = (c.counter < max_u64) × ((tick c ≡ (c', s)) ⊎ (send c ≡ (c', s)))

-- A Receive while the larger of the counter and the stamp can still grow.
abbrev pub Receive : Clock → ℕ → Clock → ℕ → Type 0
Receive c remote c' s = (max c.counter remote < max_u64) × (receive c remote ≡ (c', s))

abbrev pub Seen : ℕ → Clock → Type 0
Seen s c = s ≤ c.counter

pub local_lem : (c c' : Clock) (s : ℕ) → Local c c' s → (s ≡ c.counter + 1) × (c'.counter ≡ s)
unfolding tick send
local_lem c c' s h = ground arith

pub receive_lem :
    (c c' : Clock) (m s : ℕ) → Receive c m c' s → (s ≡ max c.counter m + 1) × (c'.counter ≡ s)
unfolding receive
receive_lem c c' m s h = ground arith

abbrev pub lamport : LogicalClock
lamport = record {
  Clock = Clock;
  Stamp = ℕ;
  Local = Local;
  Receive = Receive;
  Lt = λ s t. s < t;
  Seen = Seen;
  lt_trans = λ r s t h k. omega arith;
  seen_of_lt = λ s t c h k. omega arith;
  local_seen = λ c c' s l. omega (arith, local_lem c c' s l);
  local_lt = λ c c' r s h l. omega (arith, local_lem c c' s l);
  receive_seen = λ c c' m s l. omega (arith, receive_lem c c' m s l);
  receive_lt = λ c c' m r s h l. omega (arith, receive_lem c c' m s l);
  receive_lt_message = λ c c' m s l. omega (arith, receive_lem c c' m s l);
}

-- In every execution of processes with Lamport clocks, whatever the clocks they start from, an
-- event that happens before another one has the smaller stamp, as long as neither the counter nor
-- the stamp received is the largest uint64 at an event.
pub lamport_clock_condition :
    {init cs : ℕ → Clock} {h : List (Event ℕ)} {i j : ℕ} {a b : Event ℕ}
    → Run lamport init cs h
    → HappensBefore h i j
    → event_at h i ≡ some a
    → event_at h j ≡ some b
    → a.stamp < b.stamp
lamport_clock_condition run before ea eb = clock_condition lamport run before ea eb

-- No clock and no stamp exceeds the number of events so far.
record Few (cs : ℕ → Clock) (h : List (Event ℕ)) : Type 0 where
  clocks : (p : ℕ) → (cs p).counter ≤ length h
  stamps : (i : ℕ) (a : Event ℕ) → event_at h i ≡ some a → a.stamp ≤ length h

step-Few :
    {cs : ℕ → Clock} {h : List (Event ℕ)} (c : Clock) (x : Event ℕ)
    → Few cs h
    → c.counter ≤ length h + 1
    → x.stamp ≤ length h + 1
    → Few (update cs x.process c) (x ∷ h)
step-Few {cs} {h} c x few hc hx = record {
  clocks = λ p. elim (Bool-cases (p == x.process)) [
    | inl e ↦ rw e (omega arith)
    | inr e ↦ rw e (omega (arith, few.clocks p))
  ];
  stamps = λ i a e. ground (arith, few.stamps i a);
}

Run-Few : {cs : ℕ → Clock} {h : List (Event ℕ)} → Run lamport (λ _. new) cs h → Few cs h
unfolding new
Run-Few start = record { clocks = λ p. omega arith; stamps = λ i a e. cc }
Run-Few (local_event {cs} {c} {s} p r l) =
    let few = Run-Few r in
    step-Few c _ few (omega (arith, local_lem (cs p) c s l, few.clocks p))
      (omega (arith, local_lem (cs p) c s l, few.clocks p))
Run-Few (receive_event {cs} {c} {s} {e} p i r at l) =
    let few = Run-Few r in
    step-Few c _ few
      (omega (arith, receive_lem (cs p) c e.stamp s l, few.clocks p, few.stamps i e at))
      (omega (arith, receive_lem (cs p) c e.stamp s l, few.clocks p, few.stamps i e at))

ticks :
    (c : Clock) → c.counter < max_u64 → Local c (record { counter = c.counter + 1 }) (c.counter + 1)
unfolding tick
ticks c room = let e : u64 (c.counter + 1) ≡ c.counter + 1 = omega arith in (room, inl (rw e refl))

receives :
    (c : Clock) (remote : ℕ)
    → max c.counter remote < max_u64
    → Receive c remote (record { counter = max c.counter remote + 1 }) (max c.counter remote + 1)
unfolding receive
receives c remote room =
    let e : u64 (max c.counter remote + 1) ≡ max c.counter remote + 1 = omega arith in
    (room, rw e refl)

-- In an execution from new clocks no counter and no stamp exceeds the number of events. While there are
-- fewer than 2 ^ 64 - 1 of them, the execution can go on at every process without a wrap: with an event
-- of its own, whose stamp is one more than its counter, and with the receipt of any earlier stamp, whose
-- stamp is one more than the larger of the two.
pub no_saturation :
    {cs : ℕ → Clock} {h : List (Event ℕ)}
    → Run lamport (λ _. new) cs h
    → length h < max_u64
    → (p : ℕ)
    → ((cs p).counter ≤ length h)
      × ((c : Clock) × Run lamport
            (λ _. new)
            (update cs p c)
            (record { process = p; stamp = (cs p).counter + 1; source = none } ∷ h))
      × ((i : ℕ) (a : Event ℕ)
          → event_at h i ≡ some a
          → (a.stamp ≤ length h)
            × ((c : Clock) × Run lamport
                  (λ _. new)
                  (update cs p c)
                  (record { process = p; stamp = max (cs p).counter a.stamp + 1; source = some i }
                    ∷ h)))
no_saturation {cs} run short p =
    let few = Run-Few run in
    (
      few.clocks p,
      (
        record { counter = (cs p).counter + 1 },
        local_event p run (ticks (cs p) (omega (arith, few.clocks p))),
      ),
      λ i a at. (
        few.stamps i a at,
        (
          record { counter = max (cs p).counter a.stamp + 1 },
          receive_event p i run at
              (receives (cs p) a.stamp (omega (arith, few.clocks p, few.stamps i a at))),
        ),
      ),
    )
