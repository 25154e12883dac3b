-- ===== src/Hlc/Causality.antt =====
-- hlc/clock.go as a logical clock: the causality that hlc/doc.go is about.
use chrono.Prelude.{ℕ, ◌≡◌, inl, inr, subst, some, true, false, ap, Bool-cases, List}
use chrono.Prelude.Int.{ℤ}
use chrono.Hlc.{Timestamp, Clock, less, now, receive, merged, ok}
use chrono.Hlc.Timestamps.{Before→less, less_trans, less_irrefl, less_order}
use chrono.Hlc.Advance.{
  HasRoom, new_wall, receive_wall, now-Before, merged-Before_state, merged-Before_remote,
  receive-ok,
}
use chrono.Causal.{LogicalClock, Event, event_at, HappensBefore, Run}
use chrono.Causal.Order.{clock_condition}

-- Now or Send, at some reading of the wall clock, while the logical counter has room.
pub record Local (c c' : Clock) (s : Timestamp) : Type 0 where
  pub pt : ℤ
  pub room : HasRoom c.state (new_wall c pt)
  pub call : now c pt ≡ (c', s)

-- An accepted Receive, while both logical counters have room.
pub record Receive (c : Clock) (remote : Timestamp) (c' : Clock) (s : Timestamp) : Type 0 where
  pub pt : ℤ
  pub room : HasRoom c.state (receive_wall c pt remote)
  pub remote_room : HasRoom remote (receive_wall c pt remote)
  pub call : receive c pt remote ≡ (c', ok s)

-- The state is not below the timestamp.
abbrev pub Seen : Timestamp → Clock → Type 0
Seen s c = less c.state s ≡ false

pub less_of_not_less : (a b c : Timestamp) → less b a ≡ false → less b c ≡ true → less a c ≡ true
less_of_not_less a b c h k = elim ((less_order a b c).2) [
  | inl lt ↦ less_trans a b c lt k
  | inr (inl e) ↦ rw e k
  | inr (inr gt) ↦ cc
]

pub seen_of_less :
    (s t : Timestamp) (c : Clock)
    → less s t ≡ true
    → less c.state t ≡ false
    → less c.state s ≡ false
seen_of_less s t c h k = elim (Bool-cases (less c.state s)) [
  | inl lt ↦ cc (less_trans c.state s t lt h)
  | inr not_lt ↦ not_lt
]

pub Local-state : (c c' : Clock) (s : Timestamp) → Local c c' s → c'.state ≡ s
unfolding now
Local-state c c' s l = cc (l.call)

pub Local-less : (c c' : Clock) (s : Timestamp) → Local c c' s → less c.state s ≡ true
Local-less c c' s l =
    subst (λ t. less c.state t ≡ true) (ap (λ (p : Clock × Timestamp). p.1) l.call)
      (Before→less c.state (now c l.pt).1 (now-Before c l.pt l.room))

pub Receive-state : (c c' : Clock) (m s : Timestamp) → Receive c m c' s → c'.state ≡ s
Receive-state c c' m s r = ap (λ (x : Clock). x.state) (receive-ok c c' r.pt m s r.call).1

pub Receive-less : (c c' : Clock) (m s : Timestamp) → Receive c m c' s → less c.state s ≡ true
Receive-less c c' m s r = rw ((receive-ok c c' r.pt m s r.call).0) (
    Before→less c.state (merged c.state r.pt m)
      (merged-Before_state c.state m r.pt r.room r.remote_room))

pub Receive-less_message : (c c' : Clock) (m s : Timestamp) → Receive c m c' s → less m s ≡ true
Receive-less_message c c' m s r = rw ((receive-ok c c' r.pt m s r.call).0) (
    Before→less m (merged c.state r.pt m)
      (merged-Before_remote c.state m r.pt r.room r.remote_room))

pub Seen-state : (c : Clock) (s : Timestamp) → c.state ≡ s → Seen s c
Seen-state c s e = rw e (less_irrefl s)

abbrev pub hlc : LogicalClock
hlc = record {
  Clock = Clock;
  Stamp = Timestamp;
  Local = Local;
  Receive = Receive;
  Lt = λ s t. less s t ≡ true;
  Seen = Seen;
  lt_trans = less_trans;
  seen_of_lt = seen_of_less;
  local_seen = λ c c' s l. Seen-state c' s (Local-state c c' s l);
  local_lt = λ c c' r s h l. less_of_not_less r c.state s h (Local-less c c' s l);
  receive_seen = λ c c' m s l. Seen-state c' s (Receive-state c c' m s l);
  receive_lt = λ c c' m r s h l. less_of_not_less r c.state s h (Receive-less c c' m s l);
  receive_lt_message = Receive-less_message;
}

-- In every execution of processes with hybrid logical clocks, whatever their wall clocks read and
-- however far they step back, an event that happens before another one has the smaller timestamp,
-- as long as no logical counter is saturated at an event.
pub hlc_clock_condition :
    {init cs : ℕ → Clock} {h : List (Event Timestamp)} {i j : ℕ} {a b : Event Timestamp}
    → Run hlc init cs h
    → HappensBefore h i j
    → event_at h i ≡ some a
    → event_at h j ≡ some b
    → less a.stamp b.stamp ≡ true
hlc_clock_condition run before ea eb = clock_condition hlc run before ea eb
