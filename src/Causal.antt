-- ===== src/Causal.antt =====
-- Executions of processes that each own a logical clock, and Lamport's happens-before relation on
-- their events. The clock packages say in their doc.go that stamps follow this relation; each
-- fills the interface `LogicalClock`.
pub mod Order
use chrono.Prelude.{ℕ, ◌<◌, ◌≡◌, Option, none, some, List, [], ◌∷◌, ◌==◌, if◌then◌else◌, length}

-- What a clock offers. `Local c c' s` says that an event without a message may take the clock from
-- `c` to `c'` and return the stamp `s`, and `Receive c r c' s` that the receipt of `r` may.
-- `Seen s c` says that the clock `c` has issued `s` or a later stamp.
pub record LogicalClock : Type 1 where
  pub Clock : Type 0
  pub Stamp : Type 0
  pub Local : Clock → Clock → Stamp → Type 0
  pub Receive : Clock → Stamp → Clock → Stamp → Type 0
  pub Lt : Stamp → Stamp → Type 0
  pub Seen : Stamp → Clock → Type 0
  pub lt_trans : (r s t : Stamp) → Lt r s → Lt s t → Lt r t
  pub seen_of_lt : (s t : Stamp) (c : Clock) → Lt s t → Seen t c → Seen s c
  pub local_seen : (c c' : Clock) (s : Stamp) → Local c c' s → Seen s c'
  pub local_lt : (c c' : Clock) (r s : Stamp) → Seen r c → Local c c' s → Lt r s
  pub receive_seen : (c c' : Clock) (m s : Stamp) → Receive c m c' s → Seen s c'
  pub receive_lt : (c c' : Clock) (m r s : Stamp) → Seen r c → Receive c m c' s → Lt r s
  pub receive_lt_message : (c c' : Clock) (m s : Stamp) → Receive c m c' s → Lt m s

-- One event: its process, its stamp, and the number of the event whose message it received.
pub record Event (Stamp : Type 0) : Type 0 where
  pub process : ℕ
  pub stamp : Stamp
  pub source : Option ℕ

-- Events are numbered from 0 in the order of the execution; the list has the newest first.
abbrev pub event_at {ℓ} : {A : Type ℓ} → List A → ℕ → Option A
event_at [] i = none
event_at (e ∷ h) i = if i == length h then some e else event_at h i

abbrev pub update {ℓ} : {A : Type ℓ} → (ℕ → A) → ℕ → A → ℕ → A
update cs p c q = if q == p then c else cs q

-- The happens-before relation on the events of a history.
pub data HappensBefore {Stamp : Type 0} (h : List (Event Stamp)) : ℕ → ℕ → Type 0 where
  program :
      {i j : ℕ} {a b : Event Stamp}
      → i < j
      → event_at h i ≡ some a
      → event_at h j ≡ some b
      → a.process ≡ b.process
      → HappensBefore h i j
  message :
      {i j : ℕ} {a b : Event Stamp}
      → event_at h i ≡ some a
      → event_at h j ≡ some b
      → b.source ≡ some i
      → HappensBefore h i j
  through : {i j k : ℕ} → HappensBefore h i j → HappensBefore h j k → HappensBefore h i k

module _ (clock : LogicalClock) where
  open clock use {Clock, Stamp, Local, Receive}

  -- The executions from the clocks `init`: each step is an event of one process, and a receive takes
  -- the stamp of some earlier event. Messages may be lost, repeated and reordered.
  pub data Run (init : ℕ → Clock) : (ℕ → Clock) → List (Event Stamp) → Type 0 where
    start : Run init init []
    local_event :
        {cs : ℕ → Clock} {h : List (Event Stamp)} {c : Clock} {s : Stamp} (p : ℕ)
        → Run init cs h
        → Local (cs p) c s
        → Run init (update cs p c) (record { process = p; stamp = s; source = none } ∷ h)
    receive_event :
        {cs : ℕ → Clock} {h : List (Event Stamp)} {c : Clock} {s : Stamp} {e : Event Stamp}
        (p i : ℕ)
        → Run init cs h
        → event_at h i ≡ some e
        → Receive (cs p) e.stamp c s
        → Run init (update cs p c) (record { process = p; stamp = s; source = some i } ∷ h)
