-- ===== src/Vector/Causality/Traced.antt =====
-- vector/clock.go: what a counter of a stamp says of the events of an execution.
use chrono.Prelude.{ℕ, ◌≤◌, ◌<◌, ◌≡◌, ◌⊎◌, sym, subst, inl, inr, some, List, ◌∷◌}
use chrono.Prelude.Strings.{Str}
use chrono.GoMap.{counter}
use chrono.Vector.{Clock, Snapshot}
use chrono.Causal.{Event, event_at, HappensBefore, through}
use chrono.Causal.Order.{event_at_older, HappensBefore-cons}

module _ (id : ℕ → Str) where
  -- The counter `v` of the process `p`, as an event with the number `j` has it, is 0 or is the own
  -- counter of an event of `p` that is this event or happened before it.
  abbrev pub Origin : List (Event Snapshot) → ℕ → ℕ → ℕ → Type 0
  Origin h p j v =
      (v ≡ 0)
      ⊎ ((i : ℕ) × (a : Event Snapshot) × (event_at h i ≡ some a)
          × (a.process ≡ p)
          × (counter a.stamp.vec (id p) ≡ v)
          × ((i ≡ j) ⊎ HappensBefore h i j))

  -- The vector of a clock is empty, or that of the stamp of an event of its process.
  abbrev pub Latest : List (Event Snapshot) → ℕ → Clock → Type 0
  Latest h q c =
      ((k : Str) → counter c.vec k ≡ 0)
      ⊎ ((j : ℕ) × (b : Event Snapshot) × (event_at h j ≡ some b)
          × (b.process ≡ q)
          × (b.stamp.vec ≡ c.vec))

  pub record IsTraced (cs : ℕ → Clock) (h : List (Event Snapshot)) : Type 0 where
    pub node : (p : ℕ) → (cs p).node_id ≡ id p
    pub latest : (q : ℕ) → Latest h q (cs q)
    pub origin :
        (j p : ℕ) (b : Event Snapshot)
        → event_at h j ≡ some b
        → Origin h p j (counter b.stamp.vec (id p))
    pub seen :
        (i : ℕ) (a : Event Snapshot)
        → event_at h i ≡ some a
        → counter a.stamp.vec (id a.process) ≤ counter (cs a.process).vec (id a.process)
    pub counted :
        (i : ℕ) (a : Event Snapshot)
        → event_at h i ≡ some a
        → 0 < counter a.stamp.vec (id a.process)
    pub grows :
        (i j : ℕ) (a b : Event Snapshot)
        → i < j
        → event_at h i ≡ some a
        → event_at h j ≡ some b
        → a.process ≡ b.process
        → counter a.stamp.vec (id a.process) < counter b.stamp.vec (id a.process)

  pub Origin-cons :
      (x : Event Snapshot) (h : List (Event Snapshot)) (p j v : ℕ)
      → Origin h p j v
      → Origin (x ∷ h) p j v
  Origin-cons x h p j v (inl e) = inl e
  Origin-cons x h p j v (inr (i, a, at, pr, c, inl e)) =
      inr (i, a, event_at_older x h i a at, pr, c, inl e)
  Origin-cons x h p j v (inr (i, a, at, pr, c, inr hb)) =
      inr (i, a, event_at_older x h i a at, pr, c, inr (HappensBefore-cons x hb))

  -- What an event knows, every event after it knows.
  pub Origin-through :
      (h : List (Event Snapshot)) (p j k v : ℕ)
      → HappensBefore h j k
      → Origin h p j v
      → Origin h p k v
  Origin-through h p j k v hb (inl e) = inl e
  Origin-through h p j k v hb (inr (i, a, at, pr, c, inl e)) =
      inr (i, a, at, pr, c, inr (subst (λ n. HappensBefore h n k) (sym e) hb))
  Origin-through h p j k v hb (inr (i, a, at, pr, c, inr hb')) =
      inr (i, a, at, pr, c, inr (through hb' hb))
