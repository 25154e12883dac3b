-- ===== src/Causal/Order.antt =====
-- The clocks of an execution against the happens-before relation on its events.
use chrono.Prelude.{
  ℕ, ◌<◌, ◌≡◌, ◌⊎◌, refl, sym, ap, none, some, List, [], ◌∷◌, ◌==◌, length, arith, Bool-cases, inl,
  inr, subst, ◌∙◌, ==_iff, ==_refl, false, eq_of_some,
}
use chrono.Causal.{LogicalClock, Event, event_at, update, HappensBefore, program, message, through}
use chrono.Causal.{Run, start, local_event, receive_event}

module _ {ℓ} {A : Type ℓ} where
  pub event_at_bound : (h : List A) (i : ℕ) (a : A) → event_at h i ≡ some a → i < length h
  event_at_bound [] i a e = cc
  event_at_bound (x ∷ h) i a e = ground (arith, event_at_bound h i a)

  -- An event of a longer history is the last one, or one of the history before.
  pub event_at-cases :
      (x : A) (h : List A) (i : ℕ) (a : A)
      → event_at (x ∷ h) i ≡ some a
      → ((i ≡ length h) × (x ≡ a)) ⊎ ((i < length h) × (event_at h i ≡ some a))
  event_at-cases x h i a e = elim (Bool-cases (i == length h)) [
    | inl new ↦ inl ((==_iff i (length h)).0 new, eq_of_some (rw new at e))
    | inr old ↦ let e' : event_at h i ≡ some a = rw old at e in inr (event_at_bound h i a e', e')
  ]

  pub event_at_older :
      (x : A) (h : List A) (i : ℕ) (a : A) → event_at h i ≡ some a → event_at (x ∷ h) i ≡ some a
  event_at_older x h i a e =
      let old : (i == length h) ≡ false = ground (arith, event_at_bound h i a e) in rw old e

  pub event_at_newest : (x : A) (h : List A) → event_at (x ∷ h) (length h) ≡ some x
  event_at_newest x h = rw (==_refl (length h)) refl

-- A longer history keeps what happened before what.
pub HappensBefore-cons :
    {Stamp : Type 0} (x : Event Stamp) {h : List (Event Stamp)} {i j : ℕ}
    → HappensBefore h i j
    → HappensBefore (x ∷ h) i j
HappensBefore-cons x {h} {i} {j} (program {a} {b} lt ea eb same) =
    program lt (event_at_older x h i a ea) (event_at_older x h j b eb) same
HappensBefore-cons x {h} {i} {j} (message {a} {b} ea eb src) =
    message (event_at_older x h i a ea) (event_at_older x h j b eb) src
HappensBefore-cons x (through p q) = through (HappensBefore-cons x p) (HappensBefore-cons x q)

module _ (clock : LogicalClock) where
  open clock use {Clock, Stamp, Local, Receive, Lt, Seen}

  record Inv (cs : ℕ → Clock) (h : List (Event Stamp)) : Type 0 where
    seen : (i : ℕ) (a : Event Stamp) → event_at h i ≡ some a → Seen a.stamp (cs a.process)
    ordered :
        (i j : ℕ) (a b : Event Stamp)
        → i < j
        → event_at h i ≡ some a
        → event_at h j ≡ some b
        → a.process ≡ b.process
        → Lt a.stamp b.stamp
    caused :
        (i j : ℕ) (a b : Event Stamp)
        → event_at h i ≡ some a
        → event_at h j ≡ some b
        → b.source ≡ some i
        → Lt a.stamp b.stamp
    earlier : (i j : ℕ) (b : Event Stamp) → event_at h j ≡ some b → b.source ≡ some i → i < j

  module _ {cs : ℕ → Clock} {h : List (Event Stamp)} (inv : Inv cs h) (c : Clock) (x : Event Stamp)
      (x_seen : Seen x.stamp c) (x_lt : (r : Stamp) → Seen r (cs x.process) → Lt r x.stamp)
      (x_lt_message : (i : ℕ) (a : Event Stamp)
        → event_at h i ≡ some a
        → x.source ≡ some i
        → Lt a.stamp x.stamp)
      (x_earlier : (i : ℕ) → x.source ≡ some i → i < length h) where
    Seen-update : (r : Stamp) (p : ℕ) → Seen r (cs p) → Seen r (update cs x.process c p)
    Seen-update r p old = elim (Bool-cases (p == x.process)) [
      | inl e ↦ rw e (
          clock.seen_of_lt r x.stamp c
            (x_lt r (subst (λ q. Seen r (cs q)) ((==_iff p x.process).0 e) old)) x_seen)
      | inr e ↦ rw e old
    ]

    step-Inv : Inv (update cs x.process c) (x ∷ h)
    step-Inv = record {
      seen = λ i a e. elim (event_at-cases x h i a e) [
        | inl (_, same) ↦
            subst (λ (y : Event Stamp). Seen y.stamp (update cs x.process c y.process)) same
              (rw ((==_iff x.process x.process).1 refl) x_seen)
        | inr (_, old) ↦ Seen-update a.stamp a.process (inv.seen i a old)
      ];
      ordered = λ i j a b lt ea eb same. elim (event_at-cases x h j b eb) [
        | inl (last, new) ↦ elim (event_at-cases x h i a ea) [
          | inl (last', _) ↦ absurd (omega arith)
          | inr (_, old) ↦
              rw (ap (λ (y : Event Stamp). y.stamp) (sym new)) (
                x_lt a.stamp (subst (λ q. Seen a.stamp (cs q)) (cc (same, new)) (inv.seen i a old)))
        ]
        | inr (bound, old') ↦ elim (event_at-cases x h i a ea) [
          | inl (last', _) ↦ absurd (omega arith)
          | inr (_, old) ↦ inv.ordered i j a b lt old old' same
        ]
      ];
      caused = λ i j a b ea eb src. elim (event_at-cases x h j b eb) [
        | inl (last, new) ↦ elim (event_at-cases x h i a ea) [
          | inl (last', _) ↦ absurd (omega (arith, x_earlier i (rw new src)))
          | inr (_, old) ↦
              subst (λ (y : Event Stamp). Lt a.stamp y.stamp) new
                (x_lt_message i a old (rw new src))
        ]
        | inr (bound, old') ↦ elim (event_at-cases x h i a ea) [
          | inl (last', _) ↦ absurd (omega (arith, inv.earlier i j b old' src))
          | inr (_, old) ↦ inv.caused i j a b old old' src
        ]
      ];
      earlier = λ i j b eb src. elim (event_at-cases x h j b eb) [
        | inl (last, new) ↦ omega (arith, x_earlier i (rw new src))
        | inr (_, old) ↦ inv.earlier i j b old src
      ];
    }

  Run-Inv : {init cs : ℕ → Clock} {h : List (Event Stamp)} → Run clock init cs h → Inv cs h
  Run-Inv start = record {
    seen = λ i a e. cc;
    ordered = λ i j a b lt ea eb same. cc;
    caused = λ i j a b ea eb src. cc;
    earlier = λ i j b eb src. cc;
  }
  Run-Inv (local_event {cs} {c} {s} p r l) =
      step-Inv (Run-Inv r) c (record { process = p; stamp = s; source = none })
        (clock.local_seen (cs p) c s l) (λ q old. clock.local_lt (cs p) c q s old l)
        (λ i a e src. cc) (λ i src. cc)
  Run-Inv (receive_event {cs} {h} {c} {s} {e} p i r at rcv) =
      step-Inv (Run-Inv r) c (record { process = p; stamp = s; source = some i })
        (clock.receive_seen (cs p) c e.stamp s rcv)
        (λ q old. clock.receive_lt (cs p) c e.stamp q s old rcv)
        (λ j a ea src.
          let same : i ≡ j = eq_of_some src in
          let ea' : e ≡ a = eq_of_some (sym at ∙ rw same ea) in
          subst (λ (y : Event Stamp). Lt y.stamp s) ea'
            (clock.receive_lt_message (cs p) c e.stamp s rcv))
        (λ j src. let same : i ≡ j = eq_of_some src in rw (← same) (event_at_bound h i e at))

  -- Related events exist, and their stamps are in order.
  abbrev Ordered : List (Event Stamp) → ℕ → ℕ → Type 0
  Ordered h i j =
      (a : Event Stamp) × (b : Event Stamp) × (event_at h i ≡ some a)
      × (event_at h j ≡ some b)
      × Lt a.stamp b.stamp

  HappensBefore-Ordered :
      {cs : ℕ → Clock} {h : List (Event Stamp)} {i j : ℕ}
      → Inv cs h
      → HappensBefore h i j
      → Ordered h i j
  HappensBefore-Ordered {i} {j} inv (program {a} {b} lt ea eb same) =
      (a, b, ea, eb, inv.ordered i j a b lt ea eb same)
  HappensBefore-Ordered {i} {j} inv (message {a} {b} ea eb src) =
      (a, b, ea, eb, inv.caused i j a b ea eb src)
  HappensBefore-Ordered inv (through p q) =
      let (a, b, ea, eb, lt) = HappensBefore-Ordered inv p in
      let (b', c, eb', ec, lt') = HappensBefore-Ordered inv q in
      let same : b' ≡ b = eq_of_some (sym eb' ∙ eb) in
      let lt_bc : Lt b.stamp c.stamp = subst (λ (y : Event Stamp). Lt y.stamp c.stamp) same lt' in
      (a, c, ea, ec, clock.lt_trans a.stamp b.stamp c.stamp lt lt_bc)

  -- In every execution, if one event happens before another, its stamp is the smaller one.
  pub clock_condition :
      {init cs : ℕ → Clock} {h : List (Event Stamp)} {i j : ℕ} {a b : Event Stamp}
      → Run clock init cs h
      → HappensBefore h i j
      → event_at h i ≡ some a
      → event_at h j ≡ some b
      → Lt a.stamp b.stamp
  clock_condition {a} {b} run before ea eb =
      let (a', b', ea', eb', lt) = HappensBefore-Ordered (Run-Inv run) before in
      let same_a : a' ≡ a = eq_of_some (sym ea' ∙ ea) in
      let same_b : b' ≡ b = eq_of_some (sym eb' ∙ eb) in
      subst (λ (y : Event Stamp). Lt y.stamp b.stamp) same_a
        (subst (λ (y : Event Stamp). Lt a'.stamp y.stamp) same_b lt)

  -- In every execution, the clock of a process has seen the stamps of its events.
  pub Run-Seen :
      {init cs : ℕ → Clock} {h : List (Event Stamp)} {a : Event Stamp} (i : ℕ)
      → Run clock init cs h
      → event_at h i ≡ some a
      → Seen a.stamp (cs a.process)
  Run-Seen {a} i run at = (Run-Inv run).seen i a at
