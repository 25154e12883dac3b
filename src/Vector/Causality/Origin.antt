-- ===== src/Vector/Causality/Origin.antt =====
-- vector/clock.go: the event that each counter of a stamp comes from.
use chrono.Prelude.{
  ℕ, ◌≤◌, ◌<◌, ◌≡◌, ◌≢◌, refl, sym, ap, ◌∙◌, subst, inl, inr, Option, none, some, false, arith,
  List, ◌∷◌, length, Bool-cases, ◌==◌, ==_iff, ==_refl, eq_of_some,
}
use chrono.Prelude.Strings.{Str, str_eq, str_eq_iff}
use chrono.GoMap.{counter, lookup}
use chrono.Vector.{Clock, Snapshot, new}
use chrono.Vector.Causality.{vector}
use chrono.Vector.Causality.Moves.{Move, Local-Move, Receive-Move}
use chrono.Causal.{
  Event, event_at, update, HappensBefore, program, message, Run, start, local_event, receive_event,
}
use chrono.Causal.Order.{event_at_bound, event_at-cases, event_at_older, event_at_newest}
use chrono.Vector.Causality.Traced.{Origin, Latest, IsTraced, Origin-cons, Origin-through}

module _ (id : ℕ → Str) where
  module _ (apart : (p q : ℕ) → p ≢ q → id p ≢ id q) {cs : ℕ → Clock} {h : List (Event Snapshot)}
      (inv : IsTraced id cs h) (c : Clock) (x : Event Snapshot) (remote : Option Snapshot)
      (mv : Move (cs x.process) c x.stamp remote)
      (sent : (m : Snapshot)
        → remote ≡ some m
        → (i : ℕ) × (e : Event Snapshot) × (event_at h i ≡ some e)
          × (e.stamp ≡ m)
          × (x.source ≡ some i)) where
    own_node : (cs x.process).node_id ≡ id x.process
    own_node = inv.node x.process

    own : counter (cs x.process).vec (id x.process) < counter x.stamp.vec (id x.process)
    own = subst (λ k. counter (cs x.process).vec k < counter x.stamp.vec k) own_node mv.own

    node' : (p : ℕ) → (update cs x.process c p).node_id ≡ id p
    node' p = elim (Bool-cases (p == x.process)) [
      | inl e ↦ rw e (mv.node ∙ (own_node ∙ ap id (sym ((==_iff p x.process).0 e))))
      | inr e ↦ rw e (inv.node p)
    ]

    latest' : (q : ℕ) → Latest id (x ∷ h) q (update cs x.process c q)
    latest' q = elim (Bool-cases (q == x.process)) [
      | inl e ↦
          rw e (inr (length h, x, event_at_newest x h, sym ((==_iff q x.process).0 e), mv.stays))
      | inr e ↦ rw e (elim (inv.latest q) [
        | inl z ↦ inl z
        | inr (j, b, at, pr, v) ↦ inr (j, b, event_at_older x h j b at, pr, v)
      ])
    ]

    other_node : (p : ℕ) → p ≢ x.process → str_eq (cs x.process).node_id (id p) ≡ false
    other_node p n = elim (Bool-cases (str_eq (cs x.process).node_id (id p))) [
      | inl e ↦ absurd (
          apart p x.process n (sym (sym own_node ∙ (str_eq_iff (cs x.process).node_id (id p)).0 e)))
      | inr e ↦ e
    ]

    -- A counter that an earlier event had comes from where that event had it.
    Origin-from :
        (p j v : ℕ) (b : Event Snapshot)
        → event_at h j ≡ some b
        → HappensBefore (x ∷ h) j (length h)
        → counter b.stamp.vec (id p) ≡ v
        → Origin id (x ∷ h) p (length h) v
    Origin-from p j v b at hb e = subst (Origin id (x ∷ h) p (length h)) e (
        Origin-through id (x ∷ h) p j (length h) (counter b.stamp.vec (id p)) hb
          (Origin-cons id x h p j (counter b.stamp.vec (id p)) (inv.origin j p b at)))

    Origin-new : (p : ℕ) → Origin id (x ∷ h) p (length h) (counter x.stamp.vec (id p))
    Origin-new p = elim (Bool-cases (p == x.process)) [
      | inl e ↦
          inr (length h, x, event_at_newest x h, sym ((==_iff p x.process).0 e), refl, inl refl)
      | inr e ↦ elim (mv.others (id p) (other_node p (λ q. ground (arith, ==_iff p x.process)))) [
        | inl same ↦ elim (inv.latest x.process) [
          | inl zero ↦ inl (same ∙ zero (id p))
          | inr (j, b, at, pr, v) ↦
              Origin-from p j _ b at
                (program (event_at_bound h j b at) (event_at_older x h j b at) (event_at_newest x h)
                  pr)
                (ap (λ w. counter w (id p)) v ∙ sym same)
        ]
        | inr (m, is, same) ↦
            let (i, b, at, st, src) = sent m is in
            Origin-from p i _ b at (message (event_at_older x h i b at) (event_at_newest x h) src)
              (ap (λ (w : Snapshot). counter w.vec (id p)) st ∙ sym same)
      ]
    ]

    origin' :
        (j p : ℕ) (b : Event Snapshot)
        → event_at (x ∷ h) j ≡ some b
        → Origin id (x ∷ h) p j (counter b.stamp.vec (id p))
    origin' j p b e = elim (event_at-cases x h j b e) [
      | inl (last, new) ↦ rw last (
          subst
            (λ (y : Event Snapshot). Origin id (x ∷ h) p (length h) (counter y.stamp.vec (id p)))
            new (Origin-new p))
      | inr (_, old) ↦ Origin-cons id x h p j (counter b.stamp.vec (id p)) (inv.origin j p b old)
    ]

    -- An older event of this process has less of its own counter.
    below_new :
        (i : ℕ) (a : Event Snapshot)
        → event_at h i ≡ some a
        → a.process ≡ x.process
        → counter a.stamp.vec (id a.process) < counter x.stamp.vec (id a.process)
    below_new i a at same =
        let seen = inv.seen i a at in
        let more : counter (cs a.process).vec (id a.process) < counter x.stamp.vec (id a.process) =
          rw same own in
        omega (arith, seen, more)

    seen' :
        (i : ℕ) (a : Event Snapshot)
        → event_at (x ∷ h) i ≡ some a
        → counter a.stamp.vec (id a.process)
          ≤ counter (update cs x.process c a.process).vec (id a.process)
    seen' i a e = elim (event_at-cases x h i a e) [
      | inl (_, new) ↦
          subst
            (λ (y : Event Snapshot).
              counter y.stamp.vec (id y.process)
              ≤ counter (update cs x.process c y.process).vec (id y.process))
            new (rw (==_refl x.process) (rw (mv.stays) (omega arith)))
      | inr (_, old) ↦ elim (Bool-cases (a.process == x.process)) [
        | inl q ↦
            let less = below_new i a old ((==_iff a.process x.process).0 q) in
            rw q (rw (← mv.stays) (omega (arith, less)))
        | inr q ↦ rw q (inv.seen i a old)
      ]
    ]

    counted' :
        (i : ℕ) (a : Event Snapshot)
        → event_at (x ∷ h) i ≡ some a
        → 0 < counter a.stamp.vec (id a.process)
    counted' i a e = elim (event_at-cases x h i a e) [
      | inl (_, new) ↦
          subst (λ (y : Event Snapshot). 0 < counter y.stamp.vec (id y.process)) new
            (omega (arith, own))
      | inr (_, old) ↦ inv.counted i a old
    ]

    grows' :
        (i j : ℕ) (a b : Event Snapshot)
        → i < j
        → event_at (x ∷ h) i ≡ some a
        → event_at (x ∷ h) j ≡ some b
        → a.process ≡ b.process
        → counter a.stamp.vec (id a.process) < counter b.stamp.vec (id a.process)
    grows' i j a b lt ea eb same = elim (event_at-cases x h i a ea) [
      | inl (last, _) ↦ elim (event_at-cases x h j b eb) [
        | inl (last', _) ↦ absurd (omega arith)
        | inr (bound, _) ↦ absurd (omega arith)
      ]
      | inr (_, old) ↦ elim (event_at-cases x h j b eb) [
        | inl (_, new) ↦
            let p : a.process ≡ x.process =
              same ∙ ap (λ (y : Event Snapshot). y.process) (sym new) in
            subst
              (λ (y : Event Snapshot).
                counter a.stamp.vec (id a.process) < counter y.stamp.vec (id a.process))
              new (below_new i a old p)
        | inr (_, old') ↦ inv.grows i j a b lt old old' same
      ]
    ]

    Move-IsTraced : IsTraced id (update cs x.process c) (x ∷ h)
    Move-IsTraced = record {
      node = node';
      latest = latest';
      origin = origin';
      seen = seen';
      counted = counted';
      grows = grows';
    }

  -- In an execution from new clocks, every counter comes from an event.
  pub Run-IsTraced :
      (apart : (p q : ℕ) → p ≢ q → id p ≢ id q) {cs : ℕ → Clock} {h : List (Event Snapshot)}
      → Run vector (λ p. new (id p)) cs h
      → IsTraced id cs h
  unfolding new lookup
  Run-IsTraced apart start = record {
    node = λ p. refl;
    latest = λ q. inl (λ k. refl);
    origin = λ j p b e. cc;
    seen = λ i a e. cc;
    counted = λ i a e. cc;
    grows = λ i j a b lt ea eb same. cc;
  }
  Run-IsTraced apart (local_event {cs} {c} {s} p r l) =
      Move-IsTraced apart (Run-IsTraced apart r) c
        (record { process = p; stamp = s; source = none }) none (Local-Move (cs p) c s l)
        (λ m e. cc)
  Run-IsTraced apart (receive_event {cs} {h} {c} {s} {e} p i r at rcv) =
      Move-IsTraced apart (Run-IsTraced apart r) c
        (record { process = p; stamp = s; source = some i }) (some e.stamp)
        (Receive-Move (cs p) c e.stamp s rcv) (λ m is. (i, e, at, eq_of_some is, refl))
