-- ===== src/Ordering/Extremes/Frontier.antt =====
-- ordering/partial_order.go: the loops of MaximalElements and MinimalElements.
use chrono.Prelude.{
  ℕ, suc, ◌+◌, ◌≡◌, refl, sym, ap, ◌∙◌, Bool, true, false, some, List, [], ◌∷◌, ◌++◌, ◌==◌,
  if◌then◌else◌, arith, Bool-cases, inl, inr, get_elem?, eq_of_some, All,
}
use mathlib.Core.List.{append_assoc, append-nil}
use chrono.Ordering.Extremes.{
  Event, is_max_loop, maximal_loop, maximal_elements, is_min_loop, minimal_loop, minimal_elements,
}

-- The events of a list that pass a test, in the order of the list.
unfoldable pub select {ℓ} : {A : Type ℓ} → (A → Bool) → List A → List A
select p [] = []
select p (x ∷ xs) = let rest = select p xs in if p x then x ∷ rest else rest

-- The test passes for no event of the list.
unfoldable pub none_of {ℓ} : {A : Type ℓ} → (A → Bool) → List A → Bool
none_of p [] = true
none_of p (x ∷ xs) = let rest = none_of p xs in if p x then false else rest

module _ {T D : Type 0} (happens_before : T → T → Bool) where
  -- No event of the list happens after `e`; before `e`.
  abbrev pub is_last : List (Event T D) → Event T D → Bool
  is_last events e = none_of (λ f. happens_before e.stamp f.stamp) events

  abbrev pub is_first : List (Event T D) → Event T D → Bool
  is_first events e = none_of (λ f. happens_before f.stamp e.stamp) events

  -- Wherever the index `i` falls into `rest`, which starts at index `j`, the event there is `e`.
  abbrev IsAt : ℕ → Event T D → ℕ → List (Event T D) → Type 0
  IsAt i e j rest = (k : ℕ) (f : Event T D) → get_elem? rest k ≡ some f → i ≡ j + k → f ≡ e

  IsAt-tail :
      (i : ℕ) (e : Event T D) (j : ℕ) (f : Event T D) (rest : List (Event T D))
      → IsAt i e j (f ∷ rest)
      → IsAt i e (j + 1) rest
  IsAt-tail i e j f rest self k g at m = self (suc k) g at (omega arith)

  -- The index test skips only the event itself, which an irreflexive relation passes over anyway.
  is_max_loop_lem :
      (i : ℕ) (e : Event T D) (j : ℕ) (rest : List (Event T D))
      → happens_before e.stamp e.stamp ≡ false
      → IsAt i e j rest
      → is_max_loop happens_before i e j rest ≡ is_last rest e
  unfolding is_max_loop none_of
  is_max_loop_lem i e j [] no_self self = refl
  is_max_loop_lem i e j (f ∷ rest) no_self self =
      let next = is_max_loop_lem i e (j + 1) rest no_self (IsAt-tail i e j f rest self) in
      elim (Bool-cases (i == j)) [
        | inl here ↦
            let same : f ≡ e = self 0 f refl (ground arith) in
            let no : happens_before e.stamp f.stamp ≡ false =
              rw (ap (λ (x : Event T D). x.stamp) same) no_self in
            rw (here, no) next
        | inr other ↦ rw (other, next)
      ]

  is_min_loop_lem :
      (i : ℕ) (e : Event T D) (j : ℕ) (rest : List (Event T D))
      → happens_before e.stamp e.stamp ≡ false
      → IsAt i e j rest
      → is_min_loop happens_before i e j rest ≡ is_first rest e
  unfolding is_min_loop none_of
  is_min_loop_lem i e j [] no_self self = refl
  is_min_loop_lem i e j (f ∷ rest) no_self self =
      let next = is_min_loop_lem i e (j + 1) rest no_self (IsAt-tail i e j f rest self) in
      elim (Bool-cases (i == j)) [
        | inl here ↦
            let same : f ≡ e = self 0 f refl (ground arith) in
            let no : happens_before f.stamp e.stamp ≡ false =
              rw (ap (λ (x : Event T D). x.stamp) same) no_self in
            rw (here, no) next
        | inr other ↦ rw (other, next)
      ]

  -- `rest` is what stands from index `i` on.
  abbrev Suffix : List (Event T D) → ℕ → List (Event T D) → Type 0
  Suffix events i rest = (k : ℕ) → get_elem? rest k ≡ get_elem? events (i + k)

  Suffix-IsAt :
      (events : List (Event T D)) (i : ℕ) (e : Event T D) (rest : List (Event T D))
      → Suffix events i (e ∷ rest)
      → IsAt i e 0 events
  Suffix-IsAt events i e rest suffix k f at m =
      let e' : i + 0 ≡ k = omega arith in
      eq_of_some (sym at ∙ (ap (get_elem? events) (sym e') ∙ sym (suffix 0)))

  Suffix-tail :
      (events : List (Event T D)) (i : ℕ) (e : Event T D) (rest : List (Event T D))
      → Suffix events i (e ∷ rest)
      → Suffix events (i + 1) rest
  Suffix-tail events i e rest suffix k =
      let e' : i + 1 + k ≡ i + suc k = omega arith in rw e' (suffix (suc k))

  maximal_loop-select :
      (events : List (Event T D)) (i : ℕ) (rest out : List (Event T D))
      → All (λ (e : Event T D). happens_before e.stamp e.stamp ≡ false) rest
      → Suffix events i rest
      → maximal_loop happens_before events i rest out ≡ out ++ select (is_last events) rest
  unfolding maximal_loop select
  maximal_loop-select events i [] out _ suffix = sym (append-nil out)
  maximal_loop-select events i (e ∷ rest) out (no_self, others) suffix =
      let test = is_max_loop_lem i e 0 events no_self (Suffix-IsAt events i e rest suffix) in
      rw test (elim (Bool-cases (is_last events e)) [
        | inl yes' ↦ rw yes' (
            maximal_loop-select events (i + 1) rest (out ++ (e ∷ [])) others
              (Suffix-tail events i e rest suffix)
            ∙ append_assoc out (e ∷ []) (select (is_last events) rest))
        | inr no' ↦ rw no' (
            maximal_loop-select events (i + 1) rest out others (Suffix-tail events i e rest suffix))
      ])

  minimal_loop-select :
      (events : List (Event T D)) (i : ℕ) (rest out : List (Event T D))
      → All (λ (e : Event T D). happens_before e.stamp e.stamp ≡ false) rest
      → Suffix events i rest
      → minimal_loop happens_before events i rest out ≡ out ++ select (is_first events) rest
  unfolding minimal_loop select
  minimal_loop-select events i [] out _ suffix = sym (append-nil out)
  minimal_loop-select events i (e ∷ rest) out (no_self, others) suffix =
      let test = is_min_loop_lem i e 0 events no_self (Suffix-IsAt events i e rest suffix) in
      rw test (elim (Bool-cases (is_first events e)) [
        | inl yes' ↦ rw yes' (
            minimal_loop-select events (i + 1) rest (out ++ (e ∷ [])) others
              (Suffix-tail events i e rest suffix)
            ∙ append_assoc out (e ∷ []) (select (is_first events) rest))
        | inr no' ↦ rw no' (
            minimal_loop-select events (i + 1) rest out others (Suffix-tail events i e rest suffix))
      ])

-- Where no event of the input happens before itself, MaximalElements returns the events that happen before no event of
-- the input, and MinimalElements those that no event of the input happens before, each as often as it
-- occurs and in the input's order.
pub extremes-select :
    {T D : Type 0} (happens_before : T → T → Bool) (events : List (Event T D))
    → All (λ (e : Event T D). happens_before e.stamp e.stamp ≡ false) events
    → (maximal_elements happens_before events ≡ select (is_last happens_before events) events)
      × (minimal_elements happens_before events ≡ select (is_first happens_before events) events)
unfolding maximal_elements minimal_elements
extremes-select happens_before events irrefl =
    let whole = λ (k : ℕ). (let e : 0 + k ≡ k = omega arith in ap (get_elem? events) (sym e)) in
    (
      maximal_loop-select happens_before events 0 events [] irrefl whole,
      minimal_loop-select happens_before events 0 events [] irrefl whole,
    )
