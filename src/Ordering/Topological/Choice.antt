-- ===== src/Ordering/Topological/Choice.antt =====
-- ordering/partial_order.go: the search of TopologicalSort for the next event.
use chrono.Prelude.{
  ℕ, ◌<◌, ◌≡◌, ◌⊎◌, sym, ap, subst, Bool, true, false, none, some, List, [], ◌∷◌, ◌==◌, ==_iff,
  ==_refl, arith, Bool-cases, inl, inr, ◌&&◌, not, eq_of_some,
}
use chrono.Prelude.Sort.{IsOrdered}
use chrono.Ordering.Topological.{choose}
use chrono.Ordering.Topological.Counts.{count, All-count}

-- An index of a list with a head is the head or in the tail.
count-cons : (i x : ℕ) (xs : List ℕ) → 0 < count i (x ∷ xs) → (x ≡ i) ⊎ (0 < count i xs)
count-cons i x xs h = elim (Bool-cases (x == i)) [
  | inl e ↦ inl ((==_iff x i).0 e)
  | inr e ↦ inr (ground arith)
]

module _ (used : ℕ → Bool) (in_deg : ℕ → ℕ) where
  -- An event that may be chosen.
  abbrev pub available : ℕ → Bool
  available i = not (used i) && in_deg i == 0

  pub choose-none :
      (order : List ℕ)
      → choose used in_deg order ≡ none
      → (i : ℕ) → 0 < count i order
      → available i ≡ false
  unfolding choose
  choose-none [] e i h = absurd (omega arith)
  choose-none (x ∷ xs) e i h = elim (Bool-cases (available x)) [
    | inl yes' ↦ cc (rw yes' at e)
    | inr no' ↦ elim (count-cons i x xs h) [
      | inl here ↦ subst (λ j. available j ≡ false) here no'
      | inr later ↦ choose-none xs (rw no' at e) i later
    ]
  ]

  -- The index chosen is available, and no available one is less.
  pub choose-some :
      (less : ℕ → ℕ → Bool) (order : List ℕ) (c : ℕ)
      → ((i : ℕ) → less i i ≡ false)
      → IsOrdered less order
      → choose used in_deg order ≡ some c
      → (available c ≡ true)
        × (0 < count c order)
        × ((i : ℕ) → available i ≡ true → 0 < count i order → less i c ≡ false)
  unfolding choose
  choose-some less [] c irrefl s e = cc
  choose-some less (x ∷ xs) c irrefl (a, s) e = elim (Bool-cases (available x)) [
    | inl yes' ↦
        let here : x ≡ c = eq_of_some (rw yes' at e) in
        (
          subst (λ j. available j ≡ true) here yes',
          ground (arith, ==_iff x c),
          λ i free h. elim (count-cons i x xs h) [
            | inl same ↦ rw (← here) (subst (λ j. less j x ≡ false) same (irrefl x))
            | inr later ↦ rw (← here) (All-count (λ y. less y x ≡ false) xs i a later)
          ],
        )
    | inr no' ↦
        let (free, inside, least) = choose-some less xs c irrefl s (rw no' at e) in
        (
          free,
          omega arith,
          λ i f h. elim (count-cons i x xs h) [
            | inl same ↦ cc (no', f, ap available same)
            | inr later ↦ least i f later
          ],
        )
  ]

module _ (before : ℕ → ℕ → Bool) (p : ℕ → Bool) (irrefl : (i : ℕ) → before i i ≡ false)
    (trans : (i j k : ℕ) → before i j ≡ true → before j k ≡ true → before i k ≡ true) where
  -- An index of the list that passes the test, and that no other such one comes before.
  abbrev IsMinimal : ℕ → List ℕ → Type 0
  IsMinimal m xs =
      (0 < count m xs) × (p m ≡ true) × ((i : ℕ) → 0 < count i xs → p i ≡ true → before i m ≡ false)

  head-IsMinimal :
      (x : ℕ) (xs : List ℕ)
      → p x ≡ true
      → ((i : ℕ) → 0 < count i xs → p i ≡ true → before i x ≡ false)
      → IsMinimal x (x ∷ xs)
  head-IsMinimal x xs px below = (
    ground (arith, ==_refl x),
    px,
    λ i h pi. elim (count-cons i x xs h) [
      | inl same ↦ subst (λ j. before j x ≡ false) same (irrefl x)
      | inr later ↦ below i later pi
    ],
  )

  tail-IsMinimal :
      (x m : ℕ) (xs : List ℕ)
      → (p x ≡ true → before x m ≡ false)
      → IsMinimal m xs
      → IsMinimal m (x ∷ xs)
  tail-IsMinimal x m xs at_head (inside, pm, below) = (
    omega arith,
    pm,
    λ i h pi. elim (count-cons i x xs h) [
      | inl same ↦
          subst (λ j. before j m ≡ false) same (at_head (subst (λ j. p j ≡ true) (sym same) pi))
      | inr later ↦ below i later pi
    ],
  )

  not-before_of_later : (x m i : ℕ) → before x m ≡ true → before i m ≡ false → before i x ≡ false
  not-before_of_later x m i h k = elim (Bool-cases (before i x)) [
    | inl e ↦ cc (trans i x m e h)
    | inr e ↦ e
  ]

  -- A list has none, or a minimal one.
  pub minimal :
      (xs : List ℕ) → ((i : ℕ) → 0 < count i xs → p i ≡ false) ⊎ ((m : ℕ) × IsMinimal m xs)
  minimal [] = inl (λ i h. absurd (omega arith))
  minimal (x ∷ xs) = elim (Bool-cases (p x)) [
    | inr out ↦ elim (minimal xs) [
      | inl empty ↦ inl (λ i h. elim (count-cons i x xs h) [
        | inl same ↦ subst (λ j. p j ≡ false) same out
        | inr later ↦ empty i later
      ])
      | inr (m, least) ↦ inr (m, tail-IsMinimal x m xs (λ px. cc) least)
    ]
    | inl px ↦ elim (minimal xs) [
      | inl empty ↦ inr (x, head-IsMinimal x xs px (λ i h pi. cc (empty i h)))
      | inr (m, least) ↦ elim (Bool-cases (before x m)) [
        | inl first ↦
            inr (
              x,
              head-IsMinimal x xs px (λ i h pi. not-before_of_later x m i first (least.2 i h pi)),
            )
        | inr ok' ↦ inr (m, tail-IsMinimal x m xs (λ q. ok') least)
      ]
    ]
  ]
