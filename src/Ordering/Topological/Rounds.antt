-- ===== src/Ordering/Topological/Rounds.antt =====
-- ordering/partial_order.go: the rounds of TopologicalSort's main loop, on any graph.
use chrono.Prelude.{
  ℕ, zero, suc, ◌≤◌, ◌<◌, ◌≡◌, ◌≢◌, refl, sym, ap, ◌∙◌, Bool, true, false, none, some, List, [],
  ◌∷◌, ◌++◌, ==_iff, if◌then◌else◌, arith, Option-cases, inl, inr, ◌&&◌, not, All,
}
use mathlib.Core.List.{append-nil, append_assoc}
use chrono.Prelude.Sort.{IsOrdered}
use chrono.Ordering.Topological.{update, choose, decrement, main_loop}
use chrono.Ordering.Topological.Counts.{
  count, count_if, All-count, count-All, count_if_none, count_if-zero, count_if_without,
}
use chrono.Ordering.Topological.Edges.{edge, decrement_lem}
use chrono.Ordering.Topological.Choice.{available, choose-none, choose-some, minimal}

-- The indices that the main loop chooses, in order.
pub indices : List ℕ → (ℕ → List ℕ) → ℕ → (ℕ → Bool) → (ℕ → ℕ) → List ℕ
indices order succ zero used in_deg = []
indices order succ (suc missing) used in_deg = elim (choose used in_deg order) [
  | none ↦ []
  | some c ↦ c ∷ indices order succ missing (update used c true) (decrement in_deg (succ c))
]

-- What `at` gives at each index of a list.
abbrev pub pick {ℓ} : {E : Type ℓ} → (ℕ → List E) → List ℕ → List E
pick at [] = []
pick at (i ∷ is) = at i ++ pick at is

pub main_loop-indices {ℓ} :
    {E : Type ℓ} (order : List ℕ) (succ : ℕ → List ℕ) (at : ℕ → List E) (missing : ℕ)
    (used : ℕ → Bool) (in_deg : ℕ → ℕ) (out : List E)
    → main_loop order succ at missing used in_deg out
      ≡ out ++ pick at (indices order succ missing used in_deg)
unfolding main_loop indices
main_loop-indices order succ at zero used in_deg out = sym (append-nil out)
main_loop-indices order succ at (suc missing) used in_deg out =
    elim (Option-cases (choose used in_deg order)) [
      | inl e ↦ rw (e, main_loop, indices) (sym (append-nil out))
      | inr (c, e) ↦
          let next =
            main_loop-indices order succ at missing (update used c true) (decrement in_deg (succ c))
              (out ++ at c) in
          rw (e, main_loop, indices) (next ∙ append_assoc out (at c) _)
    ]

pub indices-zero :
    (order : List ℕ) (succ : ℕ → List ℕ) (used : ℕ → Bool) (in_deg : ℕ → ℕ)
    → indices order succ zero used in_deg ≡ []
unfolding indices
indices-zero order succ used in_deg = refl

pub indices-some :
    (order : List ℕ) (succ : ℕ → List ℕ) (missing : ℕ) (used : ℕ → Bool) (in_deg : ℕ → ℕ) (c : ℕ)
    → choose used in_deg order ≡ some c
    → indices order succ (suc missing) used in_deg
      ≡ c ∷ indices order succ missing (update used c true) (decrement in_deg (succ c))
unfolding indices
indices-some order succ missing used in_deg c e = rw (e, indices) refl

-- No index comes before one in front of it.
abbrev pub Respects : (ℕ → ℕ → Bool) → List ℕ → Type 0
Respects before [] = Unit
Respects before (i ∷ rest) = All (λ j. before j i ≡ false) rest × Respects before rest

-- At each place no later index is less that could have stood there: one that nothing comes before
-- among those from this place on.
abbrev pub IsLeast : (ℕ → ℕ → Bool) → (ℕ → ℕ → Bool) → List ℕ → Type 0
IsLeast before less [] = Unit
IsLeast before less (i ∷ rest) =
    All (λ j. All (λ k. before k j ≡ false) (i ∷ rest) → less j i ≡ false) rest
    × IsLeast before less rest

-- inDeg counts the predecessors that are not used, and as many events are not used as are missing.
pub record IsRound (before : ℕ → ℕ → Bool) (all : List ℕ) (missing : ℕ) (used : ℕ → Bool)
    (in_deg : ℕ → ℕ) : Type 0 where
  pub degs : (j : ℕ) → in_deg j ≡ count_if (λ i. not (used i) && edge before i j) all
  pub left : count_if (λ i. not (used i)) all ≡ missing

module _ (before less : ℕ → ℕ → Bool) (all order : List ℕ) (succ : ℕ → List ℕ)
    (irrefl : (i : ℕ) → before i i ≡ false)
    (trans : (i j k : ℕ) → before i j ≡ true → before j k ≡ true → before i k ≡ true)
    (less_irrefl : (i : ℕ) → less i i ≡ false) (ordered : IsOrdered less order)
    (perm : (i : ℕ) → count i order ≡ count i all) (once : (i : ℕ) → count i all ≤ 1)
    (succs : (h j : ℕ) → count j (succ h) ≡ (if edge before h j then count h all else 0)) where
  -- The index that a round chooses.
  record Chosen (used : ℕ → Bool) (in_deg : ℕ → ℕ) (c : ℕ) : Type 0 where
    call : choose used in_deg order ≡ some c
    fresh : used c ≡ false
    free : in_deg c ≡ 0
    inside : count c all ≡ 1
    least : (i : ℕ) → available used in_deg i ≡ true → 0 < count i all → less i c ≡ false

  module _ (missing : ℕ) (used : ℕ → Bool) (in_deg : ℕ → ℕ) where
    in_deg-minimal :
        (m : ℕ)
        → IsRound before all (suc missing) used in_deg
        → ((i : ℕ) → 0 < count i all → not (used i) ≡ true → before i m ≡ false)
        → in_deg m ≡ 0
    in_deg-minimal m r below =
        r.degs m
        ∙ count_if_none (λ i. not (used i) && edge before i m) all
            (λ i h. ground (arith, below i h))

    -- While an event is missing, one is available.
    chosen : IsRound before all (suc missing) used in_deg → (c : ℕ) × Chosen used in_deg c
    chosen r = elim (Option-cases (choose used in_deg order)) [
      | inl e ↦ elim (minimal before (λ i. not (used i)) irrefl trans all) [
        | inl empty ↦ absurd (omega (arith, r.left, count_if_none (λ i. not (used i)) all empty))
        | inr (m, (inside, unused, below)) ↦
            let d = in_deg-minimal m r below in
            absurd (ground (arith, choose-none used in_deg order e m (omega (arith, perm m))))
      ]
      | inr (c, e) ↦
          let (free, inside, least) = choose-some used in_deg less order c less_irrefl ordered e in
          (
            c,
            record {
              call = e;
              fresh = ground arith;
              free = ground arith;
              inside = omega (arith, perm c, once c);
              least = λ i f h. least i f (omega (arith, perm i));
            },
          )
    ]

    module _ (r : IsRound before all (suc missing) used in_deg) (c : ℕ)
        (ch : Chosen used in_deg c) where
      next_degs :
          (j : ℕ)
          → decrement in_deg (succ c) j
            ≡ count_if (λ i. not (update used c true i) && edge before i j) all
      next_degs j =
          let fresh = ch.fresh in
          let split =
            count_if_without (λ i. not (used i) && edge before i j)
              (λ i. not (update used c true i) && edge before i j) c all (ground arith)
              (λ i other. ground (arith, ==_iff i c)) in
          let gone : count j (succ c)
              ≡ (if not (used c) && edge before c j then count c all else 0) =
            rw fresh (succs c j) in
          omega (arith, decrement_lem (succ c) in_deg j, r.degs j, split, gone)

      next_left : count_if (λ i. not (update used c true i)) all ≡ missing
      next_left =
          let fresh = ch.fresh in
          let split =
            count_if_without (λ i. not (used i)) (λ i. not (update used c true i)) c all
              (ground arith) (λ i other. ground (arith, ==_iff i c)) in
          let one : (if not (used c) then count c all else 0) ≡ 1 = rw fresh (ch.inside) in
          omega (arith, split, one, r.left)

      next-IsRound : IsRound before all missing (update used c true) (decrement in_deg (succ c))
      next-IsRound = record { degs = next_degs; left = next_left }

      -- No unused event comes before the chosen one.
      chosen_first : (i : ℕ) → used i ≡ false → 0 < count i all → i ≢ c → before i c ≡ false
      chosen_first i unused h other =
          let none =
            count_if-zero (λ k. not (used k) && edge before k c) all i
              (omega (arith, r.degs c, ch.free)) h in
          ground (arith, ==_iff i c)

  -- The loop chooses each index that is not used once.
  pub count-indices :
      (missing : ℕ) (used : ℕ → Bool) (in_deg : ℕ → ℕ)
      → IsRound before all missing used in_deg
      → (i : ℕ)
      → count i (indices order succ missing used in_deg) ≡ (if not (used i) then count i all else 0)
  count-indices zero used in_deg r i =
      let none = count_if-zero (λ k. not (used k)) all i r.left in
      unfold indices in ground (arith, none)
  count-indices (suc missing) used in_deg r i =
      let (c, ch) = chosen missing used in_deg r in
      let next = next-IsRound missing used in_deg r c ch in
      let fresh = ch.fresh in
      let inside = ch.inside in
      let later = count-indices missing (update used c true) (decrement in_deg (succ c)) next i in
      rw (indices-some order succ missing used in_deg c ch.call)
        (ground (arith, later, ==_iff c i, ==_iff i c))

  pub indices-Respects :
      (missing : ℕ) (used : ℕ → Bool) (in_deg : ℕ → ℕ)
      → IsRound before all missing used in_deg
      → Respects before (indices order succ missing used in_deg)
  indices-Respects zero used in_deg r = unfold indices in tt
  indices-Respects (suc missing) used in_deg r =
      let (c, ch) = chosen missing used in_deg r in
      let next = next-IsRound missing used in_deg r c ch in
      let used' = update used c true in
      let in_deg' = decrement in_deg (succ c) in
      let rest = indices order succ missing used' in_deg' in
      let first : (j : ℕ) → 0 < count j rest → before j c ≡ false = λ j h.
        (let later = count-indices missing used' in_deg' next j in
          chosen_first missing used in_deg r c ch j (ground arith) (ground arith)
            (λ same. ground (arith, ==_iff j c))) in
      rw (indices-some order succ missing used in_deg c ch.call) (
        count-All (λ j. before j c ≡ false) rest first,
        indices-Respects missing used' in_deg' next,
      )

  pub indices-IsLeast :
      (missing : ℕ) (used : ℕ → Bool) (in_deg : ℕ → ℕ)
      → IsRound before all missing used in_deg
      → IsLeast before less (indices order succ missing used in_deg)
  indices-IsLeast zero used in_deg r = unfold indices in tt
  indices-IsLeast (suc missing) used in_deg r =
      let (c, ch) = chosen missing used in_deg r in
      let next = next-IsRound missing used in_deg r c ch in
      let used' = update used c true in
      let in_deg' = decrement in_deg (succ c) in
      let rest = indices order succ missing used' in_deg' in
      let split = indices-some order succ missing used in_deg c ch.call in
      let least : (j : ℕ)
          → 0 < count j rest
          → All (λ k. before k j ≡ false) (c ∷ rest)
          → less j c ≡ false =
        λ j h below.
          (let later = count-indices missing used' in_deg' next j in
            let clear : (k : ℕ) → 0 < count k all → not (used k) ≡ true → before k j ≡ false =
              λ k inside unused.
                All-count (λ k. before k j ≡ false) (c ∷ rest) k below
                  (let n = count-indices (suc missing) used in_deg r k in
                    let here : count k (c ∷ rest) ≡ (if not (used k) then count k all else 0) =
                      sym (ap (count k) split) ∙ n in
                    rw here (ground arith)) in
            let free = in_deg-minimal missing used in_deg j r clear in
            ch.least j (ground arith) (ground arith)) in
      rw split (
        count-All (λ j. All (λ k. before k j ≡ false) (c ∷ rest) → less j c ≡ false) rest least,
        indices-IsLeast missing used' in_deg' next,
      )
