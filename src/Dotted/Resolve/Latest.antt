-- ===== src/Dotted/Resolve/Latest.antt =====
-- dotted/resolve.go: which sibling ResolveLatestWriteWins returns.
use chrono.Prelude.{
  ℕ, suc, ◌+◌, ◌≤◌, ◌<◌, ◌≡◌, ◌⊎◌, refl, sym, ◌∙◌, ap, false, none, some, List, [], ◌∷◌, ltb,
  get_elem?, get_elem?_bound, arith, Bool-cases, inl, inr, ltb→lt, length, subst, eq_of_some,
}
use chrono.Dotted.Resolve.{Sibling, dot_sum, best_loop, resolve_latest_write_wins}

split : (j i : ℕ) → j < i + 1 → (j < i) ⊎ (j ≡ i)
split j i h = grind arith

not_ltb : (a b : ℕ) → ltb a b ≡ false → b ≤ a
not_ltb a b h = ground arith

module _ {ℓ} {T : Type ℓ} where
  -- `b` is the first index below `i` with the largest sum, which is `sum`.
  record Best (l : List (Sibling T)) (i b sum : ℕ) : Type ℓ where
    winner : Sibling T
    at : get_elem? l b ≡ some winner
    sum_lem : sum ≡ dot_sum winner.version
    most : (j : ℕ) (t : Sibling T) → j < i → get_elem? l j ≡ some t → dot_sum t.version ≤ sum
    first : (j : ℕ) (t : Sibling T) → j < b → get_elem? l j ≡ some t → dot_sum t.version < sum

  module _ (l : List (Sibling T)) (i b sum : ℕ) (x : Sibling T) (e : get_elem? l i ≡ some x) where
    sum_at :
        (j : ℕ) (t : Sibling T)
        → j ≡ i
        → get_elem? l j ≡ some t
        → dot_sum t.version ≡ dot_sum x.version
    sum_at j t same at =
        ap (λ (s : Sibling T). dot_sum s.version)
          (eq_of_some (sym at ∙ ap (λ k. get_elem? l k) same ∙ e))

    most_next :
        (top : ℕ)
        → ((j : ℕ) (t : Sibling T) → j < i → get_elem? l j ≡ some t → dot_sum t.version ≤ top)
        → dot_sum x.version ≤ top
        → (j : ℕ) (t : Sibling T) → j < i + 1
        → get_elem? l j ≡ some t
        → dot_sum t.version ≤ top
    most_next top most le j t m at = elim (split j i m) [
      | inl old ↦ most j t old at
      | inr new ↦ omega (arith, sum_at j t new at)
    ]

    take_new : sum < dot_sum x.version → Best l i b sum → Best l (i + 1) i (dot_sum x.version)
    take_new lt h = record {
      winner = x;
      at = e;
      sum_lem = refl;
      most =
          most_next (dot_sum x.version) (λ j t m at. omega (arith, h.most j t m at)) (omega arith);
      first = λ j t m at. omega (arith, h.most j t m at);
    }

    keep_old : dot_sum x.version ≤ sum → Best l i b sum → Best l (i + 1) b sum
    keep_old le h = record {
      winner = h.winner;
      at = h.at;
      sum_lem = h.sum_lem;
      most = most_next sum h.most le;
      first = h.first;
    }

  best_loop-Best :
      (l rest : List (Sibling T)) (i b sum : ℕ)
      → ((k : ℕ) → get_elem? rest k ≡ get_elem? l (i + k))
      → Best l i b sum
      → (top : ℕ) × Best l (i + length rest) (best_loop rest i b sum) top
  unfolding best_loop
  best_loop-Best l [] i b sum same h =
      (sum, subst (λ n. Best l n b sum) (let e : i ≡ i + 0 = omega arith in e) h)
  best_loop-Best l (x ∷ rest) i b sum same h = elim (Bool-cases (ltb sum (dot_sum x.version))) [
    | inl lt ↦
        rw (lt, shift_length)
          (best_loop-Best l rest (i + 1) i (dot_sum x.version) next
            (take_new l i b sum x here (ltb→lt sum (dot_sum x.version) lt) h))
    | inr ge ↦
        rw (ge, shift_length)
          (best_loop-Best l rest (i + 1) b sum next
            (keep_old l i b sum x here (not_ltb sum (dot_sum x.version) ge) h))
  ]
    where
      here : get_elem? l i ≡ some x
      here = let e : i + 0 ≡ i = omega arith in rw (← e) (sym (same 0))

      next : (k : ℕ) → get_elem? rest k ≡ get_elem? l (i + 1 + k)
      next k = let e : i + 1 + k ≡ i + suc k = omega arith in rw e (same (suc k))

      shift_length : i + suc (length rest) ≡ i + 1 + length rest
      shift_length = omega arith

  -- On an empty slice ResolveLatestWriteWins panics. On any other it returns the sibling at some
  -- index `b`: none has a larger sum of counters, and those before it have a smaller one. (The sums
  -- are those that the code computes, modulo 2 ^ 64.)
  pub resolve_latest_first :
      (x : Sibling T) (xs : List (Sibling T))
      → (resolve_latest_write_wins {T = T} [] ≡ none)
        × ((b : ℕ) × (s : Sibling T) × (resolve_latest_write_wins (x ∷ xs) ≡ some s)
            × (get_elem? (x ∷ xs) b ≡ some s)
            × ((j : ℕ) (t : Sibling T)
                → get_elem? (x ∷ xs) j ≡ some t
                → (dot_sum t.version ≤ dot_sum s.version)
                  × (j < b → dot_sum t.version < dot_sum s.version)))
  unfolding resolve_latest_write_wins
  resolve_latest_first x xs =
      let (top, h) =
        best_loop-Best (x ∷ xs) (x ∷ xs) 0 0 (dot_sum x.version)
          (λ k. let e : 0 + k ≡ k = omega arith in rw e) start in
      (
        refl,
        (
          best_loop (x ∷ xs) 0 0 (dot_sum x.version),
          h.winner,
          h.at,
          h.at,
          λ j t at. (
            omega
                (arith, h.sum_lem, h.most j t (omega (arith, get_elem?_bound (x ∷ xs) j t at)) at),
            λ lt. omega (arith, h.sum_lem, h.first j t lt at),
          ),
        ),
      )
    where
      start : Best (x ∷ xs) 0 0 (dot_sum x.version)
      start = record {
        winner = x;
        at = refl;
        sum_lem = refl;
        most = λ j t m at. absurd (omega arith);
        first = λ j t m at. absurd (omega arith);
      }
