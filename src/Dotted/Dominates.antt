-- ===== src/Dotted/Dominates.antt =====
-- dotted/version.go: the loops of Dominates against the strict order of the counters.
use chrono.Prelude.{
  ℕ, ◌≤◌, ◌<◌, ◌≡◌, ◌↔◌, refl, Bool, true, false, none, some, Option, [], ◌∷◌, ltb, if◌then◌else◌,
  arith, All, Bool-cases, Option-cases, inl, inr, ◌≢◌,
}
use chrono.Prelude.Strings.{Str}
use chrono.GoMap.{Counters, lookup, counter, IsMap}
use chrono.GoMap.Entries.{All-lookup, lookup-All}
use chrono.GoMap.Loops.{IsPositive}
use chrono.Dotted.{Version, strict_loop, extra_loop, verdict, dominates}
use chrono.Dotted.Causal.{Within}

abbrev EntriesLe : Counters → Counters → Type 0
EntriesLe dots m = All (λ (e : Str × ℕ). e.1 ≤ counter dots e.0) m

abbrev EntriesEq : Counters → Counters → Type 0
EntriesEq dots m = All (λ (e : Str × ℕ). e.1 ≡ counter dots e.0) m

abbrev has : Counters → Str → Bool
has m k = elim (lookup k m) [ none ↦ false | some _ ↦ true ]

abbrev AllPresent : Counters → Counters → Type 0
AllPresent other m = All (λ (e : Str × ℕ). has other e.0 ≡ true) m

strict_loop-some :
    (dots m : Counters) (s b : Bool) → strict_loop dots m s ≡ some b → EntriesLe dots m
unfolding strict_loop
strict_loop-some dots [] s b e = tt
strict_loop-some dots ((k, c) ∷ m) s b e =
    ground (arith, strict_loop-some dots m (if ltb c (counter dots k) then true else s) b)

strict_loop-none : (dots m : Counters) (s : Bool) → EntriesLe dots m → strict_loop dots m s ≢ none
unfolding strict_loop
strict_loop-none dots [] s h e = cc
strict_loop-none dots ((k, c) ∷ m) s h e =
    ground (arith, strict_loop-none dots m (if ltb c (counter dots k) then true else s))

strict_loop-false :
    (dots m : Counters) (s : Bool)
    → (strict_loop dots m s ≡ some false) ↔ ((s ≡ false) × EntriesEq dots m)
unfolding strict_loop
strict_loop-false dots [] s = ground arith
strict_loop-false dots ((k, c) ∷ m) s =
    ground (arith, strict_loop-false dots m (if ltb c (counter dots k) then true else s))

extra_loop-false : (other m : Counters) → (extra_loop other m ≡ false) ↔ AllPresent other m
unfolding extra_loop
extra_loop-false other [] = ground arith
extra_loop-false other ((k, c) ∷ m) = ground (arith, extra_loop-false other m)

module _ {r : Option Bool} (extra : Bool) {P : Type 0} where
  verdict-none : r ≡ none → ¬ P → (verdict r extra ≡ true) ↔ P
  unfolding verdict
  verdict-none e n = rw e (λ f. cc, λ h. absurd (n h))

  verdict-true : r ≡ some true → P → (verdict r extra ≡ true) ↔ P
  unfolding verdict
  verdict-true e h = rw e (λ f. h, λ _. refl)

  verdict-false : r ≡ some false → (extra ≡ true) ↔ P → (verdict r extra ≡ true) ↔ P
  unfolding verdict
  verdict-false e p = (λ f. p.0 (ground arith), λ h. let x = p.1 h in ground arith)

module _ (v other : Version) (hv : IsMap v.dots) (ho : IsMap other.dots)
    (pv : IsPositive v.dots) where
  Within-EntriesLe : EntriesLe v.dots other.dots → Within other v
  Within-EntriesLe all k = elim (Option-cases (lookup k other.dots)) [
    | inl e ↦ rw e (omega arith)
    | inr (c, e) ↦ rw e (All-lookup (λ x. x.1 ≤ counter v.dots x.0) other.dots k c all e)
  ]

  EntriesLe-Within : Within other v → EntriesLe v.dots other.dots
  EntriesLe-Within le =
      lookup-All (λ x. x.1 ≤ counter v.dots x.0) other.dots ho (λ k c e. rw e at (le k))

  -- Where each side lies within the other, the first loop sees only equal counters.
  EntriesEq-Within : Within other v → Within v other → EntriesEq v.dots other.dots
  EntriesEq-Within le ge =
      lookup-All (λ x. x.1 ≡ counter v.dots x.0) other.dots ho (λ k c e. ground (arith, le k, ge k))

  -- A positive counter that lies within the other map has a key there.
  AllPresent-Within : Within v other → AllPresent other.dots v.dots
  AllPresent-Within ge =
      lookup-All (λ x. has other.dots x.0 ≡ true) v.dots hv
        (λ k c e.
          let pos : 0 < c = All-lookup (λ x. 0 < x.1) v.dots k c pv e in ground (arith, ge k))

  Within-equal_present : EntriesEq v.dots other.dots → AllPresent other.dots v.dots → Within v other
  Within-equal_present eqs all k = elim (Option-cases (lookup k v.dots)) [
    | inl e ↦ rw e (omega arith)
    | inr (c, e) ↦
        let there : has other.dots k ≡ true =
          All-lookup (λ x. has other.dots x.0 ≡ true) v.dots k c all e in
        elim (Option-cases (lookup k other.dots)) [
          | inl e' ↦ ground arith
          | inr (d, e') ↦
              let same : d ≡ counter v.dots k =
                All-lookup (λ x. x.1 ≡ counter v.dots x.0) other.dots k d eqs e' in
              rw (e', same) (omega arith)
        ]
  ]

  strict_true : strict_loop v.dots other.dots false ≡ some true → Within other v × ¬ Within v other
  strict_true e =
      let le = Within-EntriesLe (strict_loop-some v.dots other.dots false true e) in
      (
        le,
        λ ge. cc (e, (strict_loop-false v.dots other.dots false).1 (refl, EntriesEq-Within le ge)),
      )

  strict_false :
      strict_loop v.dots other.dots false ≡ some false
      → (extra_loop other.dots v.dots ≡ true) ↔ (Within other v × ¬ Within v other)
  strict_false e =
      let le = Within-EntriesLe (strict_loop-some v.dots other.dots false false e) in
      let eqs = ((strict_loop-false v.dots other.dots false).0 e).1 in
      (
        λ x. (le, λ ge. cc (x, (extra_loop-false other.dots v.dots).1 (AllPresent-Within ge))),
        λ h. elim (Bool-cases (extra_loop other.dots v.dots)) [
          | inl x ↦ x
          | inr x ↦
              absurd (h.1 (Within-equal_present eqs ((extra_loop-false other.dots v.dots).0 x)))
        ],
      )

  dominates_lem : (dominates v other ≡ true) ↔ (Within other v × ¬ Within v other)
  unfolding dominates
  dominates_lem = elim (Option-cases (strict_loop v.dots other.dots false)) [
    | inl e ↦
        verdict-none _ e (λ h. strict_loop-none v.dots other.dots false (EntriesLe-Within h.0) e)
    | inr (true, e) ↦ verdict-true _ e (strict_true e)
    | inr (false, e) ↦ verdict-false _ e (strict_false e)
  ]

-- Where the dominating side has no zero counters, Dominates holds exactly when the other history lies
-- within this one and this one does not lie within the other.
pub dominates_iff :
    (v other : Version)
    → IsMap v.dots
    → IsMap other.dots
    → IsPositive v.dots
    → (dominates v other ≡ true) ↔ (Within other v × ¬ Within v other)
dominates_iff v other hv ho pv = dominates_lem v other hv ho pv
