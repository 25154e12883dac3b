-- ===== src/Dotted/Causal.antt =====
-- dotted/version.go: Descends and Concurrent against the pointwise order of the counters.
use chrono.Prelude.{
  ℕ, ◌≤◌, ◌≡◌, ◌↔◌, refl, Bool, true, false, not, ◌&&◌, [], ◌∷◌, arith, All, Option-cases, inl, inr,
}
use chrono.Prelude.Strings.{Str}
use chrono.GoMap.{Counters, lookup, counter, IsMap}
use chrono.GoMap.Entries.{All-lookup, lookup-All}
use chrono.Dotted.{Version, descends_loop, descends, concurrent}

-- The history of `a` lies within that of `b`: no actor has a higher counter in `a`.
abbrev pub Within : Version → Version → Type 0
Within a b = (k : Str) → counter a.dots k ≤ counter b.dots k

abbrev EntriesLe : Counters → Counters → Type 0
EntriesLe dots m = All (λ (e : Str × ℕ). e.1 ≤ counter dots e.0) m

descends_loop_lem : (dots m : Counters) → (descends_loop dots m ≡ true) ↔ EntriesLe dots m
unfolding descends_loop
descends_loop_lem dots [] = ground arith
descends_loop_lem dots ((k, c) ∷ m) = ground (arith, descends_loop_lem dots m)

EntriesLe-Within :
    (v other : Version) → IsMap other.dots → EntriesLe v.dots other.dots ↔ Within other v
EntriesLe-Within v other h = (
  λ all k. elim (Option-cases (lookup k other.dots)) [
    | inl e ↦ rw e (omega arith)
    | inr (c, e) ↦ rw e (All-lookup (λ x. x.1 ≤ counter v.dots x.0) other.dots k c all e)
  ],
  λ le. lookup-All (λ x. x.1 ≤ counter v.dots x.0) other.dots h (λ k c e. rw e at (le k)),
)

pub descends_iff :
    (v other : Version) → IsMap other.dots → (descends v other ≡ true) ↔ Within other v
unfolding descends
descends_iff v other h = (
  λ e. (EntriesLe-Within v other h).0 ((descends_loop_lem v.dots other.dots).0 e),
  λ le. (descends_loop_lem v.dots other.dots).1 ((EntriesLe-Within v other h).1 le),
)

Bool_not_iff : (b : Bool) {P : Type 0} → (b ≡ true) ↔ P → (not b ≡ true) ↔ (¬ P)
Bool_not_iff true p = (λ e. cc, λ n. absurd (n (p.0 refl)))
Bool_not_iff false p = (λ e h. cc (p.1 h), λ n. refl)

and_iff : (x y : Bool) → ((x && y) ≡ true) ↔ ((x ≡ true) × (y ≡ true))
and_iff x y = ground arith

-- Descends holds exactly when the other history lies within this one, and Concurrent exactly when
-- neither lies within the other.
pub descends-concurrent :
    (v other : Version)
    → IsMap v.dots
    → IsMap other.dots
    → ((descends v other ≡ true) ↔ Within other v)
      × ((concurrent v other ≡ true) ↔ ((¬ Within other v) × (¬ Within v other)))
unfolding concurrent
descends-concurrent v other hv ho =
    let down = descends_iff v other ho in
    let up = descends_iff other v hv in
    let both = and_iff (not (descends v other)) (not (descends other v)) in
    (
      down,
      (
        λ e.
            let (x, y) = both.0 e in
            ((Bool_not_iff (descends v other) down).0 x, (Bool_not_iff (descends other v) up).0 y),
        λ n. both.1 (
          (Bool_not_iff (descends v other) down).1 n.0,
          (Bool_not_iff (descends other v) up).1 n.1,
        ),
      ),
    )
