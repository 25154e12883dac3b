-- ===== src/Dotted/Examples.antt =====
-- Versions at concrete values, and the theorems about them there.
use chrono.Prelude.{
  inl, inr, List, ℕ, ◌≤◌, ◌<◌, ◌≡◌, ◌≢◌, ◌↔◌, refl, true, none, some, [], ◌∷◌, arith, get_elem?,
}
use chrono.Prelude.Strings.{Str, str_eq}
use chrono.GoMap.{lookup, insert, copy_into}
use chrono.Dotted.{
  Version, new_version, increment, equals, descends, dominates, concurrent, descends_loop, dots,
}
use chrono.Dotted.Causal.{Within}
use chrono.Dotted.Dominates.{dominates_iff}
use chrono.Dotted.Merge.{IsVersion}
use chrono.Dotted.History.{Held, history, join, merged, none_seen, history_semilattice}
use chrono.Dotted.Converge.{receive_all, replicas_converge}
use chrono.Dotted.Resolve.{Sibling, dot_sum, resolve_latest_write_wins, resolve_by_custom}
use chrono.Dotted.Resolve.Latest.{resolve_latest_first}

abbrev a : Str
a = b'a' ∷ []

abbrev b : Str
b = b'b' ∷ []

abbrev by_a : Version
by_a = record { dots = (a, 1) ∷ [] }

abbrev by_b : Version
by_b = record { dots = (b, 2) ∷ [] }

by_a-IsVersion : IsVersion by_a
unfolding lookup
by_a-IsVersion = record { is_map = (refl, tt); positive = omega arith }

by_b-IsVersion : IsVersion by_b
unfolding lookup
by_b-IsVersion = record { is_map = (refl, tt); positive = omega arith }

-- The scenario of proofs/riak_siblings_test.go: both clients write from the same version.
siblings : concurrent (increment new_version a) (increment new_version b) ≡ true
unfolding concurrent increment new_version descends_loop lookup insert copy_into str_eq
siblings = refl

copied : dots by_b ≡ by_b.dots
unfolding dots copy_into insert
copied = refl

dominates_iff_example : (dominates by_a by_b ≡ true) ↔ (Within by_b by_a × ¬ Within by_a by_b)
dominates_iff_example =
    dominates_iff by_a by_b by_a-IsVersion.is_map by_b-IsVersion.is_map by_a-IsVersion.positive

abbrev first : Sibling ℕ
first = record { version = by_a; value = 10 }

abbrev second : Sibling ℕ
second = record { version = by_b; value = 20 }

no_siblings : resolve_by_custom {T = ℕ} [] (λ l. first) ≡ none
unfolding resolve_by_custom
no_siblings = refl

resolve_latest_first_example :
    (resolve_latest_write_wins {T = ℕ} [] ≡ none)
    × ((i : ℕ) × (s : Sibling ℕ) × (resolve_latest_write_wins (first ∷ second ∷ []) ≡ some s)
        × (get_elem? (first ∷ second ∷ []) i ≡ some s)
        × ((j : ℕ) (t : Sibling ℕ)
            → get_elem? (first ∷ second ∷ []) j ≡ some t
            → (dot_sum t.version ≤ dot_sum s.version)
              × (j < i → dot_sum t.version < dot_sum s.version)))
resolve_latest_first_example = resolve_latest_first first (second ∷ [])

abbrev held_a : Held
held_a = record { version = by_a; is_version = by_a-IsVersion }

abbrev held_b : Held
held_b = record { version = by_b; is_version = by_b-IsVersion }

history_semilattice_example :
    (join (history held_a) (history held_b) ≡ history (merged held_a held_b))
    × (join (join (history held_a) (history held_b)) (history held_a)
        ≡ join (history held_a) (join (history held_b) (history held_a)))
    × (join (history held_a) (history held_b) ≡ join (history held_b) (history held_a))
    × (join (history held_a) (history held_a) ≡ history held_a)
    × (join (history none_seen) (history held_a) ≡ history held_a)
    × ((descends by_a by_b ≡ true) ↔ (join (history held_a) (history held_b) ≡ history held_a))
    × ((dominates by_a by_b ≡ true) ↔ (
        (join (history held_a) (history held_b) ≡ history held_a)
        × (join (history held_b) (history held_a) ≢ history held_b)))
    × ((equals by_a by_b ≡ true) ↔ (history held_a ≡ history held_b))
history_semilattice_example =
    history_semilattice held_a held_b (history held_a) (history held_b) (history held_a)

-- One replica receives a version twice.
abbrev twice : List Version
twice = by_b ∷ by_a ∷ by_b ∷ []

abbrev once : List Version
once = by_a ∷ by_b ∷ []

replicas_converge_example : equals (receive_all by_a twice) (receive_all by_a once) ≡ true
replicas_converge_example =
    replicas_converge by_a by_a twice once by_a-IsVersion by_a-IsVersion
      (by_b-IsVersion.is_map, (by_a-IsVersion.is_map, (by_b-IsVersion.is_map, tt)))
      (by_a-IsVersion.is_map, (by_b-IsVersion.is_map, tt)) (λ k. refl)
      (inr (inl (λ k. refl)), (inl (λ k. refl), (inr (inl (λ k. refl)), tt)))
      (inr (inl (λ k. refl)), (inl (λ k. refl), tt))
