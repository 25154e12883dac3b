-- ===== src/GoMap/Entries.antt =====
-- The entries of a map, which a `range` loop visits, and its lookups.
use chrono.Prelude.{◌≡◌, ap, subst, some, none, [], ◌∷◌, All, Bool-cases, inl, inr, eq_of_some}
use chrono.Prelude.Strings.{Str, str_eq, str_eq_iff, str_eq_refl}
use chrono.GoMap.{Map, lookup, IsMap}

module _ {ℓ κ} {V : Type ℓ} (P : Str × V → Type κ) where
  pub All-lookup : (m : Map V) (k : Str) (v : V) → All P m → lookup k m ≡ some v → P (k, v)
  unfolding lookup
  All-lookup [] k v h e = cc
  All-lookup ((j, w) ∷ m) k v (p, h) e = elim (Bool-cases (str_eq j k)) [
    | inl same ↦ subst P (λ i. ((str_eq_iff j k).0 same i, eq_of_some (rw same at e) i)) p
    | inr other ↦ All-lookup m k v h (rw other at e)
  ]

  lookup_other :
      (j k : Str) (w v : V) (m : Map V)
      → lookup j m ≡ none
      → lookup k m ≡ some v
      → lookup k ((j, w) ∷ m) ≡ some v
  unfolding lookup
  lookup_other j k w v m fresh e = elim (Bool-cases (str_eq j k)) [
    | inl same ↦ cc (fresh, e, ap (λ t. lookup t m) ((str_eq_iff j k).0 same))
    | inr other ↦ rw other e
  ]

  lookup_here : (j : Str) (w : V) (m : Map V) → lookup j ((j, w) ∷ m) ≡ some w
  unfolding lookup
  lookup_here j w m = rw str_eq_refl

  pub lookup-All :
      (m : Map V) → IsMap m → ((k : Str) (v : V) → lookup k m ≡ some v → P (k, v)) → All P m
  lookup-All [] h f = tt
  lookup-All ((j, w) ∷ m) (fresh, h) f =
      (f j w (lookup_here j w m), lookup-All m h (λ k v e. f k v (lookup_other j k w v m fresh e)))
