-- ===== src/GoMap/Keys.antt =====
-- The keys of maps: erasing one, inclusion, and the count of keys that decides it.
use chrono.Prelude.{suc, ◌≤◌, ◌≡◌, refl, none, [], ◌∷◌, arith, if◌then◌else◌, length, ◌≢◌}
use chrono.Prelude.Strings.{Str, str_eq, str_eq_iff, str_eq_refl}
use chrono.GoMap.{Map, lookup, IsMap}

-- Every key of `a` is a key of `b`.
abbrev pub KeysWithin {ℓ} : {V : Type ℓ} → Map V → Map V → Type ℓ
KeysWithin a b = (j : Str) → lookup j b ≡ none → lookup j a ≡ none

module _ {ℓ} {V : Type ℓ} where
  erase : Str → Map V → Map V
  erase k [] = []
  erase k ((j, v) ∷ m) = if str_eq j k then m else (j, v) ∷ erase k m

  lookup-erase :
      (k j : Str) (m : Map V)
      → IsMap m
      → lookup j (erase k m) ≡ (if str_eq k j then none else lookup j m)
  unfolding lookup erase
  lookup-erase k j [] h = ground arith
  lookup-erase k j ((i, v) ∷ m) (fresh, h) =
      ground (arith, str_eq_iff k j, str_eq_iff i k, str_eq_iff i j, lookup-erase k j m h)

  erase-IsMap : (k : Str) (m : Map V) → IsMap m → IsMap (erase k m)
  unfolding erase
  erase-IsMap k [] h = h
  erase-IsMap k ((i, v) ∷ m) (fresh, h) = ground (arith, lookup-erase k i m h, erase-IsMap k m h)

  length-erase : (k : Str) (m : Map V) → lookup k m ≢ none → suc (length (erase k m)) ≡ length m
  unfolding lookup erase
  length-erase k [] h = absurd (h refl)
  length-erase k ((i, v) ∷ m) h = ground (arith, length-erase k m)

module _ {ℓ} {V : Type ℓ} where
  -- Without its first key, the first map stays within the second one without that key.
  KeysWithin-erase :
      (k : Str) (v : V) (a b : Map V)
      → IsMap ((k, v) ∷ a)
      → IsMap b
      → KeysWithin ((k, v) ∷ a) b
      → KeysWithin a (erase k b)
  unfolding lookup
  KeysWithin-erase k v a b (fresh, ha) hb w j e =
      ground (arith, w j, lookup-erase k j b hb, str_eq_iff k j)

  KeysWithin-head : (k : Str) (v : V) (a b : Map V) → KeysWithin ((k, v) ∷ a) b → lookup k b ≢ none
  unfolding lookup
  KeysWithin-head k v a b w e = ground (arith, w k, str_eq_refl k)

  -- Keys that lie within another map are at most as many.
  pub KeysWithin-length-le :
      (a b : Map V) → IsMap a → IsMap b → KeysWithin a b → length a ≤ length b
  KeysWithin-length-le [] b ha hb w = omega arith
  KeysWithin-length-le ((k, v) ∷ a) b ha hb w = omega (
    arith,
    KeysWithin-length-le a (erase k b) ha.1 (erase-IsMap k b hb) (KeysWithin-erase k v a b ha hb w),
    length-erase k b (KeysWithin-head k v a b w),
  )

  -- Where they are as many, the inclusion goes both ways.
  pub KeysWithin-symm :
      (a b : Map V) → IsMap a → IsMap b → length a ≡ length b → KeysWithin a b → KeysWithin b a
  unfolding lookup
  KeysWithin-symm [] [] ha hb e w j n = refl
  KeysWithin-symm [] (y ∷ b) ha hb e w j n = absurd (omega arith)
  KeysWithin-symm ((k, v) ∷ a) b ha hb e w j n = ground (
    arith,
    KeysWithin-symm a (erase k b) ha.1 (erase-IsMap k b hb)
        (omega (arith, length-erase k b (KeysWithin-head k v a b w)))
        (KeysWithin-erase k v a b ha hb w) j,
    lookup-erase k j b hb,
    str_eq_iff k j,
  )
