-- ===== src/GoMap/Laws.antt =====
-- What the operations of a map do to its lookups, its length and its keys.
use chrono.Prelude.{
  ℕ, ◌≡◌, refl, sym, ◌∙◌, false, Option, none, some, [], ◌∷◌, ◌++◌, arith, if◌then◌else◌,
}
use chrono.Prelude.Strings.{Str, str_eq, str_eq_iff, str_eq_refl}
use mathlib.Core.List.{append-nil, append_assoc}
use chrono.GoMap.{Map, Counters, lookup, insert, copy_into, counter, IsMap}

module _ {ℓ} {V : Type ℓ} where
  abbrev pub or_else : Option V → Option V → Option V
  or_else none o = o
  or_else (some v) o = some v

  lookup-append_here :
      (j : Str) (out : Map V) (k : Str) (v : V) (m : Map V)
      → lookup j (out ++ ((k, v) ∷ m)) ≡ none
      → str_eq k j ≡ false
  unfolding lookup
  lookup-append_here j [] k v m h = ground arith
  lookup-append_here j ((i, w) ∷ out) k v m h = ground (arith, lookup-append_here j out k v m)

  pub lookup-insert :
      (k j : Str) (v : V) (m : Map V)
      → lookup j (insert k v m) ≡ (if str_eq k j then some v else lookup j m)
  unfolding lookup insert
  lookup-insert k j v [] = refl
  lookup-insert k j v ((i, w) ∷ m) =
      ground (arith, str_eq_iff k j, str_eq_iff i k, str_eq_iff i j, lookup-insert k j v m)

  pub lookup-insert_self : (k : Str) (v : V) (m : Map V) → lookup k (insert k v m) ≡ some v
  lookup-insert_self k v m = simp (lookup-insert, str_eq_refl)

  pub insert-IsMap : (k : Str) (v : V) (m : Map V) → IsMap m → IsMap (insert k v m)
  unfolding lookup insert
  insert-IsMap k v [] h = (refl, tt)
  insert-IsMap k v ((i, w) ∷ m) (fresh, h) =
      ground (arith, lookup-insert k i v m, insert-IsMap k v m h, str_eq_iff i k, str_eq_iff k i)

  -- The keys in front of an entry of a map differ from its own.
  lookup-append_none :
      (out : Map V) (k : Str) (v : V) (m : Map V)
      → IsMap (out ++ ((k, v) ∷ m))
      → lookup k out ≡ none
  unfolding lookup
  lookup-append_none [] k v m h = refl
  lookup-append_none ((i, w) ∷ out) k v m (fresh, h) = ground (
    arith,
    lookup-append_none out k v m h,
    lookup-append_here i out k v m fresh,
    str_eq_iff i k,
    str_eq_iff k i,
  )

  -- A key that is not there is added at the end.
  pub insert-eq-append :
      (k : Str) (v : V) (m : Map V) → lookup k m ≡ none → insert k v m ≡ m ++ ((k, v) ∷ [])
  unfolding lookup insert
  insert-eq-append k v [] h = refl
  insert-eq-append k v ((i, w) ∷ m) h = ground (arith, insert-eq-append k v m)

  pub copy_into-IsMap : (out m : Map V) → IsMap out → IsMap (copy_into out m)
  unfolding copy_into
  copy_into-IsMap out [] h = h
  copy_into-IsMap out ((k, v) ∷ m) h = copy_into-IsMap (insert k v out) m (insert-IsMap k v out h)

  -- An entry of `m`, where there is one, and the one of `out` otherwise.
  pub lookup-copy_into :
      (j : Str) (out m : Map V)
      → IsMap m
      → lookup j (copy_into out m) ≡ or_else (lookup j m) (lookup j out)
  unfolding copy_into lookup
  lookup-copy_into j out [] h = refl
  lookup-copy_into j out ((k, v) ∷ m) (fresh, h) =
      ground
        (arith, lookup-copy_into j (insert k v out) m h, lookup-insert k j v out, str_eq_iff k j)

  copy_into-append : (out m : Map V) → IsMap (out ++ m) → copy_into out m ≡ out ++ m
  unfolding copy_into
  copy_into-append out [] h = sym (append-nil out)
  copy_into-append out ((k, v) ∷ m) h =
      rw (insert-eq-append k v out (lookup-append_none out k v m h)) (
        copy_into-append (out ++ ((k, v) ∷ [])) m (rw append_assoc h)
        ∙ append_assoc out ((k, v) ∷ []) m)

  -- Copying a map into a new one gives the same entries in the same order.
  pub copy_into-nil : (m : Map V) → IsMap m → copy_into [] m ≡ m
  copy_into-nil m h = copy_into-append [] m h

pub counter-insert :
    (k j : Str) (v : ℕ) (m : Counters)
    → counter (insert k v m) j ≡ (if str_eq k j then v else counter m j)
counter-insert k j v m = ground (arith, lookup-insert k j v m)

pub counter-copy_into :
    (m : Counters) → IsMap m → (k : Str) → counter (copy_into [] m) k ≡ counter m k
counter-copy_into m h k = rw (copy_into-nil m h)
