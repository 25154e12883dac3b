-- ===== src/Vector/Encode/Entries.antt =====
-- vector/encode.go: the entries in the order of their keys, against the map that they come from.
use chrono.Prelude.{
  ◌≡◌, refl, sym, ap, ◌∙◌, some, none, List, [], ◌∷◌, arith, length, All, Bool-cases, inl, inr,
  if◌then◌else◌,
}
use chrono.Prelude.Words.{IsU64}
use chrono.Prelude.Strings.{Str, str_eq, str_eq_iff, str_lt}
use chrono.Prelude.Sort.{
  member, member-sort_stable, sort_stable-IsAscending, All-sort_stable, length-sort_stable,
  IsDistinct, IsAscending, not-member_above, ascending-eq,
}
use chrono.GoMap.{Counters, counter, lookup, IsMap}
use chrono.Vector.{keys}
use chrono.Vector.Compare.{is_some}
use chrono.Vector.Encode.Image.{length-keys, entries, sorted_keys, IsShort}

-- The entries that the format can hold.
abbrev pub Fits : Counters → Type 0
Fits [] = Unit
Fits ((k, v) ∷ m) = IsShort k × IsU64 v × Fits m

pub Fits-keys : (vec : Counters) → Fits vec → All IsShort (keys vec)
unfolding keys
Fits-keys [] h = tt
Fits-keys ((k, v) ∷ m) (p, q, h) = (p, Fits-keys m h)

counter-IsU64 : (vec : Counters) → Fits vec → (k : Str) → IsU64 (counter vec k)
unfolding lookup
counter-IsU64 [] h k = omega arith
counter-IsU64 ((j, v) ∷ m) (p, q, h) k = ground (arith, counter-IsU64 m h k)

Fits-entries_at :
    (vec : Counters) (ks : List Str) → Fits vec → All IsShort ks → Fits (entries vec ks)
Fits-entries_at vec [] h s = tt
Fits-entries_at vec (k ∷ ks) h (p, s) = (p, counter-IsU64 vec h k, Fits-entries_at vec ks h s)

pub Fits-entries : (vec : Counters) → Fits vec → Fits (entries vec (sorted_keys vec))
Fits-entries vec h =
    Fits-entries_at vec (sorted_keys vec) h
      (All-sort_stable str_lt IsShort (keys vec) (Fits-keys vec h))

length-entries_at : (vec : Counters) (ks : List Str) → length (entries vec ks) ≡ length ks
length-entries_at vec [] = refl
length-entries_at vec (k ∷ ks) = omega (arith, length-entries_at vec ks)

pub length-sorted_keys : (vec : Counters) → length (sorted_keys vec) ≡ length vec
length-sorted_keys vec = length-sort_stable str_lt (keys vec) ∙ length-keys vec

pub length-entries : (vec : Counters) → length (entries vec (sorted_keys vec)) ≡ length vec
length-entries vec = length-entries_at vec (sorted_keys vec) ∙ length-sorted_keys vec

member-keys : (k : Str) (vec : Counters) → member k (keys vec) ≡ is_some (lookup k vec)
unfolding member keys lookup
member-keys k [] = refl
member-keys k ((j, v) ∷ m) = ground (arith, member-keys k m)

member-sorted_keys :
    (k : Str) (vec : Counters) → member k (sorted_keys vec) ≡ is_some (lookup k vec)
member-sorted_keys k vec = member-sort_stable k (keys vec) ∙ member-keys k vec

keys-IsDistinct : (vec : Counters) → IsMap vec → IsDistinct (keys vec)
unfolding keys
keys-IsDistinct [] h = tt
keys-IsDistinct ((k, v) ∷ m) (fresh, h) = (member-keys k m ∙ ap is_some fresh, keys-IsDistinct m h)

sorted_keys-IsAscending : (vec : Counters) → IsMap vec → IsAscending (sorted_keys vec)
sorted_keys-IsAscending vec h = sort_stable-IsAscending (keys vec) (keys-IsDistinct vec h)

lookup-entries :
    (vec : Counters) (ks : List Str) (j : Str)
    → lookup j (entries vec ks) ≡ (if member j ks then some (counter vec j) else none)
unfolding lookup member
lookup-entries vec [] j = refl
lookup-entries vec (k ∷ ks) j = elim (Bool-cases (str_eq k j)) [
  | inl e ↦ rw e (ap (λ x. some (counter vec x)) ((str_eq_iff k j).0 e))
  | inr e ↦ rw e (lookup-entries vec ks j)
]

pub lookup-entries_sorted :
    (vec : Counters) (j : Str) → lookup j (entries vec (sorted_keys vec)) ≡ lookup j vec
lookup-entries_sorted vec j =
    ground (arith, lookup-entries vec (sorted_keys vec) j, member-sorted_keys j vec)

entries_at-IsMap : (vec : Counters) (ks : List Str) → IsAscending ks → IsMap (entries vec ks)
entries_at-IsMap vec [] h = tt
entries_at-IsMap vec (k ∷ ks) (p, h) =
    (lookup-entries vec ks k ∙ rw (not-member_above k ks p) refl, entries_at-IsMap vec ks h)

pub entries-IsMap : (vec : Counters) → IsMap vec → IsMap (entries vec (sorted_keys vec))
entries-IsMap vec h = entries_at-IsMap vec (sorted_keys vec) (sorted_keys-IsAscending vec h)

pub sorted_keys-same :
    (a b : Counters)
    → IsMap a
    → IsMap b
    → ((k : Str) → lookup k a ≡ lookup k b)
    → sorted_keys a ≡ sorted_keys b
sorted_keys-same a b ha hb same =
    ascending-eq (sorted_keys a) (sorted_keys b) (sorted_keys-IsAscending a ha)
      (sorted_keys-IsAscending b hb)
      (λ k. member-sorted_keys k a ∙ (ap is_some (same k) ∙ sym (member-sorted_keys k b)))
