-- ===== src/Vector/Encode/Image.antt =====
-- vector/encode.go: the bytes of MarshalBinary, as a description without a buffer.
use chrono.Prelude.{
  ℕ, sym, suc, ◌+◌, ◌-◌, ◌≤◌, ◌<◌, ◌≡◌, refl, ap, ◌∙◌, some, true, false, List, [], ◌∷◌, ◌++◌,
  arith, length, length-append, All, Bool-cases, inl, inr, ltb, lt→ltb,
}
use mathlib.Core.List.{append_assoc}
use chrono.Prelude.Bytes.{be_bytes, length-be_bytes}
use chrono.Prelude.Strings.{Str, str_lt, str_eq, str_eq_iff, str_eq_refl}
use chrono.Prelude.Sort.{
  member, member-sort_stable, sort_stable, length-sort_stable, All-sort_stable,
}
use chrono.GoMap.{Counters, counter}
use chrono.Vector.{Snapshot, keys}
use chrono.Vector.Encode.{
  zeros, write_loop, write_all, size_loop, size, too_long, marshal_binary, encoded, too_many_nodes,
  id_too_long,
}
use chrono.Vector.Encode.Buffer.{put-zeros, copy_at-zeros}

-- The bytes of entries: the length of the key, the key and the counter of each.
abbrev pub image : Counters → List ℕ
image [] = []
image ((k, v) ∷ m) = be_bytes 2 (length k) ++ (k ++ (be_bytes 8 v ++ image m))

-- The entries that a map has at some keys.
abbrev pub entries : Counters → List Str → Counters
entries vec [] = []
entries vec (k ∷ ks) = (k, counter vec k) ∷ entries vec ks

abbrev pub sorted_keys : Counters → List Str
sorted_keys vec = sort_stable str_lt (keys vec)

abbrev pub IsShort : Str → Type 0
IsShort k = length k ≤ 0xFFFF

abbrev total : List Str → ℕ
total [] = 0
total (k ∷ ks) = 2 + length k + 8 + total ks

write_loop_lem :
    (vec : Counters) (ks : List Str) (front : List ℕ) (off n : ℕ)
    → off ≡ length front
    → n ≡ total ks
    → write_loop vec ks (front ++ zeros n) off ≡ some (front ++ image (entries vec ks))
unfolding write_loop
write_loop_lem vec [] front off n at e = rw e (unfold zeros in refl)
write_loop_lem vec (k ∷ ks) front off n at e =
    let l2 = length-be_bytes 2 (length k) in
    let l8 = length-be_bytes 8 (counter vec k) in
    let front1 = front ++ be_bytes 2 (length k) in
    let front2 = front1 ++ k in
    let front3 = front2 ++ be_bytes 8 (counter vec k) in
    let e1 : off + 2 ≡ length front1 = omega (arith, length-append front (be_bytes 2 (length k))) in
    let e2 : off + 2 + length k ≡ length front2 = omega (arith, length-append front1 k) in
    let e3 : off + 2 + length k + 8 ≡ length front3 =
      omega (arith, length-append front2 (be_bytes 8 (counter vec k))) in
    rw (put-zeros front (be_bytes 2 (length k)) off n at (omega arith)) (
      rw (copy_at-zeros front1 k (off + 2) (n - length (be_bytes 2 (length k))) e1 (omega arith)) (
        rw
          (put-zeros front2 (be_bytes 8 (counter vec k)) (off + 2 + length k)
            (n - length (be_bytes 2 (length k)) - length k) e2 (omega arith))
          (write_loop_lem vec ks front3 (off + 2 + length k + 8)
              (n - length (be_bytes 2 (length k)) - length k - length (be_bytes 8 (counter vec k)))
              e3 (omega arith)
            ∙ simp (append_assoc))))

size_loop_short : (ks : List Str) (n : ℕ) → All IsShort ks → size_loop ks n ≡ size (n + total ks)
unfolding size_loop
size_loop_short [] n h = ap size (omega arith)
size_loop_short (k ∷ ks) n (p, h) =
    let e : n + (2 + length k + 8) + total ks ≡ n + total (k ∷ ks) = omega arith in
    rw (← e) (ground (arith, size_loop_short ks (n + (2 + length k + 8)) h))

-- The loop refuses the first key that is too long.
size_loop_long :
    (ks : List Str) (n : ℕ) (j : Str)
    → member j ks ≡ true
    → 0xFFFF < length j
    → (k : Str) × (size_loop ks n ≡ too_long k) × (0xFFFF < length k) × (member k ks ≡ true)
unfolding size_loop member
size_loop_long [] n j m h = cc
size_loop_long (k ∷ ks) n j m h = elim (Bool-cases (ltb 0xFFFF (length k))) [
  | inl e ↦ (k, rw e refl, ground arith, ground (arith, str_eq_refl k))
  | inr e ↦
      let other : str_eq k j ≡ true → ⊥ =
        λ same. (let q = ap (λ (x : Str). length x) ((str_eq_iff k j).0 same) in ground arith) in
      let later : member j ks ≡ true = ground arith in
      let (bad, refused, long, inside) = size_loop_long ks (n + (2 + length k + 8)) j later h in
      (bad, rw e refused, long, ground (arith, inside))
]

pub length-keys : (vec : Counters) → length (keys vec) ≡ length vec
unfolding keys
length-keys [] = refl
length-keys ((k, v) ∷ m) = ap suc (length-keys m)

write_all_lem :
    (vec : Counters) (ks : List Str)
    → write_all vec ks (size (2 + total ks))
      ≡ encoded (be_bytes 2 (length ks) ++ image (entries vec ks))
unfolding write_all
write_all_lem vec ks =
    let bs = be_bytes 2 (length ks) in
    let l = length-be_bytes 2 (length ks) in
    rw (put-zeros [] bs 0 (2 + total ks) refl (omega arith))
      (rw (write_loop_lem vec ks bs 2 (2 + total ks - length bs) (omega arith) (omega arith)) refl)

-- MarshalBinary fails with its first error exactly where the map has more than 65535 entries, and
-- with its second one, which names a key of the map that is longer than 65535 bytes, if there is one. Otherwise
-- it returns the number of entries and the entries in the order of their keys. It never panics: every
-- write is within the buffer, and fills it.
pub marshal_binary_branches :
    (s : Snapshot)
    → (0xFFFF < length s.vec → marshal_binary s ≡ too_many_nodes (length s.vec))
      × (length s.vec ≤ 0xFFFF
          → All IsShort (keys s.vec)
          → marshal_binary s
            ≡ encoded (be_bytes 2 (length s.vec) ++ image (entries s.vec (sorted_keys s.vec))))
      × (length s.vec ≤ 0xFFFF
          → (j : Str) → member j (keys s.vec) ≡ true
          → 0xFFFF < length j
          → (k : Str) × (marshal_binary s ≡ id_too_long k)
            × (0xFFFF < length k)
            × (member k (keys s.vec) ≡ true))
unfolding marshal_binary
marshal_binary_branches s =
    let ks = sorted_keys s.vec in
    let n = length-sort_stable str_lt (keys s.vec) ∙ length-keys s.vec in
    (
      λ h. rw (lt→ltb 0xFFFF (length s.vec) h) refl,
      λ h short.
          let few : ltb 0xFFFF (length s.vec) ≡ false = ground arith in
          let sized = size_loop_short ks 2 (All-sort_stable str_lt IsShort (keys s.vec) short) in
          rw (few, sized)
            (write_all_lem s.vec ks
              ∙ ap (λ l. encoded (be_bytes 2 l ++ image (entries s.vec ks))) n),
      λ h j m long.
          let few : ltb 0xFFFF (length s.vec) ≡ false = ground arith in
          let (k, refused, bad, inside) =
            size_loop_long ks 2 j (member-sort_stable j (keys s.vec) ∙ m) long in
          (
            k,
            rw (few, refused) (unfold write_all in refl),
            bad,
            sym (member-sort_stable k (keys s.vec)) ∙ inside,
          ),
    )
