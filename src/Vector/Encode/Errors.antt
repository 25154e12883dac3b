-- ===== src/Vector/Encode/Errors.antt =====
-- vector/encode.go: the slices that UnmarshalBinary accepts and those that it refuses.
use chrono.Prelude.{
  ℕ, zero, suc, ◌+◌, ◌-◌, ◌≤◌, ◌≡◌, refl, ap, ◌∙◌, some, none, List, [], ◌∷◌, ◌++◌, arith, length,
  length-append, Bool-cases, Option-cases, inl, inr, ltb, ◌==◌, take, eq_of_some, subst, ◌⊎◌,
}
use chrono.Prelude.Bytes.{be_value}
use chrono.GoMap.{Counters, insert, IsMap}
use chrono.GoMap.Laws.{insert-IsMap}
use chrono.Vector.{Snapshot}
use chrono.Vector.Encode.{slice, read_loop, finish, unmarshal_binary, corrupt_encoding}

take_front : (n : ℕ) (xs ys : List ℕ) → n ≤ length xs → take n (xs ++ ys) ≡ take n xs
take_front zero xs ys h = refl
take_front (suc n) [] ys h = absurd (omega arith)
take_front (suc n) (x ∷ xs) ys h = ap (λ t. x ∷ t) (take_front n xs ys (omega arith))

-- A slice within the first bytes is the same with more behind them.
slice-append :
    (xs ys : List ℕ) (from to : ℕ) → to ≤ length xs → slice (xs ++ ys) from to ≡ slice xs from to
unfolding slice
slice-append xs ys zero to h = take_front (to - 0) xs ys (omega arith)
slice-append [] ys (suc m) to h = let e : to - suc m ≡ 0 = omega arith in rw e refl
slice-append (x ∷ xs) ys (suc m) zero h = let e : 0 - suc m ≡ 0 = omega arith in rw e refl
slice-append (x ∷ xs) ys (suc m) (suc to) h =
    let e : suc to - suc m ≡ to - m = omega arith in rw e (slice-append xs ys m to (omega arith))

-- One round of the loop: the error, or the next offset and map.
abbrev next_off : List ℕ → ℕ → ℕ
next_off bytes off = off + 2 + be_value (slice bytes off (off + 2)) + 8

abbrev next_vec : List ℕ → ℕ → Counters → Counters
next_vec bytes off vec =
    let start = off + 2 in
    let id_len = be_value (slice bytes off (off + 2)) in
    insert (slice bytes start (start + id_len))
      (be_value (slice bytes (start + id_len) (start + id_len + 8))) vec

-- A loop that ends well stays within the bytes and does the same with more behind them.
read_loop-append :
    (n : ℕ) (xs ys : List ℕ) (off : ℕ) (vec : Counters) (o : ℕ) (v : Counters)
    → off ≤ length xs
    → read_loop n xs off vec ≡ some (o, v)
    → (o ≤ length xs) × (read_loop n (xs ++ ys) off vec ≡ some (o, v))
unfolding read_loop
read_loop-append zero xs ys off vec o v h e =
    (omega (arith, ap (λ (p : ℕ × Counters). p.0) (eq_of_some e)), e)
read_loop-append (suc n) xs ys off vec o v h e = elim (Bool-cases (ltb (length xs) (off + 2))) [
  | inl short ↦ cc (rw short at e)
  | inr head ↦ elim (Bool-cases (ltb (length xs) (next_off xs off))) [
    | inl short ↦ cc (rw (head, short) at e)
    | inr whole ↦
        let fits : next_off xs off ≤ length xs = ground arith in
        let s1 = slice-append xs ys off (off + 2) (omega arith) in
        let id_len = be_value (slice xs off (off + 2)) in
        let s2 = slice-append xs ys (off + 2) (off + 2 + id_len) (omega arith) in
        let s3 = slice-append xs ys (off + 2 + id_len) (off + 2 + id_len + 8) fits in
        let l = length-append xs ys in
        let (within, same) =
          read_loop-append n xs ys (next_off xs off) (next_vec xs off vec) o v fits
            (rw (head, whole) at e) in
        (within, rw s1 (rw (s2, s3) (ground (arith, same))))
  ]
]

read_loop-IsMap :
    (n : ℕ) (xs : List ℕ) (off : ℕ) (vec : Counters) (o : ℕ) (v : Counters)
    → IsMap vec
    → read_loop n xs off vec ≡ some (o, v)
    → IsMap v
unfolding read_loop
read_loop-IsMap zero xs off vec o v h e =
    subst IsMap (ap (λ (p : ℕ × Counters). p.1) (eq_of_some e)) h
read_loop-IsMap (suc n) xs off vec o v h e = elim (Bool-cases (ltb (length xs) (off + 2))) [
  | inl short ↦ cc (rw short at e)
  | inr head ↦ elim (Bool-cases (ltb (length xs) (next_off xs off))) [
    | inl short ↦ cc (rw (head, short) at e)
    | inr whole ↦
        read_loop-IsMap n xs (next_off xs off) (next_vec xs off vec) o v (insert-IsMap _ _ vec h)
          (rw (head, whole) at e)
  ]
]

-- What the loop did where UnmarshalBinary accepts.
accepted :
    (s : Snapshot) (bytes : List ℕ)
    → (unmarshal_binary s bytes).1 ≡ none
    → (vec : Counters) × (2 ≤ length bytes)
      × (read_loop (be_value (slice bytes 0 2)) bytes 2 [] ≡ some (length bytes, vec))
unfolding unmarshal_binary finish
accepted s bytes e = elim (Bool-cases (ltb (length bytes) 2)) [
  | inl short ↦ cc (rw short at e)
  | inr head ↦ elim (Option-cases (read_loop (be_value (slice bytes 0 2)) bytes 2 [])) [
    | inl n ↦ cc (rw (head, n) at e)
    | inr ((off, vec), r) ↦
        let whole : off ≡ length bytes = (let e' = rw (head, r) at e in ground arith) in
        (vec, ground arith, r ∙ ap (λ o. some (o, vec)) whole)
  ]
]

-- UnmarshalBinary refuses a slice and leaves the receiver as it was, or it accepts the slice, and the
-- receiver then has a map, in which a key occurs once, and no node id.
pub unmarshal_binary_outcome :
    (s : Snapshot) (bytes : List ℕ)
    → (unmarshal_binary s bytes ≡ (s, some corrupt_encoding))
      ⊎ ((vec : Counters) × (unmarshal_binary s bytes ≡ (record { node_id = []; vec = vec }, none))
          × IsMap vec)
unfolding unmarshal_binary finish
unmarshal_binary_outcome s bytes = elim (Bool-cases (ltb (length bytes) 2)) [
  | inl short ↦ inl (rw short refl)
  | inr head ↦ elim (Option-cases (read_loop (be_value (slice bytes 0 2)) bytes 2 [])) [
    | inl n ↦ inl (rw (head, n) refl)
    | inr ((off, vec), r) ↦ elim (Bool-cases (off == length bytes)) [
      | inl whole ↦ inr (
        vec,
        rw (head, r, whole) refl,
        read_loop-IsMap (be_value (slice bytes 0 2)) bytes 2 [] off vec tt r,
      )
      | inr trailing ↦ inl (rw (head, r, trailing) refl)
    ]
  ]
]

longer :
    (s : Snapshot) (front : List ℕ) (x : ℕ) (back : List ℕ)
    → (unmarshal_binary s front).1 ≡ none
    → unmarshal_binary s (front ++ (x ∷ back)) ≡ (s, some corrupt_encoding)
unfolding unmarshal_binary finish
longer s front x back e =
    let (vec, head, r) = accepted s front e in
    let n = be_value (slice front 0 2) in
    let more = (read_loop-append n front (x ∷ back) 2 [] (length front) vec head r).1 in
    let l = length-append front (x ∷ back) in
    rw (slice-append front (x ∷ back) 0 2 head) (rw more (ground arith))

-- No slice that UnmarshalBinary accepts is a proper prefix of another one: what it accepts is refused
-- with anything behind it, and so is each of its proper prefixes.
pub unmarshal_binary_prefix :
    (s : Snapshot) (front : List ℕ) (x : ℕ) (back : List ℕ)
    → ((unmarshal_binary s front).1 ≡ none
        → unmarshal_binary s (front ++ (x ∷ back)) ≡ (s, some corrupt_encoding))
      × ((unmarshal_binary s (front ++ (x ∷ back))).1 ≡ none
          → unmarshal_binary s front ≡ (s, some corrupt_encoding))
unmarshal_binary_prefix s front x back = (
  longer s front x back,
  λ e. elim (unmarshal_binary_outcome s front) [
    | inl refused ↦ refused
    | inr (vec, ok', is_map) ↦ cc (e, longer s front x back (rw ok' refl))
  ],
)
