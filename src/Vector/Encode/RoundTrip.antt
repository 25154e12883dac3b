-- ===== src/Vector/Encode/RoundTrip.antt =====
-- vector/encode.go: decoding after encoding, and encodings of the same vector.
use chrono.Prelude.{
  ℕ, ◌+◌, ◌-◌, ◌≤◌, ◌≡◌, refl, sym, ap, ◌∙◌, some, none, List, [], ◌∷◌, ◌++◌, arith, length,
  length-append, drop, drop_add, take-append, drop-append, length-drop,
}
use chrono.Prelude.Bytes.{
  be_bytes, be_value, length-be_bytes, be_value-be_bytes_two, be_value-be_bytes_eight,
}
use chrono.Prelude.Strings.{Str}
use chrono.GoMap.{Counters, counter, lookup, insert, copy_into, IsMap, or_zero}
use chrono.GoMap.Laws.{copy_into-nil}
use chrono.Vector.{Snapshot}
use chrono.Vector.Encode.{
  slice, read_loop, unmarshal_binary, marshal_binary, encoded, write_loop, write_all, Size, size,
  too_long, size_loop,
}
use chrono.Vector.Encode.Image.{image, entries, sorted_keys, marshal_binary_branches}
use chrono.Vector.Encode.Entries.{
  Fits, Fits-entries, Fits-keys, entries-IsMap, lookup-entries_sorted, length-entries,
  sorted_keys-same, length-sorted_keys,
}

-- What a slice reads where the bytes from `off` on start with `mid`.
slice_at :
    (bytes mid rest : List ℕ) (off to : ℕ)
    → drop off bytes ≡ mid ++ rest
    → to ≡ off + length mid
    → slice bytes off to ≡ mid
unfolding slice
slice_at bytes mid rest off to at e =
    let e' : to - off ≡ length mid = omega arith in
    rw (at, e') (take-append (length mid) mid rest refl)

drop_behind :
    (bytes mid rest : List ℕ) (off to : ℕ)
    → drop off bytes ≡ mid ++ rest
    → to ≡ off + length mid
    → drop to bytes ≡ rest
drop_behind bytes mid rest off to at e =
    rw e (drop_add off (length mid) bytes ∙ rw at (drop-append (length mid) mid rest refl))

room :
    (bytes mid : List ℕ) (off : ℕ)
    → off ≤ length bytes
    → drop off bytes ≡ mid
    → off + length mid ≡ length bytes
room bytes mid off h e = omega (arith, length-drop off bytes, ap (λ (t : List ℕ). length t) e)

read_loop_lem :
    (es : Counters) (bytes : List ℕ) (off : ℕ) (vec : Counters)
    → Fits es
    → off ≤ length bytes
    → drop off bytes ≡ image es
    → read_loop (length es) bytes off vec ≡ some (length bytes, copy_into vec es)
unfolding read_loop copy_into
read_loop_lem [] bytes off vec fits h at =
    ap (λ o. some (o, vec)) (omega (arith, room bytes [] off h at))
read_loop_lem ((k, v) ∷ es) bytes off vec (short, u, fits) h at =
    let b2 = be_bytes 2 (length k) in
    let b8 = be_bytes 8 v in
    let l2 : length b2 ≡ 2 = length-be_bytes 2 (length k) in
    let l8 : length b8 ≡ 8 = length-be_bytes 8 v in
    let rest3 = image es in
    let rest2 = b8 ++ rest3 in
    let rest1 = k ++ rest2 in
    let at1 = drop_behind bytes b2 rest1 off (off + 2) at (omega arith) in
    let at2 = drop_behind bytes k rest2 (off + 2) (off + 2 + length k) at1 refl in
    let at3 =
      drop_behind bytes b8 rest3 (off + 2 + length k) (off + 2 + length k + 8) at2 (omega arith) in
    let s1 = slice_at bytes b2 rest1 off (off + 2) at (omega arith) in
    let s2 = slice_at bytes k rest2 (off + 2) (off + 2 + length k) at1 refl in
    let s3 =
      slice_at bytes b8 rest3 (off + 2 + length k) (off + 2 + length k + 8) at2 (omega arith) in
    let v1 : be_value b2 ≡ length k = be_value-be_bytes_two (length k) (omega arith) in
    let v3 : be_value b8 ≡ v = be_value-be_bytes_eight v u in
    let sum = room bytes (b2 ++ rest1) off h at in
    let enough : off + 2 + length k + 8 ≤ length bytes =
      omega (arith, length-append b2 rest1, length-append k rest2, length-append b8 rest3) in
    rw (s1, v1)
      (rw (s2, s3, v3)
        (ground (
          arith,
          read_loop_lem es bytes (off + 2 + length k + 8) (insert k v vec) fits enough at3,
        )))

unmarshal_binary_lem :
    (es : Counters) (old : Snapshot)
    → Fits es
    → length es ≤ 0xFFFF
    → unmarshal_binary old (be_bytes 2 (length es) ++ image es)
      ≡ (record { node_id = []; vec = copy_into [] es }, none)
unfolding unmarshal_binary
unmarshal_binary_lem es old fits few =
    let head = be_bytes 2 (length es) in
    let bytes = head ++ image es in
    let l : length head ≡ 2 = length-be_bytes 2 (length es) in
    let sum = length-append head (image es) in
    let count : be_value (slice bytes 0 2) ≡ length es =
      ap be_value (slice_at bytes head (image es) 0 2 refl (omega arith))
      ∙ be_value-be_bytes_two (length es) (omega arith) in
    let loop = read_loop_lem es bytes 2 [] fits (omega arith) (drop-append 2 head (image es) l) in
    rw (count, loop) (ground arith)

-- Where the map has at most 65535 entries, and every key at most 65535 bytes, MarshalBinary succeeds,
-- and UnmarshalBinary of its result gives a snapshot with the same map, with no node id, whatever the
-- receiver held.
pub marshal_binary_round_trip :
    (s old : Snapshot)
    → IsMap s.vec
    → Fits s.vec
    → length s.vec ≤ 0xFFFF
    → (bytes : List ℕ) × (vec : Counters) × (marshal_binary s ≡ encoded bytes)
      × (unmarshal_binary old bytes ≡ (record { node_id = []; vec = vec }, none))
      × IsMap vec
      × ((k : Str) → lookup k vec ≡ lookup k s.vec)
marshal_binary_round_trip s old h fits few =
    let ks = sorted_keys s.vec in
    let es = entries s.vec ks in
    let n = length-entries s.vec in
    let is_map = entries-IsMap s.vec h in
    (
      be_bytes 2 (length es) ++ image es,
      es,
      rw n ((marshal_binary_branches s).1 few (Fits-keys s.vec fits)),
      unmarshal_binary_lem es old (Fits-entries s.vec fits) (omega arith)
          ∙ ap (λ v. (record { node_id = []; vec = v }, none)) (copy_into-nil es is_map),
      is_map,
      lookup-entries_sorted s.vec,
    )

write_loop_same :
    (a b : Counters) (ks : List Str)
    → ((k : Str) → counter a k ≡ counter b k)
    → (buff : List ℕ) (off : ℕ) → write_loop a ks buff off ≡ write_loop b ks buff off
unfolding write_loop
write_loop_same a b [] same buff off = refl
write_loop_same a b (k ∷ ks) same buff off = simp (same k, write_loop_same a b ks same)

write_all_same :
    (a b : Counters) (ks : List Str) (n : Size)
    → ((k : Str) → counter a k ≡ counter b k)
    → write_all a ks n ≡ write_all b ks n
unfolding write_all
write_all_same a b ks (too_long k) same = refl
write_all_same a b ks (size n) same = simp (write_loop_same a b ks same)

-- The encoding is determined by what the map holds: for two snapshots whose maps have the same keys
-- with the same counters, in whatever order and under whatever node ids, MarshalBinary returns the
-- same bytes or the same error.
pub marshal_binary_deterministic :
    (s t : Snapshot)
    → IsMap s.vec
    → IsMap t.vec
    → ((k : Str) → lookup k s.vec ≡ lookup k t.vec)
    → marshal_binary s ≡ marshal_binary t
unfolding marshal_binary
marshal_binary_deterministic s t hs ht same =
    let ks = sorted_keys-same s.vec t.vec hs ht same in
    let n : length s.vec ≡ length t.vec =
      sym (length-sorted_keys s.vec)
      ∙ (ap (λ (l : List Str). length l) ks ∙ length-sorted_keys t.vec) in
    let body =
      write_all_same s.vec t.vec (sorted_keys t.vec) (size_loop (sorted_keys t.vec) 2)
        (λ k. ap or_zero (same k)) in
    rw (n, ks, body) refl
