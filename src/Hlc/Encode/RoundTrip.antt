-- ===== src/Hlc/Encode/RoundTrip.antt =====
-- hlc/encode.go: decoding after encoding, and encoding after decoding.
use chrono.Prelude.{
  ℕ, ◌≡◌, ◌≢◌, refl, none, some, List, ◌++◌, arith, length, take, drop, All, subst, length-append,
  take-append, drop-append, take_all, take-append-drop, length-take, length-drop, All-take,
  All-drop,
}
use chrono.Prelude.Words.{
  IsByte, to_u64, from_u64, to_u64-IsU64, from_u64-to_u64, from_u64-IsI64, to_u64-from_u64,
}
use chrono.Prelude.Bytes.{
  be_bytes, be_value, length-be_bytes, be_value-be_bytes_eight, be_value-be_bytes_four,
  be_bytes-be_value_eight, be_bytes-be_value_four, be_value_lt_eight, be_value_lt_four,
}
use chrono.Hlc.{Timestamp, IsTimestamp}
use chrono.Hlc.Encode.{corrupt_encoding, marshal_binary, unmarshal_binary}

decoded :
    (a : Timestamp) (xs ys : List ℕ)
    → length xs ≡ 8
    → length ys ≡ 4
    → unmarshal_binary a (xs ++ ys)
      ≡ (record { wall_time = from_u64 (be_value xs); logical = be_value ys }, none)
unfolding unmarshal_binary
decoded a xs ys p q =
    let e : length (xs ++ ys) ≡ 12 = omega (arith, length-append {0} xs ys) in
    rw (take-append 8 xs ys p, drop-append 8 xs ys p, take_all 4 ys (omega arith), e) refl

-- Decoding the encoding of a timestamp gives it back, whatever the receiver held.
pub unmarshal_binary-marshal_binary :
    (a old : Timestamp) → IsTimestamp a → unmarshal_binary old (marshal_binary a) ≡ (a, none)
unfolding marshal_binary
unmarshal_binary-marshal_binary a old h = rw (
  decoded old (be_bytes 8 (to_u64 a.wall_time)) (be_bytes 4 a.logical) (length-be_bytes 8 _)
      (length-be_bytes 4 _),
  be_value-be_bytes_eight (to_u64 a.wall_time) (to_u64-IsU64 a.wall_time),
  be_value-be_bytes_four a.logical h.logical_fits,
  from_u64-to_u64 a.wall_time h.wall_fits,
)

-- What a slice of 12 bytes decodes to.
Decodes : Timestamp → List ℕ → Type 0
Decodes old bytes =
    IsTimestamp (unmarshal_binary old bytes).0
    × (marshal_binary (unmarshal_binary old bytes).0 ≡ bytes)
    × ((unmarshal_binary old bytes).1 ≡ none)

halves-Decodes :
    (old : Timestamp) (xs ys : List ℕ)
    → All IsByte xs
    → All IsByte ys
    → length xs ≡ 8
    → length ys ≡ 4
    → Decodes old (xs ++ ys)
unfolding Decodes marshal_binary
halves-Decodes old xs ys hx hy p q = rw (decoded old xs ys p q) (
  record {
    wall_fits = from_u64-IsI64 (be_value xs) (be_value_lt_eight xs hx p);
    logical_fits = be_value_lt_four ys hy q;
  },
  rw (
    to_u64-from_u64 (be_value xs) (be_value_lt_eight xs hx p),
    be_bytes-be_value_eight xs hx p,
    be_bytes-be_value_four ys hy q,
  ),
  refl,
)

-- Every slice of 12 bytes is accepted, decodes to a timestamp in range, and is the encoding of that
-- timestamp. A slice of any other length is refused and leaves the receiver as it was.
pub marshal_binary-unmarshal_binary :
    (old : Timestamp) (bytes : List ℕ)
    → All IsByte bytes
    → (length bytes ≡ 12
        → IsTimestamp (unmarshal_binary old bytes).0
          × (marshal_binary (unmarshal_binary old bytes).0 ≡ bytes)
          × ((unmarshal_binary old bytes).1 ≡ none))
      × (length bytes ≢ 12 → unmarshal_binary old bytes ≡ (old, some corrupt_encoding))
unfolding Decodes unmarshal_binary
marshal_binary-unmarshal_binary old bytes h = (
  λ e.
      unfold Decodes in
      subst (Decodes old) (take-append-drop 8 bytes) (
        halves-Decodes old (take 8 bytes) (drop 8 bytes) (All-take IsByte 8 bytes h)
          (All-drop IsByte 8 bytes h) (length-take 8 bytes (omega arith))
          (omega (arith, length-drop {0} 8 bytes))),
  λ n. ground arith,
)
