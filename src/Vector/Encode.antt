-- ===== src/Vector/Encode.antt =====
-- vector/encode.go: the binary form of a snapshot. A byte slice
-- is a list of bytes. The lengths and offsets are ints far below 2 ^ 63: an offset is at most the
-- length of the slice, and what is added to it is below 2 ^ 17.
pub mod Buffer
pub mod Image
pub mod Entries
pub mod Errors
pub mod RoundTrip
mod Examples
use chrono.Prelude.{
  ℕ, zero, suc, ◌+◌, ◌-◌, ◌≡◌, Option, none, some, List, [], ◌∷◌, ◌++◌, ltb, ◌==◌, not,
  if◌then◌else◌, length, take, drop,
}
use chrono.Prelude.Bytes.{be_bytes, be_value}
use chrono.Prelude.Strings.{Str, str_lt}
use chrono.Prelude.Sort.{sort_stable}
use chrono.GoMap.{Counters, insert, counter}
use chrono.Vector.{Snapshot, keys}

-- `make([]byte, n)`
unfoldable pub zeros : ℕ → List ℕ
zeros zero = []
zeros (suc n) = 0 ∷ zeros n

-- `PutUint16(buff[off:], v)` and `PutUint64(buff[off:], v)` at the bytes of `v`: `none` is the panic
-- where the slice is too short for them.
unfoldable pub put : List ℕ → ℕ → List ℕ → Option (List ℕ)
put buff off bytes =
    if ltb (length buff) (off + length bytes)
    then none
    else some (take off buff ++ (bytes ++ drop (off + length bytes) buff))

-- `copy(buff[off:], k)`: as many bytes as there is room for; `none` is the panic of the slice
-- expression.
unfoldable pub copy_at : List ℕ → ℕ → Str → Option (List ℕ)
copy_at buff off k =
    if ltb (length buff) off
    then none
    else (let n = length buff - off in
        some (take off buff ++ (take n k ++ drop (off + length (take n k)) buff)))

infixl 5 ◌>>=◌
abbrev ◌>>=◌ : {A B : Type 0} → Option A → (A → Option B) → Option B
none >>= f = none
some a >>= f = f a

-- The second loop of `MarshalBinary`, over the keys that are left.
unfoldable pub write_loop : Counters → List Str → List ℕ → ℕ → Option (List ℕ)
unfolding put copy_at
write_loop vec [] buff off = some buff
write_loop vec (k ∷ rest) buff off = do
  buff ← put buff off (be_bytes 2 (length k))
  let off = off + 2
  buff ← copy_at buff off k
  let off = off + length k
  buff ← put buff off (be_bytes 8 (counter vec k))
  write_loop vec rest buff (off + 8)

-- What `MarshalBinary` returns: the bytes, or one of its two errors with what its message shows.
pub data Marshalled : Type 0 where
  encoded : List ℕ → Marshalled
  too_many_nodes : ℕ → Marshalled
  id_too_long : Str → Marshalled
  panics : Marshalled

-- The size that the first loop has at its end, or the key that it refuses.
pub data Size : Type 0 where
  size : ℕ → Size
  too_long : Str → Size

unfoldable pub size_loop : List Str → ℕ → Size
size_loop [] n = size n
size_loop (k ∷ rest) n =
    let more = size_loop rest (n + (2 + length k + 8)) in
    if ltb 0xFFFF (length k) then too_long k else more

abbrev or_panics : Option (List ℕ) → Marshalled
or_panics none = panics
or_panics (some buff) = encoded buff

-- From the allocation of the buffer on.
unfoldable pub write_all : Counters → List Str → Size → Marshalled
unfolding write_loop put
write_all vec ks (too_long k) = id_too_long k
write_all vec ks (size n) =
    or_panics (do buff ← put (zeros n) 0 (be_bytes 2 (length ks)); write_loop vec ks buff 2)

unfoldable pub marshal_binary : Snapshot → Marshalled
unfolding write_all size_loop
marshal_binary s =
    if ltb 0xFFFF (length s.vec)
    then too_many_nodes (length s.vec)
    else (let ks = sort_stable str_lt (keys s.vec) in write_all s.vec ks (size_loop ks 2))

pub data Error : Type 0 where
  corrupt_encoding : Error

-- `b[from:to]`, where `from` is at most `to` and `to` at most the length.
unfoldable pub slice : List ℕ → ℕ → ℕ → List ℕ
slice b from to = take (to - from) (drop from b)

-- The loop of `UnmarshalBinary`, with the number of rounds left: the offset and the map at its end,
-- or `none` for its return of the error.
unfoldable pub read_loop : ℕ → List ℕ → ℕ → Counters → Option (ℕ × Counters)
unfolding slice
read_loop zero bytes off vec = some (off, vec)
read_loop (suc n) bytes off vec =
    let id_len = be_value (slice bytes off (off + 2)) in
    let start = off + 2 in
    let id = slice bytes start (start + id_len) in
    let val = be_value (slice bytes (start + id_len) (start + id_len + 8)) in
    let rest = read_loop n bytes (start + id_len + 8) (insert id val vec) in
    if ltb (length bytes) (off + 2)
    then none
    else if ltb (length bytes) (start + id_len + 8)
    then none
    else rest

-- What `UnmarshalBinary` does with the end of its loop.
unfoldable pub finish : Snapshot → List ℕ → Option (ℕ × Counters) → Snapshot × Option Error
finish s bytes none = (s, some corrupt_encoding)
finish s bytes (some (off, vec)) =
    if not (off == length bytes)
    then (s, some corrupt_encoding)
    else (record { node_id = []; vec = vec }, none)

-- The receiver after the call, and the error if there is one.
unfoldable pub unmarshal_binary : Snapshot → List ℕ → Snapshot × Option Error
unfolding finish read_loop
unmarshal_binary s bytes =
    if ltb (length bytes) 2
    then (s, some corrupt_encoding)
    else finish s bytes (read_loop (be_value (slice bytes 0 2)) bytes 2 [])
