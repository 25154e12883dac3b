-- ===== src/Vector/Encode/Examples.antt =====
-- Runs of the binary form of snapshots, and its theorems at concrete inputs.
use chrono.Prelude.{
  ℕ, ◌≤◌, ◌<◌, ◌≡◌, refl, true, none, some, List, [], ◌∷◌, ◌++◌, All, length, arith,
}
use chrono.Prelude.Strings.{Str, str_eq, str_eq_iff, str_lt}
use chrono.Prelude.Bytes.{be_bytes, be_value}
use chrono.Prelude.Sort.{member, sort_stable}
use chrono.GoMap.{Counters, lookup, insert, IsMap}
use chrono.Vector.{Snapshot, keys}
use chrono.Vector.Encode.{
  encoded, too_many_nodes, id_too_long, zeros, marshal_binary, unmarshal_binary, corrupt_encoding,
}
use chrono.Vector.Encode.Image.{image, entries, sorted_keys, IsShort, marshal_binary_branches}
use chrono.Vector.Encode.RoundTrip.{marshal_binary_deterministic}
use chrono.Vector.Encode.Errors.{unmarshal_binary_prefix}

abbrev two_nodes : Snapshot
two_nodes = record { node_id = b'b' ∷ []; vec = (b'b' ∷ [], 3) ∷ (b'a' ∷ b'a' ∷ [], 258) ∷ [] }

abbrev two_nodes_bytes : List ℕ
two_nodes_bytes =
    0 ∷ 2 ∷ 0 ∷ 2 ∷ b'a' ∷ b'a' ∷ 0 ∷ 0 ∷ 0 ∷ 0 ∷ 0 ∷ 0 ∷ 1 ∷ 2 ∷ 0 ∷ 1 ∷ b'b' ∷ 0 ∷ 0 ∷ 0 ∷ 0 ∷ 0
    ∷ 0 ∷ 0 ∷ 3 ∷ []

-- In the order of the keys.
encoding : marshal_binary two_nodes ≡ encoded two_nodes_bytes
unfolding marshal_binary zeros sort_stable str_lt keys be_bytes lookup str_eq
encoding = refl

decoding :
    unmarshal_binary two_nodes two_nodes_bytes
    ≡ (record { node_id = []; vec = (b'a' ∷ b'a' ∷ [], 258) ∷ (b'b' ∷ [], 3) ∷ [] }, none)
unfolding unmarshal_binary be_value insert str_eq
decoding = refl

-- A key that occurs twice is accepted, and the later counter stays.
repeated_key :
    unmarshal_binary two_nodes (
      0 ∷ 2 ∷ 0 ∷ 1 ∷ b'a' ∷ 0 ∷ 0 ∷ 0 ∷ 0 ∷ 0 ∷ 0 ∷ 0 ∷ 9 ∷ 0 ∷ 1 ∷ b'a' ∷ 0 ∷ 0 ∷ 0 ∷ 0 ∷ 0 ∷ 0
      ∷ 0 ∷ 4 ∷ [])
    ≡ (record { node_id = []; vec = (b'a' ∷ [], 4) ∷ [] }, none)
unfolding unmarshal_binary be_value insert str_eq
repeated_key = refl

one_byte : unmarshal_binary two_nodes (0 ∷ []) ≡ (two_nodes, some corrupt_encoding)
unfolding unmarshal_binary
one_byte = refl

two_nodes-IsMap : IsMap two_nodes.vec
unfolding lookup str_eq
two_nodes-IsMap = (refl, (refl, tt))

abbrev swapped : Counters
swapped = (b'a' ∷ b'a' ∷ [], 258) ∷ (b'b' ∷ [], 3) ∷ []

swapped-IsMap : IsMap swapped
unfolding lookup str_eq
swapped-IsMap = (refl, (refl, tt))

swapped-same : (k : Str) → lookup k two_nodes.vec ≡ lookup k swapped
unfolding lookup
swapped-same k = ground (arith, str_eq_iff (b'a' ∷ b'a' ∷ []) k, str_eq_iff (b'b' ∷ []) k)

marshal_binary_branches_example :
    (0xFFFF < length two_nodes.vec
      → marshal_binary two_nodes ≡ too_many_nodes (length two_nodes.vec))
    × (length two_nodes.vec ≤ 0xFFFF
        → All IsShort (keys two_nodes.vec)
        → marshal_binary two_nodes
          ≡ encoded (
              be_bytes 2 (length two_nodes.vec)
              ++ image (entries two_nodes.vec (sorted_keys two_nodes.vec))))
    × (length two_nodes.vec ≤ 0xFFFF
        → (j : Str) → member j (keys two_nodes.vec) ≡ true
        → 0xFFFF < length j
        → (k : Str) × (marshal_binary two_nodes ≡ id_too_long k)
          × (0xFFFF < length k)
          × (member k (keys two_nodes.vec) ≡ true))
marshal_binary_branches_example = marshal_binary_branches two_nodes

marshal_binary_deterministic_example :
    marshal_binary two_nodes ≡ marshal_binary (record { node_id = []; vec = swapped })
marshal_binary_deterministic_example =
    marshal_binary_deterministic two_nodes (record { node_id = []; vec = swapped }) two_nodes-IsMap
      swapped-IsMap swapped-same

unmarshal_binary_prefix_example :
    ((unmarshal_binary two_nodes (0 ∷ 0 ∷ [])).1 ≡ none
      → unmarshal_binary two_nodes (0 ∷ 0 ∷ 7 ∷ []) ≡ (two_nodes, some corrupt_encoding))
    × ((unmarshal_binary two_nodes (0 ∷ 0 ∷ 7 ∷ [])).1 ≡ none
        → unmarshal_binary two_nodes (0 ∷ 0 ∷ []) ≡ (two_nodes, some corrupt_encoding))
unmarshal_binary_prefix_example = unmarshal_binary_prefix two_nodes (0 ∷ 0 ∷ []) 7 []
