-- ===== src/Vector/Json/Examples.antt =====
-- Runs of the JSON form of snapshots, and its theorem at a concrete input.
use chrono.Prelude.{ℕ, ◌≡◌, refl, Option, none, some, List, [], ◌∷◌, arith}
use chrono.Prelude.Strings.{Str, str_eq, str_eq_iff}
use chrono.Prelude.Json.{Json}
use chrono.GoMap.{Counters, lookup, IsMap}
use chrono.Vector.{Snapshot}
use chrono.Vector.Encode.{marshal_binary, unmarshal_binary, encoded}
use chrono.Vector.Json.{JsonSnapshot, marshal_json, unmarshal_json, take_json}
use chrono.Vector.Json.Wire.{ActsAs, RestoresMap, wire_transparent}

data Failure : Type 0 where
  unexpected_end : Failure

abbrev sent : Snapshot
sent = record { node_id = b'b' ∷ []; vec = (b'b' ∷ [], 3) ∷ (b'a' ∷ [], 258) ∷ [] }

-- The object comes back with its keys in order.
abbrev parsed_order : Counters
parsed_order = (b'a' ∷ [], 258) ∷ (b'b' ∷ [], 3) ∷ []

abbrev payload : List ℕ
payload = b'{' ∷ b'}' ∷ []

-- Bytes stand for the object, and no bytes for an input that ends early.
abbrev unmarshal_object : List ℕ → JsonSnapshot → JsonSnapshot × Option Failure
unmarshal_object [] j = (j, some unexpected_end)
unmarshal_object (x ∷ xs) j = (record { node_id = b'b' ∷ []; vec = some parsed_order }, none)

abbrev json : Json JsonSnapshot Failure
json = record { marshal = λ j. (payload, none); unmarshal = unmarshal_object }

-- An object without a map gives an empty one.
abbrev no_map : Json JsonSnapshot Failure
no_map = record { marshal = λ j. (payload, none); unmarshal = λ bytes j. (j, none) }

unmarshal_fails : unmarshal_json json sent [] ≡ (sent, some unexpected_end)
unfolding unmarshal_json take_json
unmarshal_fails = refl

unmarshal_nil : unmarshal_json no_map sent payload ≡ (record { node_id = []; vec = [] }, none)
unfolding unmarshal_json take_json
unmarshal_nil = refl

sent-IsMap : IsMap sent.vec
unfolding lookup str_eq
sent-IsMap = (refl, (refl, tt))

parsed_order-IsMap : IsMap parsed_order
unfolding lookup str_eq
parsed_order-IsMap = (refl, (refl, tt))

parsed_order-same : (k : Str) → lookup k parsed_order ≡ lookup k sent.vec
unfolding lookup
parsed_order-same k = ground (arith, str_eq_iff (b'a' ∷ []) k, str_eq_iff (b'b' ∷ []) k)

json-RestoresMap : RestoresMap json sent
json-RestoresMap = record {
  order = parsed_order;
  is_map = parsed_order-IsMap;
  same = parsed_order-same;
  restores = record { bytes = payload; written = refl; parsed = refl };
}

wire_transparent_example :
    ((bytes : List ℕ) × (d : Snapshot) × (marshal_binary sent ≡ encoded bytes)
      × (unmarshal_binary sent bytes ≡ (d, none))
      × (d.node_id ≡ [])
      × ActsAs sent d)
    × ((bytes : List ℕ) × (d : Snapshot) × (marshal_json json sent ≡ (bytes, none))
        × (unmarshal_json json sent bytes ≡ (d, none))
        × (d.node_id ≡ sent.node_id)
        × ActsAs sent d)
wire_transparent_example =
    wire_transparent json sent sent sent-IsMap (omega arith) (omega arith) json-RestoresMap
