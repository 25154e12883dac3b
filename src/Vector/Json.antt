-- ===== src/Vector/Json.antt =====
-- vector/encode.go: the JSON form of a snapshot. encoding/json is a parameter.
pub mod Wire
mod Examples
use chrono.Prelude.{ℕ, Option, none, some, List, []}
use chrono.Prelude.Strings.{Str}
use chrono.Prelude.Json.{Json}
use chrono.GoMap.{Counters}
use chrono.Vector.{Snapshot}

-- `jsonSnapshot`, whose map is nil where the input has none.
pub record JsonSnapshot : Type 0 where
  pub node_id : Str
  pub vec : Option Counters

-- The map of a Snapshot that a Clock made is not nil.
unfoldable pub marshal_json :
    {Error : Type 0} → Json JsonSnapshot Error → Snapshot → List ℕ × Option Error
marshal_json json s = json.marshal (record { node_id = s.node_id; vec = some s.vec })

-- `var j jsonSnapshot`
abbrev pub zero_snapshot : JsonSnapshot
zero_snapshot = record { node_id = []; vec = none }

-- `if j.Vec == nil { s.vec = make(...) } else { s.vec = j.Vec }`
abbrev pub or_empty : Option Counters → Counters
or_empty none = []
or_empty (some vec) = vec

-- What `UnmarshalJSON` does with the result of json.Unmarshal.
unfoldable pub take_json :
    {Error : Type 0} → Snapshot → JsonSnapshot × Option Error → Snapshot × Option Error
take_json s (j, some e) = (s, some e)
take_json s (j, none) = (record { node_id = j.node_id; vec = or_empty j.vec }, none)

-- The receiver after the call, and the error if there is one.
unfoldable pub unmarshal_json :
    {Error : Type 0} → Json JsonSnapshot Error → Snapshot → List ℕ → Snapshot × Option Error
unfolding take_json
unmarshal_json json s bytes = take_json s (json.unmarshal bytes zero_snapshot)
