-- ===== src/Hlc/Json.antt =====
-- hlc/encode.go: the JSON form of a timestamp. encoding/json is a parameter.
use chrono.Prelude.{ℕ, ◌≡◌, ap, Option, none, some, List}
use chrono.Prelude.Int.{ℤ, pos}
use chrono.Prelude.Json.{Json, Restores}
use chrono.Hlc.{Timestamp}

-- `jsonTimestamp`
pub record JsonTimestamp : Type 0 where
  pub wall_time : ℤ
  pub logical : ℕ

unfoldable pub marshal_json :
    {Error : Type 0} → Json JsonTimestamp Error → Timestamp → List ℕ × Option Error
marshal_json json a = json.marshal (record { wall_time = a.wall_time; logical = a.logical })

-- `var j jsonTimestamp`
abbrev pub zero_value : JsonTimestamp
zero_value = record { wall_time = pos 0; logical = 0 }

-- What `UnmarshalJSON` does with the result of json.Unmarshal.
unfoldable pub take_json :
    {Error : Type 0} → Timestamp → JsonTimestamp × Option Error → Timestamp × Option Error
take_json a (j, some e) = (a, some e)
take_json a (j, none) = (record { wall_time = j.wall_time; logical = j.logical }, none)

-- The receiver after the call, and the error if there is one.
unfoldable pub unmarshal_json :
    {Error : Type 0} → Json JsonTimestamp Error → Timestamp → List ℕ → Timestamp × Option Error
unfolding take_json
unmarshal_json json a bytes = take_json a (json.unmarshal bytes zero_value)

-- Where encoding/json restores the object, UnmarshalJSON gives the timestamp back, whatever the
-- receiver held.
pub marshal_json_round_trip :
    {Error : Type 0} (json : Json JsonTimestamp Error) (a old : Timestamp)
    → Restores json zero_value
        (record { wall_time = a.wall_time; logical = a.logical })
        (record { wall_time = a.wall_time; logical = a.logical })
    → (bytes : List ℕ) × (marshal_json json a ≡ (bytes, none))
      × (unmarshal_json json old bytes ≡ (a, none))
unfolding marshal_json unmarshal_json take_json
marshal_json_round_trip json a old r = (r.bytes, r.written, ap (take_json old) r.parsed)
