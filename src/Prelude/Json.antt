-- ===== src/Prelude/Json.antt =====
-- encoding/json, a parameter: json.Marshal and json.Unmarshal for a type `J` of Go values. Marshal
-- returns the bytes and the error; Unmarshal starts from the value that is passed and returns the value
-- after the call, with the error.
use Prim.Native.Nat.{ℕ}
use mathlib.Core.Path.{◌≡◌}
use mathlib.Core.Option.{Option, none}
use mathlib.Core.List.{List}

pub record Json (J Error : Type 0) : Type 0 where
  pub marshal : J → List ℕ × Option Error
  pub unmarshal : List ℕ → J → J × Option Error

-- What the package documents for a value that its output can hold: Marshal writes `j` as bytes from
-- which Unmarshal, started at `zero_value`, reads `k`.
pub record Restores {J Error : Type 0} (json : Json J Error) (zero_value j k : J) : Type 0 where
  pub bytes : List ℕ
  pub written : json.marshal j ≡ (bytes, none)
  pub parsed : json.unmarshal bytes zero_value ≡ (k, none)
