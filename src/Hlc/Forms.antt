-- ===== src/Hlc/Forms.antt =====
-- hlc/encode.go and hlc/clock.go: reading a timestamp back from its bytes, its JSON and its text.
use chrono.Prelude.{
  ℕ, false, suc, ◌-◌, ◌≡◌, refl, ap, ◌∙◌, none, List, [], ◌∷◌, ◌++◌, ◌==◌, if◌then◌else◌, arith,
}
use chrono.Prelude.Int.{ℤ, pos, negsuc}
use chrono.Prelude.Words.{IsI64}
use chrono.Prelude.Strings.{Str}
use chrono.Prelude.Json.{Json, Restores}
use chrono.Prelude.Decimal.{decimal, value, decimal_value, HasDigits, decimal-HasDigits}
use chrono.Hlc.{Timestamp, IsTimestamp}
use chrono.Hlc.Encode.{marshal_binary, unmarshal_binary}
use chrono.Hlc.Encode.RoundTrip.{unmarshal_binary-marshal_binary}
use chrono.Hlc.Json.{
  JsonTimestamp, zero_value, marshal_json, unmarshal_json, marshal_json_round_trip,
}
use chrono.Hlc.Text.{decimal_ℤ, to_string}

-- What is in front of the first point, and what is behind it.
abbrev pub split : Str → Str × Str
split [] = ([], [])
split (c ∷ cs) = let rest = split cs in if c == b'.' then ([], cs) else (c ∷ rest.0, rest.1)

-- An integer from its numeral.
abbrev pub parse_ℤ : Str → ℤ
parse_ℤ [] = pos 0
parse_ℤ (c ∷ cs) = if c == b'-' then negsuc (value 0 cs - 1) else pos (value 0 (c ∷ cs))

-- A timestamp from its text.
abbrev pub parse : Str → Timestamp
parse text =
    let (wall, logical) = split text in
    record { wall_time = parse_ℤ wall; logical = value 0 logical }

split-digits : (front back : Str) → HasDigits front → split (front ++ (b'.' ∷ back)) ≡ (front, back)
split-digits [] back h = refl
split-digits (c ∷ cs) back (p, h) =
    let e : (c == b'.') ≡ false = ground arith in
    rw e (ap (λ (r : Str × Str). (c ∷ r.0, r.1)) (split-digits cs back h))

split-numeral : (z : ℤ) (back : Str) → split (decimal_ℤ z ++ (b'.' ∷ back)) ≡ (decimal_ℤ z, back)
unfolding decimal_ℤ
split-numeral (pos n) back = split-digits (decimal n) back (decimal-HasDigits n)
split-numeral (negsuc n) back =
    ap (λ (r : Str × Str). (b'-' ∷ r.0, r.1))
      (split-digits (decimal (suc n)) back (decimal-HasDigits (suc n)))

parse_ℤ-digits : (cs : Str) → HasDigits cs → parse_ℤ cs ≡ pos (value 0 cs)
unfolding value
parse_ℤ-digits [] h = refl
parse_ℤ-digits (c ∷ cs) (p, h) = ground arith

parse_ℤ-decimal_ℤ : (z : ℤ) → IsI64 z → parse_ℤ (decimal_ℤ z) ≡ z
unfolding decimal_ℤ
parse_ℤ-decimal_ℤ (pos n) h =
    parse_ℤ-digits (decimal n) (decimal-HasDigits n)
    ∙ ap pos (decimal_value n (omega (arith, h.below)))
parse_ℤ-decimal_ℤ (negsuc n) h =
    let e : suc n - 1 ≡ n = omega arith in
    ap (λ m. negsuc (m - 1)) (decimal_value (suc n) (omega (arith, h.above))) ∙ ap negsuc e

parse-to_string : (a : Timestamp) → IsTimestamp a → parse (to_string a) ≡ a
unfolding to_string
parse-to_string a h = rw (split-numeral a.wall_time (decimal a.logical)) (λ i. record {
  wall_time = parse_ℤ-decimal_ℤ a.wall_time h.wall_fits i;
  logical = decimal_value a.logical (omega (arith, h.logical_fits)) i;
})

-- A timestamp can be read back from each of its forms: UnmarshalBinary gives it from its 12 bytes and
-- UnmarshalJSON from its JSON, where encoding/json restores the object, whatever the receiver held; and
-- the two numerals in front of and behind the first point of its String have its two fields as values.
pub forms_round_trip :
    {Error : Type 0} (json : Json JsonTimestamp Error) (a old : Timestamp)
    → IsTimestamp a
    → Restores json zero_value
        (record { wall_time = a.wall_time; logical = a.logical })
        (record { wall_time = a.wall_time; logical = a.logical })
    → (unmarshal_binary old (marshal_binary a) ≡ (a, none))
      × ((bytes : List ℕ) × (marshal_json json a ≡ (bytes, none))
          × (unmarshal_json json old bytes ≡ (a, none)))
      × (parse (to_string a) ≡ a)
forms_round_trip json a old h r = (
  unmarshal_binary-marshal_binary a old h,
  marshal_json_round_trip json a old r,
  parse-to_string a h,
)
