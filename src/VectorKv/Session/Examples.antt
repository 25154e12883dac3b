-- ===== src/VectorKv/Session/Examples.antt =====
-- Runs of the program's session, and its theorems at the program's strings.
use chrono.Prelude.{not, ◌≡◌, refl, [], ◌∷◌, if◌then◌else◌}
use chrono.Prelude.Strings.{Str, str_eq, str_lt}
use chrono.Prelude.Sort.{sort_stable}
use chrono.Prelude.Decimal.{decimal, digits}
use chrono.GoMap.{insert, copy_into, lookup}
use chrono.GoMap.Loops.{merge_loop}
use chrono.Vector.{new, send, receive, get, nodes, keys}
use chrono.Vector.Compare.{compare, concurrent, before}
use chrono.VectorKv.Session.{Session, session, version_str}
use chrono.VectorKv.Session.Conflict.{session_rows}

abbrev a : Str
a = b'c' ∷ b'A' ∷ []

abbrev b : Str
b = b'c' ∷ b'B' ∷ []

abbrev key : Str
key = b'u' ∷ b'4' ∷ []

abbrev first_value : Str
first_value = b'i' ∷ []

abbrev a_value : Str
a_value = b'x' ∷ []

abbrev b_value : Str
b_value = b'y' ∷ []

abbrev run : Session
run = session a b key first_value a_value b_value

printed :
    version_str run.b_write
    ≡ b'{' ∷ b'c' ∷ b'A' ∷ b':' ∷ b'1' ∷ b',' ∷ b' ' ∷ b'c' ∷ b'B' ∷ b':' ∷ b'2' ∷ b'}' ∷ []
unfolding version_str session send receive new insert copy_into lookup merge_loop str_eq nodes keys
    get sort_stable str_lt decimal digits
printed = refl

session_rows_example :
    (run.rows ≡ (
      if str_eq a b
      then record { value = b_value; version = run.b_write } ∷ []
      else record { value = a_value; version = run.a_write }
        ∷ record { value = b_value; version = run.b_write }
        ∷ []))
    × (compare run.a_write run.b_write ≡ (if str_eq a b then before else concurrent))
    × (run.conflict ≡ not (str_eq a b))
session_rows_example = session_rows a b key first_value a_value b_value
