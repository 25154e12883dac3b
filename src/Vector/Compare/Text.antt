-- ===== src/Vector/Compare/Text.antt =====
-- vector/compare.go: the names of the relations. The case that returns "Unknown" is of no relation.
use chrono.Prelude.{[], ◌∷◌}
use chrono.Prelude.Strings.{Str}
use chrono.Vector.Compare.{Relation, before, after, equal, concurrent}

-- `Relation.String`
unfoldable pub to_string : Relation → Str
to_string before = b'B' ∷ b'e' ∷ b'f' ∷ b'o' ∷ b'r' ∷ b'e' ∷ []
to_string after = b'A' ∷ b'f' ∷ b't' ∷ b'e' ∷ b'r' ∷ []
to_string equal = b'E' ∷ b'q' ∷ b'u' ∷ b'a' ∷ b'l' ∷ []
to_string concurrent = b'C' ∷ b'o' ∷ b'n' ∷ b'c' ∷ b'u' ∷ b'r' ∷ b'r' ∷ b'e' ∷ b'n' ∷ b't' ∷ []
