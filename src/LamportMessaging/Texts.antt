-- ===== src/LamportMessaging/Texts.antt =====
-- The strings of examples/lamport_messaging/main.go.
use chrono.Prelude.{[], ◌∷◌}
use chrono.Prelude.Strings.{Str}

abbrev pub a : Str
a = b'A' ∷ []

abbrev pub b : Str
b = b'B' ∷ []

abbrev pub tick_kind : Str
tick_kind = b't' ∷ b'i' ∷ b'c' ∷ b'k' ∷ []

abbrev pub send_kind : Str
send_kind = b's' ∷ b'e' ∷ b'n' ∷ b'd' ∷ []

abbrev pub recv_kind : Str
recv_kind = b'r' ∷ b'e' ∷ b'c' ∷ b'v' ∷ []

abbrev pub hello : Str
hello = b'h' ∷ b'e' ∷ b'l' ∷ b'l' ∷ b'o' ∷ []

abbrev pub world : Str
world = b'w' ∷ b'o' ∷ b'r' ∷ b'l' ∷ b'd' ∷ []

abbrev pub loading_config : Str
loading_config =
    b'l' ∷ b'o' ∷ b'a' ∷ b'd' ∷ b'i' ∷ b'n' ∷ b'g' ∷ b' ' ∷ b'c' ∷ b'o' ∷ b'n' ∷ b'f' ∷ b'i' ∷ b'g'
    ∷ []

abbrev pub init_complete : Str
init_complete =
    b'i' ∷ b'n' ∷ b'i' ∷ b't' ∷ b' ' ∷ b'c' ∷ b'o' ∷ b'm' ∷ b'p' ∷ b'l' ∷ b'e' ∷ b't' ∷ b'e' ∷ []

abbrev pub hello_to_b : Str
hello_to_b = b'"' ∷ b'h' ∷ b'e' ∷ b'l' ∷ b'l' ∷ b'o' ∷ b'"' ∷ b' ' ∷ b't' ∷ b'o' ∷ b' ' ∷ b'B' ∷ []

abbrev pub from_b : Str
from_b = b' ' ∷ b'f' ∷ b'r' ∷ b'o' ∷ b'm' ∷ b' ' ∷ b'B' ∷ []

abbrev pub shutting_down : Str
shutting_down =
    b's' ∷ b'h' ∷ b'u' ∷ b't' ∷ b't' ∷ b'i' ∷ b'n' ∷ b'g' ∷ b' ' ∷ b'd' ∷ b'o' ∷ b'w' ∷ b'n' ∷ []

abbrev pub warming_up : Str
warming_up = b'w' ∷ b'a' ∷ b'r' ∷ b'm' ∷ b'i' ∷ b'n' ∷ b'g' ∷ b' ' ∷ b'u' ∷ b'p' ∷ []

abbrev pub from_a : Str
from_a = b' ' ∷ b'f' ∷ b'r' ∷ b'o' ∷ b'm' ∷ b' ' ∷ b'A' ∷ []

abbrev pub world_to_a : Str
world_to_a = b'"' ∷ b'w' ∷ b'o' ∷ b'r' ∷ b'l' ∷ b'd' ∷ b'"' ∷ b' ' ∷ b't' ∷ b'o' ∷ b' ' ∷ b'A' ∷ []
