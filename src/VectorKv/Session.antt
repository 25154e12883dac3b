-- ===== src/VectorKv/Session.antt =====
-- examples/vector_kv/main.go: `main`, from the clients' node ids, the key and the three values that they
-- write, and versionStr. The lines that only print are left out.
pub mod Conflict
pub mod Version
mod Examples
use chrono.Prelude.{
  ℕ, Bool, ltb, length, ◌≡◌, ◌≢◌, refl, true, false, List, [], ◌∷◌, ◌++◌, if◌then◌else◌,
}
use chrono.Prelude.Strings.{Str, str_eq, str_lt, str_eq_iff, str_eq_refl}
use chrono.Prelude.Decimal.{decimal}
use chrono.Prelude.Sort.{sort_stable}
use chrono.GoMap.{insert, copy_into, lookup}
use chrono.GoMap.Loops.{merge_loop}
use chrono.Vector.{Snapshot, new, send, receive, now, get, nodes, bump, snapshot_locked}
use chrono.Vector.Compare.{compare, compare_loop, absent_loop, relation}
use chrono.VectorKv.{VersionedValue, new_store, read, write, stale_loop, keep_loop}

-- The versions that `main` prints, the rows that it reads, and whether it says that there is a conflict.
pub record Session : Type 0 where
  pub first : Snapshot
  pub caught_up : Snapshot
  pub a_write : Snapshot
  pub b_write : Snapshot
  pub rows : List VersionedValue
  pub conflict : Bool

unfoldable pub session : Str → Str → Str → Str → Str → Str → Session
session a b key value a_value b_value =
    let (client_a, first) = send (new a) in
    let db = write new_store key value first in
    let (client_b, merged) = receive (new b) first in
    let (client_a', a_write) = send client_a in
    let (client_b', b_write) = send client_b in
    let db' = write db key a_value a_write in
    let db'' = write db' key b_value b_write in
    record {
      first = first;
      caught_up = now client_b;
      a_write = a_write;
      b_write = b_write;
      rows = read db'' key;
      conflict = ltb 1 (length (read db'' key));
    }

-- `fmt.Sprintf("%s:%d", n, snap.Get(n))`
abbrev pub part : Snapshot → Str → Str
part snap n = n ++ ((b':' ∷ []) ++ decimal (get snap n))

-- The rest of `strings.Join(parts, ", ")` after a part.
abbrev pub more_parts : Snapshot → List Str → Str
more_parts snap [] = []
more_parts snap (n ∷ ns) = (b',' ∷ b' ' ∷ []) ++ (part snap n ++ more_parts snap ns)

abbrev pub join_parts : Snapshot → List Str → Str
join_parts snap [] = []
join_parts snap (n ∷ ns) = part snap n ++ more_parts snap ns

unfoldable pub version_str : Snapshot → Str
version_str snap = (b'{' ∷ []) ++ (join_parts snap (sort_stable str_lt (nodes snap)) ++ (b'}' ∷ []))
