-- ===== src/VectorKv.antt =====
-- examples/vector_kv/main.go: a key-value store that keeps the values of concurrent writes as
-- siblings.
pub mod Siblings
pub mod Writes
pub mod Frontier
pub mod Covers
pub mod History
pub mod Session
mod Examples
use chrono.Prelude.{Bool, true, false, Option, none, some, List, [], ◌∷◌, ◌++◌, if◌then◌else◌}
use chrono.Prelude.Strings.{Str}
use chrono.GoMap.{Map, lookup, insert}
use chrono.Vector.{Snapshot}
use chrono.Vector.Compare.{Relation, before, after, equal, concurrent, compare}

pub record VersionedValue : Type 0 where
  pub value : Str
  pub version : Snapshot

pub record Store : Type 0 where
  pub rows : Map (List VersionedValue)

unfoldable pub new_store : Store
new_store = record { rows = [] }

-- `rel == vector.Before || rel == vector.Equal`
abbrev pub is_stale : Relation → Bool
is_stale before = true
is_stale after = false
is_stale equal = true
is_stale concurrent = false

abbrev pub is_older : Relation → Bool
is_older before = true
is_older after = false
is_older equal = false
is_older concurrent = false

-- The first loop of `write`: whether it returns.
unfoldable pub stale_loop : Snapshot → List VersionedValue → Bool
stale_loop version [] = false
stale_loop version (row ∷ rest) =
    let more = stale_loop version rest in
    if is_stale (compare version row.version) then true else more

-- The second loop of `write`.
unfoldable pub keep_loop :
    Snapshot → List VersionedValue → List VersionedValue → List VersionedValue
keep_loop version [] keepers = keepers
keep_loop version (row ∷ rest) keepers =
    keep_loop version rest
      (if is_older (compare row.version version) then keepers else keepers ++ (row ∷ []))

-- A missing key reads as the nil slice.
abbrev pub or_nil : Option (List VersionedValue) → List VersionedValue
or_nil none = []
or_nil (some rows) = rows

unfoldable pub read : Store → Str → List VersionedValue
read s key = or_nil (lookup key s.rows)

unfoldable pub write : Store → Str → Str → Snapshot → Store
unfolding read
write s key value version =
    let existing = read s key in
    if stale_loop version existing then s else record {
      rows =
          insert key
            (keep_loop version existing [] ++ (record { value = value; version = version } ∷ []))
            s.rows;
    }
