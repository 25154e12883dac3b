-- ===== src/VectorKv/Examples.antt =====
-- Runs of the store, and its theorem at a concrete input.
use chrono.Prelude.{List, All, ◌≡◌, refl, [], ◌∷◌}
use chrono.Prelude.Strings.{Str, str_eq}
use chrono.GoMap.{IsMap, insert, lookup}
use chrono.Vector.{Snapshot}
use chrono.VectorKv.{VersionedValue, Store, new_store, stale_loop, keep_loop, read, write}
use chrono.Vector.Compare.{compare, compare_loop, absent_loop}
use chrono.VectorKv.Siblings.{IsAntichain, Covered}
use chrono.VectorKv.Frontier.{frontier}
use chrono.VectorKv.History.{Write, perform, written, write_history}

abbrev a : Str
a = b'a' ∷ []

abbrev b : Str
b = b'b' ∷ []

-- The versions of the program's run: client A writes first, then both clients edit.
abbrev initial : Snapshot
initial = record { node_id = a; vec = (a, 1) ∷ [] }

abbrev a_write : Snapshot
a_write = record { node_id = a; vec = (a, 2) ∷ [] }

abbrev b_write : Snapshot
b_write = record { node_id = b; vec = (a, 1) ∷ (b, 2) ∷ [] }

abbrev edited : Store
edited = record { rows = (a, record { value = a; version = a_write } ∷ []) ∷ [] }

run : write (write new_store a b initial) a a a_write ≡ edited
unfolding write new_store stale_loop keep_loop compare compare_loop absent_loop insert lookup str_eq
run = refl

conflict :
    read (write edited a b b_write) a
    ≡ record { value = a; version = a_write } ∷ record { value = b; version = b_write } ∷ []
unfolding write read stale_loop keep_loop compare compare_loop absent_loop insert lookup str_eq
conflict = refl

stale : write edited a b initial ≡ edited
unfolding write read stale_loop compare compare_loop absent_loop lookup str_eq
stale = refl

-- The calls of the program's run, and one of another key.
abbrev calls : List Write
calls =
    record { key = a; value = b; version = initial }
    ∷ record { key = a; value = a; version = a_write }
    ∷ record { key = b; value = b; version = initial }
    ∷ record { key = a; value = b; version = b_write }
    ∷ []

calls-IsMap : All (λ (w : Write). IsMap w.version.vec) calls
unfolding lookup str_eq
calls-IsMap = ((refl, tt), ((refl, tt), ((refl, tt), ((refl, (refl, tt)), tt))))

left_over :
    frontier [] (written a calls)
    ≡ record { value = a; version = a_write } ∷ record { value = b; version = b_write } ∷ []
unfolding compare compare_loop absent_loop lookup str_eq
left_over = refl

write_history_example :
    (read (perform new_store calls) a ≡ frontier [] (written a calls))
    × IsAntichain (read (perform new_store calls) a)
    × All
        (λ (y : VersionedValue). Covered (read (perform new_store calls) a) y.version)
        (written a calls)
write_history_example = write_history calls a calls-IsMap
