-- ===== src/Ordering/Topological/Examples.antt =====
-- Runs of TopologicalSort, and its theorem at a concrete input.
use chrono.Prelude.{ℕ, ◌≡◌, refl, List, [], ◌∷◌, ltb, if◌then◌else◌}
use chrono.Prelude.Strings.{Str, str_eq, str_lt}
use chrono.Prelude.Sort.{sort_stable}
use chrono.GoMap.{lookup}
use chrono.Ordering.{Stamp, lamport_stamp, vector_stamp, happens_before}
use chrono.Ordering.Extremes.{Event}
use chrono.Ordering.Topological.{event_at, topological_sort}
use chrono.Ordering.Topological.Counts.{count}
use chrono.Ordering.Topological.Rounds.{pick, Respects, IsLeast}
use chrono.Ordering.Topological.Correct.{before, id_less, topological_sort_correct}
use chrono.Ordering.Topological.Stamps.{HasStamps, before_irrefl, before_trans}

abbrev event : Str → ℕ → Event ℕ ℕ
event id s = record { id = id; stamp = s; payload = 0 }

abbrev numbered : List (Event ℕ ℕ)
numbered =
    event (b'c' ∷ []) 1 ∷ event (b'a' ∷ []) 2 ∷ event (b'b' ∷ []) 1 ∷ event (b'd' ∷ []) 0 ∷ []

-- By the stamps first, and by the ids where they are equal.
sorted_numbers :
    topological_sort ltb numbered
    ≡ event (b'd' ∷ []) 0 ∷ event (b'b' ∷ []) 1 ∷ event (b'c' ∷ []) 1 ∷ event (b'a' ∷ []) 2 ∷ []
unfolding topological_sort sort_stable str_lt
sorted_numbers = refl

empty_input : topological_sort {D = ℕ} ltb [] ≡ []
unfolding topological_sort
empty_input = refl

abbrev stamped : Str → Stamp → Event Stamp ℕ
stamped id s = record { id = id; stamp = s; payload = 0 }

-- A vector stamp after another one, and a Lamport stamp beside them.
abbrev mixed : List (Event Stamp ℕ)
mixed =
    stamped (b'a' ∷ [])
      (vector_stamp (record { node_id = b'n' ∷ []; vec = (b'n' ∷ [], 2) ∷ (b'm' ∷ [], 1) ∷ [] }))
    ∷ stamped (b'c' ∷ []) (lamport_stamp 7)
    ∷ stamped (b'b' ∷ []) (vector_stamp (record { node_id = b'm' ∷ []; vec = (b'm' ∷ [], 1) ∷ [] }))
    ∷ []

mixed-HasStamps : HasStamps mixed
unfolding lookup str_eq
mixed-HasStamps = ((refl, (refl, tt)), (tt, ((refl, tt), tt)))

topological_sort_correct_example :
    (is : List ℕ) × (topological_sort happens_before mixed ≡ pick (event_at mixed) is)
    × ((i : ℕ) → count i is ≡ (if ltb i 3 then 1 else 0))
    × Respects (before happens_before mixed) is
    × IsLeast (before happens_before mixed) (id_less happens_before mixed) is
topological_sort_correct_example =
    topological_sort_correct happens_before mixed (before_irrefl mixed mixed-HasStamps)
      (before_trans mixed mixed-HasStamps)
