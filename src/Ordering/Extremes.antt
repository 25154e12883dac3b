-- ===== src/Ordering/Extremes.antt =====
-- ordering/partial_order.go: MaximalElements and MinimalElements, for any stamps with a
-- HappensBefore.
pub mod Frontier
use chrono.Prelude.{ℕ, ◌+◌, Bool, true, false, List, [], ◌∷◌, ◌++◌, ◌==◌, if◌then◌else◌}
use chrono.Prelude.Strings.{Str}

-- `payload` is the field Data, of any type.
pub record Event {ℓ} (T D : Type ℓ) : Type ℓ where
  pub id : Str
  pub stamp : T
  pub payload : D

module _ {ℓ} {T D : Type ℓ} (happens_before : T → T → Bool) where
  -- The inner loop of MaximalElements at the event `e` with index `i`, from index `j` on.
  unfoldable pub is_max_loop : ℕ → Event T D → ℕ → List (Event T D) → Bool
  is_max_loop i e j [] = true
  is_max_loop i e j (f ∷ rest) =
      let more = is_max_loop i e (j + 1) rest in
      if i == j then more else if happens_before e.stamp f.stamp then false else more

  unfoldable pub maximal_loop :
      List (Event T D) → ℕ → List (Event T D) → List (Event T D) → List (Event T D)
  maximal_loop events i [] out = out
  maximal_loop events i (e ∷ rest) out =
      maximal_loop events (i + 1) rest (if is_max_loop i e 0 events then out ++ (e ∷ []) else out)

  unfoldable pub maximal_elements : List (Event T D) → List (Event T D)
  unfolding maximal_loop is_max_loop
  maximal_elements events = maximal_loop events 0 events []

  unfoldable pub is_min_loop : ℕ → Event T D → ℕ → List (Event T D) → Bool
  is_min_loop i e j [] = true
  is_min_loop i e j (f ∷ rest) =
      let more = is_min_loop i e (j + 1) rest in
      if i == j then more else if happens_before f.stamp e.stamp then false else more

  unfoldable pub minimal_loop :
      List (Event T D) → ℕ → List (Event T D) → List (Event T D) → List (Event T D)
  minimal_loop events i [] out = out
  minimal_loop events i (e ∷ rest) out =
      minimal_loop events (i + 1) rest (if is_min_loop i e 0 events then out ++ (e ∷ []) else out)

  unfoldable pub minimal_elements : List (Event T D) → List (Event T D)
  unfolding minimal_loop is_min_loop
  minimal_elements events = minimal_loop events 0 events []
