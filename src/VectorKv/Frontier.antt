-- ===== src/VectorKv/Frontier.antt =====
-- examples/vector_kv/main.go: the entries that a history leaves, by a definition over all of it.
use chrono.Prelude.{
  Bool, ◌≡◌, refl, true, false, List, [], ◌∷◌, ◌++◌, ◌||◌, inl, inr, Bool-cases, arith,
  if◌then◌else◌,
}
use mathlib.Core.List.{append_assoc, append-nil}
use chrono.Vector.{Snapshot}
use chrono.Vector.Compare.{compare}
use chrono.VectorKv.{VersionedValue, is_stale, is_older, stale_loop}
use chrono.VectorKv.Siblings.{keep}

-- Some of the entries is at the version, or after it.
abbrev pub is_seen : Snapshot → List VersionedValue → Bool
is_seen v [] = false
is_seen v (x ∷ rest) = is_stale (compare v x.version) || is_seen v rest

-- Some of the entries is after the version.
abbrev pub is_replaced : Snapshot → List VersionedValue → Bool
is_replaced v [] = false
is_replaced v (x ∷ rest) = is_older (compare v x.version) || is_replaced v rest

-- The entries whose version no earlier one is at or after, and no later one is after.
abbrev pub frontier : List VersionedValue → List VersionedValue → List VersionedValue
frontier earlier [] = []
frontier earlier (x ∷ later) =
    let rest = frontier (earlier ++ (x ∷ [])) later in
    if is_seen x.version earlier || is_replaced x.version later then rest else x ∷ rest

is_replaced-last :
    (v : Snapshot) (past : List VersionedValue) (w : VersionedValue)
    → is_replaced v (past ++ (w ∷ [])) ≡ (is_older (compare v w.version) || is_replaced v past)
is_replaced-last v [] w = refl
is_replaced-last v (x ∷ past) w = ground (arith, is_replaced-last v past w)

pub frontier-last :
    (earlier past : List VersionedValue) (w : VersionedValue)
    → frontier earlier (past ++ (w ∷ []))
      ≡ keep w.version (frontier earlier past)
        ++ (if is_seen w.version (earlier ++ past) then [] else w ∷ [])
frontier-last earlier [] w = rw (append-nil earlier) (ground arith)
frontier-last earlier (x ∷ past) w =
    let h = frontier-last (earlier ++ (x ∷ [])) past w in
    rw (is_replaced-last x.version past w, h, append_assoc earlier (x ∷ []) past)
      (elim (Bool-cases (is_seen x.version earlier || is_replaced x.version past)) [
        | inl e ↦ ground arith
        | inr e ↦ elim (Bool-cases (is_older (compare x.version w.version))) [
          | inl old ↦ ground arith
          | inr kept ↦ ground arith
        ]
      ])

pub is_seen-stale : (v : Snapshot) (rows : List VersionedValue) → is_seen v rows ≡ stale_loop v rows
unfolding stale_loop
is_seen-stale v [] = refl
is_seen-stale v (x ∷ rest) = ground (arith, is_seen-stale v rest)

-- What the frontier has seen, some entry has seen.
pub is_seen-frontier :
    (v : Snapshot) (earlier past : List VersionedValue)
    → is_seen v (frontier earlier past) ≡ true
    → is_seen v past ≡ true
is_seen-frontier v earlier [] e = e
is_seen-frontier v earlier (x ∷ past) e =
    let more = is_seen-frontier v (earlier ++ (x ∷ [])) past in
    elim (Bool-cases (is_seen x.version earlier || is_replaced x.version past)) [
      | inl out ↦ ground (arith, more)
      | inr kept ↦ ground (arith, more)
    ]
