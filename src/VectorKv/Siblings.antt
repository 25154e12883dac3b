-- ===== src/VectorKv/Siblings.antt =====
-- examples/vector_kv/main.go: the two loops of write, on the rows of one key.
use chrono.Prelude.{
  ◌≡◌, ◌⊎◌, refl, sym, ap, ◌∙◌, true, false, List, [], ◌∷◌, ◌++◌, All, inl, inr, Bool-cases, arith,
  if◌then◌else◌,
}
use mathlib.Core.List.{append_assoc, append-nil}
use chrono.GoMap.{IsMap}
use chrono.Vector.{Snapshot}
use chrono.Vector.Compare.{Relation, before, after, equal, concurrent, compare}
use chrono.Vector.Compare.Laws.{Le, compare_decides}
use chrono.Vector.Compare.Order.{Le_trans, compare-flip, flip}
use chrono.VectorKv.{VersionedValue, is_stale, is_older, stale_loop, keep_loop}

-- No two of the rows are ordered.
abbrev pub IsAntichain : List VersionedValue → Type 0
IsAntichain [] = Unit
IsAntichain (r ∷ rest) =
    All (λ (q : VersionedValue). compare r.version q.version ≡ concurrent) rest × IsAntichain rest

-- Every version is a map, as in Go.
abbrev pub HasMaps : List VersionedValue → Type 0
HasMaps rows = All (λ (r : VersionedValue). IsMap r.version.vec) rows

-- Some row has seen all that the vector `v` has.
abbrev pub Covered : List VersionedValue → Snapshot → Type 0
Covered [] v = ⊥
Covered (r ∷ rest) v = Le v.vec r.version.vec ⊎ Covered rest v

-- The rows that are not older than a version.
abbrev pub keep : Snapshot → List VersionedValue → List VersionedValue
keep v [] = []
keep v (r ∷ rest) =
    let more = keep v rest in if is_older (compare r.version v) then more else r ∷ more

pub keep_loop-keep :
    (v : Snapshot) (rows out : List VersionedValue) → keep_loop v rows out ≡ out ++ keep v rows
unfolding keep_loop
keep_loop-keep v [] out = sym (append-nil out)
keep_loop-keep v (r ∷ rest) out = elim (Bool-cases (is_older (compare r.version v))) [
  | inl e ↦ rw e (keep_loop-keep v rest out)
  | inr e ↦ rw e (keep_loop-keep v rest (out ++ (r ∷ [])) ∙ append_assoc out (r ∷ []) (keep v rest))
]

pub stale-Le :
    (a b : Snapshot)
    → IsMap a.vec
    → IsMap b.vec
    → (r : Relation) → compare a b ≡ r
    → is_stale r ≡ true
    → Le a.vec b.vec
stale-Le a b ha hb before e h = ((compare_decides a b ha hb).1.0 e).0
stale-Le a b ha hb equal e h = ((compare_decides a b ha hb).0.0 e).0
stale-Le a b ha hb after e h = cc
stale-Le a b ha hb concurrent e h = cc

pub older-Le :
    (a b : Snapshot)
    → IsMap a.vec
    → IsMap b.vec
    → (r : Relation) → compare a b ≡ r
    → is_older r ≡ true
    → Le a.vec b.vec
older-Le a b ha hb before e h = ((compare_decides a b ha hb).1.0 e).0
older-Le a b ha hb equal e h = cc
older-Le a b ha hb after e h = cc
older-Le a b ha hb concurrent e h = cc

pub All-last :
    (P : VersionedValue → Type 0) (rows : List VersionedValue) (new : VersionedValue)
    → All P rows
    → P new
    → All P (rows ++ (new ∷ []))
All-last P [] new h p = (p, tt)
All-last P (r ∷ rest) new (q, h) p = (q, All-last P rest new h p)

pub Covered-last :
    (rows : List VersionedValue) (new : VersionedValue) (w : Snapshot)
    → Le w.vec new.version.vec
    → Covered (rows ++ (new ∷ [])) w
Covered-last [] new w le = inl le
Covered-last (r ∷ rest) new w le = inr (Covered-last rest new w le)

pub IsAntichain-last :
    (rows : List VersionedValue) (new : VersionedValue)
    → IsAntichain rows
    → All (λ (r : VersionedValue). compare r.version new.version ≡ concurrent) rows
    → IsAntichain (rows ++ (new ∷ []))
IsAntichain-last [] new h k = (tt, tt)
IsAntichain-last (r ∷ rest) new (p, h) (q, k) = (
  All-last (λ (x : VersionedValue). compare r.version x.version ≡ concurrent) rest new p q,
  IsAntichain-last rest new h k,
)

-- A row that neither test catches is concurrent.
concurrent_of :
    (r : Relation) → is_stale r ≡ false → is_older (flip r) ≡ false → flip r ≡ concurrent
concurrent_of before h k = cc
concurrent_of after h k = cc
concurrent_of equal h k = cc
concurrent_of concurrent h k = refl

module _ (v : Snapshot) (hv : IsMap v.vec) where
  row-concurrent :
      (r : VersionedValue)
      → IsMap r.version.vec
      → is_stale (compare v r.version) ≡ false
      → is_older (compare r.version v) ≡ false
      → compare r.version v ≡ concurrent
  row-concurrent r hr h k =
      let e = compare-flip v r.version hv hr in
      e ∙ concurrent_of (compare v r.version) h (sym (ap is_older e) ∙ k)

  pub keep-concurrent :
      (rows : List VersionedValue)
      → HasMaps rows
      → stale_loop v rows ≡ false
      → All (λ (r : VersionedValue). compare r.version v ≡ concurrent) (keep v rows)
  unfolding stale_loop
  keep-concurrent [] h e = tt
  keep-concurrent (r ∷ rest) (hr, h) e =
      let fresh : (is_stale (compare v r.version) ≡ false) × (stale_loop v rest ≡ false) =
        ground arith in
      elim (Bool-cases (is_older (compare r.version v))) [
        | inl old ↦ rw old (keep-concurrent rest h fresh.1)
        | inr new ↦ rw new (row-concurrent r hr fresh.0 new, keep-concurrent rest h fresh.1)
      ]

  pub All-keep :
      (P : VersionedValue → Type 0) (rows : List VersionedValue) → All P rows → All P (keep v rows)
  All-keep P [] h = tt
  All-keep P (r ∷ rest) (p, h) = elim (Bool-cases (is_older (compare r.version v))) [
    | inl old ↦ rw old (All-keep P rest h)
    | inr new ↦ rw new (p, All-keep P rest h)
  ]

  pub keep-IsAntichain : (rows : List VersionedValue) → IsAntichain rows → IsAntichain (keep v rows)
  keep-IsAntichain [] h = tt
  keep-IsAntichain (r ∷ rest) (p, h) = elim (Bool-cases (is_older (compare r.version v))) [
    | inl old ↦ rw old (keep-IsAntichain rest h)
    | inr new ↦ rw new (
      All-keep (λ (q : VersionedValue). compare r.version q.version ≡ concurrent) rest p,
      keep-IsAntichain rest h,
    )
  ]

  -- What a row covers stays covered: by the row if it is kept, and otherwise by the new version.
  pub keep-Covered :
      (rows : List VersionedValue) (new : VersionedValue) (w : Snapshot)
      → HasMaps rows
      → new.version ≡ v
      → Covered rows w
      → Covered (keep v rows ++ (new ∷ [])) w
  keep-Covered [] new w h e c = absurd c
  keep-Covered (r ∷ rest) new w (hr, h) e (inl le) =
      elim (Bool-cases (is_older (compare r.version v))) [
        | inl old ↦
            let below = older-Le r.version v hr hv (compare r.version v) refl old in
            rw old (
              Covered-last (keep v rest) new w (rw e (Le_trans w.vec r.version.vec v.vec le below)))
        | inr kept ↦ rw kept (inl le)
      ]
  keep-Covered (r ∷ rest) new w (hr, h) e (inr later) =
      elim (Bool-cases (is_older (compare r.version v))) [
        | inl old ↦ rw old (keep-Covered rest new w h e later)
        | inr kept ↦ rw kept (inr (keep-Covered rest new w h e later))
      ]

  pub stale-Covered :
      (rows : List VersionedValue) → HasMaps rows → stale_loop v rows ≡ true → Covered rows v
  unfolding stale_loop
  stale-Covered [] h e = cc
  stale-Covered (r ∷ rest) (hr, h) e = elim (Bool-cases (is_stale (compare v r.version))) [
    | inl stale ↦ inl (stale-Le v r.version hv hr (compare v r.version) refl stale)
    | inr fresh ↦ inr (stale-Covered rest h (rw fresh at e))
  ]
