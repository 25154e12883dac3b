-- ===== src/VectorKv/Covers.antt =====
-- examples/vector_kv/main.go: writes that the rows of a key have seen.
use chrono.Prelude.{◌≡◌, refl, ap, true, List, [], ◌∷◌, All, inl, inr, Bool-cases, arith}
use chrono.GoMap.{IsMap}
use chrono.Vector.{Snapshot}
use chrono.Vector.Compare.{Relation, before, after, equal, concurrent, compare}
use chrono.Vector.Compare.Laws.{Le, compare_decides}
use chrono.Vector.Compare.Order.{Le_trans}
use chrono.VectorKv.{VersionedValue, is_stale, is_older, stale_loop}
use chrono.VectorKv.Siblings.{IsAntichain, HasMaps, Covered, keep, stale-Le, older-Le}
use chrono.VectorKv.Frontier.{is_seen}

concurrent-Le :
    (a b : Snapshot)
    → IsMap a.vec
    → IsMap b.vec
    → compare a b ≡ concurrent
    → (¬ (Le a.vec b.vec)) × (¬ (Le b.vec a.vec))
concurrent-Le a b ha hb e = (compare_decides a b ha hb).3.0 e

-- A version within a row replaces no row that is concurrent with that one.
keep-concurrent_self :
    (r w : Snapshot) (rest : List VersionedValue)
    → IsMap r.vec
    → IsMap w.vec
    → HasMaps rest
    → All (λ (q : VersionedValue). compare r q.version ≡ concurrent) rest
    → Le w.vec r.vec
    → keep w rest ≡ rest
keep-concurrent_self r w [] hr hw h apart le = refl
keep-concurrent_self r w (q ∷ rest) hr hw (hq, h) (e, apart) le =
    elim (Bool-cases (is_older (compare q.version w))) [
      | inl old ↦
          let below = older-Le q.version w hq hw (compare q.version w) refl old in
          absurd
            ((concurrent-Le r q.version hr hq e).1 (Le_trans q.version.vec w.vec r.vec below le))
      | inr kept ↦ rw kept (ap (λ rows. q ∷ rows) (keep-concurrent_self r w rest hr hw h apart le))
    ]

-- A row is within no version that the rows concurrent with it cover.
not-within :
    (r w : Snapshot) (rest : List VersionedValue)
    → IsMap r.vec
    → HasMaps rest
    → All (λ (q : VersionedValue). compare r q.version ≡ concurrent) rest
    → Covered rest w
    → ¬ (Le r.vec w.vec)
not-within r w [] hr h apart c le = c
not-within r w (q ∷ rest) hr (hq, h) (e, apart) (inl below) le =
    (concurrent-Le r q.version hr hq e).0 (Le_trans r.vec w.vec q.version.vec le below)
not-within r w (q ∷ rest) hr (hq, h) (e, apart) (inr c) le = not-within r w rest hr h apart c le

older_is_before : (rel : Relation) → is_older rel ≡ true → rel ≡ before
older_is_before before e = refl
older_is_before after e = cc
older_is_before equal e = cc
older_is_before concurrent e = cc

older-Lt :
    (a b : Snapshot)
    → IsMap a.vec
    → IsMap b.vec
    → is_older (compare a b) ≡ true
    → Le a.vec b.vec × (¬ (Le b.vec a.vec))
older-Lt a b ha hb e = (compare_decides a b ha hb).1.0 (older_is_before (compare a b) e)

pub keep-Covered_same :
    (w : Snapshot) (rows : List VersionedValue)
    → IsMap w.vec
    → HasMaps rows
    → IsAntichain rows
    → Covered rows w
    → keep w rows ≡ rows
keep-Covered_same w [] hw h anti c = refl
keep-Covered_same w (r ∷ rest) hw (hr, h) (apart, anti) c =
    elim (Bool-cases (is_older (compare r.version w))) [
      | inl old ↦
          let (le, strict) = older-Lt r.version w hr hw old in
          absurd (elim c [
            | inl within ↦ strict within
            | inr c ↦ not-within r.version w rest hr h apart c le
          ])
      | inr kept ↦ rw kept (
          ap (λ rows. r ∷ rows)
            (elim c [
              | inl le ↦ keep-concurrent_self r.version w rest hr hw h apart le
              | inr c ↦ keep-Covered_same w rest hw h anti c
            ]))
    ]

Covered-Le :
    (v y : Snapshot) (rows : List VersionedValue) → Le v.vec y.vec → Covered rows y → Covered rows v
Covered-Le v y [] le c = c
Covered-Le v y (r ∷ rest) le (inl below) = inl (Le_trans v.vec y.vec r.version.vec le below)
Covered-Le v y (r ∷ rest) le (inr c) = inr (Covered-Le v y rest le c)

-- What the entries have seen, the rows that cover them cover.
pub is_seen-Covered :
    (v : Snapshot) (past rows : List VersionedValue)
    → IsMap v.vec
    → HasMaps past
    → All (λ (y : VersionedValue). Covered rows y.version) past
    → is_seen v past ≡ true
    → Covered rows v
is_seen-Covered v [] rows hv h c e = cc
is_seen-Covered v (x ∷ past) rows hv (hx, h) (cx, c) e =
    elim (Bool-cases (is_stale (compare v x.version))) [
      | inl stale ↦
          Covered-Le v x.version rows (stale-Le v x.version hv hx (compare v x.version) refl stale)
            cx
      | inr fresh ↦ is_seen-Covered v past rows hv h c (rw fresh at e)
    ]

Le-stale :
    (a b : Snapshot)
    → IsMap a.vec
    → IsMap b.vec
    → (rel : Relation) → compare a b ≡ rel
    → Le a.vec b.vec
    → is_stale rel ≡ true
Le-stale a b ha hb before e le = refl
Le-stale a b ha hb equal e le = refl
Le-stale a b ha hb after e le = absurd (((compare_decides a b ha hb).2.0 e).0 le)
Le-stale a b ha hb concurrent e le = absurd ((concurrent-Le a b ha hb e).0 le)

pub Covered-stale :
    (v : Snapshot) (rows : List VersionedValue)
    → IsMap v.vec
    → HasMaps rows
    → Covered rows v
    → stale_loop v rows ≡ true
unfolding stale_loop
Covered-stale v [] hv h c = absurd c
Covered-stale v (r ∷ rest) hv (hr, h) (inl le) =
    ground (arith, Le-stale v r.version hv hr (compare v r.version) refl le)
Covered-stale v (r ∷ rest) hv (hr, h) (inr c) = ground (arith, Covered-stale v rest hv h c)
