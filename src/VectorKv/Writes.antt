-- ===== src/VectorKv/Writes.antt =====
-- examples/vector_kv/main.go: what write does to the rows of its key and of the others.
use chrono.Prelude.{◌≡◌, ◌≢◌, refl, ap, true, false, [], ◌∷◌, ◌++◌, inl, inr, Bool-cases, arith}
use chrono.Prelude.Strings.{Str, str_eq_iff}
use chrono.GoMap.{IsMap, insert, lookup}
use chrono.GoMap.Laws.{lookup-insert, lookup-insert_self}
use chrono.Vector.{Snapshot}
use chrono.VectorKv.{VersionedValue, Store, stale_loop, read, write, or_nil}
use chrono.VectorKv.Siblings.{
  IsAntichain, HasMaps, Covered, keep, keep_loop-keep, keep-concurrent, All-keep, keep-IsAntichain,
  keep-Covered, stale-Covered, Covered-last, IsAntichain-last, All-last,
}

module _ (s : Store) (key value : Str) (version : Snapshot) where
  abbrev row : VersionedValue
  row = record { value = value; version = version }

  pub write-stale : stale_loop version (read s key) ≡ true → write s key value version ≡ s
  unfolding write
  write-stale e = rw e refl

  rows_written :
      stale_loop version (read s key) ≡ false
      → (write s key value version).rows
        ≡ insert key (keep version (read s key) ++ (row ∷ [])) s.rows
  unfolding write
  rows_written e =
      rw e (
        ap (λ rows. insert key (rows ++ (row ∷ [])) s.rows)
          (keep_loop-keep version (read s key) []))

  pub read_self :
      stale_loop version (read s key) ≡ false
      → read (write s key value version) key ≡ keep version (read s key) ++ (row ∷ [])
  unfolding read
  read_self e =
      rw
        (
          rows_written e,
          lookup-insert_self key (keep version (or_nil (lookup key s.rows)) ++ (row ∷ [])) s.rows,
        )
        refl

  pub read_other : (k : Str) → k ≢ key → read (write s key value version) k ≡ read s k
  unfolding read
  read_other k n = elim (Bool-cases (stale_loop version (read s key))) [
    | inl e ↦ rw (write-stale e) refl
    | inr e ↦ rw (rows_written e) (
        ground (
          arith,
          lookup-insert key k (keep version (or_nil (lookup key s.rows)) ++ (row ∷ [])) s.rows,
          str_eq_iff key k,
        ))
  ]

-- Where the rows of a key are pairwise concurrent, they still are after a write to it, and their
-- versions are maps. The version written is covered, which means that some row has seen all of it,
-- and so is every vector that was covered before: no update is lost. The rows of other keys stay.
pub write_siblings :
    (s : Store) (key value : Str) (version : Snapshot)
    → IsMap version.vec
    → HasMaps (read s key)
    → IsAntichain (read s key)
    → IsAntichain (read (write s key value version) key)
      × HasMaps (read (write s key value version) key)
      × Covered (read (write s key value version) key) version
      × ((w : Snapshot) → Covered (read s key) w → Covered (read (write s key value version) key) w)
      × ((k : Str) → k ≢ key → read (write s key value version) k ≡ read s k)
write_siblings s key value version hv h anti = elim (Bool-cases (stale_loop version (read s key))) [
  | inl e ↦
      rw (write-stale s key value version e)
        (anti, h, stale-Covered version hv (read s key) h e, λ w c. c, λ k n. refl)
  | inr e ↦
      let new = row s key value version in
      let kept = keep version (read s key) in
      let others = read_other s key value version in
      rw (read_self s key value version e) (
        IsAntichain-last kept new (keep-IsAntichain version hv (read s key) anti)
            (keep-concurrent version hv (read s key) h e),
        All-last (λ (r : VersionedValue). IsMap r.version.vec) kept new
            (All-keep version hv (λ (r : VersionedValue). IsMap r.version.vec) (read s key) h) hv,
        Covered-last kept new version (λ k. omega arith),
        λ w c. keep-Covered version hv (read s key) new w h refl c,
        others,
      )
]
