-- ===== src/VectorKv/History.antt =====
-- examples/vector_kv/main.go: what the store holds after a sequence of calls of write.
use chrono.Prelude.{
  ◌≡◌, ◌≢◌, refl, sym, ◌∙◌, subst, true, List, [], ◌∷◌, ◌++◌, All, inl, inr, Bool-cases,
  if◌then◌else◌,
}
use mathlib.Core.List.{append_assoc, append-nil}
use chrono.Prelude.Strings.{Str, str_eq, str_eq_iff}
use chrono.GoMap.{IsMap, lookup}
use chrono.Vector.{Snapshot}
use chrono.VectorKv.{VersionedValue, Store, new_store, stale_loop, read, write}
use chrono.VectorKv.Siblings.{IsAntichain, HasMaps, Covered, stale-Covered, All-last}
use chrono.VectorKv.Writes.{write_siblings, read_self, read_other, write-stale}
use chrono.VectorKv.Frontier.{is_seen, frontier, frontier-last, is_seen-stale, is_seen-frontier}
use chrono.VectorKv.Covers.{keep-Covered_same, is_seen-Covered, Covered-stale}

-- The arguments of one call of write.
pub record Write : Type 0 where
  pub key : Str
  pub value : Str
  pub version : Snapshot

-- The store after the calls, from the first one to the last.
abbrev pub perform : Store → List Write → Store
perform s [] = s
perform s (w ∷ ws) = perform (write s w.key w.value w.version) ws

abbrev pub entry : Write → VersionedValue
entry w = record { value = w.value; version = w.version }

-- What was written to one key.
abbrev pub written : Str → List Write → List VersionedValue
written key [] = []
written key (w ∷ ws) =
    let rest = written key ws in if str_eq w.key key then entry w ∷ rest else rest

All-map :
    (P Q : VersionedValue → Type 0) (rows : List VersionedValue)
    → ((r : VersionedValue) → P r → Q r)
    → All P rows
    → All Q rows
All-map P Q [] f h = tt
All-map P Q (r ∷ rest) f (p, h) = (f r p, All-map P Q rest f h)

-- The rows of a key after the writes `past` to it.
pub record IsHistory (s : Store) (key : Str) (past : List VersionedValue) : Type 0 where
  pub exact : read s key ≡ frontier [] past
  pub antichain : IsAntichain (read s key)
  pub maps : HasMaps (read s key)
  pub past_maps : HasMaps past
  pub covers : All (λ (y : VersionedValue). Covered (read s key) y.version) past

frontier-stale :
    (v : Snapshot) (s : Store) (key : Str) (past : List VersionedValue)
    → IsMap v.vec
    → IsHistory s key past
    → is_seen v past ≡ stale_loop v (read s key)
frontier-stale v s key past hv h = elim (Bool-cases (stale_loop v (read s key))) [
  | inl e ↦
      let seen : is_seen v (frontier [] past) ≡ true =
        rw (sym h.exact, is_seen-stale v (read s key)) e in
      is_seen-frontier v [] past seen ∙ sym e
  | inr e ↦ elim (Bool-cases (is_seen v past)) [
    | inl seen ↦
        let c = is_seen-Covered v past (read s key) hv h.past_maps h.covers seen in
        seen ∙ sym (Covered-stale v (read s key) hv h.maps c)
    | inr fresh ↦ fresh ∙ sym e
  ]
]

-- What one write to the key does to its rows.
written_once :
    (s : Store) (key value : Str) (v : Snapshot) (past : List VersionedValue)
    → IsMap v.vec
    → IsHistory s key past
    → read (write s key value v) key
      ≡ frontier [] (past ++ (record { value = value; version = v } ∷ []))
written_once s key value v past hv h =
    let new : VersionedValue = record { value = value; version = v } in
    let seen = frontier-stale v s key past hv h in
    rw (frontier-last [] past new, seen, sym h.exact)
      (elim (Bool-cases (stale_loop v (read s key))) [
        | inl e ↦
            let same =
              keep-Covered_same v (read s key) hv h.maps h.antichain
                (stale-Covered v hv (read s key) h.maps e) in
            rw (write-stale s key value v e, e, same) (sym (append-nil (read s key)))
        | inr e ↦ rw (read_self s key value v e, e) refl
      ])

write-IsHistory :
    (s : Store) (key value : Str) (v : Snapshot) (past : List VersionedValue)
    → IsMap v.vec
    → IsHistory s key past
    → IsHistory (write s key value v) key (past ++ (record { value = value; version = v } ∷ []))
write-IsHistory s key value v past hv h =
    let new : VersionedValue = record { value = value; version = v } in
    let (antichain, maps, covered, keeps, others) =
      write_siblings s key value v hv h.maps h.antichain in
    let after = read (write s key value v) key in
    record {
      exact = written_once s key value v past hv h;
      antichain = antichain;
      maps = maps;
      past_maps = All-last (λ (y : VersionedValue). IsMap y.version.vec) past new h.past_maps hv;
      covers =
          All-last (λ (y : VersionedValue). Covered after y.version) past new
            (All-map (λ (y : VersionedValue). Covered (read s key) y.version)
              (λ (y : VersionedValue). Covered after y.version) past (λ y c. keeps y.version c)
              h.covers)
            covered;
    }

other-IsHistory :
    (s : Store) (w : Write) (key : Str) (past : List VersionedValue)
    → key ≢ w.key
    → IsHistory s key past
    → IsHistory (write s w.key w.value w.version) key past
other-IsHistory s w key past n h =
    let same = read_other s w.key w.value w.version key n in
    record {
      exact = same ∙ h.exact;
      antichain = rw same h.antichain;
      maps = rw same h.maps;
      past_maps = h.past_maps;
      covers = rw same h.covers;
    }

perform-IsHistory :
    (s : Store) (ws : List Write) (key : Str) (past : List VersionedValue)
    → All (λ (w : Write). IsMap w.version.vec) ws
    → IsHistory s key past
    → IsHistory (perform s ws) key (past ++ written key ws)
perform-IsHistory s [] key past hs h = rw (append-nil past) h
perform-IsHistory s (w ∷ ws) key past (hw, hs) h = elim (Bool-cases (str_eq w.key key)) [
  | inl e ↦
      let same : w.key ≡ key = (str_eq_iff w.key key).0 e in
      let next : IsHistory (write s w.key w.value w.version) key (past ++ (entry w ∷ [])) =
        subst (λ k. IsHistory (write s k w.value w.version) key (past ++ (entry w ∷ []))) (sym same)
          (write-IsHistory s key w.value w.version past hw h) in
      let all =
        perform-IsHistory (write s w.key w.value w.version) ws key (past ++ (entry w ∷ [])) hs
          next in
      rw e (
        subst (IsHistory (perform s (w ∷ ws)) key)
          (append_assoc past (entry w ∷ []) (written key ws)) all)
  | inr e ↦
      let apart : key ≢ w.key = λ same. cc ((str_eq_iff w.key key).1 (sym same), e) in
      rw e (
        perform-IsHistory (write s w.key w.value w.version) ws key past hs
          (other-IsHistory s w key past apart h))
]

new-IsHistory : (key : Str) → IsHistory new_store key []
unfolding new_store read lookup
new-IsHistory key = record { exact = refl; antichain = tt; maps = tt; past_maps = tt; covers = tt }

-- After any calls of write on a new store, with versions that are maps, the rows of a key are what
-- was written to it, in that order, without the writes whose version an earlier one was at or after
-- and without those that a later one is after: what the code drops step by step is what the whole
-- history replaces. The rows are pairwise concurrent, and each version written is covered by some
-- row, which has seen all of it: no update is lost.
pub write_history :
    (ws : List Write) (key : Str)
    → All (λ (w : Write). IsMap w.version.vec) ws
    → (read (perform new_store ws) key ≡ frontier [] (written key ws))
      × IsAntichain (read (perform new_store ws) key)
      × All
          (λ (y : VersionedValue). Covered (read (perform new_store ws) key) y.version)
          (written key ws)
write_history ws key hs =
    let h = perform-IsHistory new_store ws key [] hs (new-IsHistory key) in
    (h.exact, h.antichain, h.covers)
