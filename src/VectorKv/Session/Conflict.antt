-- ===== src/VectorKv/Session/Conflict.antt =====
-- examples/vector_kv/main.go with vector/clock.go: the rows that the session reads at its end.
use chrono.Prelude.{
  ℕ, not, ◌<◌, ◌≡◌, refl, sym, false, List, [], ◌∷◌, if◌then◌else◌, Bool-cases, inl, inr, arith,
  subst,
}
use chrono.Prelude.Strings.{Str, str_eq, str_eq_iff, str_eq_refl}
use chrono.GoMap.{Counters, insert, copy_into, lookup}
use chrono.GoMap.Loops.{merge_loop}
use chrono.Vector.{Clock, Snapshot, new, send, receive}
use chrono.Vector.Compare.{compare, compare_loop, absent_loop, relation, concurrent, before, after}
use chrono.VectorKv.{VersionedValue, Store, new_store, read, write, stale_loop, keep_loop}
use chrono.VectorKv.Session.{session}

-- Both orders of two node ids that differ.
record Apart (a b : Str) : Type 0 where
  left : str_eq a b ≡ false
  right : str_eq b a ≡ false

differ-Apart : (a b : Str) → str_eq a b ≡ false → Apart a b
differ-Apart a b e = record {
  left = e;
  right = elim (Bool-cases (str_eq b a)) [
    | inl same ↦ cc (e, (str_eq_iff a b).1 (sym ((str_eq_iff b a).0 same)))
    | inr differ ↦ differ
  ];
}

abbrev at : Str → Counters → Snapshot
at node_id vec = record { node_id = node_id; vec = vec }

abbrev clock : Str → Counters → Clock
clock node_id vec = record { node_id = node_id; vec = vec }

abbrev row : Str → Snapshot → VersionedValue
row value version = record { value = value; version = version }

send_first : (a : Str) → send (new a) ≡ (clock a ((a, 1) ∷ []), at a ((a, 1) ∷ []))
unfolding send new insert copy_into lookup
send_first a = refl

send_again : (a : Str) → send (clock a ((a, 1) ∷ [])) ≡ (clock a ((a, 2) ∷ []), at a ((a, 2) ∷ []))
unfolding send insert copy_into lookup
send_again a = rw (str_eq_refl a) refl

abbrev both : Str → Str → ℕ → Counters
both a b n = (a, 1) ∷ (b, n) ∷ []

module _ (a b : Str) (p : Apart a b) where
  receive_first : receive (new b) (at a ((a, 1) ∷ [])) ≡ (clock b (both a b 1), at b (both a b 1))
  unfolding receive new insert copy_into lookup merge_loop
  receive_first = rw p.left (rw p.left refl)

  send_after : send (clock b (both a b 1)) ≡ (clock b (both a b 2), at b (both a b 2))
  unfolding send insert copy_into lookup
  send_after = rw (p.left, str_eq_refl b) (rw p.left refl)

receive_same :
    (a : Str) → receive (new a) (at a ((a, 1) ∷ [])) ≡ (clock a ((a, 2) ∷ []), at a ((a, 2) ∷ []))
unfolding receive new insert copy_into lookup merge_loop
receive_same a = rw (str_eq_refl a) refl

send_third : (a : Str) → send (clock a ((a, 2) ∷ [])) ≡ (clock a ((a, 3) ∷ []), at a ((a, 3) ∷ []))
unfolding send insert copy_into lookup
send_third a = rw (str_eq_refl a) refl

-- A store with one key.
abbrev held : Str → List VersionedValue → Store
held key rows = record { rows = (key, rows) ∷ [] }

module _ (key : Str) where
  read-held : (rows : List VersionedValue) → read (held key rows) key ≡ rows
  unfolding read lookup
  read-held rows = rw (str_eq_refl key) refl

  write_first :
      (value : Str) (v : Snapshot) → write new_store key value v ≡ held key (row value v ∷ [])
  unfolding write new_store read lookup insert stale_loop keep_loop
  write_first value v = refl

  module _ (old value : Str) (u v : Snapshot) where
    write_newer :
        compare v u ≡ after
        → compare u v ≡ before
        → write (held key (row old u ∷ [])) key value v ≡ held key (row value v ∷ [])
    unfolding write read lookup insert stale_loop keep_loop
    write_newer p q = rw (str_eq_refl key) (rw (p, q) refl)

    write-concurrent :
        compare v u ≡ concurrent
        → compare u v ≡ concurrent
        → write (held key (row old u ∷ [])) key value v ≡ held key (row old u ∷ row value v ∷ [])
    unfolding write read lookup insert stale_loop keep_loop
    write-concurrent p q = rw (str_eq_refl key) (rw (p, q) refl)

-- The versions of one node.
compare_own :
    (a : Str) (m n : ℕ)
    → m < n
    → (compare (at a ((a, m) ∷ [])) (at a ((a, n) ∷ [])) ≡ before)
      × (compare (at a ((a, n) ∷ [])) (at a ((a, m) ∷ [])) ≡ after)
unfolding compare compare_loop absent_loop lookup relation
compare_own a m n h = rw (str_eq_refl a) (ground arith)

compare_edits :
    (a b : Str)
    → Apart a b
    → (compare (at a ((a, 2) ∷ [])) (at b (both a b 2)) ≡ concurrent)
      × (compare (at b (both a b 2)) (at a ((a, 2) ∷ [])) ≡ concurrent)
unfolding compare compare_loop absent_loop lookup relation
compare_edits a b p = rw (str_eq_refl a) (rw p.left (refl, refl))

module _ (a b key value a_value b_value : Str) where
  -- How the session ends.
  abbrev Ends : Type 0
  Ends =
      let s = session a b key value a_value b_value in
      (s.rows ≡ (
        if str_eq a b
        then row b_value s.b_write ∷ []
        else row a_value s.a_write ∷ row b_value s.b_write ∷ []))
      × (compare s.a_write s.b_write ≡ (if str_eq a b then before else concurrent))
      × (s.conflict ≡ not (str_eq a b))

  apart-Ends : Apart a b → Ends
  unfolding session
  apart-Ends p =
      let (edits, edits_back) = compare_edits a b p in
      rw
        (
          send_first a,
          receive_first a b p,
          send_again a,
          send_after a b p,
          write_first key value (at a ((a, 1) ∷ [])),
          write_newer key value a_value (at a ((a, 1) ∷ [])) (at a ((a, 2) ∷ []))
              (compare_own a 1 2 (omega arith)).1 (compare_own a 1 2 (omega arith)).0,
          write-concurrent key a_value b_value (at a ((a, 2) ∷ [])) (at b (both a b 2)) edits_back
              edits,
          p.left,
        )
        (read-held key _, edits, rw (read-held key _) refl)

same-Ends : (a key value a_value b_value : Str) → Ends a a key value a_value b_value
unfolding session
same-Ends a key value a_value b_value =
    let first = compare_own a 1 2 (omega arith) in
    let second = compare_own a 2 3 (omega arith) in
    rw
      (
        send_first a,
        receive_same a,
        send_again a,
        send_third a,
        write_first key value (at a ((a, 1) ∷ [])),
        write_newer key value a_value (at a ((a, 1) ∷ [])) (at a ((a, 2) ∷ [])) first.1 first.0,
        write_newer key a_value b_value (at a ((a, 2) ∷ [])) (at a ((a, 3) ∷ [])) second.1 second.0,
        str_eq_refl a,
      )
      (read-held key _, second.0, rw (read-held key _) refl)

-- Two clients with different node ids that edit the same version make concurrent versions, and the
-- session ends with the rows of both edits and says that there is a conflict; where they have one node
-- id in common, Compare says that client A's edit is before client B's, and only B's row is left, without
-- a word of a conflict.
pub session_rows :
    (a b key value a_value b_value : Str)
    → let s = session a b key value a_value b_value in
      (s.rows ≡ (
        if str_eq a b
        then row b_value s.b_write ∷ []
        else row a_value s.a_write ∷ row b_value s.b_write ∷ []))
      × (compare s.a_write s.b_write ≡ (if str_eq a b then before else concurrent))
      × (s.conflict ≡ not (str_eq a b))
session_rows a b key value a_value b_value = elim (Bool-cases (str_eq a b)) [
  | inl e ↦
      subst (λ x. Ends a x key value a_value b_value) ((str_eq_iff a b).0 e)
        (same-Ends a key value a_value b_value)
  | inr e ↦ apart-Ends a b key value a_value b_value (differ-Apart a b e)
]
