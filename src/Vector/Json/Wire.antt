-- ===== src/Vector/Json/Wire.antt =====
-- vector/encode.go with vector/clock.go and vector/compare.go: snapshots that were sent over a wire.
use chrono.Prelude.{ℕ, ◌≤◌, ◌≡◌, refl, sym, ap, ◌∙◌, none, some, List, [], arith, length}
use chrono.Prelude.Strings.{Str}
use chrono.Prelude.Json.{Json, Restores}
use chrono.GoMap.{Counters, lookup, IsMap, or_zero}
use chrono.GoMap.Loops.{SameCounters}
use chrono.Vector.{Clock, Snapshot, receive, now, snapshot_locked}
use chrono.Vector.Compare.{compare}
use chrono.Vector.Compare.Order.{compare-SameCounters}
use chrono.Vector.Steps.{receive_counters, snapshot-vec}
use chrono.Vector.Encode.{marshal_binary, unmarshal_binary, encoded}
use chrono.Vector.Encode.Entries.{Fits}
use chrono.Vector.Encode.RoundTrip.{marshal_binary_round_trip}
use chrono.Vector.Json.{JsonSnapshot, zero_snapshot, marshal_json, unmarshal_json, take_json}

-- The object that json.Marshal gets for a snapshot, with its map in the order `vec`.
abbrev pub object : Str → Counters → JsonSnapshot
object node_id vec = record { node_id = node_id; vec = some vec }

-- What encoding/json documents for a snapshot whose strings are valid UTF-8: Unmarshal reads the node id
-- back, and a map that holds the same, in an order of its own.
pub record RestoresMap {Error : Type 0} (json : Json JsonSnapshot Error) (s : Snapshot)
    : Type 0 where
  pub order : Counters
  pub is_map : IsMap order
  pub same : (k : Str) → lookup k order ≡ lookup k s.vec
  pub restores : Restores json zero_snapshot (object s.node_id s.vec) (object s.node_id order)

-- A snapshot with the entries of `s`, which acts as `s` does: Compare relates it to every snapshot as it relates `s`, from either
-- side, and a clock that receives it has the same counters after it, and returns a snapshot with the
-- same counters, as if it received `s`.
pub record ActsAs (s d : Snapshot) : Type 0 where
  pub is_map : IsMap d.vec
  pub entries : (k : Str) → lookup k d.vec ≡ lookup k s.vec
  pub compared : (t : Snapshot) → IsMap t.vec → compare d t ≡ compare s t
  pub comparing : (t : Snapshot) → IsMap t.vec → compare t d ≡ compare t s
  pub received :
      (c : Clock)
      → IsMap c.vec
      → SameCounters (receive c d).0.vec (receive c s).0.vec
        × SameCounters (receive c d).1.vec (receive c s).1.vec

-- The clock after a receive has the entries of the snapshot that it returns.
receive-entries :
    (c : Clock) (m : Snapshot)
    → IsMap c.vec
    → IsMap m.vec
    → (receive c m).1.vec ≡ (receive c m).0.vec
unfolding now snapshot_locked
receive-entries c m hc hm =
    let (counts, reads, is_map) = receive_counters c m hc hm in
    ap (λ (t : Snapshot). t.vec) (reads ∙ snapshot-vec (receive c m).0 is_map)

receive-SameCounters :
    (c : Clock) (s d : Snapshot)
    → IsMap c.vec
    → IsMap s.vec
    → IsMap d.vec
    → SameCounters d.vec s.vec
    → SameCounters (receive c d).1.vec (receive c s).1.vec
receive-SameCounters c s d hc hs hd same k =
    ground (arith, (receive_counters c d hc hd).0 k, (receive_counters c s hc hs).0 k, same k)

same-ActsAs :
    (s d : Snapshot)
    → IsMap s.vec
    → IsMap d.vec
    → ((k : Str) → lookup k d.vec ≡ lookup k s.vec)
    → ActsAs s d
same-ActsAs s d hs hd entries =
    let same : SameCounters d.vec s.vec = λ k. ap or_zero (entries k) in
    let back : SameCounters s.vec d.vec = λ k. sym (same k) in
    record {
      is_map = hd;
      entries = entries;
      compared = λ t ht. compare-SameCounters s t d t hs ht hd ht back (λ k. refl);
      comparing = λ t ht. compare-SameCounters t s t d ht hs ht hd (λ k. refl) back;
      received = λ c hc.
          let returned = receive-SameCounters c s d hc hs hd same in
          (
            λ k. rw (sym (receive-entries c d hc hd), sym (receive-entries c s hc hs)) (returned k),
            returned,
          );
    }

-- For a snapshot s of at most 65535 entries, whose keys have at most 65535 bytes and whose counters are
-- 64-bit: MarshalBinary succeeds, UnmarshalBinary accepts its bytes whatever the receiver held, and
-- gives a snapshot without a node id that has the entries of s and acts as s does, in Compare and in
-- Receive; MarshalJSON and UnmarshalJSON do the same and keep the node id, where encoding/json restores
-- the object that it is given.
pub wire_transparent :
    {Error : Type 0} (json : Json JsonSnapshot Error) (s old : Snapshot)
    → IsMap s.vec
    → Fits s.vec
    → length s.vec ≤ 0xFFFF
    → RestoresMap json s
    → ((bytes : List ℕ) × (d : Snapshot) × (marshal_binary s ≡ encoded bytes)
        × (unmarshal_binary old bytes ≡ (d, none))
        × (d.node_id ≡ [])
        × ActsAs s d)
      × ((bytes : List ℕ) × (d : Snapshot) × (marshal_json json s ≡ (bytes, none))
          × (unmarshal_json json old bytes ≡ (d, none))
          × (d.node_id ≡ s.node_id)
          × ActsAs s d)
unfolding marshal_json unmarshal_json take_json
wire_transparent json s old h fits few r =
    let (bytes, vec, marshalled, unmarshalled, is_map, same) =
      marshal_binary_round_trip s old h fits few in
    let b : Snapshot = record { node_id = []; vec = vec } in
    let j : Snapshot = record { node_id = s.node_id; vec = r.order } in
    (
      (bytes, b, marshalled, unmarshalled, refl, same-ActsAs s b h is_map same),
      (
        r.restores.bytes,
        j,
        r.restores.written,
        ap (take_json old) r.restores.parsed,
        refl,
        same-ActsAs s j h r.is_map r.same,
      ),
    )
