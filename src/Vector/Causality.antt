-- ===== src/Vector/Causality.antt =====
-- vector/clock.go as a logical clock: the causality that vector/doc.go is about.
pub mod Delivery
pub mod Moves
pub mod Traced
pub mod Origin
pub mod Exact
use chrono.Prelude.{ℕ, ◌<◌, ◌≡◌, ◌⊎◌, ap, sym, ◌∙◌, subst, inl, inr, some, List, max, arith}
use chrono.GoMap.{counter, IsMap}
use chrono.Vector.{Clock, Snapshot, tick, send, receive}
use chrono.Vector.Compare.{compare, before, after}
use chrono.Vector.Compare.Laws.{Le, compare_decides}
use chrono.Vector.Compare.Order.{Le_trans, before_trans, compare-flip, flip}
use chrono.Vector.Steps.{max_u64, tick_counters, receive_counters, tick-IsMap, receive-IsMap}
use chrono.Vector.Steps.Forward.{at, now-at, tick_at, receive_at, receive_remote}
use chrono.Causal.{LogicalClock, Event, event_at, HappensBefore, Run}
use chrono.Causal.Order.{clock_condition}

-- A Tick or a Send while this node's counter can still grow. The vector is a map, as in Go.
pub record Local (c c' : Clock) (s : Snapshot) : Type 0 where
  pub is_map : IsMap c.vec
  pub room : counter c.vec c.node_id < max_u64
  pub call : (tick c ≡ (c', s)) ⊎ (send c ≡ (c', s))

-- A Receive while the larger of the two counters of this node can still grow.
pub record Receive (c : Clock) (remote : Snapshot) (c' : Clock) (s : Snapshot) : Type 0 where
  pub is_map : IsMap c.vec
  pub remote_map : IsMap remote.vec
  pub room : max (counter c.vec c.node_id) (counter remote.vec c.node_id) < max_u64
  pub call : receive c remote ≡ (c', s)

-- The first snapshot compares as Before the second, and both are maps.
pub record Lt (s t : Snapshot) : Type 0 where
  pub is_map : IsMap s.vec
  pub other_map : IsMap t.vec
  pub order : compare s t ≡ before

pub record Seen (s : Snapshot) (c : Clock) : Type 0 where
  pub is_map : IsMap s.vec
  pub le : Le s.vec c.vec

-- What every event does: the new clock has the vector of the stamp, which comes after the old one.
pub record Step (c c' : Clock) (s : Snapshot) : Type 0 where
  pub is_map : IsMap c.vec
  pub stamp_map : IsMap s.vec
  pub grows : compare (at c) s ≡ before
  pub stays : s.vec ≡ c'.vec

tick-Step :
    (c : Clock) → IsMap c.vec → counter c.vec c.node_id < max_u64 → Step c (tick c).0 (tick c).1
tick-Step c h room =
    let (counts, reads, stays, same) = tick_counters c h in
    record {
      is_map = h;
      stamp_map = tick-IsMap c;
      grows = tick_at c h room;
      stays = ap (λ (x : Snapshot). x.vec) (reads ∙ now-at (tick c).0 stays);
    }

pub Local-Step : (c c' : Clock) (s : Snapshot) → Local c c' s → Step c c' s
Local-Step c c' s l = elim (l.call) [
  | inl e ↦ subst (λ p. Step c p.0 p.1) e (tick-Step c l.is_map l.room)
  | inr e ↦
      let same = (tick_counters c l.is_map).3 in
      subst (λ p. Step c p.0 p.1) (sym same ∙ e) (tick-Step c l.is_map l.room)
]

pub Receive-Step : (c c' : Clock) (m s : Snapshot) → Receive c m c' s → Step c c' s
Receive-Step c c' m s r =
    let (counts, reads, stays) = receive_counters c m r.is_map r.remote_map in
    subst (λ p. Step c p.0 p.1) r.call
      (record {
        is_map = r.is_map;
        stamp_map = receive-IsMap c m;
        grows = receive_at c r.is_map m r.remote_map r.room;
        stays = ap (λ (x : Snapshot). x.vec) (reads ∙ now-at (receive c m).0 stays);
      })

pub Receive-Lt : (c c' : Clock) (m s : Snapshot) → Receive c m c' s → Lt m s
Receive-Lt c c' m s r =
    subst (λ (p : Clock × Snapshot). Lt m p.1) r.call
      (record {
        is_map = r.remote_map;
        other_map = receive-IsMap c m;
        order = receive_remote c r.is_map m r.remote_map r.room;
      })

pub Seen-Step : (c c' : Clock) (s : Snapshot) → Step c c' s → Seen s c'
Seen-Step c c' s p = record {
  is_map = p.stamp_map;
  le = λ k. (let e = ap (λ v. counter v k) p.stays in omega (arith, e));
}

-- A snapshot within the old vector comes before the stamp.
pub Lt-Step : (c c' : Clock) (r s : Snapshot) → Seen r c → Step c c' s → Lt r s
Lt-Step c c' r s h p =
    let (le, not_ge) = (compare_decides (at c) s p.is_map p.stamp_map).1.0 p.grows in
    record {
      is_map = h.is_map;
      other_map = p.stamp_map;
      order =
          (compare_decides r s h.is_map p.stamp_map).1.1
            (Le_trans r.vec c.vec s.vec h.le le, λ ge. not_ge (Le_trans s.vec r.vec c.vec ge h.le));
    }

pub Lt_trans : (r s t : Snapshot) → Lt r s → Lt s t → Lt r t
Lt_trans r s t p q = record {
  is_map = p.is_map;
  other_map = q.other_map;
  order = before_trans r s t p.is_map p.other_map q.other_map p.order q.order;
}

pub Seen-Lt : (s t : Snapshot) (c : Clock) → Lt s t → Seen t c → Seen s c
Seen-Lt s t c p h =
    let (le, not_ge) = (compare_decides s t p.is_map p.other_map).1.0 p.order in
    record { is_map = p.is_map; le = Le_trans s.vec t.vec c.vec le h.le }

abbrev pub vector : LogicalClock
vector = record {
  Clock = Clock;
  Stamp = Snapshot;
  Local = Local;
  Receive = Receive;
  Lt = Lt;
  Seen = Seen;
  lt_trans = Lt_trans;
  seen_of_lt = Seen-Lt;
  local_seen = λ c c' s l. Seen-Step c c' s (Local-Step c c' s l);
  local_lt = λ c c' r s h l. Lt-Step c c' r s h (Local-Step c c' s l);
  receive_seen = λ c c' m s r. Seen-Step c c' s (Receive-Step c c' m s r);
  receive_lt = λ c c' m t s h r. Lt-Step c c' t s h (Receive-Step c c' m s r);
  receive_lt_message = Receive-Lt;
}

-- In every execution of processes with vector clocks, whatever the clocks they start from, of two
-- events where one happens before the other the stamps compare as Before, and as After the other way
-- round, as long as no event finds its node's counter, its own or the one received, at the largest
-- uint64.
pub vector_clock_condition :
    {init cs : ℕ → Clock} {h : List (Event Snapshot)} {i j : ℕ} {a b : Event Snapshot}
    → Run vector init cs h
    → HappensBefore h i j
    → event_at h i ≡ some a
    → event_at h j ≡ some b
    → (compare a.stamp b.stamp ≡ before) × (compare b.stamp a.stamp ≡ after)
vector_clock_condition {a = a} {b = b} run first ea eb =
    let lt : Lt a.stamp b.stamp = clock_condition vector run first ea eb in
    (lt.order, compare-flip a.stamp b.stamp lt.is_map lt.other_map ∙ ap flip lt.order)
