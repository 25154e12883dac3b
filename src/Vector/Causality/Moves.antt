-- ===== src/Vector/Causality/Moves.antt =====
-- vector/clock.go: what an event does to the counters, its own and those of the other nodes.
use chrono.Prelude.{
  ℕ, ◌<◌, ◌≡◌, ◌⊎◌, refl, sym, ap, ◌∙◌, subst, inl, inr, Option, none, some, false, arith, max,
}
use chrono.Prelude.Strings.{Str, str_eq, str_eq_refl}
use chrono.GoMap.{counter, IsMap}
use chrono.Vector.{Clock, Snapshot, tick, receive}
use chrono.Vector.Steps.{max_u64, tick_counters, receive_counters}
use chrono.Vector.Steps.Forward.{now-at}
use chrono.Vector.Causality.{Local, Receive}

-- The event counts itself, and takes every other counter from the clock or from the message.
pub record Move (c c' : Clock) (s : Snapshot) (remote : Option Snapshot) : Type 0 where
  pub node : c'.node_id ≡ c.node_id
  pub stays : s.vec ≡ c'.vec
  pub own : counter c.vec c.node_id < counter s.vec c.node_id
  pub others :
      (k : Str)
      → str_eq c.node_id k ≡ false
      → (counter s.vec k ≡ counter c.vec k)
        ⊎ ((m : Snapshot) × (remote ≡ some m) × (counter s.vec k ≡ counter m.vec k))

tick-Move :
    (c : Clock)
    → IsMap c.vec
    → counter c.vec c.node_id < max_u64
    → Move c (tick c).0 (tick c).1 none
tick-Move c h room =
    let (counts, reads, is_map, same) = tick_counters c h in
    record {
      node = unfold tick in refl;
      stays = ap (λ (x : Snapshot). x.vec) (reads ∙ now-at (tick c).0 is_map);
      own = ground (arith, counts c.node_id, str_eq_refl c.node_id);
      others = λ k other. inl (counts k ∙ rw other refl);
    }

pub Local-Move : (c c' : Clock) (s : Snapshot) → Local c c' s → Move c c' s none
Local-Move c c' s l = elim (l.call) [
  | inl e ↦ subst (λ p. Move c p.0 p.1 none) e (tick-Move c l.is_map l.room)
  | inr e ↦
      let same = (tick_counters c l.is_map).3 in
      subst (λ p. Move c p.0 p.1 none) (sym same ∙ e) (tick-Move c l.is_map l.room)
]

-- The larger of two numbers is one of them.
max-cases : (a b : ℕ) → (max a b ≡ a) ⊎ (max a b ≡ b)
max-cases a b = ground arith

pub Receive-Move : (c c' : Clock) (m s : Snapshot) → Receive c m c' s → Move c c' s (some m)
Receive-Move c c' m s r =
    let (counts, reads, is_map) = receive_counters c m r.is_map r.remote_map in
    let room = r.room in
    subst (λ p. Move c p.0 p.1 (some m)) r.call
      (record {
        node = unfold receive in refl;
        stays = ap (λ (x : Snapshot). x.vec) (reads ∙ now-at (receive c m).0 is_map);
        own = ground (arith, counts c.node_id, str_eq_refl c.node_id);
        others = λ k other. elim (max-cases (counter c.vec k) (counter m.vec k)) [
          | inl e ↦ inl (counts k ∙ rw other e)
          | inr e ↦ inr (m, refl, counts k ∙ rw other e)
        ];
      })
