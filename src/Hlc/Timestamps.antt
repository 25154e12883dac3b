-- ===== src/Hlc/Timestamps.antt =====
-- hlc/clock.go: Less, Equal and Compare of timestamps.
use chrono.Prelude.{ℕ, ◌<◌, ◌≡◌, ◌↔◌, ◌⊎◌, inl, inr, sym, ◌+◌, true, false, arith}
use chrono.Prelude.Int.{pos, negsuc, ◌<ℤ◌, pos_part, neg_part, eq_of_parts, ℤ_trichotomy}
use chrono.Hlc.{Timestamp, less, equal, compare}

-- The order that the documentation states: WallTime first, then Logical.
abbrev pub Before : Timestamp → Timestamp → Type 0
Before a b = (a.wall_time <ℤ b.wall_time) ⊎ ((a.wall_time ≡ b.wall_time) × (a.logical < b.logical))

pub less→Before : (a b : Timestamp) → less a b ≡ true → Before a b
unfolding less
less→Before a b h = ground (arith, eq_of_parts a.wall_time b.wall_time)

pub Before→less : (a b : Timestamp) → Before a b → less a b ≡ true
unfolding less
Before→less a b h = ground arith

tie : (m n : ℕ) → (m < n) ⊎ ((m ≡ n) ⊎ (n < m))
tie m n = grind arith

Timestamp_eq : (a b : Timestamp) → a.wall_time ≡ b.wall_time → a.logical ≡ b.logical → a ≡ b
Timestamp_eq a b p q = λ i. record { wall_time = p i; logical = q i }

compare_lt : (a b : Timestamp) → (compare a b ≡ negsuc 0) ↔ (less a b ≡ true)
unfolding compare less
compare_lt a b = (λ h. ground arith, λ h. ground arith)

compare_gt : (a b : Timestamp) → (compare a b ≡ pos 1) ↔ (less b a ≡ true)
unfolding compare less
compare_gt a b = (λ h. ground arith, λ h. ground arith)

compare-zero-parts :
    (a b : Timestamp)
    → compare a b ≡ pos 0
    → (pos_part a.wall_time + neg_part b.wall_time ≡ pos_part b.wall_time + neg_part a.wall_time)
      × (a.logical ≡ b.logical)
unfolding compare
compare-zero-parts a b h = ground arith

compare_self : (a : Timestamp) → compare a a ≡ pos 0
unfolding compare
compare_self a = ground arith

compare_eq : (a b : Timestamp) → (compare a b ≡ pos 0) ↔ (a ≡ b)
compare_eq a b = (
  λ h.
      let (p, q) = compare-zero-parts a b h in
      Timestamp_eq a b (eq_of_parts a.wall_time b.wall_time p) q,
  λ e. rw e (compare_self b),
)

equal-parts :
    (a b : Timestamp)
    → equal a b ≡ true
    → (pos_part a.wall_time + neg_part b.wall_time ≡ pos_part b.wall_time + neg_part a.wall_time)
      × (a.logical ≡ b.logical)
unfolding equal
equal-parts a b h = ground arith

equal_self : (a : Timestamp) → equal a a ≡ true
unfolding equal
equal_self a = ground arith

equal_iff : (a b : Timestamp) → (equal a b ≡ true) ↔ (a ≡ b)
equal_iff a b = (
  λ h. let (p, q) = equal-parts a b h in Timestamp_eq a b (eq_of_parts a.wall_time b.wall_time p) q,
  λ e. rw e (equal_self b),
)

-- Compare is -1 exactly when a is less than b, 0 exactly when they are the same timestamp, and 1
-- exactly when b is less than a; and Equal holds exactly of the same timestamp.
pub compare_agrees :
    (a b : Timestamp)
    → ((compare a b ≡ negsuc 0) ↔ (less a b ≡ true))
      × ((compare a b ≡ pos 0) ↔ (a ≡ b))
      × ((compare a b ≡ pos 1) ↔ (less b a ≡ true))
      × ((equal a b ≡ true) ↔ (a ≡ b))
compare_agrees a b = (compare_lt a b, compare_eq a b, compare_gt a b, equal_iff a b)

pub less_irrefl : (a : Timestamp) → less a a ≡ false
unfolding less
less_irrefl a = ground arith

pub less_trans : (a b c : Timestamp) → less a b ≡ true → less b c ≡ true → less a c ≡ true
less_trans a b c h k = Before→less a c (ground (arith, less→Before a b h, less→Before b c k))

-- Less is a strict total order: no timestamp is less than itself, it is transitive, and of two
-- different timestamps one is less than the other.
pub less_order :
    (a b c : Timestamp)
    → (less a a ≡ false)
      × (less a b ≡ true → less b c ≡ true → less a c ≡ true)
      × ((less a b ≡ true) ⊎ ((a ≡ b) ⊎ (less b a ≡ true)))
less_order a b c = (less_irrefl a, less_trans a b c, less_total)
  where
    less_total : (less a b ≡ true) ⊎ ((a ≡ b) ⊎ (less b a ≡ true))
    less_total = elim (ℤ_trichotomy a.wall_time b.wall_time) [
      | inl lt ↦ inl (Before→less a b (inl lt))
      | inr (inr gt) ↦ inr (inr (Before→less b a (inl gt)))
      | inr (inl e) ↦ elim (tie a.logical b.logical) [
        | inl lt ↦ inl (Before→less a b (inr (e, lt)))
        | inr (inl e') ↦ inr (inl (Timestamp_eq a b e e'))
        | inr (inr gt) ↦ inr (inr (Before→less b a (inr (sym e, gt))))
      ]
    ]
