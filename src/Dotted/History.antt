-- ===== src/Dotted/History.antt =====
-- dotted/version.go: histories, the versions up to Equals, and Merge on them.
use mathlib.Core.Quot.{Setoid, Quotient, Quotient-set}
use mathlib.Core.Quot.Quotient
use mathlib.Core.Bool.{Bool-set}
use chrono.Prelude.{◌≡◌, ◌≢◌, ◌↔◌, true, refl, sym, ◌∙◌, arith, max}
use chrono.Prelude.Strings.{Str}
use chrono.GoMap.{lookup, counter}
use chrono.GoMap.Loops.{SameCounters, test_equal_sound, test_equal_complete}
use chrono.Dotted.{Version, new_version, merge, descends, dominates, equals}
use chrono.Dotted.Causal.{descends_iff}
use chrono.Dotted.Dominates.{dominates_iff}
use chrono.Dotted.Equals.{equals-test_equal}
use chrono.Dotted.Merge.{IsVersion, merge-counter, merge-IsVersion}

-- A version as the methods of the package make them: a map, with no zero counters.
pub record Held : Type 0 where
  pub version : Version
  pub is_version : IsVersion version

-- Equals decides whether the counters are the same.
pub equals_iff :
    (a b : Held) → (equals a.version b.version ≡ true) ↔ SameCounters a.version.dots b.version.dots
equals_iff a b =
    let va = a.is_version in
    let vb = b.is_version in
    let da = a.version.dots in
    let db = b.version.dots in
    rw (equals-test_equal a.version b.version) (
      test_equal_sound da db va.is_map vb.is_map va.positive,
      test_equal_complete da db va.is_map vb.is_map va.positive vb.positive,
    )

-- The versions up to Equals.
abbrev pub same : Setoid {0, 0} Held
same = record {
  r = λ a b. equals a.version b.version ≡ true;
  iseqv = record {
    refl = λ a. (equals_iff a a).1 (λ k. refl);
    symm = λ a b h. (equals_iff b a).1 (λ k. sym ((equals_iff a b).0 h k));
    trans = λ a b c h l. (equals_iff a c).1 (λ k. (equals_iff a b).0 h k ∙ (equals_iff b c).0 l k);
  };
}

abbrev pub History : Type 0
History = Quotient same

abbrev pub history : Held → History
history v = Quotient.mk same v

History-set : IsSet History
History-set = Quotient-set same

-- Versions that have the same counters are one history.
sound : (a b : Held) → SameCounters a.version.dots b.version.dots → history a ≡ history b
sound a b h = Quotient.sound same ((equals_iff a b).1 h)

-- Equals is the equality of histories.
equals-history : (a b : Held) → (equals a.version b.version ≡ true) ↔ (history a ≡ history b)
equals-history a b = (Quotient.sound same, Quotient.exact same (λ x y. hlevel Bool-set))

exact : (a b : Held) → history a ≡ history b → SameCounters a.version.dots b.version.dots
exact a b e = (equals_iff a b).0 ((equals-history a b).1 e)

abbrev pub merged : Held → Held → Held
merged a b = record {
  version = merge a.version b.version;
  is_version = merge-IsVersion a.version b.version a.is_version;
}

counter-merged :
    (a b : Held) (k : Str)
    → counter (merged a b).version.dots k
      ≡ max (counter a.version.dots k) (counter b.version.dots k)
counter-merged a b k = merge-counter a.version b.version a.is_version.is_map b.is_version.is_map k

merged-same :
    (a b a' b' : Held)
    → SameCounters a.version.dots a'.version.dots
    → SameCounters b.version.dots b'.version.dots
    → SameCounters (merged a b).version.dots (merged a' b').version.dots
merged-same a b a' b' p q k = omega (arith, counter-merged a b k, counter-merged a' b' k, p k, q k)

-- Merge on histories.
pub join : History → History → History
join =
    Quotient.lift₂ same same History-set (λ a b. history (merged a b))
      λ a b a' b' p q.
        sound (merged a b) (merged a' b')
          (merged-same a b a' b' ((equals_iff a a').0 p) ((equals_iff b b').0 q))

pub join-history : (a b : Held) → join (history a) (history b) ≡ history (merged a b)
unfolding join
join-history a b = Quotient.lift₂-mk same same History-set _ _ a b

-- The history of NewVersion.
abbrev pub none_seen : Held
unfolding new_version
none_seen = record { version = new_version; is_version = record { is_map = tt; positive = tt } }

join_comm : (p q : History) → join p q ≡ join q p
join_comm p q =
    Quotient.induction_on₂ same same {motive = λ p q. join p q ≡ join q p} (λ p q. History-set _ _)
      p q
      (λ a b. simp join-history (
        sound (merged a b) (merged b a)
          (λ k. omega (arith, counter-merged a b k, counter-merged b a k))))

join_assoc : (p q r : History) → join (join p q) r ≡ join p (join q r)
join_assoc p q r =
    Quotient.induction_on₃ same same same {motive = λ p q r. join (join p q) r ≡ join p (join q r)}
      (λ p q r. History-set _ _) p q r
      (λ a b c.
        let ab = merged a b in
        let bc = merged b c in
        simp join-history (
          sound (merged ab c) (merged a bc) (λ k. omega (
            arith,
            counter-merged a b k,
            counter-merged b c k,
            counter-merged ab c k,
            counter-merged a bc k,
          ))))

join_idem : (p : History) → join p p ≡ p
join_idem p =
    Quotient.induction_on same {motive = λ p. join p p ≡ p} (λ p. History-set _ _) p
      (λ a. simp join-history (sound (merged a a) a (λ k. omega (arith, counter-merged a a k))))

join_none : (p : History) → join (history none_seen) p ≡ p
join_none p =
    Quotient.induction_on same {motive = λ p. join (history none_seen) p ≡ p} (λ p. History-set _ _)
      p
      (λ a. simp join-history (
        sound (merged none_seen a) a
          (λ k. unfold lookup new_version in omega (arith, counter-merged none_seen a k))))

descends-join :
    (a b : Held)
    → (descends a.version b.version ≡ true) ↔ (join (history a) (history b) ≡ history a)
descends-join a b =
    let iff = descends_iff a.version b.version b.is_version.is_map in
    rw (join-history a b) (
      λ d. sound (merged a b) a (λ k. omega (arith, iff.0 d k, counter-merged a b k)),
      λ e. iff.1 (λ k. omega (arith, exact (merged a b) a e k, counter-merged a b k)),
    )

-- Dominates is the strict order.
dominates-join :
    (a b : Held)
    → (dominates a.version b.version ≡ true)
      ↔ ((join (history a) (history b) ≡ history a) × (join (history b) (history a) ≢ history b))
dominates-join a b =
    let va = a.is_version in
    let vb = b.is_version in
    let strict = dominates_iff a.version b.version va.is_map vb.is_map va.positive in
    let up = descends-join a b in
    let down = descends-join b a in
    let within_up = descends_iff a.version b.version vb.is_map in
    let within_down = descends_iff b.version a.version va.is_map in
    (
      λ d. (up.0 (within_up.1 (strict.0 d).0), λ e. (strict.0 d).1 (within_down.0 (down.1 e))),
      λ h. strict.1 (within_up.0 (up.1 h.0), λ w. h.1 (down.0 (within_down.1 w))),
    )

-- Versions without zero counters are, up to Equals, a join-semilattice: Merge is a function of the two
-- histories, it is associative, commutative and idempotent, and NewVersion is its unit. Descends is the
-- order of this semilattice and Dominates the strict order, and two versions are one history exactly
-- where Equals holds.
pub history_semilattice :
    (a b : Held) (p q r : History)
    → (join (history a) (history b) ≡ history (merged a b))
      × (join (join p q) r ≡ join p (join q r))
      × (join p q ≡ join q p)
      × (join p p ≡ p)
      × (join (history none_seen) p ≡ p)
      × ((descends a.version b.version ≡ true) ↔ (join (history a) (history b) ≡ history a))
      × ((dominates a.version b.version ≡ true) ↔ (
          (join (history a) (history b) ≡ history a) × (join (history b) (history a) ≢ history b)))
      × ((equals a.version b.version ≡ true) ↔ (history a ≡ history b))
history_semilattice a b p q r = (
  join-history a b,
  join_assoc p q r,
  join_comm p q,
  join_idem p,
  join_none p,
  descends-join a b,
  dominates-join a b,
  equals-history a b,
)
