-- ===== src/Dotted/Equals.antt =====
-- dotted/version.go: Equals, on versions as the package makes them.
use chrono.Prelude.{◌≡◌, ◌↔◌, refl, true, arith}
use chrono.GoMap.Loops.{test_equal, test_equal_sound, test_equal_complete}
use chrono.Dotted.{Version, equals, descends}
use chrono.Dotted.Causal.{descends_iff}
use chrono.Dotted.Merge.{IsVersion}

pub equals-test_equal : (v other : Version) → equals v other ≡ test_equal v.dots other.dots
unfolding equals
equals-test_equal v other = refl

-- On versions without zero counters Equals holds exactly when each descends from the other.
pub equals_iff :
    (v other : Version)
    → IsVersion v
    → IsVersion other
    → (equals v other ≡ true) ↔ ((descends v other ≡ true) × (descends other v ≡ true))
equals_iff v other hv ho =
    let down = descends_iff v other ho.is_map in
    let up = descends_iff other v hv.is_map in
    rw (equals-test_equal v other) (
      λ e.
          let same = test_equal_sound v.dots other.dots hv.is_map ho.is_map hv.positive e in
          (down.1 (λ k. omega (arith, same k)), up.1 (λ k. omega (arith, same k))),
      λ h.
          let le = down.0 h.0 in
          let ge = up.0 h.1 in
          test_equal_complete v.dots other.dots hv.is_map ho.is_map hv.positive ho.positive
            (λ k. omega (arith, le k, ge k)),
    )
