-- ===== src/VectorKv/Session/Version.antt =====
-- examples/vector_kv/main.go: versionStr and the order of a Go map.
use chrono.Prelude.{◌≡◌, refl, ap, List, [], ◌∷◌, ◌++◌}
use chrono.Prelude.Strings.{Str, str_lt}
use chrono.Prelude.Sort.{sort_stable}
use chrono.Prelude.Decimal.{decimal}
use chrono.GoMap.{lookup, IsMap, or_zero}
use chrono.Vector.{Snapshot, nodes, keys, get}
use chrono.Vector.Encode.Entries.{sorted_keys-same}
use chrono.VectorKv.Session.{version_str, part, more_parts, join_parts}

module _ (a b : Snapshot) (same : (k : Str) → lookup k a.vec ≡ lookup k b.vec) where
  part-same : (n : Str) → part a n ≡ part b n
  unfolding get
  part-same n = ap (λ c. n ++ ((b':' ∷ []) ++ decimal (or_zero c))) (same n)

  more_parts-same : (ns : List Str) → more_parts a ns ≡ more_parts b ns
  more_parts-same [] = refl
  more_parts-same (n ∷ ns) = rw (part-same n, more_parts-same ns) refl

  join_parts-same : (ns : List Str) → join_parts a ns ≡ join_parts b ns
  join_parts-same [] = refl
  join_parts-same (n ∷ ns) = rw (part-same n, more_parts-same ns) refl

-- versionStr shows two snapshots with the same entries alike, whatever the order of their maps and
-- whichever nodes they are of.
pub version_str-same :
    (a b : Snapshot)
    → IsMap a.vec
    → IsMap b.vec
    → ((k : Str) → lookup k a.vec ≡ lookup k b.vec)
    → version_str a ≡ version_str b
unfolding version_str nodes
version_str-same a b ha hb same = rw (sorted_keys-same a.vec b.vec ha hb same) (
    ap (λ s. (b'{' ∷ []) ++ (s ++ (b'}' ∷ [])))
      (join_parts-same a b same (sort_stable str_lt (keys b.vec))))
