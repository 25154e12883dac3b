-- ===== src/Ordering/Topological/Counts.antt =====
-- Counting indices in a list: how often one occurs, and how many pass a test.
use chrono.Prelude.{
  ℕ, zero, suc, ◌+◌, ◌<◌, ◌≡◌, ◌≢◌, refl, Bool, false, List, [], ◌∷◌, ◌++◌, ◌==◌, leb, subst,
  ==_iff, ==_refl, ltb, if◌then◌else◌, arith, All, Bool-cases, inl, inr, ◌&&◌,
}
use chrono.Prelude.Sort.{sort_stable, sort_insert}
use chrono.Ordering.Topological.{range}

abbrev pub count : ℕ → List ℕ → ℕ
count i [] = 0
count i (x ∷ xs) = (if x == i then 1 else 0) + count i xs

abbrev pub count_if : (ℕ → Bool) → List ℕ → ℕ
count_if p [] = 0
count_if p (x ∷ xs) = (if p x then 1 else 0) + count_if p xs

pub count-append_one :
    (i j : ℕ) (xs : List ℕ) → count i (xs ++ (j ∷ [])) ≡ count i xs + (if j == i then 1 else 0)
count-append_one i j [] = omega arith
count-append_one i j (x ∷ xs) = omega (arith, count-append_one i j xs)

pub count-range :
    (i from n : ℕ) → count i (range from n) ≡ (if leb from i && ltb i (from + n) then 1 else 0)
count-range i from zero = ground arith
count-range i from (suc n) = ground (arith, count-range i (suc from) n)

count-sort_insert :
    (less : ℕ → ℕ → Bool) (i x : ℕ) (xs : List ℕ)
    → count i (sort_insert less x xs) ≡ count i (x ∷ xs)
unfolding sort_insert
count-sort_insert less i x [] = refl
count-sort_insert less i x (y ∷ ys) = elim (Bool-cases (less y x)) [
  | inl e ↦ rw e (omega (arith, count-sort_insert less i x ys))
  | inr e ↦ rw e refl
]

pub count-sort_stable :
    (less : ℕ → ℕ → Bool) (i : ℕ) (xs : List ℕ) → count i (sort_stable less xs) ≡ count i xs
unfolding sort_stable
count-sort_stable less i [] = refl
count-sort_stable less i (x ∷ xs) =
    omega (arith, count-sort_insert less i x (sort_stable less xs), count-sort_stable less i xs)

pub All-count {κ} : (P : ℕ → Type κ) (xs : List ℕ) (i : ℕ) → All P xs → 0 < count i xs → P i
All-count P [] i h pos = absurd (omega arith)
All-count P (x ∷ xs) i (p, h) pos = elim (Bool-cases (x == i)) [
  | inl e ↦ subst P ((==_iff x i).0 e) p
  | inr e ↦ All-count P xs i h (ground arith)
]

pub count-All {κ} : (P : ℕ → Type κ) (xs : List ℕ) → ((i : ℕ) → 0 < count i xs → P i) → All P xs
count-All P [] h = tt
count-All P (x ∷ xs) h =
    (h x (ground (arith, ==_refl x)), count-All P xs (λ i pos. h i (omega arith)))

-- Nothing passes the test.
pub count_if_none :
    (p : ℕ → Bool) (xs : List ℕ) → ((i : ℕ) → 0 < count i xs → p i ≡ false) → count_if p xs ≡ 0
count_if_none p [] h = refl
count_if_none p (x ∷ xs) h =
    rw (h x (ground (arith, ==_refl x)))
      (omega (arith, count_if_none p xs (λ i pos. h i (omega arith))))

pub count_if-zero :
    (p : ℕ → Bool) (xs : List ℕ) (i : ℕ) → count_if p xs ≡ 0 → 0 < count i xs → p i ≡ false
count_if-zero p [] i e pos = absurd (omega arith)
count_if-zero p (x ∷ xs) i e pos = ground (arith, count_if-zero p xs i, ==_iff x i)

-- A test that only gives up `c`.
pub count_if_without :
    (p q : ℕ → Bool) (c : ℕ) (xs : List ℕ)
    → q c ≡ false
    → ((i : ℕ) → i ≢ c → q i ≡ p i)
    → count_if q xs + (if p c then count c xs else 0) ≡ count_if p xs
count_if_without p q c [] out same = ground arith
count_if_without p q c (x ∷ xs) out same =
    ground (arith, count_if_without p q c xs out same, same x, ==_iff x c)
