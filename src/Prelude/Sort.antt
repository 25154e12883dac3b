-- ===== src/Prelude/Sort.antt =====
-- A stable sort, which stands for sort.Strings and sort.SliceStable, and lists of strings in order.
use Prim.Native.Nat.{suc}
use mathlib.Core.Path.{◌≡◌, refl, sym, ap, ap₂, ◌∙◌}
use mathlib.Core.Logic.{inl, inr}
use mathlib.Core.Bool.{Bool, true, false, ◌||◌}
use mathlib.Core.List.{List, [], ◌∷◌}
use native.Mathlib.Omega.{arith}
use chrono.Prelude.Tests.{if◌then◌else◌, Bool-cases}
use chrono.Prelude.Lists.{All, length}
use chrono.Prelude.Strings.{
  Str, str_eq, str_lt, str_eq_iff, str_eq_refl, str_lt_irrefl, str_lt_trans, str_lt_total,
}

-- An element goes in front of the first one that is not less than it.
module _ {ℓ} {A : Type ℓ} (less : A → A → Bool) where
  unfoldable pub sort_insert : A → List A → List A
  sort_insert x [] = x ∷ []
  sort_insert x (y ∷ ys) = let rest = sort_insert x ys in if less y x then y ∷ rest else x ∷ y ∷ ys

  unfoldable pub sort_stable : List A → List A
  unfolding sort_insert
  sort_stable [] = []
  sort_stable (x ∷ xs) = sort_insert x (sort_stable xs)

  All-sort_insert {κ} :
      (P : A → Type κ) (x : A) (xs : List A) → P x → All P xs → All P (sort_insert x xs)
  unfolding sort_insert
  All-sort_insert P x [] p h = (p, tt)
  All-sort_insert P x (y ∷ ys) p (q, h) = elim (Bool-cases (less y x)) [
    | inl e ↦ rw e (q, All-sort_insert P x ys p h)
    | inr e ↦ rw e (p, (q, h))
  ]

  pub All-sort_stable {κ} : (P : A → Type κ) (xs : List A) → All P xs → All P (sort_stable xs)
  unfolding sort_stable
  All-sort_stable P [] h = tt
  All-sort_stable P (x ∷ xs) (p, h) =
      All-sort_insert P x (sort_stable xs) p (All-sort_stable P xs h)

  length-sort_insert : (x : A) (xs : List A) → length (sort_insert x xs) ≡ suc (length xs)
  unfolding sort_insert
  length-sort_insert x [] = refl
  length-sort_insert x (y ∷ ys) = ground (arith, length-sort_insert x ys)

  pub length-sort_stable : (xs : List A) → length (sort_stable xs) ≡ length xs
  unfolding sort_stable
  length-sort_stable [] = refl
  length-sort_stable (x ∷ xs) =
      omega (arith, length-sort_insert x (sort_stable xs), length-sort_stable xs)

  -- No element is less than one in front of it.
  abbrev pub IsOrdered : List A → Type ℓ
  IsOrdered [] = Unit
  IsOrdered (x ∷ xs) = All (λ y. less y x ≡ false) xs × IsOrdered xs

  module _ (asymm : (x y : A) → less x y ≡ true → less y x ≡ false)
      (not_less_trans : (x y z : A) → less z y ≡ false → less y x ≡ false → less z x ≡ false) where
    All-not_less :
        (x y : A) (ys : List A)
        → less y x ≡ false
        → All (λ z. less z y ≡ false) ys
        → All (λ z. less z x ≡ false) ys
    All-not_less x y [] h a = tt
    All-not_less x y (z ∷ zs) h (p, a) = (not_less_trans x y z p h, All-not_less x y zs h a)

    sort_insert-IsOrdered : (x : A) (xs : List A) → IsOrdered xs → IsOrdered (sort_insert x xs)
    unfolding sort_insert
    sort_insert-IsOrdered x [] h = (tt, tt)
    sort_insert-IsOrdered x (y ∷ ys) (a, h) = elim (Bool-cases (less y x)) [
      | inl e ↦ rw e (
        All-sort_insert (λ z. less z y ≡ false) x ys (asymm y x e) a,
        sort_insert-IsOrdered x ys h,
      )
      | inr e ↦ rw e ((e, All-not_less x y ys e a), (a, h))
    ]

    pub sort_stable-IsOrdered : (xs : List A) → IsOrdered (sort_stable xs)
    unfolding sort_stable
    sort_stable-IsOrdered [] = tt
    sort_stable-IsOrdered (x ∷ xs) =
        sort_insert-IsOrdered x (sort_stable xs) (sort_stable-IsOrdered xs)

unfoldable pub member : Str → List Str → Bool
member k [] = false
member k (x ∷ xs) = str_eq x k || member k xs

-- Strictly ascending.
abbrev pub IsAscending : List Str → Type 0
IsAscending [] = Unit
IsAscending (x ∷ xs) = All (λ y. str_lt x y ≡ true) xs × IsAscending xs

member-sort_insert :
    (k x : Str) (xs : List Str) → member k (sort_insert str_lt x xs) ≡ (str_eq x k || member k xs)
unfolding sort_insert member
member-sort_insert k x [] = refl
member-sort_insert k x (y ∷ ys) = ground (arith, member-sort_insert k x ys)

pub member-sort_stable : (k : Str) (xs : List Str) → member k (sort_stable str_lt xs) ≡ member k xs
unfolding sort_stable member
member-sort_stable k [] = refl
member-sort_stable k (x ∷ xs) =
    rw (member-sort_insert k x (sort_stable str_lt xs), member-sort_stable k xs) refl

All-lt_trans :
    (x y : Str) (ys : List Str)
    → str_lt x y ≡ true
    → All (λ z. str_lt y z ≡ true) ys
    → All (λ z. str_lt x z ≡ true) ys
All-lt_trans x y [] h k = tt
All-lt_trans x y (z ∷ zs) h (p, k) = (str_lt_trans x y z h p, All-lt_trans x y zs h k)

sort_insert-IsAscending :
    (x : Str) (xs : List Str)
    → member x xs ≡ false
    → IsAscending xs
    → IsAscending (sort_insert str_lt x xs)
unfolding sort_insert member
sort_insert-IsAscending x [] m h = (tt, tt)
sort_insert-IsAscending x (y ∷ ys) m (p, h) = elim (Bool-cases (str_lt y x)) [
  | inl e ↦ rw e (
    All-sort_insert str_lt (λ z. str_lt y z ≡ true) x ys e p,
    sort_insert-IsAscending x ys (ground arith) h,
  )
  | inr e ↦ elim (Bool-cases (str_lt x y)) [
    | inl f ↦ rw e ((f, All-lt_trans x y ys f p), (p, h))
    | inr f ↦ ground (arith, str_eq_iff y x, str_lt_total y x e f)
  ]
]

-- No string occurs twice.
abbrev pub IsDistinct : List Str → Type 0
IsDistinct [] = Unit
IsDistinct (x ∷ xs) = (member x xs ≡ false) × IsDistinct xs

pub sort_stable-IsAscending : (xs : List Str) → IsDistinct xs → IsAscending (sort_stable str_lt xs)
unfolding sort_stable
sort_stable-IsAscending [] h = tt
sort_stable-IsAscending (x ∷ xs) (m, h) =
    sort_insert-IsAscending x (sort_stable str_lt xs) (member-sort_stable x xs ∙ m)
      (sort_stable-IsAscending xs h)

pub not-member_above :
    (k : Str) (xs : List Str) → All (λ z. str_lt k z ≡ true) xs → member k xs ≡ false
unfolding member
not-member_above k [] a = refl
not-member_above k (y ∷ ys) (p, a) =
    ground (arith, str_eq_iff y k, str_lt_irrefl k, not-member_above k ys a)

member_self : (x : Str) (xs : List Str) → member x (x ∷ xs) ≡ true
unfolding member
member_self x xs = ground (arith, str_eq_refl x)

-- A head below another list's head is not in that list.
head_not_below :
    (x y : Str) (xs ys : List Str)
    → IsAscending (y ∷ ys)
    → ((k : Str) → member k (x ∷ xs) ≡ member k (y ∷ ys))
    → str_lt x y ≡ false
head_not_below x y xs ys h same = elim (Bool-cases (str_lt x y)) [
  | inl lt ↦
      cc (member_self x xs, same x, not-member_above x (y ∷ ys) (lt, All-lt_trans x y ys lt h.0))
  | inr ge ↦ ge
]

member_tail :
    (k x y : Str) (xs ys : List Str)
    → x ≡ y
    → All (λ z. str_lt x z ≡ true) xs
    → All (λ z. str_lt y z ≡ true) ys
    → member k (x ∷ xs) ≡ member k (y ∷ ys)
    → member k xs ≡ member k ys
unfolding member
member_tail k x y xs ys e a b same = elim (Bool-cases (str_eq x k)) [
  | inl is_k ↦
      let q : k ≡ x = sym ((str_eq_iff x k).0 is_k) in
      not-member_above k xs (rw q a) ∙ sym (not-member_above k ys (rw (q ∙ e) b))
  | inr other ↦ ground (arith, ap (λ t. str_eq t k) e)
]

-- Two ascending lists with the same members are one list.
pub ascending-eq :
    (xs ys : List Str)
    → IsAscending xs
    → IsAscending ys
    → ((k : Str) → member k xs ≡ member k ys)
    → xs ≡ ys
ascending-eq [] [] a b same = refl
ascending-eq [] (y ∷ ys) a b same = cc (member_self y ys, same y, not-member_above y [] tt)
ascending-eq (x ∷ xs) [] a b same = cc (member_self x xs, same x, not-member_above x [] tt)
ascending-eq (x ∷ xs) (y ∷ ys) a b same =
    let e : x ≡ y =
      str_lt_total x y (head_not_below x y xs ys b same)
        (head_not_below y x ys xs a (λ k. sym (same k))) in
    ap₂ ◌∷◌ e (ascending-eq xs ys a.1 b.1 (λ k. member_tail k x y xs ys e a.0 b.0 (same k)))
