-- ===== src/Vector/Encode/Buffer.antt =====
-- vector/encode.go: the writes of MarshalBinary into its buffer.
use chrono.Prelude.{
  ℕ, zero, suc, ◌+◌, ◌-◌, ◌≤◌, ◌≡◌, refl, sym, ◌∙◌, some, List, ◌++◌, arith, length, take, drop,
  length-append, take-append, drop-append, drop_add, take_all,
}
use mathlib.Core.List.{append_assoc}
use chrono.Vector.Encode.{zeros, put, copy_at}

length-zeros : (n : ℕ) → length (zeros n) ≡ n
unfolding zeros
length-zeros zero = refl
length-zeros (suc n) = omega (arith, length-zeros n)

drop-zeros : (m n : ℕ) → drop m (zeros n) ≡ zeros (n - m)
unfolding zeros
drop-zeros zero n = (let e : n - 0 ≡ n = omega arith in rw e refl)
drop-zeros (suc m) zero = (let e : 0 - suc m ≡ 0 = omega arith in rw e refl)
drop-zeros (suc m) (suc n) = (let e : suc n - suc m ≡ n - m = omega arith in rw e (drop-zeros m n))

module _ (front bs : List ℕ) (off n : ℕ) (at : off ≡ length front) (room : length bs ≤ n) where
  length_room : length (front ++ zeros n) ≡ off + n
  length_room = omega (arith, length-append front (zeros n), length-zeros n)

  tail : drop (off + length bs) (front ++ zeros n) ≡ zeros (n - length bs)
  tail =
      drop_add off (length bs) (front ++ zeros n)
      ∙ rw (drop-append off front (zeros n) (sym at)) (drop-zeros (length bs) n)

  -- What a write into the zeros behind `front` leaves.
  pub put-zeros : put (front ++ zeros n) off bs ≡ some ((front ++ bs) ++ zeros (n - length bs))
  unfolding put
  put-zeros =
      rw
        (
          tail,
          take-append off front (zeros n) (sym at),
          append_assoc front bs (zeros (n - length bs)),
        )
        (ground (arith, length_room))

  pub copy_at-zeros :
      copy_at (front ++ zeros n) off bs ≡ some ((front ++ bs) ++ zeros (n - length bs))
  unfolding copy_at
  copy_at-zeros =
      let e : take (length (front ++ zeros n) - off) bs ≡ bs =
        take_all _ bs (omega (arith, length_room)) in
      rw
        (
          e,
          tail,
          take-append off front (zeros n) (sym at),
          append_assoc front bs (zeros (n - length bs)),
        )
        (ground (arith, length_room))
