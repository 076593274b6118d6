-- ===== src/Commitments/Masks/Popcount.antt =====
-- The digit count of a mask.
use bab_takehome.Base.{
  ℕ, zero, suc, ◌+◌, ◌≤◌, ◌≡◌, refl, sym, ap, ◌∙◌, inl, inr, List, arith, Bool-cases, ltb, ℤ, pos,
  negsuc, shift_right, shift_right_next, test_bit, length,
}
use bab_takehome.Commitments.Masks.{indices_loop, indices_from_mask, popcount_loop, popcount}

popcount_loop_zero : (f : ℕ) → popcount_loop f 0 ≡ 0
unfolding popcount_loop
popcount_loop_zero zero = refl
popcount_loop_zero (suc f) = ground arith

-- Any fuel that is not less than the number gives the same count.
popcount_loop-indices_loop :
    (m k n f : ℕ)
    → shift_right m (k + n) ≡ 0
    → shift_right m k ≤ f
    → popcount_loop f (shift_right m k) ≡ length (indices_loop m k n)
unfolding popcount_loop indices_loop test_bit
popcount_loop-indices_loop m k zero f e h =
    let none : shift_right m k ≡ 0 = ap (shift_right m) (omega arith) ∙ e in
    ap (popcount_loop f) none ∙ popcount_loop_zero f
popcount_loop-indices_loop m k (suc n) zero e h =
    let rest =
      popcount_loop-indices_loop m (suc k) n zero (ap (shift_right m) (omega arith) ∙ e)
        (rw (shift_right_next m k) omega arith) in
    ground (arith, rest)
popcount_loop-indices_loop m k (suc n) (suc f) e h =
    let next : shift_right (shift_right m k) 1 ≡ shift_right m (suc k) =
      omega arith ∙ sym (shift_right_next m k) in
    let rest =
      ap (popcount_loop f) next
      ∙ popcount_loop-indices_loop m (suc k) n f (ap (shift_right m) (omega arith) ∙ e)
          (rw (shift_right_next m k) omega arith) in
    elim (Bool-cases (ltb 0 (shift_right m k))) [
      | inl p ↦ ground (arith, rest)
      | inr p ↦ ground (arith, rest, popcount_loop_zero f)
    ]

-- Whenever `indicesFromMask` lists the indices of a mask, `popcount` of the mask is their number:
-- the loop of `popcount` ends, and counts each index once.
pub popcount-indices_from_mask :
    (mask : ℤ) (count : ℕ) (indices : List ℤ)
    → indices_from_mask mask count ≡ inr indices
    → popcount mask ≡ length indices
unfolding indices_from_mask popcount
popcount-indices_from_mask (negsuc m) count indices e = absurd (ground arith)
popcount-indices_from_mask (pos m) count indices e =
    let zero_above : shift_right m count ≡ 0 = ground arith in
    let p : indices_loop m 0 count ≡ indices = ground arith in
    let whole : shift_right m 0 ≡ m = omega arith in
    ap (popcount_loop m) (sym whole)
    ∙ popcount_loop-indices_loop m 0 count m (ap (shift_right m) (omega arith) ∙ zero_above)
        (omega (arith, whole))
    ∙ ap length p
