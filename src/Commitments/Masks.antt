-- ===== src/Commitments/Masks.antt =====
-- packages/shared/src/commitments.ts: the task mask, a set of leaf indices as the digits of a
-- number.
mod Includes
mod RoundTrip
mod Popcount
mod Examples
use bab_takehome.Base.{
  ℕ, zero, suc, ◌+◌, ◌/◌, ◌%◌, ◌^◌, Bool, true, false, ◌||◌, not, ◌⊎◌, inl, inr, List, [], ◌∷◌,
  if◌then◌else◌, ltb, leb, ◌==◌, ℤ, pos, negsuc, shift_right, test_bit,
}
use Prim.Native.Nat.{bit_or}

-- `taskMask` is a uint256.
abbrev pub max_tasks : ℕ
max_tasks = 256

pub data MaskError : Type 0 where
  bad_index : ℤ → MaskError
  negative_mask : MaskError
  bits_set_above : ℕ → MaskError

-- One pass of the loop of `maskFromIndices`: the mask so far, and the index. The indices are
-- integers.
abbrev pub in_range : ℤ → Bool
in_range (pos i) = not (leb max_tasks i)
in_range (negsuc i) = false

unfoldable pub mask_loop : ℕ → List ℤ → MaskError ⊎ ℤ
mask_loop m [] = inr (pos m)
mask_loop m (pos i ∷ indices) =
    let rest = mask_loop (bit_or m (2 ^ i)) indices in
    if in_range (pos i) then rest else inl (bad_index (pos i))
mask_loop m (negsuc i ∷ indices) = inl (bad_index (negsuc i))

unfoldable pub mask_from_indices : List ℤ → MaskError ⊎ ℤ
mask_from_indices indices = mask_loop 0 indices

-- The loop of `indicesFromMask` at the index `i`, with `n` indices to go.
unfoldable pub indices_loop : ℕ → ℕ → ℕ → List ℤ
indices_loop mask i zero = []
indices_loop mask i (suc n) =
    let rest = indices_loop mask (suc i) n in if test_bit mask i then pos i ∷ rest else rest

unfoldable pub indices_from_mask : ℤ → ℕ → MaskError ⊎ List ℤ
indices_from_mask (negsuc m) count = inl negative_mask
indices_from_mask (pos m) count =
    if not (shift_right m count == 0)
    then inl (bits_set_above count)
    else inr (indices_loop m 0 count)

-- The loop of `popcount`. It halves `m` at each pass, so `m` passes are enough.
unfoldable pub popcount_loop : ℕ → ℕ → ℕ
popcount_loop zero m = 0
popcount_loop (suc f) m =
    let rest = popcount_loop f (shift_right m 1) in
    if ltb 0 m then (if ltb 0 (m % 2) then suc rest else rest) else 0

unfoldable pub popcount : ℤ → ℕ
popcount (pos m) = popcount_loop m m
popcount (negsuc m) = 0
