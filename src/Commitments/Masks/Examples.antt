-- ===== src/Commitments/Masks/Examples.antt =====
-- The mask operations at concrete inputs.
use bab_takehome.Base.{◌≡◌, refl, inl, inr, List, [], ◌∷◌, arith, ℤ, pos, test_bit}
use bab_takehome.Commitments.Masks.{
  bad_index, bits_set_above, mask_from_indices, mask_loop, indices_from_mask, indices_loop,
  popcount, popcount_loop,
}
use bab_takehome.Commitments.Masks.RoundTrip.{mask_from_indices-indices_from_mask}

abbrev some_indices : List ℤ
some_indices = pos 0 ∷ pos 3 ∷ pos 5 ∷ []

masks_tests :
    (mask_from_indices some_indices ≡ inr (pos 41))
    × (indices_from_mask (pos 41) 6 ≡ inr some_indices)
    × (indices_from_mask (pos 41) 5 ≡ inl (bits_set_above 5))
    × (mask_from_indices (pos 1 ∷ pos 256 ∷ []) ≡ inl (bad_index (pos 256)))
    × (popcount (pos 41) ≡ 3)
unfolding mask_from_indices indices_from_mask popcount mask_loop indices_loop popcount_loop test_bit
masks_tests = (refl, refl, refl, refl, refl)

mask_from_indices-indices_from_mask_example : mask_from_indices some_indices ≡ inr (pos 41)
mask_from_indices-indices_from_mask_example =
    mask_from_indices-indices_from_mask (pos 41) 6 some_indices (omega arith) (masks_tests.1)
