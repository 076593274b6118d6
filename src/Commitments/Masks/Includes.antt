-- ===== src/Commitments/Masks/Includes.antt =====
-- The digits of a mask and the indices it is made of.
use bab_takehome.Base.{
  ℕ, ◌^◌, ◌≡◌, refl, ◌∙◌, inl, inr, Bool, true, false, ◌||◌, List, [], ◌∷◌, any, arith, Bool-cases,
  ◌==◌, ℤ, pos, negsuc, test_bit, test_bit-bit_or, test_bit-pow, All,
}
use Prim.Native.Nat.{bit_or}
use bab_takehome.Commitments.Masks.{in_range, mask_loop}

-- `z === i`
abbrev is_index : ℕ → ℤ → Bool
is_index i (pos k) = k == i
is_index i (negsuc k) = false

-- `indices.includes(i)`
abbrev pub includes_index : List ℤ → ℕ → Bool
includes_index indices i = any (is_index i) indices

pub mask_loop-test_bit :
    (m : ℕ) (indices : List ℤ) (r : ℤ)
    → mask_loop m indices ≡ inr r
    → (n : ℕ) × ((r ≡ pos n) × ((i : ℕ) → test_bit n i ≡ test_bit m i || includes_index indices i))
unfolding mask_loop
mask_loop-test_bit m [] r e = (m, (ground arith, λ i. ground arith))
mask_loop-test_bit m (negsuc k ∷ indices) r e = absurd (ground arith)
mask_loop-test_bit m (pos k ∷ indices) r e = elim (Bool-cases (in_range (pos k))) [
  | inl ok ↦
      let (n, (p, h)) = mask_loop-test_bit (bit_or m (2 ^ k)) indices r (ground arith) in
      (n, (p, λ i. h i ∙ rw (test_bit-bit_or m (2 ^ k) i, test_bit-pow k i) ground arith))
  | inr bad ↦ absurd (ground arith)
]

abbrev pub InRange : ℤ → Type 0
InRange z = in_range z ≡ true

pub mask_loop-InRange :
    (m : ℕ) (indices : List ℤ) → All InRange indices → (n : ℕ) × (mask_loop m indices ≡ inr (pos n))
unfolding mask_loop
mask_loop-InRange m [] h = (m, refl)
mask_loop-InRange m (negsuc k ∷ indices) (h, hs) = absurd (ground arith)
mask_loop-InRange m (pos k ∷ indices) (h, hs) =
    let (n, e) = mask_loop-InRange (bit_or m (2 ^ k)) indices hs in (n, rw h e)
