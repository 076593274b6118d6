-- ===== src/Commitments/Masks/RoundTrip.antt =====
-- `maskFromIndices` and `indicesFromMask`, one after the other.
use bab_takehome.Base.{
  ℕ, zero, suc, ◌+◌, ◌-◌, ◌≤◌, ◌<◌, ◌≡◌, refl, sym, ap, ◌∙◌, inl, inr, true, false, List, [], ◌∷◌,
  arith, Bool-cases, if◌then◌else◌, ◌==◌, ltb, leb, ℤ, pos, negsuc, shift_right, test_bit,
  test_bit_none, test_bit-shift_right, shift_right-none, bits_ext, All,
}
use bab_takehome.Commitments.Masks.{max_tasks, mask_from_indices, indices_loop, indices_from_mask}
use bab_takehome.Commitments.Masks.Includes.{
  includes_index, InRange, mask_loop-test_bit, mask_loop-InRange,
}

-- `maskFromIndices` succeeds on indices from 0 to 255, repeated ones included, and bit `i` of its
-- result is set exactly when `i` is one of the indices.
pub mask_from_indices-test_bit :
    (indices : List ℤ)
    → All InRange indices
    → (m : ℕ) × ((mask_from_indices indices ≡ inr (pos m))
        × ((i : ℕ) → test_bit m i ≡ includes_index indices i))
unfolding mask_from_indices
mask_from_indices-test_bit indices h =
    let (m, e) = mask_loop-InRange 0 indices h in
    let (n, (p, k)) = mask_loop-test_bit 0 indices (pos m) e in
    let same : m ≡ n = ground arith in
    (m, (e, λ i. ap (λ (z : ℕ). test_bit z i) same ∙ k i ∙ rw (test_bit_none i) refl))

-- What the loop of `indicesFromMask` lists, from the index `k` on.
indices_loop-includes :
    (m k n i : ℕ)
    → includes_index (indices_loop m k n) i
      ≡ (if leb k i then (if ltb i (k + n) then test_bit m i else false) else false)
unfolding indices_loop
indices_loop-includes m k zero i = ground arith
indices_loop-includes m k (suc n) i = elim (Bool-cases (test_bit m k)) [
  | inl e ↦ rw e (ground (arith, indices_loop-includes m (suc k) n i, e))
  | inr e ↦ rw e (ground (arith, indices_loop-includes m (suc k) n i, e))
]

indices_loop-InRange : (m k n : ℕ) → k + n ≤ max_tasks → All InRange (indices_loop m k n)
unfolding indices_loop
indices_loop-InRange m k zero h = tt
indices_loop-InRange m k (suc n) h = elim (Bool-cases (test_bit m k)) [
  | inl e ↦ rw e (ground arith, indices_loop-InRange m (suc k) n (omega arith))
  | inr e ↦ rw e (indices_loop-InRange m (suc k) n (omega arith))
]

-- An ascending list of indices, from `k` on and below `n`.
abbrev pub Ascending : ℕ → ℕ → List ℤ → Type 0
Ascending k n [] = Unit
Ascending k n (pos i ∷ indices) = (k ≤ i) × ((i < n) × Ascending (suc i) n indices)
Ascending k n (negsuc i ∷ indices) = ⊥

above_none : (m count : ℕ) → shift_right m count ≡ 0 → (i : ℕ) → count ≤ i → test_bit m i ≡ false
above_none m count e i h =
    ap (test_bit m) (omega arith)
    ∙ sym (test_bit-shift_right m count (i - count))
    ∙ ap (λ n. test_bit n (i - count)) e
    ∙ test_bit_none (i - count)

-- Whenever `indicesFromMask` lists the indices of a mask for at most 256 tasks,
-- `maskFromIndices` of the list is the mask.
pub mask_from_indices-indices_from_mask :
    (mask : ℤ) (count : ℕ) (indices : List ℤ)
    → count ≤ max_tasks
    → indices_from_mask mask count ≡ inr indices
    → mask_from_indices indices ≡ inr mask
unfolding indices_from_mask
mask_from_indices-indices_from_mask (negsuc m) count indices h e = absurd (ground arith)
mask_from_indices-indices_from_mask (pos m) count indices h e =
    let zero_above : shift_right m count ≡ 0 = ground arith in
    let p : indices_loop m 0 count ≡ indices = ground arith in
    let (n, (q, k)) =
      mask_from_indices-test_bit (indices_loop m 0 count)
        (indices_loop-InRange m 0 count (omega arith)) in
    let same = bits_ext n m (λ i.
      k i ∙ indices_loop-includes m 0 count i ∙ ground (arith, above_none m count zero_above i)) in
    ap mask_from_indices (sym p) ∙ q ∙ ap (λ (z : ℕ). inr (pos z)) same

Ascending-InRange :
    (k n : ℕ) (indices : List ℤ) → n ≤ max_tasks → Ascending k n indices → All InRange indices
Ascending-InRange k n [] h a = tt
Ascending-InRange k n (pos i ∷ indices) h (_, (lt, a)) =
    (ground arith, Ascending-InRange (suc i) n indices h a)
Ascending-InRange k n (negsuc i ∷ indices) h a = absurd a

-- An ascending list from `k` on includes no smaller index, and none from the bound on.
Ascending-bounds :
    (k n : ℕ) (indices : List ℤ) (i : ℕ)
    → Ascending k n indices
    → includes_index indices i ≡ true
    → (k ≤ i) × (i < n)
Ascending-bounds k n [] i a e = absurd (ground arith)
Ascending-bounds k n (pos j ∷ indices) i (h, (lt, a)) e =
    ground (arith, Ascending-bounds (suc j) n indices i a)
Ascending-bounds k n (negsuc j ∷ indices) i a e = absurd a

Ascending-cast :
    (k l n m : ℕ) (indices : List ℤ) → k ≡ l → n ≡ m → Ascending k n indices → Ascending l m indices
Ascending-cast k l n m indices p q a = rw (sym p, sym q) a

-- The loop rebuilds an ascending list whose indices the mask's digits are.
indices_loop-Ascending :
    (m k n : ℕ) (indices : List ℤ)
    → Ascending k (k + n) indices
    → ((i : ℕ) → k ≤ i → test_bit m i ≡ includes_index indices i)
    → indices_loop m k n ≡ indices
unfolding indices_loop
indices_loop-Ascending m k zero [] a h = refl
indices_loop-Ascending m k zero (pos i ∷ indices) (le, (lt, a)) h = absurd (omega arith)
indices_loop-Ascending m k zero (negsuc i ∷ indices) a h = absurd a
indices_loop-Ascending m k (suc n) [] a h =
    rw (h k (omega arith)) (indices_loop-Ascending m (suc k) n [] tt (λ i le. h i (omega arith)))
indices_loop-Ascending m k (suc n) (negsuc i ∷ indices) a h = absurd a
indices_loop-Ascending m k (suc n) (pos j ∷ indices) (le, (lt, a)) h = elim (Bool-cases (j == k)) [
  | inl e ↦
      let rest =
        indices_loop-Ascending m (suc k) n indices
          (Ascending-cast (suc j) (suc k) (k + suc n) (suc k + n) indices (ground arith)
            (omega arith) a)
          (λ i lt. h i (omega arith) ∙ ground arith) in
      ground (arith, h k (omega arith), rest)
  | inr e ↦
      let rest =
        indices_loop-Ascending m (suc k) n (pos j ∷ indices)
          (
            ground arith,
            (
              omega arith,
              Ascending-cast (suc j) (suc j) (k + suc n) (suc k + n) indices refl (omega arith) a,
            ),
          )
          (λ i lt. h i (omega arith)) in
      let out : includes_index (pos j ∷ indices) k ≡ false =
        elim (Bool-cases (includes_index indices k)) [
          | inl f ↦ absurd (ground (arith, Ascending-bounds (suc j) (k + suc n) indices k a f))
          | inr f ↦ ground arith
        ] in
      rw (h k (omega arith) ∙ out) rest
]

-- For ascending indices below the task count, which is at most 256, `maskFromIndices` succeeds and
-- `indicesFromMask` of its result, at that count, lists exactly the indices again.
indices_from_mask-mask_from_indices :
    (indices : List ℤ) (count : ℕ)
    → count ≤ max_tasks
    → Ascending 0 count indices
    → (mask : ℤ) × ((mask_from_indices indices ≡ inr mask)
        × (indices_from_mask mask count ≡ inr indices))
unfolding indices_from_mask
indices_from_mask-mask_from_indices indices count h a =
    let (m, (e, bits)) =
      mask_from_indices-test_bit indices (Ascending-InRange 0 count indices h a) in
    let zero_above : shift_right m count ≡ 0 = shift_right-none m count (λ i.
      bits (count + i) ∙ elim (Bool-cases (includes_index indices (count + i))) [
        | inl f ↦ absurd (ground (arith, Ascending-bounds 0 count indices (count + i) a f))
        | inr f ↦ f
      ]) in
    let listed =
      indices_loop-Ascending m 0 count indices
        (Ascending-cast 0 0 count (0 + count) indices refl (omega arith) a) (λ i le. bits i) in
    (pos m, (e, rw zero_above (ap inr listed)))
