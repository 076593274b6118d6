-- ===== src/Base/Bits.antt =====
-- The binary digits of a native number: `m >> i`, `m & 1`, `|` and `1 << i`.
use Prim.Native.Nat.{ℕ, zero, suc, ◌+◌, ◌/◌, ◌%◌, ◌^◌, ◌≤◌, max, bit_or, bit_or-bitwise, digits}
use mathlib.Core.Path.{◌≡◌, refl, ap, sym, ◌∙◌}
use mathlib.Core.Bool.{Bool, false, ◌||◌}
use native.Mathlib.Omega.{arith}
use native.Mathlib.Nat.{pow-succ', div-div-eq-div-mul}
use bab_takehome.Base.Tests.{ltb, ◌==◌}

-- `m >> i`
abbrev pub shift_right : ℕ → ℕ → ℕ
shift_right m i = m / 2 ^ i

-- `(m >> i) & 1` as a condition.
unfoldable pub test_bit : ℕ → ℕ → Bool
test_bit m i = ltb 0 (shift_right m i % 2)

shift_right-suc : (m i : ℕ) → shift_right m (suc i) ≡ shift_right (m / 2) i
shift_right-suc m i = ap (λ k. m / k) (pow-succ' 2 i) ∙ sym (div-div-eq-div-mul m 2 (2 ^ i))

pub shift_right_next : (m i : ℕ) → shift_right m (suc i) ≡ shift_right m i / 2
shift_right_next m zero = shift_right-suc m zero ∙ omega arith
shift_right_next m (suc i) =
    shift_right-suc m (suc i)
    ∙ shift_right_next (m / 2) i
    ∙ ap (λ k. k / 2) (sym (shift_right-suc m i))

pub test_bit_zero : (m : ℕ) → test_bit m 0 ≡ ltb 0 (m % 2)
unfolding test_bit
test_bit_zero m = ap (λ k. ltb 0 (k % 2)) (omega arith)

pub test_bit-suc : (m i : ℕ) → test_bit m (suc i) ≡ test_bit (m / 2) i
unfolding test_bit
test_bit-suc m i = ap (λ k. ltb 0 (k % 2)) (shift_right-suc m i)

pub test_bit_none : (i : ℕ) → test_bit 0 i ≡ false
test_bit_none zero = test_bit_zero 0
test_bit_none (suc i) = test_bit-suc 0 i ∙ test_bit_none i

test_bit-digits :
    (n a b i : ℕ) → a ≤ n → test_bit (digits (λ c. c) max n a b) i ≡ test_bit a i || test_bit b i
test_bit-digits zero zero b i h = rw (test_bit_none i) refl
test_bit-digits zero (suc a) b i h = absurd (omega arith)
test_bit-digits (suc n) zero b i h = rw (test_bit_none i) refl
test_bit-digits (suc n) (suc a) b zero h =
    rw (test_bit_zero _, test_bit_zero (suc a), test_bit_zero b) ground arith
test_bit-digits (suc n) (suc a) b (suc i) h =
    rw (test_bit-suc _ i, test_bit-suc (suc a) i, test_bit-suc b i)
      (ap (λ k. test_bit k i) (omega arith) ∙ test_bit-digits n (suc a / 2) (b / 2) i (omega arith))

pub test_bit-bit_or : (a b i : ℕ) → test_bit (bit_or a b) i ≡ test_bit a i || test_bit b i
test_bit-bit_or a b i = rw (bit_or-bitwise a b) (test_bit-digits a a b i (omega arith))

-- `1 << k` has the one digit `k`.
pub test_bit-pow : (k i : ℕ) → test_bit (2 ^ k) i ≡ k == i
test_bit-pow zero zero = test_bit_zero 1
test_bit-pow zero (suc i) = test_bit-suc 1 i ∙ test_bit_none i ∙ ground arith
test_bit-pow (suc k) zero = test_bit_zero _ ∙ rw (pow-succ' 2 k) ground arith
test_bit-pow (suc k) (suc i) =
    test_bit-suc _ i
    ∙ ap (λ m. test_bit m i) (rw (pow-succ' 2 k) omega arith)
    ∙ test_bit-pow k i
    ∙ ground arith

-- Numbers with the same digits are the same.
bits_ext_fuel : (n a b : ℕ) → a ≤ n → b ≤ n → ((i : ℕ) → test_bit a i ≡ test_bit b i) → a ≡ b
bits_ext_fuel zero a b h k e = omega arith
bits_ext_fuel (suc n) a b h k e =
    let low = sym (test_bit_zero a) ∙ e 0 ∙ test_bit_zero b in
    let high =
      bits_ext_fuel n (a / 2) (b / 2) (omega arith) (omega arith)
        (λ i. sym (test_bit-suc a i) ∙ e (suc i) ∙ test_bit-suc b i) in
    ground arith

pub bits_ext : (a b : ℕ) → ((i : ℕ) → test_bit a i ≡ test_bit b i) → a ≡ b
bits_ext a b e = bits_ext_fuel (a + b) a b (omega arith) (omega arith) e

pub test_bit-shift_right : (m k i : ℕ) → test_bit (shift_right m k) i ≡ test_bit m (k + i)
test_bit-shift_right m zero i = ap (λ n. test_bit n i) (omega arith) ∙ ap (test_bit m) (omega arith)
test_bit-shift_right m (suc k) i =
    ap (λ n. test_bit n i) (shift_right_next m k)
    ∙ sym (test_bit-suc (shift_right m k) i)
    ∙ test_bit-shift_right m k (suc i)
    ∙ ap (test_bit m) (omega arith)

pub shift_right-none : (m k : ℕ) → ((i : ℕ) → test_bit m (k + i) ≡ false) → shift_right m k ≡ 0
shift_right-none m k h =
    bits_ext _ 0 (λ i. test_bit-shift_right m k i ∙ h i ∙ sym (test_bit_none i))
