-- ===== src/Base/Texts.antt =====
-- Text as a list of code units, its comparison, and the decimal form of a number.
use Prim.Native.Nat.{ℕ, zero, suc, ◌+◌, ◌-◌, ◌*◌, ◌/◌, ◌%◌, ◌≤◌, ◌<◌}
use Prim.Native.Char.{code}
use Prim.Native.String.{String}
use mathlib.Core.Path.{◌≡◌, refl, ap, sym, ◌∙◌}
use mathlib.Core.Logic.{◌↔◌, ◌≢◌, inl, inr}
use mathlib.Core.Bool.{Bool, true, false, ◌&&◌, ◌||◌}
use mathlib.Core.List.{List, [], ◌∷◌, ◌++◌}
use native.Mathlib.Omega.{arith}
use bab_takehome.Base.Tests.{ltb, leb, ◌==◌, if◌then◌else◌, Bool-cases}
use bab_takehome.Base.Lists.{All}

abbrev pub Text : Type 0
Text = List ℕ

-- The code units of a text literal (the literals below are ASCII).
abbrev pub codes : String → Text
codes String.[] = []
codes (String.◌∷◌ c s) = code c ∷ codes s

-- `a === b` on texts.
unfoldable pub text_eq : Text → Text → Bool
text_eq [] [] = true
text_eq [] (_ ∷ _) = false
text_eq (_ ∷ _) [] = false
text_eq (x ∷ xs) (y ∷ ys) = x == y && text_eq xs ys

pub text_eq_iff : (s t : Text) → (text_eq s t ≡ true) ↔ (s ≡ t)
unfolding text_eq
text_eq_iff [] [] = ground arith
text_eq_iff [] (_ ∷ _) = ground arith
text_eq_iff (_ ∷ _) [] = ground arith
text_eq_iff (x ∷ xs) (y ∷ ys) = ground (arith, text_eq_iff xs ys)

pub text_eq_refl : (s : Text) → text_eq s s ≡ true
text_eq_refl s = (text_eq_iff s s).1 refl

-- `s.toLowerCase()` on ASCII text.
abbrev lower_unit : ℕ → ℕ
lower_unit c = if leb b'A' c && leb c b'Z' then c + 32 else c

unfoldable pub to_lower : Text → Text
to_lower [] = []
to_lower (c ∷ s) = lower_unit c ∷ to_lower s

-- `s.startsWith(p)` and `s.includes(p)`.
unfoldable pub starts_with : Text → Text → Bool
starts_with [] s = true
starts_with (_ ∷ _) [] = false
starts_with (c ∷ p) (d ∷ s) = c == d && starts_with p s

unfoldable pub includes : Text → Text → Bool
unfolding starts_with
includes p [] = starts_with p []
includes p (c ∷ s) = starts_with p (c ∷ s) || includes p s

-- `String(n)`: the decimal digits, highest first. Each round divides by ten, so `n` rounds do.
unfoldable pub show_fuel : ℕ → ℕ → Text → Text
show_fuel zero n out = out
show_fuel (suc f) n out =
    let rest = show_fuel f (n / 10) ((b'0' + n % 10) ∷ out) in
    if ltb n 10 then (b'0' + n) ∷ out else rest

unfoldable pub show : ℕ → Text
unfolding show_fuel
show n = show_fuel (suc n) n []

show_tests : (show 0 ≡ codes "0") × (show 1207 ≡ codes "1207")
unfolding show
show_tests = (refl, refl)

-- Reading the digits back, with what was read so far.
read : ℕ → Text → ℕ
read n [] = n
read n (c ∷ s) = read (n * 10 + (c - b'0')) s

read-show_fuel : (f n : ℕ) (out : Text) → n < f → read 0 (show_fuel f n out) ≡ read n out
unfolding show_fuel read
read-show_fuel zero n out h = absurd (omega arith)
read-show_fuel (suc f) n out h = elim (Bool-cases (ltb n 10)) [
  | inl small ↦ rw small (ap (λ k. read k out) (omega arith))
  | inr large ↦
      rw large (read-show_fuel f (n / 10) _ (ground arith) ∙ ap (λ k. read k out) (omega arith))
]

-- Different numbers have different decimal forms.
pub show-injective : (m n : ℕ) → show m ≡ show n → m ≡ n
unfolding show read
show-injective m n e =
    sym (read-show_fuel (suc m) m [] (omega arith))
    ∙ ap (read 0) e
    ∙ read-show_fuel (suc n) n [] (omega arith)

abbrev pub IsDigit : ℕ → Type 0
IsDigit c = (b'0' ≤ c) × (c ≤ b'9')

show_fuel-IsDigit : (f n : ℕ) (out : Text) → All IsDigit out → All IsDigit (show_fuel f n out)
unfolding show_fuel
show_fuel-IsDigit zero n out h = h
show_fuel-IsDigit (suc f) n out h = elim (Bool-cases (ltb n 10)) [
  | inl small ↦ rw small ((ground arith, ground arith), h)
  | inr large ↦ rw large (show_fuel-IsDigit f (n / 10) _ ((omega arith, omega arith), h))
]

pub show-IsDigit : (n : ℕ) → All IsDigit (show n)
unfolding show
show-IsDigit n = show_fuel-IsDigit (suc n) n [] tt

-- Texts of digits that a separator follows are split at the first separator in one way only.
pub split_unique :
    (sep : ℕ) (xs ys us vs : Text)
    → All (λ c. c ≢ sep) xs
    → All (λ c. c ≢ sep) ys
    → (xs ++ sep ∷ us) ≡ (ys ++ sep ∷ vs)
    → (xs ≡ ys) × (us ≡ vs)
split_unique sep [] [] us vs h k e = (refl, cc)
split_unique sep [] (y ∷ ys) us vs h (k, _) e = absurd (k (cc))
split_unique sep (x ∷ xs) [] us vs (h, _) k e = absurd (h (cc))
split_unique sep (x ∷ xs) (y ∷ ys) us vs (_, h) (_, k) e =
    let (p, q) = split_unique sep xs ys us vs h k (cc) in (cc, q)

pub IsDigit-ne : (sep : ℕ) (xs : Text) → b'9' < sep → All IsDigit xs → All (λ c. c ≢ sep) xs
IsDigit-ne sep [] lt h = tt
IsDigit-ne sep (x ∷ xs) lt (d, h) = (omega arith, IsDigit-ne sep xs lt h)
