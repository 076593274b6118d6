-- ===== src/Tar/RoundTrip/Blocks.antt =====
-- The blocks of an archive: taking a header and its data off the bytes.
use mathlib.Core.Bool.{true≢false}
use mathlib.Core.List.{append_assoc}
use bab_takehome.Base.{
  ℕ, zero, suc, ◌+◌, ◌-◌, ◌≤◌, ◌≡◌, refl, sym, ap, ◌∙◌, inl, inr, true, false, [], ◌∷◌, ◌++◌, arith,
  length, length-append, take, drop, every, ltb, Bool-cases,
}
use bab_takehome.Tar.Entries.{Bytes, padded, EntryType, file, dir}
use bab_takehome.Tar.Write.{zeros, body}
use bab_takehome.Tar.Read.{is_zero, data_size, ustar_magic}

pub take-append_exact : (n : ℕ) (xs ys : Bytes) → length xs ≡ n → take n (xs ++ ys) ≡ xs
take-append_exact zero [] ys h = refl
take-append_exact zero (x ∷ xs) ys h = absurd (omega (arith, h))
take-append_exact (suc n) [] ys h = absurd (omega (arith, h))
take-append_exact (suc n) (x ∷ xs) ys h =
    ap (λ (t : Bytes). x ∷ t) (take-append_exact n xs ys (omega (arith, h)))

pub drop-append_exact : (n : ℕ) (xs ys : Bytes) → length xs ≡ n → drop n (xs ++ ys) ≡ ys
drop-append_exact zero [] ys h = refl
drop-append_exact zero (x ∷ xs) ys h = absurd (omega (arith, h))
drop-append_exact (suc n) [] ys h = absurd (omega (arith, h))
drop-append_exact (suc n) (x ∷ xs) ys h = drop-append_exact n xs ys (omega (arith, h))

pub length-zeros : (n : ℕ) → length (zeros n) ≡ n
length-zeros zero = refl
length-zeros (suc n) = ap suc (length-zeros n)

pub every-take-zeros : (n m : ℕ) → every is_zero (take n (zeros m)) ≡ true
every-take-zeros zero m = refl
every-take-zeros (suc n) zero = refl
every-take-zeros (suc n) (suc m) = every-take-zeros n m

every-take : (n : ℕ) (xs : Bytes) → every is_zero xs ≡ true → every is_zero (take n xs) ≡ true
every-take zero xs h = refl
every-take (suc n) [] h = refl
every-take (suc n) (x ∷ xs) h = ground (arith, every-take n xs)

every-drop : (n : ℕ) (xs : Bytes) → every is_zero xs ≡ true → every is_zero (drop n xs) ≡ true
every-drop zero xs h = h
every-drop (suc n) [] h = refl
every-drop (suc n) (x ∷ xs) h = every-drop n xs (ground arith)

-- A block with the magic of ustar is not a block of zeros.
pub magic-not_zero : (h : Bytes) → take 6 (drop 257 h) ≡ ustar_magic → every is_zero h ≡ false
magic-not_zero h m = elim (Bool-cases (every is_zero h)) [
  | inl e ↦
      absurd
        (true≢false (sym (every-take 6 (drop 257 h) (every-drop 257 h e)) ∙ ap (every is_zero) m))
  | inr e ↦ e
]

pub padded_le : (n : ℕ) → n ≤ padded n
padded_le n = omega arith

abbrev fill : Bytes → Bytes
fill bytes = zeros (padded (length bytes) - length bytes)

body-file : (b : ℕ) (bs : Bytes) → body file (b ∷ bs) ≡ (b ∷ bs) ++ fill (b ∷ bs)
body-file b bs =
    let some_bytes : ltb 0 (length (b ∷ bs)) ≡ true = ground arith in rw some_bytes refl

-- The data blocks of an entry are as long as `readTar` takes them to be, and start with the data.
pub length-body :
    (kind : EntryType) (bytes : Bytes)
    → length (body kind bytes) ≡ padded (data_size kind (length bytes))
length-body dir bytes = refl
length-body file [] = refl
length-body file (b ∷ bs) =
    ap length (body-file b bs)
    ∙ length-append (b ∷ bs) (fill (b ∷ bs))
    ∙ ap (λ n. length (b ∷ bs) + n) (length-zeros (padded (length (b ∷ bs)) - length (b ∷ bs)))
    ∙ omega (arith, padded_le (length (b ∷ bs)))

pub take-body :
    (kind : EntryType) (bytes tail : Bytes)
    → (kind ≡ dir → bytes ≡ [])
    → take (data_size kind (length bytes)) (body kind bytes ++ tail) ≡ bytes
take-body dir bytes tail h = sym (h refl)
take-body file [] tail h = refl
take-body file (b ∷ bs) tail h =
    ap (λ (t : Bytes). take (length (b ∷ bs)) (t ++ tail)) (body-file b bs)
    ∙ ap (take (length (b ∷ bs))) (append_assoc (b ∷ bs) (fill (b ∷ bs)) tail)
    ∙ take-append_exact (length (b ∷ bs)) (b ∷ bs) (fill (b ∷ bs) ++ tail) refl
