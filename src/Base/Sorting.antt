-- ===== src/Base/Sorting.antt =====
-- The order of texts by code units, and `sort` by a text key.
use mathlib.Core.Path.{◌≡◌, refl}
use mathlib.Core.Logic.{◌≢◌, inl, inr}
use mathlib.Core.Bool.{Bool, true, false, ◌&&◌, ◌||◌}
use mathlib.Core.List.{List, [], ◌∷◌, Permᴰ}
use mathlib.Core.List.Permᴰ
use native.Mathlib.Omega.{arith}
use bab_takehome.Base.Tests.{ltb, ◌==◌, if◌then◌else◌, Bool-cases}
use bab_takehome.Base.Lists.{All}
use bab_takehome.Base.Texts.{Text}

-- `a < b` on texts.
unfoldable pub text_lt : Text → Text → Bool
text_lt s [] = false
text_lt [] (_ ∷ _) = true
text_lt (x ∷ s) (y ∷ t) = ltb x y || x == y && text_lt s t

pub text_lt_irrefl : (s : Text) → text_lt s s ≡ false
unfolding text_lt
text_lt_irrefl [] = refl
text_lt_irrefl (x ∷ s) = ground (arith, text_lt_irrefl s)

pub text_lt_trans : (s t u : Text) → text_lt s t ≡ true → text_lt t u ≡ true → text_lt s u ≡ true
unfolding text_lt
text_lt_trans s [] u h k = absurd (ground arith)
text_lt_trans s (y ∷ t) [] h k = absurd (ground arith)
text_lt_trans [] (y ∷ t) (z ∷ u) h k = refl
text_lt_trans (x ∷ s) (y ∷ t) (z ∷ u) h k = ground (arith, text_lt_trans s t u)

-- Of two different texts one is the smaller.
pub text_lt_total : (s t : Text) → text_lt s t ≡ false → text_lt t s ≡ false → s ≡ t
unfolding text_lt
text_lt_total [] [] h k = refl
text_lt_total [] (y ∷ t) h k = absurd (ground arith)
text_lt_total (x ∷ s) [] h k = absurd (ground arith)
text_lt_total (x ∷ s) (y ∷ t) h k = ground (arith, text_lt_total s t)

pub text_lt_asym : (s t : Text) → text_lt s t ≡ true → text_lt t s ≡ false
text_lt_asym s t h = elim (Bool-cases (text_lt t s)) [
  | inl k ↦ absurd (ground (arith, text_lt_trans s t s h k, text_lt_irrefl s))
  | inr k ↦ k
]

module _ {ℓ} {A : Type ℓ} (key : A → Text) where
  -- The sort of the language is stable: an element goes before those with the same key that follow
  -- it.
  unfoldable pub insert_by : A → List A → List A
  insert_by x [] = x ∷ []
  insert_by x (y ∷ ys) = if text_lt (key y) (key x) then y ∷ insert_by x ys else x ∷ y ∷ ys

  unfoldable pub sort_by : List A → List A
  sort_by [] = []
  sort_by (x ∷ xs) = insert_by x (sort_by xs)

  insert_by-perm : (x : A) (xs : List A) → Permᴰ (insert_by x xs) (x ∷ xs)
  unfolding insert_by
  insert_by-perm x [] = Permᴰ.refl _
  insert_by-perm x (y ∷ ys) = elim (Bool-cases (text_lt (key y) (key x))) [
    | inl e ↦ rw e (Permᴰ.trans (Permᴰ.cons refl (insert_by-perm x ys)) (Permᴰ.swap refl refl))
    | inr e ↦ rw e (Permᴰ.refl _)
  ]

  pub sort_by-perm : (xs : List A) → Permᴰ (sort_by xs) xs
  unfolding sort_by
  sort_by-perm [] = Permᴰ.refl _
  sort_by-perm (x ∷ xs) =
      Permᴰ.trans (insert_by-perm x (sort_by xs)) (Permᴰ.cons refl (sort_by-perm xs))

  -- Elements with different keys can be inserted in either order.
  pub insert_by_comm :
      (x y : A) (xs : List A)
      → key x ≢ key y
      → insert_by x (insert_by y xs) ≡ insert_by y (insert_by x xs)
  unfolding insert_by
  insert_by_comm x y [] h = elim (Bool-cases (text_lt (key x) (key y))) [
    | inl e ↦ rw (e, text_lt_asym (key x) (key y) e) refl
    | inr e ↦ elim (Bool-cases (text_lt (key y) (key x))) [
      | inl f ↦ rw (e, f) refl
      | inr f ↦ absurd (h (text_lt_total (key x) (key y) e f))
    ]
  ]
  insert_by_comm x y (z ∷ zs) h = ground (
    arith,
    insert_by_comm x y zs h,
    text_lt_asym (key x) (key y),
    text_lt_asym (key y) (key x),
    h,
    text_lt_total (key x) (key y),
    text_lt_trans (key z) (key x) (key y),
    text_lt_trans (key z) (key y) (key x),
    text_lt_trans (key x) (key y) (key z),
    text_lt_trans (key y) (key x) (key z),
  )

  -- No two elements have the same key.
  abbrev pub DistinctBy : List A → Type 0
  DistinctBy [] = Unit
  DistinctBy (x ∷ xs) = All (λ y. key x ≢ key y) xs × DistinctBy xs

  -- The keys strictly ascend.
  abbrev pub AscendingBy : List A → Type 0
  AscendingBy [] = Unit
  AscendingBy (x ∷ xs) = All (λ y. text_lt (key x) (key y) ≡ true) xs × AscendingBy xs
