-- ===== src/Base/Sorted.antt =====
-- Sorting elements that all have different keys.
use mathlib.Core.Path.{◌≡◌, refl, ap, sym, ◌∙◌, subst}
use mathlib.Core.Logic.{◌≢◌, inl, inr}
use mathlib.Core.Bool.{true}
use mathlib.Core.List.{List, [], ◌∷◌, Permᴰ}
use mathlib.Core.List.Permᴰ
use bab_takehome.Base.Tests.{Bool-cases}
use bab_takehome.Base.Lists.{All, Some}
use bab_takehome.Base.Texts.{Text}
use bab_takehome.Base.Sorting.{
  text_lt, text_lt_trans, text_lt_total, insert_by, sort_by, sort_by-perm, insert_by_comm,
  DistinctBy, AscendingBy,
}

module _ {ℓ κ} {A : Type ℓ} (P : A → Type κ) where
  pub All-perm : {xs ys : List A} → Permᴰ xs ys → All P xs → All P ys
  All-perm Permᴰ.nil h = tt
  All-perm (Permᴰ.cons e p) (h, k) = (subst P e h, All-perm p k)
  All-perm (Permᴰ.swap e f) (h, (k, r)) = (subst P f k, (subst P e h, r))
  All-perm (Permᴰ.trans p q) h = All-perm q (All-perm p h)

  pub All-map : {Q : A → Type κ} (xs : List A) → ((x : A) → P x → Q x) → All P xs → All Q xs
  All-map [] f h = tt
  All-map (x ∷ xs) f (h, k) = (f x h, All-map xs f k)

module _ {A : Type 0} (P : A → Type 0) where
  pub Some-perm : {xs ys : List A} → Permᴰ xs ys → Some P xs → Some P ys
  Some-perm Permᴰ.nil h = absurd h
  Some-perm (Permᴰ.cons e p) (inl h) = inl (subst P e h)
  Some-perm (Permᴰ.cons e p) (inr h) = inr (Some-perm p h)
  Some-perm (Permᴰ.swap e f) (inl h) = inr (inl (subst P e h))
  Some-perm (Permᴰ.swap e f) (inr (inl h)) = inl (subst P f h)
  Some-perm (Permᴰ.swap e f) (inr (inr h)) = inr (inr h)
  Some-perm (Permᴰ.trans p q) h = Some-perm q (Some-perm p h)

module _ {ℓ} {A : Type ℓ} (key : A → Text) where
  pub DistinctBy-perm : {xs ys : List A} → Permᴰ xs ys → DistinctBy key xs → DistinctBy key ys
  DistinctBy-perm Permᴰ.nil h = tt
  DistinctBy-perm (Permᴰ.cons {b = b} {l₁ = xs} e p) (h, k) = (
    All-perm (λ y. key b ≢ key y) p (subst (λ (c : A). All (λ y. key c ≢ key y) xs) e h),
    DistinctBy-perm p k,
  )
  DistinctBy-perm (Permᴰ.swap {l = l} e f) ((n, h), (k, r)) = (
    (λ q. n (ap key e ∙ sym q ∙ ap key (sym f)), subst (λ (c : A). All (λ y. key c ≢ key y) l) f k),
    (subst (λ (c : A). All (λ y. key c ≢ key y) l) e h, r),
  )
  DistinctBy-perm (Permᴰ.trans p q) h = DistinctBy-perm q (DistinctBy-perm p h)

  pub sort_by-canonical :
      {xs ys : List A} → Permᴰ xs ys → DistinctBy key xs → sort_by key xs ≡ sort_by key ys
  unfolding sort_by
  sort_by-canonical Permᴰ.nil h = refl
  sort_by-canonical (Permᴰ.cons {a = a} {b = b} {l₁ = xs} e p) (h, k) =
      ap (λ c. insert_by key c (sort_by key xs)) e ∙ ap (insert_by key b) (sort_by-canonical p k)
  sort_by-canonical (Permᴰ.swap {a = a} {b = b} {a' = c} {l = xs} e f) ((n, h), _) =
      insert_by_comm key a b (sort_by key xs) n
      ∙ ap (λ x. insert_by key x (insert_by key a (sort_by key xs))) f
      ∙ ap (λ x. insert_by key c (insert_by key x (sort_by key xs))) e
  sort_by-canonical (Permᴰ.trans p q) h =
      sort_by-canonical p h ∙ sort_by-canonical q (DistinctBy-perm p h)

  above :
      (x y : A) (xs : List A)
      → text_lt (key x) (key y) ≡ true
      → All (λ z. text_lt (key y) (key z) ≡ true) xs
      → All (λ z. text_lt (key x) (key z) ≡ true) xs
  above x y xs h k = All-map _ xs (λ z. text_lt_trans (key x) (key y) (key z) h) k

  insert_by-All :
      (P : A → Type 0) (x : A) (xs : List A) → P x → All P xs → All P (insert_by key x xs)
  unfolding insert_by
  insert_by-All P x [] p h = (p, tt)
  insert_by-All P x (y ∷ ys) p (q, h) = elim (Bool-cases (text_lt (key y) (key x))) [
    | inl e ↦ rw e (q, insert_by-All P x ys p h)
    | inr e ↦ rw e (p, (q, h))
  ]

  insert_by-Ascending :
      (x : A) (xs : List A)
      → All (λ y. key x ≢ key y) xs
      → AscendingBy key xs
      → AscendingBy key (insert_by key x xs)
  unfolding insert_by
  insert_by-Ascending x [] n a = (tt, tt)
  insert_by-Ascending x (y ∷ ys) (m, n) (h, a) = elim (Bool-cases (text_lt (key y) (key x))) [
    | inl e ↦ rw e (insert_by-All _ x ys e h, insert_by-Ascending x ys n a)
    | inr e ↦ elim (Bool-cases (text_lt (key x) (key y))) [
      | inl f ↦ rw e ((f, above x y ys f h), (h, a))
      | inr f ↦ absurd (m (text_lt_total (key x) (key y) f e))
    ]
  ]

  pub sort_by-Ascending : (xs : List A) → DistinctBy key xs → AscendingBy key (sort_by key xs)
  unfolding sort_by
  sort_by-Ascending [] h = tt
  sort_by-Ascending (x ∷ xs) (n, h) =
      insert_by-Ascending x (sort_by key xs) (All-perm _ (Permᴰ.symm (sort_by-perm key xs)) n)
        (sort_by-Ascending xs h)
