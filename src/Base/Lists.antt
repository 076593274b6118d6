-- ===== src/Base/Lists.antt =====
-- Lists measured by native numbers, under the library's names, and predicates on their elements.
use Prim.Native.Nat.{ℕ, zero, suc, ◌+◌, ◌-◌, min}
use mathlib.Core.Path.{◌≡◌, refl, sym, subst}
use mathlib.Core.Logic.{◌⊎◌, inl, inr}
use mathlib.Core.Bool.{Bool, true, false, ◌&&◌, ◌||◌}
use mathlib.Core.List.{List, [], ◌∷◌, ◌++◌, map}
use native.Mathlib.Omega.{arith}
use bab_takehome.Base.Tests.{if◌then◌else◌}

module _ {ℓ} {A : Type ℓ} where
  abbrev pub length : List A → ℕ
  length [] = 0
  length (x ∷ xs) = suc (length xs)

  abbrev pub take : ℕ → List A → List A
  take zero xs = []
  take (suc n) [] = []
  take (suc n) (x ∷ xs) = x ∷ take n xs

  abbrev pub drop : ℕ → List A → List A
  drop zero xs = xs
  drop (suc n) [] = []
  drop (suc n) (x ∷ xs) = drop n xs

  -- `xs.every(p)`
  abbrev pub every : (A → Bool) → List A → Bool
  every p [] = true
  every p (x ∷ xs) = p x && every p xs

  -- `xs.some(p)`
  abbrev pub any : (A → Bool) → List A → Bool
  any p [] = false
  any p (x ∷ xs) = p x || any p xs

  -- `xs.filter(p)`
  abbrev pub keep : (A → Bool) → List A → List A
  keep p [] = []
  keep p (x ∷ xs) = if p x then x ∷ keep p xs else keep p xs

  pub append-empty : (xs ys : List A) → (xs ++ ys) ≡ [] → (xs ≡ []) × (ys ≡ [])
  append-empty [] ys h = (refl, h)
  append-empty (x ∷ xs) ys h = absurd (ground arith)

  pub length-append : (xs ys : List A) → length (xs ++ ys) ≡ length xs + length ys
  length-append [] ys = omega arith
  length-append (x ∷ xs) ys = omega (arith, length-append xs ys)

  pub length-take : (n : ℕ) (xs : List A) → length (take n xs) ≡ min n (length xs)
  length-take zero xs = omega arith
  length-take (suc n) [] = omega arith
  length-take (suc n) (x ∷ xs) = omega (arith, length-take n xs)

  pub length-drop : (n : ℕ) (xs : List A) → length (drop n xs) ≡ length xs - n
  length-drop zero xs = omega arith
  length-drop (suc n) [] = omega arith
  length-drop (suc n) (x ∷ xs) = omega (arith, length-drop n xs)

module _ {ℓ κ} {A : Type ℓ} (P : A → Type κ) where
  abbrev pub All : List A → Type κ
  All [] = Unit
  All (x ∷ xs) = P x × All xs

module _ {ℓ} {A : Type ℓ} (P : A → Type 0) where
  abbrev pub Some : List A → Type 0
  Some [] = ⊥
  Some (x ∷ xs) = P x ⊎ Some xs

module _ {ℓ} {A : Type ℓ} (P : A → Type 0) where
  pub All-append : (xs ys : List A) → All P xs → All P ys → All P (xs ++ ys)
  All-append [] ys h k = k
  All-append (x ∷ xs) ys (p, h) k = (p, All-append xs ys h k)

  pub Some-append_left : (xs ys : List A) → Some P xs → Some P (xs ++ ys)
  Some-append_left (x ∷ xs) ys (inl p) = inl p
  Some-append_left (x ∷ xs) ys (inr h) = inr (Some-append_left xs ys h)
  Some-append_left [] ys h = absurd h

  pub Some-append_right : (xs ys : List A) → Some P ys → Some P (xs ++ ys)
  Some-append_right [] ys h = h
  Some-append_right (x ∷ xs) ys h = inr (Some-append_right xs ys h)

  pub Some-elim {κ} : {B : Type κ} (xs : List A) → ((x : A) → P x → B) → Some P xs → B
  Some-elim [] f h = absurd h
  Some-elim (x ∷ xs) f (inl p) = f x p
  Some-elim (x ∷ xs) f (inr h) = Some-elim xs f h

module _ {ℓ} {A : Type ℓ} where
  pub keep-append : (p : A → Bool) (xs ys : List A) → keep p (xs ++ ys) ≡ keep p xs ++ keep p ys
  keep-append p [] ys = refl
  keep-append p (x ∷ xs) ys = ground (arith, keep-append p xs ys)

module _ {A : Type 0} (P : A → Type 0) where
  pub All-Some : (x : A) (xs : List A) → All P xs → Some (λ y. y ≡ x) xs → P x
  All-Some x [] h k = absurd k
  All-Some x (y ∷ xs) (p, h) (inl e) = subst P e p
  All-Some x (y ∷ xs) (p, h) (inr k) = All-Some x xs h k

  pub All-of : (xs : List A) → ((x : A) → Some (λ y. y ≡ x) xs → P x) → All P xs
  All-of [] f = tt
  All-of (x ∷ xs) f = (f x (inl refl), All-of xs (λ y h. f y (inr h)))

  pub Some-of : (x : A) (xs : List A) → Some (λ y. y ≡ x) xs → P x → Some P xs
  Some-of x [] h p = absurd h
  Some-of x (y ∷ xs) (inl e) p = inl (subst P (sym e) p)
  Some-of x (y ∷ xs) (inr h) p = inr (Some-of x xs h p)

  pub Some-map : {Q : A → Type 0} (xs : List A) → ((x : A) → P x → Q x) → Some P xs → Some Q xs
  Some-map [] f h = absurd h
  Some-map (x ∷ xs) f (inl p) = inl (f x p)
  Some-map (x ∷ xs) f (inr h) = inr (Some-map xs f h)

  pub Some-elim_all :
      {Q : A → Type 0} {C : Type 0} (xs : List A)
      → ((x : A) → Q x → P x → C)
      → All Q xs
      → Some P xs
      → C
  Some-elim_all [] f a h = absurd h
  Some-elim_all (x ∷ xs) f (q, a) (inl p) = f x q p
  Some-elim_all (x ∷ xs) f (q, a) (inr h) = Some-elim_all xs f a h

module _ {A B : Type 0} (f : A → B) (P : B → Type 0) where
  pub All-to_map : (xs : List A) → All (λ x. P (f x)) xs → All P (map f xs)
  All-to_map [] h = tt
  All-to_map (x ∷ xs) (p, h) = (p, All-to_map xs h)

  pub All-from_map : (xs : List A) → All P (map f xs) → All (λ x. P (f x)) xs
  All-from_map [] h = tt
  All-from_map (x ∷ xs) (p, h) = (p, All-from_map xs h)

  pub Some-to_map : (xs : List A) → Some (λ x. P (f x)) xs → Some P (map f xs)
  Some-to_map [] h = absurd h
  Some-to_map (x ∷ xs) (inl p) = inl p
  Some-to_map (x ∷ xs) (inr h) = inr (Some-to_map xs h)
