-- ===== src/Tar/Paths/Segments.antt =====
-- Splitting a path at its slashes and joining it again.
use bab_takehome.Base.{
  ℕ, zero, suc, ◌+◌, ◌≤◌, ◌<◌, ◌≡◌, refl, ap, subst, ◌∙◌, inl, inr, List, [], ◌∷◌, ◌++◌, arith,
  length, length-append, take, Some, ◌==◌, Bool-cases, Text,
}
use bab_takehome.Tar.Paths.{slash, split, extend, join, prefixes, parents, less_one}

extend-append :
    (c : ℕ) (xs ys : List Text) → 1 ≤ length xs → extend c (xs ++ ys) ≡ extend c xs ++ ys
extend-append c [] ys h = absurd (omega arith)
extend-append c (x ∷ xs) ys h = refl

length-extend : (c : ℕ) (xs : List Text) → 1 ≤ length xs → length (extend c xs) ≡ length xs
length-extend c [] h = absurd (omega arith)
length-extend c (x ∷ xs) h = refl

pub length-split_pos : (p : Text) → 1 ≤ length (split p)
unfolding split
length-split_pos [] = omega arith
length-split_pos (c ∷ s) = elim (Bool-cases (c == slash)) [
  | inl e ↦ rw e (omega arith)
  | inr e ↦ rw e (omega (arith, length-extend c (split s) (length-split_pos s), length-split_pos s))
]

pub split-append : (p q : Text) → split (p ++ slash ∷ q) ≡ split p ++ split q
unfolding split
split-append [] q = refl
split-append (c ∷ s) q = elim (Bool-cases (c == slash)) [
  | inl e ↦ rw e (ap (λ (segs : List Text). [] ∷ segs) (split-append s q))
  | inr e ↦
      rw e (
        ap (extend c) (split-append s q) ∙ extend-append c (split s) (split q) (length-split_pos s))
]

join-extend : (c : ℕ) (segs : List Text) → 1 ≤ length segs → join (extend c segs) ≡ c ∷ join segs
unfolding join
join-extend c [] h = absurd (omega arith)
join-extend c (s ∷ []) h = refl
join-extend c (s ∷ t ∷ segs) h = refl

join-empty : (segs : List Text) → 1 ≤ length segs → join ([] ∷ segs) ≡ slash ∷ join segs
unfolding join
join-empty [] h = absurd (omega arith)
join-empty (s ∷ segs) h = refl

pub join-split : (p : Text) → join (split p) ≡ p
unfolding split
join-split [] = unfold join in refl
join-split (c ∷ s) = elim (Bool-cases (c == slash)) [
  | inl e ↦ rw e (join-empty (split s) (length-split_pos s) ∙ ground (arith, join-split s))
  | inr e ↦
      rw e (join-extend c (split s) (length-split_pos s) ∙ ap (λ (t : Text). c ∷ t) (join-split s))
]

take-append : (xs ys : List Text) → take (length xs) (xs ++ ys) ≡ xs
take-append [] ys = refl
take-append (x ∷ xs) ys = ap (λ (zs : List Text). x ∷ zs) (take-append xs ys)

prefixes-Some :
    (segs : List Text) (i n j : ℕ)
    → i ≤ j
    → j < i + n
    → Some (λ d. d ≡ join (take j segs)) (prefixes segs i n)
unfolding prefixes
prefixes-Some segs i zero j h k = absurd (omega arith)
prefixes-Some segs i (suc n) j h k = elim (Bool-cases (i == j)) [
  | inl e ↦ inl (ap (λ k. join (take k segs)) (ground arith))
  | inr e ↦ inr (prefixes-Some segs (suc i) n j (ground arith) (omega arith))
]

less : {m : ℕ} (n : ℕ) → m < n → m < 1 + less_one n
less zero h = absurd (omega arith)
less (suc n) h = omega arith

-- The part of a path before any of its slashes is one of its parent directories.
pub parents-Some : (d q : Text) → Some (λ e. e ≡ d) (parents (d ++ slash ∷ q))
unfolding parents
parents-Some d q =
    let here : join (take (length (split d)) (split (d ++ slash ∷ q))) ≡ d =
      ap (λ (segs : List Text). join (take (length (split d)) segs)) (split-append d q)
      ∙ ap join (take-append (split d) (split q))
      ∙ join-split d in
    let size : length (split (d ++ slash ∷ q)) ≡ length (split d) + length (split q) =
      ap length (split-append d q) ∙ length-append (split d) (split q) in
    subst (λ (e : Text). Some (λ x. x ≡ e) (parents (d ++ slash ∷ q))) here
      (prefixes-Some (split (d ++ slash ∷ q)) 1 (less_one (length (split (d ++ slash ∷ q))))
        (length (split d)) (length-split_pos d)
        (less (length (split (d ++ slash ∷ q))) (omega (arith, size, length-split_pos q))))
