-- ===== src/Watcher/Keys.antt =====
-- The map of jobs by their keys.
use bab_takehome.Base.{
  ◌≡◌, ◌≢◌, refl, sym, ◌∙◌, ◌⊎◌, inl, inr, false, none, [], ◌∷◌, arith, All, Bool-cases, Text,
  text_eq, text_eq_iff, Dict, lookup, insert, DistinctBy,
}
use bab_takehome.Watcher.{Job, delete}

abbrev pub Without : Text → Dict Job → Type 0
Without k d = All (λ e. e.0 ≢ k) d

-- At most one entry has the key.
abbrev pub Once : Text → Dict Job → Type 0
Once k [] = Unit
Once k ((j, v) ∷ d) = ((j ≡ k) × Without k d) ⊎ ((j ≢ k) × Once k d)

-- The representation of a map of jobs by their keys: each key is that of its job, and no key stands
-- twice.
abbrev pub IsKeyed : Dict Job → Type 0
IsKeyed d = All (λ e. e.0 ≡ (e.1).key) d × DistinctBy (λ e. e.0) d

pub text_eq-ne : (s t : Text) → text_eq s t ≡ false → s ≢ t
text_eq-ne s t h e = absurd (ground (arith, (text_eq_iff s t).1 e))

pub ne-text_eq : (s t : Text) → s ≢ t → text_eq s t ≡ false
ne-text_eq s t n = elim (Bool-cases (text_eq s t)) [
  | inl e ↦ absurd (n ((text_eq_iff s t).0 e))
  | inr e ↦ e
]

Without-lookup : (k : Text) (d : Dict Job) → Without k d → lookup k d ≡ none
unfolding lookup
Without-lookup k [] h = refl
Without-lookup k ((j, v) ∷ d) (n, h) = let e = ne-text_eq j k n in rw e (Without-lookup k d h)

Without-delete : (k i : Text) (d : Dict Job) → Without k d → Without k (delete i d)
unfolding delete
Without-delete k i [] h = tt
Without-delete k i ((j, v) ∷ d) (n, h) = elim (Bool-cases (text_eq j i)) [
  | inl e ↦ rw e h
  | inr e ↦ rw e (n, Without-delete k i d h)
]

Without-insert :
    (k i : Text) (w : Job) (d : Dict Job) → i ≢ k → Without k d → Without k (insert i w d)
unfolding insert
Without-insert k i w [] m h = (m, tt)
Without-insert k i w ((j, v) ∷ d) m (n, h) = elim (Bool-cases (text_eq j i)) [
  | inl e ↦ rw e (n, h)
  | inr e ↦ rw e (n, Without-insert k i w d m h)
]

pub Once-delete : (k i : Text) (d : Dict Job) → i ≢ k → Once k d → Once k (delete i d)
unfolding delete
Once-delete k i [] m h = tt
Once-delete k i ((j, v) ∷ d) m (inl (e, h)) =
    let other = ne-text_eq j i (λ q. m (sym q ∙ e)) in rw other (inl (e, Without-delete k i d h))
Once-delete k i ((j, v) ∷ d) m (inr (n, h)) = elim (Bool-cases (text_eq j i)) [
  | inl e ↦ rw e h
  | inr e ↦ rw e (inr (n, Once-delete k i d m h))
]

pub Once-insert : (k i : Text) (w : Job) (d : Dict Job) → i ≢ k → Once k d → Once k (insert i w d)
unfolding insert
Once-insert k i w [] m h = inr (m, tt)
Once-insert k i w ((j, v) ∷ d) m (inl (e, h)) =
    let other = ne-text_eq j i (λ q. m (sym q ∙ e)) in
    rw other (inl (e, Without-insert k i w d m h))
Once-insert k i w ((j, v) ∷ d) m (inr (n, h)) = elim (Bool-cases (text_eq j i)) [
  | inl e ↦ rw e (inr (n, h))
  | inr e ↦ rw e (inr (n, Once-insert k i w d m h))
]

pub lookup-delete_ne : (k i : Text) (d : Dict Job) → i ≢ k → lookup k (delete i d) ≡ lookup k d
unfolding delete lookup
lookup-delete_ne k i [] m = refl
lookup-delete_ne k i ((j, v) ∷ d) m = elim (Bool-cases (text_eq j i)) [
  | inl e ↦
      let other = ne-text_eq j k (λ q. m (sym ((text_eq_iff j i).0 e) ∙ q)) in rw (e, other) refl
  | inr e ↦ elim (Bool-cases (text_eq j k)) [
    | inl f ↦ rw (e, f) refl
    | inr f ↦ rw (e, f) (lookup-delete_ne k i d m)
  ]
]

pub lookup-delete_self : (k : Text) (d : Dict Job) → Once k d → lookup k (delete k d) ≡ none
unfolding delete lookup
lookup-delete_self k [] h = refl
lookup-delete_self k ((j, v) ∷ d) (inl (e, h)) =
    let same = (text_eq_iff j k).1 e in rw same (Without-lookup k d h)
lookup-delete_self k ((j, v) ∷ d) (inr (n, h)) =
    let other = ne-text_eq j k n in rw (other, other) (lookup-delete_self k d h)

pub Without-Once : (k : Text) (d : Dict Job) → Without k d → Once k d
Without-Once k [] h = tt
Without-Once k ((j, v) ∷ d) (n, h) = inr (n, Without-Once k d h)

pub Once-delete_self : (k : Text) (d : Dict Job) → Once k d → Without k (delete k d)
unfolding delete
Once-delete_self k [] h = tt
Once-delete_self k ((j, v) ∷ d) (inl (e, h)) = let same = (text_eq_iff j k).1 e in rw same h
Once-delete_self k ((j, v) ∷ d) (inr (n, h)) =
    let other = ne-text_eq j k n in rw other (n, Once-delete_self k d h)

pub Once-insert_self : (k : Text) (w : Job) (d : Dict Job) → Once k d → Once k (insert k w d)
unfolding insert
Once-insert_self k w [] h = inl (refl, tt)
Once-insert_self k w ((j, v) ∷ d) (inl (e, h)) =
    let same = (text_eq_iff j k).1 e in rw same (inl (e, h))
Once-insert_self k w ((j, v) ∷ d) (inr (n, h)) =
    let other = ne-text_eq j k n in rw other (inr (n, Once-insert_self k w d h))
