-- ===== src/Tar/RoundTrip/Slots.antt =====
-- The map that `writeTar` collects: how it grows, and what it has at the end.
use mathlib.Core.Bool.{true≢false}
use bab_takehome.Base.{
  ◌≡◌, ◌≢◌, refl, sym, ap, subst, ◌∙◌, inl, inr, ◌&&◌, not, Option, none, some, List, [], ◌∷◌, ◌++◌,
  arith, All, Some, All-append, Bool-cases, some-injective, Text, text_eq, text_eq_iff, Dict,
  lookup, insert, lookup-insert, DistinctBy, ok, raise_if, >>=-eq-ok, ok-injective,
}
use bab_takehome.Tar.Paths.{normalize_tar_path, parents, duplicate_entry, file_and_directory}
use bab_takehome.Tar.Entries.{is_dir, TarInput}
use bab_takehome.Tar.Write.{
  Slot, dir_slot, new_slot, add_input, collect, add_parent, add_parents, add_all_parents, slot_path,
}

module _ (P : Text × Slot → Type 0) where
  -- A map grows by slots with `P` at new paths.
  pub data Grows : Dict Slot → Dict Slot → Type 0 where
    same : (d : Dict Slot) → Grows d d
    add :
        (k : Text) (v : Slot) (d r : Dict Slot)
        → lookup k d ≡ none
        → P (k, v)
        → Grows (insert k v d) r
        → Grows d r

  pub Grows_trans : (d e r : Dict Slot) → Grows d e → Grows e r → Grows d r
  Grows_trans d _ r (same _) h = h
  Grows_trans d e r (add k v _ _ n p g) h = add k v d r n p (Grows_trans (insert k v d) e r g h)

  pub lookup-All : (k : Text) (v : Slot) (d : Dict Slot) → lookup k d ≡ some v → All P d → P (k, v)
  unfolding lookup
  lookup-All k v [] h a = absurd (ground arith)
  lookup-All k v ((j, w) ∷ d) h (p, a) = elim (Bool-cases (text_eq j k)) [
    | inl e ↦
        subst (λ (x : Text). P (x, v)) ((text_eq_iff j k).0 e)
          (subst (λ (s : Slot). P (j, s)) (some-injective w v (rw e at h)) p)
    | inr e ↦ lookup-All k v d (rw e at h) a
  ]

pub lookup-Some :
    (P : Text × Slot → Type 0) (k : Text) (v : Slot) (d : Dict Slot)
    → lookup k d ≡ some v
    → P (k, v)
    → Some P d
unfolding lookup
lookup-Some P k v [] h p = absurd (ground arith)
lookup-Some P k v ((j, w) ∷ d) h p = elim (Bool-cases (text_eq j k)) [
  | inl e ↦ inl (
      subst (λ (s : Slot). P (j, s)) (sym (some-injective w v (rw e at h)))
        (subst (λ (x : Text). P (x, v)) (sym ((text_eq_iff j k).0 e)) p))
  | inr e ↦ inr (lookup-Some P k v d (rw e at h) p)
]

insert-append :
    (k : Text) (v : Slot) (d : Dict Slot)
    → lookup k d ≡ none
    → (insert k v d ≡ d ++ (k, v) ∷ []) × All (λ e. slot_path e ≢ k) d
unfolding lookup insert
insert-append k v [] h = (refl, tt)
insert-append k v ((j, w) ∷ d) h = elim (Bool-cases (text_eq j k)) [
  | inl e ↦ absurd (ground (arith, h, e))
  | inr e ↦
      let (shape, others) = insert-append k v d (rw e at h) in
      (
        rw e (ap (λ (t : Dict Slot). (j, w) ∷ t) shape),
        (λ q. absurd (true≢false (sym ((text_eq_iff j k).1 q) ∙ e)), others),
      )
]

Distinct-append :
    (k : Text) (v : Slot) (d : Dict Slot)
    → DistinctBy slot_path d
    → All (λ e. slot_path e ≢ k) d
    → DistinctBy slot_path (d ++ (k, v) ∷ [])
Distinct-append k v [] h n = (tt, tt)
Distinct-append k v (e ∷ d) (m, h) (n, ns) =
    (All-append _ d ((k, v) ∷ []) m (n, tt), Distinct-append k v d h ns)

lookup-insert-none :
    (k j : Text) (v w : Slot) (d : Dict Slot)
    → lookup k d ≡ none
    → lookup j d ≡ some w
    → lookup j (insert k v d) ≡ some w
lookup-insert-none k j v w d n h = elim (Bool-cases (text_eq k j)) [
  | inl e ↦
      absurd (
        ground
          (arith, n, subst (λ (t : Text). lookup t d ≡ some w) (sym ((text_eq_iff k j).0 e)) h))
  | inr e ↦ lookup-insert k j v d ∙ rw e h
]

module _ (P : Text × Slot → Type 0) where
  pub Grows-All : (d r : Dict Slot) → Grows P d r → All P d → All P r
  Grows-All d _ (same _) h = h
  Grows-All d r (add k v _ _ n p g) h =
      Grows-All (insert k v d) r g
        (subst (All P) (sym ((insert-append k v d n).0)) (All-append P d ((k, v) ∷ []) h (p, tt)))

  pub Grows-Distinct :
      (d r : Dict Slot) → Grows P d r → DistinctBy slot_path d → DistinctBy slot_path r
  Grows-Distinct d _ (same _) h = h
  Grows-Distinct d r (add k v _ _ n p g) h =
      let (e, others) = insert-append k v d n in
      Grows-Distinct (insert k v d) r g
        (subst (DistinctBy slot_path) (sym e) (Distinct-append k v d h others))

  pub Grows-lookup :
      (d r : Dict Slot) (j : Text) (w : Slot)
      → Grows P d r
      → lookup j d ≡ some w
      → lookup j r ≡ some w
  Grows-lookup d _ j w (same _) h = h
  Grows-lookup d r j w (add k v _ _ n p g) h =
      Grows-lookup (insert k v d) r j w g (lookup-insert-none k j v w d n h)

  -- What an input may add to the map.
  abbrev pub Adds : TarInput → Type 0
  Adds i =
      (p : Text) (slot : Slot)
      → normalize_tar_path i.path ≡ ok p
      → new_slot p i.kind i.bytes i.executable ≡ ok slot
      → P (p, slot)

  pub add_input-Grows :
      (d r : Dict Slot) (p : Text) (i : TarInput) (o : Option Slot)
      → lookup p d ≡ o
      → normalize_tar_path i.path ≡ ok p
      → Adds i
      → add_input d p i o ≡ ok r
      → Grows P d r
  add_input-Grows d r p i (some prev) l n a h =
      let (_, (_, k)) =
        >>=-eq-ok (raise_if (not (is_dir prev.kind && is_dir i.kind)) (duplicate_entry p)) _ h in
      subst (Grows P d) (ok-injective _ r k) (same d)
  add_input-Grows d r p i none l n a h =
      let (slot, (s, k)) = >>=-eq-ok (new_slot p i.kind i.bytes i.executable) _ h in
      subst (Grows P d) (ok-injective _ r k)
        (add p slot d (insert p slot d) l (a p slot n s) (same (insert p slot d)))

  pub collect-Grows :
      (d r : Dict Slot) (inputs : List TarInput)
      → All Adds inputs
      → collect d inputs ≡ ok r
      → Grows P d r
  unfolding collect
  collect-Grows d r [] a h = subst (Grows P d) (ok-injective _ r h) (same d)
  collect-Grows d r (i ∷ inputs) (a, as_) h =
      let (p, (n, k)) = >>=-eq-ok (normalize_tar_path i.path) _ h in
      let (e, (m, k)) = >>=-eq-ok (add_input d p i (lookup p d)) _ k in
      Grows_trans P d e r (add_input-Grows d e p i (lookup p d) refl n a m)
        (collect-Grows e r inputs as_ k)

  pub add_parent-Grows :
      (d r : Dict Slot) (k : Text) (o : Option Slot)
      → lookup k d ≡ o
      → P (k, dir_slot)
      → add_parent d k o ≡ ok r
      → Grows P d r
  add_parent-Grows d r k (some v) l p h =
      let (_, (_, h)) = >>=-eq-ok (raise_if (not (is_dir v.kind)) (file_and_directory k)) _ h in
      subst (Grows P d) (ok-injective _ r h) (same d)
  add_parent-Grows d r k none l p h =
      subst (Grows P d) (ok-injective _ r h)
        (add k dir_slot d (insert k dir_slot d) l p (same (insert k dir_slot d)))

  pub add_parents-Grows :
      (d r : Dict Slot) (ks : List Text)
      → All (λ k. P (k, dir_slot)) ks
      → add_parents d ks ≡ ok r
      → Grows P d r
  unfolding add_parents
  add_parents-Grows d r [] a h = subst (Grows P d) (ok-injective _ r h) (same d)
  add_parents-Grows d r (k ∷ ks) (a, as_) h =
      let (e, (m, h)) = >>=-eq-ok (add_parent d k (lookup k d)) _ h in
      Grows_trans P d e r (add_parent-Grows d e k (lookup k d) refl a m)
        (add_parents-Grows e r ks as_ h)

  pub add_all_parents-Grows :
      (d r : Dict Slot) (ps : List Text)
      → All (λ p. All (λ k. P (k, dir_slot)) (parents p)) ps
      → add_all_parents d ps ≡ ok r
      → Grows P d r
  unfolding add_all_parents
  add_all_parents-Grows d r [] a h = subst (Grows P d) (ok-injective _ r h) (same d)
  add_all_parents-Grows d r (p ∷ ps) (a, as_) h =
      let (e, (m, h)) = >>=-eq-ok (add_parents d (parents p)) _ h in
      Grows_trans P d e r (add_parents-Grows d e (parents p) a m)
        (add_all_parents-Grows e r ps as_ h)
