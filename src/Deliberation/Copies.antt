-- ===== src/Deliberation/Copies.antt =====
-- The private corpus of a packet.
use bab_takehome.Base.{
  ◌≤◌, ◌≡◌, ap, ◌⊎◌, inl, inr, true, false, ◌||◌, arith, length, leb, Some, Some-append_left,
  Some-append_right, Text, Json, null, bool, num, str, arr, obj, Items, nil, cons, Fields, end,
  field,
}
use bab_takehome.Deliberation.Screen.{is_public_key, walk, walk_items, walk_fields, private_corpus}

-- The string leaves of a value that are under no public key.
abbrev mutual
  pub IsPrivate : Json → Text → Type 0
  IsPrivate (str s) t = s ≡ t
  IsPrivate (arr xs) t = IsPrivateItem xs t
  IsPrivate (obj fs) t = IsPrivateField fs t
  IsPrivate null t = ⊥
  IsPrivate (bool b) t = ⊥
  IsPrivate (num x) t = ⊥

  pub IsPrivateItem : Items → Text → Type 0
  IsPrivateItem nil t = ⊥
  IsPrivateItem (cons x xs) t = IsPrivate x t ⊎ IsPrivateItem xs t

  pub IsPrivateField : Fields → Text → Type 0
  IsPrivateField end t = ⊥
  IsPrivateField (field k v fs) t =
      ((is_public_key k ≡ false) × IsPrivate v t) ⊎ IsPrivateField fs t

mutual
  unfolding walk

  walk-Some :
      (v : Json) (t : Text) → 40 ≤ length t → IsPrivate v t → Some (λ s. s ≡ t) (walk false v)
  walk-Some (str s) t long e =
      let large : leb 40 (length s) ≡ true = ground (arith, ap (λ (x : Text). length x) e) in
      rw large (inl e)
  walk-Some (arr xs) t long h = walk_items-Some xs t long h
  walk-Some (obj fs) t long h = walk_fields-Some fs t long h
  walk-Some null t long h = absurd h
  walk-Some (bool b) t long h = absurd h
  walk-Some (num x) t long h = absurd h

  walk_items-Some :
      (xs : Items) (t : Text)
      → 40 ≤ length t
      → IsPrivateItem xs t
      → Some (λ s. s ≡ t) (walk_items false xs)
  walk_items-Some nil t long h = absurd h
  walk_items-Some (cons x xs) t long (inl h) =
      Some-append_left (λ s. s ≡ t) _ _ (walk-Some x t long h)
  walk_items-Some (cons x xs) t long (inr h) =
      Some-append_right (λ s. s ≡ t) (walk false x) _ (walk_items-Some xs t long h)

  walk_fields-Some :
      (fs : Fields) (t : Text)
      → 40 ≤ length t
      → IsPrivateField fs t
      → Some (λ s. s ≡ t) (walk_fields false fs)
  walk_fields-Some end t long h = absurd h
  walk_fields-Some (field k v fs) t long (inl (e, h)) =
      rw e (Some-append_left (λ s. s ≡ t) _ _ (walk-Some v t long h))
  walk_fields-Some (field k v fs) t long (inr h) =
      Some-append_right (λ s. s ≡ t) (walk (false || is_public_key k) v) _
        (walk_fields-Some fs t long h)

pub private_corpus-Some :
    (packet : Json) (t : Text)
    → 40 ≤ length t
    → IsPrivate packet t
    → Some (λ s. s ≡ t) (private_corpus packet)
private_corpus-Some packet t long h = walk-Some packet t long h
