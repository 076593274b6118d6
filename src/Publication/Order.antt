-- ===== src/Publication/Order.antt =====
-- The order of an object's members.
use bab_takehome.Base.{
  ◌≡◌, refl, sym, ap, ◌∙◌, List, [], ◌∷◌, map, All, Text, codes, join, DistinctBy, Number, Json,
  obj, Fields, end, field, sort_by-canonical,
}
use mathlib.Core.List.{Permᴰ}
use mathlib.Core.Logic.{◌≢◌}
use bab_takehome.Publication.Canonical.{between, key_value, by_key, canonical, canonical_fields}

abbrev pub members : Fields → List (Text × Json)
members end = []
members (field k v fs) = (k, v) ∷ members fs

module _ (show_number : Number → Text) where
  abbrev written : Text × Json → Text × Text
  written (k, v) = (k, canonical show_number v)

  canonical_fields-map : (fs : Fields) → canonical_fields show_number fs ≡ map written (members fs)
  unfolding canonical
  canonical_fields-map end = refl
  canonical_fields-map (field k v fs) =
      ap (λ ps. (k, canonical show_number v) ∷ ps) (canonical_fields-map fs)

  map-perm : {ms ns : List (Text × Json)} → Permᴰ ms ns → Permᴰ (map written ms) (map written ns)
  map-perm Permᴰ.nil = Permᴰ.nil
  map-perm (Permᴰ.cons e p) = Permᴰ.cons (ap written e) (map-perm p)
  map-perm (Permᴰ.swap e f) = Permᴰ.swap (ap written e) (ap written f)
  map-perm (Permᴰ.trans p q) = Permᴰ.trans (map-perm p) (map-perm q)

  map-All :
      (k : Text) (ms : List (Text × Json))
      → All (λ m. k ≢ m.0) ms
      → All (λ p. k ≢ p.0) (map written ms)
  map-All k [] h = tt
  map-All k ((j, v) ∷ ms) (n, h) = (n, map-All k ms h)

  map-DistinctBy :
      (ms : List (Text × Json)) → DistinctBy (λ m. m.0) ms → DistinctBy (λ p. p.0) (map written ms)
  map-DistinctBy [] h = tt
  map-DistinctBy ((k, v) ∷ ms) (h, d) = (map-All k ms h, map-DistinctBy ms d)

  -- Objects with the same members, no two of them under one key, have the same canonical text
  -- whatever the order of their members.
  pub canonical_comm :
      (fs gs : Fields)
      → Permᴰ (members fs) (members gs)
      → DistinctBy (λ m. m.0) (members fs)
      → canonical show_number (obj fs) ≡ canonical show_number (obj gs)
  unfolding canonical
  canonical_comm fs gs p d =
      ap (λ ps. between b'{' b'}' (join (codes ",") (map key_value ps)))
        (ap by_key (canonical_fields-map fs)
          ∙ sort_by-canonical (λ p. p.0) (map-perm p) (map-DistinctBy (members fs) d)
          ∙ ap by_key (sym (canonical_fields-map gs)))
