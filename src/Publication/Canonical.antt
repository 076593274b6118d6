-- ===== src/Publication/Canonical.antt =====
-- services/jurors/src/publish.ts: `canonical`, JSON with sorted keys and no white space.
use bab_takehome.Base.{
  ℕ, true, false, List, [], ◌∷◌, ◌++◌, map, Text, codes, quote, join, sort_by, Number, Json, null,
  bool, num, str, arr, obj, Items, nil, cons, Fields, end, field,
}

abbrev pub between : ℕ → ℕ → Text → Text
between a b s = a ∷ (s ++ b ∷ [])

abbrev pub key_value : Text × Text → Text
key_value (k, v) = quote k ++ codes ":" ++ v

abbrev pub by_key : List (Text × Text) → List (Text × Text)
by_key ps = sort_by (λ p. p.0) ps

-- `JSON.stringify` of a number is the parameter; the members of an object are written before they
-- are sorted.
module _ (show_number : Number → Text) where
  unfoldable mutual
    pub canonical : Json → Text
    canonical null = codes "null"
    canonical (bool true) = codes "true"
    canonical (bool false) = codes "false"
    canonical (num x) = show_number x
    canonical (str s) = quote s
    canonical (arr xs) = between b'[' b']' (join (codes ",") (canonical_items xs))
    canonical (obj fs) =
        between b'{' b'}' (join (codes ",") (map key_value (by_key (canonical_fields fs))))

    pub canonical_items : Items → List Text
    canonical_items nil = []
    canonical_items (cons x xs) = canonical x ∷ canonical_items xs

    pub canonical_fields : Fields → List (Text × Text)
    canonical_fields end = []
    canonical_fields (field k v fs) = (k, canonical v) ∷ canonical_fields fs
