-- ===== src/Commitments/Tree/Pairs.antt =====
-- The nodes of the tree, and the pair hash.
use bab_takehome.Base.{
  ◌≡◌, refl, inl, inr, true, List, [], ◌∷◌, All, Text, to_lower, text_lt, text_lt_asym,
  text_lt_total, Bool-cases, ok, traverse,
}
use bab_takehome.Commitments.Tree.{Crypto, is_bytes32, normalize_bytes32, hash_pair}

-- A bytes32 in lower case.
abbrev pub IsNode : Text → Type 0
IsNode x = (is_bytes32 x ≡ true) × (to_lower x ≡ x)

-- What is documented of viem's keccak256: a hash is a bytes32 in lower case.
pub record CryptoLaws (crypto : Crypto) : Type 0 where
  pub keccak256-IsNode : (payload : Text) → IsNode (Crypto.keccak256 crypto payload)

pub normalize-IsNode : (x name : Text) → IsNode x → normalize_bytes32 x name ≡ ok x
unfolding normalize_bytes32
normalize-IsNode x name (h, e) = rw (h, e) refl

pub normalize-traverse :
    (name : Text) (xs : List Text)
    → All IsNode xs
    → traverse (λ x. normalize_bytes32 x name) xs ≡ ok xs
unfolding traverse
normalize-traverse name [] h = refl
normalize-traverse name (x ∷ xs) (h, hs) =
    rw (normalize-IsNode x name h, normalize-traverse name xs hs) refl

module _ (crypto : Crypto) where
  -- The hash of two nodes that are bytes32 does not depend on their order.
  pub hash_pair_comm :
      (a b : Text)
      → is_bytes32 a ≡ true
      → is_bytes32 b ≡ true
      → hash_pair crypto a b ≡ hash_pair crypto b a
  unfolding hash_pair normalize_bytes32
  hash_pair_comm a b h k =
      rw (h, k)
        (elim (Bool-cases (text_lt (to_lower a) (to_lower b))) [
          | inl e ↦ rw (e, text_lt_asym _ _ e) refl
          | inr e ↦ elim (Bool-cases (text_lt (to_lower b) (to_lower a))) [
            | inl f ↦ rw (e, f) refl
            | inr f ↦ rw (text_lt_total (to_lower a) (to_lower b) e f) refl
          ]
        ])
