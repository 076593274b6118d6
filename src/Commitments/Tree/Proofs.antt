-- ===== src/Commitments/Tree/Proofs.antt =====
-- `buildTaskTree`: success.
use mathlib.Core.List.Permᴰ
use bab_takehome.Base.{
  ℕ, suc, ◌≤◌, ◌≡◌, refl, ◌∙◌, true, false, List, [], ◌∷◌, arith, length, All, All-perm, Text,
  codes, to_lower, ◌==◌, sort_by, sort_by-perm, ok, Result, >>=-eq-ok, >>=-ok, ok-injective, subst,
  traverse,
}
use bab_takehome.Commitments.Tree.{
  Crypto, is_bytes32, normalize_bytes32, LeafInput, encode_leaf_payload, task_leaf, leaf_of,
  TaskTreeTask, TaskTreeLeaf, TaskTree, merkle_tree, tree_leaves, tree_of_sorted, build_task_tree,
}
use bab_takehome.Commitments.Tree.Canonical.{CanCommit, CanCommit-build_task_tree, length-perm}
use bab_takehome.Commitments.Tree.Leaves.{traverse-length}
use bab_takehome.Commitments.Tree.Pairs.{IsNode, CryptoLaws, normalize-traverse}

traverse-All :
    {E A B : Type 0} (P : B → Type 0) (f : A → Result E B) (xs : List A) (ys : List B)
    → ((x : A) (y : B) → f x ≡ ok y → P y)
    → traverse f xs ≡ ok ys
    → All P ys
unfolding traverse
traverse-All P f [] ys g h = subst (All P) (ok-injective _ _ h) tt
traverse-All P f (x ∷ xs) ys g h =
    let (y, (e, h)) = >>=-eq-ok (f x) _ h in
    let (zs, (k, h)) = >>=-eq-ok (traverse f xs) _ h in
    subst (All P) (ok-injective _ _ h) (g x y e, traverse-All P f xs zs g k)

traverse-ok :
    {E A B : Type 0} (P : A → Type 0) (f : A → Result E B) (xs : List A)
    → ((x : A) → P x → (y : B) × (f x ≡ ok y))
    → All P xs
    → (ys : List B) × (traverse f xs ≡ ok ys)
unfolding traverse
traverse-ok P f [] g h = ([], refl)
traverse-ok P f (x ∷ xs) g (h, hs) =
    let (y, e) = g x h in let (ys, k) = traverse-ok P f xs g hs in (y ∷ ys, rw (e, k) refl)

normalize-ok : (x name : Text) → is_bytes32 x ≡ true → normalize_bytes32 x name ≡ ok (to_lower x)
unfolding normalize_bytes32
normalize-ok x name h = rw h refl

-- The hashes of a task are bytes32.
abbrev pub HasHashes : TaskTreeTask → Type 0
HasHashes t = (is_bytes32 t.task_hash ≡ true) × (is_bytes32 t.salt ≡ true)

module _ (crypto : Crypto) (laws : CryptoLaws crypto) where
  task_leaf-IsNode :
      (input : LeafInput) (domain h : Text) → task_leaf crypto input domain ≡ ok h → IsNode h
  unfolding task_leaf
  task_leaf-IsNode input domain h e =
      let (payload, (p, k)) = >>=-eq-ok (encode_leaf_payload crypto input domain) _ e in
      subst IsNode (ok-injective _ h k) (laws.keccak256-IsNode payload)

  tree_leaves-ok :
      (tree : Crypto.MerkleTree crypto) (i : ℕ) (ts : List TaskTreeTask) (hs : List Text)
      → All HasHashes ts
      → (ls : List TaskTreeLeaf) × (tree_leaves crypto tree i ts hs ≡ ok ls)
  unfolding tree_leaves
  tree_leaves-ok tree i [] hs h = ([], refl)
  tree_leaves-ok tree i (t ∷ ts) [] h = ([], refl)
  tree_leaves-ok tree i (t ∷ ts) (k ∷ hs) ((a, b), h) =
      let (ls, e) = tree_leaves-ok tree (suc i) ts hs h in
      >>=-ok _ _ _ (normalize-ok t.task_hash (codes "taskHash") a)
        (>>=-ok _ _ _ (normalize-ok t.salt (codes "salt") b) (>>=-ok _ _ ls e (_, refl)))

  encode_leaf_payload-ok :
      (input : LeafInput) (domain : Text)
      → is_bytes32 input.task_hash ≡ true
      → is_bytes32 input.grader_digest ≡ true
      → is_bytes32 input.salt ≡ true
      → (payload : Text) × (encode_leaf_payload crypto input domain ≡ ok payload)
  unfolding encode_leaf_payload
  encode_leaf_payload-ok input domain a d b =
      >>=-ok _ _ _ (normalize-ok input.task_hash (codes "taskHash") a) (
        >>=-ok _ _ _ (normalize-ok input.grader_digest (codes "graderDigest") d)
          (>>=-ok _ _ _ (normalize-ok input.salt (codes "salt") b) (_, refl)))

  leaf_of-ok :
      (version digest domain : Text) (t : TaskTreeTask)
      → is_bytes32 digest ≡ true
      → HasHashes t
      → (h : Text) × (leaf_of crypto version digest domain t ≡ ok h)
  unfolding task_leaf
  leaf_of-ok version digest domain t d (a, b) =
      let (payload, e) = encode_leaf_payload-ok _ domain a d b in >>=-ok _ _ payload e (_, refl)

  merkle_tree-ok :
      (hs : List Text)
      → 1 ≤ length hs
      → All IsNode hs
      → merkle_tree crypto hs ≡ ok (Crypto.tree_of crypto hs)
  unfolding merkle_tree
  merkle_tree-ok hs some_leaf nodes =
      let not_empty : (length hs == 0) ≡ false = ground arith in
      rw (not_empty, normalize-traverse (codes "leaf") hs nodes) refl

  -- A task tree is built for every list of 1 to 256 tasks with valid ids, no id twice, whose hashes
  -- and salts, and the grader digest, are bytes32, provided that keccak256 returns bytes32s in lower
  -- case (`CryptoLaws`): no later step, for the leaves or for the tree, refuses what the checks let
  -- pass.
  build_task_tree-ok :
      (version digest domain : Text) (ts : List TaskTreeTask)
      → CanCommit ts
      → All HasHashes ts
      → is_bytes32 digest ≡ true
      → (t : TaskTree) × (build_task_tree crypto version digest ts domain ≡ ok t)
  unfolding tree_of_sorted
  build_task_tree-ok version digest domain ts can hashes d =
      let sorted = sort_by TaskTreeTask.task_id ts in
      let p = sort_by-perm TaskTreeTask.task_id ts in
      let hashed = All-perm HasHashes (Permᴰ.symm p) hashes in
      let (hs, e) =
        traverse-ok HasHashes (leaf_of crypto version digest domain) sorted
          (λ t. leaf_of-ok version digest domain t d) hashed in
      let nodes = traverse-All IsNode _ sorted hs (λ x y. task_leaf-IsNode _ domain y) e in
      let ((some_task, _), _) = can in
      let some_leaf : 1 ≤ length hs = omega (arith, traverse-length _ sorted hs e, length-perm p) in
      let tree = Crypto.tree_of crypto hs in
      let (ls, k) = tree_leaves-ok tree 0 sorted hs hashed in
      let (t, built) : (t : TaskTree) × (tree_of_sorted crypto version digest domain sorted
            ≡ ok t) =
        >>=-ok _ _ hs e (
          >>=-ok _ _ tree (merkle_tree-ok hs some_leaf nodes) (
            >>=-ok _ _ ls k
              (>>=-ok _ _ _ (normalize-ok digest (codes "graderDigest") d) (_, refl)))) in
      (t, CanCommit-build_task_tree crypto version digest domain ts can ∙ built)
