-- ===== src/Commitments/Tree/Examples.antt =====
-- A tree of two tasks, with a hash and a tree whose values are fixed.
use mathlib.Core.List.{Permᴰ}
use bab_takehome.Base.{
  ◌≡◌, refl, some, List, [], ◌∷◌, ◌++◌, map, All, Text, codes, to_lower, text_eq, lookup,
  AscendingBy, ok, traverse, text_lt, insert, insert_by, sort_by,
}
use bab_takehome.Commitments.Tree.{
  Crypto, TaskTreeTask, TaskTreeLeaf, TaskTree, task_domain, is_bytes32, normalize_bytes32,
  build_task_tree, assert_task_id, matches_task_id, check_ids, tree_of_sorted, task_leaf,
  encode_leaf_payload, merkle_tree, tree_leaves, by_task_id,
}
use bab_takehome.Commitments.Tree.Canonical.{build_task_tree-canonical}
use bab_takehome.Commitments.Tree.Leaves.{Indexed, build_task_tree-leaves}

abbrev zeros : Text
zeros = codes "0x0000000000000000000000000000000000000000000000000000000000000000"

abbrev ones : Text
ones = codes "0x1111111111111111111111111111111111111111111111111111111111111111"

-- Every hash is `zeros`, and a tree is its leaves.
abbrev fixed : Crypto
fixed = record {
  keccak256 = λ payload. zeros;
  encode_leaf = λ d v t h g s. d ++ t;
  concat = λ a b. a ++ b;
  MerkleTree = List Text;
  tree_of = λ leaves. leaves;
  root = λ tree. zeros;
  get_proof = λ tree i. ones ∷ [];
  verify = λ root leaf proof. some (text_eq root zeros);
}

abbrev task_a : TaskTreeTask
task_a = record { task_id = codes "a"; task_hash = zeros; salt = ones }

abbrev task_b : TaskTreeTask
task_b = record { task_id = codes "b-2"; task_hash = ones; salt = ones }

abbrev leaf_a : TaskTreeLeaf
leaf_a = record {
  task_id = codes "a";
  task_hash = zeros;
  salt = ones;
  index = 0;
  leaf = zeros;
  proof = ones ∷ [];
}

abbrev leaf_b : TaskTreeLeaf
leaf_b = record {
  task_id = codes "b-2";
  task_hash = ones;
  salt = ones;
  index = 1;
  leaf = zeros;
  proof = ones ∷ [];
}

abbrev tree_ab : TaskTree
tree_ab = record {
  domain = task_domain;
  environment_version = codes "v1";
  grader_digest = ones;
  root = zeros;
  leaves = leaf_a ∷ leaf_b ∷ [];
  by_id = (codes "a", leaf_a) ∷ (codes "b-2", leaf_b) ∷ [];
}

built : build_task_tree fixed (codes "v1") ones (task_b ∷ task_a ∷ []) task_domain ≡ ok tree_ab
unfolding build_task_tree check_ids assert_task_id matches_task_id tree_of_sorted task_leaf
    encode_leaf_payload merkle_tree tree_leaves by_task_id normalize_bytes32 is_bytes32 to_lower
    traverse sort_by insert_by text_lt text_eq insert
built = refl

build_task_tree-canonical_example :
    build_task_tree fixed (codes "v1") ones (task_a ∷ task_b ∷ []) task_domain ≡ ok tree_ab
build_task_tree-canonical_example =
    build_task_tree-canonical fixed (codes "v1") ones task_domain (task_b ∷ task_a ∷ [])
      (task_a ∷ task_b ∷ []) tree_ab (Permᴰ.swap refl refl) built

build_task_tree-leaves_example :
    AscendingBy TaskTreeLeaf.task_id tree_ab.leaves
    × (Indexed 0 tree_ab.leaves
        × (Permᴰ (map TaskTreeLeaf.task_id tree_ab.leaves) (codes "b-2" ∷ codes "a" ∷ [])
            × All (λ l. lookup l.task_id tree_ab.by_id ≡ some l) tree_ab.leaves))
build_task_tree-leaves_example =
    build_task_tree-leaves fixed (codes "v1") ones task_domain (task_b ∷ task_a ∷ []) tree_ab built
