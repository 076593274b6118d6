-- ===== src/Commitments/Tree.antt =====
-- packages/shared/src/commitments.ts, and `normalizeBytes32` of packages/shared/src/hash.ts: the
-- Merkle tree over a version's tasks. A `Hex` is its text. keccak256, the ABI encoding and
-- OpenZeppelin's `SimpleMerkleTree` are the fields of a parameter.
mod Checks
mod Canonical
mod Leaves
mod Pairs
mod Proofs
mod Examples
use bab_takehome.Base.{
  ℕ, zero, suc, ◌+◌, Bool, true, false, ◌&&◌, ◌||◌, not, Option, none, some, List, [], ◌∷◌, length,
  every, any, if◌then◌else◌, ltb, leb, ◌==◌, Text, codes, text_eq, to_lower, starts_with, drop,
  text_lt, Dict, insert, Result, ok, err, ◌>>=◌, ◌>>◌, raise_if, traverse, sort_by,
}
use bab_takehome.Commitments.Masks.{max_tasks}

abbrev pub task_domain : Text
task_domain = codes "envmarket.task.v1"

abbrev pub audit_domain : Text
audit_domain = codes "envmarket.audit.v1"

pub data CommitmentError : Type 0 where
  invalid_task_id : Text → CommitmentError
  not_bytes32 : Text → Text → CommitmentError
  merkle_no_leaves : CommitmentError
  merkle_index_out_of_range : CommitmentError
  no_tasks : CommitmentError
  too_many_tasks : CommitmentError
  duplicate_task_id : Text → CommitmentError

-- The third-party code. `verify` is `none` where it throws.
pub record Crypto : Type 1 where
  pub keccak256 : Text → Text
  pub encode_leaf : Text → Text → Text → Text → Text → Text → Text
  pub concat : Text → Text → Text
  pub MerkleTree : Type 0
  pub tree_of : List Text → MerkleTree
  pub root : MerkleTree → Text
  pub get_proof : MerkleTree → ℕ → List Text
  pub verify : Text → Text → List Text → Option Bool

abbrev between : ℕ → ℕ → ℕ → Bool
between lo hi c = leb lo c && leb c hi

abbrev pub is_hex_digit : ℕ → Bool
is_hex_digit c = between b'0' b'9' c || between b'a' b'f' c || between b'A' b'F' c

-- `/^0x[0-9a-fA-F]{64}$/`
unfoldable pub is_bytes32 : Text → Bool
unfolding starts_with
is_bytes32 x =
    starts_with (codes "0x") x && length (drop 2 x) == 64 && every is_hex_digit (drop 2 x)

unfoldable pub normalize_bytes32 : Text → Text → Result CommitmentError Text
normalize_bytes32 x name = if is_bytes32 x then ok (to_lower x) else err (not_bytes32 name x)

abbrev is_alphanumeric : ℕ → Bool
is_alphanumeric c = between b'A' b'Z' c || between b'a' b'z' c || between b'0' b'9' c

abbrev pub is_id_unit : ℕ → Bool
is_id_unit c = is_alphanumeric c || c == b'.' || c == b'_' || c == b'-'

-- `/^[A-Za-z0-9][A-Za-z0-9._-]{0,127}$/`
unfoldable pub matches_task_id : Text → Bool
matches_task_id [] = false
matches_task_id (c ∷ rest) = is_alphanumeric c && every is_id_unit rest && leb (length rest) 127

unfoldable pub assert_task_id : Text → Result CommitmentError (Unit {0})
assert_task_id id =
    raise_if (not (matches_task_id id) || text_eq id (codes ".") || text_eq id (codes ".."))
      (invalid_task_id id)

pub record LeafInput : Type 0 where
  pub environment_version : Text
  pub task_id : Text
  pub task_hash : Text
  pub grader_digest : Text
  pub salt : Text

pub record TaskTreeTask : Type 0 where
  pub task_id : Text
  pub task_hash : Text
  pub salt : Text

pub record TaskTreeLeaf : Type 0 where
  pub task_id : Text
  pub task_hash : Text
  pub salt : Text
  pub index : ℕ
  pub leaf : Text
  pub proof : List Text

pub record TaskTree : Type 0 where
  pub domain : Text
  pub environment_version : Text
  pub grader_digest : Text
  pub root : Text
  pub leaves : List TaskTreeLeaf
  pub by_id : Dict TaskTreeLeaf

-- The test of the ids, with the ids seen so far.
unfoldable pub check_ids : List Text → List TaskTreeTask → Result CommitmentError (Unit {0})
check_ids seen [] = ok tt
check_ids seen (t ∷ tasks) = do
  assert_task_id t.task_id
  raise_if (any (text_eq t.task_id) seen) (duplicate_task_id t.task_id)
  check_ids (t.task_id ∷ seen) tasks

-- `Object.fromEntries(leaves.map((l) => [l.taskId, l]))`
unfoldable pub by_task_id : Dict TaskTreeLeaf → List TaskTreeLeaf → Dict TaskTreeLeaf
by_task_id d [] = d
by_task_id d (l ∷ leaves) = by_task_id (insert l.task_id l d) leaves

-- `sortTaskIds`
abbrev pub sort_task_ids : List Text → List Text
sort_task_ids ids = sort_by (λ id. id) ids

module _ (crypto : Crypto) where
  open crypto use {keccak256, encode_leaf, concat, MerkleTree, tree_of, get_proof, verify}

  unfoldable pub encode_leaf_payload : LeafInput → Text → Result CommitmentError Text
  encode_leaf_payload input domain = do
    task_hash ← normalize_bytes32 input.task_hash (codes "taskHash")
    grader_digest ← normalize_bytes32 input.grader_digest (codes "graderDigest")
    salt ← normalize_bytes32 input.salt (codes "salt")
    ok (encode_leaf domain input.environment_version input.task_id task_hash grader_digest salt)

  unfoldable pub task_leaf : LeafInput → Text → Result CommitmentError Text
  task_leaf input domain = do payload ← encode_leaf_payload input domain; ok (keccak256 payload)

  abbrev pub audit_leaf : LeafInput → Result CommitmentError Text
  audit_leaf input = task_leaf input audit_domain

  unfoldable pub hash_pair : Text → Text → Result CommitmentError Text
  hash_pair a b = do
    x ← normalize_bytes32 a (codes "node")
    y ← normalize_bytes32 b (codes "node")
    ok (keccak256 (if text_lt x y then concat x y else concat y x))

  unfoldable pub merkle_tree : List Text → Result CommitmentError MerkleTree
  merkle_tree leaves = do
    raise_if (length leaves == 0) merkle_no_leaves
    nodes ← traverse (λ l. normalize_bytes32 l (codes "leaf")) leaves
    ok (tree_of nodes)

  unfoldable pub merkle_root : List Text → Result CommitmentError Text
  merkle_root leaves = do tree ← merkle_tree leaves; ok (crypto.root tree)

  unfoldable pub merkle_proof : List Text → ℕ → Result CommitmentError (List Text)
  merkle_proof leaves index = do
    raise_if (leb (length leaves) index) merkle_index_out_of_range
    tree ← merkle_tree leaves
    ok (get_proof tree index)

  -- The fold of `processMerkleProof`, from the node so far.
  unfoldable pub process_nodes : Text → List Text → Result CommitmentError Text
  process_nodes acc [] = ok acc
  process_nodes acc (p ∷ proof) = do next ← hash_pair acc p; process_nodes next proof

  unfoldable pub process_merkle_proof : Text → List Text → Result CommitmentError Text
  process_merkle_proof leaf proof = do
    node ← normalize_bytes32 leaf (codes "leaf")
    process_nodes node proof

  abbrev pub verified : Result CommitmentError (Option Bool) → Bool
  verified (ok (some b)) = b
  verified (ok none) = false
  verified (err e) = false

  unfoldable pub verify_merkle_proof : Text → List Text → Text → Bool
  verify_merkle_proof leaf proof root = verified (do
    r ← normalize_bytes32 root (codes "root")
    l ← normalize_bytes32 leaf (codes "leaf")
    nodes ← traverse (λ p. normalize_bytes32 p (codes "proof")) proof
    ok (verify r l nodes))

  abbrev pub leaf_of : Text → Text → Text → TaskTreeTask → Result CommitmentError Text
  leaf_of version digest domain t =
      task_leaf
        (record {
          environment_version = version;
          task_id = t.task_id;
          task_hash = t.task_hash;
          grader_digest = digest;
          salt = t.salt;
        })
        domain

  -- The leaves of the result, from the index `i` on, with the hashes of the tasks.
  unfoldable pub tree_leaves :
      MerkleTree → ℕ → List TaskTreeTask → List Text → Result CommitmentError (List TaskTreeLeaf)
  tree_leaves tree i [] hashes = ok []
  tree_leaves tree i (t ∷ tasks) [] = ok []
  tree_leaves tree i (t ∷ tasks) (h ∷ hashes) = do
    task_hash ← normalize_bytes32 t.task_hash (codes "taskHash")
    salt ← normalize_bytes32 t.salt (codes "salt")
    rest ← tree_leaves tree (suc i) tasks hashes
    ok (
        record {
          task_id = t.task_id;
          task_hash = task_hash;
          salt = salt;
          index = i;
          leaf = h;
          proof = get_proof tree i;
        }
        ∷ rest)

  unfoldable pub tree_of_sorted :
      Text → Text → Text → List TaskTreeTask → Result CommitmentError TaskTree
  tree_of_sorted version digest domain sorted = do
    hashes ← traverse (leaf_of version digest domain) sorted
    tree ← merkle_tree hashes
    leaves ← tree_leaves tree 0 sorted hashes
    grader_digest ← normalize_bytes32 digest (codes "graderDigest")
    ok (record {
      domain = domain;
      environment_version = version;
      grader_digest = grader_digest;
      root = crypto.root tree;
      leaves = leaves;
      by_id = by_task_id [] leaves;
    })

  unfoldable pub build_task_tree :
      Text → Text → List TaskTreeTask → Text → Result CommitmentError TaskTree
  build_task_tree version digest tasks domain = do
    raise_if (length tasks == 0) no_tasks
    raise_if (ltb max_tasks (length tasks)) too_many_tasks
    check_ids [] tasks
    tree_of_sorted version digest domain (sort_by TaskTreeTask.task_id tasks)
