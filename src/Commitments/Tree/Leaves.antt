-- ===== src/Commitments/Tree/Leaves.antt =====
-- The leaves of a tree: their order, their indices and the map by id.
use mathlib.Core.List.{Permᴰ}
use bab_takehome.Base.{
  ℕ, suc, ◌≡◌, refl, sym, ap, ◌∙◌, true, some, List, [], ◌∷◌, map, arith, length, All, Text,
  text_lt, text_lt_irrefl, Dict, lookup, insert, lookup-insert_self, lookup-insert_ne, AscendingBy,
  sort_by, sort_by-perm, sort_by-Ascending, Result, ok, ok-injective, subst, >>=-eq-ok, traverse,
}
use bab_takehome.Commitments.Tree.{
  Crypto, TaskTreeTask, TaskTreeLeaf, TaskTree, normalize_bytes32, by_task_id, leaf_of, merkle_tree,
  tree_leaves, tree_of_sorted, build_task_tree,
}
use bab_takehome.Commitments.Tree.Canonical.{build_task_tree-CanCommit}

pub traverse-length :
    {E A B : Type 0} (f : A → Result E B) (xs : List A) (ys : List B)
    → traverse f xs ≡ ok ys
    → length ys ≡ length xs
unfolding traverse
traverse-length f [] ys h = ground arith
traverse-length f (x ∷ xs) ys h =
    let (y, (e, h)) = >>=-eq-ok (f x) _ h in
    let (zs, (k, h)) = >>=-eq-ok (traverse f xs) _ h in ground (arith, traverse-length f xs zs k)

map-perm : {A B : Type 0} (f : A → B) {xs ys : List A} → Permᴰ xs ys → Permᴰ (map f xs) (map f ys)
map-perm f Permᴰ.nil = Permᴰ.nil
map-perm f (Permᴰ.cons e p) = Permᴰ.cons (ap f e) (map-perm f p)
map-perm f (Permᴰ.swap e k) = Permᴰ.swap (ap f e) (ap f k)
map-perm f (Permᴰ.trans p q) = Permᴰ.trans (map-perm f p) (map-perm f q)

-- The indices count up.
abbrev pub Indexed : ℕ → List TaskTreeLeaf → Type 0
Indexed i [] = Unit
Indexed i (l ∷ ls) = (l.index ≡ i) × Indexed (suc i) ls

-- The leaves that the tasks and their hashes give, from the index `i` on.
abbrev pub Made : ℕ → List TaskTreeTask → List Text → List TaskTreeLeaf → Type 0
Made i ts hs ls =
    (map TaskTreeLeaf.task_id ls ≡ map TaskTreeTask.task_id ts)
    × (Indexed i ls × (map TaskTreeLeaf.leaf ls ≡ hs))

module _ (crypto : Crypto) (tree : Crypto.MerkleTree crypto) where
  tree_leaves-Made :
      (i : ℕ) (ts : List TaskTreeTask) (hs : List Text) (ls : List TaskTreeLeaf)
      → length hs ≡ length ts
      → tree_leaves crypto tree i ts hs ≡ ok ls
      → Made i ts hs ls
  unfolding tree_leaves
  tree_leaves-Made i [] [] ls n h = subst (Made i [] []) (ok-injective _ _ h) (refl, (tt, refl))
  tree_leaves-Made i [] (k ∷ hs) ls n h = absurd (omega arith)
  tree_leaves-Made i (t ∷ ts) [] ls n h = absurd (omega arith)
  tree_leaves-Made i (t ∷ ts) (k ∷ hs) ls n h =
      let (a, (p, h)) = >>=-eq-ok (normalize_bytes32 _ _) _ h in
      let (b, (q, h)) = >>=-eq-ok (normalize_bytes32 _ _) _ h in
      let (rest, (r, h)) = >>=-eq-ok (tree_leaves crypto tree (suc i) ts hs) _ h in
      let (ids, (indexed, leaves)) = tree_leaves-Made (suc i) ts hs rest (omega arith) r in
      subst (Made i (t ∷ ts) (k ∷ hs)) (ok-injective _ _ h) (
        ap (λ (ids : List Text). t.task_id ∷ ids) ids,
        ((refl, indexed), ap (λ (hs : List Text). k ∷ hs) leaves),
      )

-- Keys that are the same texts, in the same order, ascend together.
Above-map :
    {A B : Type 0} (f : A → Text) (g : B → Text) (k : Text) (xs : List A) (ys : List B)
    → map f xs ≡ map g ys
    → All (λ x. text_lt k (f x) ≡ true) xs
    → All (λ y. text_lt k (g y) ≡ true) ys
Above-map f g k xs [] e h = tt
Above-map f g k [] (y ∷ ys) e h = absurd (ground arith)
Above-map f g k (x ∷ xs) (y ∷ ys) e (h, hs) = (cc, Above-map f g k xs ys (cc) hs)

AscendingBy-map :
    {A B : Type 0} (f : A → Text) (g : B → Text) (xs : List A) (ys : List B)
    → map f xs ≡ map g ys
    → AscendingBy f xs
    → AscendingBy g ys
AscendingBy-map f g xs [] e h = tt
AscendingBy-map f g [] (y ∷ ys) e h = absurd (ground arith)
AscendingBy-map f g (x ∷ xs) (y ∷ ys) e (h, hs) =
    let same : f x ≡ g y = cc in
    let rest : map f xs ≡ map g ys = cc in
    (
      Above-map f g (g y) xs ys rest
          (subst (λ (k : Text). All (λ x. text_lt k (f x) ≡ true) xs) same h),
      AscendingBy-map f g xs ys rest hs,
    )

lookup-by_task_id :
    (k : Text) (d : Dict TaskTreeLeaf) (ls : List TaskTreeLeaf)
    → All (λ l. text_lt k l.task_id ≡ true) ls
    → lookup k (by_task_id d ls) ≡ lookup k d
unfolding by_task_id
lookup-by_task_id k d [] h = refl
lookup-by_task_id k d (l ∷ ls) (h, hs) =
    lookup-by_task_id k (insert l.task_id l d) ls hs
    ∙ lookup-insert_ne l.task_id k l d (λ e. absurd (ground (arith, text_lt_irrefl k, e)))

by_task_id-lookup :
    (d : Dict TaskTreeLeaf) (ls : List TaskTreeLeaf)
    → AscendingBy TaskTreeLeaf.task_id ls
    → All (λ l. lookup l.task_id (by_task_id d ls) ≡ some l) ls
unfolding by_task_id
by_task_id-lookup d [] a = tt
by_task_id-lookup d (l ∷ ls) (h, a) = (
  lookup-by_task_id l.task_id (insert l.task_id l d) ls h ∙ lookup-insert_self l.task_id l d,
  by_task_id-lookup (insert l.task_id l d) ls a,
)

-- The parts of a tree that was built for sorted tasks.
abbrev pub BuiltOf : Crypto → Text → Text → Text → List TaskTreeTask → TaskTree → Type 0
BuiltOf crypto version digest domain sorted t =
    (hs : List Text) × (tree : Crypto.MerkleTree crypto) × ((traverse
          (leaf_of crypto version digest domain) sorted
        ≡ ok hs)
      × ((merkle_tree crypto hs ≡ ok tree)
          × ((tree_leaves crypto tree 0 sorted hs ≡ ok t.leaves)
              × ((t.root ≡ Crypto.root crypto tree) × (t.by_id ≡ by_task_id [] t.leaves)))))

module _ (crypto : Crypto) (version digest domain : Text) where
  pub tree_of_sorted-BuiltOf :
      (sorted : List TaskTreeTask) (t : TaskTree)
      → tree_of_sorted crypto version digest domain sorted ≡ ok t
      → BuiltOf crypto version digest domain sorted t
  unfolding tree_of_sorted
  tree_of_sorted-BuiltOf sorted t h =
      let (hs, (p, h)) = >>=-eq-ok (traverse (leaf_of crypto version digest domain) sorted) _ h in
      let (tree, (q, h)) = >>=-eq-ok (merkle_tree crypto hs) _ h in
      let (ls, (r, h)) = >>=-eq-ok (tree_leaves crypto tree 0 sorted hs) _ h in
      let (d, (s, h)) = >>=-eq-ok (normalize_bytes32 digest _) _ h in
      subst (BuiltOf crypto version digest domain sorted) (ok-injective _ t h)
        (hs, tree, (p, (q, (r, (refl, refl)))))

  -- When a task tree is built, its leaves stand in strictly ascending order of their task ids,
  -- leaf `i` has the index `i`, the ids are those of the tasks, and the map by id gives for each
  -- leaf's id that leaf.
  pub build_task_tree-leaves :
      (ts : List TaskTreeTask) (t : TaskTree)
      → build_task_tree crypto version digest ts domain ≡ ok t
      → AscendingBy TaskTreeLeaf.task_id t.leaves
        × (Indexed 0 t.leaves
            × (Permᴰ (map TaskTreeLeaf.task_id t.leaves) (map TaskTreeTask.task_id ts)
                × All (λ l. lookup l.task_id t.by_id ≡ some l) t.leaves))
  build_task_tree-leaves ts t h =
      let ((_, (_, distinct)), built) =
        build_task_tree-CanCommit crypto version digest domain ts t h in
      let sorted = sort_by TaskTreeTask.task_id ts in
      let (hs, tree, (p, (q, (r, (root, by_id))))) = tree_of_sorted-BuiltOf sorted t built in
      let (ids, (indexed, _)) =
        tree_leaves-Made crypto tree 0 sorted hs t.leaves (traverse-length _ sorted hs p) r in
      let ascending =
        AscendingBy-map TaskTreeTask.task_id TaskTreeLeaf.task_id sorted t.leaves (sym ids)
          (sort_by-Ascending TaskTreeTask.task_id ts distinct) in
      (
        ascending,
        (
          indexed,
          (
            subst (λ (ids : List Text). Permᴰ ids (map TaskTreeTask.task_id ts)) (sym ids)
                (map-perm TaskTreeTask.task_id (sort_by-perm TaskTreeTask.task_id ts)),
            subst (λ (d : Dict TaskTreeLeaf). All (λ l. lookup l.task_id d ≡ some l) t.leaves)
                (sym by_id) (by_task_id-lookup [] t.leaves ascending),
          ),
        ),
      )
