-- ===== src/Commitments/Tree/Canonical.antt =====
-- `buildTaskTree`: its checks, and the order of the tasks.
use mathlib.Core.List.{Permᴰ}
use bab_takehome.Base.{
  suc, ◌≤◌, ◌≡◌, refl, sym, ap, ◌∙◌, false, List, [], ◌∷◌, arith, ltb, ◌==◌, length, All, All-perm,
  Text, DistinctBy, DistinctBy-perm, sort_by, sort_by-canonical, ok, raise_if, raise_if-eq-ok,
  >>=-eq-ok,
}
use bab_takehome.Commitments.Masks.{max_tasks}
use bab_takehome.Commitments.Tree.{
  no_tasks, too_many_tasks, Crypto, TaskTreeTask, TaskTree, check_ids, tree_of_sorted,
  build_task_tree,
}
use bab_takehome.Commitments.Tree.Checks.{HasTaskId, check_ids-Acceptable, Acceptable-check_ids}

pub length-perm : {A : Type 0} {xs ys : List A} → Permᴰ xs ys → length xs ≡ length ys
length-perm Permᴰ.nil = refl
length-perm (Permᴰ.cons e p) = ap suc (length-perm p)
length-perm (Permᴰ.swap e f) = refl
length-perm (Permᴰ.trans p q) = length-perm p ∙ length-perm q

All-none : (ts : List TaskTreeTask) → All (λ t. false ≡ false) ts
All-none [] = tt
All-none (t ∷ ts) = (refl, All-none ts)

-- What the checks ask of the tasks: from 1 to 256 of them, valid ids, and no id twice.
abbrev pub CanCommit : List TaskTreeTask → Type 0
CanCommit ts =
    ((1 ≤ length ts) × (length ts ≤ max_tasks))
    × (All HasTaskId ts × DistinctBy TaskTreeTask.task_id ts)

module _ (crypto : Crypto) (version digest domain : Text) where
  pub build_task_tree-CanCommit :
      (ts : List TaskTreeTask) (t : TaskTree)
      → build_task_tree crypto version digest ts domain ≡ ok t
      → CanCommit ts
        × (tree_of_sorted crypto version digest domain (sort_by TaskTreeTask.task_id ts) ≡ ok t)
  unfolding build_task_tree
  build_task_tree-CanCommit ts t h =
      let (u, (some, h)) = >>=-eq-ok (raise_if (length ts == 0) no_tasks) _ h in
      let (v, (few, h)) = >>=-eq-ok (raise_if (ltb max_tasks (length ts)) too_many_tasks) _ h in
      let (w, (checked, h)) = >>=-eq-ok (check_ids [] ts) _ h in
      let (ids, (distinct, _)) = check_ids-Acceptable [] ts checked in
      let not_empty = raise_if-eq-ok _ _ some in
      let not_many = raise_if-eq-ok _ _ few in (((ground arith, ground arith), (ids, distinct)), h)

  pub CanCommit-build_task_tree :
      (ts : List TaskTreeTask)
      → CanCommit ts
      → build_task_tree crypto version digest ts domain
        ≡ tree_of_sorted crypto version digest domain (sort_by TaskTreeTask.task_id ts)
  unfolding build_task_tree
  CanCommit-build_task_tree ts ((some, few), (ids, distinct)) =
      let not_empty : (length ts == 0) ≡ false = ground arith in
      let not_many : ltb max_tasks (length ts) ≡ false = ground arith in
      rw (not_empty, not_many, Acceptable-check_ids [] ts (ids, (distinct, All-none ts))) refl

  CanCommit-perm : (ts us : List TaskTreeTask) → Permᴰ ts us → CanCommit ts → CanCommit us
  CanCommit-perm ts us p ((some, few), (ids, distinct)) = (
    (omega (arith, length-perm p), omega (arith, length-perm p)),
    (All-perm HasTaskId p ids, DistinctBy-perm TaskTreeTask.task_id p distinct),
  )

  -- A task tree does not depend on the order in which the tasks are given: when the tree is built
  -- for a list of tasks, the same tree is built for every permutation of it.
  pub build_task_tree-canonical :
      (ts us : List TaskTreeTask) (t : TaskTree)
      → Permᴰ ts us
      → build_task_tree crypto version digest ts domain ≡ ok t
      → build_task_tree crypto version digest us domain ≡ ok t
  build_task_tree-canonical ts us t p h =
      let (can, built) = build_task_tree-CanCommit ts t h in
      let (_, (_, distinct)) = can in
      CanCommit-build_task_tree us (CanCommit-perm ts us p can)
      ∙ ap (tree_of_sorted crypto version digest domain)
          (sym (sort_by-canonical TaskTreeTask.task_id p distinct))
      ∙ built
