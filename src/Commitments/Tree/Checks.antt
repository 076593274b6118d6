-- ===== src/Commitments/Tree/Checks.antt =====
-- Which task lists the tree is built for.
use bab_takehome.Base.{
  ◌≡◌, ◌≢◌, refl, sym, inl, inr, false, List, [], ◌∷◌, arith, any, All, All-map, Text, text_eq,
  text_eq_iff, Bool-cases, DistinctBy, ok, raise_if, raise_if-eq-ok, >>=-eq-ok,
}
use bab_takehome.Commitments.Tree.{duplicate_task_id, assert_task_id, TaskTreeTask, check_ids}

abbrev pub HasTaskId : TaskTreeTask → Type 0
HasTaskId t = assert_task_id t.task_id ≡ ok tt

abbrev pub IsNew : List Text → TaskTreeTask → Type 0
IsNew seen t = any (text_eq t.task_id) seen ≡ false

IsNew-cons :
    (seen : List Text) (t u : TaskTreeTask)
    → IsNew (t.task_id ∷ seen) u
    → (t.task_id ≢ u.task_id) × IsNew seen u
IsNew-cons seen t u h =
    (λ e. absurd (ground (arith, (text_eq_iff u.task_id t.task_id).1 (sym e))), ground arith)

cons-IsNew :
    (seen : List Text) (t u : TaskTreeTask)
    → t.task_id ≢ u.task_id
    → IsNew seen u
    → IsNew (t.task_id ∷ seen) u
cons-IsNew seen t u n h = elim (Bool-cases (text_eq u.task_id t.task_id)) [
  | inl e ↦ absurd (n (sym ((text_eq_iff u.task_id t.task_id).0 e)))
  | inr e ↦ rw (e, h) refl
]

abbrev pub Acceptable : List Text → List TaskTreeTask → Type 0
Acceptable seen ts = All HasTaskId ts × (DistinctBy TaskTreeTask.task_id ts × All (IsNew seen) ts)

pub check_ids-Acceptable :
    (seen : List Text) (ts : List TaskTreeTask) → check_ids seen ts ≡ ok tt → Acceptable seen ts
unfolding check_ids
check_ids-Acceptable seen [] h = (tt, (tt, tt))
check_ids-Acceptable seen (t ∷ ts) h =
    let (u, (id, h)) = >>=-eq-ok (assert_task_id t.task_id) _ h in
    let (v, (new, h)) = >>=-eq-ok (raise_if _ (duplicate_task_id t.task_id)) _ h in
    let (ids, (distinct, fresh)) = check_ids-Acceptable (t.task_id ∷ seen) ts h in
    (
      (id, ids),
      (
        (All-map _ ts (λ u k. (IsNew-cons seen t u k).0) fresh, distinct),
        (raise_if-eq-ok _ _ new, All-map _ ts (λ u k. (IsNew-cons seen t u k).1) fresh),
      ),
    )

both :
    {P Q R : TaskTreeTask → Type 0} (ts : List TaskTreeTask)
    → ((t : TaskTreeTask) → P t → Q t → R t)
    → All P ts
    → All Q ts
    → All R ts
both [] f h k = tt
both (t ∷ ts) f (h, hs) (k, ks) = (f t h k, both ts f hs ks)

pub Acceptable-check_ids :
    (seen : List Text) (ts : List TaskTreeTask) → Acceptable seen ts → check_ids seen ts ≡ ok tt
unfolding check_ids
Acceptable-check_ids seen [] h = refl
Acceptable-check_ids seen (t ∷ ts) ((id, ids), ((n, distinct), (new, fresh))) =
    rw (id, new)
      (Acceptable-check_ids (t.task_id ∷ seen) ts
        (ids, (distinct, both ts (cons-IsNew seen t) n fresh)))
