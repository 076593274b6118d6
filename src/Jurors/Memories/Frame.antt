-- ===== src/Jurors/Memories/Frame.antt =====
-- The entries of the memory that the result of an action is not about.
use bab_takehome.Base.{
  ℕ, ◌≡◌, ◌≢◌, refl, ap, Bool, true, false, Option, none, some, arith, Text, show, show-injective,
  show-IsDigit, IsDigit-ne, split_unique, Dict, lookup, lookup-insert_ne,
}
use bab_takehome.Jurors.Types.{
  Action, select, deliberate, prepare, commit, reveal, publish, tally, withdraw, Snapshot, Memory,
  DecisionRecord, ActionResult, key, juror_index, round_of,
}
use bab_takehome.Jurors.Memories.{
  note, put, fold_result, apply, prepared_of, decided, succeeded, fold_decision, fold_publication,
  fold_withdrawal,
}

-- The keys of the memory's tables tell jurors and rounds apart: the text `j:r` determines both
-- numbers.
pub key-injective : (j r j' r' : ℕ) → key j r ≡ key j' r' → (j ≡ j') × (r ≡ r')
unfolding key
key-injective j r j' r' e =
    let (p, q) =
      split_unique b':' (show j) (show j') (show r) (show r')
        (IsDigit-ne b':' (show j) (omega arith) (show-IsDigit j))
        (IsDigit-ne b':' (show j') (omega arith) (show-IsDigit j')) e in
    (show-injective j j' p, show-injective r r' q)

-- The memory's tables agree at one key: the decisions and failed deliberations, the prepared votes,
-- the reveals, the publications and the failed ones.
abbrev pub SameAt : Text → Memory → Memory → Type 0
SameAt k m n =
    (lookup k m.decisions ≡ lookup k n.decisions)
    × (lookup k m.deliberation_failures ≡ lookup k n.deliberation_failures)
    × (lookup k m.prepared ≡ lookup k n.prepared)
    × (lookup k m.reveal_tx ≡ lookup k n.reveal_tx)
    × (lookup k m.published ≡ lookup k n.published)
    × (lookup k m.publish_failures ≡ lookup k n.publish_failures)

pub lookup-put_ne :
    {V : Type 0} (k j : Text) (v : Option V) (d : Dict V)
    → k ≢ j
    → lookup j (put k v d) ≡ lookup j d
lookup-put_ne k j none d h = refl
lookup-put_ne k j (some v) d h = lookup-insert_ne k j v d h

abbrev pub Concerns : Action → ℕ → ℕ → Type 0
Concerns a j round = (juror_index a ≡ j) × (round_of a ≡ some round)

other_key :
    (i x j round : ℕ)
    → ¬ ((i ≡ j) × (◌≡◌ {A = Option ℕ} (some x) (some round)))
    → key i x ≢ key j round
other_key i x j round h e = let (p, q) = key-injective i x j round e in h (p, ap some q)

fold_decision-SameAt :
    (mem : Memory) (k j : Text) (o : Option DecisionRecord)
    → k ≢ j
    → SameAt j (fold_decision mem k o) mem
fold_decision-SameAt mem k j none h =
    (refl, lookup-insert_ne k j _ mem.deliberation_failures h, refl, refl, refl, refl)
fold_decision-SameAt mem k j (some dec) h =
    (lookup-insert_ne k j dec mem.decisions h, refl, refl, refl, refl, refl)

fold_publication-SameAt :
    (mem : Memory) (k j : Text) (o : Option Text) → k ≢ j → SameAt j (fold_publication mem k o) mem
fold_publication-SameAt mem k j none h =
    (refl, refl, refl, refl, refl, lookup-insert_ne k j _ mem.publish_failures h)
fold_publication-SameAt mem k j (some sha) h =
    (refl, refl, refl, refl, lookup-insert_ne k j sha mem.published h, refl)

fold_withdrawal-SameAt :
    (mem : Memory) (i : ℕ) (j : Text) (b : Bool) (hash : Option Text)
    → SameAt j (fold_withdrawal mem i b hash) mem
fold_withdrawal-SameAt mem i j true hash = (refl, refl, refl, refl, refl, refl)
fold_withdrawal-SameAt mem i j false hash = (refl, refl, refl, refl, refl, refl)

fold_result-SameAt :
    (mem : Memory) (a : Action) (r : ActionResult) (s : Snapshot) (j round : ℕ)
    → ¬ Concerns a j round
    → SameAt (key j round) (fold_result mem a r s) mem
unfolding fold_result
fold_result-SameAt mem (select x i) r s j round h = (refl, refl, refl, refl, refl, refl)
fold_result-SameAt mem (deliberate x i d) r s j round h =
    fold_decision-SameAt mem (key i x) (key j round) (decided r) (other_key i x j round h)
fold_result-SameAt mem (prepare x i v) r s j round h =
    let other = other_key i x j round h in
    (
      refl,
      refl,
      lookup-put_ne (key i x) (key j round) (prepared_of r) mem.prepared other,
      refl,
      refl,
      refl,
    )
fold_result-SameAt mem (commit x i v c) r s j round h = (refl, refl, refl, refl, refl, refl)
fold_result-SameAt mem (reveal x i v) r s j round h =
    let other = other_key i x j round h in
    (refl, refl, refl, lookup-put_ne (key i x) (key j round) _ mem.reveal_tx other, refl, refl)
fold_result-SameAt mem (publish x i) r s j round h =
    fold_publication-SameAt mem (key i x) (key j round) _ (other_key i x j round h)
fold_result-SameAt mem (tally x i) r s j round h = (refl, refl, refl, refl, refl, refl)
fold_result-SameAt mem (withdraw i) r s j round h =
    fold_withdrawal-SameAt mem i (key j round) (succeeded r) _

-- Folding the result of an action into the memory changes no table's entry for another juror or
-- another round: decisions, prepared votes, reveals, publications and both failure counts stay.
pub apply-SameAt :
    (mem : Memory) (a : Action) (r : ActionResult) (s : Snapshot) (j round : ℕ)
    → ¬ Concerns a j round
    → SameAt (key j round) (apply mem a r s) mem
unfolding apply note
apply-SameAt mem a r s j round h = fold_result-SameAt mem a r s j round h
