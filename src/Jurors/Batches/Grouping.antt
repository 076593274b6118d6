-- ===== src/Jurors/Batches/Grouping.antt =====
-- The contents of the batches.
use mathlib.Core.List.{Perm, perm_middle, flatten}
use mathlib.Core.List.Perm
use bab_takehome.Base.{
  ℕ, zero, suc, ◌≤◌, ◌<◌, ◌≡◌, ◌≢◌, inl, inr, true, false, List, [], ◌∷◌, ◌++◌, arith, length,
  Bool-cases, All,
}
use bab_takehome.Jurors.Types.{Action, juror_index}
use bab_takehome.Jurors.Batches.{
  sends_tx, into_batch, left_over, is_used, batch_round, batches_fuel, batches,
}

-- What one action does to the round of the actions behind it.
pub data Placed (used : List ℕ) (a : Action) (pending : List Action) : Type 0 where
  waits :
      sends_tx a ≡ true
      → is_used used (juror_index a) ≡ true
      → batch_round used (a ∷ pending) ≡ left_over a (batch_round used pending)
      → Placed used a pending
  sends :
      sends_tx a ≡ true
      → is_used used (juror_index a) ≡ false
      → batch_round used (a ∷ pending) ≡ into_batch a (batch_round (juror_index a ∷ used) pending)
      → Placed used a pending
  quiet :
      sends_tx a ≡ false
      → batch_round used (a ∷ pending) ≡ into_batch a (batch_round used pending)
      → Placed used a pending

pub placed : (used : List ℕ) (a : Action) (pending : List Action) → Placed used a pending
unfolding batch_round
placed used a pending = elim (Bool-cases (sends_tx a)) [
  | inl tx ↦ elim (Bool-cases (is_used used (juror_index a))) [
    | inl busy ↦ waits tx busy (ground arith)
    | inr free ↦ sends tx free (ground arith)
  ]
  | inr still ↦ quiet still (ground arith)
]

length-left : (used : List ℕ) (xs : List Action) → length (batch_round used xs).left ≤ length xs
unfolding batch_round
length-left used [] = omega arith
length-left used (a ∷ xs) =
    ground (arith, length-left used xs, length-left (juror_index a ∷ used) xs)

-- The first action of a round always enters the batch.
pub length-left_lt :
    (a : Action) (xs : List Action) → length (batch_round [] (a ∷ xs)).left < length (a ∷ xs)
unfolding batch_round
length-left_lt a xs = ground (arith, length-left [] xs, length-left (juror_index a ∷ []) xs)

batch_round-perm :
    (used : List ℕ) (xs : List Action)
    → Perm ((batch_round used xs).batch ++ (batch_round used xs).left) xs
batch_round-perm used [] = unfold batch_round in Perm.refl []
batch_round-perm used (a ∷ xs) = elim (placed used a xs) [
  | waits _ _ e ↦ rw e (
      Perm.trans (perm_middle (batch_round used xs).batch (batch_round used xs).left)
        (Perm.cons a (batch_round-perm used xs)))
  | sends _ _ e ↦ rw e (Perm.cons a (batch_round-perm (juror_index a ∷ used) xs))
  | quiet _ e ↦ rw e (Perm.cons a (batch_round-perm used xs))
]

batches_fuel-perm :
    (f : ℕ) (xs : List Action) → length xs ≤ f → Perm (flatten (batches_fuel f xs)) xs
unfolding batches_fuel flatten
batches_fuel-perm zero [] h = Perm.refl []
batches_fuel-perm zero (a ∷ xs) h = absurd (omega arith)
batches_fuel-perm (suc f) [] h = Perm.refl []
batches_fuel-perm (suc f) (a ∷ xs) h =
    Perm.trans
      (Perm.append (Perm.refl _) (batches_fuel-perm f _ (omega (arith, length-left_lt a xs))))
      (batch_round-perm [] (a ∷ xs))

-- Batching loses no action, repeats none and makes none up: the batches, put together, are a
-- permutation of the planned actions. So the loop has come to its end.
pub flatten-batches_perm : (actions : List Action) → Perm (flatten (batches actions)) actions
unfolding batches
flatten-batches_perm actions = batches_fuel-perm (length actions) actions (omega arith)

-- Each batch holds at least one action.
abbrev pub NonEmpty : List Action → Type 0
NonEmpty xs = xs ≢ []

batch_round-NonEmpty : (a : Action) (xs : List Action) → NonEmpty (batch_round [] (a ∷ xs)).batch
unfolding batch_round
batch_round-NonEmpty a xs = ground arith

batches_fuel-NonEmpty : (f : ℕ) (xs : List Action) → All NonEmpty (batches_fuel f xs)
unfolding batches_fuel
batches_fuel-NonEmpty zero xs = tt
batches_fuel-NonEmpty (suc f) [] = tt
batches_fuel-NonEmpty (suc f) (a ∷ xs) = (batch_round-NonEmpty a xs, batches_fuel-NonEmpty f _)

pub batches-NonEmpty : (actions : List Action) → All NonEmpty (batches actions)
unfolding batches
batches-NonEmpty actions = batches_fuel-NonEmpty (length actions) actions

module _ (P : Action → Type 0) where
  batch_round-All :
      (used : List ℕ) (xs : List Action)
      → All P xs
      → All P (batch_round used xs).batch × All P (batch_round used xs).left
  batch_round-All used [] h = unfold batch_round in (tt, tt)
  batch_round-All used (a ∷ xs) (p, h) = elim (placed used a xs) [
    | waits _ _ e ↦ let (b, l) = batch_round-All used xs h in rw e (b, (p, l))
    | sends _ _ e ↦ let (b, l) = batch_round-All (juror_index a ∷ used) xs h in rw e ((p, b), l)
    | quiet _ e ↦ let (b, l) = batch_round-All used xs h in rw e ((p, b), l)
  ]

  batches_fuel-All : (f : ℕ) (xs : List Action) → All P xs → All (All P) (batches_fuel f xs)
  unfolding batches_fuel
  batches_fuel-All zero xs h = tt
  batches_fuel-All (suc f) [] h = tt
  batches_fuel-All (suc f) (a ∷ xs) h =
      let (b, l) = batch_round-All [] (a ∷ xs) h in (b, batches_fuel-All f _ l)

  -- What holds of every action holds of every action of every batch.
  pub batches-All : (actions : List Action) → All P actions → All (All P) (batches actions)
  unfolding batches
  batches-All actions h = batches_fuel-All (length actions) actions h
