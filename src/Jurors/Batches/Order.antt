-- ===== src/Jurors/Batches/Order.antt =====
-- The transactions of one juror's key in the batches.
use mathlib.Core.List.{flatten}
use mathlib.Core.Bool.{true≢false}
use bab_takehome.Base.{
  ℕ, zero, suc, ◌≤◌, ◌≡◌, refl, sym, ◌∙◌, ap, inl, inr, Bool, true, ◌&&◌, List, [], ◌∷◌, ◌++◌,
  arith, length, keep, ◌==◌, Bool-cases, All, keep-append,
}
use bab_takehome.Jurors.Types.{Action, juror_index}
use bab_takehome.Jurors.Batches.{sends_tx, is_used, batch_round, batches_fuel, batches}
use bab_takehome.Jurors.Batches.Grouping.{waits, sends, quiet, placed, length-left_lt}

-- A transaction of this key.
abbrev pub sends_as : ℕ → Action → Bool
sends_as j a = sends_tx a && juror_index a == j

is_sender : (j : ℕ) (a : Action) → sends_as j a ≡ true → (sends_tx a ≡ true) × (juror_index a ≡ j)
is_sender j a h = ground arith

used-cons : (used : List ℕ) (k j : ℕ) → is_used used j ≡ true → is_used (k ∷ used) j ≡ true
used-cons used k j h = ground arith

used_self : (used : List ℕ) (k j : ℕ) → k ≡ j → is_used (k ∷ used) j ≡ true
used_self used k j h = ground arith

-- A key that is in use sends nothing more in this batch.
used-batch_round :
    (j : ℕ) (used : List ℕ) (xs : List Action)
    → is_used used j ≡ true
    → keep (sends_as j) (batch_round used xs).batch ≡ []
used-batch_round j used [] h = unfold batch_round in refl
used-batch_round j used (a ∷ xs) h = elim (placed used a xs) [
  | waits _ _ e ↦ rw e (used-batch_round j used xs h)
  | sends tx free e ↦ rw e (elim (Bool-cases (sends_as j a)) [
    | inl mine ↦ absurd (true≢false (sym h ∙ rw (is_sender j a mine).1 at free))
    | inr other ↦ rw other (used-batch_round j (juror_index a ∷ used) xs (used-cons used _ j h))
  ])
  | quiet still e ↦ rw e (ground (arith, used-batch_round j used xs h))
]

once-batch_round :
    (j : ℕ) (used : List ℕ) (xs : List Action)
    → length (keep (sends_as j) (batch_round used xs).batch) ≤ 1
once-batch_round j used [] = unfold batch_round in omega arith
once-batch_round j used (a ∷ xs) = elim (placed used a xs) [
  | waits _ _ e ↦ rw e (once-batch_round j used xs)
  | sends tx free e ↦ rw e (elim (Bool-cases (sends_as j a)) [
    | inl mine ↦
        rw
          (
            mine,
            used-batch_round j (juror_index a ∷ used) xs
                (used_self used _ j (is_sender j a mine).1),
          )
          (omega arith)
    | inr other ↦ rw other (once-batch_round j (juror_index a ∷ used) xs)
  ])
  | quiet still e ↦ rw e (ground (arith, once-batch_round j used xs))
]

order-batch_round :
    (j : ℕ) (used : List ℕ) (xs : List Action)
    → keep (sends_as j) (batch_round used xs).batch ++ keep (sends_as j) (batch_round used xs).left
      ≡ keep (sends_as j) xs
order-batch_round j used [] = unfold batch_round in refl
order-batch_round j used (a ∷ xs) = elim (placed used a xs) [
  | waits _ busy e ↦ rw e (elim (Bool-cases (sends_as j a)) [
    | inl mine ↦
        let none_yet = used-batch_round j used xs (rw (is_sender j a mine).1 at busy) in
        rw (mine, none_yet) (ap (◌∷◌ a) (rw none_yet at (order-batch_round j used xs)))
    | inr other ↦ rw other (order-batch_round j used xs)
  ])
  | sends tx free e ↦ rw e (ground (arith, order-batch_round j (juror_index a ∷ used) xs))
  | quiet still e ↦ rw e (ground (arith, order-batch_round j used xs))
]

batches_fuel-order :
    (j f : ℕ) (xs : List Action)
    → length xs ≤ f
    → keep (sends_as j) (flatten (batches_fuel f xs)) ≡ keep (sends_as j) xs
unfolding batches_fuel flatten
batches_fuel-order j zero [] h = refl
batches_fuel-order j zero (a ∷ xs) h = absurd (omega arith)
batches_fuel-order j (suc f) [] h = refl
batches_fuel-order j (suc f) (a ∷ xs) h =
    keep-append (sends_as j) (batch_round [] (a ∷ xs)).batch _
    ∙ ap (◌++◌ (keep (sends_as j) (batch_round [] (a ∷ xs)).batch))
        (batches_fuel-order j f _ (omega (arith, length-left_lt a xs)))
    ∙ order-batch_round j [] (a ∷ xs)

-- The transactions of each key come in the order in which they were planned: its commit before its
-- tally, its reveal before its tally, and so on.
pub batches-order :
    (actions : List Action) (j : ℕ)
    → keep (sends_as j) (flatten (batches actions)) ≡ keep (sends_as j) actions
unfolding batches
batches-order actions j = batches_fuel-order j (length actions) actions (omega arith)

batches_fuel-once :
    (j f : ℕ) (xs : List Action) → All (λ b. length (keep (sends_as j) b) ≤ 1) (batches_fuel f xs)
unfolding batches_fuel
batches_fuel-once j zero xs = tt
batches_fuel-once j (suc f) [] = tt
batches_fuel-once j (suc f) (a ∷ xs) = (once-batch_round j [] (a ∷ xs), batches_fuel-once j f _)

-- No batch holds two transactions of one key, so no two of its transactions are in flight at once.
pub batches-once :
    (actions : List Action) (j : ℕ) → All (λ b. length (keep (sends_as j) b) ≤ 1) (batches actions)
unfolding batches
batches-once actions j = batches_fuel-once j (length actions) actions
