-- ===== src/Jurors/Batches.antt =====
-- `batches` of services/jurors-vercel/src/lib/planner.ts: the planned actions, grouped so that each
-- juror's key sends at most one transaction at a time. The inner loop over `pending` is
-- `batch_round`, which gives what went into the batch and what stayed; the outer `while` loop takes
-- the number of pending actions as its fuel.
pub mod Grouping
pub mod Order
use bab_takehome.Base.{ℕ, zero, suc, Bool, true, false, List, [], ◌∷◌, length, any, ◌==◌}
use bab_takehome.Jurors.Types.{Action, deliberate, prepare, publish, juror_index}

-- "deliberate/prepare/publish send no transaction"
abbrev pub sends_tx : Action → Bool
sends_tx (deliberate r j d) = false
sends_tx (prepare r j v) = false
sends_tx (publish r j) = false
sends_tx _ = true

pub record Round : Type 0 where
  pub batch : List Action
  pub left : List Action

abbrev pub into_batch : Action → Round → Round
into_batch a r = record r { batch = a ∷ r.batch }

abbrev pub left_over : Action → Round → Round
left_over a r = record r { left = a ∷ r.left }

-- `used.has(j)`
abbrev pub is_used : List ℕ → ℕ → Bool
is_used used j = any (λ k. k == j) used

unfoldable pub batch_round : List ℕ → List Action → Round
batch_round used [] = record { batch = []; left = [] }
batch_round used (a ∷ pending) = elim (sends_tx a) [
  | true ↦ elim (is_used used (juror_index a)) [
    | true ↦ left_over a (batch_round used pending)
    | false ↦ into_batch a (batch_round (juror_index a ∷ used) pending)
  ]
  | false ↦ into_batch a (batch_round used pending)
]

unfoldable pub batches_fuel : ℕ → List Action → List (List Action)
batches_fuel zero pending = []
batches_fuel (suc f) [] = []
batches_fuel (suc f) (a ∷ pending) =
    let r = batch_round [] (a ∷ pending) in r.batch ∷ batches_fuel f r.left

unfoldable pub batches : List Action → List (List Action)
unfolding batches_fuel batch_round
batches actions = batches_fuel (length actions) actions
