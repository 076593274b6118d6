-- ===== src/Jurors/Memories.antt =====
-- `note` and `apply` of services/jurors-vercel/src/lib/driver.ts: folding the result of an action
-- into the workflow's memory.
pub mod Frame
use bab_takehome.Base.{
  ℕ, zero, suc, ◌+◌, ◌-◌, Bool, true, false, ◌&&◌, ◌||◌, Option, none, some, List, [], ◌∷◌, ◌++◌,
  Text, codes, show, Dict, lookup, insert, length, drop, ltb, if◌then◌else◌, get_or, is_some,
}
use bab_takehome.Jurors.Types.{
  Verdict, Action, select, deliberate, prepare, commit, reveal, publish, tally, withdraw, Snapshot,
  Memory, DecisionRecord, Prepared, KeeperOutcome, ActionResult, Success, applied, not_applied,
  Plan, act, wait, done, key, truthy, empty_memory, juror_index, round_of, kind_name,
}
use bab_takehome.Jurors.Planner.{plan_next, select_key, withdraw_key, poll_seconds}
use bab_takehome.Jurors.Batches.{batches}

abbrev pub max_log : ℕ
max_log = 200

-- `log.length > MAX_LOG ? log.slice(log.length - MAX_LOG) : log`
unfoldable pub last_lines : List Text → List Text
last_lines log = if ltb max_log (length log) then drop (length log - max_log) log else log

unfoldable pub note : Memory → Text → Memory
note mem line = record mem { log = last_lines (mem.log ++ line ∷ []) }

pub tally_key : ℕ → Text
tally_key round = codes "tally:" ++ show round

abbrev pub succeeded : ActionResult → Bool
succeeded (applied r) = true
succeeded (not_applied reason retryable) = false

abbrev reason_of : ActionResult → Option Text
reason_of (applied r) = none
reason_of (not_applied reason retryable) = some reason

abbrev pub count_up : Text → Dict ℕ → Dict ℕ
count_up k d = insert k (get_or (lookup k d) 0 + 1) d

abbrev keeper_outcome : ActionResult → Snapshot → KeeperOutcome
keeper_outcome r s = record {
  succeeded = succeeded r;
  reason = reason_of r;
  recorded_at = s.head.timestamp;
}

-- `r.ok && r.decision`, and so on for the other fields.
abbrev pub decided : ActionResult → Option DecisionRecord
decided (applied r) = r.decision
decided (not_applied reason retryable) = none

abbrev pub field_text : (Success → Option Text) → ActionResult → Option Text
field_text f (applied r) = truthy (f r)
field_text f (not_applied reason retryable) = none

abbrev pub prepared_vote : Option Text → Option Verdict → Option Prepared
prepared_vote none v = none
prepared_vote (some c) none = none
prepared_vote (some c) (some v) = some (record { verdict = v; commitment = c })

abbrev pub prepared_of : ActionResult → Option Prepared
prepared_of (applied r) = prepared_vote (truthy r.commitment) r.verdict
prepared_of (not_applied reason retryable) = none

abbrev pub put : {V : Type 0} → Text → Option V → Dict V → Dict V
put k none d = d
put k (some v) d = insert k v d

abbrev pub fold_decision : Memory → Text → Option DecisionRecord → Memory
fold_decision mem k (some dec) = record mem { decisions = insert k dec mem.decisions }
fold_decision mem k none = record mem {
  deliberation_failures = count_up k mem.deliberation_failures;
}

abbrev pub fold_publication : Memory → Text → Option Text → Memory
fold_publication mem k (some sha) = record mem { published = insert k sha mem.published }
fold_publication mem k none = record mem { publish_failures = count_up k mem.publish_failures }

abbrev pub fold_withdrawal : Memory → ℕ → Bool → Option Text → Memory
fold_withdrawal mem j true hash = record mem { withdrawn = put (show j) hash mem.withdrawn }
fold_withdrawal mem j false hash = record mem { failures = count_up (withdraw_key j) mem.failures }

-- The `switch` of `apply`, by the kind of the action.
unfoldable pub fold_result : Memory → Action → ActionResult → Snapshot → Memory
fold_result mem (select round j) r s = record mem {
  keeper = insert (select_key round s.dispute.selection_block) (keeper_outcome r s) mem.keeper;
}
fold_result mem (tally round j) r s = record mem {
  keeper = insert (tally_key round) (keeper_outcome r s) mem.keeper;
}
fold_result mem (deliberate round j deadline) r s = fold_decision mem (key j round) (decided r)
fold_result mem (prepare round j v) r s = record mem {
  prepared = put (key j round) (prepared_of r) mem.prepared;
}
fold_result mem (reveal round j v) r s = record mem {
  reveal_tx = put (key j round) (field_text (λ x. x.hash) r) mem.reveal_tx;
}
fold_result mem (publish round j) r s =
    fold_publication mem (key j round) (field_text (λ x. x.sha256) r)
fold_result mem (withdraw j) r s = fold_withdrawal mem j (succeeded r) (field_text (λ x. x.hash) r)
fold_result mem (commit round j v c) r s = mem

round_note : Option ℕ → Text
round_note none = []
round_note (some round) = codes " r" ++ show round

hash_note : Option Text → Text
hash_note none = []
hash_note (some hash) = codes " " ++ hash

extra_note : Option Text → Text
extra_note none = []
extra_note (some line) = codes " (" ++ (line ++ codes ")")

result_note : ActionResult → Text
result_note (applied r) = codes ": ok" ++ (hash_note (truthy r.hash) ++ extra_note (truthy r.note))
result_note (not_applied reason retryable) = codes ": not applied (" ++ (reason ++ codes ")")

-- "Never log a verdict or commitment before the reveal: only the action, juror and outcome."
pub apply_note : Action → ActionResult → Text
apply_note a r =
    kind_name a
    ++ (round_note (round_of a) ++ (codes " juror" ++ (show (juror_index a) ++ result_note r)))

unfoldable pub apply : Memory → Action → ActionResult → Snapshot → Memory
apply mem a r s = note (fold_result mem a r s) (apply_note a r)
