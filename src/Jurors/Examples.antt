-- ===== src/Jurors/Examples.antt =====
-- The hosted juror service at concrete inputs: one dispute with two jurors of ours on its panel.
use mathlib.Core.List.{Perm, flatten}
use bab_takehome.Base.{
  ℕ, ◌+◌, ◌≤◌, ◌≡◌, refl, inl, inr, Bool, true, false, none, some, List, [], ◌∷◌, arith, Text,
  codes, show, text_eq, to_lower, lookup, length, keep, All,
}
use bab_takehome.Jurors.Types.{
  uphold, reject, Action, deliberate, prepare, commit, reveal, tally, withdraw, SeatSnap,
  DisputeSnap, OurJuror, Snapshot, Memory, Prepared, ActionResult, applied, not_applied, wait, key,
  zero32, empty_memory,
}
use bab_takehome.Jurors.Planner.{
  find_seat, panel, same, all_committed, all_revealed, reveal_open, is_committed, may_publish,
  commit_turn, seated_turn, turn, turn_actions, turn_waits, tally_actions, deadline_waits, minimum,
  poll_or_retry_seconds, voting_seconds, plan_voting, plan_selection, plan_resolved, plan_next,
  resolved_actions, leftovers,
}
use bab_takehome.Jurors.Planner.Justified.{Justified, planned, plan_next-Justified}
use bab_takehome.Jurors.Planner.Progress.{Listed, plan_next-reveal, plan_next-tally}
use bab_takehome.Jurors.Batches.{batches}
use bab_takehome.Jurors.Batches.Grouping.{flatten-batches_perm}
use bab_takehome.Jurors.Batches.Order.{sends_as, batches-once}
use bab_takehome.Jurors.Memories.{apply, note, fold_result}
use bab_takehome.Jurors.Driver.{
  DriverIo, value, drive_dispute, iterate, after_snapshot, run_batches, execute_batch,
  apply_results, goes_on, finished, Next,
}
use bab_takehome.Jurors.Driver.Bounds.{WithinLimits, drive_dispute-WithinLimits}
use bab_takehome.Jurors.Driver.Commitments.{Holds, Reaches, here, next, commit_fixed}

planner : Unit {0}
unfolding plan_next plan_voting plan_selection plan_resolved resolved_actions leftovers turn_actions
    turn_waits turn seated_turn commit_turn find_seat panel same all_committed all_revealed
    reveal_open is_committed may_publish tally_actions deadline_waits minimum poll_or_retry_seconds
    voting_seconds text_eq to_lower lookup key show
planner = tt

abbrev seat : Text → Bool → Text → SeatSnap
seat juror revealed commitment = record {
  juror = juror;
  vote = 0;
  revealed = revealed;
  commitment = commitment;
}

abbrev dispute : ℕ → ℕ → DisputeSnap
dispute status round = record {
  purchase_id = 5;
  ground_no = 2;
  status = status;
  verdict = 1;
  round = round;
  fallback_no_quorum = false;
  selection_block = 50;
  selection_deadline = 60;
  commit_deadline = 100;
  reveal_deadline = 200;
}

abbrev ours : List OurJuror
ours =
    record { index = 1; address = codes "0xAA"; claimable = 0 }
    ∷ record { index = 2; address = codes "0xbb"; claimable = 0 }
    ∷ []

abbrev snapshot_at : ℕ → ℕ → List SeatSnap → Snapshot
snapshot_at now status seats = record {
  dispute_id = codes "9";
  head = record { number = 70; timestamp = now };
  enabled = true;
  dispute = dispute status 1;
  seats = seats;
  jurors = ours;
  keeper_index = 1;
}

abbrev fresh_seats : List SeatSnap
fresh_seats =
    seat (codes "0xaa") false zero32
    ∷ seat (codes "0xBB") false zero32
    ∷ seat (codes "0xcc") false zero32
    ∷ []

abbrev vote : Prepared
vote = record { verdict = uphold; commitment = codes "0x1234" }

abbrev ready : Memory
ready = record empty_memory { prepared = (codes "1:1", vote) ∷ [] }

voting_tests :
    (planned (plan_next (snapshot_at 80 2 fresh_seats) ready)
      ≡ commit 1 1 uphold (codes "0x1234") ∷ deliberate 1 2 100 ∷ [])
    × (planned (plan_next (snapshot_at 90 2 fresh_seats) ready)
        ≡ commit 1 1 uphold (codes "0x1234") ∷ [])
    × (planned (plan_next (snapshot_at 201 2 fresh_seats) ready) ≡ tally 1 1 ∷ [])
unfolding planner
voting_tests = (refl, refl, refl)

abbrev committed_seats : List SeatSnap
committed_seats =
    seat (codes "0xaa") false (codes "0x1234")
    ∷ seat (codes "0xBB") true (codes "0x99")
    ∷ seat (codes "0xcc") false (codes "0x77")
    ∷ []

plan_next-Justified_example :
    All
      (Justified (snapshot_at 80 2 fresh_seats) ready)
      (planned (plan_next (snapshot_at 80 2 fresh_seats) ready))
plan_next-Justified_example = plan_next-Justified (snapshot_at 80 2 fresh_seats) ready

plan_next-reveal_example :
    Listed (reveal 1 1 (some uphold)) (planned (plan_next (snapshot_at 80 2 committed_seats) ready))
unfolding planner
plan_next-reveal_example =
    plan_next-reveal (snapshot_at 80 2 committed_seats) ready
      (record { index = 1; address = codes "0xAA"; claimable = 0 })
      (seat (codes "0xaa") false (codes "0x1234")) (refl, refl, refl) (inl refl) refl (λ e. cc) refl
      (inr refl) (omega arith)

plan_next-tally_example :
    Listed (tally 1 1) (planned (plan_next (snapshot_at 201 2 committed_seats) ready))
plan_next-tally_example =
    plan_next-tally (snapshot_at 201 2 committed_seats) ready (refl, refl, refl) (inr (omega arith))

waiting_plan : Snapshot
waiting_plan = record (snapshot_at 95 2 fresh_seats) { jurors = [] }

waiting_plan_test : (w : Text) × (plan_next waiting_plan empty_memory ≡ wait 7 w)
unfolding planner waiting_plan
waiting_plan_test = (_, refl)

abbrev mixed : List Action
mixed = commit 1 1 uphold (codes "0x1234") ∷ prepare 1 2 reject ∷ tally 1 1 ∷ withdraw 2 ∷ []

batches_test :
    batches mixed
    ≡ (commit 1 1 uphold (codes "0x1234") ∷ prepare 1 2 reject ∷ withdraw 2 ∷ [])
      ∷ (tally 1 1 ∷ [])
      ∷ []
unfolding batches
batches_test = refl

flatten-batches_perm_example : Perm (flatten (batches mixed)) mixed
flatten-batches_perm_example = flatten-batches_perm mixed

batches-once_example : All (λ b. length (keep (sends_as 1) b) ≤ 1) (batches mixed)
batches-once_example = batches-once mixed 1

abbrev failed_publish : ActionResult
failed_publish = not_applied (codes "HTTP 500") true

-- A world that shows the fresh panel for ever, counts the calls, and in which every step succeeds
-- with nothing to report.
abbrev still : DriverIo
still = record {
  World = ℕ;
  snapshot = λ w id. (value (snapshot_at 80 2 fresh_seats), w + 1);
  execute = λ w id a mem. (
    value (
        applied (record {
          hash = none;
          note = none;
          decision = none;
          commitment = none;
          sha256 = none;
          verdict = none;
        })),
    w + 1,
  );
  sleep = λ w n. w + 1;
}

drive_dispute-WithinLimits_example : WithinLimits still 2 (drive_dispute still (codes "9") 2 0)
drive_dispute-WithinLimits_example = drive_dispute-WithinLimits still (codes "9") 2 0

abbrev memory_after : Next still → Memory
memory_after (finished outcome) = empty_memory
memory_after (goes_on mem w) = mem

abbrev world_after : Next still → ℕ
world_after (finished outcome) = 0
world_after (goes_on mem w) = w

abbrev first_round : Next still
first_round = iterate still (codes "9") ready 0

one_round : Reaches still (codes "9") ready 0 (memory_after first_round) (world_after first_round)
unfolding planner iterate after_snapshot run_batches execute_batch apply_results batches
one_round = next here refl

commit_fixed_example :
    Holds (key 1 1) vote (memory_after first_round)
    × (uphold ≡ vote.verdict)
    × (codes "0x1234" ≡ vote.commitment)
unfolding planner iterate after_snapshot run_batches execute_batch apply_results batches apply note
    fold_result
commit_fixed_example =
    commit_fixed still (codes "9") ready (memory_after first_round) 0 (world_after first_round)
      (snapshot_at 80 2 fresh_seats) 1 1 vote uphold (codes "0x1234") refl one_round (inl refl)
