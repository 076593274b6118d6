-- ===== src/Jurors/Driver.antt =====
-- services/jurors-vercel/src/lib/driver.ts: the loop of one dispute's workflow.
-- `DriverIO` (here `DriverIo`) is a parameter: a type of worlds, and functions that read the chain, carry out an
-- action and sleep, each of which may change the world and the first two of which may throw. The
-- actions of a batch run concurrently in the source, where only the list of their results, in the
-- order of the batch, comes back; here the world is threaded through them in that order.
pub mod Bounds
pub mod Commitments
use bab_takehome.Base.{
  ℕ, zero, suc, ◌+◌, Bool, true, false, ◌||◌, List, [], ◌∷◌, ◌++◌, Text, codes, show, if◌then◌else◌,
}
use bab_takehome.Jurors.Types.{
  Action, Snapshot, Memory, ActionResult, Success, applied, not_applied, Plan, act, wait, done,
  empty_memory,
}
use bab_takehome.Jurors.Planner.{plan_next, poll_seconds}
use bab_takehome.Jurors.Batches.{batches}
use bab_takehome.Jurors.Memories.{note, apply}

abbrev pub max_iterations : ℕ
max_iterations = 400

abbrev pub failed_action_backoff_seconds : ℕ
failed_action_backoff_seconds = 4

-- What an asynchronous call comes to: a value, or the message of the error that it throws.
pub data Outcome (A : Type 0) : Type 0 where
  value : A → Outcome A
  thrown : Text → Outcome A

pub record DriverIo : Type 1 where
  pub World : Type 0
  pub snapshot : World → Text → Outcome Snapshot × World
  pub execute : World → Text → Action → Memory → Outcome ActionResult × World
  pub sleep : World → ℕ → World

pub record DriveResult : Type 0 where
  pub dispute_id : Text
  pub outcome : Text
  pub iterations : ℕ
  pub log : List Text

pub stopped_note : ℕ → Text
stopped_note n =
    codes "stopped after "
    ++ show n
    ++ codes " iterations (the next wake or cron sweep starts a fresh run)"

-- `.catch((e) => ({ ok: false, … }))`
abbrev caught : Outcome ActionResult → ActionResult
caught (value r) = r
caught (thrown message) = not_applied (codes "step failed: " ++ message) true

abbrev ok_result : ActionResult → Bool
ok_result (applied r) = true
ok_result (not_applied reason retryable) = false

module _ (io : DriverIo) where
  open io use {World, snapshot, execute, sleep}

  -- `Promise.all(batch.map(…))`: every action of the batch sees the same memory.
  unfoldable pub execute_batch : Text → Memory → List Action → World → List ActionResult × World
  execute_batch id mem [] w = ([], w)
  execute_batch id mem (a ∷ batch) w =
      let (r, w') = execute w id a mem in
      let (rs, w'') = execute_batch id mem batch w' in (caught r ∷ rs, w'')

  -- `batch.forEach((a, n) => …)`
  unfoldable pub apply_results :
      Snapshot → List Action → List ActionResult → Memory → Bool → Memory × Bool
  apply_results s (a ∷ batch) (r ∷ rs) mem progressed =
      apply_results s batch rs (apply mem a r s) (ok_result r || progressed)
  apply_results s _ _ mem progressed = (mem, progressed)

  unfoldable pub run_batches :
      Text → Snapshot → List (List Action) → Memory → Bool → World → Memory × Bool × World
  run_batches id s [] mem progressed w = (mem, progressed, w)
  run_batches id s (batch ∷ more) mem progressed w =
      let (rs, w') = execute_batch id mem batch w in
      let (mem', progressed') = apply_results s batch rs mem progressed in
      run_batches id s more mem' progressed' w'

  -- What one iteration does: it ends the run, or goes on with a memory and a world.
  pub data Next : Type 0 where
    finished : (outcome : Text) → Next
    goes_on : Memory → World → Next

  abbrev pub follow_plan : Text → Snapshot → Memory → World → Plan → Next
  follow_plan id s mem w (done outcome) = finished outcome
  follow_plan id s mem w (wait seconds why) = goes_on mem (sleep w seconds)
  follow_plan id s mem w (act actions why) =
      let (mem', progressed, w') = run_batches id s (batches actions) mem false w in
      goes_on mem' (if progressed then w' else sleep w' failed_action_backoff_seconds)

  unfoldable pub after_snapshot : Text → Memory → Outcome Snapshot → World → Next
  after_snapshot id mem (thrown message) w =
      goes_on (note mem (codes "snapshot failed: " ++ message)) (sleep w poll_seconds)
  after_snapshot id mem (value s) w = follow_plan id s mem w (plan_next s mem)

  unfoldable pub iterate : Text → Memory → World → Next
  iterate id mem w = let (got, w') = snapshot w id in after_snapshot id mem got w'

  abbrev pub resume : Text → ℕ → List Text → (Memory → World → DriveResult) → Next → DriveResult
  resume id i log later (finished outcome) = record {
    dispute_id = id;
    outcome = outcome;
    iterations = i;
    log = log;
  }
  resume id i log later (goes_on mem w) = later mem w

  -- The iterations `i`, `i + 1`, … up to the limit, of which `left` remain.
  unfoldable pub drive_from : ℕ → Text → (left i : ℕ) → Memory → World → DriveResult
  drive_from limit id zero i mem w = record {
    dispute_id = id;
    outcome = stopped_note limit;
    iterations = limit;
    log = mem.log;
  }
  drive_from limit id (suc left) i mem w =
      resume id i mem.log (drive_from limit id left (i + 1)) (iterate id mem w)

  unfoldable pub drive_dispute : Text → ℕ → World → DriveResult
  drive_dispute id limit w = drive_from limit id limit 1 empty_memory w
