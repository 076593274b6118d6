-- ===== src/Jurors/Driver/Bounds.antt =====
-- The iterations and the log of the driver.
use bab_takehome.Base.{
  ℕ, zero, suc, ◌+◌, ◌-◌, ◌≤◌, inl, inr, Bool, false, List, [], ◌∷◌, ◌++◌, Text, arith, length,
  length-drop, Bool-cases, ltb,
}
use bab_takehome.Jurors.Types.{
  Action, Snapshot, Memory, ActionResult, Plan, act, wait, done, empty_memory,
}
use bab_takehome.Jurors.Planner.{plan_next}
use bab_takehome.Jurors.Batches.{batches}
use bab_takehome.Jurors.Memories.{max_log, last_lines, note, fold_result, apply}
use bab_takehome.Jurors.Driver.{
  Outcome, value, thrown, DriverIo, DriveResult, apply_results, run_batches, Next, finished,
  goes_on, follow_plan, resume, after_snapshot, iterate, drive_from, drive_dispute,
}

abbrev pub HasBoundedLog : Memory → Type 0
HasBoundedLog mem = length mem.log ≤ max_log

length-last_lines : (log : List Text) → length (last_lines log) ≤ max_log
unfolding last_lines
length-last_lines log = elim (Bool-cases (ltb max_log (length log))) [
  | inl long ↦ rw (long, length-drop (length log - max_log) log) (omega arith)
  | inr short ↦ rw short (ground arith)
]

note-HasBoundedLog : (mem : Memory) (line : Text) → HasBoundedLog (note mem line)
unfolding note
note-HasBoundedLog mem line = length-last_lines (mem.log ++ line ∷ [])

module _ (io : DriverIo) where
  open io use {World}

  apply_results-HasBoundedLog :
      (s : Snapshot) (batch : List Action) (rs : List ActionResult) (mem : Memory) (p : Bool)
      → HasBoundedLog mem
      → HasBoundedLog (apply_results io s batch rs mem p).0
  unfolding apply_results apply
  apply_results-HasBoundedLog s [] rs mem p h = h
  apply_results-HasBoundedLog s (a ∷ batch) [] mem p h = h
  apply_results-HasBoundedLog s (a ∷ batch) (r ∷ rs) mem p h =
      apply_results-HasBoundedLog s batch rs _ _ (note-HasBoundedLog (fold_result mem a r s) _)

  run_batches-HasBoundedLog :
      (id : Text) (s : Snapshot) (bs : List (List Action)) (mem : Memory) (p : Bool) (w : World)
      → HasBoundedLog mem
      → HasBoundedLog (run_batches io id s bs mem p w).0
  unfolding run_batches
  run_batches-HasBoundedLog id s [] mem p w h = h
  run_batches-HasBoundedLog id s (b ∷ bs) mem p w h =
      run_batches-HasBoundedLog id s bs _ _ _ (apply_results-HasBoundedLog s b _ mem p h)

  abbrev pub OnNext : (Memory → Type 0) → Next io → Type 0
  OnNext P (finished outcome) = Unit
  OnNext P (goes_on mem w) = P mem

  follow_plan-HasBoundedLog :
      (id : Text) (s : Snapshot) (mem : Memory) (w : World) (p : Plan)
      → HasBoundedLog mem
      → OnNext HasBoundedLog (follow_plan io id s mem w p)
  follow_plan-HasBoundedLog id s mem w (act actions why) h =
      run_batches-HasBoundedLog id s (batches actions) mem false w h
  follow_plan-HasBoundedLog id s mem w (wait seconds why) h = h
  follow_plan-HasBoundedLog id s mem w (done outcome) h = tt

  after_snapshot-HasBoundedLog :
      (id : Text) (mem : Memory) (got : Outcome Snapshot) (w : World)
      → HasBoundedLog mem
      → OnNext HasBoundedLog (after_snapshot io id mem got w)
  unfolding after_snapshot
  after_snapshot-HasBoundedLog id mem (thrown message) w h = note-HasBoundedLog mem _
  after_snapshot-HasBoundedLog id mem (value s) w h =
      follow_plan-HasBoundedLog id s mem w (plan_next s mem) h

  -- The run's iterations and its log keep to their limits.
  abbrev pub WithinLimits : ℕ → DriveResult → Type 0
  WithinLimits limit r = (r.iterations ≤ limit) × (length r.log ≤ max_log)

  resume-WithinLimits :
      (limit : ℕ) (id : Text) (i : ℕ) (log : List Text) (later : Memory → World → DriveResult)
      (n : Next io)
      → i ≤ limit
      → length log ≤ max_log
      → ((mem : Memory) (w : World) → HasBoundedLog mem → WithinLimits limit (later mem w))
      → OnNext HasBoundedLog n
      → WithinLimits limit (resume io id i log later n)
  resume-WithinLimits limit id i log later (finished outcome) b h k n = (b, h)
  resume-WithinLimits limit id i log later (goes_on mem w) b h k n = k mem w n

  drive_from-WithinLimits :
      (limit : ℕ) (id : Text) (left i : ℕ) (mem : Memory) (w : World)
      → i + left ≤ limit + 1
      → HasBoundedLog mem
      → WithinLimits limit (drive_from io limit id left i mem w)
  unfolding drive_from iterate
  drive_from-WithinLimits limit id zero i mem w b h = (omega arith, h)
  drive_from-WithinLimits limit id (suc left) i mem w b h =
      resume-WithinLimits limit id i mem.log (drive_from io limit id left (i + 1))
        (iterate io id mem w) (omega arith) h
        (λ mem' w' h'. drive_from-WithinLimits limit id left (i + 1) mem' w' (omega arith) h')
        (after_snapshot-HasBoundedLog id mem _ _ h)

  -- Whatever the chain, the steps and the clock do, a run ends after at most the given number of
  -- iterations and returns a log of at most 200 lines.
  pub drive_dispute-WithinLimits :
      (id : Text) (limit : ℕ) (w : World) → WithinLimits limit (drive_dispute io id limit w)
  unfolding drive_dispute
  drive_dispute-WithinLimits id limit w =
      drive_from-WithinLimits limit id limit 1 empty_memory w (omega arith) (omega arith)
