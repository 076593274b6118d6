-- ===== src/Sweep.antt =====
-- services/jurors-vercel/src/lib/sweep.ts: which disputes get a workflow run. The chain, the
-- workflow library and the configuration are the record `SweepIo`; where a call throws, a lookup
-- of a hook or of a run is `none`, and other calls are `err`.
mod Complete
mod Examples
use bab_takehome.Base.{
  ℕ, zero, suc, ◌+◌, ◌-◌, Bool, true, false, ◌&&◌, ◌||◌, not, Option, none, some, List, [], ◌∷◌,
  ◌++◌, map, length, take, any, keep, if◌then◌else◌, ltb, leb, ◌==◌, Text, codes, text_eq, show,
  Result, ok, err, ◌>>=◌, traverse,
}
use bab_takehome.Jurors.Types.{ground_false_description, status_none, status_resolved}

abbrev pub max_scan : ℕ
max_scan = 200

pub record Row : Type 0 where
  pub id : ℕ
  pub ground : ℕ
  pub status : ℕ
  pub round : ℕ

pub record OpenDispute : Type 0 where
  pub dispute_id : Text
  pub status : Text
  pub round : ℕ

-- `get_dispute` gives the ground, the status and the round.
pub record SweepIo : Type 0 where
  pub next_dispute_id : Result Text ℕ
  pub get_dispute : ℕ → Result Text (ℕ × ℕ × ℕ)
  pub lock_token : Text → Text
  pub get_hook : Text → Option (Option Text)
  pub run_status : Text → Option Text
  pub enabled : Bool
  pub start : Text → Text → Result Text Text

abbrev pub first_id : ℕ → ℕ
first_id next = if ltb max_scan (next - 1) then next - max_scan else 1

-- The `n` ids from `i` on.
unfoldable pub ids_from : ℕ → ℕ → List ℕ
ids_from i zero = []
ids_from i (suc n) = i ∷ ids_from (suc i) n

abbrev pub row_of : ℕ → ℕ × ℕ × ℕ → Row
row_of id (ground, status, round) = record {
  id = id;
  ground = ground;
  status = status;
  round = round;
}

abbrev pub read_row : SweepIo → ℕ → Result Text Row
read_row io id = io.get_dispute id >>= λ d. ok (row_of id d)

abbrev pub is_open : Row → Bool
is_open r =
    r.ground == ground_false_description
    && not (r.status == status_resolved)
    && not (r.status == status_none)

-- `STATUS[r.status] ?? String(r.status)`
abbrev pub status_name : ℕ → Text
status_name n =
    if n == 0
    then codes "None"
    else if n == 1
    then codes "AwaitingSelection"
    else if n == 2
    then codes "Voting"
    else if n == 3
    then codes "Resolved"
    else show n

abbrev pub open_of : Row → OpenDispute
open_of r = record { dispute_id = show r.id; status = status_name r.status; round = r.round }

unfoldable pub open_disputes : SweepIo → Result Text (ℕ × List OpenDispute)
open_disputes io = do
  next ← io.next_dispute_id
  rows ← traverse (read_row io) (ids_from (first_id next) (next - first_id next))
  ok (next, map open_of (keep is_open rows))

pub data WakeAction : Type 0 where
  started : Text → WakeAction
  running : Text → WakeAction
  would_start : WakeAction
  failed : Text → WakeAction

pub record WakeResult : Type 0 where
  pub of : OpenDispute
  pub action : WakeAction

-- `activeRun`: a run whose status cannot be read counts as active.
abbrev pub run_if_active : Text → Option Text → Option Text
run_if_active run none = some run
run_if_active run (some status) =
    if text_eq status (codes "running") || text_eq status (codes "pending") then some run else none

abbrev pub active_run : SweepIo → Option (Option Text) → Option Text
active_run io none = none
active_run io (some none) = none
active_run io (some (some run)) = run_if_active run (io.run_status run)

abbrev pub started_or_failed : Result Text Text → WakeAction
started_or_failed (ok run) = started run
started_or_failed (err message) = failed (take 200 message)

abbrev pub wake_action : SweepIo → OpenDispute → Option Text → WakeAction
wake_action io d (some run) = running run
wake_action io d none =
    if not io.enabled
    then would_start
    else started_or_failed (io.start d.dispute_id (io.lock_token d.dispute_id))

abbrev pub wake_one : SweepIo → OpenDispute → WakeResult
wake_one io d = record {
  of = d;
  action = wake_action io d (active_run io (io.get_hook (io.lock_token d.dispute_id)));
}

abbrev pub focus_note : ℕ → List OpenDispute → Option ℕ → Option Text
focus_note next ds none = none
focus_note next ds (some focus) =
    if leb next focus || ltb focus 1
    then some (codes "dispute #" ++ show focus ++ codes " does not exist (yet)")
    else if any (λ d. text_eq d.dispute_id (show focus)) ds
    then none
    else some
        (codes "dispute #" ++ show focus ++ codes " is resolved or not a FalseDescription dispute")

pub record WakeReport : Type 0 where
  pub next_dispute_id : ℕ
  pub nothing_to_do : Bool
  pub focus : Option Text
  pub disputes : List WakeResult

unfoldable pub wake : SweepIo → Option ℕ → Result Text WakeReport
wake io focus = do
  (next, ds) ← open_disputes io
  ok (record {
    next_dispute_id = next;
    nothing_to_do = length (map (wake_one io) ds) == 0;
    focus = focus_note next ds focus;
    disputes = map (wake_one io) ds;
  })
