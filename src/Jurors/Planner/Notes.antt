-- ===== src/Jurors/Planner/Notes.antt =====
-- The human-readable notes and outcomes that planner.ts puts into a plan.
use bab_takehome.Base.{ℕ, List, [], ◌∷◌, ◌++◌, Text, codes, show, if◌then◌else◌, ◌==◌}
use bab_takehome.Jurors.Types.{Action, juror_index, kind_name, DisputeSnap, verdict_uphold}

pub disabled_note : Text
disabled_note = codes "disabled (JURORS_ENABLED is not 1)"

pub not_found_note : Text
not_found_note = codes "dispute not found"

pub other_ground_note : Text
other_ground_note = codes "not a FalseDescription dispute (mechanical verifier handles it)"

pub leftovers_note : Text
leftovers_note = codes "resolved: publish leftovers and withdraw"

pub resolved_note : DisputeSnap → Text
resolved_note d =
    codes "resolved: "
    ++ (if d.fallback_no_quorum
        then codes "FallbackNoQuorum"
        else if d.verdict == verdict_uphold
        then codes "Uphold"
        else codes "Reject")

pub block_note : ℕ → Text
block_note selection_block = codes "waiting for block > " ++ show selection_block

pub retry_note : ℕ → Text
retry_note deadline =
    codes "not enough eligible jurors; retry after selectionDeadline " ++ show deadline

pub select_note : ℕ → Text
select_note round = codes "selectJurors round " ++ show round

pub status_note : ℕ → Text
status_note status = codes "unknown status " ++ show status

-- `actions.map((a) => `${a.kind}#${a.jurorIndex}`).join(' ')`
pub actions_note : List Action → Text
actions_note [] = []
actions_note (a ∷ []) = kind_name a ++ codes "#" ++ show (juror_index a)
actions_note (a ∷ b ∷ more) =
    kind_name a ++ codes "#" ++ show (juror_index a) ++ codes " " ++ actions_note (b ∷ more)

pub waiting_note : ℕ → ℕ → ℕ → Text
waiting_note round committed revealed =
    codes "round "
    ++ show round
    ++ codes ": waiting (committed "
    ++ show committed
    ++ codes "/3, revealed "
    ++ show revealed
    ++ codes "/3)"
