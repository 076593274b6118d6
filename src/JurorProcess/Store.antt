-- ===== src/JurorProcess/Store.antt =====
-- services/jurors/src/state.ts: the durable state of a juror.
use bab_takehome.Base.{
  ℕ, ◌-◌, Bool, not, Option, none, some, [], ◌++◌, get_or, is_some, if◌then◌else◌, leb, ◌==◌, Text,
  codes, text_eq, to_lower, show, Dict, lookup, insert, Result, ok, ◌>>=◌, ◌>>◌, raise_if,
}
use bab_takehome.Deliberation.Types.{VerdictLabel, Decision}
use bab_takehome.Publication.Upload.{Published}

pub record RoundRecord : Type 0 where
  pub round : ℕ
  pub decision : Option Decision
  pub verdict : Option VerdictLabel
  pub salt : Option Text
  pub commitment : Option Text
  pub commit_tx : Option Text
  pub commit_confirmed : Option Bool
  pub reveal_tx : Option Text
  pub reveal_confirmed : Option Bool
  pub rationale_published : Option Published
  pub abstain_reason : Option Text

-- The identifier is kept as a number; its key is its decimal form.
pub record DisputeRecord : Type 0 where
  pub dispute_id : ℕ
  pub purchase_id : Option Text
  pub discovered_at_block : Option Text
  pub rounds : Dict RoundRecord
  pub resolved : Option Bool
  pub final_verdict : Option Text
  pub withdraw_tx : Option Text

pub record DeploymentState : Type 0 where
  pub cursor : ℕ
  pub disputes : Dict DisputeRecord

pub record JurorStateFile : Type 0 where
  pub version : ℕ
  pub juror : Text
  pub deployments : Dict DeploymentState

-- The state in memory, and what the file holds: the value that its JSON text stands for.
pub record JurorStore : Type 0 where
  pub key : Text
  pub state : JurorStateFile
  pub file : Option JurorStateFile

pub data StoreError : Type 0 where
  bad_version : StoreError
  other_juror : Text → StoreError

-- `save`, where the write of the file succeeds: the file is replaced whole. A write that fails, on
-- which the code throws with the change left in memory, is modelled for `prepareCommit` only
-- (`prepare_commit_unsaved`): the process is modelled for runs in which no write of the state file
-- fails.
abbrev pub save : JurorStore → JurorStore
save st = record st { file = some st.state }

abbrev pub new_round : ℕ → RoundRecord
new_round r = record {
  round = r;
  decision = none;
  verdict = none;
  salt = none;
  commitment = none;
  commit_tx = none;
  commit_confirmed = none;
  reveal_tx = none;
  reveal_confirmed = none;
  rationale_published = none;
  abstain_reason = none;
}

-- `{ disputeId: k, rounds: {}, ...init }`
abbrev pub new_dispute : ℕ → Option Text → Option Text → DisputeRecord
new_dispute id purchase_id block = record {
  dispute_id = id;
  purchase_id = purchase_id;
  discovered_at_block = block;
  rounds = [];
  resolved = none;
  final_verdict = none;
  withdraw_tx = none;
}

abbrev pub new_deployment : ℕ → DeploymentState
new_deployment start_block = record { cursor = start_block - 1; disputes = [] }

-- `this.data.deployments[this.key]!`: the constructor adds it, so that the default is not met.
abbrev pub deployment : Text → JurorStateFile → DeploymentState
deployment key s = get_or (lookup key s.deployments) (new_deployment 0)

abbrev pub set_deployment : Text → DeploymentState → JurorStateFile → JurorStateFile
set_deployment key d s = record s { deployments = insert key d s.deployments }

abbrev pub store_key : ℕ → Text → Text
store_key chain_id market = show chain_id ++ codes ":" ++ to_lower market

abbrev pub checked_state : Text → Option JurorStateFile → Result StoreError JurorStateFile
checked_state juror none = ok (record { version = 1; juror = juror; deployments = [] })
checked_state juror (some s) = do
  raise_if (not (s.version == 1)) bad_version
  raise_if (not (text_eq (to_lower s.juror) (to_lower juror))) (other_juror s.juror)
  ok s

abbrev pub with_deployment : ℕ → JurorStore → JurorStore
with_deployment start_block st =
    if is_some (lookup st.key st.state.deployments)
    then st
    else save (record st { state = set_deployment st.key (new_deployment start_block) st.state })

-- The constructor of `JurorStore`, on what the file holds.
unfoldable pub open_store :
    Option JurorStateFile → Text → ℕ → Text → ℕ → Result StoreError JurorStore
open_store file juror chain_id market start_block = checked_state juror file >>= λ s. ok (
    with_deployment start_block
      (record { key = store_key chain_id market; state = s; file = file }))

abbrev pub dep : JurorStore → DeploymentState
dep st = deployment st.key st.state

abbrev pub cursor : JurorStore → ℕ
cursor st = (dep st).cursor

abbrev pub with_dep : DeploymentState → JurorStore → JurorStore
with_dep d st = record st { state = set_deployment st.key d st.state }

unfoldable pub set_cursor : ℕ → JurorStore → JurorStore
set_cursor b st =
    if leb b (cursor st) then st else save (with_dep (record (dep st) { cursor = b }) st)

abbrev pub dispute_in : ℕ → DeploymentState → Option DisputeRecord
dispute_in id d = lookup (show id) d.disputes

abbrev pub dispute : ℕ → JurorStore → Option DisputeRecord
dispute id st = dispute_in id (dep st)

abbrev pub put_dispute : ℕ → DisputeRecord → JurorStore → JurorStore
put_dispute id rec st =
    with_dep (record (dep st) { disputes = insert (show id) rec (dep st).disputes }) st

unfoldable pub ensure_dispute : ℕ → Option Text → Option Text → JurorStore → JurorStore
ensure_dispute id purchase_id block st =
    if is_some (dispute id st)
    then st
    else save (put_dispute id (new_dispute id purchase_id block) st)

abbrev pub dispute_or_new : ℕ → JurorStore → DisputeRecord
dispute_or_new id st = get_or (dispute id st) (new_dispute id none none)

-- The record of a round in a deployment, and in the memory of a store: what `round` returns.
abbrev pub round_of : ℕ → ℕ → DeploymentState → RoundRecord
round_of id r d =
    get_or (lookup (show r) (get_or (dispute_in id d) (new_dispute id none none)).rounds)
      (new_round r)

abbrev pub round_record : ℕ → ℕ → JurorStore → RoundRecord
round_record id r st = round_of id r (dep st)

-- `d.rounds[k] = rec`, in memory.
abbrev pub put_round : ℕ → ℕ → RoundRecord → JurorStore → JurorStore
put_round id r rec st =
    put_dispute id
      (record (dispute_or_new id st) { rounds = insert (show r) rec (dispute_or_new id st).rounds })
      st

-- `round`: a new record is in memory only, until the next save.
unfoldable pub ensure_round : ℕ → ℕ → JurorStore → JurorStore
ensure_round id r st =
    let ready = ensure_dispute id none none st in
    if is_some (lookup (show r) (dispute_or_new id ready).rounds)
    then ready
    else put_round id r (new_round r) ready

-- `update(() => ...)` on the record of a round, and on that of a dispute.
unfoldable pub update_round : ℕ → ℕ → (RoundRecord → RoundRecord) → JurorStore → JurorStore
update_round id r change st = save (put_round id r (change (round_record id r st)) st)

unfoldable pub update_dispute : ℕ → (DisputeRecord → DisputeRecord) → JurorStore → JurorStore
update_dispute id change st = save (put_dispute id (change (dispute_or_new id st)) st)
