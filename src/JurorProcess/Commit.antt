-- ===== src/JurorProcess/Commit.antt =====
-- services/jurors/src/commit.ts: vote secrets and commitments.
use bab_takehome.Base.{ℕ, Option, none, some, ◌++◌, if◌then◌else◌, Text, codes}
use bab_takehome.Commitments.Tree.{is_bytes32}
use bab_takehome.Deliberation.Types.{VerdictLabel, uphold, reject}
use bab_takehome.JurorProcess.Store.{
  RoundRecord, JurorStore, round_record, put_round, ensure_round, update_round,
}

abbrev pub verdict_code : VerdictLabel → ℕ
verdict_code uphold = 1
verdict_code reject = 2

-- `keccak256` of the ABI encoding of the dispute, the round, the code, the salt and the juror.
abbrev pub VoteHash : Type 0
VoteHash = ℕ → ℕ → ℕ → Text → Text → Text

-- `none`: the salt is no bytes32.
unfoldable pub commitment_of : VoteHash → ℕ → ℕ → VerdictLabel → Text → Text → Option Text
commitment_of hash id round verdict salt juror =
    if is_bytes32 salt then some (hash id round (verdict_code verdict) salt juror) else none

pub record Secret : Type 0 where
  pub verdict : VerdictLabel
  pub salt : Text
  pub commitment : Text

-- The secret of a record, when it has all of it. The code tests the texts for being there and not
-- empty; the texts of a record that this process wrote are not.
abbrev pub secret_from : Option VerdictLabel → Option Text → Option Text → Option Secret
secret_from (some v) (some s) (some c) = some (record { verdict = v; salt = s; commitment = c })
secret_from none s c = none
secret_from (some v) none c = none
secret_from (some v) (some s) none = none

abbrev pub secret_of : RoundRecord → Option Secret
secret_of r = secret_from r.verdict r.salt r.commitment

-- `newSalt` on the hexadecimal digits of 32 random bytes.
abbrev pub new_salt : Text → Text
new_salt random = codes "0x" ++ random

abbrev pub with_salt : VerdictLabel → Text → RoundRecord → RoundRecord
with_salt verdict salt r = record r { verdict = some verdict; salt = some salt }

abbrev pub with_secret : Secret → RoundRecord → RoundRecord
with_secret s r = record r {
  verdict = some s.verdict;
  salt = some s.salt;
  commitment = some s.commitment;
}

-- The function that `prepareCommit` passes to `update`: where it throws, the verdict and the salt
-- stay in memory and nothing is saved.
abbrev pub fix_secret :
    ℕ → ℕ → VerdictLabel → Text → Option Text → JurorStore → JurorStore × Option Secret
fix_secret id round verdict salt none st =
    (put_round id round (with_salt verdict salt (round_record id round st)) st, none)
fix_secret id round verdict salt (some c) st =
    let s : Secret = record { verdict = verdict; salt = salt; commitment = c } in
    (update_round id round (with_secret s) st, some s)

abbrev pub kept_or_fixed :
    VoteHash
    → ℕ
    → ℕ
    → VerdictLabel
    → Text
    → Text
    → Option Secret
    → JurorStore
    → JurorStore × Option Secret
kept_or_fixed hash id round verdict juror random (some s) st = (st, some s)
kept_or_fixed hash id round verdict juror random none st =
    fix_secret id round verdict (new_salt random)
      (commitment_of hash id round verdict (new_salt random) juror) st

-- The store after `prepareCommit`, with the secret, or none where it throws.
unfoldable pub prepare_commit :
    VoteHash → ℕ → ℕ → VerdictLabel → Text → Text → JurorStore → JurorStore × Option Secret
prepare_commit hash id round verdict juror random st =
    let ready = ensure_round id round st in
    kept_or_fixed hash id round verdict juror random (secret_of (round_record id round ready)) ready

-- `prepareCommit` where the write of the file by `update` fails: what the function sets stays in
-- memory, the file is as it was, and the call throws.
abbrev pub unsaved_secret : ℕ → ℕ → VerdictLabel → Text → Option Text → JurorStore → JurorStore
unsaved_secret id round verdict salt none st =
    put_round id round (with_salt verdict salt (round_record id round st)) st
unsaved_secret id round verdict salt (some c) st =
    put_round id round
      (with_secret (record { verdict = verdict; salt = salt; commitment = c })
        (round_record id round st))
      st

abbrev pub kept_or_unsaved :
    VoteHash
    → ℕ
    → ℕ
    → VerdictLabel
    → Text
    → Text
    → Option Secret
    → JurorStore
    → JurorStore × Option Secret
kept_or_unsaved hash id round verdict juror random (some s) st = (st, some s)
kept_or_unsaved hash id round verdict juror random none st = (
  unsaved_secret id round verdict (new_salt random)
      (commitment_of hash id round verdict (new_salt random) juror) st,
  none,
)

unfoldable pub prepare_commit_unsaved :
    VoteHash → ℕ → ℕ → VerdictLabel → Text → Text → JurorStore → JurorStore × Option Secret
prepare_commit_unsaved hash id round verdict juror random st =
    let ready = ensure_round id round st in
    kept_or_unsaved hash id round verdict juror random (secret_of (round_record id round ready))
      ready
