-- ===== src/JurorProcess/Book.antt =====
-- `prepareCommit`: a vote is written once.
use bab_takehome.Base.{ℕ, ◌≡◌, refl, ap, true, Option, none, some, arith, Text}
use bab_takehome.Commitments.Tree.{is_bytes32}
use bab_takehome.Deliberation.Types.{VerdictLabel}
use bab_takehome.JurorProcess.Store.{
  JurorStore, dep, round_record, put_round, ensure_round, update_round,
}
use bab_takehome.JurorProcess.Commit.{
  VoteHash, verdict_code, commitment_of, Secret, secret_of, new_salt, with_secret, fix_secret,
  kept_or_fixed, prepare_commit,
}
use bab_takehome.JurorProcess.Frames.{HasSecret}
use bab_takehome.JurorProcess.Secrets.{
  IsFixed, IsSaved, Keeps, Keeps-refl, Keeps-trans, ensure_round-Keeps, update_round-Keeps,
  round_record-put_round,
}

-- The secret that is given is the round's, in memory and on disk.
abbrev pub GivesFixed : ℕ → ℕ → JurorStore × Option Secret → Type 0
GivesFixed id round (st, o) = (s : Secret) × (o ≡ some s) × IsFixed id round s st

abbrev IsPrepared : ℕ → ℕ → JurorStore → JurorStore × Option Secret → Type 0
IsPrepared id round st res = Keeps st (res.0) × GivesFixed id round res

update_round-secret :
    (id round : ℕ) (s : Secret) (st : JurorStore)
    → IsFixed id round s (update_round id round (with_secret s) st)
unfolding update_round
update_round-secret id round s st =
    let rec = with_secret s (round_record id round st) in
    let m : HasSecret id round s (dep (put_round id round rec st)) =
      ap secret_of (round_record-put_round id round rec st) in
    (m, ((put_round id round rec st).state, refl, m))

fix_secret-IsPrepared :
    (id round : ℕ) (verdict : VerdictLabel) (salt : Text) (o : Option Text) (c : Text)
    (st : JurorStore)
    → o ≡ some c
    → secret_of (round_record id round st) ≡ none
    → IsPrepared id round st (fix_secret id round verdict salt o st)
fix_secret-IsPrepared id round verdict salt none c st h fresh = absurd (ground arith)
fix_secret-IsPrepared id round verdict salt (some d) c st h fresh =
    let s : Secret = record { verdict = verdict; salt = salt; commitment = d } in
    (
      update_round-Keeps id round (with_secret s) st (λ t m. absurd (ground (arith, fresh, m))),
      (s, refl, update_round-secret id round s st),
    )

pub commitment_of-some :
    (hash : VoteHash) (id round : ℕ) (verdict : VerdictLabel) (salt juror : Text)
    → is_bytes32 salt ≡ true
    → commitment_of hash id round verdict salt juror
      ≡ some (hash id round (verdict_code verdict) salt juror)
unfolding commitment_of
commitment_of-some hash id round verdict salt juror h = rw h refl

kept_or_fixed-IsPrepared :
    (hash : VoteHash) (id round : ℕ) (verdict : VerdictLabel) (juror random : Text)
    (o : Option Secret) (st : JurorStore)
    → is_bytes32 (new_salt random) ≡ true
    → IsSaved st
    → secret_of (round_record id round st) ≡ o
    → IsPrepared id round st (kept_or_fixed hash id round verdict juror random o st)
kept_or_fixed-IsPrepared hash id round verdict juror random (some s) st salted saved h =
    (Keeps-refl st, (s, refl, saved id round s h))
kept_or_fixed-IsPrepared hash id round verdict juror random none st salted saved h =
    fix_secret-IsPrepared id round verdict (new_salt random)
      (commitment_of hash id round verdict (new_salt random) juror)
      (hash id round (verdict_code verdict) (new_salt random) juror) st
      (commitment_of-some hash id round verdict (new_salt random) juror salted) h

-- When the random digits are those of 32 bytes and the file has every secret of memory,
-- `prepareCommit` gives a secret that memory and the file both have, and leaves the key, every
-- secret that both had before, and that the file has every secret of memory.
pub prepare_commit-IsFixed :
    (hash : VoteHash) (id round : ℕ) (verdict : VerdictLabel) (juror random : Text)
    (st : JurorStore)
    → is_bytes32 (new_salt random) ≡ true
    → IsSaved st
    → Keeps st (prepare_commit hash id round verdict juror random st).0
      × GivesFixed id round (prepare_commit hash id round verdict juror random st)
unfolding prepare_commit
prepare_commit-IsFixed hash id round verdict juror random st salted saved =
    let ready = ensure_round id round st in
    let (k, f, g) = ensure_round-Keeps id round st in
    let (keeps, gives) =
      kept_or_fixed-IsPrepared hash id round verdict juror random _ ready salted (g saved) refl in
    let o = secret_of (round_record id round ready) in
    (
      Keeps-trans st ready (kept_or_fixed hash id round verdict juror random o ready).0 (k, f, g)
          keeps,
      gives,
    )

-- Once a secret is in memory and in the file, every later `prepareCommit` of its round gives that
-- same secret, whatever the verdict and the random digits are by then.
pub prepare_commit_fixed :
    (hash : VoteHash) (id round : ℕ) (verdict : VerdictLabel) (juror random : Text) (s : Secret)
    (st : JurorStore)
    → IsFixed id round s st
    → (prepare_commit hash id round verdict juror random st).1 ≡ some s
unfolding prepare_commit
prepare_commit_fixed hash id round verdict juror random s st h =
    let ready = ensure_round id round st in
    let (_, f, _) = ensure_round-Keeps id round st in
    ap (λ o. (kept_or_fixed hash id round verdict juror random o ready).1) ((f id round s h).0)
