-- ===== src/JurorProcess/Unsaved.antt =====
-- services/jurors/src/commit.ts: `prepareCommit` where the write of the state file fails, and the call
-- after it.
use bab_takehome.Base.{
  ℕ, ◌≡◌, refl, sym, ap, subst, ◌∙◌, true, false, Bool, Option, none, some, arith, get_or, is_some,
  if◌then◌else◌, Text, show, lookup, insert, lookup-insert_self,
}
use bab_takehome.Commitments.Tree.{is_bytes32}
use bab_takehome.Deliberation.Types.{VerdictLabel}
use bab_takehome.JurorProcess.Store.{
  RoundRecord, DisputeRecord, JurorStore, dep, dispute, dispute_in, dispute_or_new, new_dispute,
  new_round, put_dispute, round_record, put_round, save, ensure_dispute, ensure_round,
}
use bab_takehome.JurorProcess.Commit.{
  VoteHash, Secret, secret_of, new_salt, with_secret, kept_or_fixed, kept_or_unsaved,
  unsaved_secret, prepare_commit, prepare_commit_unsaved,
}
use bab_takehome.JurorProcess.Frames.{dep-with_dep, insert_round}
use bab_takehome.JurorProcess.Secrets.{round_record-put_round, ensure_round-secret}
use bab_takehome.JurorProcess.Book.{commitment_of-some}
use bab_takehome.JurorProcess.Refines.{book_of, fresh_secret}

dispute-put_dispute :
    (id : ℕ) (rec : DisputeRecord) (st : JurorStore) → dispute id (put_dispute id rec st) ≡ some rec
dispute-put_dispute id rec st =
    ap (dispute_in id)
      (dep-with_dep (record (dep st) { disputes = insert (show id) rec (dep st).disputes }) st)
    ∙ lookup-insert_self (show id) rec (dep st).disputes

if-true : (b : Bool) (x y : JurorStore) → b ≡ true → (if b then x else y) ≡ x
if-true true x y h = refl
if-true false x y h = absurd (ground arith)

-- A round that was put is there.
ensure_round-put_round :
    (id r : ℕ) (rec : RoundRecord) (st : JurorStore)
    → ensure_round id r (put_round id r rec st) ≡ put_round id r rec st
unfolding ensure_round ensure_dispute
ensure_round-put_round id r rec st =
    let x = insert_round r rec (dispute_or_new id st) in
    let p = put_round id r rec st in
    let there : dispute id p ≡ some x = dispute-put_dispute id x st in
    let found : is_some (lookup (show r) (dispute_or_new id p).rounds) ≡ true =
      ap
        (λ (o : Option DisputeRecord).
          is_some (lookup (show r) (get_or o (new_dispute id none none)).rounds))
        there
      ∙ ap is_some (lookup-insert_self (show r) rec (dispute_or_new id st).rounds) in
    ap
      (λ (t : JurorStore).
        if is_some (lookup (show r) (dispute_or_new id t).rounds)
        then t
        else put_round id r (new_round r) t)
      (if-true (is_some (dispute id p)) p (save (put_dispute id (new_dispute id none none) p))
        (ap is_some there))
    ∙ if-true (is_some (lookup (show r) (dispute_or_new id p).rounds)) p
        (put_round id r (new_round r) p) found

-- Both calls one after the other, when the first one's write fails: it throws and leaves the file as
-- it is after the records of the round were made; the second one, whose write would succeed, gives the
-- secret that the first made, from memory, and leaves the file as it was too.
abbrev pub IsUnsaved :
    VoteHash
    → ℕ
    → ℕ
    → Text
    → Secret
    → JurorStore
    → VerdictLabel
    → Text
    → JurorStore × Option Secret
    → Type 0
IsUnsaved hash id r juror s st verdict random (failed, thrown) =
    (thrown ≡ none)
    × (failed.file ≡ (ensure_round id r st).file)
    × ((prepare_commit hash id r verdict juror random failed).1 ≡ some s)
    × (((prepare_commit hash id r verdict juror random failed).0).file ≡ failed.file)

given_again :
    (hash : VoteHash) (id r : ℕ) (verdict : VerdictLabel) (juror random : Text) (s : Secret)
    (st : JurorStore)
    → prepare_commit hash id r verdict juror random
        (put_round id r (with_secret s (round_record id r st)) st)
      ≡ (put_round id r (with_secret s (round_record id r st)) st, some s)
unfolding prepare_commit
given_again hash id r verdict juror random s st =
    let failed = put_round id r (with_secret s (round_record id r st)) st in
    let there = ensure_round-put_round id r (with_secret s (round_record id r st)) st in
    let same = round_record-put_round id r (with_secret s (round_record id r st)) st in
    ap
      (λ (t : JurorStore).
        kept_or_fixed hash id r verdict juror random (secret_of (round_record id r t)) t)
      there
    ∙ ap (λ (x : RoundRecord). kept_or_fixed hash id r verdict juror random (secret_of x) failed)
        same

kept_or_unsaved-IsUnsaved :
    (hash : VoteHash) (id r : ℕ) (v w : VerdictLabel) (juror random next : Text)
    (st ready : JurorStore)
    → is_bytes32 (new_salt random) ≡ true
    → ensure_round id r st ≡ ready
    → IsUnsaved hash id r juror
        (fresh_secret hash id r v juror random)
        st
        w
        next
        (kept_or_unsaved hash id r v juror random none ready)
kept_or_unsaved-IsUnsaved hash id r v w juror random next st ready salted e =
    let s = fresh_secret hash id r v juror random in
    let again = given_again hash id r w juror next s ready in
    subst
      (λ (c : Option Text).
        IsUnsaved hash id r juror s st w next
          (unsaved_secret id r v (new_salt random) c ready, none))
      (sym (commitment_of-some hash id r v (new_salt random) juror salted))
      (
        refl,
        ap (λ (t : JurorStore). t.file) (sym e),
        ap (λ (t : JurorStore × Option Secret). t.1) again,
        ap (λ (t : JurorStore × Option Secret). (t.0).file) again,
      )

-- Where the write of `prepareCommit` fails for a round without a secret, and the random digits are
-- those of 32 bytes: the call throws, and the file is as it was once the records of the round were
-- made. The next call of the round, whatever its verdict and random digits and although its own write
-- would not fail, gives the secret that the failed call made, and still leaves the file as it was.
pub prepare_commit_unsaved-IsUnsaved :
    (hash : VoteHash) (id r : ℕ) (v w : VerdictLabel) (juror random next : Text) (st : JurorStore)
    → is_bytes32 (new_salt random) ≡ true
    → book_of st id r ≡ none
    → IsUnsaved hash id r juror
        (fresh_secret hash id r v juror random)
        st
        w
        next
        (prepare_commit_unsaved hash id r v juror random st)
unfolding prepare_commit_unsaved
prepare_commit_unsaved-IsUnsaved hash id r v w juror random next st salted fresh =
    let ready = ensure_round id r st in
    let none_yet : secret_of (round_record id r ready) ≡ none =
      ensure_round-secret (λ o. o ≡ none) id r id r st fresh in
    subst
      (λ (o : Option Secret).
        IsUnsaved hash id r juror (fresh_secret hash id r v juror random) st w next
          (kept_or_unsaved hash id r v juror random o ready))
      (sym none_yet)
      (kept_or_unsaved-IsUnsaved hash id r v w juror random next st ready salted refl)
