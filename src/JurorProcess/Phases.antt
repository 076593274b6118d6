-- ===== src/JurorProcess/Phases.antt =====
-- services/jurors/src/juror.ts: the phases of a vote and the end of a job.
use bab_takehome.Base.{
  ℕ, ◌-◌, Bool, true, ◌||◌, not, Option, none, some, [], ◌∷◌, ◌++◌, any, keep, get_or, is_some,
  if◌then◌else◌, ltb, Text, codes, text_eq, show, lookup, insert,
}
use bab_takehome.Deliberation.Types.{VerdictLabel, Decision}
use bab_takehome.Publication.Document.{Vote, build_rationale_doc}
use bab_takehome.Publication.Upload.{Published, publish_rationale}
use bab_takehome.JurorProcess.Store.{
  RoundRecord, JurorStore, round_record, ensure_round, update_round,
}
use bab_takehome.JurorProcess.Commit.{Secret, verdict_code, commitment_of, prepare_commit}
use bab_takehome.JurorProcess.Market.{
  SeatView, commit_vote, reveal_vote, Process, TickIo, Ran, done, threw, send,
}

-- `store.update(...)` and `store.round(...)` of the process.
abbrev pub on_store : (JurorStore → JurorStore) → Process → Process
on_store change p = record p { store = change p.store }

abbrev pub on_round : ℕ → ℕ → (RoundRecord → RoundRecord) → Process → Process
on_round id round change p = on_store (update_round id round change) p

abbrev pub job_key : ℕ → ℕ → Text
job_key id round = show id ++ codes ":" ++ show round

abbrev pub is_pending : Text → Process → Bool
is_pending key p = any (λ k. text_eq k key) p.pending

abbrev pub last_try_of : Text → Process → ℕ
last_try_of key p = get_or (lookup key p.last_try) 0

-- The part of `commitPhase` without a decision: a job is started.
unfoldable pub start_job : TickIo → Text → Process → Process
start_job io key p =
    if is_pending key p || ltb (io.now_ms - last_try_of key p) io.evidence_retry_ms
    then p
    else record p { last_try = insert key io.now_ms p.last_try; pending = p.pending ++ key ∷ [] }

abbrev pub decided_verdict : Option Decision → Option VerdictLabel
decided_verdict none = none
decided_verdict (some d) = some d.output.verdict

-- `rr.verdict ?? rr.decision!.output.verdict`, none without either.
abbrev pub vote_of : RoundRecord → Option VerdictLabel
vote_of rr = elim rr.verdict [ none ↦ decided_verdict rr.decision | some v ↦ some v ]

abbrev pub send_commit : TickIo → ℕ → ℕ → Secret → Process → Ran
send_commit io id round secret p =
    send io (commit_vote id round secret.commitment)
      (λ h p. on_round id round (λ rr. record rr { commit_tx = some h }) p)
      (λ h p. done (on_round id round (λ rr. record rr { commit_confirmed = some true }) p)) p

abbrev pub after_prepare : TickIo → ℕ → ℕ → Process → JurorStore × Option Secret → Ran
after_prepare io id round p (st, none) = threw (record p { store = st })
after_prepare io id round p (st, some secret) =
    send_commit io id round secret (record p { store = st })

abbrev pub commit_with : TickIo → ℕ → ℕ → Option VerdictLabel → Process → Ran
commit_with io id round none p = done (start_job io (job_key id round) p)
commit_with io id round (some verdict) p =
    after_prepare io id round p
      (prepare_commit io.hash id round verdict io.me (io.random id round) p.store)

unfoldable pub commit_phase : TickIo → ℕ → ℕ → Process → Ran
commit_phase io id round p =
    let p = on_store (ensure_round id round) p in
    commit_with io id round (vote_of (round_record id round p.store)) p

-- The end of `makeDecision`: none when there is no evidence yet.
abbrev pub without_job : Text → Process → Process
without_job key p = record p { pending = keep (λ k. not (text_eq k key)) p.pending }

abbrev pub keep_decision : ℕ → ℕ → Decision → JurorStore → JurorStore
keep_decision id round d st =
    if is_some (vote_of (round_record id round st))
    then st
    else update_round id round (λ rr. record rr { decision = some d }) st

unfoldable pub finish_job : ℕ → ℕ → Option Decision → Process → Process
finish_job id round none p = without_job (job_key id round) p
finish_job id round (some d) p =
    without_job (job_key id round)
      (on_store (λ st. keep_decision id round d (ensure_round id round st)) p)

abbrev pub vote_record : TickIo → ℕ → ℕ → Decision → VerdictLabel → Text → Option Text → Vote
vote_record io id round d v c tx = record {
  chain_id = io.chain_id;
  market = io.market;
  dispute_id = id;
  round = round;
  juror = io.me;
  decision = d;
  verdict = v;
  commitment = c;
  reveal_tx = get_or tx (codes "0x");
}

abbrev pub published : TickIo → Vote → Published
published io v =
    (publish_rationale io.upload (record {
      data_dir = io.data_dir;
      tee_url = io.tee_url;
      doc = build_rationale_doc v io.time;
      sign = some io.sign;
    })).0

abbrev pub publish_round :
    TickIo
    → ℕ
    → ℕ
    → RoundRecord
    → Option Decision
    → Option VerdictLabel
    → Option Text
    → Option Published
    → Process
    → Process
publish_round io id round rr (some d) (some v) (some c) none p =
    on_round id round
      (λ rr'. record rr' {
        rationale_published = some (published io (vote_record io id round d v c rr.reveal_tx));
      })
      p
publish_round io id round rr _ _ _ _ p = p

unfoldable pub maybe_publish : TickIo → ℕ → ℕ → Process → Process
maybe_publish io id round p =
    let p = on_store (ensure_round id round) p in
    let rr = round_record id round p.store in
    publish_round io id round rr rr.decision rr.verdict rr.commitment rr.rationale_published p

abbrev pub send_reveal : TickIo → ℕ → ℕ → VerdictLabel → Text → Process → Ran
send_reveal io id round verdict salt p =
    send io (reveal_vote id round (verdict_code verdict) salt)
      (λ h p. on_round id round (λ rr. record rr { reveal_tx = some h }) p)
      (λ h p. done (
        maybe_publish io id round
          (on_round id round (λ rr. record rr { reveal_confirmed = some true }) p)))
      p

abbrev pub check_reveal :
    TickIo → ℕ → ℕ → SeatView → VerdictLabel → Text → Option Text → Process → Ran
check_reveal io id round seat verdict salt none p = threw p
check_reveal io id round seat verdict salt (some expect) p =
    if text_eq expect seat.commitment then send_reveal io id round verdict salt p else done p

abbrev pub reveal_with :
    TickIo → ℕ → ℕ → SeatView → Option Text → Option VerdictLabel → Process → Ran
reveal_with io id round seat (some salt) (some verdict) p =
    check_reveal io id round seat verdict salt (commitment_of io.hash id round verdict salt io.me) p
reveal_with io id round seat none verdict p = done p
reveal_with io id round seat (some salt) none p = done p

unfoldable pub reveal_phase : TickIo → ℕ → ℕ → SeatView → Process → Ran
reveal_phase io id round seat p =
    let p = on_store (ensure_round id round) p in
    let rr = round_record id round p.store in reveal_with io id round seat rr.salt rr.verdict p
