-- ===== src/JurorProcess/Steps.antt =====
-- The steps of a juror's process, up to that of one dispute.
use bab_takehome.Base.{
  ℕ, ◌≡◌, refl, sym, subst, Bool, true, ◌&&◌, not, Option, none, some, List, [], ◌∷◌, arith,
  if◌then◌else◌, leb, ◌==◌, length, some-injective, Text, text_eq,
}
use bab_takehome.Commitments.Tree.{is_bytes32}
use bab_takehome.Jurors.Types.{
  ground_false_description, status_awaiting_selection, status_voting, status_resolved,
}
use bab_takehome.Deliberation.Types.{VerdictLabel}
use bab_takehome.JurorProcess.Store.{JurorStore, round_record, ensure_round, update_dispute}
use bab_takehome.JurorProcess.Commit.{Secret, new_salt, verdict_code, commitment_of}
use bab_takehome.JurorProcess.Market.{
  DisputeView, SeatView, Tx, commit_vote, reveal_vote, select_jurors, tally_dispute, withdraw,
  Process, TickIo, Ran, done, threw, and_then, send,
}
use bab_takehome.JurorProcess.Phases.{
  on_store, on_round, job_key, vote_of, send_commit, after_prepare, commit_with, commit_phase,
  maybe_publish, send_reveal, check_reveal, reveal_with, reveal_phase,
}
use bab_takehome.JurorProcess.Tick.{
  withdraw_with, my_rounds, publish_rounds, final_verdict, on_resolved, Head, keep_selecting,
  is_committed, panel, my_seat, vote_phase, keep_tallying, drive_voting, drive_seen,
}
use bab_takehome.JurorProcess.Secrets.{IsFixed, IsSaved, Keeps, ensure_round-Keeps}
use bab_takehome.JurorProcess.Book.{GivesFixed, prepare_commit-IsFixed}
use bab_takehome.JurorProcess.Durable.{
  IsDurableTx, Extends, Extends-refl, Extends-trans, on_store-Extends, Goes, Goes-trans, if-Goes,
  send-Goes, on_round-Extends, on_dispute-Extends, ensure_round-Extends, start_job-Extends,
  maybe_publish-Extends,
}

-- The random digits of a tick are those of 32 bytes.
abbrev pub IsRandom : TickIo → Type 0
IsRandom io = (id r : ℕ) → is_bytes32 (new_salt (io.random id r)) ≡ true

after_prepare-Goes :
    (io : TickIo) (id r : ℕ) (p : Process) (res : JurorStore × Option Secret)
    → Keeps p.store (res.0)
    → GivesFixed id r res
    → Goes p (after_prepare io id r p res)
after_prepare-Goes io id r p (st, none) k (s, e, h) = absurd (ground arith)
after_prepare-Goes io id r p (st, some t) k (s, e, h) =
    let fixed : IsFixed id r t st =
      subst (λ (u : Secret). IsFixed id r u st) (sym (some-injective t s e)) h in
    Goes-trans p (record p { store = st }) (send_commit io id r t (record p { store = st }))
      (on_store-Extends (λ _. st) p k)
      (send-Goes io (commit_vote id r t.commitment) _ _ (record p { store = st })
        (t, refl, fixed, fixed) (λ h q. on_round-Extends id r _ q (λ rr. refl))
        (λ h q. on_round-Extends id r _ q (λ rr. refl)))

commit_with-Goes :
    (io : TickIo) (id r : ℕ) (v : Option VerdictLabel) (p : Process)
    → IsRandom io
    → IsSaved p.store
    → Goes p (commit_with io id r v p)
commit_with-Goes io id r none p random saved = start_job-Extends io (job_key id r) p
commit_with-Goes io id r (some v) p random saved =
    let (k, g) =
      prepare_commit-IsFixed io.hash id r v io.me (io.random id r) p.store (random id r) saved in
    after_prepare-Goes io id r p _ k g

commit_phase-Goes :
    (io : TickIo) (id r : ℕ) (p : Process)
    → IsRandom io
    → IsSaved p.store
    → Goes p (commit_phase io id r p)
unfolding commit_phase
commit_phase-Goes io id r p random saved =
    let q = on_store (ensure_round id r) p in
    let e = ensure_round-Extends id r p in
    let v = vote_of (round_record id r q.store) in
    Goes-trans p q (commit_with io id r v q) e
      (commit_with-Goes io id r v q random ((ensure_round-Keeps id r p.store).2 saved))

reveal_with-Goes :
    (io : TickIo) (id r : ℕ) (seat : SeatView) (salt : Option Text) (v : Option VerdictLabel)
    (p : Process)
    → Goes p (reveal_with io id r seat salt v p)
reveal_with-Goes io id r seat none v p = Extends-refl p
reveal_with-Goes io id r seat (some salt) none p = Extends-refl p
reveal_with-Goes io id r seat (some salt) (some v) p =
    checked (commitment_of io.hash id r v salt io.me)
  where
    sent : Goes p (send_reveal io id r v salt p)
    sent =
        send-Goes io (reveal_vote id r (verdict_code v) salt) _ _ p tt
          (λ h q. on_round-Extends id r _ q (λ rr. refl))
          (λ h q.
            Extends-trans q (on_round id r (λ rr. record rr { reveal_confirmed = some true }) q)
              (maybe_publish io id r
                (on_round id r (λ rr. record rr { reveal_confirmed = some true }) q))
              (on_round-Extends id r _ q (λ rr. refl))
              (maybe_publish-Extends io id r
                (on_round id r (λ rr. record rr { reveal_confirmed = some true }) q)))

    checked : (o : Option Text) → Goes p (check_reveal io id r seat v salt o p)
    checked none = Extends-refl p
    checked (some expect) =
        if-Goes p (text_eq expect seat.commitment) (send_reveal io id r v salt p) (done p) sent
          (Extends-refl p)

reveal_phase-Goes :
    (io : TickIo) (id r : ℕ) (seat : SeatView) (p : Process) → Goes p (reveal_phase io id r seat p)
unfolding reveal_phase
reveal_phase-Goes io id r seat p =
    let q = on_store (ensure_round id r) p in
    let rr = round_record id r q.store in
    Goes-trans p q (reveal_with io id r seat rr.salt rr.verdict q) (ensure_round-Extends id r p)
      (reveal_with-Goes io id r seat rr.salt rr.verdict q)

withdraw_with-Goes :
    (io : TickIo) (id : ℕ) (o : Option ℕ) (p : Process) → Goes p (withdraw_with io id o p)
withdraw_with-Goes io id none p = Extends-refl p
withdraw_with-Goes io id (some b) p = if-Goes p (b == 0) (done p) _ (Extends-refl p) (
    send-Goes io withdraw _ _ p tt (λ h q. Extends-refl q)
      (λ h q. on_dispute-Extends id _ q (λ x. refl)))

publish_rounds-Extends :
    (io : TickIo) (id : ℕ) (rs : List ℕ) (p : Process) → Extends p (publish_rounds io id rs p)
unfolding publish_rounds
publish_rounds-Extends io id [] p = Extends-refl p
publish_rounds-Extends io id (r ∷ rs) p =
    Extends-trans p (maybe_publish io id r p) (publish_rounds io id rs (maybe_publish io id r p))
      (maybe_publish-Extends io id r p) (publish_rounds-Extends io id rs (maybe_publish io id r p))

on_resolved-Goes :
    (io : TickIo) (id : ℕ) (d : DisputeView) (seats : List SeatView) (p : Process)
    → Goes p (on_resolved io id d seats p)
unfolding on_resolved
on_resolved-Goes io id d seats p =
    let mine = my_rounds io 0 seats in
    let q = publish_rounds io id mine p in
    let r =
      on_store
        (update_dispute id
          (λ rec. record rec { resolved = some true; final_verdict = some (final_verdict d) }))
        q in
    Goes-trans p r
      (if io.auto_withdraw && not (length mine == 0)
        then withdraw_with io id io.claimable r
        else done r)
      (Extends-trans p q r (publish_rounds-Extends io id mine p)
        (on_dispute-Extends id _ q (λ x. refl)))
      (if-Goes r (io.auto_withdraw && not (length mine == 0)) (withdraw_with io id io.claimable r)
        (done r) (withdraw_with-Goes io id io.claimable r) (Extends-refl r))

vote_phase-Goes :
    (io : TickIo) (id : ℕ) (head : Head) (d : DisputeView) (seats : List SeatView)
    (o : Option SeatView) (p : Process)
    → IsRandom io
    → IsSaved p.store
    → Goes p (vote_phase io id head d seats o p)
vote_phase-Goes io id head d seats none p random saved = Extends-refl p
vote_phase-Goes io id head d seats (some seat) p random saved =
    if-Goes p (not (is_committed seat)) _ _
      (if-Goes p (leb head.timestamp d.commit_deadline) (commit_phase io id d.round p) (done p)
        (commit_phase-Goes io id d.round p random saved) (Extends-refl p))
      (if-Goes p (not seat.revealed) _ (done (maybe_publish io id d.round p))
        (if-Goes p _ (reveal_phase io id d.round seat p) (done p)
          (reveal_phase-Goes io id d.round seat p) (Extends-refl p))
        (maybe_publish-Extends io id d.round p))

pub and_then-Goes :
    (p : Process) (ran : Ran) (k : Process → Ran)
    → Goes p ran
    → ((q : Process) → Goes q (k q))
    → Goes p (and_then ran k)
and_then-Goes p (done q) k h l = Goes-trans p q (k q) h (l q)
and_then-Goes p (threw q) k h l = h

keeper-Goes :
    (io : TickIo) (b : Bool) (tx : Tx) (p : Process)
    → IsDurableTx p.store p.store tx
    → Goes p (if b then send io tx (λ h p. p) (λ h p. done p) p else done p)
keeper-Goes io b tx p durable =
    if-Goes p b (send io tx (λ h p. p) (λ h p. done p) p) (done p)
      (send-Goes io tx (λ h p. p) (λ h p. done p) p durable (λ h q. Extends-refl q)
        (λ h q. Extends-refl q))
      (Extends-refl p)

pub drive_seen-Goes :
    (io : TickIo) (id : ℕ) (head : Head) (o : Option (DisputeView × List SeatView)) (p : Process)
    → IsRandom io
    → IsSaved p.store
    → Goes p (drive_seen io id head o p)
drive_seen-Goes io id head none p random saved = Extends-refl p
drive_seen-Goes io id head (some (d, seats)) p random saved =
    if-Goes p (not (d.ground == ground_false_description)) _ _
      (on_dispute-Extends id _ p (λ x. refl))
      (if-Goes p (d.status == status_resolved) (on_resolved io id d seats p) _
        (on_resolved-Goes io id d seats p)
        (if-Goes p (d.status == status_awaiting_selection) (keep_selecting io id head d p) _
          (keeper-Goes io _ (select_jurors id) p tt)
          (if-Goes p (d.status == status_voting) (drive_voting io id head d (panel d.round seats) p)
            (done p)
            (and_then-Goes p
              (vote_phase io id head d (panel d.round seats) (my_seat io (panel d.round seats)) p)
              (keep_tallying io id head d (panel d.round seats))
              (vote_phase-Goes io id head d (panel d.round seats) _ p random saved)
              (λ q. keeper-Goes io _ (tally_dispute id) q tt))
            (Extends-refl p))))
