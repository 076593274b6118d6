-- ===== src/JurorProcess/Reveal.antt =====
-- What `revealPhase` sends, and how far `scanLogs` comes.
use bab_takehome.Base.{
  ℕ, zero, suc, ◌+◌, ◌-◌, ◌≤◌, ◌≡◌, refl, ap, ◌∙◌, ◌⊎◌, inl, inr, Bool, true, false, ◌&&◌, not,
  Option, none, some, List, [], ◌∷◌, ◌++◌, arith, leb, Bool-cases, Text, text_eq, text_eq_iff,
}
use bab_takehome.Deliberation.Types.{VerdictLabel, Decision}
use bab_takehome.Publication.Upload.{Published}
use bab_takehome.JurorProcess.Store.{
  RoundRecord, DeploymentState, JurorStore, cursor, dep, set_cursor, round_record, ensure_round,
}
use bab_takehome.JurorProcess.Commit.{verdict_code, commitment_of}
use bab_takehome.JurorProcess.Market.{
  SeatView, Tx, reveal_vote, Log, Sent, Process, TickIo, Ran, done, process_of, note_sent,
  after_receipt, after_write, send,
}
use bab_takehome.JurorProcess.Phases.{
  on_store, publish_round, maybe_publish, check_reveal, reveal_with, reveal_phase,
}
use bab_takehome.JurorProcess.Tick.{on_logs, range_end, after_range, scan_from, scan_logs}
use bab_takehome.JurorProcess.Frames.{dep-with_dep}

-- A call of `send` is noted once, when what is done after it sends nothing.
send-sent :
    (io : TickIo) (tx : Tx) (on_sent : Text → Process → Process) (on_ok : Text → Process → Ran)
    (p : Process)
    → ((h : Text) (q : Process) → (on_sent h q).sent ≡ q.sent)
    → ((h : Text) (q : Process) → (process_of (on_ok h q)).sent ≡ q.sent)
    → (process_of (send io tx on_sent on_ok p)).sent ≡ (note_sent tx p).sent
unfolding send
send-sent io tx on_sent on_ok p k l = elim (Bool-cases (io.simulate tx)) [
  | inl e ↦ rw e (written (io.write tx))
  | inr e ↦ rw e refl
]
  where
    waited :
        (h : Text) (o : Option Bool) (q : Process)
        → (process_of (after_receipt o (on_ok h) q)).sent ≡ q.sent
    waited h none q = refl
    waited h (some false) q = refl
    waited h (some true) q = l h q

    written :
        (o : Option Text)
        → (process_of (after_write io o on_sent on_ok (note_sent tx p))).sent
          ≡ (note_sent tx p).sent
    written none = refl
    written (some h) = waited h (io.receipt h) (on_sent h (note_sent tx p)) ∙ k h (note_sent tx p)

publish_round-sent :
    (io : TickIo) (id r : ℕ) (rr : RoundRecord) (d : Option Decision) (v : Option VerdictLabel)
    (c : Option Text) (x : Option Published) (p : Process)
    → (publish_round io id r rr d v c x p).sent ≡ p.sent
publish_round-sent io id r rr (some d) (some v) (some c) none p = refl
publish_round-sent io id r rr (some d) (some v) (some c) (some x) p = refl
publish_round-sent io id r rr (some d) (some v) none x p = refl
publish_round-sent io id r rr (some d) none c x p = refl
publish_round-sent io id r rr none v c x p = refl

maybe_publish-sent :
    (io : TickIo) (id r : ℕ) (p : Process) → (maybe_publish io id r p).sent ≡ p.sent
unfolding maybe_publish
maybe_publish-sent io id r p =
    let q = on_store (ensure_round id r) p in
    let rr = round_record id r q.store in
    publish_round-sent io id r rr rr.decision rr.verdict rr.commitment rr.rationale_published q

-- The persisted vote of a round, whose commitment is that of the seat on the chain.
abbrev pub IsOwnVote : TickIo → ℕ → ℕ → SeatView → RoundRecord → VerdictLabel → Text → Type 0
IsOwnVote io id r seat rr v salt =
    (rr.verdict ≡ some v)
    × (rr.salt ≡ some salt)
    × (commitment_of io.hash id r v salt io.me ≡ some seat.commitment)

-- Nothing is sent, or one reveal of the persisted vote.
abbrev pub RevealsOwnVote : TickIo → ℕ → ℕ → SeatView → RoundRecord → List Sent → Process → Type 0
RevealsOwnVote io id r seat rr before q =
    (q.sent ≡ before)
    ⊎ ((v : VerdictLabel) × (salt : Text) × (st : JurorStore) × IsOwnVote io id r seat rr v salt
        × (q.sent
            ≡ before ++ record { tx = reveal_vote id r (verdict_code v) salt; store = st } ∷ []))

reveal_with-own :
    (io : TickIo) (id r : ℕ) (seat : SeatView) (rr : RoundRecord) (p : Process) (salt : Option Text)
    (v : Option VerdictLabel)
    → rr.salt ≡ salt
    → rr.verdict ≡ v
    → RevealsOwnVote io id r seat rr p.sent (process_of (reveal_with io id r seat salt v p))
reveal_with-own io id r seat rr p none v a b = inl refl
reveal_with-own io id r seat rr p (some salt) none a b = inl refl
reveal_with-own io id r seat rr p (some salt) (some v) a b = checked _ refl
  where
    checked :
        (o : Option Text)
        → commitment_of io.hash id r v salt io.me ≡ o
        → RevealsOwnVote io id r seat rr p.sent (process_of (check_reveal io id r seat v salt o p))
    checked none c = inl refl
    checked (some expect) c = elim (Bool-cases (text_eq expect seat.commitment)) [
      | inl e ↦ rw e (
          inr (
            v,
            salt,
            p.store,
            (b, a, c ∙ ap some ((text_eq_iff _ _).0 e)),
            send-sent io (reveal_vote id r (verdict_code v) salt) _ _ p (λ h q. refl)
                (λ h q. maybe_publish-sent io id r _),
          ))
      | inr e ↦ rw e (inl refl)
    ]

-- In its reveal phase a juror sends nothing, or reveals once the verdict and the salt that its
-- store has for the dispute and the round, whose commitment is the one of its seat on the chain.
pub reveal_phase-RevealsOwnVote :
    (io : TickIo) (id r : ℕ) (seat : SeatView) (p : Process)
    → RevealsOwnVote io id r seat
        (round_record id r (ensure_round id r p.store))
        p.sent
        (process_of (reveal_phase io id r seat p))
unfolding reveal_phase
reveal_phase-RevealsOwnVote io id r seat p =
    let q = on_store (ensure_round id r) p in
    reveal_with-own io id r seat (round_record id r q.store) q _ _ refl refl

set_cursor_le : (b : ℕ) (st : JurorStore) → b ≤ cursor (set_cursor b st)
unfolding set_cursor
set_cursor_le b st = elim (Bool-cases (leb b (cursor st))) [
  | inl e ↦ rw e (ground arith)
  | inr e ↦ rw e (
      omega (
        arith,
        ap (λ (d : DeploymentState). d.cursor) (dep-with_dep (record (dep st) { cursor = b }) st),
      ))
]

after_range-done :
    (to : ℕ) (again : Process → Ran) (o : Option (List Log)) (p q : Process)
    → after_range to again o p ≡ done q
    → (logs : List Log) × (o ≡ some logs)
      × (again (on_store (λ st. set_cursor to (on_logs logs st)) p) ≡ done q)
after_range-done to again none p q h = absurd (ground arith)
after_range-done to again (some logs) p q h = (logs, refl, h)

done_process : (p q : Process) → ◌≡◌ {A = Ran} (done p) (done q) → p ≡ q
done_process p q h = ap process_of h

-- A scan has come to the head, or `stop` had been called when it came to a block after its cursor.
abbrev pub IsScanned : TickIo → ℕ → JurorStore → Type 0
IsScanned io head st =
    (head ≤ cursor st) ⊎ ((b : ℕ) × (b ≤ head) × (b ≤ cursor st + 1) × (io.stops_at_block b ≡ true))

scan_from-IsScanned :
    (io : TickIo) (f head from : ℕ) (p q : Process)
    → 1 ≤ io.log_range
    → 1 ≤ from
    → from ≤ cursor p.store + 1
    → head + 1 ≤ f + from
    → scan_from io f head from p ≡ done q
    → IsScanned io head q.store
unfolding scan_from
scan_from-IsScanned io zero head from p q range pos at fuel h =
    inl (omega (arith, ap (λ (x : Process). cursor x.store) (done_process p q h)))
scan_from-IsScanned io (suc f) head from p q range pos at fuel h =
    elim (Bool-cases (leb from head && not (io.stops_at_block from))) [
      | inr e ↦
          let same : p ≡ q = done_process p q (rw e at h) in
          let here = ap (λ (x : Process). cursor x.store) same in
          elim (Bool-cases (leb from head)) [
            | inl k ↦ inr (from, ground arith, omega (arith, here, at), ground (arith, e, k))
            | inr k ↦ inl (ground (arith, here))
          ]
      | inl e ↦
          let to = range_end io head from in
          let (logs, _, k) = after_range-done to (scan_from io f head (to + 1)) _ p q (rw e at h) in
          let reached : leb from head ≡ true = ground (arith, e) in
          let bounds : (from ≤ to) = ground arith in
          scan_from-IsScanned io f head (to + 1)
            (on_store (λ st. set_cursor to (on_logs logs st)) p) q range (omega arith)
            (omega (arith, set_cursor_le to (on_logs logs p.store))) (omega arith) k
    ]

-- Whenever a scan of the logs ends without an error, its cursor has come to the head, or `stop` had
-- been called when it came to a block up to the head and not past the one after the cursor, for
-- ranges of at least one block: the blocks that it takes as fuel are enough.
pub scan_logs-IsScanned :
    (io : TickIo) (head : ℕ) (p q : Process)
    → 1 ≤ io.log_range
    → scan_logs io head p ≡ done q
    → IsScanned io head q.store
unfolding scan_logs
scan_logs-IsScanned io head p q range h =
    scan_from-IsScanned io (head - cursor p.store) head (cursor p.store + 1) p q range (omega arith)
      (omega arith) (omega arith) h
