-- ===== src/JurorProcess/Durable.antt =====
-- The process under the steps that send a call or change a record.
use bab_takehome.Base.{
  ℕ, ◌-◌, ◌≡◌, refl, ◌∙◌, inl, inr, Bool, true, false, ◌||◌, Option, none, some, List, [], ◌∷◌,
  ◌++◌, All, All-append, All-map, if◌then◌else◌, ltb, Bool-cases, Text, Dict, insert,
}
use bab_takehome.Deliberation.Types.{VerdictLabel, Decision}
use bab_takehome.Publication.Upload.{Published}
use bab_takehome.JurorProcess.Store.{
  RoundRecord, DisputeRecord, JurorStore, round_record, ensure_round, update_round, update_dispute,
}
use bab_takehome.JurorProcess.Commit.{Secret, secret_of}
use bab_takehome.JurorProcess.Market.{
  Tx, commit_vote, reveal_vote, select_jurors, tally_dispute, withdraw, Sent, Process, TickIo, Ran,
  done, process_of, note_sent, after_receipt, after_write, send,
}
use bab_takehome.JurorProcess.Phases.{
  on_store, on_round, start_job, publish_round, maybe_publish, is_pending, last_try_of,
}
use bab_takehome.JurorProcess.Secrets.{
  IsFixed, Keeps, Keeps-refl, Keeps-trans, ensure_round-Keeps, update_round-Keeps,
  update_dispute-Keeps,
}

-- The commitment of a sent vote is one of a secret that was in memory and in the file when the call
-- was made, and that is in both now.
abbrev pub IsDurableTx : JurorStore → JurorStore → Tx → Type 0
IsDurableTx now sent (commit_vote id r c) =
    (s : Secret) × (s.commitment ≡ c) × IsFixed id r s sent × IsFixed id r s now
IsDurableTx now sent (reveal_vote id r code salt) = Unit
IsDurableTx now sent (select_jurors id) = Unit
IsDurableTx now sent (tally_dispute id) = Unit
IsDurableTx now sent withdraw = Unit

abbrev pub IsDurable : JurorStore → Sent → Type 0
IsDurable now e = IsDurableTx now e.store e.tx

abbrev pub AllDurable : Process → Type 0
AllDurable p = All (IsDurable p.store) p.sent

pub IsDurableTx-fixed :
    (a b sent : JurorStore) (tx : Tx)
    → ((id r : ℕ) (s : Secret) → IsFixed id r s a → IsFixed id r s b)
    → IsDurableTx a sent tx
    → IsDurableTx b sent tx
IsDurableTx-fixed a b sent (commit_vote id r c) f (s, e, h, k) = (s, e, h, f id r s k)
IsDurableTx-fixed a b sent (reveal_vote id r code salt) f h = tt
IsDurableTx-fixed a b sent (select_jurors id) f h = tt
IsDurableTx-fixed a b sent (tally_dispute id) f h = tt
IsDurableTx-fixed a b sent withdraw f h = tt

-- From one state of the process to a later one, when the file has every secret of memory.
abbrev pub Extends : Process → Process → Type 0
Extends p q = Keeps p.store q.store × (AllDurable p → AllDurable q)

pub Extends-refl : (p : Process) → Extends p p
Extends-refl p = (Keeps-refl p.store, λ h. h)

pub Extends-trans : (p q r : Process) → Extends p q → Extends q r → Extends p r
Extends-trans p q r (k, f) (l, g) = (Keeps-trans p.store q.store r.store k l, λ h. g (f h))

pub on_store-Extends :
    (change : JurorStore → JurorStore) (p : Process)
    → Keeps p.store (change p.store)
    → Extends p (on_store change p)
on_store-Extends change p k =
    (k, All-map _ p.sent (λ e h. IsDurableTx-fixed p.store (change p.store) e.store e.tx (k.1) h))

-- What a step that may throw leaves.
abbrev pub Goes : Process → Ran → Type 0
Goes p ran = Extends p (process_of ran)

pub Goes-trans : (p q : Process) (ran : Ran) → Extends p q → Goes q ran → Goes p ran
Goes-trans p q ran h k = Extends-trans p q (process_of ran) h k

pub if-Goes :
    (p : Process) (b : Bool) (x y : Ran) → Goes p x → Goes p y → Goes p (if b then x else y)
if-Goes p true x y h k = h
if-Goes p false x y h k = k

-- A call is sent that is durable; its hash and its success are handled by extensions.
pub send-Goes :
    (io : TickIo) (tx : Tx) (on_sent : Text → Process → Process) (on_ok : Text → Process → Ran)
    (p : Process)
    → IsDurableTx p.store p.store tx
    → ((h : Text) (q : Process) → Extends q (on_sent h q))
    → ((h : Text) (q : Process) → Goes q (on_ok h q))
    → Goes p (send io tx on_sent on_ok p)
unfolding send
send-Goes io tx on_sent on_ok p durable k l =
    if-Goes p (io.simulate tx) (after_write io (io.write tx) on_sent on_ok (note_sent tx p))
      (done (note_sent tx p))
      (Goes-trans p (note_sent tx p) (after_write io (io.write tx) on_sent on_ok (note_sent tx p))
        noted (written (io.write tx)))
      noted
  where
    noted : Extends p (note_sent tx p)
    noted = (Keeps-refl p.store, λ h. All-append _ p.sent _ h (durable, tt))

    waited : (h : Text) (o : Option Bool) (q : Process) → Goes q (after_receipt o (on_ok h) q)
    waited h none q = Extends-refl q
    waited h (some false) q = Extends-refl q
    waited h (some true) q = l h q

    written :
        (o : Option Text) → Goes (note_sent tx p) (after_write io o on_sent on_ok (note_sent tx p))
    written none = Extends-refl (note_sent tx p)
    written (some h) =
        Goes-trans (note_sent tx p) (on_sent h (note_sent tx p))
          (after_receipt (io.receipt h) (on_ok h) (on_sent h (note_sent tx p)))
          (k h (note_sent tx p)) (waited h (io.receipt h) (on_sent h (note_sent tx p)))

pub on_round-Extends :
    (id r : ℕ) (change : RoundRecord → RoundRecord) (p : Process)
    → ((rr : RoundRecord) → secret_of (change rr) ≡ secret_of rr)
    → Extends p (on_round id r change p)
on_round-Extends id r change p h =
    on_store-Extends (update_round id r change) p
      (update_round-Keeps id r change p.store (λ s m. h (round_record id r p.store) ∙ m))

pub on_dispute-Extends :
    (id : ℕ) (change : DisputeRecord → DisputeRecord) (p : Process)
    → ((x : DisputeRecord) → (change x).rounds ≡ x.rounds)
    → Extends p (on_store (update_dispute id change) p)
on_dispute-Extends id change p h =
    on_store-Extends (update_dispute id change) p (update_dispute-Keeps id change p.store (h _))

pub ensure_round-Extends : (id r : ℕ) (p : Process) → Extends p (on_store (ensure_round id r) p)
ensure_round-Extends id r p =
    on_store-Extends (ensure_round id r) p (ensure_round-Keeps id r p.store)

pub same_store-Extends :
    (p : Process) (pending : List Text) (last_try : Dict ℕ)
    → Extends p (record p { pending = pending; last_try = last_try })
same_store-Extends p pending last_try = (Keeps-refl p.store, λ h. h)

pub start_job-Extends : (io : TickIo) (key : Text) (p : Process) → Extends p (start_job io key p)
unfolding start_job
start_job-Extends io key p =
    elim (Bool-cases
      (is_pending key p || ltb (io.now_ms - last_try_of key p) io.evidence_retry_ms)) [
        | inl e ↦ rw e (Extends-refl p)
        | inr e ↦
            rw e (same_store-Extends p (p.pending ++ key ∷ []) (insert key io.now_ms p.last_try))
      ]

publish_round-Extends :
    (io : TickIo) (id r : ℕ) (rr : RoundRecord) (d : Option Decision) (v : Option VerdictLabel)
    (c : Option Text) (done : Option Published) (p : Process)
    → Extends p (publish_round io id r rr d v c done p)
publish_round-Extends io id r rr (some d) (some v) (some c) none p =
    on_round-Extends id r _ p (λ rr. refl)
publish_round-Extends io id r rr (some d) (some v) (some c) (some x) p = Extends-refl p
publish_round-Extends io id r rr (some d) (some v) none x p = Extends-refl p
publish_round-Extends io id r rr (some d) none c x p = Extends-refl p
publish_round-Extends io id r rr none v c x p = Extends-refl p

pub maybe_publish-Extends :
    (io : TickIo) (id r : ℕ) (p : Process) → Extends p (maybe_publish io id r p)
unfolding maybe_publish
maybe_publish-Extends io id r p =
    let q = on_store (ensure_round id r) p in
    let rr = round_record id r q.store in
    Extends-trans p q
      (publish_round io id r rr rr.decision rr.verdict rr.commitment rr.rationale_published q)
      (ensure_round-Extends id r p)
      (publish_round-Extends io id r rr rr.decision rr.verdict rr.commitment rr.rationale_published
        q)
