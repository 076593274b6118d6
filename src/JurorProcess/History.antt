-- ===== src/JurorProcess/History.antt =====
-- The calls that a juror's process sends, over any ticks, ends of jobs and restarts.
use bab_takehome.Base.{
  ℕ, ◌≡◌, refl, sym, ap, subst, ◌∙◌, inl, inr, Bool, true, false, not, Option, none, some, List, [],
  ◌∷◌, ◌⊎◌, arith, All-map, All-Some, Some, get_or, is_some, if◌then◌else◌, ◌==◌, Bool-cases,
  some-injective, Text, text_eq, to_lower, lookup, Result, ok, err, raise_if, >>=-eq-ok,
  ok-injective,
}
use bab_takehome.Deliberation.Types.{Decision}
use bab_takehome.JurorProcess.Store.{
  DeploymentState, JurorStateFile, JurorStore, StoreError, bad_version, other_juror, deployment,
  new_deployment, open_store, checked_state, with_deployment, store_key,
}
use bab_takehome.JurorProcess.Commit.{Secret}
use bab_takehome.JurorProcess.Market.{commit_vote, Sent, Process, TickIo}
use bab_takehome.JurorProcess.Phases.{finish_job}
use bab_takehome.JurorProcess.Tick.{Head, tick}
use bab_takehome.JurorProcess.Frames.{HasSecret}
use bab_takehome.JurorProcess.Secrets.{IsFixed, IsSaved}
use bab_takehome.JurorProcess.Durable.{
  IsDurableTx, IsDurableTx-fixed, IsDurable, AllDurable, Extends,
}
use bab_takehome.JurorProcess.Steps.{IsRandom}
use bab_takehome.JurorProcess.Ticks.{tick-Extends, finish_job-Extends}

module _ (juror : Text) (chain_id : ℕ) (market : Text) (start_block : ℕ) where
  -- A start of the process on what the file holds: what was in memory is gone. The calls that were
  -- sent are kept, so that later ones can be compared with them. Where the file is refused, nothing
  -- runs.
  abbrev started : List Sent → Process → Result StoreError JurorStore → Process
  started sent old (err e) = old
  started sent old (ok st) = record { store = st; pending = []; last_try = []; sent = sent }

  unfoldable pub restart : Process → Process
  restart p = started p.sent p (open_store p.store.file juror chain_id market start_block)

  -- What can happen to the process.
  pub data Event : Type 0 where
    ticked : (io : TickIo) → (head : Head) → Event
    finished : (id round : ℕ) → (decision : Option Decision) → Event
    restarted : Event

  abbrev pub happen : Event → Process → Process
  happen (ticked io head) p = tick io head p
  happen (finished id round decision) p = finish_job id round decision p
  happen restarted p = restart p

  unfoldable pub run : List Event → Process → Process
  run [] p = p
  run (e ∷ es) p = run es (happen e p)

  -- The random digits of each tick are those of 32 bytes.
  abbrev pub AllRandom : List Event → Type 0
  AllRandom [] = Unit
  AllRandom (ticked io head ∷ es) = IsRandom io × AllRandom es
  AllRandom (finished id round decision ∷ es) = AllRandom es
  AllRandom (restarted ∷ es) = AllRandom es

  checked_state-some : (f s : JurorStateFile) → checked_state juror (some f) ≡ ok s → s ≡ f
  checked_state-some f s h =
      let (_, (_, h)) = >>=-eq-ok (raise_if (not (f.version == 1)) bad_version) _ h in
      let (_, (_, h)) =
        >>=-eq-ok
          (raise_if (not (text_eq (to_lower f.juror) (to_lower juror))) (other_juror f.juror)) _
          h in
      sym (ok-injective f s h)

  -- A store that was opened on a file.
  abbrev opened : Text → Option JurorStateFile → JurorStateFile → JurorStore
  opened key file s = with_deployment start_block (record { key = key; state = s; file = file })

  absent-secret :
      (o : Option DeploymentState) (id r : ℕ) (t : Secret)
      → is_some o ≡ false
      → ¬ (HasSecret id r t (get_or o (new_deployment 0)))
  unfolding lookup
  absent-secret none id r t e h = absurd (ground arith)
  absent-secret (some d) id r t e h = absurd (ground arith)

  opened-IsFixed :
      (key : Text) (s : JurorStateFile) (id r : ℕ) (t : Secret)
      → HasSecret id r t (deployment key s)
      → IsFixed id r t (opened key (some s) s)
  opened-IsFixed key s id r t h = elim (Bool-cases (is_some (lookup key s.deployments))) [
    | inl e ↦ rw e (h, (s, refl, h))
    | inr e ↦ absurd (absent-secret (lookup key s.deployments) id r t e h)
  ]

  if-IsSaved :
      (b : Bool) (x y : JurorStore)
      → (b ≡ true → IsSaved x)
      → IsSaved y
      → IsSaved (if b then x else y)
  if-IsSaved true x y h k = h refl
  if-IsSaved false x y h k = k

  opened-IsSaved :
      (key : Text) (file : Option JurorStateFile) (s : JurorStateFile)
      → ((file ≡ some s) ⊎ (s.deployments ≡ []))
      → IsSaved (opened key file s)
  unfolding lookup
  opened-IsSaved key file s h =
      if-IsSaved (is_some (lookup key s.deployments)) (record { key = key; state = s; file = file })
        _
        (λ found id r t m. elim h [
          | inl e ↦ (m, (s, e, m))
          | inr e ↦ absurd (let k = rw e at found in ground arith)
        ])
        (λ id r t m. (m, (_, refl, m)))

  opened-key :
      (key : Text) (file : Option JurorStateFile) (s : JurorStateFile)
      → (opened key file s).key ≡ key
  opened-key key file s = elim (Bool-cases (is_some (lookup key s.deployments))) [
    | inl e ↦ rw e refl
    | inr e ↦ rw e refl
  ]

  -- What is known of a process that runs.
  abbrev Running : Process → Type 0
  Running p = (p.store.key ≡ store_key chain_id market) × IsSaved p.store × AllDurable p

  open_store-opened :
      (file : Option JurorStateFile) (st : JurorStore)
      → open_store file juror chain_id market start_block ≡ ok st
      → (s : JurorStateFile) × (checked_state juror file ≡ ok s)
        × (opened (store_key chain_id market) file s ≡ st)
  unfolding open_store
  open_store-opened file st h =
      let (s, (a, h)) = >>=-eq-ok (checked_state juror file) _ h in (s, a, ok-injective _ st h)

  checked-cases :
      (file : Option JurorStateFile) (s : JurorStateFile)
      → checked_state juror file ≡ ok s
      → (file ≡ some s) ⊎ (s.deployments ≡ [])
  checked-cases none s h =
      inr (sym (ap (λ (x : JurorStateFile). x.deployments) (ok-injective _ s h)))
  checked-cases (some f) s h = inl (ap some (sym (checked_state-some f s h)))

  start-Running :
      (file : Option JurorStateFile) (st : JurorStore)
      → open_store file juror chain_id market start_block ≡ ok st
      → (st.key ≡ store_key chain_id market) × IsSaved st
  start-Running file st h =
      let (s, a, e) = open_store-opened file st h in
      let key = store_key chain_id market in
      subst (λ (x : JurorStore). (x.key ≡ key) × IsSaved x) e
        (opened-key key file s, opened-IsSaved key file s (checked-cases file s a))

  restart-IsFixed :
      (old st : JurorStore)
      → old.key ≡ store_key chain_id market
      → open_store old.file juror chain_id market start_block ≡ ok st
      → (id r : ℕ) (t : Secret) → IsFixed id r t old
      → IsFixed id r t st
  restart-IsFixed old st k h id r t (_, (f, e, m)) =
      let (s, a, o) = open_store-opened old.file st h in
      let same : s ≡ f = checked_state-some f s (subst (λ x. checked_state juror x ≡ ok s) e a) in
      let file : old.file ≡ some s = e ∙ ap some (sym same) in
      let m : HasSecret id r t (deployment (store_key chain_id market) s) =
        subst (λ (x : JurorStateFile). HasSecret id r t (deployment (store_key chain_id market) x))
          (sym same) (subst (λ (key : Text). HasSecret id r t (deployment key f)) k m) in
      subst (IsFixed id r t) o (
        subst
          (λ (x : Option JurorStateFile). IsFixed id r t (opened (store_key chain_id market) x s))
          (sym file) (opened-IsFixed (store_key chain_id market) s id r t m))

  extend-Running : (p q : Process) → Extends p q → Running p → Running q
  extend-Running p q ((e, _, g), f) (k, saved, durable) = (e ∙ k, g saved, f durable)

  started-Running :
      (p : Process) (res : Result StoreError JurorStore)
      → open_store p.store.file juror chain_id market start_block ≡ res
      → Running p
      → Running (started p.sent p res)
  started-Running p (err e) h running = running
  started-Running p (ok st) h (k, saved, durable) =
      let (key, fresh) = start-Running p.store.file st h in
      (
        key,
        fresh,
        All-map _ p.sent
            (λ x d. IsDurableTx-fixed p.store st x.store x.tx (restart-IsFixed p.store st k h) d)
            durable,
      )

  happen-Running : (e : Event) (p : Process) → AllRandom (e ∷ []) → Running p → Running (happen e p)
  unfolding restart
  happen-Running (ticked io head) p (random, _) (k, saved, durable) =
      extend-Running p (tick io head p) (tick-Extends io head p random saved) (k, saved, durable)
  happen-Running (finished id r d) p _ running =
      extend-Running p (finish_job id r d p) (finish_job-Extends id r d p) running
  happen-Running restarted p _ running = started-Running p _ refl running

  run-Running : (es : List Event) (p : Process) → AllRandom es → Running p → Running (run es p)
  unfolding run
  run-Running [] p random running = running
  run-Running (ticked io head ∷ es) p (r, random) running =
      run-Running es (tick io head p) random (happen-Running (ticked io head) p (r, tt) running)
  run-Running (finished id r d ∷ es) p random running =
      run-Running es (finish_job id r d p) random (happen-Running (finished id r d) p tt running)
  run-Running (restarted ∷ es) p random running =
      run-Running es (restart p) random (happen-Running restarted p tt running)

  -- The first start of the process.
  abbrev pub first : JurorStore → Process
  first st = record { store = st; pending = []; last_try = []; sent = [] }

  -- From a start on any file, over any ticks, ends of jobs and restarts, as long as no write of the
  -- state file fails (`save`) and the random digits are those of 32 bytes: whenever a commitment is sent, memory and the state file have
  -- the secret of that commitment for its dispute and round at that time, and both still have it
  -- at the end.
  pub run-AllDurable :
      (file : Option JurorStateFile) (st : JurorStore) (es : List Event)
      → open_store file juror chain_id market start_block ≡ ok st
      → AllRandom es
      → AllDurable (run es (first st))
  run-AllDurable file st es h random =
      let (k, saved) = start-Running file st h in
      (run-Running es (first st) random (k, saved, tt)).2

  -- From a start on any file, over any ticks, ends of jobs and restarts, as long as no write of the
  -- state file fails (`save`) and the random digits are those of 32 bytes, no two different commitments are ever sent for one round of a
  -- dispute.
  pub run-commit_once :
      (file : Option JurorStateFile) (st : JurorStore) (es : List Event) (a b : Sent) (id r : ℕ)
      (c d : Text)
      → open_store file juror chain_id market start_block ≡ ok st
      → AllRandom es
      → Some (λ x. x ≡ a) (run es (first st)).sent
      → Some (λ x. x ≡ b) (run es (first st)).sent
      → a.tx ≡ commit_vote id r c
      → b.tx ≡ commit_vote id r d
      → c ≡ d
  run-commit_once file st es a b id r c d h random at_a at_b e f =
      let p = run es (first st) in
      let durable = run-AllDurable file st es h random in
      let (s, sc, _, (m, _)) =
        subst (IsDurableTx p.store a.store) e
          (All-Some (IsDurable p.store) a p.sent durable at_a) in
      let (t, td, _, (n, _)) =
        subst (IsDurableTx p.store b.store) f
          (All-Some (IsDurable p.store) b p.sent durable at_b) in
      sym sc ∙ ap (λ (x : Secret). x.commitment) (some-injective s t (sym m ∙ n)) ∙ td
