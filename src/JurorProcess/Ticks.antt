-- ===== src/JurorProcess/Ticks.antt =====
-- The process under a tick and the end of a job.
use bab_takehome.Base.{
  ℕ, zero, suc, ◌+◌, ◌-◌, inl, inr, Bool, true, false, ◌&&◌, ◌||◌, not, Option, none, some, List,
  [], ◌∷◌, is_some, if◌then◌else◌, leb, ◌==◌, Bool-cases,
}
use bab_takehome.Jurors.Types.{ground_false_description}
use bab_takehome.Deliberation.Types.{Decision}
use bab_takehome.JurorProcess.Store.{
  JurorStore, dep, set_cursor, round_record, ensure_round, cursor,
}
use bab_takehome.JurorProcess.Market.{
  Log, dispute_opened, jurors_selected, other_log, Process, TickIo, Ran, done, threw, process_of,
  and_then,
}
use bab_takehome.JurorProcess.Phases.{on_store, vote_of, keep_decision, finish_job}
use bab_takehome.JurorProcess.Tick.{
  Head, drive, drive_seen, on_log, on_logs, range_end, after_range, scan_from, scan_logs, ids_of,
  is_resolved, drive_all, tick,
}
use bab_takehome.JurorProcess.Secrets.{
  IsSaved, Keeps, Keeps-refl, Keeps-trans, set_cursor-Keeps, ensure_dispute-Keeps,
  ensure_round-Keeps, update_round-Keeps,
}
use bab_takehome.JurorProcess.Durable.{
  Extends, Extends-refl, Extends-trans, on_store-Extends, Goes, Goes-trans,
}
use bab_takehome.JurorProcess.Steps.{IsRandom, drive_seen-Goes}

on_log-Keeps : (l : Log) (st : JurorStore) → Keeps st (on_log l st)
on_log-Keeps (dispute_opened id ground p b) st =
    elim (Bool-cases (ground == ground_false_description)) [
      | inl e ↦ rw e (ensure_dispute-Keeps id (some p) (some b) st)
      | inr e ↦ rw e (Keeps-refl st)
    ]
on_log-Keeps (jurors_selected id) st = ensure_dispute-Keeps id none none st
on_log-Keeps other_log st = Keeps-refl st

on_logs-Keeps : (ls : List Log) (st : JurorStore) → Keeps st (on_logs ls st)
unfolding on_logs
on_logs-Keeps [] st = Keeps-refl st
on_logs-Keeps (l ∷ ls) st =
    Keeps-trans st (on_log l st) (on_logs ls (on_log l st)) (on_log-Keeps l st)
      (on_logs-Keeps ls (on_log l st))

after_range-Goes :
    (to : ℕ) (again : Process → Ran) (o : Option (List Log)) (p : Process)
    → ((q : Process) → Goes q (again q))
    → Goes p (after_range to again o p)
after_range-Goes to again none p h = Extends-refl p
after_range-Goes to again (some logs) p h =
    let q = on_store (λ st. set_cursor to (on_logs logs st)) p in
    Goes-trans p q (again q)
      (on_store-Extends (λ st. set_cursor to (on_logs logs st)) p
        (Keeps-trans p.store (on_logs logs p.store) (set_cursor to (on_logs logs p.store))
          (on_logs-Keeps logs p.store) (set_cursor-Keeps to (on_logs logs p.store))))
      (h q)

scan_from-Goes : (io : TickIo) (f head from : ℕ) (p : Process) → Goes p (scan_from io f head from p)
unfolding scan_from
scan_from-Goes io zero head from p = Extends-refl p
scan_from-Goes io (suc f) head from p =
    elim (Bool-cases (leb from head && not (io.stops_at_block from))) [
      | inl e ↦ rw e (
          after_range-Goes (range_end io head from)
            (scan_from io f head (range_end io head from + 1)) _ p
            (scan_from-Goes io f head (range_end io head from + 1)))
      | inr e ↦ rw e (Extends-refl p)
    ]

if-Extends :
    (p : Process) (b : Bool) (x y : Process)
    → Extends p x
    → Extends p y
    → Extends p (if b then x else y)
if-Extends p true x y h k = h
if-Extends p false x y h k = k

drive_all-Extends :
    (io : TickIo) (head : Head) (ids : List ℕ) (p : Process)
    → IsRandom io
    → IsSaved p.store
    → Extends p (drive_all io head ids p)
unfolding drive_all drive
drive_all-Extends io head [] p random saved = Extends-refl p
drive_all-Extends io head (id ∷ ids) p random saved =
    let q = process_of (drive_seen io id head (io.get_dispute id) p) in
    let next = if is_resolved id p.store || io.stops_at_dispute id then p else q in
    let (k, f) =
      if-Extends p (is_resolved id p.store || io.stops_at_dispute id) p q (Extends-refl p)
        (drive_seen-Goes io id head (io.get_dispute id) p random saved) in
    Extends-trans p next (drive_all io head ids next) (k, f)
      (drive_all-Extends io head ids next random (k.2 saved))

pub tick-Extends :
    (io : TickIo) (head : Head) (p : Process)
    → IsRandom io
    → IsSaved p.store
    → Extends p (tick io head p)
unfolding tick scan_logs
tick-Extends io head p random saved =
    after (scan_from io (head.number - cursor p.store) head.number (cursor p.store + 1) p)
      (scan_from-Goes io (head.number - cursor p.store) head.number (cursor p.store + 1) p)
  where
    after :
        (ran : Ran)
        → Goes p ran
        → Extends p (
            process_of
              (and_then ran (λ p. done (drive_all io head (ids_of (dep p.store).disputes) p))))
    after (threw q) h = h
    after (done q) (k, f) =
        Extends-trans p q (drive_all io head (ids_of (dep q.store).disputes) q) (k, f)
          (drive_all-Extends io head (ids_of (dep q.store).disputes) q random (k.2 saved))

keep_decision-Keeps :
    (id r : ℕ) (d : Decision) (st : JurorStore) → Keeps st (keep_decision id r d st)
keep_decision-Keeps id r d st = elim (Bool-cases (is_some (vote_of (round_record id r st)))) [
  | inl e ↦ rw e (Keeps-refl st)
  | inr e ↦ rw e (update_round-Keeps id r (λ rr. record rr { decision = some d }) st (λ s m. m))
]

pub finish_job-Extends :
    (id r : ℕ) (o : Option Decision) (p : Process) → Extends p (finish_job id r o p)
unfolding finish_job
finish_job-Extends id r none p = (Keeps-refl p.store, λ h. h)
finish_job-Extends id r (some d) p =
    on_store-Extends (λ st. keep_decision id r d (ensure_round id r st)) p
      (Keeps-trans p.store (ensure_round id r p.store)
        (keep_decision id r d (ensure_round id r p.store)) (ensure_round-Keeps id r p.store)
        (keep_decision-Keeps id r d (ensure_round id r p.store)))
