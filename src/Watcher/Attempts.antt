-- ===== src/Watcher/Attempts.antt =====
-- The jobs of the watcher over any polls and any ends of the handlers in the background.
use bab_takehome.Base.{
  ℕ, zero, suc, ◌<◌, inl, inr, Bool, ◌||◌, List, [], ◌∷◌, arith, keep, leb, ltb, ◌==◌, is_some, All,
  Bool-cases, Text, text_eq, Dict, lookup, insert, Result, ok, err,
}
use bab_takehome.Watcher.{
  JobKind, purchase, dispute, Job, Log, purchased, dispute_opened, other_log, WatcherIo, new_job,
  job_key, delete, enqueue, enqueue_log, enqueue_all, Scan, range_end, after_logs, scan,
  next_attempt, fail, after_purchase, drain_purchases, delete_all, values,
  ground_broken_or_hash_mismatch, ground_preview_not_reproducible,
}

-- Fewer than eight attempts were made.
abbrev pub IsAlive : Job → Type 0
IsAlive j = j.attempts < 8

abbrev pub AllAlive : Dict Job → Type 0
AllAlive retry = All IsAlive (values retry)

delete-AllAlive : (k : Text) (d : Dict Job) → AllAlive d → AllAlive (delete k d)
unfolding delete values
delete-AllAlive k [] h = tt
delete-AllAlive k ((i, j) ∷ d) (a, h) = elim (Bool-cases (text_eq i k)) [
  | inl e ↦ rw e h
  | inr e ↦ rw e (a, delete-AllAlive k d h)
]

insert-AllAlive :
    (k : Text) (j : Job) (d : Dict Job) → IsAlive j → AllAlive d → AllAlive (insert k j d)
unfolding insert values
insert-AllAlive k j [] a h = (a, tt)
insert-AllAlive k j ((i, v) ∷ d) a (b, h) = elim (Bool-cases (text_eq i k)) [
  | inl e ↦ rw e (a, h)
  | inr e ↦ rw e (b, insert-AllAlive k j d a h)
]

enqueue-AllAlive :
    (kind : JobKind) (id : ℕ) (d : Dict Job) → AllAlive d → AllAlive (enqueue kind id d)
enqueue-AllAlive kind id d h = elim (Bool-cases (is_some (lookup (job_key kind id) d))) [
  | inl e ↦ rw e h
  | inr e ↦ rw e (insert-AllAlive (job_key kind id) (new_job kind id) d (omega arith) h)
]

enqueue_log-AllAlive : (l : Log) (d : Dict Job) → AllAlive d → AllAlive (enqueue_log l d)
enqueue_log-AllAlive (purchased id) d h = enqueue-AllAlive purchase id d h
enqueue_log-AllAlive other_log d h = h
enqueue_log-AllAlive (dispute_opened id g) d h =
    elim (Bool-cases
      (g == ground_broken_or_hash_mismatch || g == ground_preview_not_reproducible)) [
        | inl e ↦ rw e (enqueue-AllAlive dispute id d h)
        | inr e ↦ rw e h
      ]

enqueue_all-AllAlive : (ls : List Log) (d : Dict Job) → AllAlive d → AllAlive (enqueue_all ls d)
unfolding enqueue_all
enqueue_all-AllAlive [] d h = h
enqueue_all-AllAlive (l ∷ ls) d h =
    enqueue_all-AllAlive ls (enqueue_log l d) (enqueue_log-AllAlive l d h)

after_logs-AllAlive :
    (from end : ℕ) (d : Dict Job) (rest : Dict Job → Scan) (res : Result Text (List Log))
    → AllAlive d
    → ((r : Dict Job) → AllAlive r → AllAlive (rest r).retry)
    → AllAlive (after_logs from end d rest res).retry
after_logs-AllAlive from end d rest (err e) h k = h
after_logs-AllAlive from end d rest (ok logs) h k = k _ (enqueue_all-AllAlive logs d h)

pub scan-AllAlive :
    (io : WatcherIo) (f stop from : ℕ) (d : Dict Job)
    → AllAlive d
    → AllAlive (scan io f stop from d).retry
unfolding scan
scan-AllAlive io zero stop from d h = h
scan-AllAlive io (suc f) stop from d h = elim (Bool-cases (ltb from stop)) [
  | inr end ↦ rw end h
  | inl more ↦ rw more (
      after_logs-AllAlive from (range_end from stop) d (λ r. scan io f stop (range_end from stop) r)
        _ h (λ r k. scan-AllAlive io f stop (range_end from stop) r k))
]

pub fail-AllAlive : (now : ℕ) (j : Job) (d : Dict Job) → AllAlive d → AllAlive (fail now j d)
fail-AllAlive now j d h = elim (Bool-cases (leb 8 (suc j.attempts))) [
  | inl e ↦ rw e (delete-AllAlive j.key d h)
  | inr e ↦ rw e (insert-AllAlive j.key (next_attempt now j) d (ground arith) h)
]

pub drain_purchases-AllAlive :
    (io : WatcherIo) (jobs : List Job) (d : Dict Job)
    → AllAlive d
    → AllAlive (drain_purchases io jobs d)
unfolding drain_purchases
drain_purchases-AllAlive io [] d h = h
drain_purchases-AllAlive io (j ∷ jobs) d h =
    drain_purchases-AllAlive io jobs _ (one (io.handle_purchase j.id))
  where
    one : (r : Result Text (Unit {0})) → AllAlive (after_purchase io j r d)
    one (ok u) = delete-AllAlive j.key d h
    one (err e) = fail-AllAlive io.now j d h

pub delete_all-AllAlive :
    (jobs : List Job) (d : Dict Job) → AllAlive d → AllAlive (delete_all jobs d)
unfolding delete_all
delete_all-AllAlive [] d h = h
delete_all-AllAlive (j ∷ jobs) d h =
    delete_all-AllAlive jobs (delete j.key d) (delete-AllAlive j.key d h)

pub keep-IsAlive : (p : Job → Bool) (js : List Job) → All IsAlive js → All IsAlive (keep p js)
keep-IsAlive p [] h = tt
keep-IsAlive p (j ∷ js) (a, h) = elim (Bool-cases (p j)) [
  | inl e ↦ rw e (a, keep-IsAlive p js h)
  | inr e ↦ rw e (keep-IsAlive p js h)
]
