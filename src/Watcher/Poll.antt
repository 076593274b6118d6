-- ===== src/Watcher/Poll.antt =====
-- What a poll does about a delivery that is due.
use bab_takehome.Base.{
  ℕ, zero, suc, ◌-◌, ◌≤◌, ◌≡◌, ◌≢◌, refl, sym, subst, ◌∙◌, inl, inr, false, Option, none, some,
  List, [], ◌∷◌, arith, ltb, ◌==◌, ◌||◌, is_some, All, Bool-cases, Text, text_eq, Dict, lookup,
  insert, lookup-insert_ne, DistinctBy, Result, ok, err,
}
use bab_takehome.Watcher.{
  JobKind, purchase, dispute, Job, Log, purchased, dispute_opened, other_log, WatcherIo, new_job,
  job_key, enqueue, enqueue_log, enqueue_all, Scan, range_end, after_logs, scan, Watcher,
  after_scan, polled, poll_once, confirmations, scan_to, ground_broken_or_hash_mismatch,
  ground_preview_not_reproducible,
}
use bab_takehome.Watcher.Keys.{IsKeyed, text_eq-ne}
use bab_takehome.Watcher.Drain.{Treats, drained-Treats}

insert-All :
    (P : Text × Job → Type 0) (k : Text) (v : Job) (d : Dict Job)
    → lookup k d ≡ none
    → P (k, v)
    → All P d
    → All P (insert k v d)
unfolding insert lookup
insert-All P k v [] n p h = (p, tt)
insert-All P k v ((i, w) ∷ d) n p (q, h) = elim (Bool-cases (text_eq i k)) [
  | inl e ↦ absurd (ground (arith, n, e))
  | inr e ↦ rw e (q, insert-All P k v d (rw e at n) p h)
]

insert-Distinct :
    (k : Text) (v : Job) (d : Dict Job)
    → lookup k d ≡ none
    → DistinctBy (λ e. e.0) d
    → DistinctBy (λ e. e.0) (insert k v d)
unfolding insert lookup
insert-Distinct k v [] n h = (tt, tt)
insert-Distinct k v ((i, w) ∷ d) n (m, h) = elim (Bool-cases (text_eq i k)) [
  | inl e ↦ absurd (ground (arith, n, e))
  | inr e ↦
      let rest : lookup k d ≡ none = rw e at n in
      rw e (insert-All (λ t. i ≢ t.0) k v d rest (text_eq-ne i k e) m, insert-Distinct k v d rest h)
]

-- The job waits in a map by keys.
abbrev Waits : Job → Dict Job → Type 0
Waits j d = IsKeyed d × (lookup j.key d ≡ some j)

is_some-none : (o : Option Job) → is_some o ≡ false → o ≡ none
is_some-none none h = refl
is_some-none (some j) h = absurd (ground arith)

enqueue-Waits :
    (j : Job) (kind : JobKind) (id : ℕ) (d : Dict Job) → Waits j d → Waits j (enqueue kind id d)
enqueue-Waits j kind id d ((a, b), h) = elim (Bool-cases (is_some (lookup (job_key kind id) d))) [
  | inl e ↦ rw e ((a, b), h)
  | inr e ↦
      let k = job_key kind id in
      let absent = is_some-none (lookup k d) e in
      let other : k ≢ j.key =
        λ q. absurd (ground (arith, absent, subst (λ (t : Text). lookup t d ≡ some j) (sym q) h)) in
      rw e (
        (
          insert-All (λ t. t.0 ≡ (t.1).key) k (new_job kind id) d absent refl a,
          insert-Distinct k (new_job kind id) d absent b,
        ),
        lookup-insert_ne k j.key (new_job kind id) d other ∙ h,
      )
]

enqueue_log-Waits : (j : Job) (l : Log) (d : Dict Job) → Waits j d → Waits j (enqueue_log l d)
enqueue_log-Waits j (purchased id) d h = enqueue-Waits j purchase id d h
enqueue_log-Waits j other_log d h = h
enqueue_log-Waits j (dispute_opened id g) d h =
    elim (Bool-cases
      (g == ground_broken_or_hash_mismatch || g == ground_preview_not_reproducible)) [
        | inl e ↦ rw e (enqueue-Waits j dispute id d h)
        | inr e ↦ rw e h
      ]

enqueue_all-Waits :
    (j : Job) (ls : List Log) (d : Dict Job) → Waits j d → Waits j (enqueue_all ls d)
unfolding enqueue_all
enqueue_all-Waits j [] d h = h
enqueue_all-Waits j (l ∷ ls) d h =
    enqueue_all-Waits j ls (enqueue_log l d) (enqueue_log-Waits j l d h)

after_logs-Waits :
    (j : Job) (from end : ℕ) (d : Dict Job) (rest : Dict Job → Scan) (res : Result Text (List Log))
    → Waits j d
    → ((r : Dict Job) → Waits j r → Waits j (rest r).retry)
    → Waits j (after_logs from end d rest res).retry
after_logs-Waits j from end d rest (err e) h k = h
after_logs-Waits j from end d rest (ok logs) h k = k _ (enqueue_all-Waits j logs d h)

scan-Waits :
    (j : Job) (io : WatcherIo) (f stop from : ℕ) (d : Dict Job)
    → Waits j d
    → Waits j (scan io f stop from d).retry
unfolding scan
scan-Waits j io zero stop from d h = h
scan-Waits j io (suc f) stop from d h = elim (Bool-cases (ltb from stop)) [
  | inr end ↦ rw end h
  | inl more ↦ rw more (
      after_logs-Waits j from (range_end from stop) d (λ r. scan io f stop (range_end from stop) r)
        _ h (λ r k. scan-Waits j io f stop (range_end from stop) r k))
]

after_scan-Treats :
    (io : WatcherIo) (w : Watcher) (s : Scan) (e : Option Text) (j : Job)
    → Waits j s.retry
    → j.kind ≡ purchase
    → j.not_before ≤ io.now
    → (after_scan io w s e).last_error ≡ none
    → Treats io j (lookup j.key (after_scan io w s e).retry)
after_scan-Treats io w s none j (keyed, found) kind due calm =
    drained-Treats io w s j keyed found kind due
after_scan-Treats io w s (some e) j waits kind due calm = absurd (ground arith)

polled-Treats :
    (io : WatcherIo) (w : Watcher) (n : Result Text ℕ) (j : Job)
    → Waits j w.retry
    → j.kind ≡ purchase
    → j.not_before ≤ io.now
    → (polled io w n).last_error ≡ none
    → Treats io j (lookup j.key (polled io w n).retry)
polled-Treats io w (err e) j waits kind due calm = absurd (ground arith)
polled-Treats io w (ok n) j waits kind due calm =
    let stop = suc n - confirmations io in
    let s = scan_to io w stop in
    after_scan-Treats io w s s.error j
      (scan-Waits j io (stop - w.cursor) stop w.cursor w.retry waits) kind due calm

-- After a poll that ends without an error, a delivery that waited in the map of jobs by their keys
-- and was due has been handled: where its handler succeeds it is gone; where it fails, the failure
-- is counted, and the delivery waits for two seconds, doubled with each failure and at most a minute,
-- unless it was the eighth failure, with which it is given up. What else waits and what the logs of
-- the poll bring does not change this.
pub poll_once-Treats :
    (io : WatcherIo) (w : Watcher) (j : Job)
    → IsKeyed w.retry
    → lookup j.key w.retry ≡ some j
    → j.kind ≡ purchase
    → j.not_before ≤ io.now
    → (poll_once io w).last_error ≡ none
    → Treats io j (lookup j.key (poll_once io w).retry)
unfolding poll_once
poll_once-Treats io w j keyed found kind due calm =
    polled-Treats io w io.block_number j (keyed, found) kind due calm
