-- ===== src/Watcher/Steps.antt =====
-- The watcher as a step relation: a poll, and the ends of the handlers that `#drain` started in the
-- background for disputes.
use bab_takehome.Base.{
  ℕ, suc, ◌-◌, ◌≡◌, subst, Option, none, some, not, List, [], ◌∷◌, ◌++◌, keep, leb, All, All-append,
  Text, Result, ok, err,
}
use bab_takehome.Watcher.{
  Job, WatcherIo, is_purchase, Scan, confirmations, fail, values, due_jobs, Watcher, drained,
  after_scan, scan_to, polled, poll_once,
}
use bab_takehome.Watcher.Attempts.{
  IsAlive, AllAlive, scan-AllAlive, fail-AllAlive, drain_purchases-AllAlive, delete_all-AllAlive,
  keep-IsAlive,
}

pub data Step : Watcher → Watcher → Type 0 where
  poll : {w : Watcher} (io : WatcherIo) → Step w (poll_once io w)
  dispute_handled :
      {w : Watcher} (xs : List Job) (j : Job) (ys : List Job)
      → w.in_flight ≡ xs ++ j ∷ ys
      → Step w (record w { in_flight = xs ++ ys })
  dispute_failed :
      {w : Watcher} (now : ℕ) (xs : List Job) (j : Job) (ys : List Job)
      → w.in_flight ≡ xs ++ j ∷ ys
      → Step w (record w { in_flight = xs ++ ys; retry = fail now j w.retry })

pub data Reaches : Watcher → Watcher → Type 0 where
  here : {w : Watcher} → Reaches w w
  after_step : {w x y : Watcher} → Reaches w x → Step x y → Reaches w y

-- No job that waits or runs has made eight attempts.
abbrev pub IsLive : Watcher → Type 0
IsLive w = AllAlive w.retry × All IsAlive w.in_flight

drained-IsLive :
    (io : WatcherIo) (w : Watcher) (s : Scan)
    → IsLive w
    → AllAlive s.retry
    → IsLive (drained io w s)
drained-IsLive io w s (h, k) alive =
    let jobs = due_jobs io s.retry in
    let due = keep-IsAlive (λ j. leb j.not_before io.now) (values s.retry) alive in
    (
      delete_all-AllAlive (keep (λ j. not (is_purchase j)) jobs) _
          (drain_purchases-AllAlive io (keep is_purchase jobs) s.retry alive),
      All-append IsAlive w.in_flight (keep (λ j. not (is_purchase j)) jobs) k
          (keep-IsAlive (λ j. not (is_purchase j)) jobs due),
    )

after_scan-IsLive :
    (io : WatcherIo) (w : Watcher) (s : Scan) (e : Option Text)
    → IsLive w
    → AllAlive s.retry
    → IsLive (after_scan io w s e)
after_scan-IsLive io w s none h alive = drained-IsLive io w s h alive
after_scan-IsLive io w s (some e) (h, k) alive = (alive, k)

polled-IsLive :
    (io : WatcherIo) (w : Watcher) (n : Result Text ℕ) → IsLive w → IsLive (polled io w n)
polled-IsLive io w (err e) h = h
polled-IsLive io w (ok n) (h, k) =
    let stop = suc n - confirmations io in
    after_scan-IsLive io w (scan_to io w stop) (scan_to io w stop).error (h, k)
      (scan-AllAlive io (stop - w.cursor) stop w.cursor w.retry h)

removed :
    (xs : List Job) (j : Job) (ys : List Job) → All IsAlive (xs ++ j ∷ ys) → All IsAlive (xs ++ ys)
removed [] j ys (a, h) = h
removed (x ∷ xs) j ys (a, h) = (a, removed xs j ys h)

Step-IsLive : {w x : Watcher} → Step w x → IsLive w → IsLive x
unfolding poll_once
Step-IsLive {w = w} (poll io) h = polled-IsLive io w io.block_number h
Step-IsLive (dispute_handled xs j ys e) (h, k) = (h, removed xs j ys (subst (All IsAlive) e k))
Step-IsLive {w = w} (dispute_failed now xs j ys e) (h, k) =
    (fail-AllAlive now j w.retry h, removed xs j ys (subst (All IsAlive) e k))

-- From a watcher whose jobs have each made fewer than eight attempts, this is so in every state that
-- polls and ends of background handlers lead to, whatever the chain and the handlers answer.
Reaches-IsLive : {w x : Watcher} → Reaches w x → IsLive w → IsLive x
Reaches-IsLive here h = h
Reaches-IsLive (after_step r s) h = Step-IsLive s (Reaches-IsLive r h)
