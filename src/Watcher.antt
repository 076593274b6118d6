-- ===== src/Watcher.antt =====
-- services/tee/src/watcher.ts: the chain watcher. The chain's answers, the clock and the handlers
-- are parameters; the handler of a dispute runs in the background, and its failure is an event of
-- its own. `#running` stays set only while a poll runs.
mod Ranges
mod Attempts
mod Steps
mod Keys
mod Drain
mod Poll
mod Examples
use bab_takehome.Base.{
  ℕ, zero, suc, ◌+◌, ◌-◌, ◌*◌, ◌^◌, min, Bool, true, false, ◌&&◌, ◌||◌, not, Option, none, some,
  List, [], ◌∷◌, ◌++◌, keep, if◌then◌else◌, ltb, leb, ◌==◌, is_some, Text, codes, text_eq, show,
  Dict, lookup, insert, Result, ok, err,
}

pub data JobKind : Type 0 where
  purchase : JobKind
  dispute : JobKind

pub record Job : Type 0 where
  pub key : Text
  pub kind : JobKind
  pub id : ℕ
  pub attempts : ℕ
  pub not_before : ℕ

abbrev pub is_purchase : Job → Bool
is_purchase j = elim j.kind [ purchase ↦ true | dispute ↦ false ]

pub data Log : Type 0 where
  purchased : ℕ → Log
  dispute_opened : ℕ → ℕ → Log
  other_log : Log

-- `chain_id`, `getBlockNumber`, `getLogs`, `Date.now` and the relay's handler.
pub record WatcherIo : Type 0 where
  pub chain_id : ℕ
  pub block_number : Result Text ℕ
  pub get_logs : ℕ → ℕ → Result Text (List Log)
  pub now : ℕ
  pub handle_purchase : ℕ → Result Text (Unit {0})

abbrev pub ground_broken_or_hash_mismatch : ℕ
ground_broken_or_hash_mismatch = 1

abbrev pub ground_preview_not_reproducible : ℕ
ground_preview_not_reproducible = 3

abbrev pub job_key : JobKind → ℕ → Text
job_key purchase id = codes "purchase:" ++ show id
job_key dispute id = codes "dispute:" ++ show id

abbrev pub new_job : JobKind → ℕ → Job
new_job kind id = record {
  key = job_key kind id;
  kind = kind;
  id = id;
  attempts = 0;
  not_before = 0;
}

-- `this.#retry.delete(key)`
unfoldable pub delete : Text → Dict Job → Dict Job
delete k [] = []
delete k ((j, v) ∷ d) = if text_eq j k then d else (j, v) ∷ delete k d

-- `#enqueue`
abbrev pub enqueue : JobKind → ℕ → Dict Job → Dict Job
enqueue kind id retry =
    if is_some (lookup (job_key kind id) retry)
    then retry
    else insert (job_key kind id) (new_job kind id) retry

abbrev pub enqueue_log : Log → Dict Job → Dict Job
enqueue_log (purchased id) retry = enqueue purchase id retry
enqueue_log (dispute_opened id ground) retry =
    if ground == ground_broken_or_hash_mismatch || ground == ground_preview_not_reproducible
    then enqueue dispute id retry
    else retry
enqueue_log other_log retry = retry

unfoldable pub enqueue_all : List Log → Dict Job → Dict Job
enqueue_all [] retry = retry
enqueue_all (l ∷ logs) retry = enqueue_all logs (enqueue_log l retry)

-- What the scan of a poll comes to: the cursor that was saved last, the jobs, the ranges of blocks
-- that were scanned, each from its first to its last block, and the error that ended it.
pub record Scan : Type 0 where
  pub cursor : ℕ
  pub retry : Dict Job
  pub ranges : List (ℕ × ℕ)
  pub error : Option Text

abbrev pub with_range : ℕ → ℕ → Scan → Scan
with_range a b s = record s { ranges = (a, b) ∷ s.ranges }

abbrev pub confirmations : WatcherIo → ℕ
confirmations io = if io.chain_id == 31337 then 0 else 2

-- The first block past the range that starts at `from`; `stop` is the block after `head`.
abbrev pub range_end : ℕ → ℕ → ℕ
range_end from stop = min (from + 2000) stop

-- The answer for the range from `from` up to the block before `end`, and the scan after it.
abbrev pub after_logs : ℕ → ℕ → Dict Job → (Dict Job → Scan) → Result Text (List Log) → Scan
after_logs from end retry rest (err e) = record {
  cursor = from;
  retry = retry;
  ranges = [];
  error = some e;
}
after_logs from end retry rest (ok logs) = with_range from (end - 1) (rest (enqueue_all logs retry))

unfoldable pub scan : WatcherIo → ℕ → ℕ → ℕ → Dict Job → Scan
scan io zero stop from retry = record { cursor = from; retry = retry; ranges = []; error = none }
scan io (suc f) stop from retry =
    let end = range_end from stop in
    let next = after_logs from end retry (λ r. scan io f stop end r) (io.get_logs from (end - 1)) in
    if ltb from stop
    then next
    else record { cursor = from; retry = retry; ranges = []; error = none }

-- `#fail`: the job waits longer after each attempt, and is given up after the eighth.
abbrev pub next_attempt : ℕ → Job → Job
next_attempt now j = record j {
  attempts = suc j.attempts;
  not_before = now + min 60000 (2000 * 2 ^ suc j.attempts);
}

abbrev pub fail : ℕ → Job → Dict Job → Dict Job
fail now j retry =
    if leb 8 (suc j.attempts) then delete j.key retry else insert j.key (next_attempt now j) retry

-- The deliveries of `#drain`, one after the other.
abbrev pub after_purchase : WatcherIo → Job → Result Text (Unit {0}) → Dict Job → Dict Job
after_purchase io j (ok u) retry = delete j.key retry
after_purchase io j (err e) retry = fail io.now j retry

unfoldable pub drain_purchases : WatcherIo → List Job → Dict Job → Dict Job
drain_purchases io [] retry = retry
drain_purchases io (j ∷ jobs) retry =
    drain_purchases io jobs (after_purchase io j (io.handle_purchase j.id) retry)

unfoldable pub delete_all : List Job → Dict Job → Dict Job
delete_all [] retry = retry
delete_all (j ∷ jobs) retry = delete_all jobs (delete j.key retry)

unfoldable pub values : Dict Job → List Job
values [] = []
values ((k, j) ∷ d) = j ∷ values d

abbrev pub due_jobs : WatcherIo → Dict Job → List Job
due_jobs io retry = keep (λ j. leb j.not_before io.now) (values retry)

-- The jobs of the watcher, and the disputes whose handlers run in the background.
pub record Watcher : Type 0 where
  pub cursor : ℕ
  pub retry : Dict Job
  pub in_flight : List Job
  pub last_error : Option Text

abbrev pub drained : WatcherIo → Watcher → Scan → Watcher
drained io w s =
    let jobs = due_jobs io s.retry in
    let disputes = keep (λ j. not (is_purchase j)) jobs in
    record {
      cursor = s.cursor;
      retry = delete_all disputes (drain_purchases io (keep is_purchase jobs) s.retry);
      in_flight = w.in_flight ++ disputes;
      last_error = none;
    }

abbrev pub after_scan : WatcherIo → Watcher → Scan → Option Text → Watcher
after_scan io w s none = drained io w s
after_scan io w s (some e) = record w { cursor = s.cursor; retry = s.retry; last_error = some e }

abbrev pub scan_to : WatcherIo → Watcher → ℕ → Scan
scan_to io w stop = scan io (stop - w.cursor) stop w.cursor w.retry

abbrev pub polled : WatcherIo → Watcher → Result Text ℕ → Watcher
polled io w (err e) = record w { last_error = some e }
polled io w (ok n) = let s = scan_to io w (suc n - confirmations io) in after_scan io w s s.error

-- `pollOnce`, with what `start` does about an error.
unfoldable pub poll_once : WatcherIo → Watcher → Watcher
poll_once io w = polled io w io.block_number
