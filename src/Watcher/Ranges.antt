-- ===== src/Watcher/Ranges.antt =====
-- The ranges of blocks that a poll scans.
use bab_takehome.Base.{
  ℕ, zero, suc, ◌+◌, ◌-◌, ◌≤◌, ◌<◌, ◌≡◌, refl, sym, subst, ◌⊎◌, inl, inr, max, none, some, List, [],
  ◌∷◌, arith, ltb, Bool-cases, Dict, Result, ok, err, Text,
}
use bab_takehome.Watcher.{Job, Log, WatcherIo, Scan, range_end, enqueue_all, after_logs, scan}

-- The ranges lie end to end from the first block to the block before the last, none is longer than
-- 2000 blocks, the node answered for each of them, from its first to its last block, and the jobs at
-- the end are those before with the logs of the answers enqueued in turn.
abbrev pub Tiles : WatcherIo → ℕ → ℕ → Dict Job → List (ℕ × ℕ) → Dict Job → Type 0
Tiles io from stop retry [] last = (from ≡ stop) × (retry ≡ last)
Tiles io from stop retry ((a, b) ∷ ranges) last =
    (logs : List Log) × (a ≡ from)
    × (a ≤ b)
    × (b < a + 2000)
    × (io.get_logs a b ≡ ok logs)
    × Tiles io (suc b) stop (enqueue_all logs retry) ranges last

-- The scan stopped because the call for the range from the cursor on failed.
abbrev pub Failed : WatcherIo → ℕ → Scan → Type 0
Failed io stop s =
    (e : Text) × (b : ℕ) × (s.cursor ≤ b)
    × (b < stop)
    × (io.get_logs s.cursor b ≡ err e)
    × (s.error ≡ some e)

-- The cursor after the scan is where its ranges end; it is not past the head, unless it was before;
-- and it has passed the head without an error, or a call failed.
abbrev pub Covers : WatcherIo → ℕ → ℕ → Dict Job → Scan → Type 0
Covers io from stop retry s =
    Tiles io from s.cursor retry s.ranges s.retry
    × (from ≤ s.cursor)
    × (s.cursor ≤ max from stop)
    × (((stop ≤ s.cursor) × (s.error ≡ none)) ⊎ Failed io stop s)

after_logs-Covers :
    (io : WatcherIo) (from stop : ℕ) (retry : Dict Job) (rest : Dict Job → Scan)
    (res : Result Text (List Log))
    → io.get_logs from (range_end from stop - 1) ≡ res
    → from < stop
    → ((r : Dict Job) → Covers io (range_end from stop) stop r (rest r))
    → Covers io from stop retry (after_logs from (range_end from stop) retry rest res)
after_logs-Covers io from stop retry rest (err e) asked lt h = (
  (refl, refl),
  omega arith,
  omega arith,
  inr (e, range_end from stop - 1, omega arith, omega arith, asked, refl),
)
after_logs-Covers io from stop retry rest (ok logs) asked lt h =
    let (tiles, le, bound, passed) = h (enqueue_all logs retry) in
    let end : suc (range_end from stop - 1) ≡ range_end from stop = omega arith in
    let s = rest (enqueue_all logs retry) in
    (
      (
        logs,
        refl,
        omega arith,
        omega arith,
        asked,
        subst (λ (n : ℕ). Tiles io n s.cursor (enqueue_all logs retry) s.ranges s.retry) (sym end)
            tiles,
      ),
      omega (arith, le),
      omega (arith, bound),
      passed,
    )

-- The ranges of a poll's scan lie end to end: from the cursor on, with no block left out and none
-- scanned twice, each of at most 2000 blocks, up to the block before the cursor that is saved. For
-- each of them the node answered the call with its first and its last block, and the jobs after the
-- scan are those before it with the logs of the answers enqueued. The cursor never passes the head.
-- It comes to the head without an error, or the error is that of the call for the range from the
-- cursor on: the fuel, the number of blocks, is enough.
pub scan-Covers :
    (io : WatcherIo) (f stop from : ℕ) (retry : Dict Job)
    → stop ≤ from + f
    → Covers io from stop retry (scan io f stop from retry)
unfolding scan
scan-Covers io zero stop from retry h =
    ((refl, refl), omega arith, omega arith, inl (omega arith, refl))
scan-Covers io (suc f) stop from retry h = elim (Bool-cases (ltb from stop)) [
  | inr end ↦ rw end ((refl, refl), omega arith, omega arith, inl (ground arith, refl))
  | inl more ↦ rw more (
      after_logs-Covers io from stop retry (λ r. scan io f stop (range_end from stop) r) _ refl
        (ground arith) (λ r. scan-Covers io f stop (range_end from stop) r (ground arith)))
]
