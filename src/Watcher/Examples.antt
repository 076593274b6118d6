-- ===== src/Watcher/Examples.antt =====
-- The watcher at concrete inputs.
use bab_takehome.Base.{
  ◌≡◌, refl, none, some, [], ◌∷◌, arith, ltb, if◌then◌else◌, codes, text_eq, show, show_fuel,
  lookup, insert, ok, err,
}
use bab_takehome.Watcher.{
  Job, purchase, dispute, purchased, dispute_opened, WatcherIo, delete, enqueue_all, scan,
  drain_purchases, delete_all, values, Watcher, poll_once, new_job, next_attempt,
}
use bab_takehome.Watcher.Ranges.{Covers, scan-Covers}
use bab_takehome.Watcher.Keys.{IsKeyed}
use bab_takehome.Watcher.Drain.{Treats}
use bab_takehome.Watcher.Poll.{poll_once-Treats}

-- A chain with a purchase and a dispute in its first blocks, and a relay that fails.
abbrev world : WatcherIo
world = record {
  chain_id = 1;
  block_number = ok 4101;
  get_logs = λ a b.
      ok (if ltb a 1 then purchased 7 ∷ dispute_opened 2 3 ∷ dispute_opened 3 2 ∷ [] else []);
  now = 100;
  handle_purchase = λ id. err (codes "no upload");
}

abbrev fresh : Watcher
fresh = record { cursor = 0; retry = []; in_flight = []; last_error = none }

abbrev once : Watcher
once = record {
  cursor = 4100;
  retry = (codes "purchase:7", next_attempt 100 (new_job purchase 7)) ∷ [];
  in_flight = new_job dispute 2 ∷ [];
  last_error = none;
}

watcher_tests :
    ((scan world 4100 4100 0 []).ranges ≡ (0, 1999) ∷ (2000, 3999) ∷ (4000, 4099) ∷ [])
    × (poll_once world fresh ≡ once)
unfolding scan poll_once enqueue_all drain_purchases delete_all values delete lookup insert text_eq
    show show_fuel
watcher_tests = (refl, refl)

scan-Covers_example : Covers world 0 4100 [] (scan world 4100 4100 0 [])
scan-Covers_example = scan-Covers world 4100 4100 0 [] (omega arith)

-- The delivery that failed, and a world in which it is due and fails again.
abbrev failed : Job
failed = next_attempt 100 (new_job purchase 7)

abbrev later : WatcherIo
later = record world { now = 5000 }

once-IsKeyed : IsKeyed once.retry
unfolding show show_fuel
once-IsKeyed = ((refl, tt), (tt, tt))

failed-waits :
    (lookup failed.key once.retry ≡ some failed) × ((poll_once later once).last_error ≡ none)
unfolding scan poll_once enqueue_all drain_purchases delete_all values delete lookup insert text_eq
    show show_fuel
failed-waits = (refl, refl)

poll_once-Treats_example : Treats later failed (lookup failed.key (poll_once later once).retry)
poll_once-Treats_example =
    poll_once-Treats later once failed once-IsKeyed (failed-waits.0) refl (omega arith)
      (failed-waits.1)
