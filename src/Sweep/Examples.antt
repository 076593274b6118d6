-- ===== src/Sweep/Examples.antt =====
-- A wake at concrete inputs: three disputes, one of them resolved and one of another ground.
use bab_takehome.Base.{
  ◌≡◌, ◌↔◌, refl, true, false, none, some, [], ◌∷◌, ◌++◌, Some, if◌then◌else◌, ◌==◌, codes, show,
  show_fuel, text_eq, ok, traverse,
}
use bab_takehome.Sweep.{
  SweepIo, Row, row_of, open_of, ids_from, open_disputes, started, WakeReport, wake,
}
use bab_takehome.Sweep.Complete.{IsReported, IsDue, wake-IsReported}

abbrev chain : SweepIo
chain = record {
  next_dispute_id = ok 4;
  get_dispute = λ id. ok (if id == 1 then (2, 3, 1) else if id == 2 then (2, 2, 1) else (1, 2, 1));
  lock_token = λ id. codes "lock-" ++ id;
  get_hook = λ token. none;
  run_status = λ run. none;
  enabled = true;
  start = λ id token. ok (codes "run-1");
}

abbrev second : Row
second = row_of 2 (2, 2, 1)

abbrev report : WakeReport
report = record {
  next_dispute_id = 4;
  nothing_to_do = false;
  focus = some (codes "dispute #3 is resolved or not a FalseDescription dispute");
  disputes = record { of = open_of second; action = started (codes "run-1") } ∷ [];
}

woken : wake chain (some 3) ≡ ok report
unfolding wake open_disputes traverse ids_from text_eq show show_fuel
woken = refl

wake-IsReported_example :
    (chain.next_dispute_id ≡ ok 4) × (Some (IsReported chain 2 2 1) report.disputes ↔ IsDue 4 2 2 2)
wake-IsReported_example = wake-IsReported chain (some 3) report 2 2 2 1 woken refl
