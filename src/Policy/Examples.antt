-- ===== src/Policy/Examples.antt =====
-- The spending policy at concrete inputs.
use bab_takehome.Base.{
  ℕ, ◌+◌, ◌≤◌, ◌<◌, ◌≡◌, ◌≢◌, ◌↔◌, refl, none, some, [], ◌∷◌, List, codes, text_eq, pos, negsuc,
  ◌≤ℤ◌,
}
use bab_takehome.Policy.{
  Ledger, PolicyFile, Spend, purchase, ok, err, authorize, record_spend, remaining, spent,
  set_budget, over_budget, over_max_price, not_positive, no_budget, negative_budget,
  already_recorded, entry_of,
}
use bab_takehome.Policy.Limits.{authorize_iff}
use bab_takehome.Policy.History.{
  Call, budgets, records, run, run-FileIsConsistent, FileIsConsistent, spent-run-le, largest,
  record_spend_once, perform,
}

policy : Unit {0}
unfolding run perform record_spend set_budget authorize spent remaining
policy = tt

abbrev paid : Ledger
paid = record { budget = 100; spent = 60; entries = [] }

abbrev bought : Spend
bought = record {
  kind = purchase;
  amount = pos 30;
  ref = codes "7";
  version_id = none;
  tx_hash = none;
}

abbrev after_bought : Ledger
after_bought = record paid { spent = 90; entries = entry_of bought 30 (codes "now") ∷ [] }

policy_tests :
    (record_spend (some paid) bought (codes "now") ≡ ok after_bought)
    × (record_spend (some after_bought) bought (codes "later") ≡ err over_budget)
    × (authorize (some paid) (pos 41) none ≡ err over_budget)
    × (authorize (some paid) (pos 20) (some (pos 19)) ≡ err over_max_price)
    × (authorize (some paid) (negsuc 4) none ≡ err not_positive)
    × (authorize none (pos 1) none ≡ err no_budget)
    × (set_budget (some paid) (negsuc 0) ≡ err negative_budget)
unfolding policy
policy_tests = (refl, refl, refl, refl, refl, refl, refl)

abbrev calls : List Call
calls =
    budgets (pos 100)
    ∷ records bought (codes "t1")
    ∷ budgets (pos 20)
    ∷ records bought (codes "t2")
    ∷ []

duplicate_refused :
    record_spend
      (run none (budgets (pos 100) ∷ records bought (codes "t1") ∷ []))
      bought
      (codes "t2")
    ≡ err (already_recorded purchase (codes "7"))
unfolding policy text_eq
duplicate_refused = refl

authorize_iff_example : (authorize (some paid) (pos 40) (some (pos 50)) ≡ ok tt) ↔ (
    (l : Ledger) × (n : ℕ) × (◌≡◌ {A = PolicyFile} (some paid) (some l))
    × (pos 40 ≡ pos n)
    × (0 < n)
    × (pos 40 ≤ℤ pos 50)
    × (l.spent + n ≤ l.budget))
authorize_iff_example = authorize_iff (some paid) (pos 40) (pos 50)

run-FileIsConsistent_example : FileIsConsistent (run none calls)
run-FileIsConsistent_example = run-FileIsConsistent none calls tt

spent-run-le_example : spent (run none calls) ≤ largest calls
spent-run-le_example = spent-run-le calls

record_spend_once_example :
    record_spend (run (some after_bought) calls) bought (codes "t3") ≢ ok after_bought
record_spend_once_example =
    record_spend_once (some paid) bought (codes "now") after_bought calls bought (codes "t3")
      after_bought policy_tests.0 refl refl
