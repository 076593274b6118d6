-- ===== src/Policy/Limits.antt =====
-- What a single call of the spending policy lets through.
use bab_takehome.Base.{ℕ, ◌+◌, ◌≤◌, ◌<◌, ◌≡◌, ◌↔◌, refl, none, some, arith, ℤ, pos, negsuc, ◌≤ℤ◌}
use bab_takehome.Policy.{Ledger, PolicyFile, ok, authorize, remaining}

-- A purchase is authorized exactly when a budget file exists, the amount is positive, it does not
-- exceed the given maximum price, and the total spent stays within the budget.
pub authorize_iff :
    (file : PolicyFile) (amount max_price : ℤ)
    → (authorize file amount (some max_price) ≡ ok tt) ↔ (
        (l : Ledger) × (n : ℕ) × (file ≡ some l)
        × (amount ≡ pos n)
        × (0 < n)
        × (amount ≤ℤ max_price)
        × (l.spent + n ≤ l.budget))
unfolding authorize
authorize_iff none amount max_price = ground arith
authorize_iff (some l) (negsuc n) max_price = ground arith
authorize_iff (some l) (pos n) max_price =
    (λ e. (l, n, refl, refl, ground arith, ground arith, ground arith), λ h. ground arith)

-- Without a maximum price, the amounts that are authorized are those from 1 up to what `remaining`
-- reports, whatever the file holds.
pub authorize-remaining :
    (file : PolicyFile) (n : ℕ)
    → (authorize file (pos n) none ≡ ok tt) ↔ ((0 < n) × (n ≤ remaining file))
unfolding authorize remaining
authorize-remaining none n = ground arith
authorize-remaining (some l) n = ground arith
