-- ===== src/Policy.antt =====
-- agents/src/buyer/policy.ts: the buyer agent's persisted spending limit.
-- The state of a `SpendingPolicy` is its file: `none` while the file does not exist. `save` replaces
-- the file in one step (a temporary file and a rename). Amounts that a caller passes are signed; the
-- ledger's own numbers are natural, since only checked ones are ever written. A method returns the
-- new file and its result; the time stamp that `record` reads from the clock is an argument.
pub mod Entries
pub mod Limits
pub mod History
mod Examples
use bab_takehome.Base.{
  ℕ, ◌+◌, ◌-◌, ◌<◌, ◌≡◌, Bool, true, false, ◌&&◌, Option, none, some, List, [], ◌∷◌, ◌++◌, ltb,
  if◌then◌else◌, any, Text, text_eq, ℤ, pos, negsuc, ltb_ℤ,
}

pub data Kind : Type 0 where
  purchase bond : Kind

abbrev pub kind_eq : Kind → Kind → Bool
kind_eq purchase purchase = true
kind_eq bond bond = true
kind_eq _ _ = false

pub record LedgerEntry : Type 0 where
  pub kind : Kind
  pub amount : ℕ
  pub ref : Text
  pub version_id : Option Text
  pub tx_hash : Option Text
  pub recorded_at : Text

pub record Ledger : Type 0 where
  pub budget : ℕ
  pub spent : ℕ
  pub entries : List LedgerEntry

-- The messages of `SpendingLimitError`.
pub data SpendingLimitError : Type 0 where
  negative_budget no_budget not_positive over_max_price over_budget : SpendingLimitError
  already_recorded : Kind → Text → SpendingLimitError

pub data Result (A : Type 0) : Type 0 where
  ok : A → Result A
  err : SpendingLimitError → Result A

infixl 5 ◌>>=◌ ◌>>◌
abbrev pub ◌>>=◌ : {A B : Type 0} → Result A → (A → Result B) → Result B
ok a >>= f = f a
err e >>= f = err e

abbrev pub ◌>>◌ : {B : Type 0} → Result (Unit {0}) → Result B → Result B
m >> k = m >>= λ _. k

abbrev pub refuse_if : Bool → SpendingLimitError → Result (Unit {0})
refuse_if true e = err e
refuse_if false e = ok tt

-- The file of a policy.
abbrev pub PolicyFile : Type 0
PolicyFile = Option Ledger

abbrev empty_ledger : Ledger
empty_ledger = record { budget = 0; spent = 0; entries = [] }

abbrev loaded_or_empty : PolicyFile → Ledger
loaded_or_empty none = empty_ledger
loaded_or_empty (some l) = l

-- A method that fails leaves the file as it was; one that succeeds has saved the ledger it returns.
abbrev pub saved : PolicyFile → Result Ledger → PolicyFile
saved file (ok l) = some l
saved file (err e) = file

pub set_budget : PolicyFile → ℤ → Result Ledger
set_budget file (negsuc n) = err negative_budget
set_budget file (pos n) = ok (record (loaded_or_empty file) { budget = n })

pub spent : PolicyFile → ℕ
spent none = 0
spent (some l) = l.spent

-- `budget - spent` if that is positive, and else 0: the subtraction on ℕ.
pub remaining : PolicyFile → ℕ
remaining none = 0
remaining (some l) = l.budget - l.spent

abbrev over_max : ℤ → Option ℤ → Bool
over_max amount none = false
over_max amount (some max_price) = ltb_ℤ max_price amount

abbrev load : PolicyFile → Result Ledger
load none = err no_budget
load (some l) = ok l

-- `if (amount <= 0n) throw`: the amount, now known to be positive.
abbrev positive : ℤ → Result ℕ
positive (negsuc n) = err not_positive
positive (pos n) = if ltb 0 n then ok n else err not_positive

pub authorize : PolicyFile → ℤ → Option ℤ → Result (Unit {0})
authorize file amount max_price = do
  l ← load file
  n ← positive amount
  refuse_if (over_max amount max_price) over_max_price
  refuse_if (ltb l.budget (l.spent + n)) over_budget

-- `e.kind === entry.kind && e.ref === entry.ref`
abbrev pub same_spend : Kind → Text → LedgerEntry → Bool
same_spend kind ref e = kind_eq e.kind kind && text_eq e.ref ref

pub record Spend : Type 0 where
  pub kind : Kind
  pub amount : ℤ
  pub ref : Text
  pub version_id : Option Text
  pub tx_hash : Option Text

abbrev pub entry_of : Spend → ℕ → Text → LedgerEntry
entry_of s n now = record {
  kind = s.kind;
  amount = n;
  ref = s.ref;
  version_id = s.version_id;
  tx_hash = s.tx_hash;
  recorded_at = now;
}

-- `record` in the source.
pub record_spend : PolicyFile → Spend → Text → Result Ledger
unfolding authorize
record_spend file s now = do
  authorize file s.amount none
  l ← load file
  refuse_if (any (same_spend s.kind s.ref) l.entries) (already_recorded s.kind s.ref)
  n ← positive s.amount
  ok (record l { spent = l.spent + n; entries = l.entries ++ entry_of s n now ∷ [] })
