-- ===== src/Policy/History.antt =====
-- The budget file over sequences of calls of the spending policy.
use bab_takehome.Base.{
  ℕ, ◌+◌, ◌≤◌, ◌<◌, ◌≡◌, refl, true, false, none, some, List, [], ◌∷◌, ◌++◌, arith, any, All,
  All-append, Text, ◌≢◌, ℤ, pos, negsuc, max,
}
use bab_takehome.Policy.Entries.{
  total, total-append, Distinct, Distinct-append, any-append_left, any-last,
}
use bab_takehome.Policy.{
  Kind, Ledger, PolicyFile, Result, Spend, ok, err, record_spend, set_budget, saved, same_spend,
  entry_of, spent,
}

pub record IsConsistent (l : Ledger) : Type 0 where
  pub counted : l.spent ≡ total l.entries
  pub positive : All (λ e. 0 < e.amount) l.entries
  pub distinct : Distinct l.entries

abbrev pub FileIsConsistent : PolicyFile → Type 0
FileIsConsistent none = Unit
FileIsConsistent (some l) = IsConsistent l

pub data Call : Type 0 where
  budgets : ℤ → Call
  records : Spend → Text → Call

unfoldable pub perform : PolicyFile → Call → Result Ledger
perform file (budgets b) = set_budget file b
perform file (records s now) = record_spend file s now

unfoldable pub run : PolicyFile → List Call → PolicyFile
run file [] = file
run file (c ∷ cs) = run (saved file (perform file c)) cs

-- What a successful `record_spend` has checked, and the ledger that it saves.
pub record_spend-eq-ok :
    (file : PolicyFile) (s : Spend) (now : Text) (l' : Ledger)
    → record_spend file s now ≡ ok l'
    → (l : Ledger) × (n : ℕ) × (file ≡ some l)
      × (s.amount ≡ pos n)
      × (0 < n)
      × (l.spent + n ≤ l.budget)
      × (any (same_spend s.kind s.ref) l.entries ≡ false)
      × (l' ≡ record l { spent = l.spent + n; entries = l.entries ++ entry_of s n now ∷ [] })
unfolding record_spend
record_spend-eq-ok none s now l' e = cc
record_spend-eq-ok (some l) s now l' e = go s.amount refl
  where
    go :
        (a : ℤ)
        → s.amount ≡ a
        → (m : Ledger) × (n : ℕ) × (◌≡◌ {A = PolicyFile} (some l) (some m))
          × (s.amount ≡ pos n)
          × (0 < n)
          × (m.spent + n ≤ m.budget)
          × (any (same_spend s.kind s.ref) m.entries ≡ false)
          × (l' ≡ record m { spent = m.spent + n; entries = m.entries ++ entry_of s n now ∷ [] })
    go (negsuc n) p = absurd (ground arith)
    go (pos n) p = (l, n, refl, p, ground arith, ground arith, ground arith, ground arith)

loaded-IsConsistent :
    (file : PolicyFile) (b : ℤ)
    → FileIsConsistent file
    → FileIsConsistent (saved file (set_budget file b))
unfolding set_budget total
loaded-IsConsistent none (pos n) h = record { counted = refl; positive = tt; distinct = tt }
loaded-IsConsistent none (negsuc n) h = tt
loaded-IsConsistent (some l) (pos n) h = record {
  counted = h.counted;
  positive = h.positive;
  distinct = h.distinct;
}
loaded-IsConsistent (some l) (negsuc n) h = h

spend-IsConsistent :
    (file : PolicyFile) (s : Spend) (now : Text) (r : Result Ledger)
    → record_spend file s now ≡ r
    → FileIsConsistent file
    → FileIsConsistent (saved file r)
spend-IsConsistent file s now (err x) e h = h
spend-IsConsistent file s now (ok l') e h =
    let (l, n, is_l, _, pos_n, _, fresh, is_l') = record_spend-eq-ok file s now l' e in
    let c : IsConsistent l = rw is_l at h in
    rw is_l' (record {
      counted = omega (arith, total-append l.entries (entry_of s n now), c.counted);
      positive = All-append (λ x. 0 < x.amount) l.entries _ c.positive (pos_n, tt);
      distinct = Distinct-append (entry_of s n now) l.entries fresh c.distinct;
    })

perform-IsConsistent :
    (file : PolicyFile) (c : Call)
    → FileIsConsistent file
    → FileIsConsistent (saved file (perform file c))
unfolding perform
perform-IsConsistent file (budgets b) h = loaded-IsConsistent file b h
perform-IsConsistent file (records s now) h = spend-IsConsistent file s now _ refl h

-- Whatever calls are made, in whatever order and with whatever outcome, a consistent budget file
-- stays consistent: the recorded total is the sum of the entries, every entry is positive, and no
-- two entries are of the same kind with the same reference.
pub run-FileIsConsistent :
    (file : PolicyFile) (cs : List Call) → FileIsConsistent file → FileIsConsistent (run file cs)
unfolding run
run-FileIsConsistent file [] h = h
run-FileIsConsistent file (c ∷ cs) h =
    run-FileIsConsistent (saved file (perform file c)) cs (perform-IsConsistent file c h)

-- The budget that a call sets, 0 for any other call.
abbrev pub budget_of : Call → ℕ
budget_of (budgets (pos n)) = n
budget_of _ = 0

-- The largest budget that the calls set.
abbrev pub largest : List Call → ℕ
largest [] = 0
largest (c ∷ cs) = max (budget_of c) (largest cs)

abbrev IsCapped : ℕ → PolicyFile → Type 0
IsCapped m none = Unit
IsCapped m (some l) = (l.spent ≤ m) × (l.budget ≤ m)

spend-IsCapped :
    (m : ℕ) (file : PolicyFile) (s : Spend) (now : Text) (r : Result Ledger)
    → record_spend file s now ≡ r
    → IsCapped m file
    → IsCapped m (saved file r)
spend-IsCapped m file s now (err x) e h = h
spend-IsCapped m file s now (ok l') e h =
    let (l, n, is_l, _, _, fits, _, is_l') = record_spend-eq-ok file s now l' e in
    let c : (l.spent ≤ m) × (l.budget ≤ m) = rw is_l at h in rw is_l' (omega arith, omega arith)

perform-IsCapped :
    (m : ℕ) (file : PolicyFile) (c : Call)
    → budget_of c ≤ m
    → IsCapped m file
    → IsCapped m (saved file (perform file c))
unfolding perform set_budget
perform-IsCapped m none (budgets (pos n)) b h = (omega arith, b)
perform-IsCapped m (some l) (budgets (pos n)) b h = (h.0, b)
perform-IsCapped m file (budgets (negsuc n)) b h = h
perform-IsCapped m file (records s now) b h = spend-IsCapped m file s now _ refl h

run-IsCapped :
    (m : ℕ) (file : PolicyFile) (cs : List Call)
    → largest cs ≤ m
    → IsCapped m file
    → IsCapped m (run file cs)
unfolding run
run-IsCapped m file [] b h = h
run-IsCapped m file (c ∷ cs) b h =
    run-IsCapped m (saved file (perform file c)) cs (omega arith)
      (perform-IsCapped m file c (omega arith) h)

spent_of_IsCapped : (m : ℕ) (file : PolicyFile) → IsCapped m file → spent file ≤ m
unfolding spent
spent_of_IsCapped m none h = omega arith
spent_of_IsCapped m (some l) h = h.0

-- Starting with no budget file, the total spent after any calls is at most the largest budget that
-- one of them set, even where later calls lowered the budget again.
pub spent-run-le : (cs : List Call) → spent (run none cs) ≤ largest cs
spent-run-le cs =
    spent_of_IsCapped (largest cs) (run none cs)
      (run-IsCapped (largest cs) none cs (omega arith) tt)

abbrev Recorded : Kind → Text → PolicyFile → Type 0
Recorded kind ref none = ⊥
Recorded kind ref (some l) = any (same_spend kind ref) l.entries ≡ true

spend-Recorded :
    (kind : Kind) (ref : Text) (file : PolicyFile) (s : Spend) (now : Text) (r : Result Ledger)
    → record_spend file s now ≡ r
    → Recorded kind ref file
    → Recorded kind ref (saved file r)
spend-Recorded kind ref file s now (err x) e h = h
spend-Recorded kind ref file s now (ok l') e h =
    let (l, n, is_l, _, _, _, _, is_l') = record_spend-eq-ok file s now l' e in
    let c : any (same_spend kind ref) l.entries ≡ true = rw is_l at h in
    rw is_l' (any-append_left kind ref l.entries _ c)

perform-Recorded :
    (kind : Kind) (ref : Text) (file : PolicyFile) (c : Call)
    → Recorded kind ref file
    → Recorded kind ref (saved file (perform file c))
unfolding perform set_budget
perform-Recorded kind ref none c h = absurd h
perform-Recorded kind ref (some l) (budgets (pos n)) h = h
perform-Recorded kind ref (some l) (budgets (negsuc n)) h = h
perform-Recorded kind ref (some l) (records s now) h = spend-Recorded kind ref _ s now _ refl h

run-Recorded :
    (kind : Kind) (ref : Text) (file : PolicyFile) (cs : List Call)
    → Recorded kind ref file
    → Recorded kind ref (run file cs)
unfolding run
run-Recorded kind ref file [] h = h
run-Recorded kind ref file (c ∷ cs) h =
    run-Recorded kind ref (saved file (perform file c)) cs (perform-Recorded kind ref file c h)

record_spend-refuses :
    (file : PolicyFile) (s : Spend) (now : Text) (l : Ledger)
    → Recorded s.kind s.ref file
    → record_spend file s now ≢ ok l
record_spend-refuses file s now l h e =
    let (l, n, is_l, _, _, _, fresh, _) = record_spend-eq-ok file s now l e in
    let c : any (same_spend s.kind s.ref) l.entries ≡ true = rw is_l at h in cc

-- Once a spend has been recorded, no later call records another one of the same kind with the same
-- reference, whatever calls come in between and whatever its amount.
pub record_spend_once :
    (file : PolicyFile) (s : Spend) (now : Text) (l : Ledger) (cs : List Call) (s' : Spend)
    (now' : Text) (l' : Ledger)
    → record_spend file s now ≡ ok l
    → s'.kind ≡ s.kind
    → s'.ref ≡ s.ref
    → record_spend (run (some l) cs) s' now' ≢ ok l'
record_spend_once file s now l cs s' now' l' e k r =
    record_spend-refuses (run (some l) cs) s' now' l'
      (rw (k, r) (run-Recorded s.kind s.ref (some l) cs held))
  where
    held : Recorded s.kind s.ref (some l)
    held =
        let (m, n, _, _, _, _, _, is_l) = record_spend-eq-ok file s now l e in
        rw is_l (any-last (entry_of s n now) m.entries)
