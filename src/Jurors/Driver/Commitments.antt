-- ===== src/Jurors/Driver/Commitments.antt =====
-- The memory of prepared votes over the iterations of the driver.
use bab_takehome.Base.{
  ℕ, ◌≡◌, refl, ap, ◌∙◌, inl, inr, Bool, true, false, none, some, List, [], ◌∷◌, Text, lookup, All,
  Some-elim,
}
use bab_takehome.Jurors.Types.{
  Verdict, Action, select, deliberate, prepare, commit, reveal, publish, tally, withdraw, Snapshot,
  Memory, Prepared, ActionResult, Plan, act, wait, done, key,
}
use bab_takehome.Jurors.Planner.{plan_next}
use bab_takehome.Jurors.Planner.Warranted.{OnSeat}
use bab_takehome.Jurors.Planner.Justified.{Justified, planned, plan_next-Justified, All-map}
use bab_takehome.Jurors.Planner.Progress.{Listed}
use bab_takehome.Jurors.Batches.{batches}
use bab_takehome.Jurors.Batches.Grouping.{batches-All}
use bab_takehome.Jurors.Memories.{
  note, fold_result, apply, fold_decision, fold_publication, fold_withdrawal, decided, succeeded,
  prepared_of,
}
use bab_takehome.Jurors.Memories.Frame.{lookup-put_ne}
use bab_takehome.Jurors.Driver.{
  Outcome, value, thrown, DriverIo, apply_results, run_batches, Next, finished, goes_on,
  follow_plan, after_snapshot, iterate,
}
use bab_takehome.Jurors.Driver.Bounds.{OnNext}

-- The action prepares a vote under the key `k`.
abbrev PreparesAt : Text → Action → Type 0
PreparesAt k (prepare r j v) = key j r ≡ k
PreparesAt k _ = ⊥

-- Folding in any other result leaves the prepared vote under `k`.
fold_decision-prepared :
    (mem : Memory) (k : Text) (o : _) → (fold_decision mem k o).prepared ≡ mem.prepared
fold_decision-prepared mem k none = refl
fold_decision-prepared mem k (some d) = refl

fold_publication-prepared :
    (mem : Memory) (k : Text) (o : _) → (fold_publication mem k o).prepared ≡ mem.prepared
fold_publication-prepared mem k none = refl
fold_publication-prepared mem k (some d) = refl

fold_withdrawal-prepared :
    (mem : Memory) (j : ℕ) (b : Bool) (o : _) → (fold_withdrawal mem j b o).prepared ≡ mem.prepared
fold_withdrawal-prepared mem j true o = refl
fold_withdrawal-prepared mem j false o = refl

apply-prepared :
    (k : Text) (mem : Memory) (a : Action) (r : ActionResult) (s : Snapshot)
    → ¬ PreparesAt k a
    → lookup k (apply mem a r s).prepared ≡ lookup k mem.prepared
unfolding apply note fold_result
apply-prepared k mem (prepare x i v) r s h =
    lookup-put_ne (key i x) k (prepared_of r) mem.prepared h
apply-prepared k mem (deliberate x i d) r s h =
    ap (lookup k) (fold_decision-prepared mem (key i x) (decided r))
apply-prepared k mem (publish x i) r s h = ap (lookup k) (fold_publication-prepared mem (key i x) _)
apply-prepared k mem (withdraw i) r s h =
    ap (lookup k) (fold_withdrawal-prepared mem i (succeeded r) _)
apply-prepared k mem (select x i) r s h = refl
apply-prepared k mem (commit x i v c) r s h = refl
apply-prepared k mem (reveal x i v) r s h = refl
apply-prepared k mem (tally x i) r s h = refl

-- The memory holds this prepared vote.
abbrev pub Holds : Text → Prepared → Memory → Type 0
Holds k p mem = lookup k mem.prepared ≡ some p

Justified-not_PreparesAt :
    (s : Snapshot) (mem : Memory) (k : Text) (p : Prepared) (a : Action)
    → Holds k p mem
    → Justified s mem a
    → ¬ PreparesAt k a
Justified-not_PreparesAt s mem k p (prepare r j v) h (_, seat) e =
    Some-elim (λ x. OnSeat s mem x (prepare r j v)) s.jurors
      (λ x w. let unprepared : lookup (key j r) mem.prepared ≡ none = w.2.4 in cc) seat
Justified-not_PreparesAt s mem k p _ h q e = absurd e

All-Listed : (P : Action → Type 0) (a : Action) (xs : List Action) → All P xs → Listed a xs → P a
All-Listed P a [] h l = absurd l
All-Listed P a (x ∷ xs) (p, h) (inl e) = rw (← e) p
All-Listed P a (x ∷ xs) (p, h) (inr l) = All-Listed P a xs h l

module _ (io : DriverIo) where
  open io use {World}

  apply_results-Holds :
      (k : Text) (p : Prepared) (s : Snapshot) (batch : List Action) (rs : List ActionResult)
      (mem : Memory) (b : Bool)
      → All (λ a. ¬ PreparesAt k a) batch
      → Holds k p mem
      → Holds k p (apply_results io s batch rs mem b).0
  unfolding apply_results
  apply_results-Holds k p s [] rs mem b q h = h
  apply_results-Holds k p s (a ∷ batch) [] mem b q h = h
  apply_results-Holds k p s (a ∷ batch) (r ∷ rs) mem b (other, q) h =
      apply_results-Holds k p s batch rs (apply mem a r s) _ q
        (apply-prepared k mem a r s other ∙ h)

  run_batches-Holds :
      (k : Text) (p : Prepared) (id : Text) (s : Snapshot) (bs : List (List Action)) (mem : Memory)
      (b : Bool) (w : World)
      → All (All (λ a. ¬ PreparesAt k a)) bs
      → Holds k p mem
      → Holds k p (run_batches io id s bs mem b w).0
  unfolding run_batches
  run_batches-Holds k p id s [] mem b w q h = h
  run_batches-Holds k p id s (batch ∷ bs) mem b w (here, q) h =
      run_batches-Holds k p id s bs _ _ _ q (apply_results-Holds k p s batch _ mem b here h)

  follow_plan-Holds :
      (k : Text) (p : Prepared) (id : Text) (s : Snapshot) (mem : Memory) (w : World) (plan : Plan)
      → All (λ a. ¬ PreparesAt k a) (planned plan)
      → Holds k p mem
      → OnNext io (Holds k p) (follow_plan io id s mem w plan)
  follow_plan-Holds k p id s mem w (act actions why) q h =
      run_batches-Holds k p id s (batches actions) mem false w
        (batches-All (λ a. ¬ PreparesAt k a) actions q) h
  follow_plan-Holds k p id s mem w (wait seconds why) q h = h
  follow_plan-Holds k p id s mem w (done outcome) q h = tt

  after_snapshot-Holds :
      (k : Text) (p : Prepared) (id : Text) (mem : Memory) (got : Outcome Snapshot) (w : World)
      → Holds k p mem
      → OnNext io (Holds k p) (after_snapshot io id mem got w)
  unfolding after_snapshot
  after_snapshot-Holds k p id mem (thrown message) w h = unfold note in h
  after_snapshot-Holds k p id mem (value s) w h =
      follow_plan-Holds k p id s mem w (plan_next s mem)
        (All-map _ _ (planned (plan_next s mem)) (λ a. Justified-not_PreparesAt s mem k p a h)
          (plan_next-Justified s mem))
        h

  iterate-Holds :
      (k : Text) (p : Prepared) (id : Text) (mem : Memory) (w : World)
      → Holds k p mem
      → OnNext io (Holds k p) (iterate io id mem w)
  unfolding iterate
  iterate-Holds k p id mem w h = after_snapshot-Holds k p id mem _ _ h

  -- The run of one dispute gets, in some number of iterations, from one memory to another.
  pub data Reaches (id : Text) (mem : Memory) (w : World) : Memory → World → Type 0 where
    here : Reaches id mem w mem w
    next :
        {m n : Memory} {v u : World}
        → Reaches id mem w m v
        → iterate io id m v ≡ goes_on n u
        → Reaches id mem w n u

  goes_on-Holds :
      (k : Text) (p : Prepared) (x : Next io) (n : Memory) (u : World)
      → x ≡ goes_on n u
      → OnNext io (Holds k p) x
      → Holds k p n
  goes_on-Holds k p (finished outcome) n u e h = cc
  goes_on-Holds k p (goes_on m v) n u e h = cc

  Reaches-Holds :
      (k : Text) (p : Prepared) {id : Text} {mem : Memory} {w : World} {n : Memory} {u : World}
      → Holds k p mem
      → Reaches id mem w n u
      → Holds k p n
  Reaches-Holds k p h here = h
  Reaches-Holds k p {id} h (next {m} {n} {v} {u} r e) =
      goes_on-Holds k p (iterate io id m v) n u e (iterate-Holds k p id m v (Reaches-Holds k p h r))

  Justified-commit :
      (s : Snapshot) (mem : Memory) (round j : ℕ) (v : Verdict) (c : Text) (p : Prepared)
      → Holds (key j round) p mem
      → Justified s mem (commit round j v c)
      → (v ≡ p.verdict) × (c ≡ p.commitment)
  Justified-commit s mem round j v c p h (_, seat) =
      Some-elim (λ x. OnSeat s mem x (commit round j v c)) s.jurors
        (λ x q.
          let sent : lookup (key j round) mem.prepared
              ≡ some (record { verdict = v; commitment = c }) =
            q.2.4 in
          (cc, cc))
        seat

  -- Once a vote is prepared for a juror and a round, then at any later point of the run, whatever the
  -- chain and the steps have answered, the memory still holds it, and any commit that is planned for
  -- that juror and round carries its verdict and its commitment.
  pub commit_fixed :
      (id : Text) (mem n : Memory) (w u : World) (s : Snapshot) (round j : ℕ) (p : Prepared)
      (v : Verdict) (c : Text)
      → Holds (key j round) p mem
      → Reaches id mem w n u
      → Listed (commit round j v c) (planned (plan_next s n))
      → Holds (key j round) p n × (v ≡ p.verdict) × (c ≡ p.commitment)
  commit_fixed id mem n w u s round j p v c h r listed =
      let later = Reaches-Holds (key j round) p h r in
      let (same_v, same_c) = Justified-commit s n round j v c p later (
        All-Listed (Justified s n) (commit round j v c) (planned (plan_next s n))
          (plan_next-Justified s n) listed) in
      (later, same_v, same_c)
