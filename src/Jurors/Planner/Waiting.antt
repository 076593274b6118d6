-- ===== src/Jurors/Planner/Waiting.antt =====
-- How long the planner lets the workflow sleep, and when it ends the workflow.
use bab_takehome.Base.{
  ℕ, ◌+◌, ◌-◌, ◌/◌, ◌≤◌, ◌≡◌, refl, ◌⊎◌, inl, inr, true, false, List, [], ◌∷◌, ◌++◌, arith, Text,
  lookup, get_or, All, Bool-cases, leb, min,
}
use bab_takehome.Jurors.Types.{
  Action, SeatSnap, OurJuror, Snapshot, Memory, Plan, wait, done, key, status_voting,
  status_resolved, seats_per_round,
}
use bab_takehome.Jurors.Planner.{
  may_publish, leftovers, withdraw_key, resolved_actions, plan_resolved, plan_selection, panel,
  all_committed, may_tally, tally_actions, turn_actions, plan_voting, plan_next, act_or,
  poll_or_retry_seconds, voting_seconds, minimum, turn_waits, deadline_waits, max_withdraw_failures,
  deadline_slack, poll_seconds, voting_actions,
}
use bab_takehome.Jurors.Planner.Notes.{resolved_note}
use bab_takehome.Jurors.Planner.Warranted.{Publishable, may_publish-Publishable}
use bab_takehome.Jurors.Planner.Justified.{HasStatus}

minimum-le : (m : ℕ) (ns : List ℕ) → minimum m ns ≤ m
unfolding minimum
minimum-le m [] = omega arith
minimum-le m (n ∷ ns) = omega (arith, minimum-le (min m n) ns)

minimum-append_le : (m : ℕ) (ns : List ℕ) (n : ℕ) → minimum m (ns ++ n ∷ []) ≤ n
unfolding minimum
minimum-append_le m [] n = omega arith
minimum-append_le m (k ∷ ns) n = minimum-append_le (min m k) ns n

act_or-eq-wait :
    (actions : List Action) (note : Text) (p : Plan) {n : ℕ} {why : Text}
    → act_or actions note p ≡ wait n why
    → (actions ≡ []) × (p ≡ wait n why)
act_or-eq-wait [] note p e = (refl, e)
act_or-eq-wait (a ∷ more) note p e = cc

-- The deadline that the round waits for: the commit deadline while it has not passed and a seat is
-- still without a commitment, and else the reveal deadline.
pub next_deadline : Snapshot → ℕ
next_deadline s = elim (all_committed (panel s)) [
  | true ↦ s.dispute.reveal_deadline
  | false ↦ elim (leb s.head.timestamp s.dispute.commit_deadline) [
    | true ↦ s.dispute.commit_deadline
    | false ↦ s.dispute.reveal_deadline
  ]
]

module _ (s : Snapshot) (mem : Memory) where
  tally_actions-eq-nil : turn_actions s mem s.jurors ++ tally_actions s ≡ [] → may_tally s ≡ false
  unfolding tally_actions
  tally_actions-eq-nil e = go (turn_actions s mem s.jurors) e
    where
      go : (xs : List Action) → xs ++ tally_actions s ≡ [] → may_tally s ≡ false
      go [] p = ground arith
      go (x ∷ xs) p = cc

  deadline_waits_lem :
      may_tally s ≡ false
      → (s.head.timestamp ≤ next_deadline s)
        × (deadline_waits s ≡ (next_deadline s - s.head.timestamp + deadline_slack) ∷ [])
  unfolding deadline_waits next_deadline
  deadline_waits_lem h = ground arith

  poll_or_retry_seconds-le : poll_or_retry_seconds mem ≤ poll_seconds
  unfolding poll_or_retry_seconds
  poll_or_retry_seconds-le = ground arith

  voting_seconds_bounds :
      may_tally s ≡ false
      → (voting_seconds s mem ≤ poll_seconds)
        × (s.head.timestamp + voting_seconds s mem ≤ next_deadline s + deadline_slack)
  unfolding voting_seconds
  voting_seconds_bounds h =
      let (ahead, e) = deadline_waits_lem h in
      let last = next_deadline s - s.head.timestamp + deadline_slack in
      rw e (
        omega (
          arith,
          poll_or_retry_seconds-le,
          minimum-le (poll_or_retry_seconds mem) (turn_waits s mem s.jurors ++ last ∷ []),
          minimum-append_le (poll_or_retry_seconds mem) (turn_waits s mem s.jurors) last,
        ))

  plan_next-eq-wait :
      {seconds : ℕ} {note : Text}
      → HasStatus s status_voting
      → plan_next s mem ≡ wait seconds note
      → plan_voting s mem ≡ wait seconds note
  unfolding plan_next
  plan_next-eq-wait v e = ground arith

  plan_voting-eq-wait :
      {seconds : ℕ} {note : Text}
      → plan_voting s mem ≡ wait seconds note
      → (may_tally s ≡ false) × (voting_seconds s mem ≡ seconds)
  unfolding plan_voting
  plan_voting-eq-wait e =
      let (none_planned, q) = act_or-eq-wait (voting_actions s mem) _ _ e in
      (tally_actions-eq-nil none_planned, cc)

  -- In a voting round the workflow never sleeps longer than ten seconds, nor more than two seconds
  -- past the next deadline: the commit deadline while it lies ahead and a commitment is missing, and
  -- else the reveal deadline, which in that case has not passed.
  pub voting_wait_bounds :
      (seconds : ℕ) (note : Text)
      → HasStatus s status_voting
      → plan_next s mem ≡ wait seconds note
      → (seconds ≤ poll_seconds)
        × (s.head.timestamp ≤ next_deadline s)
        × (s.head.timestamp + seconds ≤ next_deadline s + deadline_slack)
  voting_wait_bounds seconds note v e =
      let (early, q) = plan_voting-eq-wait (plan_next-eq-wait v e) in
      ground (arith, voting_seconds_bounds early, deadline_waits_lem early)

  -- A plan to wait is always one of at least two seconds, in whatever status: the loop never spins.
  pub plan_next-wait_le :
      (seconds : ℕ) (note : Text) → plan_next s mem ≡ wait seconds note → deadline_slack ≤ seconds
  unfolding plan_next plan_resolved plan_selection plan_voting voting_seconds
  plan_next-wait_le seconds note e = ground arith

  leftovers-eq-nil :
      (j : OurJuror) (i : ℕ) (seats : List SeatSnap)
      → ((k : Text) → may_publish mem k ≡ false)
      → leftovers mem j i seats ≡ []
  unfolding leftovers
  leftovers-eq-nil j i [] h = refl
  leftovers-eq-nil j i (seat ∷ seats) h =
      ground (arith, leftovers-eq-nil j (i + 1) seats h, h (key j.index (i / seats_per_round + 1)))

  -- Nothing can be collected for the juror, or collecting it has failed too often.
  abbrev pub IsPaid : OurJuror → Type 0
  IsPaid j =
      (j.claimable ≡ 0)
      ⊎ (max_withdraw_failures ≤ get_or (lookup (withdraw_key j.index) mem.failures) 0)

  resolved_actions-eq-nil :
      (seats : List SeatSnap) (js : List OurJuror)
      → ((k : Text) → may_publish mem k ≡ false)
      → All IsPaid js
      → resolved_actions mem seats js ≡ []
  unfolding resolved_actions
  resolved_actions-eq-nil seats [] h paid = refl
  resolved_actions-eq-nil seats (j ∷ js) h (p, paid) =
      ground (arith, leftovers-eq-nil j 0 seats h, resolved_actions-eq-nil seats js h paid)

  may_publish-eq-false : (k : Text) → ¬ Publishable mem k → may_publish mem k ≡ false
  may_publish-eq-false k h = elim (Bool-cases (may_publish mem k)) [
    | inl may ↦ absurd (h (may_publish-Publishable s mem k may))
    | inr may_not ↦ may_not
  ]

  -- Once the dispute is resolved, the workflow ends with its outcome as soon as no decision is left
  -- that may be published and every juror of ours has been paid or has failed to collect too often.
  pub plan_next-resolved_done :
      HasStatus s status_resolved
      → ((k : Text) → ¬ Publishable mem k)
      → All IsPaid s.jurors
      → plan_next s mem ≡ done (resolved_note s.dispute)
  unfolding plan_next plan_resolved
  plan_next-resolved_done v h paid =
      ground
        (arith, resolved_actions-eq-nil s.seats s.jurors (λ k. may_publish-eq-false k (h k)) paid)
