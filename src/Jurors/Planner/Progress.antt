-- ===== src/Jurors/Planner/Progress.antt =====
-- The actions that the planner plans in a voting round when a move is due.
use bab_takehome.Base.{
  ◌≤◌, ◌<◌, ◌≡◌, ◌≢◌, refl, ◌⊎◌, inl, inr, true, false, some, List, [], ◌∷◌, ◌++◌, arith, Text,
  lookup, Some, Some-append_left, Some-append_right,
}
use bab_takehome.Jurors.Types.{
  Action, commit, reveal, tally, SeatSnap, OurJuror, Snapshot, Memory, Prepared, Plan, key, zero32,
  status_voting,
}
use bab_takehome.Jurors.Planner.{
  find_seat, panel, all_committed, all_revealed, reveal_open, Turn, acts, waits, idle, verdict_of,
  commit_turn, seated_turn, turn, add_action, turn_actions, tally_actions, plan_voting, plan_next,
  act_or,
}
use bab_takehome.Jurors.Planner.Warranted.{is_committed_iff}
use bab_takehome.Jurors.Planner.Justified.{HasStatus, planned}

-- `x` stands in the list.
abbrev pub Listed : {A : Type 0} → A → List A → Type 0
Listed x xs = Some (λ y. y ≡ x) xs

Listed-act_or :
    (a : Action) (actions : List Action) (note : Text) (p : Plan)
    → Listed a actions
    → Listed a (planned (act_or actions note p))
Listed-act_or a [] note p h = absurd h
Listed-act_or a (b ∷ more) note p h = h

Listed-add_action :
    (a : Action) (t : Turn) (xs : List Action) → Listed a xs → Listed a (add_action t xs)
Listed-add_action a (acts b) xs h = inr h
Listed-add_action a (waits n) xs h = h
Listed-add_action a idle xs h = h

module _ (s : Snapshot) (mem : Memory) where
  turn_actions-Listed :
      (js : List OurJuror) (j : OurJuror) (a : Action)
      → Listed j js
      → turn s mem j ≡ acts a
      → Listed a (turn_actions s mem js)
  unfolding turn_actions
  turn_actions-Listed [] j a h e = absurd h
  turn_actions-Listed (k ∷ js) j a (inl p) e = rw (p, e) (inl refl)
  turn_actions-Listed (k ∷ js) j a (inr h) e =
      Listed-add_action a (turn s mem k) _ (turn_actions-Listed js j a h e)

  voting_plan : HasStatus s status_voting → plan_next s mem ≡ plan_voting s mem
  unfolding plan_next
  voting_plan v = ground arith

  turn-planned :
      (j : OurJuror) (a : Action)
      → HasStatus s status_voting
      → Listed j s.jurors
      → turn s mem j ≡ acts a
      → Listed a (planned (plan_next s mem))
  turn-planned j a v h e = rw (voting_plan v) (
      unfold plan_voting in
      Listed-act_or a (turn_actions s mem s.jurors ++ tally_actions s) _ _
        (Some-append_left _ (turn_actions s mem s.jurors) _ (turn_actions-Listed s.jurors j a h e)))

  -- In a voting round, a juror of ours that sits on the panel without a commitment, and whose vote
  -- is prepared, gets its commit planned while the commit deadline has not passed; the commit
  -- carries the prepared verdict and commitment.
  pub plan_next-commit :
      (j : OurJuror) (seat : SeatSnap) (p : Prepared)
      → HasStatus s status_voting
      → Listed j s.jurors
      → find_seat (panel s) j.address ≡ some seat
      → seat.commitment ≡ zero32
      → s.head.timestamp ≤ s.dispute.commit_deadline
      → lookup (key j.index s.dispute.round) mem.prepared ≡ some p
      → Listed (commit s.dispute.round j.index p.verdict p.commitment) (planned (plan_next s mem))
  plan_next-commit j seat p v h found free early ready = turn-planned j _ v h (
      unfold turn in
      rw found (
        unfold seated_turn in
        rw ((is_committed_iff seat).1 free, ready) (unfold commit_turn in ground arith)))

  -- In a voting round, a juror of ours whose vote on the panel is committed and not yet revealed
  -- gets its reveal planned whenever revealing is open: up to the reveal deadline, once the commit
  -- deadline has passed or every seat of the round has committed.
  pub plan_next-reveal :
      (j : OurJuror) (seat : SeatSnap)
      → HasStatus s status_voting
      → Listed j s.jurors
      → find_seat (panel s) j.address ≡ some seat
      → seat.commitment ≢ zero32
      → seat.revealed ≡ false
      → (s.dispute.commit_deadline < s.head.timestamp) ⊎ (all_committed (panel s) ≡ true)
      → s.head.timestamp ≤ s.dispute.reveal_deadline
      → Listed
          (reveal s.dispute.round j.index (
            verdict_of
              (lookup (key j.index s.dispute.round) mem.prepared)
              (lookup (key j.index s.dispute.round) mem.decisions)))
          (planned (plan_next s mem))
  plan_next-reveal j seat v h found held hidden opened early = turn-planned j _ v h (
      unfold turn in
      rw found (unfold seated_turn reveal_open in ground (arith, is_committed_iff seat)))

  -- In a voting round, the tally is planned as soon as every seat has revealed or the reveal
  -- deadline has passed, whatever else is planned beside it.
  pub plan_next-tally :
      HasStatus s status_voting
      → (all_revealed (panel s) ≡ true) ⊎ (s.dispute.reveal_deadline < s.head.timestamp)
      → Listed (tally s.dispute.round s.keeper_index) (planned (plan_next s mem))
  plan_next-tally v due = rw (voting_plan v) (
      unfold plan_voting in
      Listed-act_or _ (turn_actions s mem s.jurors ++ tally_actions s) _ _
        (Some-append_right _ (turn_actions s mem s.jurors) _ tally_due))
    where
      tally_due : Listed (tally s.dispute.round s.keeper_index) (tally_actions s)
      tally_due = unfold tally_actions in ground arith
