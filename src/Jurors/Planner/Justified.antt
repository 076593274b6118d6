-- ===== src/Jurors/Planner/Justified.antt =====
-- The actions that the planner plans, in each status of the dispute.
use bab_takehome.Base.{
  ℕ, ◌+◌, ◌/◌, ◌<◌, ◌≡◌, refl, ◌⊎◌, inl, inr, true, false, List, [], ◌∷◌, ◌++◌, arith, Text, lookup,
  get_or, All, All-append, Some, Some-elim, Bool-cases,
}
use bab_takehome.Jurors.Types.{
  Action, select, deliberate, prepare, commit, reveal, publish, tally, withdraw, SeatSnap, OurJuror,
  Snapshot, Memory, Plan, act, wait, done, key, seats_per_round, status_awaiting_selection,
  status_voting, status_resolved, ground_false_description,
}
use bab_takehome.Jurors.Planner.{
  same, leftovers, withdraw_key, withdrawals, resolved_actions, plan_resolved, select_key,
  lacked_jurors, plan_selection, panel, all_revealed, Turn, acts, waits, idle, turn, add_action,
  turn_actions, may_tally, tally_actions, plan_voting, plan_next, act_or, max_withdraw_failures,
}
use bab_takehome.Jurors.Planner.Warranted.{
  Publishable, OnTurn, OnTurn-map, may_publish-Publishable, OnSeat, turn-OnSeat,
}

pub All-map :
    (P Q : Action → Type 0) (xs : List Action) → ((a : Action) → P a → Q a) → All P xs → All Q xs
All-map P Q [] f h = tt
All-map P Q (x ∷ xs) f (p, h) = (f x p, All-map P Q xs f h)

All-add_action :
    (P : Action → Type 0) (t : Turn) (xs : List Action)
    → OnTurn P t
    → All P xs
    → All P (add_action t xs)
All-add_action P (acts a) xs p h = (p, h)
All-add_action P (waits n) xs p h = h
All-add_action P idle xs p h = h

-- The actions that a plan tells the driver to carry out.
abbrev pub planned : Plan → List Action
planned (act actions note) = actions
planned (wait seconds note) = []
planned (done outcome) = []

All-act_or :
    (P : Action → Type 0) (actions : List Action) (note : Text) (p : Plan)
    → All P actions
    → All P (planned p)
    → All P (planned (act_or actions note p))
All-act_or P [] note p h k = k
All-act_or P (a ∷ more) note p h k = h

-- The service is enabled, and the dispute is one for jurors and has this status.
abbrev pub HasStatus : Snapshot → ℕ → Type 0
HasStatus s status =
    (s.enabled ≡ true)
    × (s.dispute.ground_no ≡ ground_false_description)
    × (s.dispute.status ≡ status)

module _ (s : Snapshot) (mem : Memory) where
  -- Some juror of ours holds a seat on the current panel for which the action is warranted.
  abbrev pub ForSeat : Action → Type 0
  ForSeat a = Some (λ j. OnSeat s mem j a) s.jurors

  -- A seat of the list is held by `j`, in round `r`, and revealed; `i` is the index of the first.
  abbrev pub HeldAt : OurJuror → ℕ → ℕ → List SeatSnap → Type 0
  HeldAt j r i [] = ⊥
  HeldAt j r i (seat ∷ seats) =
      ((r ≡ i / seats_per_round + 1) × (same seat.juror j.address ≡ true) × (seat.revealed ≡ true))
      ⊎ HeldAt j r (i + 1) seats

  -- What a resolved dispute leaves for the juror `j` to do.
  abbrev pub LeftTo : OurJuror → ℕ → List SeatSnap → Action → Type 0
  LeftTo j i seats (publish r x) = (x ≡ j.index) × HeldAt j r i seats × Publishable mem (key x r)
  LeftTo j i seats (withdraw x) =
      (x ≡ j.index)
      × (0 < j.claimable)
      × (get_or (lookup (withdraw_key x) mem.failures) 0 < max_withdraw_failures)
  LeftTo j i seats _ = ⊥

  abbrev pub LeftOver : Action → Type 0
  LeftOver a = Some (λ j. LeftTo j 0 s.seats a) s.jurors

  -- When each action is in order.
  abbrev pub Justified : Action → Type 0
  Justified (select r i) =
      HasStatus s status_awaiting_selection
      × (r ≡ s.dispute.round)
      × (i ≡ s.keeper_index)
      × (s.dispute.selection_block < s.head.number)
      × ((lacked_jurors (lookup (select_key s.dispute.round s.dispute.selection_block) mem.keeper)
            ≡ false)
          ⊎ (s.dispute.selection_deadline < s.head.timestamp))
  Justified (tally r i) =
      HasStatus s status_voting
      × (r ≡ s.dispute.round)
      × (i ≡ s.keeper_index)
      × ((all_revealed (panel s) ≡ true) ⊎ (s.dispute.reveal_deadline < s.head.timestamp))
  Justified (withdraw i) = HasStatus s status_resolved × LeftOver (withdraw i)
  Justified (publish r i) =
      (HasStatus s status_voting × ForSeat (publish r i))
      ⊎ (HasStatus s status_resolved × LeftOver (publish r i))
  Justified a = HasStatus s status_voting × ForSeat a

  turn_actions-OnSeat :
      (js : List OurJuror) → All (λ a. Some (λ j. OnSeat s mem j a) js) (turn_actions s mem js)
  unfolding turn_actions
  turn_actions-OnSeat [] = tt
  turn_actions-OnSeat (j ∷ js) =
      All-add_action _ (turn s mem j) _
        (OnTurn-map (OnSeat s mem j) _ (turn s mem j) (λ a h. inl h) (turn-OnSeat s mem j))
        (All-map _ _ (turn_actions s mem js) (λ a h. inr h) (turn_actions-OnSeat js))

  ForSeat-Justified : HasStatus s status_voting → (a : Action) → ForSeat a → Justified a
  ForSeat-Justified v (deliberate r i d) h = (v, h)
  ForSeat-Justified v (prepare r i x) h = (v, h)
  ForSeat-Justified v (commit r i x c) h = (v, h)
  ForSeat-Justified v (reveal r i x) h = (v, h)
  ForSeat-Justified v (publish r i) h = inl (v, h)
  ForSeat-Justified v (select r i) h =
      Some-elim (λ j. OnSeat s mem j (select r i)) s.jurors (λ j x. absurd x.2) h
  ForSeat-Justified v (tally r i) h =
      Some-elim (λ j. OnSeat s mem j (tally r i)) s.jurors (λ j x. absurd x.2) h
  ForSeat-Justified v (withdraw i) h =
      Some-elim (λ j. OnSeat s mem j (withdraw i)) s.jurors (λ j x. absurd x.2) h

  LeftOver-Justified : HasStatus s status_resolved → (a : Action) → LeftOver a → Justified a
  LeftOver-Justified v (publish r i) h = inr (v, h)
  LeftOver-Justified v (withdraw i) h = (v, h)
  LeftOver-Justified v (select r i) h = Some-elim _ s.jurors (λ j x. absurd x) h
  LeftOver-Justified v (deliberate r i d) h = Some-elim _ s.jurors (λ j x. absurd x) h
  LeftOver-Justified v (prepare r i x) h = Some-elim _ s.jurors (λ j x. absurd x) h
  LeftOver-Justified v (commit r i x c) h = Some-elim _ s.jurors (λ j x. absurd x) h
  LeftOver-Justified v (reveal r i x) h = Some-elim _ s.jurors (λ j x. absurd x) h
  LeftOver-Justified v (tally r i) h = Some-elim _ s.jurors (λ j x. absurd x) h

  LeftTo-cons :
      (j : OurJuror) (i : ℕ) (seat : SeatSnap) (seats : List SeatSnap) (a : Action)
      → LeftTo j (i + 1) seats a
      → LeftTo j i (seat ∷ seats) a
  LeftTo-cons j i seat seats (publish r x) h = (h.0, inr h.1, h.2)
  LeftTo-cons j i seat seats (withdraw x) h = h
  LeftTo-cons j i seat seats (select r x) h = h
  LeftTo-cons j i seat seats (deliberate r x d) h = h
  LeftTo-cons j i seat seats (prepare r x v) h = h
  LeftTo-cons j i seat seats (commit r x v c) h = h
  LeftTo-cons j i seat seats (reveal r x v) h = h
  LeftTo-cons j i seat seats (tally r x) h = h

  leftovers-LeftTo :
      (j : OurJuror) (i : ℕ) (seats : List SeatSnap)
      → All (LeftTo j i seats) (leftovers mem j i seats)
  unfolding leftovers
  leftovers-LeftTo j i [] = tt
  leftovers-LeftTo j i (seat ∷ seats) =
      let rest =
        All-map (LeftTo j (i + 1) seats) (LeftTo j i (seat ∷ seats)) (leftovers mem j (i + 1) seats)
          (LeftTo-cons j i seat seats) (leftovers-LeftTo j (i + 1) seats) in
      ground (arith, rest, may_publish-Publishable s mem (key j.index (i / seats_per_round + 1)))

  withdrawals-LeftTo : (j : OurJuror) → All (LeftTo j 0 s.seats) (withdrawals mem j)
  withdrawals-LeftTo j = ground arith

  resolved_actions-LeftOver :
      (js : List OurJuror)
      → All (λ a. Some (λ j. LeftTo j 0 s.seats a) js) (resolved_actions mem s.seats js)
  unfolding resolved_actions
  resolved_actions-LeftOver [] = tt
  resolved_actions-LeftOver (j ∷ js) =
      All-append _ (leftovers mem j 0 s.seats) _
        (All-map _ _ (leftovers mem j 0 s.seats) (λ a h. inl h) (leftovers-LeftTo j 0 s.seats))
        (All-append _ (withdrawals mem j) _
          (All-map _ _ (withdrawals mem j) (λ a h. inl h) (withdrawals-LeftTo j))
          (All-map _ _ (resolved_actions mem s.seats js) (λ a h. inr h)
            (resolved_actions-LeftOver js)))

  tally_actions-Justified : HasStatus s status_voting → All Justified (tally_actions s)
  unfolding tally_actions
  tally_actions-Justified v = elim (Bool-cases (may_tally s)) [
    | inl due ↦ rw due ((v, refl, refl, ground arith), tt)
    | inr early ↦ rw early tt
  ]

  plan_voting-Justified : HasStatus s status_voting → All Justified (planned (plan_voting s mem))
  unfolding plan_voting
  plan_voting-Justified v =
      All-act_or Justified (turn_actions s mem s.jurors ++ tally_actions s) _ _
        (All-append Justified (turn_actions s mem s.jurors) _
          (All-map ForSeat Justified (turn_actions s mem s.jurors) (ForSeat-Justified v)
            (turn_actions-OnSeat s.jurors))
          (tally_actions-Justified v))
        tt

  plan_resolved-Justified :
      HasStatus s status_resolved → All Justified (planned (plan_resolved s mem))
  unfolding plan_resolved
  plan_resolved-Justified v =
      All-act_or Justified (resolved_actions mem s.seats s.jurors) _ _
        (All-map LeftOver Justified (resolved_actions mem s.seats s.jurors) (LeftOver-Justified v)
          (resolved_actions-LeftOver s.jurors))
        tt

  plan_selection-Justified :
      HasStatus s status_awaiting_selection → All Justified (planned (plan_selection s mem))
  unfolding plan_selection
  plan_selection-Justified v = ground arith

  -- Every action that the planner plans, from whatever snapshot and memory, is in order: each has the
  -- status, the deadline and the seat that the chain asks for, and what the memory must hold for it.
  pub plan_next-Justified : All Justified (planned (plan_next s mem))
  unfolding plan_next
  plan_next-Justified =
      ground (arith, plan_voting-Justified, plan_resolved-Justified, plan_selection-Justified)
