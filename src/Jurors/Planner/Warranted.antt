-- ===== src/Jurors/Planner/Warranted.antt =====
-- When an action of the planner is in order: an account of each action by the chain's rules and the
-- workflow's memory.
use bab_takehome.Base.{
  ◌+◌, ◌≤◌, ◌<◌, ◌≡◌, ◌≢◌, ◌↔◌, refl, ◌⊎◌, inl, inr, true, false, Option, none, some, arith, Text,
  text_eq_iff, ltb, lookup, get_or, Bool-cases, Option-cases,
}
use bab_takehome.Jurors.Types.{
  Action, deliberate, prepare, commit, reveal, publish, SeatSnap, OurJuror, Snapshot, Memory,
  DecisionRecord, Prepared, key, truthy, zero32,
}
use bab_takehome.Jurors.Planner.{
  find_seat, may_publish, panel, all_committed, is_committed, reveal_open, Turn, acts, waits, idle,
  commit_turn, seated_turn, turn, min_seconds_to_deliberate, max_deliberation_failures,
  max_publish_failures,
}

-- A decision is at hand, is not yet published, and publishing has not failed too often.
abbrev pub Publishable : Memory → Text → Type 0
Publishable mem k =
    ((dec : DecisionRecord) × (lookup k mem.decisions ≡ some dec))
    × (truthy (lookup k mem.published) ≡ none)
    × (get_or (lookup k mem.publish_failures) 0 < max_publish_failures)

pub is_committed_iff : (p : SeatSnap) → (is_committed p ≡ false) ↔ (p.commitment ≡ zero32)
unfolding is_committed
is_committed_iff p = ground (arith, text_eq_iff p.commitment zero32)

-- What holds of the action that a turn plans, if it plans one.
abbrev pub OnTurn : (Action → Type 0) → Turn → Type 0
OnTurn P (acts a) = P a
OnTurn P (waits n) = Unit
OnTurn P idle = Unit

pub OnTurn-map :
    (P Q : Action → Type 0) (t : Turn) → ((a : Action) → P a → Q a) → OnTurn P t → OnTurn Q t
OnTurn-map P Q (acts a) f h = f a h
OnTurn-map P Q (waits n) f h = tt
OnTurn-map P Q idle f h = tt

module _ (s : Snapshot) (mem : Memory) where
  -- An action in the current voting round for the juror `j`, which holds the seat `seat`.
  abbrev pub Warranted : OurJuror → SeatSnap → Action → Type 0
  Warranted j seat (deliberate r i deadline) =
      (r ≡ s.dispute.round)
      × (i ≡ j.index)
      × (deadline ≡ s.dispute.commit_deadline)
      × (seat.commitment ≡ zero32)
      × (s.head.timestamp + min_seconds_to_deliberate ≤ s.dispute.commit_deadline)
      × (lookup (key i r) mem.prepared ≡ none)
      × (lookup (key i r) mem.decisions ≡ none)
      × (get_or (lookup (key i r) mem.deliberation_failures) 0 < max_deliberation_failures)
  Warranted j seat (prepare r i v) =
      (r ≡ s.dispute.round)
      × (i ≡ j.index)
      × (seat.commitment ≡ zero32)
      × (s.head.timestamp ≤ s.dispute.commit_deadline)
      × (lookup (key i r) mem.prepared ≡ none)
      × ((dec : DecisionRecord) × (lookup (key i r) mem.decisions ≡ some dec) × (v ≡ dec.verdict))
  Warranted j seat (commit r i v c) =
      (r ≡ s.dispute.round)
      × (i ≡ j.index)
      × (seat.commitment ≡ zero32)
      × (s.head.timestamp ≤ s.dispute.commit_deadline)
      × (lookup (key i r) mem.prepared ≡ some (record { verdict = v; commitment = c }))
  Warranted j seat (reveal r i v) =
      (r ≡ s.dispute.round)
      × (i ≡ j.index)
      × (seat.commitment ≢ zero32)
      × (seat.revealed ≡ false)
      × ((s.dispute.commit_deadline < s.head.timestamp) ⊎ (all_committed (panel s) ≡ true))
      × (s.head.timestamp ≤ s.dispute.reveal_deadline)
  Warranted j seat (publish r i) =
      (r ≡ s.dispute.round) × (i ≡ j.index) × (seat.revealed ≡ true) × Publishable mem (key i r)
  Warranted j seat _ = ⊥

  commit_turn-Warranted :
      (j : OurJuror) (seat : SeatSnap) (p : Option Prepared) (dec : Option DecisionRecord)
      → seat.commitment ≡ zero32
      → lookup (key j.index s.dispute.round) mem.prepared ≡ p
      → lookup (key j.index s.dispute.round) mem.decisions ≡ dec
      → OnTurn (Warranted j seat) (commit_turn s mem j p dec)
  unfolding commit_turn
  commit_turn-Warranted j seat (some p) dec z hp hd =
      elim (Bool-cases (ltb s.dispute.commit_deadline s.head.timestamp)) [
        | inl late ↦ rw late tt
        | inr open_yet ↦ rw open_yet (refl, refl, z, ground arith, hp)
      ]
  commit_turn-Warranted j seat none (some dec) z hp hd =
      elim (Bool-cases (ltb s.dispute.commit_deadline s.head.timestamp)) [
        | inl late ↦ rw late tt
        | inr open_yet ↦ rw open_yet (refl, refl, z, ground arith, hp, (dec, hd, refl))
      ]
  commit_turn-Warranted j seat none none z hp hd = ground arith

  pub may_publish-Publishable : (k : Text) → may_publish mem k ≡ true → Publishable mem k
  unfolding may_publish
  may_publish-Publishable k h = elim (Option-cases (lookup k mem.decisions)) [
    | inl missing ↦ absurd (ground arith)
    | inr (dec, found) ↦ ((dec, found), ground arith, ground arith)
  ]

  seated_turn-Warranted :
      (j : OurJuror) (seat : SeatSnap) → OnTurn (Warranted j seat) (seated_turn s mem j seat)
  unfolding seated_turn reveal_open
  seated_turn-Warranted j seat = elim (Bool-cases (is_committed seat)) [
    | inl held ↦ rw held (
        ground
          (arith, is_committed_iff seat, may_publish-Publishable (key j.index s.dispute.round)))
    | inr free ↦
        rw free (commit_turn-Warranted j seat _ _ ((is_committed_iff seat).0 free) refl refl)
  ]

  -- The juror `j` holds a seat on the current panel, and the action is warranted for it.
  abbrev pub OnSeat : OurJuror → Action → Type 0
  OnSeat j a = (seat : SeatSnap) × (find_seat (panel s) j.address ≡ some seat) × Warranted j seat a

  pub turn-OnSeat : (j : OurJuror) → OnTurn (OnSeat j) (turn s mem j)
  unfolding turn
  turn-OnSeat j = elim (Option-cases (find_seat (panel s) j.address)) [
    | inl missing ↦ rw missing tt
    | inr (seat, found) ↦ rw found (
        OnTurn-map (Warranted j seat) (OnSeat j) (seated_turn s mem j seat)
          (λ a h. (seat, found, h)) (seated_turn-Warranted j seat))
  ]
