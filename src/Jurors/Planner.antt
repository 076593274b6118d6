-- ===== src/Jurors/Planner.antt =====
-- services/jurors-vercel/src/lib/planner.ts: what to do next for one dispute, as a function of the
-- chain snapshot and the workflow's memory. Subtractions of `bigint`s stand where the source has
-- already made sure that they are not negative.
pub mod Notes
pub mod Warranted
pub mod Justified
pub mod Progress
pub mod Waiting
use bab_takehome.Base.{
  ℕ, suc, ◌+◌, ◌-◌, ◌*◌, ◌/◌, min, max, Bool, true, false, ◌&&◌, ◌||◌, not, Option, none, some,
  List, [], ◌∷◌, ◌++◌, Text, codes, show, text_eq, to_lower, includes, Dict, lookup, length, take,
  drop, every, any, keep, ltb, leb, ◌==◌, if◌then◌else◌, get_or, is_some,
}
use bab_takehome.Jurors.Types.{
  Verdict, Action, select, deliberate, prepare, commit, reveal, publish, tally, withdraw, SeatSnap,
  DisputeSnap, OurJuror, Snapshot, Memory, DecisionRecord, Prepared, KeeperOutcome, Plan, act, wait,
  done, key, truthy, zero32, seats_per_round, ground_false_description, status_none,
  status_awaiting_selection, status_voting, status_resolved,
}
use Notes.{
  disabled_note, not_found_note, other_ground_note, leftovers_note, resolved_note, block_note,
  retry_note, select_note, status_note, actions_note, waiting_note,
}

abbrev pub poll_seconds : ℕ
poll_seconds = 10

abbrev pub selection_poll_seconds : ℕ
selection_poll_seconds = 3

abbrev pub evidence_retry_seconds : ℕ
evidence_retry_seconds = 8

abbrev pub max_deliberation_failures : ℕ
max_deliberation_failures = 6

abbrev pub max_publish_failures : ℕ
max_publish_failures = 5

abbrev pub max_withdraw_failures : ℕ
max_withdraw_failures = 3

abbrev pub min_seconds_to_deliberate : ℕ
min_seconds_to_deliberate = 15

abbrev pub deadline_slack : ℕ
deadline_slack = 2

unfoldable pub same : Text → Text → Bool
same a b = text_eq (to_lower a) (to_lower b)

-- `panel.find((p) => same(p.juror, j.address))`
unfoldable pub find_seat : List SeatSnap → Text → Option SeatSnap
find_seat [] address = none
find_seat (p ∷ ps) address = if same p.juror address then some p else find_seat ps address

-- `mem.decisions[k] && !mem.published[k] && (mem.publishFailures[k] ?? 0) < MAX_PUBLISH_FAILURES`
unfoldable pub may_publish : Memory → Text → Bool
may_publish mem k =
    is_some (lookup k mem.decisions)
    && not (is_some (truthy (lookup k mem.published)))
    && ltb (get_or (lookup k mem.publish_failures) 0) max_publish_failures

-- The inner loop over `s.seats` of the resolved case; `i` is the index of the first seat.
unfoldable pub leftovers : Memory → OurJuror → ℕ → List SeatSnap → List Action
leftovers mem j i [] = []
leftovers mem j i (seat ∷ seats) =
    let round = i / seats_per_round + 1 in
    let rest = leftovers mem j (i + 1) seats in
    if same seat.juror j.address && seat.revealed && may_publish mem (key j.index round)
    then publish round j.index ∷ rest
    else rest

unfoldable pub withdraw_key : ℕ → Text
withdraw_key index = codes "withdraw:" ++ show index

abbrev pub withdrawals : Memory → OurJuror → List Action
withdrawals mem j =
    if ltb 0 j.claimable
      && ltb (get_or (lookup (withdraw_key j.index) mem.failures) 0) max_withdraw_failures
    then withdraw j.index ∷ []
    else []

unfoldable pub resolved_actions : Memory → List SeatSnap → List OurJuror → List Action
resolved_actions mem seats [] = []
resolved_actions mem seats (j ∷ js) =
    leftovers mem j 0 seats ++ (withdrawals mem j ++ resolved_actions mem seats js)

-- `if (actions.length) return act; …`
abbrev pub act_or : List Action → Text → Plan → Plan
act_or [] note otherwise = otherwise
act_or (a ∷ more) note otherwise = act (a ∷ more) note

unfoldable pub plan_resolved : Snapshot → Memory → Plan
plan_resolved s mem =
    act_or (resolved_actions mem s.seats s.jurors) leftovers_note (done (resolved_note s.dispute))

unfoldable pub select_key : ℕ → ℕ → Text
select_key round block = codes "select:" ++ show round ++ codes ":" ++ show block

-- `last && !last.ok && /NotEnoughJurors/.test(last.reason ?? '')`
abbrev pub lacked_jurors : Option KeeperOutcome → Bool
lacked_jurors none = false
lacked_jurors (some last) =
    not last.succeeded && includes (codes "NotEnoughJurors") (get_or last.reason [])

unfoldable pub plan_selection : Snapshot → Memory → Plan
plan_selection s mem =
    let d = s.dispute in
    let now = s.head.timestamp in
    if leb s.head.number d.selection_block
    then wait selection_poll_seconds (block_note d.selection_block)
    else if lacked_jurors (lookup (select_key d.round d.selection_block) mem.keeper)
        && leb now d.selection_deadline
    then wait (max selection_poll_seconds (d.selection_deadline - now + deadline_slack))
        (retry_note d.selection_deadline)
    else act (select d.round s.keeper_index ∷ []) (select_note d.round)

-- `s.seats.slice((round - 1) * SEATS, round * SEATS)`; in round 0 both give no seat.
unfoldable pub panel : Snapshot → List SeatSnap
panel s =
    let first = (s.dispute.round - 1) * seats_per_round in
    take (s.dispute.round * seats_per_round - first) (drop first s.seats)

unfoldable pub is_committed : SeatSnap → Bool
is_committed p = not (text_eq p.commitment zero32)

unfoldable pub all_committed : List SeatSnap → Bool
all_committed ps = length ps == seats_per_round && every is_committed ps

unfoldable pub all_revealed : List SeatSnap → Bool
all_revealed ps = length ps == seats_per_round && every (λ p. p.revealed) ps

unfoldable pub reveal_open : Snapshot → Bool
reveal_open s =
    let d = s.dispute in
    let now = s.head.timestamp in
    (ltb d.commit_deadline now || all_committed (panel s)) && leb now d.reveal_deadline

-- What one round of the loop over our jurors adds to `actions` or to `waits`.
pub data Turn : Type 0 where
  acts : Action → Turn
  waits : ℕ → Turn
  idle : Turn

abbrev pub verdict_of : Option Prepared → Option DecisionRecord → Option Verdict
verdict_of (some p) dec = some p.verdict
verdict_of none (some dec) = some dec.verdict
verdict_of none none = none

-- The branch `seat.commitment === ZERO32`.
unfoldable pub commit_turn :
    Snapshot → Memory → OurJuror → Option Prepared → Option DecisionRecord → Turn
commit_turn s mem j (some p) dec =
    if ltb s.dispute.commit_deadline s.head.timestamp
    then idle
    else acts (commit s.dispute.round j.index p.verdict p.commitment)
commit_turn s mem j none (some dec) =
    if ltb s.dispute.commit_deadline s.head.timestamp
    then idle
    else acts (prepare s.dispute.round j.index dec.verdict)
commit_turn s mem j none none =
    let d = s.dispute in
    let now = s.head.timestamp in
    if ltb d.commit_deadline now
    then idle
    else if leb max_deliberation_failures
        (get_or (lookup (key j.index d.round) mem.deliberation_failures) 0)
    then idle
    else if ltb (d.commit_deadline - now) min_seconds_to_deliberate
    then idle
    else acts (deliberate d.round j.index d.commit_deadline)

unfoldable pub seated_turn : Snapshot → Memory → OurJuror → SeatSnap → Turn
seated_turn s mem j seat =
    let d = s.dispute in
    let now = s.head.timestamp in
    let k = key j.index d.round in
    if not (is_committed seat)
    then commit_turn s mem j (lookup k mem.prepared) (lookup k mem.decisions)
    else if not seat.revealed
    then (if reveal_open s
        then acts
            (reveal d.round j.index (verdict_of (lookup k mem.prepared) (lookup k mem.decisions)))
        else if leb now d.commit_deadline
        then waits (d.commit_deadline - now + deadline_slack)
        else idle)
    else if may_publish mem k
    then acts (publish d.round j.index)
    else idle

abbrev pub turn_at : Snapshot → Memory → OurJuror → Option SeatSnap → Turn
turn_at s mem j none = idle
turn_at s mem j (some seat) = seated_turn s mem j seat

unfoldable pub turn : Snapshot → Memory → OurJuror → Turn
turn s mem j = turn_at s mem j (find_seat (panel s) j.address)

abbrev pub add_action : Turn → List Action → List Action
add_action (acts a) rest = a ∷ rest
add_action (waits n) rest = rest
add_action idle rest = rest

abbrev pub add_wait : Turn → List ℕ → List ℕ
add_wait (acts a) rest = rest
add_wait (waits n) rest = n ∷ rest
add_wait idle rest = rest

unfoldable pub turn_actions : Snapshot → Memory → List OurJuror → List Action
turn_actions s mem [] = []
turn_actions s mem (j ∷ js) = add_action (turn s mem j) (turn_actions s mem js)

unfoldable pub turn_waits : Snapshot → Memory → List OurJuror → List ℕ
turn_waits s mem [] = []
turn_waits s mem (j ∷ js) = add_wait (turn s mem j) (turn_waits s mem js)

abbrev pub may_tally : Snapshot → Bool
may_tally s = all_revealed (panel s) || ltb s.dispute.reveal_deadline s.head.timestamp

unfoldable pub tally_actions : Snapshot → List Action
tally_actions s = if may_tally s then tally s.dispute.round s.keeper_index ∷ [] else []

unfoldable pub deadline_waits : Snapshot → List ℕ
deadline_waits s =
    let d = s.dispute in
    let now = s.head.timestamp in
    if may_tally s
    then []
    else if not (all_committed (panel s)) && leb now d.commit_deadline
    then (d.commit_deadline - now + deadline_slack) ∷ []
    else (d.reveal_deadline - now + deadline_slack) ∷ []

-- `Math.min(first, ...rest)`
unfoldable pub minimum : ℕ → List ℕ → ℕ
minimum m [] = m
minimum m (n ∷ ns) = minimum (min m n) ns

abbrev pub voting_actions : Snapshot → Memory → List Action
voting_actions s mem = turn_actions s mem s.jurors ++ tally_actions s

-- The constant `failures` of the source: how long to sleep at most.
unfoldable pub poll_or_retry_seconds : Memory → ℕ
poll_or_retry_seconds mem =
    if any (λ e. ltb 0 e.1) mem.deliberation_failures then evidence_retry_seconds else poll_seconds

unfoldable pub voting_seconds : Snapshot → Memory → ℕ
voting_seconds s mem =
    max deadline_slack
      (minimum (poll_or_retry_seconds mem) (turn_waits s mem s.jurors ++ deadline_waits s))

unfoldable pub plan_voting : Snapshot → Memory → Plan
plan_voting s mem = act_or (voting_actions s mem) (actions_note (voting_actions s mem)) (
    wait (voting_seconds s mem) (
      waiting_note s.dispute.round (length (keep is_committed (panel s)))
        (length (keep (λ p. p.revealed) (panel s)))))

unfoldable pub plan_next : Snapshot → Memory → Plan
plan_next s mem =
    let status = s.dispute.status in
    if not s.enabled
    then done disabled_note
    else if status == status_none
    then done not_found_note
    else if not (s.dispute.ground_no == ground_false_description)
    then done other_ground_note
    else if status == status_resolved
    then plan_resolved s mem
    else if status == status_awaiting_selection
    then plan_selection s mem
    else if not (status == status_voting)
    then wait poll_seconds (status_note status)
    else plan_voting s mem
