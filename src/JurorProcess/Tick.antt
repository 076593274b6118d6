-- ===== src/JurorProcess/Tick.antt =====
-- services/jurors/src/juror.ts: the tick of a juror's process.
use bab_takehome.Base.{
  ℕ, zero, suc, ◌+◌, ◌-◌, ◌*◌, ◌/◌, Bool, true, false, ◌&&◌, ◌||◌, not, Option, none, some, List,
  [], ◌∷◌, length, take, drop, every, get_or, if◌then◌else◌, leb, ltb, ◌==◌, Text, codes, text_eq,
  to_lower, Dict,
}
use bab_takehome.Jurors.Types.{
  ground_false_description, status_awaiting_selection, status_voting, status_resolved,
  seats_per_round,
}
use bab_takehome.JurorProcess.Store.{
  DisputeRecord, JurorStore, cursor, set_cursor, dep, dispute, ensure_dispute, update_dispute,
}
use bab_takehome.JurorProcess.Market.{
  DisputeView, SeatView, zero32, select_jurors, tally_dispute, withdraw, Log, dispute_opened,
  jurors_selected, other_log, Process, TickIo, Ran, done, threw, process_of, and_then, send,
}
use bab_takehome.JurorProcess.Phases.{on_store, commit_phase, maybe_publish, reveal_phase}

-- `withdraw` with what `onResolved` does with its hash.
abbrev pub withdraw_with : TickIo → ℕ → Option ℕ → Process → Ran
withdraw_with io id none p = threw p
withdraw_with io id (some balance) p =
    if balance == 0
    then done p
    else send io withdraw (λ h p. p)
        (λ h p. done (on_store (update_dispute id (λ rec. record rec { withdraw_tx = some h })) p))
        p

abbrev pub is_mine : TickIo → SeatView → Bool
is_mine io s = text_eq (to_lower s.juror) (to_lower io.me)

-- The rounds of the seats that are this juror's, from the seat with number `i` on.
unfoldable pub my_rounds : TickIo → ℕ → List SeatView → List ℕ
my_rounds io i [] = []
my_rounds io i (s ∷ seats) =
    if is_mine io s
    then (i / seats_per_round + 1) ∷ my_rounds io (suc i) seats
    else my_rounds io (suc i) seats

unfoldable pub publish_rounds : TickIo → ℕ → List ℕ → Process → Process
publish_rounds io id [] p = p
publish_rounds io id (r ∷ rs) p = publish_rounds io id rs (maybe_publish io id r p)

abbrev pub final_verdict : DisputeView → Text
final_verdict d =
    if d.fallback_no_quorum
    then codes "FallbackNoQuorum"
    else if d.verdict == 1
    then codes "Uphold"
    else codes "Reject"

unfoldable pub on_resolved : TickIo → ℕ → DisputeView → List SeatView → Process → Ran
on_resolved io id d seats p =
    let mine = my_rounds io 0 seats in
    let p =
      on_store
        (update_dispute id
          (λ rec. record rec { resolved = some true; final_verdict = some (final_verdict d) }))
        (publish_rounds io id mine p) in
    if io.auto_withdraw && not (length mine == 0)
    then withdraw_with io id io.claimable p
    else done p

pub record Head : Type 0 where
  pub number : ℕ
  pub timestamp : ℕ

abbrev pub keep_selecting : TickIo → ℕ → Head → DisputeView → Process → Ran
keep_selecting io id head d p =
    if io.keeper && ltb d.selection_block head.number
    then send io (select_jurors id) (λ h p. p) (λ h p. done p) p
    else done p

abbrev pub is_committed : SeatView → Bool
is_committed s = not (text_eq s.commitment zero32)

abbrev pub panel : ℕ → List SeatView → List SeatView
panel zero seats = []
panel (suc n) seats = take seats_per_round (drop (n * seats_per_round) seats)

unfoldable pub my_seat : TickIo → List SeatView → Option SeatView
my_seat io [] = none
my_seat io (s ∷ seats) = if is_mine io s then some s else my_seat io seats

abbrev pub vote_phase :
    TickIo → ℕ → Head → DisputeView → List SeatView → Option SeatView → Process → Ran
vote_phase io id head d seats none p = done p
vote_phase io id head d seats (some seat) p =
    if not (is_committed seat)
    then (if leb head.timestamp d.commit_deadline then commit_phase io id d.round p else done p)
    else if not seat.revealed
    then (if (ltb d.commit_deadline head.timestamp || every is_committed seats)
          && leb head.timestamp d.reveal_deadline
        then reveal_phase io id d.round seat p
        else done p)
    else done (maybe_publish io id d.round p)

abbrev pub keep_tallying : TickIo → ℕ → Head → DisputeView → List SeatView → Process → Ran
keep_tallying io id head d seats p =
    if io.keeper && (every (λ s. s.revealed) seats || ltb d.reveal_deadline head.timestamp)
    then send io (tally_dispute id) (λ h p. p) (λ h p. done p) p
    else done p

abbrev pub drive_voting : TickIo → ℕ → Head → DisputeView → List SeatView → Process → Ran
drive_voting io id head d seats p =
    and_then (vote_phase io id head d seats (my_seat io seats) p) (keep_tallying io id head d seats)

abbrev pub drive_seen : TickIo → ℕ → Head → Option (DisputeView × List SeatView) → Process → Ran
drive_seen io id head none p = threw p
drive_seen io id head (some (d, seats)) p =
    if not (d.ground == ground_false_description)
    then done (on_store (update_dispute id (λ rec. record rec { resolved = some true })) p)
    else if d.status == status_resolved
    then on_resolved io id d seats p
    else if d.status == status_awaiting_selection
    then keep_selecting io id head d p
    else if d.status == status_voting
    then drive_voting io id head d (panel d.round seats) p
    else done p

unfoldable pub drive : TickIo → ℕ → Head → Process → Ran
drive io id head p = drive_seen io id head (io.get_dispute id) p

-- One log of `scanLogs`.
abbrev pub on_log : Log → JurorStore → JurorStore
on_log (dispute_opened id ground purchase_id block) st =
    if ground == ground_false_description
    then ensure_dispute id (some purchase_id) (some block) st
    else st
on_log (jurors_selected id) st = ensure_dispute id none none st
on_log other_log st = st

unfoldable pub on_logs : List Log → JurorStore → JurorStore
on_logs [] st = st
on_logs (l ∷ ls) st = on_logs ls (on_log l st)

-- The last block of a range from `from` on.
abbrev pub range_end : TickIo → ℕ → ℕ → ℕ
range_end io head from =
    if ltb (from + io.log_range - 1) head then from + io.log_range - 1 else head

abbrev pub after_range : ℕ → (Process → Ran) → Option (List Log) → Process → Ran
after_range to again none p = threw p
after_range to again (some logs) p = again (on_store (λ st. set_cursor to (on_logs logs st)) p)

-- The loop of `scanLogs`; a unit of fuel for each block up to the head.
unfoldable pub scan_from : TickIo → ℕ → ℕ → ℕ → Process → Ran
scan_from io zero head from p = done p
scan_from io (suc f) head from p =
    if leb from head && not (io.stops_at_block from)
    then after_range (range_end io head from) (scan_from io f head (range_end io head from + 1))
        (io.get_logs from (range_end io head from)) p
    else done p

unfoldable pub scan_logs : TickIo → ℕ → Process → Ran
scan_logs io head p = scan_from io (head - cursor p.store) head (cursor p.store + 1) p

-- The records in the order of their numbers, which is that of an object's integer keys.
unfoldable pub insert_id : ℕ → List ℕ → List ℕ
insert_id n [] = n ∷ []
insert_id n (m ∷ ms) = if ltb m n then m ∷ insert_id n ms else n ∷ m ∷ ms

unfoldable pub ids_of : Dict DisputeRecord → List ℕ
ids_of [] = []
ids_of ((k, rec) ∷ ds) = insert_id rec.dispute_id (ids_of ds)

abbrev pub is_resolved : ℕ → JurorStore → Bool
is_resolved id st = elim (dispute id st) [ none ↦ false | some rec ↦ get_or rec.resolved false ]

unfoldable pub drive_all : TickIo → Head → List ℕ → Process → Process
drive_all io head [] p = p
drive_all io head (id ∷ ids) p = drive_all io head ids (
    if is_resolved id p.store || io.stops_at_dispute id then p else process_of (drive io id head p))

unfoldable pub tick : TickIo → Head → Process → Process
tick io head p = process_of (
    and_then (scan_logs io head.number p)
      (λ p. done (drive_all io head (ids_of (dep p.store).disputes) p)))
