-- ===== src/JurorProcess/Examples.antt =====
-- A juror's process at concrete inputs.
use bab_takehome.Base.{
  ℕ, zero, suc, ◌<◌, ◌≡◌, refl, inl, inr, true, false, none, some, List, [], ◌∷◌, ◌++◌, arith, Some,
  Text, codes, text_eq, to_lower, starts_with, show, show_fuel, lookup, insert, ok, fraction,
}
use bab_takehome.Commitments.Tree.{is_bytes32}
use bab_takehome.Deliberation.Types.{uphold, reject, Decision}
use bab_takehome.JurorProcess.Store.{
  JurorStateFile, JurorStore, set_cursor, ensure_dispute, round_record, ensure_round, update_round,
  update_dispute, open_store, new_deployment,
}
use bab_takehome.JurorProcess.Commit.{
  VoteHash, new_salt, commitment_of, prepare_commit, prepare_commit_unsaved,
}
use bab_takehome.JurorProcess.Market.{
  DisputeView, SeatView, zero32, commit_vote, reveal_vote, dispute_opened, Sent, Process, TickIo,
  done, process_of, send,
}
use bab_takehome.JurorProcess.Phases.{
  commit_phase, start_job, finish_job, reveal_phase, maybe_publish,
}
use bab_takehome.JurorProcess.Tick.{
  my_seat, Head, drive, on_logs, scan_from, scan_logs, insert_id, ids_of, drive_all, tick,
}
use bab_takehome.JurorProcess.Refines.{book_of, fresh_secret, IsWritten, prepare_commit-write_once}
use bab_takehome.JurorProcess.Unsaved.{IsUnsaved, prepare_commit_unsaved-IsUnsaved}
use bab_takehome.JurorProcess.Reveal.{
  RevealsOwnVote, reveal_phase-RevealsOwnVote, IsScanned, scan_logs-IsScanned,
}
use bab_takehome.JurorProcess.Durable.{AllDurable}
use bab_takehome.JurorProcess.Steps.{IsRandom}
use bab_takehome.JurorProcess.History.{
  Event, ticked, finished, restarted, restart, run, first, AllRandom, run-AllDurable,
  run-commit_once,
}

abbrev digits : Text
digits = codes "00000000000000000000000000000000000000000000000000000000000000aa"

abbrev vote_hash : VoteHash
vote_hash id r code salt juror = codes "0x" ++ show code

abbrev seat : Text → SeatView
seat commitment = record {
  juror = codes "0xJ";
  vote = 0;
  revealed = false;
  commitment = commitment;
}

abbrev view : DisputeView
view = record {
  ground = 2;
  status = 2;
  verdict = 0;
  round = 1;
  fallback_no_quorum = false;
  selection_block = 1;
  commit_deadline = 100;
  reveal_deadline = 200;
}

abbrev world : Text → TickIo
world on_chain = record {
  hash = vote_hash;
  me = codes "0xj";
  random = λ id r. digits;
  keeper = false;
  auto_withdraw = false;
  now_ms = 5000;
  evidence_retry_ms = 1000;
  log_range = 10;
  chain_id = 5;
  market = codes "0xM";
  data_dir = codes "d";
  tee_url = none;
  time = codes "now";
  upload = record {
    show_number = λ x. [];
    sha256_hex = λ s. codes "0x";
    put = λ url body. none;
    post = λ url json signature. none;
  };
  sign = λ h. none;
  simulate = λ tx. true;
  write = λ tx. some (codes "0xt");
  receipt = λ h. some true;
  get_logs = λ from to. some (dispute_opened 7 2 (codes "1") (codes "3") ∷ []);
  get_dispute = λ id. some (view, seat on_chain ∷ []);
  claimable = some 0;
  stops_at_block = λ b. false;
  stops_at_dispute = λ id. false;
}

abbrev deployed : JurorStateFile
deployed = record {
  version = 1;
  juror = codes "0xj";
  deployments = (codes "5:0xm", new_deployment 1) ∷ [];
}

abbrev opened : JurorStore
opened = record { key = codes "5:0xm"; state = deployed; file = some deployed }

abbrev decision : Decision
decision = record {
  output = record {
    verdict = uphold;
    confidence = fraction false 1 1;
    rationale = codes "r";
    cited_facts = codes "f" ∷ [];
  };
  screened = record {
    rationale = codes "r";
    cited_facts = codes "f" ∷ [];
    screening = record { passed = true; reasons = []; dropped_facts = 0 };
  };
  model = record {
    provider = codes "p";
    base_url = codes "b";
    requested = codes "q";
    resolved = codes "m";
    served = codes "m";
  };
  prompt_version = codes "v";
  prompt_hash = codes "0x0";
  packet_sha256 = codes "0x1";
  attempts = 1;
  decided_at = codes "now";
}

opens : open_store none (codes "0xj") 5 (codes "0xM") 1 ≡ ok opened
unfolding open_store lookup insert show show_fuel to_lower
opens = refl

abbrev head : Head
head = record { number = 3; timestamp = 50 }

-- The dispute is found, decided on and voted on, and voted on again after a restart.
abbrev events : List (Event (codes "0xj") 5 (codes "0xM") 1)
events =
    ticked (world zero32) head
    ∷ finished 7 1 (some decision)
    ∷ ticked (world zero32) head
    ∷ restarted
    ∷ ticked (world zero32) head
    ∷ []

world-IsRandom : (on_chain : Text) → IsRandom (world on_chain)
unfolding is_bytes32 starts_with
world-IsRandom on_chain id r = refl

events-AllRandom : AllRandom (codes "0xj") 5 (codes "0xM") 1 events
events-AllRandom = (world-IsRandom zero32, (world-IsRandom zero32, (world-IsRandom zero32, tt)))

abbrev end : Process
end = run (codes "0xj") 5 (codes "0xM") 1 events (first (codes "0xj") 5 (codes "0xM") 1 opened)

abbrev sent_at : ℕ → List Sent → Sent
sent_at n [] = record { tx = commit_vote 0 0 []; store = opened }
sent_at zero (e ∷ es) = e
sent_at (suc n) (e ∷ es) = sent_at n es

abbrev vote_a : Sent
vote_a = sent_at 0 end.sent

abbrev vote_b : Sent
vote_b = sent_at 1 end.sent

abbrev count : List Sent → ℕ
count [] = 0
count (e ∷ es) = suc (count es)

sent_at-Some : (n : ℕ) (es : List Sent) → n < count es → Some (λ x. x ≡ sent_at n es) es
sent_at-Some n [] h = absurd (omega arith)
sent_at-Some zero (e ∷ es) h = inl refl
sent_at-Some (suc n) (e ∷ es) h = inr (sent_at-Some n es (omega arith))

-- Two votes are sent, and nothing else.
votes :
    (count end.sent ≡ 2)
    × (vote_a.tx ≡ commit_vote 7 1 (codes "0x1"))
    × (vote_b.tx ≡ commit_vote 7 1 (codes "0x1"))
unfolding run restart tick scan_logs scan_from on_logs drive_all drive insert_id ids_of my_seat
    commit_phase start_job finish_job send prepare_commit commitment_of is_bytes32 starts_with
    open_store set_cursor ensure_dispute ensure_round update_round update_dispute lookup insert show
    show_fuel to_lower text_eq
votes = (refl, refl, refl)

run-AllDurable_example : AllDurable end
run-AllDurable_example =
    run-AllDurable (codes "0xj") 5 (codes "0xM") 1 none opened events opens events-AllRandom

run-commit_once_example : codes "0x1" ≡ codes "0x1"
run-commit_once_example =
    run-commit_once (codes "0xj") 5 (codes "0xM") 1 none opened events vote_a vote_b 7 1
      (codes "0x1") (codes "0x1") opens events-AllRandom
      (sent_at-Some 0 end.sent (omega (arith, votes.0)))
      (sent_at-Some 1 end.sent (omega (arith, votes.0))) (votes.1) (votes.2)

digits-is_bytes32 : is_bytes32 (new_salt digits) ≡ true
unfolding is_bytes32 starts_with
digits-is_bytes32 = refl

prepare_commit-write_once_example :
    IsWritten 7 1
      (fresh_secret vote_hash 7 1 reject (codes "0xj") digits)
      (book_of opened)
      (prepare_commit vote_hash 7 1 reject (codes "0xj") digits opened)
prepare_commit-write_once_example =
    prepare_commit-write_once vote_hash 7 1 reject (codes "0xj") digits opened digits-is_bytes32

no_vote_yet : book_of opened 7 1 ≡ none
unfolding lookup insert show show_fuel text_eq
no_vote_yet = refl

prepare_commit_unsaved-IsUnsaved_example :
    IsUnsaved vote_hash 7 1
      (codes "0xj")
      (fresh_secret vote_hash 7 1 reject (codes "0xj") digits)
      opened
      uphold
      digits
      (prepare_commit_unsaved vote_hash 7 1 reject (codes "0xj") digits opened)
prepare_commit_unsaved-IsUnsaved_example =
    prepare_commit_unsaved-IsUnsaved vote_hash 7 1 reject uphold (codes "0xj") digits digits opened
      digits-is_bytes32 no_vote_yet

abbrev voted : Process
voted = record end { sent = [] }

reveals :
    (sent_at 0
      (process_of (reveal_phase (world (codes "0x1")) 7 1 (seat (codes "0x1")) voted)).sent).tx
    ≡ reveal_vote 7 1 1 (new_salt digits)
unfolding reveal_phase maybe_publish run restart tick scan_logs scan_from on_logs drive_all drive
    insert_id ids_of my_seat commit_phase start_job finish_job send prepare_commit commitment_of
    is_bytes32 starts_with open_store set_cursor ensure_dispute ensure_round update_round
    update_dispute lookup insert show show_fuel to_lower text_eq
reveals = refl

reveal_phase-RevealsOwnVote_example :
    RevealsOwnVote
      (world (codes "0x1"))
      7
      1
      (seat (codes "0x1"))
      (round_record 7 1 (ensure_round 7 1 voted.store))
      []
      (process_of (reveal_phase (world (codes "0x1")) 7 1 (seat (codes "0x1")) voted))
reveal_phase-RevealsOwnVote_example =
    reveal_phase-RevealsOwnVote (world (codes "0x1")) 7 1 (seat (codes "0x1")) voted

abbrev started : Process
started = first (codes "0xj") 5 (codes "0xM") 1 opened

abbrev scanned : Process
scanned = process_of (scan_logs (world zero32) 3 started)

scans : scan_logs (world zero32) 3 started ≡ done scanned
unfolding tick scan_logs scan_from on_logs drive_all drive insert_id ids_of my_seat commit_phase
    start_job finish_job send prepare_commit commitment_of is_bytes32 starts_with open_store
    set_cursor ensure_dispute ensure_round update_round update_dispute lookup insert show show_fuel
    to_lower text_eq
scans = refl

scan_logs-IsScanned_example : IsScanned (world zero32) 3 scanned.store
scan_logs-IsScanned_example =
    scan_logs-IsScanned (world zero32) 3 started scanned (omega arith) scans
