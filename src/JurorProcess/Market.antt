-- ===== src/JurorProcess/Market.antt =====
-- services/jurors/src/market.ts: what a juror reads of the chain, and how it sends a transaction.
use bab_takehome.Base.{
  ℕ, Bool, true, false, Option, none, some, List, [], ◌∷◌, ◌++◌, if◌then◌else◌, Text, codes, Dict,
}
use bab_takehome.Publication.Upload.{UploadIo}
use bab_takehome.JurorProcess.Store.{JurorStore}
use bab_takehome.JurorProcess.Commit.{VoteHash}

pub record DisputeView : Type 0 where
  pub ground : ℕ
  pub status : ℕ
  pub verdict : ℕ
  pub round : ℕ
  pub fallback_no_quorum : Bool
  pub selection_block : ℕ
  pub commit_deadline : ℕ
  pub reveal_deadline : ℕ

pub record SeatView : Type 0 where
  pub juror : Text
  pub vote : ℕ
  pub revealed : Bool
  pub commitment : Text

abbrev pub zero32 : Text
zero32 = codes "0x0000000000000000000000000000000000000000000000000000000000000000"

-- The calls of the market that a juror sends. The round of a vote is no argument of the call: it is
-- kept for the record.
pub data Tx : Type 0 where
  commit_vote : (id : ℕ) → (round : ℕ) → (commitment : Text) → Tx
  reveal_vote : (id : ℕ) → (round : ℕ) → (code : ℕ) → (salt : Text) → Tx
  select_jurors : (id : ℕ) → Tx
  tally_dispute : (id : ℕ) → Tx
  withdraw : Tx

pub data Log : Type 0 where
  dispute_opened : (id : ℕ) → (ground : ℕ) → (purchase_id : Text) → (block : Text) → Log
  jurors_selected : (id : ℕ) → Log
  other_log : Log

-- A call of `send`, with the store when it was made.
pub record Sent : Type 0 where
  pub tx : Tx
  pub store : JurorStore

-- The process: its store, the jobs in the background, the times of the last attempts to get
-- evidence, and the calls of `send` so far.
pub record Process : Type 0 where
  pub store : JurorStore
  pub pending : List Text
  pub last_try : Dict ℕ
  pub sent : List Sent

-- The chain, the clock, the random numbers and the configuration in one tick. `simulate` is whether
-- the call would go through; `write` is `none` where sending throws, `receipt` where waiting does,
-- with whether the transaction succeeded; the reads are `none` where they throw. Whether `stop` has
-- been called when a scan comes to a block, and the tick to a dispute, is given for each of them.
pub record TickIo : Type 0 where
  pub hash : VoteHash
  pub me : Text
  pub random : ℕ → ℕ → Text
  pub keeper : Bool
  pub auto_withdraw : Bool
  pub now_ms : ℕ
  pub evidence_retry_ms : ℕ
  pub log_range : ℕ
  pub chain_id : ℕ
  pub market : Text
  pub data_dir : Text
  pub tee_url : Option Text
  pub time : Text
  pub upload : UploadIo
  pub sign : Text → Option Text
  pub simulate : Tx → Bool
  pub write : Tx → Option Text
  pub receipt : Text → Option Bool
  pub get_logs : ℕ → ℕ → Option (List Log)
  pub get_dispute : ℕ → Option (DisputeView × List SeatView)
  pub claimable : Option ℕ
  pub stops_at_block : ℕ → Bool
  pub stops_at_dispute : ℕ → Bool

-- What a step leaves, and whether it threw.
pub data Ran : Type 0 where
  done : Process → Ran
  threw : Process → Ran

abbrev pub process_of : Ran → Process
process_of (done p) = p
process_of (threw p) = p

abbrev pub and_then : Ran → (Process → Ran) → Ran
and_then (done p) k = k p
and_then (threw p) k = threw p

abbrev pub note_sent : Tx → Process → Process
note_sent tx p = record p { sent = p.sent ++ record { tx = tx; store = p.store } ∷ [] }

abbrev pub after_receipt : Option Bool → (Process → Ran) → Process → Ran
after_receipt none on_ok p = threw p
after_receipt (some false) on_ok p = done p
after_receipt (some true) on_ok p = on_ok p

abbrev pub after_write :
    TickIo → Option Text → (Text → Process → Process) → (Text → Process → Ran) → Process → Ran
after_write io none on_sent on_ok p = done p
after_write io (some h) on_sent on_ok p = after_receipt (io.receipt h) (on_ok h) (on_sent h p)

-- `send`, with what its caller does with the hash and after a success.
unfoldable pub send :
    TickIo → Tx → (Text → Process → Process) → (Text → Process → Ran) → Process → Ran
send io tx on_sent on_ok p =
    if io.simulate tx
    then after_write io (io.write tx) on_sent on_ok (note_sent tx p)
    else done (note_sent tx p)
