-- ===== src/Jurors/Types.antt =====
-- services/jurors-vercel/src/lib/types.ts. Chain numbers and JavaScript counters are natural; hex and
-- other strings are texts; a `Record<string, V>` is a `Dict V`; an optional field is an `Option`.
use bab_takehome.Base.{ℕ, Bool, Option, none, some, List, [], ◌∷◌, ◌++◌, Text, codes, show, Dict}

pub data Verdict : Type 0 where
  uphold reject : Verdict

-- `Ground`, `DisputeStatus` and `VerdictCode`: the numbers of the Solidity enums.
abbrev pub ground_false_description : ℕ
ground_false_description = 2

abbrev pub status_none : ℕ
status_none = 0

abbrev pub status_awaiting_selection : ℕ
status_awaiting_selection = 1

abbrev pub status_voting : ℕ
status_voting = 2

abbrev pub status_resolved : ℕ
status_resolved = 3

abbrev pub verdict_uphold : ℕ
verdict_uphold = 1

abbrev pub seats_per_round : ℕ
seats_per_round = 3

abbrev pub zero32 : Text
zero32 = codes "0x0000000000000000000000000000000000000000000000000000000000000000"

pub record SeatSnap : Type 0 where
  pub juror : Text
  pub vote : ℕ
  pub revealed : Bool
  pub commitment : Text

pub record DisputeSnap : Type 0 where
  pub purchase_id : ℕ
  pub ground_no : ℕ
  pub status : ℕ
  pub verdict : ℕ
  pub round : ℕ
  pub fallback_no_quorum : Bool
  pub selection_block : ℕ
  pub selection_deadline : ℕ
  pub commit_deadline : ℕ
  pub reveal_deadline : ℕ

pub record OurJuror : Type 0 where
  pub index : ℕ
  pub address : Text
  pub claimable : ℕ

pub record Head : Type 0 where
  pub number : ℕ
  pub timestamp : ℕ

pub record Snapshot : Type 0 where
  pub dispute_id : Text
  pub head : Head
  pub enabled : Bool
  pub dispute : DisputeSnap
  pub seats : List SeatSnap
  pub jurors : List OurJuror
  pub keeper_index : ℕ

-- `decision` is opaque here: the text that the step serialised.
pub record DecisionRecord : Type 0 where
  pub verdict : Verdict
  pub decision : Text

pub data Action : Type 0 where
  select : (round juror_index : ℕ) → Action
  deliberate : (round juror_index commit_deadline : ℕ) → Action
  prepare : (round juror_index : ℕ) → Verdict → Action
  commit : (round juror_index : ℕ) → Verdict → Text → Action
  reveal : (round juror_index : ℕ) → Option Verdict → Action
  publish : (round juror_index : ℕ) → Action
  tally : (round juror_index : ℕ) → Action
  withdraw : (juror_index : ℕ) → Action

-- `a.jurorIndex`, and `a.round` where the action has one.
abbrev pub juror_index : Action → ℕ
juror_index (select r j) = j
juror_index (deliberate r j d) = j
juror_index (prepare r j v) = j
juror_index (commit r j v c) = j
juror_index (reveal r j v) = j
juror_index (publish r j) = j
juror_index (tally r j) = j
juror_index (withdraw j) = j

abbrev pub round_of : Action → Option ℕ
round_of (select r j) = some r
round_of (deliberate r j d) = some r
round_of (prepare r j v) = some r
round_of (commit r j v c) = some r
round_of (reveal r j v) = some r
round_of (publish r j) = some r
round_of (tally r j) = some r
round_of (withdraw j) = none

abbrev pub kind_name : Action → Text
kind_name (select r j) = codes "select"
kind_name (deliberate r j d) = codes "deliberate"
kind_name (prepare r j v) = codes "prepare"
kind_name (commit r j v c) = codes "commit"
kind_name (reveal r j v) = codes "reveal"
kind_name (publish r j) = codes "publish"
kind_name (tally r j) = codes "tally"
kind_name (withdraw j) = codes "withdraw"

-- A result's `kind` repeats that of its action, and nothing reads it.
pub record Success : Type 0 where
  pub hash : Option Text
  pub note : Option Text
  pub decision : Option DecisionRecord
  pub commitment : Option Text
  pub sha256 : Option Text
  pub verdict : Option Verdict

pub data ActionResult : Type 0 where
  applied : Success → ActionResult
  not_applied : (reason : Text) (retryable : Bool) → ActionResult

pub data Plan : Type 0 where
  act : List Action → (note : Text) → Plan
  wait : (seconds : ℕ) (note : Text) → Plan
  done : (outcome : Text) → Plan

pub record Prepared : Type 0 where
  pub verdict : Verdict
  pub commitment : Text

pub record KeeperOutcome : Type 0 where
  pub succeeded : Bool
  pub reason : Option Text
  pub recorded_at : ℕ

pub record Memory : Type 0 where
  pub decisions : Dict DecisionRecord
  pub deliberation_failures : Dict ℕ
  pub prepared : Dict Prepared
  pub reveal_tx : Dict Text
  pub published : Dict Text
  pub publish_failures : Dict ℕ
  pub keeper : Dict KeeperOutcome
  pub withdrawn : Dict Text
  pub failures : Dict ℕ
  pub log : List Text

unfoldable pub key : ℕ → ℕ → Text
key juror round = show juror ++ (codes ":" ++ show round)

abbrev pub empty_memory : Memory
empty_memory = record {
  decisions = [];
  deliberation_failures = [];
  prepared = [];
  reveal_tx = [];
  published = [];
  publish_failures = [];
  keeper = [];
  withdrawn = [];
  failures = [];
  log = [];
}

-- A string in a test: `undefined` and the empty string count as false.
abbrev pub truthy : Option Text → Option Text
truthy none = none
truthy (some []) = none
truthy (some (c ∷ s)) = some (c ∷ s)
