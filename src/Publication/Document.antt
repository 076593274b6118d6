-- ===== src/Publication/Document.antt =====
-- services/jurors/src/publish.ts: `RationaleDoc` and `buildRationaleDoc`.
use bab_takehome.Base.{
  ℕ, ◌+◌, ◌-◌, ◌*◌, ◌/◌, ◌≡◌, refl, true, false, List, [], ◌∷◌, if◌then◌else◌, leb, Text, codes,
  to_lower, show, Number, fraction, infinite, Json, bool, num, str, arr, obj, Items, nil, cons,
  Fields, end, field,
}
use bab_takehome.Deliberation.Types.{VerdictLabel, label_text, Screening, ModelInfo, Decision}

abbrev pub rationale_type : Text
rationale_type = codes "envmarket.juror-rationale.v1"

pub record RationaleDoc : Type 0 where
  pub kind : Text
  pub chain_id : ℕ
  pub market : Text
  pub dispute_id : Text
  pub round : ℕ
  pub juror : Text
  pub verdict : Text
  pub confidence : Number
  pub rationale : Text
  pub cited_facts : List Text
  pub screening : Screening
  pub model : ModelInfo
  pub prompt_version : Text
  pub prompt_hash : Text
  pub packet_sha256 : Text
  pub commitment : Text
  pub reveal_tx : Text
  pub created_at : Text

-- `Math.round(x * 100) / 100`: halves are rounded up.
abbrev pub two_decimals : Number → Number
two_decimals (fraction false a b) = fraction false ((200 * a + b) / (2 * b)) 100
two_decimals (fraction true a b) =
    if leb (200 * a) b
    then fraction true 0 100
    else fraction true ((200 * a - b + (2 * b - 1)) / (2 * b)) 100
two_decimals (infinite neg) = infinite neg

-- What is published of a vote: the argument of `buildRationaleDoc`.
pub record Vote : Type 0 where
  pub chain_id : ℕ
  pub market : Text
  pub dispute_id : ℕ
  pub round : ℕ
  pub juror : Text
  pub decision : Decision
  pub verdict : VerdictLabel
  pub commitment : Text
  pub reveal_tx : Text

unfoldable pub build_rationale_doc : Vote → Text → RationaleDoc
build_rationale_doc a time = record {
  kind = rationale_type;
  chain_id = a.chain_id;
  market = to_lower a.market;
  dispute_id = show a.dispute_id;
  round = a.round;
  juror = to_lower a.juror;
  verdict = label_text a.verdict;
  confidence = two_decimals a.decision.output.confidence;
  rationale = a.decision.screened.rationale;
  cited_facts = a.decision.screened.cited_facts;
  screening = a.decision.screened.screening;
  model = a.decision.model;
  prompt_version = a.decision.prompt_version;
  prompt_hash = a.decision.prompt_hash;
  packet_sha256 = a.decision.packet_sha256;
  commitment = a.commitment;
  reveal_tx = a.reveal_tx;
  created_at = time;
}

-- The document as the object that is written.
abbrev pub number_of : ℕ → Json
number_of n = num (fraction false n 1)

abbrev pub texts : List Text → Items
texts [] = nil
texts (s ∷ ss) = cons (str s) (texts ss)

abbrev pub screening_json : Screening → Json
screening_json s = obj (
    field (codes "passed") (bool s.passed) (
      field (codes "reasons") (arr (texts s.reasons))
        (field (codes "droppedFacts") (number_of s.dropped_facts) end)))

abbrev pub model_json : ModelInfo → Json
model_json m = obj (
    field (codes "provider") (str m.provider) (
      field (codes "baseUrl") (str m.base_url) (
        field (codes "requested") (str m.requested)
          (field (codes "resolved") (str m.resolved) (field (codes "served") (str m.served) end)))))

abbrev pub identity_fields : RationaleDoc → Fields → Fields
identity_fields d rest = field (codes "type") (str d.kind) (
    field (codes "chainId") (number_of d.chain_id) (
      field (codes "market") (str d.market) (
        field (codes "disputeId") (str d.dispute_id)
          (field (codes "round") (number_of d.round) (field (codes "juror") (str d.juror) rest)))))

abbrev pub opinion_fields : RationaleDoc → Fields → Fields
opinion_fields d rest = field (codes "verdict") (str d.verdict) (
    field (codes "confidence") (num d.confidence) (
      field (codes "rationale") (str d.rationale) (
        field (codes "citedFacts") (arr (texts d.cited_facts)) (
          field (codes "screening") (screening_json d.screening)
            (field (codes "model") (model_json d.model) rest)))))

abbrev pub source_fields : RationaleDoc → Fields
source_fields d = field (codes "promptVersion") (str d.prompt_version) (
    field (codes "promptHash") (str d.prompt_hash) (
      field (codes "packetSha256") (str d.packet_sha256) (
        field (codes "commitment") (str d.commitment) (
          field (codes "revealTx") (str d.reveal_tx)
            (field (codes "createdAt") (str d.created_at) end)))))

abbrev pub doc_fields : RationaleDoc → Fields
doc_fields d = identity_fields d (opinion_fields d (source_fields d))

rounding_tests :
    (two_decimals (fraction false 1 8) ≡ fraction false 13 100)
    × (two_decimals (fraction true 1 8) ≡ fraction true 12 100)
rounding_tests = (refl, refl)
