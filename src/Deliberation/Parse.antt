-- ===== src/Deliberation/Parse.antt =====
-- services/jurors/src/rubric.ts: `wordCount` and `parseJurorOutput`, the strict reading of a reply.
use bab_takehome.Base.{
  ℕ, suc, ◌*◌, Bool, ◌&&◌, ◌||◌, not, Option, none, some, List, [], ◌∷◌, ◌++◌, map, length,
  if◌then◌else◌, ltb, ◌==◌, Text, codes, text_eq, show, trim, split_spaces, Number, fraction,
  infinite, is_negative, exceeds, Json, obj, str, Fields, end, field, Result, ok, err,
}
use bab_takehome.Deliberation.Types.{VerdictLabel, uphold, reject, JurorOutput}
use bab_takehome.Deliberation.Extract.{extract_json_object}

abbrev pub rationale_max_words : ℕ
rationale_max_words = 80

abbrev pub fact_max_words : ℕ
fact_max_words = 25

unfoldable pub word_count : Text → ℕ
word_count s = if length (trim s) == 0 then 0 else length (split_spaces (trim s))

-- `JSON.parse`, with the message of the error that it throws, and the `safeParse` of the schema,
-- with the messages of its issues.
pub record Readers : Type 0 where
  pub parse_json : Text → Result Text Json
  pub safe_parse : Json → Result (List Text) JurorOutput

-- `Partial<JurorOutput>`
pub record Partial : Type 0 where
  pub verdict : Option VerdictLabel
  pub confidence : Option Number
  pub rationale : Option Text
  pub cited_facts : Option (List Text)

abbrev pub no_fields : Partial
no_fields = record { verdict = none; confidence = none; rationale = none; cited_facts = none }

abbrev pub all_fields : JurorOutput → Partial
all_fields v = record {
  verdict = some v.verdict;
  confidence = some v.confidence;
  rationale = some v.rationale;
  cited_facts = some v.cited_facts;
}

pub data ParseResult : Type 0 where
  parsed : (value : JurorOutput) → (warnings : List Text) → ParseResult
  rejected : (errors : List Text) → (partial : Option Partial) → ParseResult

-- `o.verdict`, when it is one of the two labels.
abbrev label_of : Json → Option VerdictLabel
label_of (str s) =
    if text_eq s (codes "Uphold")
    then some uphold
    else if text_eq s (codes "Reject")
    then some reject
    else none
label_of _ = none

unfoldable pub verdict_field : Fields → Option VerdictLabel
verdict_field end = none
verdict_field (field k v fs) = if text_eq k (codes "verdict") then label_of v else verdict_field fs

abbrev pub verdict_in : Json → Option VerdictLabel
verdict_in (obj fs) = verdict_field fs
verdict_in _ = none

-- A confidence above one and at most a hundred is a percentage.
abbrev pub is_percentage : Number → Bool
is_percentage x = exceeds 1 x && not (exceeds 100 x)

abbrev pub hundredth : Number → Number
hundredth (fraction neg a b) = fraction neg a (100 * b)
hundredth (infinite neg) = infinite neg

abbrev pub normal_confidence : Number → Number
normal_confidence x = if is_percentage x then hundredth x else x

abbrev pub fact_error : ℕ → Text
fact_error i = codes "citedFacts." ++ show i ++ codes " exceeds 25 words"

unfoldable pub fact_errors : ℕ → List Text → List Text
fact_errors i [] = []
fact_errors i (f ∷ fs) =
    if ltb fact_max_words (word_count f)
    then fact_error i ∷ fact_errors (suc i) fs
    else fact_errors (suc i) fs

abbrev pub confidence_errors : Number → List Text
confidence_errors x =
    if is_negative x || exceeds 1 x then codes "confidence must be in [0, 1]" ∷ [] else []

abbrev pub rationale_errors : Text → List Text
rationale_errors s =
    if ltb rationale_max_words (word_count s) then codes "rationale exceeds 80 words" ∷ [] else []

abbrev pub limit_errors : JurorOutput → List Text
limit_errors v =
    confidence_errors (normal_confidence v.confidence)
    ++ rationale_errors v.rationale
    ++ fact_errors 0 v.cited_facts

abbrev pub limit_warnings : JurorOutput → List Text
limit_warnings v =
    if is_percentage v.confidence
    then codes "confidence given as a percentage; normalized" ∷ []
    else []

abbrev pub trimmed : JurorOutput → JurorOutput
trimmed v = record {
  verdict = v.verdict;
  confidence = normal_confidence v.confidence;
  rationale = trim v.rationale;
  cited_facts = map trim v.cited_facts;
}

abbrev pub with_errors : JurorOutput → List Text → List Text → ParseResult
with_errors value warnings [] = parsed value warnings
with_errors value warnings (e ∷ es) = rejected (e ∷ es) (some (all_fields value))

abbrev pub check_limits : JurorOutput → ParseResult
check_limits v = with_errors (trimmed v) (limit_warnings v) (limit_errors v)

abbrev pub read_output : Json → Result (List Text) JurorOutput → ParseResult
read_output raw (err issues) =
    rejected issues (some (record no_fields { verdict = verdict_in raw }))
read_output raw (ok v) = check_limits v

abbrev pub read_json : Readers → Result Text Json → ParseResult
read_json io (err message) = rejected ((codes "invalid JSON: " ++ message) ∷ []) none
read_json io (ok raw) = read_output raw (io.safe_parse raw)

abbrev pub read_extracted : Readers → Option Text → ParseResult
read_extracted io none = rejected (codes "no JSON object in reply" ∷ []) none
read_extracted io (some json) = read_json io (io.parse_json json)

unfoldable pub parse_juror_output : Readers → Text → ParseResult
parse_juror_output io text = read_extracted io (extract_json_object text)
