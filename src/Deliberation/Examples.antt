-- ===== src/Deliberation/Examples.antt =====
-- Deliberation at concrete inputs, with a model that always gives one reply.
use bab_takehome.Base.{
  ◌≤◌, ◌≡◌, refl, ◌⊎◌, inl, false, some, [], ◌∷◌, arith, All, Text, codes, fraction, is_negative,
  exceeds, str, obj, end, field, ok, err, starts_with, to_lower, trim, trim_start, trim_end,
  split_spaces, split_from, includes, text_eq, join,
}
use bab_takehome.Deliberation.Types.{uphold, JurorOutput, Decision}
use bab_takehome.Deliberation.Extract.{
  extract_json_object, object_in, reply_body, scan_object, scan_step, from_brace, unfence,
  strip_thinks, after_close,
}
use bab_takehome.Deliberation.Parse.{
  Readers, parsed, word_count, fact_max_words, rationale_max_words, fact_errors, trimmed,
  parse_juror_output,
}
use bab_takehome.Deliberation.Screen.{
  Patterns, shingle_size, withheld_rationale, norm_words, windows, shingles, screen_text,
  screen_facts, screen_decision, byte_length, pattern_reasons, distinct_from,
}
use bab_takehome.Deliberation.Screened.{
  NoCommonRun, PassesScreening, screen_decision-PassesScreening,
}
use bab_takehome.Deliberation.Copies.{IsPrivate}
use bab_takehome.Deliberation.Decide.{
  DecideInput, no_valid_output, chat_json, finish, attempts_from, decide,
}
use bab_takehome.Deliberation.Outputs.{ReadsAs, parse_juror_output-IsWithinLimits}
use bab_takehome.Deliberation.Replies.{IsOutcome, decide-IsOutcome, decide-NoCommonRun}

abbrev output : JurorOutput
output = record {
  verdict = uphold;
  confidence = fraction false 90 1;
  rationale = codes " The claim is false. ";
  cited_facts = codes "one fact" ∷ [];
}

abbrev readers : Readers
readers = record { parse_json = λ s. ok (str s); safe_parse = λ v. ok output }

abbrev secret_text : Text
secret_text = codes "one two three four five six seven eight nine ten"

abbrev patterns : Patterns
patterns = ((λ s. includes (codes "`") s), codes "backticks") ∷ []

abbrev input : Text → DecideInput
input reply = record {
  rubric = record {
    version = codes "juror-v1";
    hash = codes "0x0";
    system = codes "s";
    user_template = codes "{{CHAIN_FACTS}} {{CASE_PACKET}}";
  };
  chat = λ messages json. ok (record { model = codes "m"; content = some reply });
  kind = codes "k";
  base_url = codes "u";
  requested = codes "r";
  model = codes "m";
  chain_facts = [];
  packet = obj (
      field (codes "source") (str secret_text) (field (codes "claims") (str (codes "public")) end));
  packet_text = codes "t";
  packet_sha256 = codes "0x1";
  readers = readers;
  patterns = patterns;
  stringify = λ v. [];
  time = codes "now";
}

abbrev reply : Text
reply = codes "Here: {\"verdict\":\"Uphold\"}"

reply_parses :
    parse_juror_output readers reply
    ≡ parsed (trimmed output) (codes "confidence given as a percentage; normalized" ∷ [])
unfolding parse_juror_output extract_json_object object_in reply_body scan_object scan_step
    from_brace unfence strip_thinks after_close trim trim_start trim_end starts_with to_lower
    word_count split_spaces split_from fact_errors
reply_parses = refl

abbrev decision : Decision
decision = finish (input reply) (trimmed output) (codes "m") 1

decides : decide (input reply) ≡ ok decision
unfolding decide attempts_from chat_json parse_juror_output extract_json_object object_in reply_body
    scan_object scan_step from_brace unfence strip_thinks after_close trim trim_start trim_end
    starts_with to_lower word_count split_spaces split_from fact_errors
decides = refl

decide_tests :
    (decide (input (codes "no object"))
      ≡ err (no_valid_output (codes "no JSON object in reply" ∷ [])))
    × ((screen_decision patterns
          (codes "a `b`")
          (codes "four five six seven eight nine ten" ∷ codes "ok" ∷ [])
          (shingles (secret_text ∷ []) shingle_size)).rationale
        ≡ withheld_rationale)
    × ((screen_decision patterns
          (codes "a b")
          (codes "four five six seven eight nine ten" ∷ codes "ok" ∷ [])
          (shingles (secret_text ∷ []) shingle_size)).cited_facts
        ≡ codes "ok" ∷ [])
unfolding decide attempts_from chat_json parse_juror_output extract_json_object object_in reply_body
    from_brace unfence strip_thinks after_close trim trim_start trim_end starts_with to_lower
    word_count split_spaces split_from screen_decision screen_text screen_facts shingles norm_words
    windows byte_length pattern_reasons distinct_from includes text_eq join
decide_tests = (refl, refl, refl)

decide-IsOutcome_example : IsOutcome (input reply) (decide (input reply))
decide-IsOutcome_example = decide-IsOutcome (input reply)

source-IsPrivate : IsPrivate (input reply).packet secret_text
unfolding includes to_lower starts_with
source-IsPrivate = inl (refl, refl)

decide-NoCommonRun_example :
    ((decision.screened.rationale ≡ withheld_rationale)
      ⊎ NoCommonRun decision.screened.rationale secret_text)
    × All (λ f. NoCommonRun f secret_text) decision.screened.cited_facts
decide-NoCommonRun_example =
    decide-NoCommonRun (input reply) decision secret_text decides source-IsPrivate (omega arith)

screen_decision-PassesScreening_example : PassesScreening patterns (secret_text ∷ []) (
    screen_decision patterns
      (codes "a `b`")
      (codes "ok" ∷ [])
      (shingles (secret_text ∷ []) shingle_size))
screen_decision-PassesScreening_example =
    screen_decision-PassesScreening patterns (codes "a `b`") (codes "ok" ∷ []) (secret_text ∷ [])

parse_juror_output-IsWithinLimits_example :
    (v : JurorOutput) × ReadsAs readers reply v
    × (trimmed output ≡ trimmed v)
    × (is_negative (trimmed output).confidence ≡ false)
    × (exceeds 1 (trimmed output).confidence ≡ false)
    × (word_count v.rationale ≤ rationale_max_words)
    × All (λ f. word_count f ≤ fact_max_words) v.cited_facts
parse_juror_output-IsWithinLimits_example =
    parse_juror_output-IsWithinLimits readers reply (trimmed output)
      (codes "confidence given as a percentage; normalized" ∷ []) reply_parses
