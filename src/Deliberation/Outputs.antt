-- ===== src/Deliberation/Outputs.antt =====
-- What a parsed reply says of its text.
use bab_takehome.Base.{
  ℕ, suc, ◌≤◌, ◌≡◌, refl, ap, subst, ◌∙◌, ◌⊎◌, inl, inr, Bool, true, false, ◌||◌, Option, none,
  some, List, [], ◌∷◌, arith, append-empty, All, Text, is_negative, exceeds, Json, Result, ok, err,
  Bool-cases, ltb, if◌then◌else◌,
}
use bab_takehome.Deliberation.Types.{VerdictLabel, JurorOutput}
use bab_takehome.Deliberation.Extract.{extract_json_object}
use bab_takehome.Deliberation.Parse.{
  Readers, ParseResult, parsed, rejected, normal_confidence, word_count, fact_max_words,
  rationale_max_words, fact_errors, confidence_errors, limit_errors, limit_warnings, trimmed,
  with_errors, no_fields, read_output, read_json, read_extracted, parse_juror_output,
}
use bab_takehome.Deliberation.Decide.{whole}

-- The reply has a JSON object that the schema reads as `v`.
abbrev pub ReadsAs : Readers → Text → JurorOutput → Type 0
ReadsAs io text v =
    (json : Text) × (raw : Json) × (extract_json_object text ≡ some json)
    × (io.parse_json json ≡ ok raw)
    × (io.safe_parse raw ≡ ok v)

-- What a parsed reply says of its text, and what a rejected one does.
abbrev pub HasOutput : Readers → Text → ParseResult → Type 0
HasOutput io text (parsed o ws) =
    (v : JurorOutput) × ReadsAs io text v × (o ≡ trimmed v) × (limit_errors v ≡ [])
HasOutput io text (rejected es p) =
    (whole p ≡ none) ⊎ ((v : JurorOutput) × ReadsAs io text v × (whole p ≡ some (trimmed v)))

limits-HasOutput :
    (io : Readers) (text : Text) (v : JurorOutput) (es : List Text)
    → ReadsAs io text v
    → limit_errors v ≡ es
    → HasOutput io text (with_errors (trimmed v) (limit_warnings v) es)
limits-HasOutput io text v [] h e = (v, h, refl, e)
limits-HasOutput io text v (x ∷ es) h e = inr (v, h, refl)

output-HasOutput :
    (io : Readers) (text json : Text) (raw : Json) (r : Result (List Text) JurorOutput)
    → extract_json_object text ≡ some json
    → io.parse_json json ≡ ok raw
    → io.safe_parse raw ≡ r
    → HasOutput io text (read_output raw r)
output-HasOutput io text json raw (err issues) a b c = inl (no_rationale _)
  where
    no_rationale :
        (v : Option VerdictLabel) → whole (some (record no_fields { verdict = v })) ≡ none
    no_rationale none = refl
    no_rationale (some v) = refl
output-HasOutput io text json raw (ok v) a b c =
    limits-HasOutput io text v _ (json, raw, a, b, c) refl

json-HasOutput :
    (io : Readers) (text json : Text) (r : Result Text Json)
    → extract_json_object text ≡ some json
    → io.parse_json json ≡ r
    → HasOutput io text (read_json io r)
json-HasOutput io text json (err message) a b = inl refl
json-HasOutput io text json (ok raw) a b = output-HasOutput io text json raw _ a b refl

extracted-HasOutput :
    (io : Readers) (text : Text) (o : Option Text)
    → extract_json_object text ≡ o
    → HasOutput io text (read_extracted io o)
extracted-HasOutput io text none a = inl refl
extracted-HasOutput io text (some json) a = json-HasOutput io text json _ a refl

pub parse-HasOutput : (io : Readers) (text : Text) → HasOutput io text (parse_juror_output io text)
unfolding parse_juror_output
parse-HasOutput io text = extracted-HasOutput io text _ refl

fact_errors-All :
    (i : ℕ) (fs : List Text) → fact_errors i fs ≡ [] → All (λ f. word_count f ≤ fact_max_words) fs
unfolding fact_errors
fact_errors-All i [] h = tt
fact_errors-All i (f ∷ fs) h = elim (Bool-cases (ltb fact_max_words (word_count f))) [
  | inl e ↦ absurd (ground arith)
  | inr e ↦ (ground arith, fact_errors-All (suc i) fs (ground arith))
]

if-empty : (b : Bool) (e : Text) → (if b then e ∷ [] else []) ≡ [] → b ≡ false
if-empty true e h = absurd (ground arith)
if-empty false e h = refl

or-false : (a b : Bool) → (a || b) ≡ false → (a ≡ false) × (b ≡ false)
or-false true b h = absurd (ground arith)
or-false false b h = (refl, h)

-- Whenever a reply is parsed without errors, the value is what the schema reads in the JSON object
-- of the reply, trimmed and with its confidence normalized; the confidence is in [0, 1], the
-- rationale has at most 80 words and each cited fact at most 25.
pub parse_juror_output-IsWithinLimits :
    (io : Readers) (text : Text) (o : JurorOutput) (ws : List Text)
    → parse_juror_output io text ≡ parsed o ws
    → (v : JurorOutput) × ReadsAs io text v
      × (o ≡ trimmed v)
      × (is_negative o.confidence ≡ false)
      × (exceeds 1 o.confidence ≡ false)
      × (word_count v.rationale ≤ rationale_max_words)
      × All (λ f. word_count f ≤ fact_max_words) v.cited_facts
parse_juror_output-IsWithinLimits io text o ws h =
    let (v, reads, e, none_at_all) = subst (HasOutput io text) h (parse-HasOutput io text) in
    let (ab, c) = append-empty _ (fact_errors 0 v.cited_facts) none_at_all in
    let (a, b) = append-empty (confidence_errors (normal_confidence v.confidence)) _ ab in
    let (pos, low) = or-false _ _ (if-empty _ _ a) in
    let same = ap (λ (x : JurorOutput). x.confidence) e in
    (
      v,
      reads,
      e,
      ap is_negative same ∙ pos,
      ap (exceeds 1) same ∙ low,
      ground arith,
      fact_errors-All 0 v.cited_facts c,
    )
