-- ===== src/Deliberation/Decide.antt =====
-- services/jurors/src/decide.ts: one juror's decision, by up to three calls of the model.
use bab_takehome.Base.{
  ℕ, zero, suc, Bool, true, false, ◌&&◌, ◌||◌, Option, none, some, List, [], ◌∷◌, ◌++◌, take,
  get_or, if◌then◌else◌, ◌==◌, Text, codes, to_lower, includes, join, Json, Result, ok, err, ◌>>=◌,
}
use bab_takehome.Deliberation.Types.{JurorOutput, ModelInfo, Decision}
use bab_takehome.Deliberation.Parse.{
  Readers, Partial, ParseResult, parsed, rejected, parse_juror_output,
}
use bab_takehome.Deliberation.Screen.{
  Patterns, shingle_size, shingles, screen_decision, private_corpus,
}
use bab_takehome.Deliberation.Prompt.{Rubric, render_user_prompt}

abbrev pub max_attempts : ℕ
max_attempts = 3

pub data Role : Type 0 where
  system user assistant : Role

pub record ChatMessage : Type 0 where
  pub role : Role
  pub content : Text

pub record ChatResult : Type 0 where
  pub model : Text
  pub content : Option Text

-- `message` is the JSON text of the error's body, or of its message.
pub record ChatError : Type 0 where
  pub status : Option ℕ
  pub message : Text

pub data DecideError : Type 0 where
  chat_failed : ChatError → DecideError
  no_valid_output : List Text → DecideError

-- The client, with the messages and whether a JSON object is asked for, and the rest of the input.
pub record DecideInput : Type 0 where
  pub rubric : Rubric
  pub chat : List ChatMessage → Bool → Result ChatError ChatResult
  pub kind : Text
  pub base_url : Text
  pub requested : Text
  pub model : Text
  pub chain_facts : List (Text × Json)
  pub packet : Json
  pub packet_text : Text
  pub packet_sha256 : Text
  pub readers : Readers
  pub patterns : Patterns
  pub stringify : Json → Text
  pub time : Text

-- `/response_format|json/i` in the message of a response with status 400.
abbrev pub is_format_error : ChatError → Bool
is_format_error e =
    is_bad_request e.status
    && (includes (codes "response_format") (to_lower e.message)
        || includes (codes "json") (to_lower e.message))
  where
    is_bad_request : Option ℕ → Bool
    is_bad_request none = false
    is_bad_request (some n) = n == 400

abbrev pub retry_plain :
    DecideInput → List ChatMessage → Result ChatError ChatResult → Result ChatError ChatResult
retry_plain i messages (ok r) = ok r
retry_plain i messages (err e) = if is_format_error e then i.chat messages false else err e

unfoldable pub chat_json : DecideInput → List ChatMessage → Result ChatError ChatResult
chat_json i messages = retry_plain i messages (i.chat messages true)

abbrev pub model_info : DecideInput → Text → ModelInfo
model_info i served = record {
  provider = i.kind;
  base_url = i.base_url;
  requested = i.requested;
  resolved = i.model;
  served = served;
}

unfoldable pub finish : DecideInput → JurorOutput → Text → ℕ → Decision
finish i output served attempts = record {
  output = output;
  screened =
      screen_decision i.patterns output.rationale output.cited_facts
        (shingles (private_corpus i.packet) shingle_size);
  model = model_info i served;
  prompt_version = i.rubric.version;
  prompt_hash = i.rubric.hash;
  packet_sha256 = i.packet_sha256;
  attempts = attempts;
  decided_at = i.time;
}

abbrev pub errors_line : List Text → Text
errors_line errors = join (codes "; ") errors

-- The answer to a reply that is not valid.
abbrev pub correction : List Text → Text
correction errors =
    codes "Your reply was invalid: "
    ++ errors_line errors
    ++ codes
        ". Reply again with only the JSON object {\"verdict\",\"confidence\",\"rationale\",\"citedFacts\"} following every rule (rationale at most 80 words, 1 to 5 citedFacts of at most 25 words)."

abbrev pub follow_up : Text → List Text → List ChatMessage
follow_up text errors =
    record { role = assistant; content = take 4000 text }
    ∷ record { role = user; content = correction errors }
    ∷ []

-- `if (parsed.partial?.verdict) partial = parsed.partial`
abbrev pub newer_partial : Option Partial → Option Partial → Option Partial
newer_partial old none = old
newer_partial old (some p) = elim p.verdict [ none ↦ old | some v ↦ some p ]

-- The output that a partial one stands for when it has all four fields.
abbrev pub whole : Option Partial → Option JurorOutput
whole none = none
whole (some p) = do
  v ← p.verdict
  c ← p.confidence
  r ← p.rationale
  f ← p.cited_facts
  some (record { verdict = v; confidence = c; rationale = r; cited_facts = f })
  where
    infixl 5 ◌>>=◌
    ◌>>=◌ : {A B : Type 0} → Option A → (A → Option B) → Option B
    none >>= f = none
    some a >>= f = f a

abbrev pub last_resort :
    DecideInput → Text → List Text → Option JurorOutput → Result DecideError Decision
last_resort i served errors none = err (no_valid_output errors)
last_resort i served errors (some output) = ok (finish i output served max_attempts)

abbrev pub reply_text : ChatResult → Text
reply_text r = get_or r.content []

-- The rest of an attempt, for what the reply parses to; `again` makes the next attempts.
abbrev pub after_reply :
    DecideInput
    → ℕ
    → List ChatMessage
    → Option Partial
    → (List ChatMessage → Option Partial → List Text → Result DecideError Decision)
    → ChatResult
    → ParseResult
    → Result DecideError Decision
after_reply i attempt messages partial again r (parsed value warnings) =
    ok (finish i value r.model attempt)
after_reply i attempt messages partial again r (rejected errors next) =
    again (messages ++ follow_up (reply_text r) errors) (newer_partial partial next) errors

abbrev pub after_chat :
    DecideInput
    → ℕ
    → List ChatMessage
    → Option Partial
    → (Text → List ChatMessage → Option Partial → List Text → Result DecideError Decision)
    → Result ChatError ChatResult
    → Result DecideError Decision
after_chat i attempt messages partial again (err e) = err (chat_failed e)
after_chat i attempt messages partial again (ok r) =
    after_reply i attempt messages partial (again r.model) r
      (parse_juror_output i.readers (reply_text r))

-- The loop, with the number of attempts that are left.
unfoldable pub attempts_from :
    DecideInput
    → (left : ℕ) → (attempt : ℕ) → (served : Text) → List ChatMessage
    → Option Partial
    → List Text
    → Result DecideError Decision
attempts_from i zero attempt served messages partial errors =
    last_resort i served errors (whole partial)
attempts_from i (suc left) attempt served messages partial errors =
    after_chat i attempt messages partial (attempts_from i left (suc attempt))
      (chat_json i messages)

abbrev pub first_messages : DecideInput → List ChatMessage
first_messages i =
    record { role = system; content = i.rubric.system }
    ∷ record {
      role = user;
      content = render_user_prompt i.stringify i.rubric i.chain_facts i.packet_text;
    }
    ∷ []

unfoldable pub decide : DecideInput → Result DecideError Decision
decide i = attempts_from i max_attempts 1 i.model (first_messages i) none []
