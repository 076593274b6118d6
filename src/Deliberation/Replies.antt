-- ===== src/Deliberation/Replies.antt =====
-- What a decision and a failure come from: the replies of the model.
use bab_takehome.Base.{
  ℕ, zero, suc, ◌+◌, ◌≤◌, ◌≡◌, refl, sym, ap, subst, ◌⊎◌, inl, inr, Option, none, some, List, [],
  ◌++◌, arith, length, All, Some, All-map, Text, Result, ok, err, some-injective,
}
use mathlib.Core.List.{append_assoc, append-nil}
use bab_takehome.Deliberation.Types.{VerdictLabel, JurorOutput, Decision}
use bab_takehome.Deliberation.Parse.{
  Partial, ParseResult, parsed, rejected, trimmed, parse_juror_output,
}
use bab_takehome.Deliberation.Screen.{withheld_rationale, private_corpus}
use bab_takehome.Deliberation.Screened.{NoCommonRun, screen_decision-PassesScreening}
use bab_takehome.Deliberation.Copies.{IsPrivate, private_corpus-Some}
use bab_takehome.Deliberation.Decide.{
  ChatMessage, ChatResult, ChatError, DecideError, chat_failed, no_valid_output, DecideInput,
  chat_json, finish, follow_up, newer_partial, whole, last_resort, reply_text, after_reply,
  after_chat, attempts_from, first_messages, decide,
}
use bab_takehome.Deliberation.Outputs.{ReadsAs, HasOutput, parse-HasOutput}

-- The client's reply to the prompt, or to the prompt with what followed it, reads as `v`.
abbrev pub IsReplied : DecideInput → JurorOutput → Type 0
IsReplied i v =
    (more : List ChatMessage) × (r : ChatResult) × (chat_json i (first_messages i ++ more) ≡ ok r)
    × ReadsAs i.readers (reply_text r) v

-- The decision is one that the model gave, after one to three attempts.
abbrev pub IsDecided : DecideInput → Decision → Type 0
IsDecided i d =
    (v : JurorOutput) × (n : ℕ) × (served : Text) × IsReplied i v
    × (1 ≤ n)
    × (n ≤ 3)
    × (d ≡ finish i (trimmed v) served n)

-- The client failed, or the reply with the errors was rejected.
abbrev pub IsRejected : DecideInput → List Text → Type 0
IsRejected i errors =
    (more : List ChatMessage) × (r : ChatResult) × (p : Option Partial) × (chat_json i
        (first_messages i ++ more)
      ≡ ok r)
    × (parse_juror_output i.readers (reply_text r) ≡ rejected errors p)

abbrev pub IsFailure : DecideInput → DecideError → Type 0
IsFailure i (chat_failed e) =
    (more : List ChatMessage) × (chat_json i (first_messages i ++ more) ≡ err e)
IsFailure i (no_valid_output errors) = IsRejected i errors

abbrev pub IsOutcome : DecideInput → Result DecideError Decision → Type 0
IsOutcome i (ok d) = IsDecided i d
IsOutcome i (err e) = IsFailure i e

-- What the loop knows of the partial output that it keeps.
abbrev IsKept : DecideInput → Option Partial → Type 0
IsKept i p = (whole p ≡ none) ⊎ ((v : JurorOutput) × IsReplied i v × (whole p ≡ some (trimmed v)))

newer_partial-IsKept :
    (i : DecideInput) (old new : Option Partial)
    → IsKept i old
    → IsKept i new
    → IsKept i (newer_partial old new)
newer_partial-IsKept i old none h k = h
newer_partial-IsKept i old (some p) h k = by_verdict p.verdict refl
  where
    by_verdict :
        (v : Option VerdictLabel)
        → p.verdict ≡ v
        → IsKept i (elim v [ none ↦ old | some _ ↦ some p ])
    by_verdict none e = h
    by_verdict (some v) e = k

last_resort-IsOutcome :
    (i : DecideInput) (served : Text) (errors : List Text) (o : Option JurorOutput)
    → IsRejected i errors
    → ((o ≡ none) ⊎ ((v : JurorOutput) × IsReplied i v × (o ≡ some (trimmed v))))
    → IsOutcome i (last_resort i served errors o)
last_resort-IsOutcome i served errors none h k = h
last_resort-IsOutcome i served errors (some o) h (inl e) = absurd (ground arith)
last_resort-IsOutcome i served errors (some o) h (inr (v, r, e)) = (
  v,
  3,
  served,
  r,
  omega arith,
  omega arith,
  ap (λ x. finish i x served 3) (some-injective o (trimmed v) e),
)

module _ (i : DecideInput) where
  -- The next attempts end well for every state that the loop can be in.
  abbrev GoesOn :
      (List ChatMessage → Option Partial → List Text → Result DecideError Decision) → Type 0
  GoesOn again =
      (more : List ChatMessage) (p : Option Partial) (errors : List Text)
      → IsKept i p
      → IsRejected i errors
      → IsOutcome i (again (first_messages i ++ more) p errors)

  after_reply-IsOutcome :
      (n : ℕ) (more : List ChatMessage) (p : Option Partial)
      (again : List ChatMessage → Option Partial → List Text → Result DecideError Decision)
      (r : ChatResult) (res : ParseResult)
      → 1 ≤ n
      → n ≤ 3
      → chat_json i (first_messages i ++ more) ≡ ok r
      → parse_juror_output i.readers (reply_text r) ≡ res
      → HasOutput i.readers (reply_text r) res
      → IsKept i p
      → GoesOn again
      → IsOutcome i (after_reply i n (first_messages i ++ more) p again r res)
  after_reply-IsOutcome n more p again r (parsed o ws) lo hi c e (v, reads, same, _) kept go =
      (v, n, r.model, (more, r, c, reads), lo, hi, ap (λ x. finish i x r.model n) same)
  after_reply-IsOutcome n more p again r (rejected es q) lo hi c e h kept go =
      let next : IsKept i q = elim h [
        | inl a ↦ inl a
        | inr (v, reads, w) ↦ inr (v, (more, r, c, reads), w)
      ] in
      subst (λ (ms : List ChatMessage). IsOutcome i (again ms (newer_partial p q) es))
        (sym (append_assoc (first_messages i) more (follow_up (reply_text r) es)))
        (go (more ++ follow_up (reply_text r) es) (newer_partial p q) es
          (newer_partial-IsKept i p q kept next) (more, r, q, c, e))

  after_chat-IsOutcome :
      (n : ℕ) (more : List ChatMessage) (p : Option Partial)
      (again : Text → List ChatMessage → Option Partial → List Text → Result DecideError Decision)
      (c : Result ChatError ChatResult)
      → 1 ≤ n
      → n ≤ 3
      → chat_json i (first_messages i ++ more) ≡ c
      → IsKept i p
      → ((served : Text) → GoesOn (again served))
      → IsOutcome i (after_chat i n (first_messages i ++ more) p again c)
  after_chat-IsOutcome n more p again (err e) lo hi h kept go = (more, h)
  after_chat-IsOutcome n more p again (ok r) lo hi h kept go =
      after_reply-IsOutcome n more p (again r.model) r _ lo hi h refl
        (parse-HasOutput i.readers (reply_text r)) kept (go r.model)

  attempts_from-IsOutcome :
      (left n : ℕ) (served : Text) (more : List ChatMessage) (p : Option Partial)
      (errors : List Text)
      → 1 ≤ n
      → n + left ≡ 4
      → IsKept i p
      → ((1 ≤ left) ⊎ IsRejected i errors)
      → IsOutcome i (attempts_from i left n served (first_messages i ++ more) p errors)
  unfolding attempts_from
  attempts_from-IsOutcome zero n served more p errors lo sum kept (inl h) = absurd (omega arith)
  attempts_from-IsOutcome zero n served more p errors lo sum kept (inr h) =
      last_resort-IsOutcome i served errors (whole p) h kept
  attempts_from-IsOutcome (suc left) n served more p errors lo sum kept h =
      after_chat-IsOutcome n more p (attempts_from i left (suc n)) _ lo (omega arith) refl kept
        (λ s ms q es kept rejected.
          attempts_from-IsOutcome left (suc n) s ms q es (omega arith) (omega arith) kept
            (inr rejected))

-- Every decision and every failure comes from the model: a decision is, after one to three attempts,
-- the output that the schema reads in the JSON object of a reply to the prompt or to the prompt
-- with corrections after it, trimmed and with its confidence normalized; a failure is that of the
-- client, or the errors of a reply that was rejected.
pub decide-IsOutcome : (i : DecideInput) → IsOutcome i (decide i)
unfolding decide
decide-IsOutcome i =
    subst (λ (ms : List ChatMessage). IsOutcome i (attempts_from i 3 1 i.model ms none []))
      (append-nil (first_messages i))
      (attempts_from-IsOutcome i 3 1 i.model [] none [] (omega arith) (omega arith) (inl refl)
        (inl (omega arith)))

-- Whenever a juror decides, none of its cited facts, and not its rationale unless it is the notice
-- that it is withheld, has a run of seven words that a string of at least 40 units of the packet
-- has which is under no public key. Shorter strings are not private text for the code.
pub decide-NoCommonRun :
    (i : DecideInput) (d : Decision) (t : Text)
    → decide i ≡ ok d
    → IsPrivate i.packet t
    → 40 ≤ length t
    → ((d.screened.rationale ≡ withheld_rationale) ⊎ NoCommonRun d.screened.rationale t)
      × All (λ f. NoCommonRun f t) d.screened.cited_facts
unfolding finish
decide-NoCommonRun i d t h private long =
    let (v, n, served, _, _, _, e) = subst (IsOutcome i) h (decide-IsOutcome i) in
    let m = private_corpus-Some i.packet t long private in
    subst
      (λ (d : Decision).
        ((d.screened.rationale ≡ withheld_rationale) ⊎ NoCommonRun d.screened.rationale t)
        × All (λ f. NoCommonRun f t) d.screened.cited_facts)
      (sym e) (finished v n served m)
  where
    finished :
        (v : JurorOutput) (n : ℕ) (served : Text)
        → Some (λ s. s ≡ t) (private_corpus i.packet)
        → (((finish i (trimmed v) served n).screened.rationale ≡ withheld_rationale)
            ⊎ NoCommonRun (finish i (trimmed v) served n).screened.rationale t)
          × All (λ f. NoCommonRun f t) (finish i (trimmed v) served n).screened.cited_facts
    finished v n served m =
        let (rationale, facts, _) =
          screen_decision-PassesScreening i.patterns (trimmed v).rationale (trimmed v).cited_facts
            (private_corpus i.packet) in
        (
          elim rationale [ inl e ↦ inl e | inr (_, _, _, free) ↦ inr (free t m) ],
          All-map _ _ (λ f (_, _, _, free). free t m) facts,
        )
