-- ===== src/Deliberation/Extract.antt =====
-- services/jurors/src/rubric.ts: `extractJsonObject`, which finds the JSON object in a model's reply.
use bab_takehome.Base.{
  ℕ, zero, suc, ◌-◌, ◌≡◌, refl, Bool, true, false, ◌&&◌, not, Option, none, some, [], ◌∷◌, length,
  take, drop, if◌then◌else◌, ◌==◌, Text, codes, starts_with, to_lower, trim, trim_start, trim_end,
}

-- `text.replace(/^\ufeff/, '')`
abbrev pub strip_mark : Text → Text
strip_mark [] = []
strip_mark (c ∷ s) = if c == 65279 then s else c ∷ s

-- What follows the first `</think>`, in any case of its letters.
unfoldable pub after_close : Text → Option Text
after_close [] = none
after_close (c ∷ s) =
    let rest = after_close s in
    if starts_with (codes "</think>") (to_lower (c ∷ s)) then some (drop 7 s) else rest

-- `text.replace(/<think>[\s\S]*?<\/think>/gi, '')`; a unit of fuel for each unit of the text.
unfoldable pub strip_thinks : ℕ → Text → Text
strip_thinks zero s = s
strip_thinks (suc f) [] = []
strip_thinks (suc f) (c ∷ s) =
    let kept = c ∷ strip_thinks f s in
    if starts_with (codes "<think>") (to_lower (c ∷ s))
    then elim (after_close (drop 6 s)) [ none ↦ kept | some t ↦ strip_thinks f t ]
    else kept

abbrev pub ends_with : Text → Text → Bool
ends_with p s =
    let n = length s - length p in starts_with p (drop n s) && length (drop n s) == length p

-- What a fence around the whole text encloses: `/^```(?:json)?\s*([\s\S]*?)\s*```$/i`.
abbrev pub drop_json : Text → Text
drop_json s = if starts_with (codes "json") (to_lower s) then drop 4 s else s

abbrev pub inside_fence : Text → Text
inside_fence s = trim (take (length s - 3) s)

unfoldable pub unfence : Text → Text
unfence s =
    if starts_with (codes "```") s && ends_with (codes "```") (drop_json (drop 3 s))
    then inside_fence (drop_json (drop 3 s))
    else s

-- The state of the scan: the depth of braces, inside a string, after a backslash.
pub record Scan : Type 0 where
  pub depth : ℕ
  pub in_str : Bool
  pub esc : Bool

-- One unit of the loop, for a depth that is positive when a brace closes.
unfoldable pub scan_step : ℕ → Scan → Scan
scan_step c st =
    if st.in_str
    then (if st.esc
        then record st { esc = false }
        else if c == b'\\'
        then record st { esc = true }
        else if c == b'"'
        then record st { in_str = false }
        else st)
    else if c == b'"'
    then record st { in_str = true }
    else if c == b'{'
    then record st { depth = suc st.depth }
    else if c == b'}'
    then record st { depth = st.depth - 1 }
    else st

-- A closing brace outside a string that brings the depth to zero ends the object.
abbrev pub closes : ℕ → Scan → Bool
closes c st = not st.in_str && c == b'}' && st.depth - 1 == 0

-- The text from the first brace to the one that closes it.
unfoldable pub scan_object : Scan → Text → Option Text
scan_object st [] = none
scan_object st (c ∷ s) =
    let rest = scan_object (scan_step c st) s in
    if closes c st then some (c ∷ []) else elim rest [ none ↦ none | some t ↦ some (c ∷ t) ]

-- `body.slice(body.indexOf('{'))`
unfoldable pub from_brace : Text → Option Text
from_brace [] = none
from_brace (c ∷ s) = if c == b'{' then some (c ∷ s) else from_brace s

abbrev pub scan_start : Scan
scan_start = record { depth = 0; in_str = false; esc = false }

unfoldable pub reply_body : Text → Text
reply_body text = let t = strip_mark text in unfence (trim (strip_thinks (length t) t))

unfoldable pub object_in : Text → Option Text
object_in body = elim (from_brace body) [ none ↦ none | some s ↦ scan_object scan_start s ]

unfoldable pub extract_json_object : Text → Option Text
extract_json_object text = object_in (reply_body text)

extract_tests :
    (extract_json_object (codes "Sure: {\"a\":\"}\"} bye") ≡ some (codes "{\"a\":\"}\"}"))
    × (extract_json_object (codes "<THINK>{x}</think>```json\n{}\n```") ≡ some (codes "{}"))
    × (extract_json_object (codes "{\"a\":{}") ≡ none)
unfolding extract_json_object object_in reply_body scan_object scan_step from_brace unfence
    strip_thinks after_close trim trim_start trim_end starts_with to_lower
extract_tests = (refl, refl, refl)
