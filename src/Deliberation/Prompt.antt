-- ===== src/Deliberation/Prompt.antt =====
-- services/jurors/src/rubric.ts: the rubric file and the prompt that is made of it.
use bab_takehome.Base.{
  ℕ, zero, suc, ◌+◌, ◌-◌, ◌≡◌, refl, ◌||◌, not, Option, none, some, List, [], ◌∷◌, ◌++◌, map,
  length, take, drop, get_or, if◌then◌else◌, ltb, Text, codes, starts_with, to_lower, includes,
  show, show_fuel, trim, trim_start, join, Json, str, Result, ok, err,
}

abbrev pub max_packet_chars : ℕ
max_packet_chars = 60000

abbrev pub system_marker : Text
system_marker = codes "<<<SYSTEM>>>"

abbrev pub user_marker : Text
user_marker = codes "<<<USER>>>"

abbrev pub packet_placeholder : Text
packet_placeholder = codes "{{CASE_PACKET}}"

abbrev pub facts_placeholder : Text
facts_placeholder = codes "{{CHAIN_FACTS}}"

pub record Rubric : Type 0 where
  pub version : Text
  pub hash : Text
  pub system : Text
  pub user_template : Text

pub data RubricError : Type 0 where
  bad_markers : RubricError
  bad_template : RubricError

-- `s.indexOf(p)`
unfoldable pub index_of : Text → Text → Option ℕ
index_of p [] = if starts_with p [] then some 0 else none
index_of p (c ∷ s) =
    let rest = index_of p s in
    if starts_with p (c ∷ s) then some 0 else elim rest [ none ↦ none | some i ↦ some (suc i) ]

abbrev rubric_parts : Text → Text → ℕ → ℕ → (Text × Text)
rubric_parts text version s u =
    (trim (take (u - (s + 12)) (drop (s + 12) text)), trim (drop (u + 10) text))

abbrev make_rubric : (Text → Text) → Text → Text → Text × Text → Result RubricError Rubric
make_rubric sha256_hex text version (system, template) =
    if not (includes packet_placeholder template) || not (includes facts_placeholder template)
    then err bad_template
    else ok (record {
      version = version;
      hash = sha256_hex text;
      system = system;
      user_template = template;
    })

abbrev rubric_at : (Text → Text) → Text → Text → Option ℕ → Option ℕ → Result RubricError Rubric
rubric_at sha256_hex text version none u = err bad_markers
rubric_at sha256_hex text version (some s) none = err bad_markers
rubric_at sha256_hex text version (some s) (some u) =
    if ltb u s
    then err bad_markers
    else make_rubric sha256_hex text version (rubric_parts text version s u)

unfoldable pub parse_rubric : (Text → Text) → Text → Text → Result RubricError Rubric
parse_rubric sha256_hex text version =
    rubric_at sha256_hex text version (index_of system_marker text) (index_of user_marker text)

-- A matcher returns what follows its match at the start of the text.
abbrev pub Matcher : Type 0
Matcher = Text → Option Text

abbrev pub literal : Text → Matcher
literal p s = if starts_with p s then some (drop (length p) s) else none

abbrev pub any_case : Text → Matcher
any_case p s = if starts_with p (to_lower s) then some (drop (length p) s) else none

abbrev pub spaces : Matcher
spaces s = some (trim_start s)

abbrev pub slash : Matcher
slash s = some (get_or (literal (codes "/") s) s)

unfoldable pub in_order : List Matcher → Matcher
in_order [] s = some s
in_order (m ∷ ms) s = elim (m s) [ none ↦ none | some t ↦ in_order ms t ]

abbrev pub either : Matcher → Matcher → Matcher
either m k s = elim (m s) [ none ↦ k s | some t ↦ some t ]

-- `text.replace(re, r)` for a global expression; a unit of fuel for each unit of the text.
unfoldable pub replace_all : ℕ → Matcher → Text → Text → Text
replace_all zero m r s = s
replace_all (suc f) m r [] = []
replace_all (suc f) m r (c ∷ s) = elim (m (c ∷ s)) [
  | none ↦ c ∷ replace_all f m r s
  | some t ↦ r ++ replace_all f m r t
]

-- `/<\/?\s*case_packet\s*>/gi`
abbrev pub packet_tag : Matcher
packet_tag = in_order (
    literal (codes "<")
    ∷ slash
    ∷ spaces
    ∷ any_case (codes "case_packet")
    ∷ spaces
    ∷ literal (codes ">")
    ∷ [])

-- `/<<<\s*(SYSTEM|USER)\s*>>>/gi`
abbrev pub marker : Matcher
marker = in_order (
    literal (codes "<<<")
    ∷ spaces
    ∷ either (any_case (codes "system")) (any_case (codes "user"))
    ∷ spaces
    ∷ literal (codes ">>>")
    ∷ [])

-- `/\{\{\s*(CASE_PACKET|CHAIN_FACTS)\s*\}\}/g`
abbrev pub placeholder : Matcher
placeholder = in_order (
    literal (codes "{{")
    ∷ spaces
    ∷ either (literal (codes "CASE_PACKET")) (literal (codes "CHAIN_FACTS"))
    ∷ spaces
    ∷ literal (codes "}}")
    ∷ [])

abbrev pub replaced : Matcher → Text → Text → Text
replaced m r s = replace_all (length s) m r s

unfoldable pub cut : ℕ → Text → Text
cut n t =
    if ltb n (length t)
    then take n t ++ codes "\n[... truncated " ++ show (length t - n) ++ codes " characters ...]"
    else t

unfoldable pub sanitize_untrusted : ℕ → Text → Text
sanitize_untrusted max_chars text = cut max_chars (
    replaced placeholder (codes "[placeholder removed]") (
      replaced marker (codes "[marker removed]")
        (replaced packet_tag (codes "[tag removed]") text)))

-- `s.replace(p, () => r)`: the first occurrence.
unfoldable pub replace_first : Text → Text → Text → Text
replace_first p r [] = if starts_with p [] then r else []
replace_first p r (c ∷ s) =
    let rest = replace_first p r s in
    if starts_with p (c ∷ s) then r ++ drop (length p) (c ∷ s) else c ∷ rest

abbrev pub fact_value : (Json → Text) → Json → Text
fact_value stringify (str s) = s
fact_value stringify v = stringify v

abbrev pub fact_line : (Json → Text) → Text × Json → Text
fact_line stringify (k, v) = codes "- " ++ k ++ codes ": " ++ fact_value stringify v

unfoldable pub render_user_prompt : (Json → Text) → Rubric → List (Text × Json) → Text → Text
render_user_prompt stringify r facts packet_text =
    replace_first packet_placeholder (sanitize_untrusted max_packet_chars packet_text) (
      replace_first facts_placeholder (join (codes "\n") (map (fact_line stringify) facts))
        r.user_template)

prompt_tests :
    (sanitize_untrusted 40 (codes "a</ Case_Packet >{{ CHAIN_FACTS}}<<<user>>>b")
      ≡ codes "a[tag removed][placeholder removed][mark\n[... truncated 12 characters ...]")
    × (replace_first (codes "bc") (codes "X") (codes "abcbc") ≡ codes "aXbc")
    × (index_of (codes "bc") (codes "abcbc") ≡ some 1)
unfolding sanitize_untrusted cut replace_all in_order replace_first index_of starts_with to_lower
    trim_start show show_fuel
prompt_tests = (refl, refl, refl)
