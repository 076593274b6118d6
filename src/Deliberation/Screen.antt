-- ===== src/Deliberation/Screen.antt =====
-- services/jurors/src/rubric.ts: the screening of what a juror publishes.
use bab_takehome.Base.{
  ℕ, ◌+◌, ◌-◌, min, Bool, true, false, ◌&&◌, ◌||◌, not, List, [], ◌∷◌, ◌++◌, map, length, take,
  keep, any, if◌then◌else◌, leb, ltb, ◌==◌, Text, codes, text_eq, to_lower, includes, show,
  is_space, split_spaces, join, Json, null, bool, num, str, arr, obj, Items, nil, cons, Fields, end,
  field,
}
use bab_takehome.Deliberation.Types.{ScreenedPublic}
use bab_takehome.Deliberation.Parse.{rationale_max_words, fact_max_words, word_count}

abbrev pub rationale_max_bytes : ℕ
rationale_max_bytes = 700

abbrev pub fact_max_bytes : ℕ
fact_max_bytes = 250

abbrev pub max_facts : ℕ
max_facts = 5

abbrev pub shingle_size : ℕ
shingle_size = 7

abbrev pub withheld_rationale : Text
withheld_rationale = codes "Rationale withheld by output screening."

-- `CODE_PATTERNS`, `PATH_PATTERNS` and `OTHER_PATTERNS` in this order: the test of each regular
-- expression, with the reason that it gives.
abbrev pub Patterns : Type 0
Patterns = List ((Text → Bool) × Text)

-- `Buffer.byteLength(s, 'utf8')`: a surrogate pair takes four bytes, a lone surrogate three.
unfoldable pub byte_length : Text → ℕ
byte_length [] = 0
byte_length (c ∷ []) = if ltb c 128 then 1 else if ltb c 2048 then 2 else 3
byte_length (c ∷ d ∷ s) =
    let rest = byte_length (d ∷ s) in
    if ltb c 128
    then 1 + rest
    else if ltb c 2048
    then 2 + rest
    else if leb 55296 c && ltb c 56320 && leb 56320 d && ltb d 57344
    then 1 + rest
    else 3 + rest

-- `/[^a-z0-9\s]/` becomes a space.
abbrev pub plain_unit : ℕ → ℕ
plain_unit c = if leb b'a' c && leb c b'z' || leb b'0' c && leb c b'9' || is_space c then c else 32

abbrev pub non_empty : Text → Bool
non_empty w = not (length w == 0)

unfoldable pub norm_words : Text → List Text
norm_words s = keep non_empty (split_spaces (map plain_unit (to_lower s)))

-- The runs of `n` successive elements, from the first on.
unfoldable pub windows {ℓ} : {A : Type ℓ} → ℕ → List A → List (List A)
windows n [] = if n == 0 then [] ∷ [] else []
windows n (x ∷ xs) = if leb n (length (x ∷ xs)) then take n (x ∷ xs) ∷ windows n xs else []

abbrev pub shingle : List Text → Text
shingle ws = join (codes " ") ws

unfoldable pub shingles : List Text → ℕ → List Text
shingles [] n = []
shingles (t ∷ ts) n = map shingle (windows n (norm_words t)) ++ shingles ts n

-- `set.has(t)`
abbrev pub member : List Text → Text → Bool
member set t = any (λ u. text_eq u t) set

-- `[...new Set(xs)]`: the first of equal elements stays.
unfoldable pub distinct_from : List Text → List Text → List Text
distinct_from seen [] = []
distinct_from seen (x ∷ xs) =
    if member seen x then distinct_from seen xs else x ∷ distinct_from (x ∷ seen) xs

abbrev pub distinct : List Text → List Text
distinct xs = distinct_from [] xs

pub record ScreenOptions : Type 0 where
  pub max_words : ℕ
  pub max_bytes : ℕ
  pub private_shingles : List Text

pub record ScreenResult : Type 0 where
  pub passed : Bool
  pub reasons : List Text

abbrev pub reason_if : Bool → Text → List Text
reason_if true r = r ∷ []
reason_if false r = []

unfoldable pub pattern_reasons : Patterns → Text → List Text
pattern_reasons [] text = []
pattern_reasons ((test, why) ∷ ps) text = reason_if (test text) why ++ pattern_reasons ps text

abbrev pub copies : List Text → Text → Bool
copies set text = any (λ w. member set (shingle w)) (windows shingle_size (norm_words text))

abbrev pub too_many : ℕ → Text → Text
too_many n unit = codes "more than " ++ show n ++ codes " " ++ unit

abbrev pub screen_reasons : Patterns → Text → ScreenOptions → List Text
screen_reasons ps text opts =
    reason_if (ltb opts.max_words (word_count text)) (too_many opts.max_words (codes "words"))
    ++ reason_if (ltb opts.max_bytes (byte_length text)) (too_many opts.max_bytes (codes "bytes"))
    ++ pattern_reasons ps text
    ++ reason_if (copies opts.private_shingles text) (codes "copies private task/test/source text")

unfoldable pub screen_text : Patterns → Text → ScreenOptions → ScreenResult
screen_text ps text opts = record {
  passed = length (screen_reasons ps text opts) == 0;
  reasons = distinct (screen_reasons ps text opts);
}

abbrev pub rationale_options : List Text → ScreenOptions
rationale_options set = record {
  max_words = rationale_max_words;
  max_bytes = rationale_max_bytes;
  private_shingles = set;
}

abbrev pub fact_options : List Text → ScreenOptions
fact_options set = record {
  max_words = fact_max_words;
  max_bytes = fact_max_bytes;
  private_shingles = set;
}

-- The loop over the facts: those that pass, and the reasons of those that do not.
unfoldable pub screen_facts : Patterns → List Text → List Text → List Text × List Text
screen_facts ps set [] = ([], [])
screen_facts ps set (f ∷ fs) =
    let (facts, reasons) = screen_facts ps set fs in
    let s = screen_text ps f (fact_options set) in
    if s.passed
    then (f ∷ facts, reasons)
    else (facts, map (λ r. codes "fact: " ++ r) s.reasons ++ reasons)

abbrev pub publishable_rationale : Bool → Text → Text
publishable_rationale passed rationale = if passed then rationale else withheld_rationale

unfoldable pub screen_decision : Patterns → Text → List Text → List Text → ScreenedPublic
screen_decision ps rationale cited set =
    let r = screen_text ps rationale (rationale_options set) in
    let facts = screen_facts ps set (take max_facts cited) in
    let dropped = min (length cited) max_facts - length (facts.0) in
    record {
      rationale = publishable_rationale r.passed rationale;
      cited_facts = facts.0;
      screening = record {
        passed = r.passed && dropped == 0;
        reasons = distinct (map (λ x. codes "rationale: " ++ x) r.reasons ++ facts.1);
        dropped_facts = dropped;
      };
    }

-- `/claim|description|statement|ground|summary|title/i`
abbrev pub is_public_key : Text → Bool
is_public_key k =
    any (λ p. includes p (to_lower k))
      (codes "claim"
        ∷ codes "description"
        ∷ codes "statement"
        ∷ codes "ground"
        ∷ codes "summary"
        ∷ codes "title"
        ∷ [])

-- The walk of `privateCorpus` over a packet.
unfoldable mutual
  pub walk : Bool → Json → List Text
  walk public_ctx null = []
  walk public_ctx (bool b) = []
  walk public_ctx (num x) = []
  walk public_ctx (str s) = if not public_ctx && leb 40 (length s) then s ∷ [] else []
  walk public_ctx (arr xs) = walk_items public_ctx xs
  walk public_ctx (obj fs) = walk_fields public_ctx fs

  pub walk_items : Bool → Items → List Text
  walk_items public_ctx nil = []
  walk_items public_ctx (cons x xs) = walk public_ctx x ++ walk_items public_ctx xs

  pub walk_fields : Bool → Fields → List Text
  walk_fields public_ctx end = []
  walk_fields public_ctx (field k v fs) =
      walk (public_ctx || is_public_key k) v ++ walk_fields public_ctx fs

abbrev pub private_corpus : Json → List Text
private_corpus packet = walk false packet
