-- ===== src/Publication/Objects.antt =====
-- The canonical text of an object in a model's reply.
use bab_takehome.Base.{
  ℕ, suc, ◌≡◌, refl, ap, ◌∙◌, ◌≢◌, true, false, none, some, List, [], ◌∷◌, ◌++◌, arith, map, All,
  All-perm, Text, codes, quote, join, sort_by-perm, Number, Json, null, bool, num, str, arr, obj,
  Items, nil, cons, Fields, end, field,
}
use mathlib.Core.List.{append_assoc}
use mathlib.Core.List.Permᴰ
use bab_takehome.Deliberation.Extract.{
  scan_object, scan_start, from_brace, object_in, reply_body, extract_json_object,
}
use bab_takehome.Publication.Canonical.{
  key_value, by_key, canonical, canonical_items, canonical_fields,
}
use bab_takehome.Publication.Passes.{
  prepend, prepend_nil, Passes, Leads-append, outside, IsPlain, open_brace-Leads, close_brace-Leads,
  start-Leads, All-Passes, quote-Passes,
}

join-Passes :
    (k : ℕ) (ts : List Text)
    → All (Passes (outside k)) ts
    → Passes (outside k) (join (codes ",") ts)
unfolding join
join-Passes k [] h = λ s. prepend_nil (scan_object (outside k) s)
join-Passes k (t ∷ []) (h, _) = h
join-Passes k (t ∷ u ∷ ts) (h, r) =
    Leads-append (outside k) (outside k) (outside k) (t ++ codes ",") _
      (Leads-append (outside k) (outside k) (outside k) t (codes ",") h
        (All-Passes k (codes ",") (ground arith)))
      (join-Passes k (u ∷ ts) r)

map-Passes :
    (k : ℕ) (ps : List (Text × Text))
    → All (λ p. Passes (outside k) (p.1)) ps
    → All (Passes (outside k)) (map key_value ps)
map-Passes k [] h = tt
map-Passes k ((j, v) ∷ ps) (h, r) = (
  Leads-append (outside k) (outside k) (outside k) (quote j ++ codes ":") v
      (Leads-append (outside k) (outside k) (outside k) (quote j) (codes ":") (quote-Passes k j)
        (All-Passes k (codes ":") (ground arith)))
      h,
  map-Passes k ps r,
)

module _ (show_number : Number → Text) (plain : (x : Number) → All IsPlain (show_number x)) where
  mutual
    unfolding canonical

    canonical-Passes : (v : Json) (k : ℕ) → Passes (outside k) (canonical show_number v)
    canonical-Passes null k = All-Passes k (codes "null") (ground arith)
    canonical-Passes (bool true) k = All-Passes k (codes "true") (ground arith)
    canonical-Passes (bool false) k = All-Passes k (codes "false") (ground arith)
    canonical-Passes (num x) k = All-Passes k (show_number x) (plain x)
    canonical-Passes (str s) k = quote-Passes k s
    canonical-Passes (arr xs) k =
        Leads-append (outside k) (outside k) (outside k) (codes "[") _
          (All-Passes k (codes "[") (ground arith))
          (Leads-append (outside k) (outside k) (outside k) _ (codes "]")
            (join-Passes k _ (items-Passes xs k)) (All-Passes k (codes "]") (ground arith)))
    canonical-Passes (obj fs) k =
        Leads-append (outside k) (outside (suc k)) (outside k) (codes "{") _ (open_brace-Leads k) (
          Leads-append (outside (suc k)) (outside (suc k)) (outside k) _ (codes "}")
            (join-Passes (suc k) _ (
              map-Passes (suc k) _ (
                All-perm (λ p. Passes (outside (suc k)) (p.1))
                  (Permᴰ.symm (sort_by-perm (λ p. p.0) (canonical_fields show_number fs)))
                  (fields-Passes fs (suc k)))))
            (close_brace-Leads k))

    items-Passes : (xs : Items) (k : ℕ) → All (Passes (outside k)) (canonical_items show_number xs)
    items-Passes nil k = tt
    items-Passes (cons x xs) k = (canonical-Passes x k, items-Passes xs k)

    fields-Passes :
        (fs : Fields) (k : ℕ)
        → All (λ p. Passes (outside k) (p.1)) (canonical_fields show_number fs)
    fields-Passes end k = tt
    fields-Passes (field j v fs) k = (canonical-Passes v k, fields-Passes fs k)

  inner_text : Fields → Text
  inner_text fs = join (codes ",") (map key_value (by_key (canonical_fields show_number fs)))

  inner-Passes_text : (fs : Fields) → Passes (outside 0) (inner_text fs)
  unfolding inner_text
  inner-Passes_text fs = join-Passes 0 _ (
      map-Passes 0 _ (
        All-perm (λ p. Passes (outside 0) (p.1))
          (Permᴰ.symm (sort_by-perm (λ p. p.0) (canonical_fields show_number fs)))
          (fields-Passes fs 0)))

  closing : (rest : Text) → scan_object (outside 0) (b'}' ∷ rest) ≡ some (b'}' ∷ [])
  unfolding scan_object
  closing rest = refl

  from_brace-append :
      (prose s : Text) → All (λ c. c ≢ b'{') prose → from_brace (prose ++ s) ≡ from_brace s
  unfolding from_brace
  from_brace-append [] s h = refl
  from_brace-append (c ∷ prose) s (n, h) = ground (arith, from_brace-append prose s h)

  scan-object :
      (fs : Fields) (rest : Text)
      → scan_object scan_start (b'{' ∷ (inner_text fs ++ b'}' ∷ rest))
        ≡ some (b'{' ∷ (inner_text fs ++ b'}' ∷ []))
  scan-object fs rest =
      start-Leads (inner_text fs ++ b'}' ∷ rest)
      ∙ ap (prepend (b'{' ∷ []))
          (inner-Passes_text fs (b'}' ∷ rest) ∙ ap (prepend (inner_text fs)) (closing rest))

  -- The scan finds the canonical text whole, behind prose without an opening brace.
  object_in-canonical :
      (prose rest : Text) (fs : Fields)
      → All (λ c. c ≢ b'{') prose
      → object_in (prose ++ (canonical show_number (obj fs) ++ rest))
        ≡ some (canonical show_number (obj fs))
  unfolding object_in canonical inner_text from_brace
  object_in-canonical prose rest fs h =
      ap (λ o. elim o [ none ↦ none | some s ↦ scan_object scan_start s ])
        (from_brace-append prose (canonical show_number (obj fs) ++ rest) h)
      ∙ ap (λ s. scan_object scan_start (b'{' ∷ s)) (append_assoc (inner_text fs) (b'}' ∷ []) rest)
      ∙ scan-object fs rest

  -- Where a reply, after its byte order mark, its `<think>` blocks, the space around it and a fence
  -- around the whole are removed, is prose without an opening brace, the canonical text of an object
  -- and any text after it, `extractJsonObject` finds that canonical text whole, whatever braces and
  -- quotes its strings have, as long as the text of a number has no quote, brace or backslash.
  pub extract_json_object-canonical :
      (reply prose rest : Text) (fs : Fields)
      → reply_body reply ≡ prose ++ (canonical show_number (obj fs) ++ rest)
      → All (λ c. c ≢ b'{') prose
      → extract_json_object reply ≡ some (canonical show_number (obj fs))
  unfolding extract_json_object
  extract_json_object-canonical reply prose rest fs body h =
      ap object_in body ∙ object_in-canonical prose rest fs h
