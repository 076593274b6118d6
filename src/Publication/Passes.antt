-- ===== src/Publication/Passes.antt =====
-- The scan for an object over plain text and over strings.
use bab_takehome.Base.{
  ℕ, suc, ◌≡◌, refl, sym, ap, ◌∙◌, ◌≢◌, Bool, true, false, ◌&&◌, ◌||◌, Option, none, some, [], ◌∷◌,
  ◌++◌, arith, All, ◌==◌, Text, ◌/◌, ◌%◌, hex_digit, hex4, escape, is_high, is_escaped, next_is_low,
  quote_unit, quote_body, quote, if◌then◌else◌,
}
use mathlib.Core.List.{append_assoc}
use bab_takehome.Deliberation.Extract.{Scan, scan_step, closes, scan_object, scan_start}

abbrev pub prepend : Text → Option Text → Option Text
prepend t none = none
prepend t (some u) = some (t ++ u)

pub prepend_nil : (o : Option Text) → o ≡ prepend [] o
prepend_nil none = refl
prepend_nil (some t) = refl

prepend-append : (t u : Text) (o : Option Text) → prepend (t ++ u) o ≡ prepend t (prepend u o)
prepend-append t u none = refl
prepend-append t u (some v) = ap some (append_assoc t u v)

-- The scan goes through the text and is in the same state after it.
abbrev Leads : Scan → Scan → Text → Type 0
Leads a b t = (s : Text) → scan_object a (t ++ s) ≡ prepend t (scan_object b s)

abbrev pub Passes : Scan → Text → Type 0
Passes st t = Leads st st t

pub Leads-append : (a b c : Scan) (t u : Text) → Leads a b t → Leads b c u → Leads a c (t ++ u)
Leads-append a b c t u h k s =
    ap (scan_object a) (append_assoc t u s)
    ∙ h (u ++ s)
    ∙ ap (prepend t) (k s)
    ∙ sym (prepend-append t u (scan_object c s))

-- Outside strings and inside them.
abbrev pub outside : ℕ → Scan
outside k = record { depth = suc k; in_str = false; esc = false }

abbrev inside : ℕ → Scan
inside k = record { depth = suc k; in_str = true; esc = false }

abbrev after_backslash : ℕ → Scan
after_backslash k = record { depth = suc k; in_str = true; esc = true }

-- No quote, brace or backslash.
abbrev pub IsPlain : ℕ → Type 0
IsPlain c = (c ≢ b'"') × (c ≢ b'{') × (c ≢ b'}') × (c ≢ b'\\')

-- No quote or backslash.
abbrev IsInner : ℕ → Type 0
IsInner c = (c ≢ b'"') × (c ≢ b'\\')

prepend_unit :
    (c : ℕ) (o : Option Text) → elim o [ none ↦ none | some t ↦ some (c ∷ t) ] ≡ prepend (c ∷ []) o
prepend_unit c none = refl
prepend_unit c (some t) = refl

step-Leads : (a b : Scan) (c : ℕ) → scan_step c a ≡ b → closes c a ≡ false → Leads a b (c ∷ [])
unfolding scan_object
step-Leads a b c h k s =
    rw k (prepend_unit c (scan_object (scan_step c a) s))
    ∙ ap (λ st. prepend (c ∷ []) (scan_object st s)) h

unit-Passes : (k c : ℕ) → IsPlain c → Passes (outside k) (c ∷ [])
unfolding scan_step
unit-Passes k c h = step-Leads (outside k) (outside k) c (ground arith) (ground arith)

inner-Passes : (k c : ℕ) → IsInner c → Passes (inside k) (c ∷ [])
unfolding scan_step
inner-Passes k c h = step-Leads (inside k) (inside k) c (ground arith) (ground arith)

backslash-Leads : (k : ℕ) → Leads (inside k) (after_backslash k) (b'\\' ∷ [])
unfolding scan_step
backslash-Leads k = step-Leads (inside k) (after_backslash k) b'\\' refl refl

escaped-Leads : (k c : ℕ) → Leads (after_backslash k) (inside k) (c ∷ [])
unfolding scan_step
escaped-Leads k c = step-Leads (after_backslash k) (inside k) c refl refl

quote-Leads : (k : ℕ) → Leads (outside k) (inside k) (b'"' ∷ [])
unfolding scan_step
quote-Leads k = step-Leads (outside k) (inside k) b'"' refl refl

unquote-Leads : (k : ℕ) → Leads (inside k) (outside k) (b'"' ∷ [])
unfolding scan_step
unquote-Leads k = step-Leads (inside k) (outside k) b'"' refl refl

pub open_brace-Leads : (k : ℕ) → Leads (outside k) (outside (suc k)) (b'{' ∷ [])
unfolding scan_step
open_brace-Leads k = step-Leads (outside k) (outside (suc k)) b'{' refl refl

pub close_brace-Leads : (k : ℕ) → Leads (outside (suc k)) (outside k) (b'}' ∷ [])
unfolding scan_step
close_brace-Leads k =
    step-Leads (outside (suc k)) (outside k) b'}'
      (ap (λ (n : ℕ). record { depth = n; in_str = false; esc = false }) (omega arith))
      (ground arith)

pub start-Leads : Leads scan_start (outside 0) (b'{' ∷ [])
unfolding scan_step
start-Leads = step-Leads scan_start (outside 0) b'{' refl refl

pub All-Passes : (k : ℕ) (t : Text) → All IsPlain t → Passes (outside k) t
All-Passes k [] h = λ s. prepend_nil (scan_object (outside k) s)
All-Passes k (c ∷ t) (p, h) =
    Leads-append (outside k) (outside k) (outside k) (c ∷ []) t (unit-Passes k c p)
      (All-Passes k t h)

inner_All-Passes : (k : ℕ) (t : Text) → All IsInner t → Passes (inside k) t
inner_All-Passes k [] h = λ s. prepend_nil (scan_object (inside k) s)
inner_All-Passes k (c ∷ t) (p, h) =
    Leads-append (inside k) (inside k) (inside k) (c ∷ []) t (inner-Passes k c p)
      (inner_All-Passes k t h)

escape-Passes : (k c : ℕ) (t : Text) → All IsInner t → Passes (inside k) (escape (c ∷ t))
escape-Passes k c t h =
    Leads-append (inside k) (after_backslash k) (inside k) (b'\\' ∷ []) (c ∷ t) (backslash-Leads k)
      (Leads-append (after_backslash k) (inside k) (inside k) (c ∷ []) t (escaped-Leads k c)
        (inner_All-Passes k t h))

if-Passes :
    (k : ℕ) (b : Bool) (t u : Text)
    → Passes (inside k) t
    → ((b ≡ false) → Passes (inside k) u)
    → Passes (inside k) (if b then t else u)
if-Passes k true t u h r = h
if-Passes k false t u h r = r refl

hex_digit-IsInner : (n : ℕ) → IsInner (hex_digit n)
hex_digit-IsInner n = (ground arith, ground arith)

hex4-IsInner : (c : ℕ) → All IsInner (hex4 c)
hex4-IsInner c = (
  hex_digit-IsInner (c / 4096 % 16),
  (
    hex_digit-IsInner (c / 256 % 16),
    (hex_digit-IsInner (c / 16 % 16), (hex_digit-IsInner (c % 16), tt)),
  ),
)

quote_unit-Passes : (k c : ℕ) (paired : Bool) → Passes (inside k) (quote_unit paired c)
unfolding quote_unit
quote_unit-Passes k c paired = if-Passes k (c == b'"') _ _ (escape-Passes k b'"' [] tt) (λ a.
    if-Passes k (c == b'\\') _ _ (escape-Passes k b'\\' [] tt) (λ b.
      if-Passes k (c == 8) _ _ (escape-Passes k b'b' [] tt) (λ _.
        if-Passes k (c == 9) _ _ (escape-Passes k b't' [] tt) (λ _.
          if-Passes k (c == 10) _ _ (escape-Passes k b'n' [] tt) (λ _.
            if-Passes k (c == 12) _ _ (escape-Passes k b'f' [] tt) (λ _.
              if-Passes k (c == 13) _ _ (escape-Passes k b'r' [] tt) (λ _.
                if-Passes k (is_escaped paired c) _ (c ∷ [])
                  (escape-Passes k b'u' (hex4 c) (hex4-IsInner c))
                  (λ _. inner-Passes k c (ground arith, ground arith)))))))))

quote_body-Passes : (k : ℕ) (second : Bool) (s : Text) → Passes (inside k) (quote_body second s)
unfolding quote_body
quote_body-Passes k second [] = λ s. prepend_nil (scan_object (inside k) s)
quote_body-Passes k second (c ∷ t) =
    Leads-append (inside k) (inside k) (inside k)
      (quote_unit (second || is_high c && next_is_low t) c) _
      (quote_unit-Passes k c (second || is_high c && next_is_low t))
      (quote_body-Passes k (is_high c && next_is_low t) t)

pub quote-Passes : (k : ℕ) (s : Text) → Passes (outside k) (quote s)
unfolding quote
quote-Passes k s = Leads-append (outside k) (inside k) (outside k) (b'"' ∷ []) _ (quote-Leads k) (
    Leads-append (inside k) (inside k) (outside k) (quote_body false s) (b'"' ∷ [])
      (quote_body-Passes k false s) (unquote-Leads k))
