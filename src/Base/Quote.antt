-- ===== src/Base/Quote.antt =====
-- `JSON.stringify` on a string.
use Prim.Native.Nat.{ℕ, ◌+◌, ◌-◌, ◌/◌, ◌%◌}
use mathlib.Core.Bool.{Bool, false, ◌&&◌, ◌||◌, not}
use mathlib.Core.Path.{◌≡◌, refl}
use mathlib.Core.List.{[], ◌∷◌, ◌++◌}
use bab_takehome.Base.Tests.{if◌then◌else◌, ltb, leb, ◌==◌}
use bab_takehome.Base.Texts.{Text, codes}

abbrev pub hex_digit : ℕ → ℕ
hex_digit n = if ltb n 10 then b'0' + n else b'a' + (n - 10)

abbrev pub hex4 : ℕ → Text
hex4 c =
    hex_digit (c / 4096 % 16)
    ∷ hex_digit (c / 256 % 16)
    ∷ hex_digit (c / 16 % 16)
    ∷ hex_digit (c % 16)
    ∷ []

abbrev pub escape : Text → Text
escape s = b'\\' ∷ s

abbrev pub is_high : ℕ → Bool
is_high c = leb 55296 c && ltb c 56320

abbrev pub is_low : ℕ → Bool
is_low c = leb 56320 c && ltb c 57344

-- A control unit is escaped, and a surrogate unless it is half of a pair.
abbrev pub is_escaped : Bool → ℕ → Bool
is_escaped paired c = ltb c 32 || (is_high c || is_low c) && not paired

unfoldable pub quote_unit : Bool → ℕ → Text
quote_unit paired c =
    if c == b'"'
    then escape (codes "\"")
    else if c == b'\\'
    then escape (codes "\\")
    else if c == 8
    then escape (codes "b")
    else if c == 9
    then escape (codes "t")
    else if c == 10
    then escape (codes "n")
    else if c == 12
    then escape (codes "f")
    else if c == 13
    then escape (codes "r")
    else if is_escaped paired c
    then escape (b'u' ∷ hex4 c)
    else c ∷ []

abbrev pub next_is_low : Text → Bool
next_is_low [] = false
next_is_low (d ∷ s) = is_low d

-- Whether the unit before is the first half of a pair.
unfoldable pub quote_body : Bool → Text → Text
quote_body second [] = []
quote_body second (c ∷ s) =
    quote_unit (second || is_high c && next_is_low s) c ++ quote_body (is_high c && next_is_low s) s

unfoldable pub quote : Text → Text
unfolding quote_body
quote s = b'"' ∷ (quote_body false s ++ b'"' ∷ [])

quote_tests :
    (quote (codes "a\"\\\n") ≡ codes "\"a\\\"\\\\\\n\"")
    × (quote (1 ∷ []) ≡ codes "\"\\u0001\"")
    × (quote (55357 ∷ []) ≡ codes "\"\\ud83d\"")
    × (quote (55357 ∷ 56832 ∷ []) ≡ b'"' ∷ 55357 ∷ 56832 ∷ b'"' ∷ [])
unfolding quote quote_body quote_unit
quote_tests = (refl, refl, refl, refl)
