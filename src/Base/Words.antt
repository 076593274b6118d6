-- ===== src/Base/Words.antt =====
-- White space in text: `trim`, `split(/\s+/)`, and joining with a separator.
use Prim.Native.Nat.{ℕ}
use mathlib.Core.Bool.{Bool, false, ◌&&◌, ◌||◌, not}
use mathlib.Core.Path.{◌≡◌, refl}
use mathlib.Core.List.{List, [], ◌∷◌, ◌++◌}
use bab_takehome.Base.Tests.{if◌then◌else◌, leb, ◌==◌}
use bab_takehome.Base.Texts.{Text, codes}

-- `\s`: the white space and the line ends of the language.
abbrev pub is_space : ℕ → Bool
is_space c =
    c == 32
    || leb 9 c && leb c 13
    || c == 160
    || c == 5760
    || leb 8192 c && leb c 8202
    || c == 8232
    || c == 8233
    || c == 8239
    || c == 8287
    || c == 12288
    || c == 65279

-- `s.trimStart()`, `s.trimEnd()` and `s.trim()`
unfoldable pub trim_start : Text → Text
trim_start [] = []
trim_start (c ∷ s) = if is_space c then trim_start s else c ∷ s

unfoldable pub trim_end : Text → Text
trim_end [] = []
trim_end (c ∷ s) =
    let rest = trim_end s in
    elim rest [ [] ↦ if is_space c then [] else c ∷ [] | d ∷ t ↦ c ∷ d ∷ t ]

unfoldable pub trim : Text → Text
unfolding trim_start trim_end
trim s = trim_end (trim_start s)

-- `s.split(/\s+/)`: the word that is being read, and whether the last unit was white space.
unfoldable pub split_from : Text → Bool → Text → List Text
split_from w gap [] = w ∷ []
split_from w gap (c ∷ s) =
    let rest = split_from (if is_space c then [] else w ++ c ∷ []) (is_space c) s in
    if is_space c && not gap then w ∷ rest else rest

unfoldable pub split_spaces : Text → List Text
unfolding split_from
split_spaces s = split_from [] false s

-- `xs.join(sep)`
unfoldable pub join : Text → List Text → Text
join sep [] = []
join sep (x ∷ []) = x
join sep (x ∷ y ∷ xs) = x ++ sep ++ join sep (y ∷ xs)

words_tests :
    (trim (codes "  a b ") ≡ codes "a b")
    × (split_spaces (codes "a  b c") ≡ codes "a" ∷ codes "b" ∷ codes "c" ∷ [])
    × (split_spaces (codes " a ") ≡ [] ∷ codes "a" ∷ [] ∷ [])
    × (join (codes ", ") (codes "a" ∷ codes "b" ∷ []) ≡ codes "a, b")
unfolding trim trim_start trim_end split_spaces split_from join
words_tests = (refl, refl, refl, refl)
