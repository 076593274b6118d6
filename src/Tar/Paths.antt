-- ===== src/Tar/Paths.antt =====
-- packages/shared/src/tar.ts: the paths of archive entries, `normalizeTarPath` and the parent
-- directories of a path.
pub mod Segments
pub mod Safe
use bab_takehome.Base.{
  ℕ, zero, suc, ◌+◌, Bool, true, false, ◌&&◌, ◌||◌, List, [], ◌∷◌, ◌++◌, length, take, any, map,
  if◌then◌else◌, ltb, leb, ◌==◌, Text, codes, text_eq, starts_with, includes, Result, ok, err,
  ◌>>=◌, ◌>>◌, raise_if,
}

-- What `normalizeTarPath`, `writeTar` and `readTar` throw: the path or the offset that the message
-- names.
pub data TarError : Type 0 where
  empty_path : TarError
  nul_in_path : Text → TarError
  backslash_in_path : Text → TarError
  absolute_path : Text → TarError
  drive_letter : Text → TarError
  unsafe_path : Text → TarError
  duplicate_entry : Text → TarError
  file_without_data : Text → TarError
  file_and_directory : Text → TarError
  not_ascii : Text → TarError
  path_too_long : Text → TarError
  not_ustar : ℕ → TarError
  checksum_mismatch : ℕ → TarError
  empty_header : ℕ → TarError
  invalid_size : Text → TarError
  link_entry : Text → TarError
  extension_header : Text → TarError
  unsupported_entry : Text → TarError
  truncated_data : Text → TarError
  missing_end : TarError

abbrev pub slash : ℕ
slash = b'/'

-- `s.split('/')`
abbrev pub extend : ℕ → List Text → List Text
extend c [] = (c ∷ []) ∷ []
extend c (s ∷ segs) = (c ∷ s) ∷ segs

unfoldable pub split : Text → List Text
split [] = [] ∷ []
split (c ∷ s) = let segs = split s in if c == slash then [] ∷ segs else extend c segs

-- `segs.join('/')`
unfoldable pub join : List Text → Text
join [] = []
join (s ∷ []) = s
join (s ∷ t ∷ segs) = s ++ slash ∷ join (t ∷ segs)

-- `p.endsWith('/')` and `p.slice(0, -1)`
unfoldable pub ends_with_slash : Text → Bool
ends_with_slash [] = false
ends_with_slash (c ∷ []) = c == slash
ends_with_slash (c ∷ d ∷ s) = ends_with_slash (d ∷ s)

unfoldable pub drop_last : Text → Text
drop_last [] = []
drop_last (c ∷ []) = []
drop_last (c ∷ d ∷ s) = c ∷ drop_last (d ∷ s)

abbrev pub is_letter : ℕ → Bool
is_letter c = leb b'A' c && leb c b'Z' || leb b'a' c && leb c b'z'

-- `/^[A-Za-z]:/`
abbrev pub has_drive_letter : Text → Bool
has_drive_letter [] = false
has_drive_letter (c ∷ []) = false
has_drive_letter (c ∷ d ∷ s) = is_letter c && d == b':'

abbrev pub is_unsafe : Text → Bool
is_unsafe s = text_eq s [] || text_eq s (codes ".") || text_eq s (codes "..")

abbrev pub trim : Text → Text
trim p = if ends_with_slash p then drop_last p else p

abbrev pub has_unit : ℕ → Text → Bool
has_unit c p = any (λ d. d == c) p

unfoldable pub normalize_tar_path : Text → Result TarError Text
normalize_tar_path p = do
  raise_if (length p == 0) empty_path
  raise_if (has_unit 0 p) (nul_in_path p)
  raise_if (has_unit b'\\' p) (backslash_in_path p)
  raise_if (starts_with (codes "/") p) (absolute_path p)
  raise_if (has_drive_letter p) (drive_letter p)
  raise_if (any is_unsafe (split (trim p))) (unsafe_path p)
  ok (trim p)

-- `segs.slice(0, i).join('/')` for each `i` from `i` on, with `n` of them to go.
unfoldable pub prefixes : List Text → ℕ → ℕ → List Text
prefixes segs i zero = []
prefixes segs i (suc n) = join (take i segs) ∷ prefixes segs (suc i) n

abbrev pub less_one : ℕ → ℕ
less_one zero = zero
less_one (suc n) = n

-- The parent directories of a path, from the top down.
unfoldable pub parents : Text → List Text
parents p = prefixes (split p) 1 (less_one (length (split p)))
