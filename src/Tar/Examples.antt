-- ===== src/Tar/Examples.antt =====
-- Archives at concrete inputs, with a codec that keeps the name, the type and a size below 256.
use mathlib.Core.List.{flatten}
use bab_takehome.Base.{
  ℕ, ◌≡◌, refl, false, some, List, [], ◌∷◌, ◌++◌, take, drop, if◌then◌else◌, ◌==◌, Text, codes,
  text_eq, starts_with, All, DistinctBy, lookup, insert, pos, negsuc, ℤ, Result, ok, err, traverse,
  sort_by, insert_by, text_lt,
}
use bab_takehome.Tar.Paths.{
  TarError, normalize_tar_path, split, join, ends_with_slash, drop_last, prefixes, parents,
  unsafe_path, absolute_path, file_and_directory, duplicate_entry,
}
use bab_takehome.Tar.Paths.Safe.{IsSafePath, normalize_tar_path-IsSafePath}
use bab_takehome.Tar.Entries.{
  Bytes, file, dir, TarInput, TarEntry, HeaderType, regular_file, directory, header, Codec,
}
use bab_takehome.Tar.Write.{
  zeros, write_tar, write_slots, collect, add_parents, add_all_parents, build_header, entry_chunks,
}
use bab_takehome.Tar.Read.{
  ustar_magic, read_tar, read_loop, read_header, types, check_parents, check_entries,
}
use bab_takehome.Tar.Read.Safe.{Clear, read_tar-safe}

abbrev pub size_byte : ℤ → ℕ
size_byte (pos n) = n
size_byte (negsuc n) = 0

abbrev pub flag : HeaderType → ℕ
flag directory = b'5'
flag _ = b'0'

abbrev pub until_zero : Bytes → Text
until_zero [] = []
until_zero (c ∷ s) = if c == 0 then [] else c ∷ until_zero s

abbrev pub first : Bytes → ℕ
first [] = 0
first (c ∷ s) = c

abbrev pub small : Codec
small = record {
  encode = λ h. some (
      take 124 (h.name ++ zeros 124)
      ++ size_byte h.size ∷ zeros 31
      ++ flag h.kind ∷ zeros 100
      ++ ustar_magic
      ++ zeros 249);
  decode = λ b. header (record {
    name = until_zero b;
    kind = if first (drop 156 b) == b'5' then directory else regular_file;
    mode = 420;
    uid = 0;
    gid = 0;
    size = pos (first (drop 124 b));
    mtime = 0;
    uname = [];
    gname = [];
    devmajor = 0;
    devminor = 0;
  });
  utf8 = λ s. s;
}

abbrev hello : TarInput
hello = record { path = codes "d/x"; kind = file; bytes = some (codes "hi"); executable = false }

abbrev at_d : TarInput
at_d = record { path = codes "d"; kind = file; bytes = some []; executable = false }

abbrev read_back : List TarEntry
read_back =
    record { path = codes "d"; kind = dir; mode = 420; bytes = [] }
    ∷ record { path = codes "d/x"; kind = file; mode = 420; bytes = codes "hi" }
    ∷ []

abbrev pub bytes_of : Result TarError Bytes → Bytes
bytes_of (ok b) = b
bytes_of (err e) = []

abbrev archive : Bytes
unfolding write_tar write_slots collect add_parents add_all_parents build_header entry_chunks
    normalize_tar_path split join ends_with_slash drop_last prefixes parents lookup insert traverse
    sort_by insert_by text_lt text_eq starts_with
archive = bytes_of (write_tar small (hello ∷ []))

paths_tests :
    (normalize_tar_path (codes "a/b/") ≡ ok (codes "a/b"))
    × (normalize_tar_path (codes "a/../b") ≡ err (unsafe_path (codes "a/../b")))
    × (normalize_tar_path (codes "/a") ≡ err (absolute_path (codes "/a")))
    × (parents (codes "a/b/c") ≡ codes "a" ∷ codes "a/b" ∷ [])
unfolding normalize_tar_path split join ends_with_slash drop_last prefixes parents text_eq
    starts_with
paths_tests = (refl, refl, refl, refl)

write_tests :
    (write_tar small (hello ∷ at_d ∷ []) ≡ err (file_and_directory (codes "d")))
    × (write_tar small (hello ∷ hello ∷ []) ≡ err (duplicate_entry (codes "d/x")))
unfolding write_tar write_slots collect add_parents add_all_parents build_header entry_chunks
    normalize_tar_path split join ends_with_slash drop_last prefixes parents lookup insert traverse
    sort_by insert_by text_lt text_eq starts_with
write_tests = (refl, refl)

archive_read : read_tar small archive ≡ ok read_back
unfolding archive flatten read_tar read_loop read_header types check_parents check_entries write_tar
    write_slots collect add_parents add_all_parents build_header entry_chunks normalize_tar_path
    split join ends_with_slash drop_last prefixes parents lookup insert traverse sort_by insert_by
    text_lt text_eq starts_with
archive_read = refl

normalize_tar_path-IsSafePath_example :
    IsSafePath (codes "a/b") × (normalize_tar_path (codes "a/b") ≡ ok (codes "a/b"))
normalize_tar_path-IsSafePath_example =
    normalize_tar_path-IsSafePath (codes "a/b/") (codes "a/b") (paths_tests.0)

read_tar-safe_example :
    All (λ e. IsSafePath e.path) read_back
    × DistinctBy TarEntry.path read_back
    × All (Clear read_back) read_back
read_tar-safe_example = read_tar-safe small archive read_back archive_read
