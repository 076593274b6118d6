-- ===== src/Tar/Read.antt =====
-- packages/shared/src/tar.ts: `readTar`.
pub mod Fuel
pub mod Safe
use bab_takehome.Base.{
  ℕ, zero, suc, ◌+◌, ◌-◌, ◌*◌, ◌/◌, ◌%◌, ◌^◌, Bool, true, false, ◌&&◌, not, Option, none, some,
  List, [], ◌∷◌, length, take, drop, every, any, if◌then◌else◌, ltb, leb, ◌==◌, Text, text_eq, Dict,
  lookup, insert, ℤ, pos, negsuc, Result, ok, err, ◌>>=◌, ◌>>◌, raise_if,
}
use bab_takehome.Tar.Paths.{
  TarError, duplicate_entry, file_and_directory, not_ustar, checksum_mismatch, empty_header,
  invalid_size, link_entry, extension_header, unsupported_entry, truncated_data, missing_end,
  normalize_tar_path, parents,
}
use bab_takehome.Tar.Entries.{
  Bytes, block, padded, EntryType, file, dir, is_dir, TarEntry, HeaderType, regular_file,
  contiguous_file, directory, link, symlink, pax_header, pax_global_header, gnu_long_path,
  gnu_long_link_path, other_type, TarStreamHeader, Decoded, bad_checksum, no_header, header, Codec,
}

-- "ustar\0"
abbrev pub ustar_magic : Bytes
ustar_magic = 117 ∷ 115 ∷ 116 ∷ 97 ∷ 114 ∷ 0 ∷ []

abbrev pub max_safe_integer : ℕ
max_safe_integer = 9007199254740991

abbrev pub decoded : ℕ → Decoded → Result TarError TarStreamHeader
decoded off bad_checksum = err (checksum_mismatch off)
decoded off no_header = err (empty_header off)
decoded off (header h) = ok h

abbrev pub safe_size : Text → ℤ → Result TarError ℕ
safe_size name (pos n) = do raise_if (ltb max_safe_integer n) (invalid_size name); ok n
safe_size name (negsuc n) = err (invalid_size name)

abbrev pub entry_type : Text → HeaderType → Result TarError EntryType
entry_type name regular_file = ok file
entry_type name contiguous_file = ok file
entry_type name directory = ok dir
entry_type name link = err (link_entry name)
entry_type name symlink = err (link_entry name)
entry_type name pax_header = err (extension_header name)
entry_type name pax_global_header = err (extension_header name)
entry_type name gnu_long_path = err (extension_header name)
entry_type name gnu_long_link_path = err (extension_header name)
entry_type name other_type = err (unsupported_entry name)

abbrev pub is_zero : ℕ → Bool
is_zero b = b == 0

-- What one header says: the entry without its data, and the number of its data bytes.
pub record Parsed : Type 0 where
  pub path : Text
  pub kind : EntryType
  pub mode : ℕ
  pub size : ℕ

abbrev pub data_size : EntryType → ℕ → ℕ
data_size dir size = 0
data_size file size = size

abbrev pub entry_of : Parsed → Bytes → TarEntry
entry_of e rest = record { path = e.path; kind = e.kind; mode = e.mode; bytes = take e.size rest }

-- `types`: a later entry of the same path would replace an earlier one.
unfoldable pub types : Dict EntryType → List TarEntry → Dict EntryType
types d [] = d
types d (e ∷ entries) = types (insert e.path e.kind d) entries

abbrev pub is_file_type : Option EntryType → Bool
is_file_type none = false
is_file_type (some k) = not (is_dir k)

unfoldable pub check_parents : Dict EntryType → List Text → Result TarError (Unit {0})
check_parents kinds [] = ok tt
check_parents kinds (d ∷ ds) = do
  raise_if (is_file_type (lookup d kinds)) (file_and_directory d)
  check_parents kinds ds

unfoldable pub check_entries : Dict EntryType → List TarEntry → Result TarError (Unit {0})
check_entries kinds [] = ok tt
check_entries kinds (e ∷ entries) = do
  check_parents kinds (parents e.path)
  check_entries kinds entries

module _ (codec : Codec) where
  -- The header block at `off`, before the data is looked at.
  unfoldable pub read_header : ℕ → Bytes → List Text → Result TarError Parsed
  read_header off h seen = do
    raise_if (not (text_eq (take 6 (drop 257 h)) ustar_magic)) (not_ustar off)
    hdr ← decoded off (Codec.decode codec h)
    size ← safe_size hdr.name hdr.size
    kind ← entry_type hdr.name hdr.kind
    p ← normalize_tar_path hdr.name
    raise_if (any (text_eq p) seen) (duplicate_entry p)
    ok (record { path = p; kind = kind; mode = hdr.mode % 4096; size = data_size kind size })

  -- The loop of `readTar` at the offset `off`, with the bytes from there on and the paths seen.
  unfoldable pub read_loop : ℕ → ℕ → Bytes → List Text → Result TarError (List TarEntry)
  read_loop zero off rest seen = err missing_end
  read_loop (suc f) off rest seen =
      let next : Result TarError (List TarEntry) = (do
        e ← read_header off (take block rest) seen
        raise_if (ltb (length (drop block rest)) e.size) (truncated_data e.path)
        entries ←
            read_loop f (off + block + padded e.size) (drop (padded e.size) (drop block rest))
              (e.path ∷ seen)
        ok (entry_of e (drop block rest) ∷ entries)) in
      if ltb (length rest) block
      then err missing_end
      else if every is_zero (take block rest)
      then ok []
      else next

  unfoldable pub read_tar : Bytes → Result TarError (List TarEntry)
  read_tar bytes = do
    entries ← read_loop (suc (length bytes)) 0 bytes []
    check_entries (types [] entries) entries
    ok entries
