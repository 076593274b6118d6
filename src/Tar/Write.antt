-- ===== src/Tar/Write.antt =====
-- packages/shared/src/tar.ts: `writeTar`.
use mathlib.Core.List.{flatten}
use bab_takehome.Base.{
  ℕ, zero, suc, ◌-◌, ◌*◌, Bool, ◌&&◌, not, Option, none, some, List, [], ◌∷◌, ◌++◌, length, take,
  map, if◌then◌else◌, ltb, ◌==◌, Text, Dict, lookup, insert, pos, Result, ok, err, ◌>>=◌, ◌>>◌,
  raise_if, traverse, sort_by,
}
use bab_takehome.Tar.Paths.{
  TarError, duplicate_entry, file_without_data, file_and_directory, not_ascii, path_too_long, slash,
  normalize_tar_path, parents,
}
use bab_takehome.Tar.Entries.{
  Bytes, block, padded, EntryType, file, dir, is_dir, TarInput, regular_file, directory, HeaderType,
  TarStreamHeader, Codec,
}

-- The values of the map in `writeTar`.
pub record Slot : Type 0 where
  pub kind : EntryType
  pub bytes : Bytes
  pub mode : ℕ

abbrev pub mode_644 : ℕ
mode_644 = 420

abbrev pub mode_755 : ℕ
mode_755 = 493

abbrev pub dir_slot : Slot
dir_slot = record { kind = dir; bytes = []; mode = mode_755 }

abbrev pub new_slot : Text → EntryType → Option Bytes → Bool → Result TarError Slot
new_slot p file none executable = err (file_without_data p)
new_slot p file (some bytes) executable =
    ok (record { kind = file; bytes = bytes; mode = if executable then mode_755 else mode_644 })
new_slot p dir bytes executable = ok dir_slot

-- One pass of the first loop, with what the map has at the normalized path.
abbrev pub add_input : Dict Slot → Text → TarInput → Option Slot → Result TarError (Dict Slot)
add_input slots p e (some prev) = do
  raise_if (not (is_dir prev.kind && is_dir e.kind)) (duplicate_entry p)
  ok slots
add_input slots p e none = do
  slot ← new_slot p e.kind e.bytes e.executable
  ok (insert p slot slots)

unfoldable pub collect : Dict Slot → List TarInput → Result TarError (Dict Slot)
collect slots [] = ok slots
collect slots (e ∷ inputs) = do
  p ← normalize_tar_path e.path
  next ← add_input slots p e (lookup p slots)
  collect next inputs

-- One parent directory, with what the map has at its path.
abbrev pub add_parent : Dict Slot → Text → Option Slot → Result TarError (Dict Slot)
add_parent slots d (some existing) = do
  raise_if (not (is_dir existing.kind)) (file_and_directory d)
  ok slots
add_parent slots d none = ok (insert d dir_slot slots)

unfoldable pub add_parents : Dict Slot → List Text → Result TarError (Dict Slot)
add_parents slots [] = ok slots
add_parents slots (d ∷ ds) = do next ← add_parent slots d (lookup d slots); add_parents next ds

unfoldable pub add_all_parents : Dict Slot → List Text → Result TarError (Dict Slot)
add_all_parents slots [] = ok slots
add_all_parents slots (p ∷ paths) = do
  next ← add_parents slots (parents p)
  add_all_parents next paths

abbrev pub zeros : ℕ → Bytes
zeros zero = []
zeros (suc n) = 0 ∷ zeros n

abbrev pub slot_path : Text × Slot → Text
slot_path e = e.0

abbrev pub header_type : EntryType → HeaderType
header_type dir = directory
header_type file = regular_file

-- The header that `buildHeader` encodes.
abbrev pub canonical_header : Text → EntryType → ℕ → ℕ → TarStreamHeader
canonical_header name kind mode size = record {
  name = name;
  kind = header_type kind;
  mode = mode;
  uid = 0;
  gid = 0;
  size = pos size;
  mtime = 0;
  uname = [];
  gname = [];
  devmajor = 0;
  devminor = 0;
}

abbrev pub first_block : Text → Option Bytes → Result TarError Bytes
first_block name none = err (path_too_long name)
first_block name (some h) = ok (take block h)

abbrev pub entry_name : Text → EntryType → Text
entry_name p dir = p ++ slash ∷ []
entry_name p file = p

-- The data blocks of an entry.
abbrev pub body : EntryType → Bytes → Bytes
body dir bytes = []
body file bytes =
    if ltb 0 (length bytes) then bytes ++ zeros (padded (length bytes) - length bytes) else []

module _ (codec : Codec) where
  unfoldable pub build_header : Text → EntryType → ℕ → ℕ → Result TarError Bytes
  build_header name kind mode size = do
    raise_if (not (length (Codec.utf8 codec name) == length name)) (not_ascii name)
    first_block name (Codec.encode codec (canonical_header name kind mode size))

  unfoldable pub entry_chunks : Text × Slot → Result TarError Bytes
  entry_chunks (p, slot) = do
    h ← build_header (entry_name p slot.kind) slot.kind slot.mode (length slot.bytes)
    ok (h ++ body slot.kind slot.bytes)

  unfoldable pub write_slots : Dict Slot → Result TarError Bytes
  write_slots slots = do
    chunks ← traverse entry_chunks (sort_by (λ e. Codec.utf8 codec (slot_path e)) slots)
    ok (flatten chunks ++ zeros (2 * block))

  unfoldable pub write_tar : List TarInput → Result TarError Bytes
  write_tar inputs = do
    slots ← collect [] inputs
    all_slots ← add_all_parents slots (map slot_path slots)
    write_slots all_slots
