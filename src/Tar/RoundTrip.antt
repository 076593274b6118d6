-- ===== src/Tar/RoundTrip.antt =====
-- `readTar` on what `writeTar` writes: what is documented of the header codec, and the entries.
pub mod Blocks
pub mod Headers
pub mod Loop
pub mod Parents
pub mod Slots
pub mod Found
pub mod Closed
pub mod Whole
mod Examples
use bab_takehome.Base.{
  ℕ, ◌≤◌, ◌<◌, ◌≡◌, ◌⊎◌, Bool, Option, some, length, take, drop, Text, ok, List, [], All, Some,
  DistinctBy, get_or, if◌then◌else◌,
}
use bab_takehome.Tar.Paths.{normalize_tar_path, parents}
use bab_takehome.Tar.Entries.{Bytes, block, EntryType, file, dir, TarInput, TarEntry, header, Codec}
use bab_takehome.Tar.Write.{Slot, entry_name, canonical_header, mode_644, mode_755}
use bab_takehome.Tar.Read.{ustar_magic, max_safe_integer}

-- tar-stream writes a header as a ustar block, which it decodes to the same header: for an ASCII
-- name that is a safe path, with a slash at the end for a directory, for a mode of 12 bits and for
-- a size that is a safe integer.
pub record CodecLaws (codec : Codec) : Type 0 where
  pub encode-block :
      (p : Text) (kind : EntryType) (mode size : ℕ) (h : Bytes)
      → Codec.encode codec (canonical_header (entry_name p kind) kind mode size) ≡ some h
      → (length (take block h) ≡ block) × (take 6 (drop 257 (take block h)) ≡ ustar_magic)
  pub decode-encode :
      (p : Text) (kind : EntryType) (mode size : ℕ) (h : Bytes)
      → normalize_tar_path (entry_name p kind) ≡ ok p
      → length (Codec.utf8 codec (entry_name p kind)) ≡ length (entry_name p kind)
      → mode < 4096
      → size ≤ max_safe_integer
      → Codec.encode codec (canonical_header (entry_name p kind) kind mode size) ≡ some h
      → Codec.decode codec (take block h)
        ≡ header (canonical_header (entry_name p kind) kind mode size)

-- A slot of the map of `writeTar` that can be read back.
pub record Writable (p : Text) (slot : Slot) : Type 0 where
  pub path : normalize_tar_path (entry_name p slot.kind) ≡ ok p
  pub mode : slot.mode < 4096
  pub size : length slot.bytes ≤ max_safe_integer
  pub no_bytes : slot.kind ≡ dir → slot.bytes ≡ []

-- The entry that is read for a slot.
abbrev pub slot_entry : Text × Slot → TarEntry
slot_entry (p, slot) = record { path = p; kind = slot.kind; mode = slot.mode; bytes = slot.bytes }

-- What a reader expects of the archive of some inputs.
abbrev pub entry_mode : EntryType → Bool → ℕ
entry_mode dir executable = mode_755
entry_mode file executable = if executable then mode_755 else mode_644

abbrev pub entry_bytes : EntryType → Option Bytes → Bytes
entry_bytes dir bytes = []
entry_bytes file bytes = get_or bytes []

-- The entry of an input.
abbrev pub IsInput : TarInput → TarEntry → Type 0
IsInput i e =
    (normalize_tar_path i.path ≡ ok e.path)
    × (e ≡ record {
      path = e.path;
      kind = i.kind;
      mode = entry_mode i.kind i.executable;
      bytes = entry_bytes i.kind i.bytes;
    })

-- The entry of a parent directory of an input.
abbrev pub IsParent : TarInput → TarEntry → Type 0
IsParent i e =
    (p : Text) × (normalize_tar_path i.path ≡ ok p)
    × Some (λ d. d ≡ e.path) (parents p)
    × (e ≡ record { path = e.path; kind = dir; mode = mode_755; bytes = [] })

-- Every input is read back, and all else that is read is a parent directory of an input.
abbrev pub IsReadBack : List TarInput → List TarEntry → Type 0
IsReadBack inputs es =
    DistinctBy TarEntry.path es
    × All (λ i. Some (IsInput i) es) inputs
    × All (λ e. Some (λ i. IsInput i e ⊎ IsParent i e) inputs) es
