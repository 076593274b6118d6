-- ===== src/Tar/Entries.antt =====
-- packages/shared/src/tar.ts: the entries of an archive, and the header codec of the package
-- tar-stream, which is a parameter. Bytes are lists of numbers.
use bab_takehome.Base.{ℕ, Bool, true, false, Option, List, Text, ℤ, ◌+◌, ◌*◌, ◌/◌}

abbrev pub Bytes : Type 0
Bytes = List ℕ

abbrev pub block : ℕ
block = 512

-- `Math.ceil(n / BLOCK) * BLOCK`
abbrev pub padded : ℕ → ℕ
padded n = (n + 511) / block * block

pub data EntryType : Type 0 where
  file : EntryType
  dir : EntryType

abbrev pub is_dir : EntryType → Bool
is_dir file = false
is_dir dir = true

pub record TarInput : Type 0 where
  pub path : Text
  pub kind : EntryType
  pub bytes : Option Bytes
  pub executable : Bool

pub record TarEntry : Type 0 where
  pub path : Text
  pub kind : EntryType
  pub mode : ℕ
  pub bytes : Bytes

-- The types of tar-stream's headers. `other_type` stands for devices, fifos and unknown types.
pub data HeaderType : Type 0 where
  regular_file : HeaderType
  contiguous_file : HeaderType
  directory : HeaderType
  link : HeaderType
  symlink : HeaderType
  pax_header : HeaderType
  pax_global_header : HeaderType
  gnu_long_path : HeaderType
  gnu_long_link_path : HeaderType
  other_type : HeaderType

-- The sizes are integers.
pub record TarStreamHeader : Type 0 where
  pub name : Text
  pub kind : HeaderType
  pub mode : ℕ
  pub uid : ℕ
  pub gid : ℕ
  pub size : ℤ
  pub mtime : ℕ
  pub uname : Text
  pub gname : Text
  pub devmajor : ℕ
  pub devminor : ℕ

-- What `decode` does: it throws on a wrong checksum, and returns null for an empty header.
pub data Decoded : Type 0 where
  bad_checksum : Decoded
  no_header : Decoded
  header : TarStreamHeader → Decoded

-- `tarHeaders`, and the runtime's UTF-8 encoder.
pub record Codec : Type 0 where
  pub encode : TarStreamHeader → Option Bytes
  pub decode : Bytes → Decoded
  pub utf8 : Text → Bytes
