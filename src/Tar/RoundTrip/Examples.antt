-- ===== src/Tar/RoundTrip/Examples.antt =====
-- A codec that keeps the documented behaviour, and an archive that is written and read with it.
use mathlib.Core.List.{append-nil, append_assoc}
use bab_takehome.Base.{
  ℕ, suc, ◌+◌, ◌-◌, ◌≤◌, ◌≡◌, refl, sym, ap, subst, ◌∙◌, inl, inr, true, false, Option, none, some,
  List, [], ◌∷◌, ◌++◌, arith, length, length-append, take, drop, if◌then◌else◌, leb, ◌==◌,
  Bool-cases, some-injective, Text, codes, text_eq, starts_with, lookup, insert, pos, ok, traverse,
  sort_by, insert_by, text_lt,
}
use bab_takehome.Tar.Paths.{
  normalize_tar_path, split, join, ends_with_slash, drop_last, prefixes, parents,
}
use bab_takehome.Tar.Entries.{
  Bytes, block, EntryType, file, dir, TarInput, TarEntry, regular_file, directory, TarStreamHeader,
  header, Codec,
}
use bab_takehome.Tar.Write.{
  zeros, write_tar, write_slots, collect, add_parents, add_all_parents, build_header, entry_chunks,
  canonical_header, entry_name,
}
use bab_takehome.Tar.Read.{ustar_magic, read_tar}
use bab_takehome.Tar.Examples.{size_byte, flag, first, bytes_of}
use bab_takehome.Tar.RoundTrip.{CodecLaws, IsReadBack}
use bab_takehome.Tar.RoundTrip.Blocks.{take-append_exact, drop-append_exact, length-zeros}
use bab_takehome.Tar.RoundTrip.Whole.{read_tar-write_tar}

-- The name, padded to its field.
abbrev name_field : Text → Bytes
name_field name = name ++ zeros (253 - length name)

-- The magic and the rest of the block.
abbrev trailer : Bytes
trailer = ustar_magic ++ zeros 249

abbrev layout : TarStreamHeader → Bytes
layout h = size_byte h.size ∷ h.mode ∷ flag h.kind ∷ length h.name ∷ name_field h.name ++ trailer

abbrev some_if : TarStreamHeader → Option Bytes
some_if h = if leb (length h.name) 253 then some (layout h) else none

abbrev exact : Codec
exact = record {
  encode = some_if;
  decode = λ b. header (record {
    name = take (first (drop 3 b)) (drop 4 b);
    kind = if first (drop 2 b) == b'5' then directory else regular_file;
    mode = first (drop 1 b);
    uid = 0;
    gid = 0;
    size = pos (first b);
    mtime = 0;
    uname = [];
    gname = [];
    devmajor = 0;
    devminor = 0;
  });
  utf8 = λ s. s;
}

length-name_field : (name : Text) → length name ≤ 253 → length (name_field name) ≡ 253
length-name_field name h =
    omega (arith, length-append name (zeros (253 - length name)), length-zeros (253 - length name))

length-layout : (h : TarStreamHeader) → length h.name ≤ 253 → length (layout h) ≡ block
length-layout h n =
    let rest : length (name_field h.name ++ trailer) ≡ 508 =
      length-append (name_field h.name) trailer ∙ ap (λ k. k + 255) (length-name_field h.name n) in
    ap (λ k. suc (suc (suc (suc k)))) rest

take-layout : (h : TarStreamHeader) → length h.name ≤ 253 → take block (layout h) ≡ layout h
take-layout h n =
    ap (take block) (sym (append-nil (layout h)))
    ∙ take-append_exact block (layout h) [] (length-layout h n)

-- A header that is encoded has a short name.
some_if-eq-some :
    (h : TarStreamHeader) (b : Bytes) → some_if h ≡ some b → (length h.name ≤ 253) × (layout h ≡ b)
some_if-eq-some h b e = elim (Bool-cases (leb (length h.name) 253)) [
  | inl short ↦ (ground arith, some-injective (layout h) b (rw short at e))
  | inr long ↦ absurd (ground arith)
]

encode-block :
    (h : TarStreamHeader) (b : Bytes)
    → some_if h ≡ some b
    → (length (take block b) ≡ block) × (take 6 (drop 257 (take block b)) ≡ ustar_magic)
encode-block h b e =
    let (n, same) = some_if-eq-some h b e in
    subst
      (λ (x : Bytes).
        (length (take block x) ≡ block) × (take 6 (drop 257 (take block x)) ≡ ustar_magic))
      same
      (
        ap length (take-layout h n) ∙ length-layout h n,
        ap (λ (x : Bytes). take 6 (drop 257 x)) (take-layout h n)
            ∙ ap (take 6)
                (drop-append_exact 253 (name_field h.name) trailer (length-name_field h.name n))
            ∙ take-append_exact 6 ustar_magic (zeros 249) refl,
      )

read_name : (name : Text) → take (length name) (name_field name ++ trailer) ≡ name
read_name name =
    ap (take (length name)) (append_assoc name (zeros (253 - length name)) trailer)
    ∙ take-append_exact (length name) name (zeros (253 - length name) ++ trailer) refl

decode-layout :
    (name : Text) (kind : EntryType) (mode size : ℕ)
    → Codec.decode exact (layout (canonical_header name kind mode size))
      ≡ header (canonical_header name kind mode size)
decode-layout name file mode size =
    ap (λ (x : Text). header (canonical_header x file mode size)) (read_name name)
decode-layout name dir mode size =
    ap (λ (x : Text). header (canonical_header x dir mode size)) (read_name name)

decode-encode :
    (name : Text) (kind : EntryType) (mode size : ℕ) (b : Bytes)
    → some_if (canonical_header name kind mode size) ≡ some b
    → Codec.decode exact (take block b) ≡ header (canonical_header name kind mode size)
decode-encode name kind mode size b e =
    let (n, same) = some_if-eq-some (canonical_header name kind mode size) b e in
    subst
      (λ (x : Bytes).
        Codec.decode exact (take block x) ≡ header (canonical_header name kind mode size))
      same
      (ap (Codec.decode exact) (take-layout (canonical_header name kind mode size) n)
        ∙ decode-layout name kind mode size)

exact-CodecLaws : CodecLaws exact
exact-CodecLaws = record {
  encode-block = λ p kind mode size h e.
      encode-block (canonical_header (entry_name p kind) kind mode size) h e;
  decode-encode =
      λ p kind mode size h _ _ _ _ e. decode-encode (entry_name p kind) kind mode size h e;
}

abbrev script : TarInput
script = record { path = codes "d/x"; kind = file; bytes = some (codes "hi"); executable = true }

abbrev folder : TarInput
folder = record { path = codes "e/"; kind = dir; bytes = none; executable = false }

abbrev written : Bytes
unfolding write_tar write_slots collect add_parents add_all_parents build_header entry_chunks
    normalize_tar_path split join ends_with_slash drop_last prefixes parents lookup insert traverse
    sort_by insert_by text_lt text_eq starts_with
written = bytes_of (write_tar exact (script ∷ folder ∷ []))

write_tar-written : write_tar exact (script ∷ folder ∷ []) ≡ ok written
unfolding written write_tar write_slots collect add_parents add_all_parents build_header
    entry_chunks normalize_tar_path split join ends_with_slash drop_last prefixes parents lookup
    insert traverse sort_by insert_by text_lt text_eq starts_with
write_tar-written = refl

read_tar-write_tar_example :
    (es : List TarEntry) × ((read_tar exact written ≡ ok es) × IsReadBack (script ∷ folder ∷ []) es)
read_tar-write_tar_example =
    read_tar-write_tar exact exact-CodecLaws (script ∷ folder ∷ []) written
      (omega arith, (omega arith, tt)) write_tar-written
