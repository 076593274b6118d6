-- ===== src/Tar/RoundTrip/Headers.antt =====
-- The headers that `writeTar` writes, read by `readTar`.
use bab_takehome.Base.{
  ℕ, ◌%◌, ◌≤◌, ◌<◌, ◌≡◌, refl, ap, subst, ◌∙◌, true, false, not, Option, none, some, List, arith,
  length, take, drop, every, any, ltb, Text, text_eq, text_eq_refl, ok, raise_if, raise_if-eq-ok,
  >>=-eq-ok, ok-injective, ◌==◌,
}
use bab_takehome.Tar.Paths.{not_ascii}
use bab_takehome.Tar.Entries.{Bytes, block, EntryType, file, dir, Codec}
use bab_takehome.Tar.Write.{
  Slot, entry_name, canonical_header, header_type, first_block, build_header,
}
use bab_takehome.Tar.Read.{
  Parsed, entry_type, data_size, is_zero, ustar_magic, max_safe_integer, read_header,
}
use bab_takehome.Tar.RoundTrip.{CodecLaws, Writable}
use bab_takehome.Tar.RoundTrip.Blocks.{magic-not_zero}

abbrev pub slot_parsed : Text → Slot → Parsed
slot_parsed p slot = record {
  path = p;
  kind = slot.kind;
  mode = slot.mode;
  size = data_size slot.kind (length slot.bytes);
}

pub ltb-false : (m n : ℕ) → m ≤ n → ltb n m ≡ false
ltb-false m n h = ground arith

entry_type-header_type :
    (name : Text) (kind : EntryType) → entry_type name (header_type kind) ≡ ok kind
entry_type-header_type name file = refl
entry_type-header_type name dir = refl

mod_small : (m : ℕ) → m < 4096 → m % 4096 ≡ m
mod_small m h = omega arith

first_block-eq-ok :
    (name : Text) (m : Option Bytes) (b : Bytes)
    → first_block name m ≡ ok b
    → (h : Bytes) × ((m ≡ some h) × (take block h ≡ b))
first_block-eq-ok name none b r = absurd (ground arith)
first_block-eq-ok name (some h) b r = (h, (refl, ok-injective _ _ r))

module _ (codec : Codec) where
  -- What a header that is written consists of.
  build_header-eq-ok :
      (name : Text) (kind : EntryType) (mode size : ℕ) (b : Bytes)
      → build_header codec name kind mode size ≡ ok b
      → (length (Codec.utf8 codec name) ≡ length name)
        × ((h : Bytes) × ((Codec.encode codec (canonical_header name kind mode size) ≡ some h)
              × (take block h ≡ b)))
  unfolding build_header
  build_header-eq-ok name kind mode size b r =
      let (_, (a, k)) =
        >>=-eq-ok (raise_if (not (length (Codec.utf8 codec name) == length name)) (not_ascii name))
          _ r in
      let ascii = raise_if-eq-ok _ _ a in
      (
        ground arith,
        first_block-eq-ok name (Codec.encode codec (canonical_header name kind mode size)) b k,
      )

  -- A header that was written is read as the slot that it was written for.
  pub read_header-written :
      (laws : CodecLaws codec) (off : ℕ) (p : Text) (slot : Slot) (b : Bytes) (seen : List Text)
      → Writable p slot
      → build_header codec (entry_name p slot.kind) slot.kind slot.mode (length slot.bytes) ≡ ok b
      → any (text_eq p) seen ≡ false
      → (length b ≡ block)
        × (every is_zero b ≡ false)
        × (read_header codec off b seen ≡ ok (slot_parsed p slot))
  unfolding read_header
  read_header-written laws off p slot b seen w r new =
      let (ascii, (h, (e, t))) =
        build_header-eq-ok (entry_name p slot.kind) slot.kind slot.mode (length slot.bytes) b r in
      let (whole, magic) =
        CodecLaws.encode-block laws p slot.kind slot.mode (length slot.bytes) h e in
      let dec =
        CodecLaws.decode-encode laws p slot.kind slot.mode (length slot.bytes) h w.path ascii w.mode
          w.size e in
      let is_ustar : text_eq (take 6 (drop 257 (take block h))) ustar_magic ≡ true =
        ap (λ (m : Bytes). text_eq m ustar_magic) magic ∙ text_eq_refl ustar_magic in
      let small = ltb-false (length slot.bytes) max_safe_integer w.size in
      let mode : slot.mode % 4096 ≡ slot.mode = mod_small slot.mode w.mode in
      subst
        (λ (c : Bytes).
          (length c ≡ block)
          × (every is_zero c ≡ false)
          × (read_header codec off c seen ≡ ok (slot_parsed p slot)))
        t
        (
          whole,
          magic-not_zero (take block h) magic,
          rw
              (
                is_ustar,
                dec,
                small,
                entry_type-header_type (entry_name p slot.kind) slot.kind,
                w.path,
                new,
                mode,
              )
              refl,
        )
