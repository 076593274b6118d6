-- ===== src/Tar/RoundTrip/Loop.antt =====
-- The loop of `readTar` on the blocks that `writeTar` writes.
use mathlib.Core.List.{flatten, append_assoc}
use bab_takehome.Base.{
  ℕ, zero, suc, ◌+◌, ◌≤◌, ◌<◌, ◌≡◌, ◌≢◌, refl, sym, ap, subst, ◌∙◌, inl, inr, true, false, List, [],
  ◌∷◌, ◌++◌, arith, length, length-append, take, drop, every, any, map, All, ltb, Bool-cases, Text,
  text_eq, text_eq_iff, Dict, DistinctBy, ok, >>=-eq-ok, ok-injective, traverse,
}
use bab_takehome.Tar.Entries.{Bytes, block, padded, TarEntry, Codec}
use bab_takehome.Tar.Write.{Slot, entry_name, body, build_header, entry_chunks, slot_path}
use bab_takehome.Tar.Read.{Parsed, data_size, entry_of, is_zero, read_header, read_loop}
use bab_takehome.Tar.RoundTrip.{CodecLaws, Writable, slot_entry}
use bab_takehome.Tar.RoundTrip.Blocks.{
  take-append_exact, drop-append_exact, padded_le, length-body, take-body,
}
use bab_takehome.Tar.RoundTrip.Headers.{slot_parsed, ltb-false, read_header-written}

module _ (codec : Codec) where
  read_loop-step :
      (f off : ℕ) (rest : Bytes) (seen : List Text) (e : Parsed) (es : List TarEntry)
      → block ≤ length rest
      → every is_zero (take block rest) ≡ false
      → read_header codec off (take block rest) seen ≡ ok e
      → e.size ≤ length (drop block rest)
      → read_loop codec f
          (off + block + padded e.size)
          (drop (padded e.size) (drop block rest))
          (e.path ∷ seen)
        ≡ ok es
      → read_loop codec (suc f) off rest seen ≡ ok (entry_of e (drop block rest) ∷ es)
  unfolding read_loop
  read_loop-step f off rest seen e es a b c d k =
      let long : ltb (length rest) block ≡ false = ltb-false block (length rest) a in
      let whole : ltb (length (drop block rest)) e.size ≡ false =
        ltb-false e.size (length (drop block rest)) d in
      rw (long, b, c, whole, k) refl

  -- The loop on a header block and the data behind it.
  read_loop-block :
      (f off : ℕ) (h bytes : Bytes) (seen : List Text) (e : Parsed) (es : List TarEntry)
      → length h ≡ block
      → every is_zero h ≡ false
      → read_header codec off h seen ≡ ok e
      → e.size ≤ length bytes
      → read_loop codec f (off + block + padded e.size) (drop (padded e.size) bytes) (e.path ∷ seen)
        ≡ ok es
      → read_loop codec (suc f) off (h ++ bytes) seen ≡ ok (entry_of e bytes ∷ es)
  read_loop-block f off h bytes seen e es a b c d k =
      let front = take-append_exact block h bytes a in
      let back = drop-append_exact block h bytes a in
      read_loop-step f off (h ++ bytes) seen e es (omega (arith, length-append h bytes, a))
        (ap (every is_zero) front ∙ b) (ap (λ (x : Bytes). read_header codec off x seen) front ∙ c)
        (subst (λ (x : Bytes). e.size ≤ length x) (sym back) d)
        (ap
            (λ (x : Bytes).
              read_loop codec f (off + block + padded e.size) (drop (padded e.size) x)
                (e.path ∷ seen))
            back
          ∙ k)
      ∙ ap (λ (x : Bytes). ok (entry_of e x ∷ es)) back

  -- What stands behind the entries: a block of zeros at least.
  abbrev pub IsEnd : Bytes → Type 0
  IsEnd tail = (block ≤ length tail) × (every is_zero (take block tail) ≡ true)

  read_loop-end :
      (f off : ℕ) (tail : Bytes) (seen : List Text)
      → IsEnd tail
      → read_loop codec (suc f) off tail seen ≡ ok []
  unfolding read_loop
  read_loop-end f off tail seen (a, b) =
      let long = ltb-false block (length tail) a in rw (long, b) refl

  entry_chunks-eq-ok :
      (p : Text) (slot : Slot) (c : Bytes)
      → entry_chunks codec (p, slot) ≡ ok c
      → (h : Bytes) × ((build_header codec
              (entry_name p slot.kind)
              slot.kind
              slot.mode
              (length slot.bytes)
            ≡ ok h)
          × (h ++ body slot.kind slot.bytes ≡ c))
  unfolding entry_chunks
  entry_chunks-eq-ok p slot c r =
      let (h, (a, k)) =
        >>=-eq-ok
          (build_header codec (entry_name p slot.kind) slot.kind slot.mode (length slot.bytes)) _
          r in
      (h, (a, ok-injective _ _ k))

  -- The loop on an entry that was written, when it reads the entries behind it.
  read_loop-entry :
      (laws : CodecLaws codec) (f off : ℕ) (p : Text) (slot : Slot) (c more : Bytes)
      (seen : List Text) (es : List TarEntry)
      → Writable p slot
      → entry_chunks codec (p, slot) ≡ ok c
      → any (text_eq p) seen ≡ false
      → ((off : ℕ) → read_loop codec f off more (p ∷ seen) ≡ ok es)
      → read_loop codec (suc f) off (c ++ more) seen ≡ ok (slot_entry (p, slot) ∷ es)
  read_loop-entry laws f off p slot c more seen es w r new k =
      let (h, (a, e)) = entry_chunks-eq-ok p slot c r in
      let blocks = body slot.kind slot.bytes in
      let size = data_size slot.kind (length slot.bytes) in
      let (whole, nonzero, parsed) = read_header-written codec laws off p slot h seen w a new in
      let sized = length-body slot.kind slot.bytes in
      ap (λ (x : Bytes). read_loop codec (suc f) off x seen)
        (ap (λ (x : Bytes). x ++ more) (sym e) ∙ append_assoc h blocks more)
      ∙ read_loop-block f off h (blocks ++ more) seen (slot_parsed p slot) es whole nonzero parsed
          (omega (arith, length-append blocks more, sized, padded_le size))
          (ap (λ (x : Bytes). read_loop codec f (off + block + padded size) x (p ∷ seen))
              (drop-append_exact (padded size) blocks more sized)
            ∙ k (off + block + padded size))
      ∙ ap
          (λ (x : Bytes).
            ok (record { path = p; kind = slot.kind; mode = slot.mode; bytes = x } ∷ es))
          (take-body slot.kind slot.bytes more w.no_bytes)

  fresh-next :
      (p q : Text) (seen : List Text)
      → p ≢ q
      → any (text_eq q) seen ≡ false
      → any (text_eq q) (p ∷ seen) ≡ false
  fresh-next p q seen n h = elim (Bool-cases (text_eq q p)) [
    | inl e ↦ absurd (n (sym ((text_eq_iff q p).0 e)))
    | inr e ↦ rw e h
  ]

  fresh-all :
      (p : Text) (seen : List Text) (slots : Dict Slot)
      → All (λ e. p ≢ slot_path e) slots
      → All (λ e. any (text_eq e.0) seen ≡ false) slots
      → All (λ e. any (text_eq e.0) (p ∷ seen) ≡ false) slots
  fresh-all p seen [] d n = tt
  fresh-all p seen ((q, slot) ∷ slots) (d, ds) (n, ns) =
      (fresh-next p q seen d n, fresh-all p seen slots ds ns)

  -- The loop reads the entries that were written, up to the end.
  pub read_loop-written :
      (laws : CodecLaws codec) (f off : ℕ) (slots : Dict Slot) (chunks : List Bytes) (tail : Bytes)
      (seen : List Text)
      → traverse (entry_chunks codec) slots ≡ ok chunks
      → All (λ e. Writable e.0 e.1) slots
      → DistinctBy slot_path slots
      → All (λ e. any (text_eq e.0) seen ≡ false) slots
      → IsEnd tail
      → length slots < f
      → read_loop codec f off (flatten chunks ++ tail) seen ≡ ok (map slot_entry slots)
  unfolding traverse flatten
  read_loop-written laws zero off slots chunks tail seen r w d n end k = absurd (omega (arith, k))
  read_loop-written laws (suc f) off [] chunks tail seen r w d n end k =
      subst (λ (cs : List Bytes). read_loop codec (suc f) off (flatten cs ++ tail) seen ≡ ok [])
        (ok-injective _ chunks r) (read_loop-end f off tail seen end)
  read_loop-written laws (suc f) off ((p, slot) ∷ slots) chunks tail seen r (w, ws) (d, ds) (n, ns)
        end k =
      let (c, (a, r)) = >>=-eq-ok (entry_chunks codec (p, slot)) _ r in
      let (cs, (b, r)) = >>=-eq-ok (traverse (entry_chunks codec) slots) _ r in
      let rest : (off : ℕ)
          → read_loop codec f off (flatten cs ++ tail) (p ∷ seen) ≡ ok (map slot_entry slots) =
        λ off.
          read_loop-written laws f off slots cs tail (p ∷ seen) b ws ds
            (fresh-all p seen slots d ns) end (omega (arith, k)) in
      subst
        (λ (x : List Bytes).
          read_loop codec (suc f) off (flatten x ++ tail) seen
          ≡ ok (slot_entry (p, slot) ∷ map slot_entry slots))
        (ok-injective _ chunks r)
        (ap (λ (x : Bytes). read_loop codec (suc f) off x seen) (append_assoc c (flatten cs) tail)
          ∙ read_loop-entry laws f off p slot c (flatten cs ++ tail) seen (map slot_entry slots) w a
              n rest)

  -- There are more bytes than entries.
  pub length-entry_chunks :
      (laws : CodecLaws codec) (slots : Dict Slot) (chunks : List Bytes)
      → traverse (entry_chunks codec) slots ≡ ok chunks
      → All (λ e. Writable e.0 e.1) slots
      → length slots ≤ length (flatten chunks)
  unfolding traverse flatten
  length-entry_chunks laws [] chunks r w = omega arith
  length-entry_chunks laws ((p, slot) ∷ slots) chunks r (w, ws) =
      let (c, (a, r)) = >>=-eq-ok (entry_chunks codec (p, slot)) _ r in
      let (cs, (b, r)) = >>=-eq-ok (traverse (entry_chunks codec) slots) _ r in
      let (h, (built, e)) = entry_chunks-eq-ok p slot c a in
      let (whole, _, _) = read_header-written codec laws 0 p slot h [] w built refl in
      let long : 1 ≤ length c =
        subst (λ (x : Bytes). 1 ≤ length x) e
          (omega (arith, length-append h (body slot.kind slot.bytes), whole)) in
      subst (λ (x : List Bytes). suc (length slots) ≤ length (flatten x)) (ok-injective _ chunks r)
        (omega (arith, length-append c (flatten cs), long, length-entry_chunks laws slots cs b ws))
