-- ===== src/Tar/Read/Safe.antt =====
-- The entries that `readTar` returns.
use mathlib.Core.Bool.{true≢false}
use bab_takehome.Base.{
  ◌⊎◌, true, ℕ, zero, suc, ◌+◌, ◌≡◌, ◌≢◌, refl, sym, subst, ◌∙◌, inl, inr, false, not, some, List,
  [], ◌∷◌, ◌++◌, arith, length, take, drop, any, every, All, All-map, Some, ltb, Bool-cases, Text,
  text_eq, text_eq_iff, Dict, lookup, insert, lookup-insert_self, lookup-insert_ne, DistinctBy, ok,
  raise_if, raise_if-eq-ok, >>=-eq-ok, ok-injective,
}
use bab_takehome.Tar.Paths.{
  slash, file_and_directory, truncated_data, duplicate_entry, not_ustar, normalize_tar_path,
  parents,
}
use bab_takehome.Tar.Paths.Segments.{parents-Some}
use bab_takehome.Tar.Paths.Safe.{IsSafePath, normalize_tar_path-IsSafePath}
use bab_takehome.Tar.Entries.{is_dir, dir, file, Bytes, block, padded, EntryType, TarEntry, Codec}
use bab_takehome.Tar.Read.{
  Parsed, decoded, safe_size, entry_type, is_zero, is_file_type, types, check_parents,
  check_entries, read_header, read_loop, read_tar, ustar_magic,
}

module _ (codec : Codec) where
  read_header-safe :
      (off : ℕ) (h : Bytes) (seen : List Text) (e : Parsed)
      → read_header codec off h seen ≡ ok e
      → IsSafePath e.path × (any (text_eq e.path) seen ≡ false)
  unfolding read_header
  read_header-safe off h seen e r =
      let (_, (_, r)) =
        >>=-eq-ok (raise_if (not (text_eq (take 6 (drop 257 h)) ustar_magic)) (not_ustar off)) _
          r in
      let (hdr, (_, r)) = >>=-eq-ok (decoded off (Codec.decode codec h)) _ r in
      let (size, (_, r)) = >>=-eq-ok (safe_size hdr.name hdr.size) _ r in
      let (kind, (_, r)) = >>=-eq-ok (entry_type hdr.name hdr.kind) _ r in
      let (p, (safe, r)) = >>=-eq-ok (normalize_tar_path hdr.name) _ r in
      let (_, (new, r)) = >>=-eq-ok (raise_if (any (text_eq p) seen) (duplicate_entry p)) _ r in
      let (safe, _) = normalize_tar_path-IsSafePath hdr.name p safe in
      subst (λ (e : Parsed). IsSafePath e.path × (any (text_eq e.path) seen ≡ false))
        (ok-injective _ e r) (safe, raise_if-eq-ok _ _ new)

  -- The entries that the loop reads have safe paths, none twice and none that was seen before.
  abbrev Read : List Text → List TarEntry → Type 0
  Read seen es =
      All (λ e. IsSafePath e.path) es
      × DistinctBy TarEntry.path es
      × All (λ e. any (text_eq e.path) seen ≡ false) es

  new_path : (p q : Text) (seen : List Text) → any (text_eq q) (p ∷ seen) ≡ false → p ≢ q
  new_path p q seen h e = true≢false (sym ((text_eq_iff q p).1 (sym e)) ∙ ground arith)

  read_loop-safe :
      (f off : ℕ) (rest : Bytes) (seen : List Text) (es : List TarEntry)
      → read_loop codec f off rest seen ≡ ok es
      → Read seen es
  unfolding read_loop
  read_loop-safe zero off rest seen es r = absurd (ground arith)
  read_loop-safe (suc f) off rest seen es r = elim (Bool-cases (ltb (length rest) block)) [
    | inl short ↦ absurd (ground arith)
    | inr long ↦ elim (Bool-cases (every is_zero (take block rest))) [
      | inl end ↦ subst (Read seen) (ok-injective _ es (rw (long, end) at r)) (tt, tt, tt)
      | inr more ↦
          let (e, (p, k)) =
            >>=-eq-ok (read_header codec off (take block rest) seen) _ (rw (long, more) at r) in
          let (_, (_, k)) =
            >>=-eq-ok (raise_if (ltb (length (drop block rest)) e.size) (truncated_data e.path)) _
              k in
          let (entries, (q, k)) =
            >>=-eq-ok
              (read_loop codec f (off + block + padded e.size)
                (drop (padded e.size) (drop block rest)) (e.path ∷ seen))
              _ k in
          let (safe, new) = read_header-safe off (take block rest) seen e p in
          let (paths, distinct, fresh) = read_loop-safe f _ _ (e.path ∷ seen) entries q in
          subst (Read seen) (ok-injective _ es k) (
            (safe, paths),
            (All-map _ entries (λ t. new_path e.path t.path seen) fresh, distinct),
            (new, All-map _ entries (λ t h. ground arith) fresh),
          )
    ]
  ]

check_parents-none :
    (kinds : Dict EntryType) (ds : List Text) (d : Text)
    → check_parents kinds ds ≡ ok tt
    → Some (λ e. e ≡ d) ds
    → is_file_type (lookup d kinds) ≡ false
unfolding check_parents
check_parents-none kinds [] d h s = absurd s
check_parents-none kinds (e ∷ ds) d h (inl p) =
    let (_, (k, _)) =
      >>=-eq-ok (raise_if (is_file_type (lookup e kinds)) (file_and_directory e)) _ h in
    subst (λ (t : Text). is_file_type (lookup t kinds) ≡ false) p (raise_if-eq-ok _ _ k)
check_parents-none kinds (e ∷ ds) d h (inr s) =
    let (_, (_, k)) =
      >>=-eq-ok (raise_if (is_file_type (lookup e kinds)) (file_and_directory e)) _ h in
    check_parents-none kinds ds d k s

is_dir-eq : (k : EntryType) → is_dir k ≡ true → k ≡ dir
is_dir-eq dir h = refl
is_dir-eq file h = absurd (ground arith)

-- No file stands where an entry needs a directory.
abbrev pub Clear : List TarEntry → TarEntry → Type 0
Clear es e = All (λ d. (d.kind ≡ dir) ⊎ ((s : Text) → e.path ≢ d.path ++ slash ∷ s)) es

lookup-types_other :
    (p : Text) (d : Dict EntryType) (es : List TarEntry)
    → All (λ e. p ≢ e.path) es
    → lookup p (types d es) ≡ lookup p d
unfolding types
lookup-types_other p d [] h = refl
lookup-types_other p d (e ∷ es) (h, hs) =
    lookup-types_other p (insert e.path e.kind d) es hs
    ∙ lookup-insert_ne e.path p e.kind d (λ q. h (sym q))

pub lookup-types :
    (d : Dict EntryType) (es : List TarEntry)
    → DistinctBy TarEntry.path es
    → All (λ e. lookup e.path (types d es) ≡ some e.kind) es
unfolding types
lookup-types d [] h = tt
lookup-types d (e ∷ es) (n, h) = (
  lookup-types_other e.path (insert e.path e.kind d) es n ∙ lookup-insert_self e.path e.kind d,
  lookup-types (insert e.path e.kind d) es h,
)

clear_of :
    (kinds : Dict EntryType) (e d : TarEntry)
    → check_parents kinds (parents e.path) ≡ ok tt
    → lookup d.path kinds ≡ some d.kind
    → (d.kind ≡ dir) ⊎ ((s : Text) → e.path ≢ d.path ++ slash ∷ s)
clear_of kinds e d p found = elim (Bool-cases (is_dir d.kind)) [
  | inl h ↦ inl (is_dir-eq d.kind h)
  | inr h ↦ inr (λ s path.
      let above : Some (λ t. t ≡ d.path) (parents e.path) =
        subst (λ (t : Text). Some (λ u. u ≡ d.path) (parents t)) (sym path)
          (parents-Some d.path s) in
      let no_file = check_parents-none kinds (parents e.path) d.path p above in
      absurd (ground (arith, found, h, no_file)))
]

check_entries-Clear :
    (kinds : Dict EntryType) (es fs : List TarEntry)
    → All (λ d. lookup d.path kinds ≡ some d.kind) es
    → check_entries kinds fs ≡ ok tt
    → All (Clear es) fs
unfolding check_entries
check_entries-Clear kinds es [] k h = tt
check_entries-Clear kinds es (e ∷ fs) k h =
    let (_, (p, q)) = >>=-eq-ok (check_parents kinds (parents e.path)) _ h in
    (All-map _ es (λ d found. clear_of kinds e d p found) k, check_entries-Clear kinds es fs k q)

module _ (codec : Codec) where
  -- Whenever `readTar` returns, whatever bytes and codec it is given: every path is relative and
  -- made of safe segments, no path stands twice, and no file stands where the path of another
  -- entry needs a directory.
  pub read_tar-safe :
      (bytes : Bytes) (es : List TarEntry)
      → read_tar codec bytes ≡ ok es
      → All (λ e. IsSafePath e.path) es × DistinctBy TarEntry.path es × All (Clear es) es
  unfolding read_tar
  read_tar-safe bytes es h =
      let (fs, (p, k)) = >>=-eq-ok (read_loop codec (suc (length bytes)) 0 bytes []) _ h in
      let (_, (q, k)) = >>=-eq-ok (check_entries (types [] fs) fs) _ k in
      let (paths, distinct, _) = read_loop-safe codec (suc (length bytes)) 0 bytes [] fs p in
      subst
        (λ (es : List TarEntry).
          All (λ e. IsSafePath e.path) es × DistinctBy TarEntry.path es × All (Clear es) es)
        (ok-injective _ es k)
        (paths, distinct, check_entries-Clear (types [] fs) fs fs (lookup-types [] fs distinct) q)
