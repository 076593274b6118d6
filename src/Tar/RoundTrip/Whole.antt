-- ===== src/Tar/RoundTrip/Whole.antt =====
-- Reading back what `writeTar` returns.
use mathlib.Core.List.{flatten, Permᴰ}
use mathlib.Core.List.Permᴰ
use bab_takehome.Base.{
  suc, ◌*◌, ◌≡◌, ◌≢◌, refl, subst, some, List, [], ◌∷◌, ◌++◌, arith, length, length-append, All,
  All-map, All-perm, All-of, Some-perm, All-to_map, All-from_map, Some-to_map, map, Text, Dict,
  lookup, DistinctBy, DistinctBy-perm, sort_by, sort_by-perm, traverse, ok, >>=-eq-ok, ok-injective,
}
use bab_takehome.Tar.Paths.{parents}
use bab_takehome.Tar.Entries.{Bytes, block, EntryType, dir, TarInput, TarEntry, Codec}
use bab_takehome.Tar.Write.{
  Slot, dir_slot, zeros, collect, add_all_parents, entry_chunks, write_slots, write_tar, slot_path,
}
use bab_takehome.Tar.Read.{types, check_parents, check_entries, read_loop, read_tar}
use bab_takehome.Tar.Read.Safe.{lookup-types}
use bab_takehome.Tar.RoundTrip.{CodecLaws, slot_entry, IsInput, IsReadBack}
use bab_takehome.Tar.RoundTrip.Blocks.{length-zeros, every-take-zeros}
use bab_takehome.Tar.RoundTrip.Loop.{read_loop-written, length-entry_chunks}
use bab_takehome.Tar.RoundTrip.Slots.{lookup-All, lookup-Some}
use bab_takehome.Tar.RoundTrip.Found.{IsGood, IsGood-Writable, HasLength}
use bab_takehome.Tar.RoundTrip.Closed.{IsClosed, add_all_parents-IsClosed}

Distinct-slot_entry :
    (slots : Dict Slot)
    → DistinctBy slot_path slots
    → DistinctBy TarEntry.path (map slot_entry slots)
Distinct-slot_entry [] h = tt
Distinct-slot_entry (e ∷ slots) (n, h) =
    (All-to_map slot_entry (λ t. e.0 ≢ t.path) slots n, Distinct-slot_entry slots h)

abbrev AreDirs : Dict EntryType → List Text → Type 0
AreDirs kinds ds = All (λ d. lookup d kinds ≡ some dir) ds

check_parents-ok :
    (kinds : Dict EntryType) (ds : List Text) → AreDirs kinds ds → check_parents kinds ds ≡ ok tt
unfolding check_parents
check_parents-ok kinds [] h = refl
check_parents-ok kinds (d ∷ ds) (h, hs) = rw h (check_parents-ok kinds ds hs)

check_entries-ok :
    (kinds : Dict EntryType) (es : List TarEntry)
    → All (λ e. AreDirs kinds (parents e.path)) es
    → check_entries kinds es ≡ ok tt
unfolding check_entries
check_entries-ok kinds [] h = refl
check_entries-ok kinds (e ∷ es) (h, hs) =
    rw (check_parents-ok kinds (parents e.path) h) (check_entries-ok kinds es hs)

module _ (inputs : List TarInput) (all sorted : Dict Slot) (closed : IsClosed inputs all)
    (p : Permᴰ sorted all) where
  kinds-entries : All (λ e. lookup e.0 (types [] (map slot_entry sorted)) ≡ some (e.1).kind) all
  kinds-entries = All-perm _ p (
      All-from_map slot_entry _ sorted (
        lookup-types [] (map slot_entry sorted) (
          Distinct-slot_entry sorted
            (DistinctBy-perm slot_path (Permᴰ.symm p) (IsClosed.distinct closed)))))

  -- The check of the parent directories passes on the entries of the map.
  check_entries-closed :
      check_entries (types [] (map slot_entry sorted)) (map slot_entry sorted) ≡ ok tt
  check_entries-closed =
      let kinds = types [] (map slot_entry sorted) in
      check_entries-ok kinds (map slot_entry sorted) (
        All-to_map slot_entry _ sorted (
          All-perm _ (Permᴰ.symm p) (
            All-map _ all
              (λ e h.
                All-map _ (parents e.0)
                  (λ d k.
                    lookup-All (λ t. lookup t.0 kinds ≡ some (t.1).kind) d dir_slot all k
                      kinds-entries)
                  h)
              (IsClosed.dirs closed))))

  sorted-IsReadBack : IsReadBack inputs (map slot_entry sorted)
  sorted-IsReadBack = (
    Distinct-slot_entry sorted
        (DistinctBy-perm slot_path (Permᴰ.symm p) (IsClosed.distinct closed)),
    All-map _ inputs
        (λ i (q, slot, l, h).
          Some-to_map slot_entry (IsInput i) sorted (
            Some-perm _ (Permᴰ.symm p)
              (lookup-Some (λ e. IsInput i (slot_entry e)) q slot all l h)))
        (IsClosed.found closed),
    All-to_map slot_entry _ sorted (All-perm _ (Permᴰ.symm p) (IsClosed.of_inputs closed)),
  )

module _ (codec : Codec) (laws : CodecLaws codec) where
  -- What is written for slots that can be written is read as their entries.
  read_loop-write_slots :
      (all : Dict Slot) (bytes : Bytes)
      → All IsGood all
      → DistinctBy slot_path all
      → write_slots codec all ≡ ok bytes
      → read_loop codec (suc (length bytes)) 0 bytes []
        ≡ ok (map slot_entry (sort_by (λ e. Codec.utf8 codec (slot_path e)) all))
  unfolding write_slots
  read_loop-write_slots all bytes g d h =
      let key : Text × Slot → Text = λ e. Codec.utf8 codec (slot_path e) in
      let p = Permᴰ.symm (sort_by-perm key all) in
      let sorted = sort_by key all in
      let (chunks, (c, k)) = >>=-eq-ok (traverse (entry_chunks codec) sorted) _ h in
      let writable = All-map _ sorted IsGood-Writable (All-perm IsGood p g) in
      let end = zeros (2 * block) in
      subst (λ (x : Bytes). read_loop codec (suc (length x)) 0 x [] ≡ ok (map slot_entry sorted))
        (ok-injective _ bytes k)
        (read_loop-written codec laws (suc (length (flatten chunks ++ end))) 0 sorted chunks end []
          c writable (DistinctBy-perm slot_path p d) (All-of _ sorted (λ _ _. refl))
          (omega (arith, length-zeros (2 * block)), every-take-zeros block (2 * block))
          (omega (
            arith,
            length-append (flatten chunks) end,
            length-entry_chunks codec laws sorted chunks c writable,
          )))

  -- Under what is documented of the header codec, and for data whose lengths are safe integers:
  -- `readTar` returns on every archive that `writeTar` returns. It gives back every input, under its
  -- normal path, with its type, its data and the canonical mode; all else that it gives back is the
  -- entry of a parent directory of an input; and no path stands twice.
  pub read_tar-write_tar :
      (inputs : List TarInput) (bytes : Bytes)
      → All HasLength inputs
      → write_tar codec inputs ≡ ok bytes
      → (es : List TarEntry) × ((read_tar codec bytes ≡ ok es) × IsReadBack inputs es)
  unfolding write_tar read_tar
  read_tar-write_tar inputs bytes ss h =
      let (slots, (c, k)) = >>=-eq-ok (collect [] inputs) _ h in
      let (all, (a, w)) = >>=-eq-ok (add_all_parents slots (map slot_path slots)) _ k in
      let closed = add_all_parents-IsClosed inputs slots all ss c a in
      let key : Text × Slot → Text = λ e. Codec.utf8 codec (slot_path e) in
      let sorted = sort_by key all in
      let p = sort_by-perm key all in
      let loop =
        read_loop-write_slots all bytes (IsClosed.good closed) (IsClosed.distinct closed) w in
      (
        map slot_entry sorted,
        (
          rw (loop, check_entries-closed inputs all sorted closed p) refl,
          sorted-IsReadBack inputs all sorted closed p,
        ),
      )
