-- ===== src/Tar/RoundTrip/Closed.antt =====
-- The slots that `writeTar` has at the end: where they come from, and that their parent directories
-- are among them.
use bab_takehome.Base.{
  ◌≡◌, ◌⊎◌, refl, subst, inl, inr, List, [], arith, All, All-map, All-of, All-Some, Some, Some-of,
  Some-elim_all, Some-map, All-to_map, All-from_map, map, Text, Dict, ok, DistinctBy,
}
use bab_takehome.Tar.Paths.{parents}
use bab_takehome.Tar.Paths.Safe.{normalize_tar_path-IsSafePath}
use bab_takehome.Tar.Entries.{TarInput}
use bab_takehome.Tar.Write.{Slot, dir_slot, collect, add_all_parents, slot_path}
use bab_takehome.Tar.RoundTrip.{slot_entry, IsInput, IsParent}
use bab_takehome.Tar.RoundTrip.Parents.{IsNormal-parent, parents_trans}
use bab_takehome.Tar.RoundTrip.Slots.{
  Grows-All, Grows-Distinct, collect-Grows, add_all_parents-Grows, Adds,
}
use bab_takehome.Tar.RoundTrip.Found.{
  IsGood, HasLength, Adds-IsGood, new_slot-IsGood, HasInput, HasInput-Grows, collect-found, HasDir,
  GoodDir, add_all_parents-found,
}

-- A slot of an input or of a parent directory of one.
abbrev pub IsOfInputs : List TarInput → Text × Slot → Type 0
IsOfInputs inputs e = Some (λ i. IsInput i (slot_entry e) ⊎ IsParent i (slot_entry e)) inputs

abbrev IsOfInput : List TarInput → Text × Slot → Type 0
IsOfInput inputs e = Some (λ i. IsInput i (slot_entry e)) inputs

-- A path of a slot, or a parent directory of one.
abbrev IsRooted : Dict Slot → Text × Slot → Type 0
IsRooted slots e = Some (λ s. (s.0 ≡ e.0) ⊎ Some (λ d. d ≡ e.0) (parents s.0)) slots

GoodDirs : (e : Text × Slot) → IsGood e → All GoodDir (parents e.0)
GoodDirs (p, slot) (n, _, _, _) =
    All-of GoodDir (parents p)
      (λ k s. (IsNormal-parent p k n s, omega arith, omega arith, λ _. refl))

Adds-IsOfInput :
    (inputs : List TarInput) → All HasLength inputs → All (Adds (IsOfInput inputs)) inputs
Adds-IsOfInput inputs ss = All-of (Adds (IsOfInput inputs)) inputs (λ i m p slot n h.
    Some-of (λ j. IsInput j (slot_entry (p, slot))) i inputs m
      (
        n,
        (new_slot-IsGood p i.kind i.bytes i.executable slot
            (normalize_tar_path-IsSafePath i.path p n).1 (All-Some HasLength i inputs ss m) h).1,
      ))

parents-IsOfInputs :
    (inputs : List TarInput) (e : Text × Slot)
    → IsOfInput inputs e
    → All (λ k. IsOfInputs inputs (k, dir_slot)) (parents e.0)
parents-IsOfInputs inputs (p, slot) h =
    All-of (λ k. IsOfInputs inputs (k, dir_slot)) (parents p)
      (λ k m. Some-map _ inputs (λ i (n, _). inr (p, n, m, refl)) h)

IsOfInputs-IsOfInput :
    (inputs : List TarInput) (e : Text × Slot) → IsOfInput inputs e → IsOfInputs inputs e
IsOfInputs-IsOfInput inputs e h = Some-map _ inputs (λ i k. inl k) h

parents-IsRooted :
    (slots : Dict Slot)
    → All (λ e. All (λ k. IsRooted slots (k, dir_slot)) (parents (slot_path e))) slots
parents-IsRooted slots = All-of _ slots (λ e m.
    All-of _ (parents e.0)
      (λ k s. Some-of (λ t. (t.0 ≡ k) ⊎ Some (λ d. d ≡ k) (parents t.0)) e slots m (inr s)))

-- Where the parent directories of the slots are directories, so are those of the paths below.
rooted-HasDirs :
    (slots all : Dict Slot) (e : Text × Slot)
    → All (λ s. All (HasDir all) (parents s.0)) slots
    → IsRooted slots e
    → All (HasDir all) (parents e.0)
rooted-HasDirs slots all e f r =
    Some-elim_all _ slots
      (λ s h o. elim o [
        | inl q ↦ subst (λ (t : Text). All (HasDir all) (parents t)) q h
        | inr m ↦
            All-of (HasDir all) (parents e.0)
              (λ d k. All-Some (HasDir all) d (parents s.0) h (parents_trans s.0 e.0 d m k))
      ])
      f r

-- What the map of `writeTar` is like at the end.
pub record IsClosed (inputs : List TarInput) (all : Dict Slot) : Type 0 where
  pub good : All IsGood all
  pub distinct : DistinctBy slot_path all
  pub found : All (HasInput all) inputs
  pub of_inputs : All (IsOfInputs inputs) all
  pub dirs : All (λ e. All (HasDir all) (parents e.0)) all

pub add_all_parents-IsClosed :
    (inputs : List TarInput) (slots all : Dict Slot)
    → All HasLength inputs
    → collect [] inputs ≡ ok slots
    → add_all_parents slots (map slot_path slots) ≡ ok all
    → IsClosed inputs all
add_all_parents-IsClosed inputs slots all ss c a =
    let grown = collect-Grows IsGood [] slots inputs (All-map _ inputs Adds-IsGood ss) c in
    let good = Grows-All IsGood [] slots grown tt in
    let of_input : All (IsOfInput inputs) slots =
      Grows-All (IsOfInput inputs) [] slots
        (collect-Grows (IsOfInput inputs) [] slots inputs (Adds-IsOfInput inputs ss) c) tt in
    let paths = map slot_path slots in
    let good_dirs : All (λ p. All GoodDir (parents p)) paths =
      All-to_map slot_path _ slots (All-map _ slots GoodDirs good) in
    let later = add_all_parents-Grows IsGood slots all paths good_dirs a in
    let found = add_all_parents-found slots all paths good_dirs good a in
    let rooted : All (IsRooted slots) all =
      Grows-All (IsRooted slots) slots all
        (add_all_parents-Grows (IsRooted slots) slots all paths
          (All-to_map slot_path _ slots (parents-IsRooted slots)) a)
        (All-of _ slots (λ e m.
          Some-of (λ t. (t.0 ≡ e.0) ⊎ Some (λ d. d ≡ e.0) (parents t.0)) e slots m (inl refl))) in
    record {
      good = Grows-All IsGood slots all later good;
      distinct = Grows-Distinct IsGood slots all later (Grows-Distinct IsGood [] slots grown tt);
      found =
          All-map _ inputs (λ i. HasInput-Grows slots all i later)
            (collect-found [] slots inputs ss tt c);
      of_inputs =
          Grows-All (IsOfInputs inputs) slots all
            (add_all_parents-Grows (IsOfInputs inputs) slots all paths
              (All-to_map slot_path _ slots (All-map _ slots (parents-IsOfInputs inputs) of_input))
              a)
            (All-map _ slots (IsOfInputs-IsOfInput inputs) of_input);
      dirs =
          All-map _ all (λ e. rooted-HasDirs slots all e (All-from_map slot_path _ slots found))
            rooted;
    }
