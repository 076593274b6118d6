-- ===== src/Tar/RoundTrip/Found.antt =====
-- What the map of `writeTar` has for its inputs and for their parent directories.
use mathlib.Core.Bool.{true≢false}
use bab_takehome.Base.{
  ◌≤◌, ◌<◌, ◌≡◌, ◌≢◌, refl, sym, ap, subst, ◌∙◌, Bool, true, false, ◌&&◌, not, Option, none, some,
  List, [], ◌∷◌, arith, length, All, All-map, Text, Dict, lookup, lookup-insert_self, ok, raise_if,
  raise_if-eq-ok, >>=-eq-ok, ok-injective, get_or,
}
use bab_takehome.Tar.Paths.{normalize_tar_path, parents, duplicate_entry, file_and_directory}
use bab_takehome.Tar.Paths.Safe.{normalize_tar_path-IsSafePath}
use bab_takehome.Tar.Entries.{Bytes, EntryType, file, dir, is_dir, TarInput}
use bab_takehome.Tar.Write.{
  Slot, dir_slot, new_slot, add_input, collect, add_parent, add_parents, add_all_parents,
  entry_name,
}
use bab_takehome.Tar.Read.{max_safe_integer}
use bab_takehome.Tar.RoundTrip.{Writable, slot_entry, IsInput, entry_mode, entry_bytes}
use bab_takehome.Tar.RoundTrip.Parents.{IsNormal, IsNormal-slash}
use bab_takehome.Tar.RoundTrip.Slots.{
  Grows, lookup-All, Grows-All, Grows-lookup, add_input-Grows, collect-Grows, add_parent-Grows,
  add_parents-Grows, add_all_parents-Grows, Adds,
}

-- A slot of `writeTar`: at a normal path, with a size in the range of lengths, and the one slot of
-- directories if it is one.
abbrev pub IsGood : Text × Slot → Type 0
IsGood (p, slot) =
    IsNormal p
    × (slot.mode < 4096)
    × (length slot.bytes ≤ max_safe_integer)
    × (slot.kind ≡ dir → slot ≡ dir_slot)

entry_name-normal :
    (p : Text) (kind : EntryType) → IsNormal p → normalize_tar_path (entry_name p kind) ≡ ok p
entry_name-normal p file h = h
entry_name-normal p dir h = IsNormal-slash p h

pub IsGood-Writable : (e : Text × Slot) → IsGood e → Writable e.0 e.1
IsGood-Writable (p, slot) (n, m, s, d) = record {
  path = entry_name-normal p slot.kind n;
  mode = m;
  size = s;
  no_bytes = λ e. ap Slot.bytes (d e);
}

-- The data of an input is a byte array, whose length is a safe integer.
abbrev pub HasLength : TarInput → Type 0
HasLength i = length (get_or i.bytes []) ≤ max_safe_integer

file_not_dir : file ≢ dir
file_not_dir e = true≢false (sym (ap is_dir e))

-- A good slot whose entry is that of an input.
abbrev pub Made : Text → EntryType → Option Bytes → Bool → Slot → Type 0
Made p kind bytes executable slot =
    IsGood (p, slot)
    × (slot_entry (p, slot) ≡ record {
      path = p;
      kind = kind;
      mode = entry_mode kind executable;
      bytes = entry_bytes kind bytes;
    })

pub new_slot-IsGood :
    (p : Text) (kind : EntryType) (bytes : Option Bytes) (executable : Bool) (slot : Slot)
    → IsNormal p
    → length (get_or bytes []) ≤ max_safe_integer
    → new_slot p kind bytes executable ≡ ok slot
    → Made p kind bytes executable slot
new_slot-IsGood p file none executable slot n s h = absurd (ground arith)
new_slot-IsGood p file (some bytes) true slot n s h =
    subst (Made p file (some bytes) true) (ok-injective _ slot h)
      ((n, omega arith, s, λ e. absurd (file_not_dir e)), refl)
new_slot-IsGood p file (some bytes) false slot n s h =
    subst (Made p file (some bytes) false) (ok-injective _ slot h)
      ((n, omega arith, s, λ e. absurd (file_not_dir e)), refl)
new_slot-IsGood p dir bytes executable slot n s h =
    subst (Made p dir bytes executable) (ok-injective _ slot h)
      ((n, omega arith, omega arith, λ e. refl), refl)

pub Adds-IsGood : (i : TarInput) → HasLength i → Adds IsGood i
Adds-IsGood i s p slot n h =
    (new_slot-IsGood p i.kind i.bytes i.executable slot (normalize_tar_path-IsSafePath i.path p n).1
      s h).0

-- What the map has for an input.
abbrev pub HasInput : Dict Slot → TarInput → Type 0
HasInput r i =
    (p : Text) × (slot : Slot) × (lookup p r ≡ some slot) × IsInput i (slot_entry (p, slot))

is_dir-eq : (k : EntryType) → is_dir k ≡ true → k ≡ dir
is_dir-eq dir h = refl
is_dir-eq file h = absurd (ground arith)

dir_entry-IsInput :
    (p : Text) (i : TarInput)
    → normalize_tar_path i.path ≡ ok p
    → i.kind ≡ dir
    → IsInput i (slot_entry (p, dir_slot))
dir_entry-IsInput p i n k = (
  n,
  ap
      (λ (t : EntryType). record {
        path = p;
        kind = t;
        mode = entry_mode t i.executable;
        bytes = entry_bytes t i.bytes;
      })
      (sym k),
)

add_input-found :
    (d r : Dict Slot) (p : Text) (i : TarInput) (o : Option Slot)
    → lookup p d ≡ o
    → normalize_tar_path i.path ≡ ok p
    → HasLength i
    → All IsGood d
    → add_input d p i o ≡ ok r
    → HasInput r i
add_input-found d r p i (some prev) l n s g h =
    let (_, (c, k)) =
      >>=-eq-ok (raise_if (not (is_dir prev.kind && is_dir i.kind)) (duplicate_entry p)) _ h in
    let dirs = raise_if-eq-ok _ _ c in
    let one_slot =
      (lookup-All IsGood p prev d l g).3 (is_dir-eq prev.kind (ground (arith, dirs))) in
    (
      p,
      prev,
      subst (λ (t : Dict Slot). lookup p t ≡ some prev) (ok-injective _ r k) l,
      subst (λ (v : Slot). IsInput i (slot_entry (p, v))) (sym one_slot)
          (dir_entry-IsInput p i n (is_dir-eq i.kind (ground (arith, dirs)))),
    )
add_input-found d r p i none l n s g h =
    let (slot, (m, k)) = >>=-eq-ok (new_slot p i.kind i.bytes i.executable) _ h in
    let made =
      new_slot-IsGood p i.kind i.bytes i.executable slot
        (normalize_tar_path-IsSafePath i.path p n).1 s m in
    (
      p,
      slot,
      subst (λ (t : Dict Slot). lookup p t ≡ some slot) (ok-injective _ r k)
          (lookup-insert_self p slot d),
      (n, made.1),
    )

pub HasInput-Grows :
    (d r : Dict Slot) (i : TarInput) → Grows IsGood d r → HasInput d i → HasInput r i
HasInput-Grows d r i g (p, slot, l, h) = (p, slot, Grows-lookup IsGood d r p slot g l, h)

-- The map that is collected has each input.
pub collect-found :
    (d r : Dict Slot) (inputs : List TarInput)
    → All HasLength inputs
    → All IsGood d
    → collect d inputs ≡ ok r
    → All (HasInput r) inputs
unfolding collect
collect-found d r [] s g h = tt
collect-found d r (i ∷ inputs) (s, ss) g h =
    let (p, (n, k)) = >>=-eq-ok (normalize_tar_path i.path) _ h in
    let (e, (m, k)) = >>=-eq-ok (add_input d p i (lookup p d)) _ k in
    let first = add_input-Grows IsGood d e p i (lookup p d) refl n (Adds-IsGood i s) m in
    let good = Grows-All IsGood d e first g in
    let later = collect-Grows IsGood e r inputs (All-map _ inputs Adds-IsGood ss) k in
    (
      HasInput-Grows e r i later (add_input-found d e p i (lookup p d) refl n s g m),
      collect-found e r inputs ss good k,
    )

add_parent-found :
    (d r : Dict Slot) (k : Text) (o : Option Slot)
    → lookup k d ≡ o
    → All IsGood d
    → add_parent d k o ≡ ok r
    → lookup k r ≡ some dir_slot
add_parent-found d r k (some v) l g h =
    let (_, (c, h)) = >>=-eq-ok (raise_if (not (is_dir v.kind)) (file_and_directory k)) _ h in
    let one_slot =
      (lookup-All IsGood k v d l g).3 (is_dir-eq v.kind (ground (arith, raise_if-eq-ok _ _ c))) in
    subst (λ (t : Dict Slot). lookup k t ≡ some dir_slot) (ok-injective _ r h)
      (l ∙ ap some one_slot)
add_parent-found d r k none l g h =
    subst (λ (t : Dict Slot). lookup k t ≡ some dir_slot) (ok-injective _ r h)
      (lookup-insert_self k dir_slot d)

abbrev pub HasDir : Dict Slot → Text → Type 0
HasDir r k = lookup k r ≡ some dir_slot

abbrev pub GoodDir : Text → Type 0
GoodDir k = IsGood (k, dir_slot)

add_parents-found :
    (d r : Dict Slot) (ks : List Text)
    → All GoodDir ks
    → All IsGood d
    → add_parents d ks ≡ ok r
    → All (HasDir r) ks
unfolding add_parents
add_parents-found d r [] a g h = tt
add_parents-found d r (k ∷ ks) (a, as_) g h =
    let (e, (m, h)) = >>=-eq-ok (add_parent d k (lookup k d)) _ h in
    let good = Grows-All IsGood d e (add_parent-Grows IsGood d e k (lookup k d) refl a m) g in
    let later = add_parents-Grows IsGood e r ks as_ h in
    (
      Grows-lookup IsGood e r k dir_slot later (add_parent-found d e k (lookup k d) refl g m),
      add_parents-found e r ks as_ good h,
    )

-- The map has each parent directory of the paths.
pub add_all_parents-found :
    (d r : Dict Slot) (ps : List Text)
    → All (λ p. All GoodDir (parents p)) ps
    → All IsGood d
    → add_all_parents d ps ≡ ok r
    → All (λ p. All (HasDir r) (parents p)) ps
unfolding add_all_parents
add_all_parents-found d r [] a g h = tt
add_all_parents-found d r (p ∷ ps) (a, as_) g h =
    let (e, (m, h)) = >>=-eq-ok (add_parents d (parents p)) _ h in
    let good = Grows-All IsGood d e (add_parents-Grows IsGood d e (parents p) a m) g in
    let later = add_all_parents-Grows IsGood e r ps as_ h in
    (
      All-map _ (parents p) (λ k l. Grows-lookup IsGood e r k dir_slot later l)
          (add_parents-found d e (parents p) a g m),
      add_all_parents-found e r ps as_ good h,
    )
