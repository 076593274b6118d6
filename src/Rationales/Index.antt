-- ===== src/Rationales/Index.antt =====
-- The index of a dispute's rationales under any requests.
use bab_takehome.Base.{
  ℕ, ◌≡◌, refl, sym, subst, ◌∙◌, ◌⊎◌, inl, inr, Bool, true, false, not, some, List, [], ◌∷◌, ◌++◌,
  arith, any, keep, All, All-map, All-append, Bool-cases, Text, text_eq, text_eq_iff, Dict, lookup,
  insert, lookup-insert, lookup-insert_self,
}
use bab_takehome.Rationales.{
  RationaleIo, Entry, Store, Accepted, dispute_key, entries, same_seat, has_hash, new_entry,
  add_entry, put_rationale,
}

-- No two entries are of the same juror and round.
abbrev pub OnePerSeat : List Entry → Type 0
OnePerSeat [] = Unit
OnePerSeat (e ∷ es) = All (λ f. same_seat e.juror e.round f ≡ false) es × OnePerSeat es

keep-All : {A : Type 0} (P : A → Type 0) (p : A → Bool) (xs : List A) → All P xs → All P (keep p xs)
keep-All P p [] h = tt
keep-All P p (x ∷ xs) (h, hs) = elim (Bool-cases (p x)) [
  | inl e ↦ rw e (h, keep-All P p xs hs)
  | inr e ↦ rw e (keep-All P p xs hs)
]

All-keep : {A : Type 0} (p : A → Bool) (xs : List A) → All (λ x. p x ≡ true) (keep p xs)
All-keep p [] = tt
All-keep p (x ∷ xs) = elim (Bool-cases (p x)) [
  | inl e ↦ rw e (e, All-keep p xs)
  | inr e ↦ rw e (All-keep p xs)
]

keep-OnePerSeat : (p : Entry → Bool) (es : List Entry) → OnePerSeat es → OnePerSeat (keep p es)
keep-OnePerSeat p [] h = tt
keep-OnePerSeat p (e ∷ es) (n, h) = elim (Bool-cases (p e)) [
  | inl k ↦ rw k (keep-All _ p es n, keep-OnePerSeat p es h)
  | inr k ↦ rw k (keep-OnePerSeat p es h)
]

snoc-OnePerSeat :
    (es : List Entry) (f : Entry)
    → OnePerSeat es
    → All (λ e. same_seat e.juror e.round f ≡ false) es
    → OnePerSeat (es ++ f ∷ [])
snoc-OnePerSeat [] f h k = (tt, tt)
snoc-OnePerSeat (e ∷ es) f (n, h) (m, k) =
    (All-append _ es (f ∷ []) n (m, tt), snoc-OnePerSeat es f h k)

same_seat_comm :
    (e f : Entry) → same_seat f.juror f.round e ≡ false → same_seat e.juror e.round f ≡ false
same_seat_comm e f h = ground (arith, h, text_eq_iff e.juror f.juror, text_eq_iff f.juror e.juror)

add_entry-OnePerSeat :
    (io : RationaleIo) (a : Accepted) (es : List Entry)
    → OnePerSeat es
    → OnePerSeat (add_entry io a es)
unfolding add_entry
add_entry-OnePerSeat io a es h = elim (Bool-cases (any (has_hash a.hash) es)) [
  | inl e ↦ rw e h
  | inr e ↦
      let others = λ (f : Entry). not (same_seat a.juror a.round f) in
      rw e (
        snoc-OnePerSeat (keep others es) (new_entry io a) (keep-OnePerSeat others es h) (
          All-map _ (keep others es) (λ f k. same_seat_comm f (new_entry io a) (ground (arith, k)))
            (All-keep others es)))
]

abbrev pub HasBlob : Dict Text → Entry → Type 0
HasBlob blobs e = (json : Text) × (lookup e.sha256 blobs ≡ some json)

insert-HasBlob :
    (hash json : Text) (blobs : Dict Text) (e : Entry)
    → HasBlob blobs e
    → HasBlob (insert hash json blobs) e
insert-HasBlob hash json blobs e (old, h) = elim (Bool-cases (text_eq hash e.sha256)) [
  | inl same ↦ (json, lookup-insert hash e.sha256 json blobs ∙ rw same refl)
  | inr other ↦ (old, lookup-insert hash e.sha256 json blobs ∙ rw (other, h) refl)
]

add_entry-HasBlob :
    (io : RationaleIo) (a : Accepted) (blobs : Dict Text) (es : List Entry)
    → All (HasBlob blobs) es
    → All (HasBlob (insert a.hash a.json blobs)) (add_entry io a es)
unfolding add_entry
add_entry-HasBlob io a blobs es h =
    let kept = All-map _ es (insert-HasBlob a.hash a.json blobs) h in
    elim (Bool-cases (any (has_hash a.hash) es)) [
      | inl e ↦ rw e kept
      | inr e ↦ rw e (
          All-append _ (keep (λ f. not (same_seat a.juror a.round f)) es) (new_entry io a ∷ [])
            (keep-All _ _ es kept) ((a.json, lookup-insert_self a.hash a.json blobs), tt))
    ]

-- One entry for each juror and round, and a stored text for each entry.
abbrev pub IsSound : Store → Type 0
IsSound st = (id : ℕ) → OnePerSeat (entries st id) × All (HasBlob st.blobs) (entries st id)

entries-put_rationale :
    (io : RationaleIo) (st : Store) (id j : ℕ) (a : Accepted)
    → (entries (put_rationale io st id a) j ≡ entries st j)
      ⊎ (entries (put_rationale io st id a) j ≡ add_entry io a (entries st id))
unfolding put_rationale
entries-put_rationale io st id j a = elim (Bool-cases (any (has_hash a.hash) (entries st id))) [
  | inl e ↦ inl (rw e refl)
  | inr e ↦ elim (Bool-cases (text_eq (dispute_key id) (dispute_key j))) [
    | inl same ↦ inr (
        rw
          (
            e,
            lookup-insert (dispute_key id) (dispute_key j) (add_entry io a (entries st id))
                st.index,
            same,
          )
          refl)
    | inr other ↦ inl (
        rw
          (
            e,
            lookup-insert (dispute_key id) (dispute_key j) (add_entry io a (entries st id))
                st.index,
            other,
          )
          refl)
  ]
]

pub put_rationale-IsSound :
    (io : RationaleIo) (st : Store) (id : ℕ) (a : Accepted)
    → IsSound st
    → IsSound (put_rationale io st id a)
put_rationale-IsSound io st id a sound j =
    let (one, blobs) = sound j in
    let (one_id, blobs_id) = sound id in
    let Good : List Entry → Type 0 =
      λ es. OnePerSeat es × All (HasBlob (insert a.hash a.json st.blobs)) es in
    elim (entries-put_rationale io st id j a) [
      | inl e ↦
          unfold put_rationale in
          subst Good (sym e)
            (one, All-map _ (entries st j) (insert-HasBlob a.hash a.json st.blobs) blobs)
      | inr e ↦
          unfold put_rationale in
          subst Good (sym e) (
            add_entry-OnePerSeat io a (entries st id) one_id,
            add_entry-HasBlob io a st.blobs (entries st id) blobs_id,
          )
    ]
