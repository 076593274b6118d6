-- ===== src/Rationales/History.antt =====
-- Sequences of requests to `storeRationale`, and the effect of one that is accepted.
use bab_takehome.Base.{
  ℕ, ◌≡◌, ◌≢◌, refl, sym, ap, subst, ◌∙◌, ◌⊎◌, inl, inr, Bool, true, false, All, All-map, All-of,
  All-append, Some-append_left, show-injective, lookup-insert, not, Option, some, List, [], ◌∷◌,
  ◌++◌, arith, any, keep, drop, text_eq, Some, Some-append_right, Bool-cases, Text, text_eq_iff,
  lookup, lookup-insert_self, Result, ok, err, ◌>>=◌, >>=-eq-ok, ok-injective,
}
use bab_takehome.Rationales.Checks.{IsPublishable, check_rationale-IsPublishable}
use bab_takehome.Rationales.{
  RationaleError, RationaleIo, Entry, Store, Accepted, dispute_key, check_rationale, entries,
  same_seat, has_hash, new_entry, add_entry, put_rationale, blob_url, store_rationale,
}
use bab_takehome.Rationales.Index.{IsSound, put_rationale-IsSound}

-- A request: what the world answers during it, the dispute, and the fields of its body.
pub record Request : Type 0 where
  pub io : RationaleIo
  pub dispute_id : ℕ
  pub doc_json : Option Text
  pub signature : Option Text

abbrev pub store_after : Store → Result RationaleError (Text × Text × Store) → Store
store_after st (err e) = st
store_after st (ok (hash, url, next)) = next

abbrev pub answer : Store → Request → Result RationaleError (Text × Text × Store)
answer st r = store_rationale r.io st r.dispute_id r.doc_json r.signature

unfoldable pub serve : Store → List Request → Store
serve st [] = st
serve st (r ∷ requests) = serve (store_after st (answer st r)) requests

answer-IsSound : (st : Store) (r : Request) → IsSound st → IsSound (store_after st (answer st r))
unfolding store_rationale
answer-IsSound st r sound = go (check_rationale r.io r.dispute_id r.doc_json r.signature)
  where
    go :
        (c : Result RationaleError Accepted)
        → IsSound (
            store_after st
              (c >>= λ a. ok (a.hash, blob_url r.io a.hash, put_rationale r.io st r.dispute_id a)))
    go (err e) = sound
    go (ok a) = put_rationale-IsSound r.io st r.dispute_id a sound

serve-IsSound : (requests : List Request) (st : Store) → IsSound st → IsSound (serve st requests)
unfolding serve
serve-IsSound [] st sound = sound
serve-IsSound (r ∷ requests) st sound =
    serve-IsSound requests (store_after st (answer st r)) (answer-IsSound st r sound)

abbrev IsOf : Accepted → Entry → Type 0
IsOf a e = (e.juror ≡ a.juror) × (e.round ≡ a.round)

-- What an accepted rationale does to its dispute's list: nothing if its hash is there; otherwise the
-- list has an entry of it, and keeps all others but those of its juror and round.
abbrev pub Indexes : Accepted → List Entry → List Entry → Type 0
Indexes a old new =
    (Some (λ e. e.sha256 ≡ a.hash) old × (new ≡ old))
    ⊎ (All (λ e. e.sha256 ≢ a.hash) old
        × Some (λ e. IsOf a e × (e.sha256 ≡ a.hash)) new
        × All (λ e. IsOf a e ⊎ Some (λ f. f ≡ e) new) old
        × All (λ e. (IsOf a e × (e.sha256 ≡ a.hash)) ⊎ Some (λ f. f ≡ e) old) new)

any-Some :
    (hash : Text) (es : List Entry) → any (has_hash hash) es ≡ true → Some (λ e. e.sha256 ≡ hash) es
any-Some hash [] h = absurd (ground arith)
any-Some hash (e ∷ es) h = elim (Bool-cases (has_hash hash e)) [
  | inl k ↦ inl ((text_eq_iff _ _).0 k)
  | inr k ↦ inr (any-Some hash es (ground arith))
]

any-None :
    (hash : Text) (es : List Entry) → any (has_hash hash) es ≡ false → All (λ e. e.sha256 ≢ hash) es
any-None hash [] h = tt
any-None hash (e ∷ es) h = (
  λ same. absurd (ground (arith, (text_eq_iff e.sha256 hash).1 same)),
  any-None hash es (ground arith),
)

abbrev kept : Accepted → List Entry → List Entry
kept a es = keep (λ f. not (same_seat a.juror a.round f)) es

keep-Some :
    (p : Entry → Bool) (e : Entry) (es : List Entry)
    → p e ≡ true
    → Some (λ f. f ≡ e) es
    → Some (λ f. f ≡ e) (keep p es)
keep-Some p e [] h s = absurd s
keep-Some p e (f ∷ es) h (inl same) = rw (ap p same ∙ h) (inl same)
keep-Some p e (f ∷ es) h (inr more) = elim (Bool-cases (p f)) [
  | inl k ↦ rw k (inr (keep-Some p e es h more))
  | inr k ↦ rw k (keep-Some p e es h more)
]

keep-others :
    (a : Accepted) (es : List Entry) → All (λ e. IsOf a e ⊎ Some (λ f. f ≡ e) (kept a es)) es
keep-others a es =
    All-of (λ e. IsOf a e ⊎ Some (λ f. f ≡ e) (kept a es)) es
      (λ e there. elim (Bool-cases (same_seat a.juror a.round e)) [
        | inl k ↦ inl ((text_eq_iff e.juror a.juror).0 (ground arith), ground arith)
        | inr k ↦ inr (keep-Some (λ f. not (same_seat a.juror a.round f)) e es (ground arith) there)
      ])

keep-old : (a : Accepted) (es : List Entry) → All (λ e. Some (λ f. f ≡ e) es) (kept a es)
keep-old a [] = tt
keep-old a (e ∷ es) =
    let rest = All-map _ (kept a es) (λ f there. inr there) (keep-old a es) in
    elim (Bool-cases (same_seat a.juror a.round e)) [
      | inl k ↦ rw k rest
      | inr k ↦ rw k (inl refl, rest)
    ]

put_rationale-Indexes :
    (io : RationaleIo) (st : Store) (id : ℕ) (a : Accepted)
    → Indexes a (entries st id) (entries (put_rationale io st id a) id)
unfolding put_rationale add_entry
put_rationale-Indexes io st id a = elim (Bool-cases (any (has_hash a.hash) (entries st id))) [
  | inl e ↦ rw e (inl (any-Some a.hash (entries st id) e, refl))
  | inr e ↦
      let old = entries st id in
      let last = new_entry io a ∷ [] in
      rw (e, lookup-insert_self (dispute_key id) (kept a old ++ last) st.index)
        (inr (
          any-None a.hash old e,
          Some-append_right _ (kept a old) last (inl ((refl, refl), refl)),
          All-map _ old
              (λ t o. elim o [
                | inl same ↦ inl same
                | inr there ↦ inr (Some-append_left _ (kept a old) last there)
              ])
              (keep-others a old),
          All-append _ (kept a old) last
              (All-map _ (kept a old) (λ t there. inr there) (keep-old a old))
              (inl ((refl, refl), refl), tt),
        ))
]

put_rationale-others :
    (io : RationaleIo) (st : Store) (id j : ℕ) (a : Accepted)
    → (j ≡ id) ⊎ (entries (put_rationale io st id a) j ≡ entries st j)
unfolding put_rationale
put_rationale-others io st id j a = elim (Bool-cases (any (has_hash a.hash) (entries st id))) [
  | inl e ↦ inr (rw e refl)
  | inr e ↦
      let list = add_entry io a (entries st id) in
      let found = lookup-insert (dispute_key id) (dispute_key j) list st.index in
      elim (Bool-cases (text_eq (dispute_key id) (dispute_key j))) [
        | inl same ↦ inl (
            show-injective j id
              (sym (ap (drop 1) ((text_eq_iff (dispute_key id) (dispute_key j)).0 same))))
        | inr other ↦ inr (rw (e, found, other) refl)
      ]
]

-- What an accepted request leaves: the rationale is one that may be published, its text is the
-- request's and is stored under the hash, it is indexed for its dispute, and the lists of the other
-- disputes are as they were.
abbrev pub IsStored : Request → Store → Store → Text → Type 0
IsStored r st next hash =
    (a : Accepted) × IsPublishable r.io r.dispute_id a
    × (a.hash ≡ hash)
    × (r.doc_json ≡ some a.json)
    × (lookup hash next.blobs ≡ some a.json)
    × Indexes a (entries st r.dispute_id) (entries next r.dispute_id)
    × ((j : ℕ) → (j ≡ r.dispute_id) ⊎ (entries next j ≡ entries st j))

answer-IsStored :
    (st next : Store) (r : Request) (hash url : Text)
    → answer st r ≡ ok (hash, url, next)
    → IsStored r st next hash
unfolding store_rationale
answer-IsStored st next r hash url h =
    let (a, (c, h)) = >>=-eq-ok (check_rationale r.io r.dispute_id r.doc_json r.signature) _ h in
    let (given, publishable) =
      check_rationale-IsPublishable r.io r.dispute_id r.doc_json r.signature a c in
    subst (λ (t : Text × Text × Store). IsStored r st (t.2) (t.0))
      (ok-injective _ (hash, url, next) h)
      (
        a,
        publishable,
        refl,
        given,
        unfold put_rationale in lookup-insert_self a.hash a.json st.blobs,
        put_rationale-Indexes r.io st r.dispute_id a,
        λ j. put_rationale-others r.io st r.dispute_id j a,
      )

-- From a store in which no dispute has two entries of one juror and round and each entry's text is
-- among the blobs, after any sequence of requests and one more that is accepted, whatever they hold
-- and whatever the chain answers, this is so. The text of the accepted request is a publishable
-- rationale and is stored under the hash that the answer names. If the dispute's list had that hash,
-- it is as it was; otherwise it has an entry with the hash for the rationale's juror and round, all
-- entries of other seats, and no others. The lists of other disputes are as they were.
pub serve-IsStored :
    (requests : List Request) (st next : Store) (r : Request) (hash url : Text)
    → IsSound st
    → answer (serve st requests) r ≡ ok (hash, url, next)
    → IsSound next × IsStored r (serve st requests) next hash
serve-IsStored requests st next r hash url sound h =
    let before = serve-IsSound requests st sound in
    (
      subst
          (λ (t : Result RationaleError (Text × Text × Store)).
            IsSound (store_after (serve st requests) t))
          h (answer-IsSound (serve st requests) r before),
      answer-IsStored (serve st requests) next r hash url h,
    )
