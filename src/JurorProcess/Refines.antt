-- ===== src/JurorProcess/Refines.antt =====
-- The book of votes that the store implements.
use bab_takehome.Base.{
  ℕ, ◌≡◌, refl, sym, ap, subst, ◌∙◌, inl, inr, true, ◌&&◌, Option, none, some, arith, get_or,
  if◌then◌else◌, ◌==◌, Bool-cases, Text,
}
use bab_takehome.Commitments.Tree.{is_bytes32}
use bab_takehome.Deliberation.Types.{VerdictLabel}
use bab_takehome.JurorProcess.Store.{
  RoundRecord, JurorStore, round_record, put_round, ensure_round, update_round,
}
use bab_takehome.JurorProcess.Commit.{
  VoteHash, verdict_code, Secret, secret_of, new_salt, with_secret, fix_secret, kept_or_fixed,
  prepare_commit,
}
use bab_takehome.JurorProcess.Frames.{put_round-secret}
use bab_takehome.JurorProcess.Secrets.{ensure_round-secret, round_record-put_round}
use bab_takehome.JurorProcess.Book.{commitment_of-some}

-- A page for each dispute and round; a vote that is not written yet is written, and one that is
-- written is given.
abbrev pub Book : Type 0
Book = ℕ → ℕ → Option Secret

abbrev pub write_once : ℕ → ℕ → Secret → Book → Secret × Book
write_once id r fresh book =
    let s = get_or (book id r) fresh in (s, λ j q. if j == id && q == r then some s else book j q)

-- The abstraction, and the vote that is written when there is none.
abbrev pub book_of : JurorStore → Book
book_of st id r = secret_of (round_record id r st)

abbrev pub fresh_secret : VoteHash → ℕ → ℕ → VerdictLabel → Text → Text → Secret
fresh_secret hash id r verdict juror random = record {
  verdict = verdict;
  salt = new_salt random;
  commitment = hash id r (verdict_code verdict) (new_salt random) juror;
}

put_round-book :
    (id r : ℕ) (rec : RoundRecord) (st : JurorStore) (j q : ℕ)
    → book_of (put_round id r rec st) j q
      ≡ (if j == id && q == r then secret_of rec else book_of st j q)
put_round-book id r rec st j q = elim (Bool-cases (j == id && q == r)) [
  | inl e ↦
      let a : (id ≡ j) = ground arith in
      let b : (r ≡ q) = ground arith in
      rw e (
        subst (λ (k : ℕ). secret_of (round_record k q (put_round id r rec st)) ≡ secret_of rec) a
          (subst (λ (k : ℕ). secret_of (round_record id k (put_round id r rec st)) ≡ secret_of rec)
            b (ap secret_of (round_record-put_round id r rec st))))
  | inr e ↦ rw e (
      put_round-secret (λ o. o ≡ book_of st j q) id r rec j q st (λ a b _. absurd (ground arith))
        refl)
]

ensure_round-book :
    (id r : ℕ) (st : JurorStore) (j q : ℕ) → book_of (ensure_round id r st) j q ≡ book_of st j q
ensure_round-book id r st j q = ensure_round-secret (λ o. o ≡ book_of st j q) id r j q st refl

-- The result of `prepareCommit` on a store with this book.
abbrev pub IsWritten : ℕ → ℕ → Secret → Book → JurorStore × Option Secret → Type 0
IsWritten id r fresh book (st, o) =
    (o ≡ some (write_once id r fresh book).0)
    × ((j q : ℕ) → book_of st j q ≡ (write_once id r fresh book).1 j q)

kept-IsWritten :
    (id r : ℕ) (fresh s : Secret) (book : Book) (st : JurorStore)
    → ((j q : ℕ) → book_of st j q ≡ book j q)
    → book id r ≡ some s
    → IsWritten id r fresh book (st, some s)
kept-IsWritten id r fresh s book st same h = (
  ap (λ o. some (get_or o fresh)) (sym h),
  λ j q. elim (Bool-cases (j == id && q == r)) [
    | inl e ↦
        let a : (id ≡ j) = ground arith in
        let b : (r ≡ q) = ground arith in
        rw (e, h) (same j q ∙ sym (subst (λ (k : ℕ). book id r ≡ book k q) a (ap (book id) b)) ∙ h)
    | inr e ↦ rw e (same j q)
  ],
)

fixed-IsWritten :
    (id r : ℕ) (fresh : Secret) (book : Book) (st : JurorStore)
    → ((j q : ℕ) → book_of st j q ≡ book j q)
    → book id r ≡ none
    → IsWritten id r fresh book (update_round id r (with_secret fresh) st, some fresh)
unfolding update_round
fixed-IsWritten id r fresh book st same h = (
  ap (λ o. some (get_or o fresh)) (sym h),
  λ j q.
      put_round-book id r (with_secret fresh (round_record id r st)) st j q
      ∙ rw h (ap (λ o. if j == id && q == r then some fresh else o) (same j q)),
)

prepared-IsWritten :
    (hash : VoteHash) (id r : ℕ) (verdict : VerdictLabel) (juror random : Text) (book : Book)
    (o : Option Secret) (st : JurorStore)
    → is_bytes32 (new_salt random) ≡ true
    → ((j q : ℕ) → book_of st j q ≡ book j q)
    → book id r ≡ o
    → IsWritten id r
        (fresh_secret hash id r verdict juror random)
        book
        (kept_or_fixed hash id r verdict juror random o st)
prepared-IsWritten hash id r verdict juror random book (some s) st salted same h =
    kept-IsWritten id r (fresh_secret hash id r verdict juror random) s book st same h
prepared-IsWritten hash id r verdict juror random book none st salted same h =
    let fresh = fresh_secret hash id r verdict juror random in
    subst
      (λ (c : Option Text).
        IsWritten id r fresh book (fix_secret id r verdict (new_salt random) c st))
      (sym (commitment_of-some hash id r verdict (new_salt random) juror salted))
      (fixed-IsWritten id r fresh book st same h)

-- When the random digits are those of 32 bytes, `prepareCommit` implements a book of votes that are
-- written once: it gives the vote that the book has for the dispute and the round, or else the new
-- verdict with the new salt and the commitment to both; that page then has the vote, and every
-- other page is as before.
pub prepare_commit-write_once :
    (hash : VoteHash) (id r : ℕ) (verdict : VerdictLabel) (juror random : Text) (st : JurorStore)
    → is_bytes32 (new_salt random) ≡ true
    → IsWritten id r
        (fresh_secret hash id r verdict juror random)
        (book_of st)
        (prepare_commit hash id r verdict juror random st)
unfolding prepare_commit
prepare_commit-write_once hash id r verdict juror random st salted =
    let ready = ensure_round id r st in
    prepared-IsWritten hash id r verdict juror random (book_of st) _ ready salted
      (ensure_round-book id r st) (sym (ensure_round-book id r st id r))
