-- ===== src/Rationales/Checks.antt =====
-- What an accepted rationale is.
use bab_takehome.Base.{
  ℕ, ◌≡◌, refl, sym, ap, subst, ◌∙◌, ◌⊎◌, inl, inr, true, ◌||◌, not, Option, none, some, List, [],
  ◌∷◌, arith, length, Some, ltb, ◌==◌, Bool-cases, Text, text_eq, text_eq_iff, to_lower, show, ok,
  raise_if, raise_if-eq-ok, >>=-eq-ok, ok-injective, some-injective,
}
use bab_takehome.Rationales.{
  RationaleError, missing_fields, bad_size, not_json, null_document, bad_type, other_chain,
  other_dispute, bad_round, bad_address, not_signed, dispute_not_found, not_seated, not_revealed,
  other_verdict, other_commitment, Doc, Seat, RationaleIo, Accepted, rationale_type, max_bytes,
  require, verdict_name, is_text, is_number, valid_round, is_signer, round_seats, find_seat,
  read_doc, check_seat, check_rationale,
}

some_number : (n : ℕ) (o : Option ℕ) → is_number n o ≡ true → o ≡ some n
some_number n none h = absurd (ground arith)
some_number n (some m) h = ap some (ground arith)

valid_round-some :
    (o : Option ℕ) (n : ℕ) → valid_round o ≡ some n → (o ≡ some n) × ((n ≡ 1) ⊎ (n ≡ 2))
valid_round-some none n h = absurd (ground arith)
valid_round-some (some m) n h = elim (Bool-cases (m == 1 || m == 2)) [
  | inl e ↦
      let same : m ≡ n = some-injective m n (rw e at h) in
      (
        ap some same,
        subst (λ (k : ℕ). (k ≡ 1) ⊎ (k ≡ 2)) same
            (elim (Bool-cases (m == 1)) [
              | inl one ↦ inl (ground (arith, one))
              | inr more ↦ inr (ground (arith, e, more))
            ]),
      )
  | inr e ↦ absurd (ground (arith, h, e))
]

require-eq-ok :
    {A : Type 0} (o : Option A) (e : RationaleError) (a : A) → require o e ≡ ok a → o ≡ some a
require-eq-ok none e a h = absurd (ground arith)
require-eq-ok (some b) e a h = ap some (ok-injective b a h)

some_text : (s : Text) (o : Option Text) → is_text s o ≡ true → o ≡ some s
some_text s none h = absurd (ground arith)
some_text s (some t) h = ap some ((text_eq_iff t s).0 h)

signer_text :
    (j : Text) (o : Option Text)
    → is_signer j o ≡ true
    → (t : Text) × (o ≡ some t) × (to_lower t ≡ j)
signer_text j none h = absurd (ground arith)
signer_text j (some t) h = (t, refl, (text_eq_iff (to_lower t) j).0 h)

find_seat-Some :
    (j : Text) (seats : List Seat) (s : Seat)
    → find_seat j seats ≡ some s
    → Some (λ t. t ≡ s) seats × (to_lower s.juror ≡ j)
unfolding find_seat
find_seat-Some j [] s h = absurd (ground arith)
find_seat-Some j (t ∷ seats) s h = elim (Bool-cases (text_eq (to_lower t.juror) j)) [
  | inl e ↦
      let same : t ≡ s = some-injective t s (rw e at h) in
      (inl same, ap (λ (u : Seat). to_lower u.juror) (sym same) ∙ (text_eq_iff _ j).0 e)
  | inr e ↦ let (at_seat, juror) = find_seat-Some j seats s (rw e at h) in (inr at_seat, juror)
]

-- The seat on which a juror publishes: it is one of the round's, its vote is revealed on the chain,
-- and the document has its verdict and its commitment.
abbrev pub HasSeat : RationaleIo → ℕ → Doc → Text → ℕ → Type 0
HasSeat io id doc juror round =
    (seats : List Seat) × (seat : Seat) × (io.get_dispute id ≡ ok (some seats))
    × Some (λ s. s ≡ seat) (round_seats round seats)
    × (to_lower seat.juror ≡ juror)
    × (seat.revealed ≡ true)
    × (doc.verdict ≡ some (verdict_name seat.vote))
    × (to_lower doc.commitment ≡ to_lower seat.commitment)

check_seat-HasSeat :
    (io : RationaleIo) (id : ℕ) (doc : Doc) (juror : Text) (round : ℕ) (s : Seat)
    → check_seat io id doc juror round ≡ ok s
    → HasSeat io id doc juror round
unfolding check_seat
check_seat-HasSeat io id doc juror round s h =
    let (got, (a, h)) = >>=-eq-ok (io.get_dispute id) _ h in
    let (seats, (b, h)) = >>=-eq-ok (require got dispute_not_found) _ h in
    let (seat, (c, h)) =
      >>=-eq-ok (require (find_seat juror (round_seats round seats)) (not_seated round)) _ h in
    let (_, (d, h)) = >>=-eq-ok (raise_if (not seat.revealed) not_revealed) _ h in
    let (_, (e, h)) =
      >>=-eq-ok (raise_if (not (is_text (verdict_name seat.vote) doc.verdict)) other_verdict) _ h in
    let (_, (f, h)) =
      >>=-eq-ok
        (raise_if (not (text_eq (to_lower doc.commitment) (to_lower seat.commitment)))
          other_commitment)
        _ h in
    let (at_seat, same_juror) =
      find_seat-Some juror (round_seats round seats) seat (require-eq-ok _ _ seat c) in
    let revealed = raise_if-eq-ok _ _ d in
    let verdict = raise_if-eq-ok _ _ e in
    let commitment = raise_if-eq-ok _ _ f in
    (
      seats,
      seat,
      a ∙ ap ok (require-eq-ok got _ seats b),
      at_seat,
      same_juror,
      ground (arith, revealed),
      some_text _ doc.verdict (ground (arith, verdict)),
      (text_eq_iff _ _).0 (ground (arith, commitment)),
    )

read_doc-parse :
    (io : RationaleIo) (doc_json signature : Option Text) (json sig : Text) (doc : Doc)
    → read_doc io doc_json signature ≡ ok (json, sig, doc)
    → (doc_json ≡ some json) × (io.parse json ≡ some (some doc))
unfolding read_doc
read_doc-parse io doc_json signature json sig doc h =
    let (j, (a, h)) = >>=-eq-ok (require doc_json missing_fields) _ h in
    let (s, (b, h)) = >>=-eq-ok (require signature missing_fields) _ h in
    let (_, (c, h)) =
      >>=-eq-ok (raise_if (length (io.utf8 j) == 0 || ltb max_bytes (length (io.utf8 j))) bad_size)
        _ h in
    let (p, (d, h)) = >>=-eq-ok (require (io.parse j) not_json) _ h in
    let (q, (e, h)) = >>=-eq-ok (require p null_document) _ h in
    let all = ok-injective _ (json, sig, doc) h in
    (
      require-eq-ok doc_json _ j a ∙ ap (λ (t : Text × Text × Doc). some (t.0)) all,
      ap io.parse (sym (ap (λ (t : Text × Text × Doc). t.0) all))
          ∙ require-eq-ok _ _ p d
          ∙ ap some (require-eq-ok p _ q e ∙ ap (λ (t : Text × Text × Doc). some (t.2)) all),
    )

-- An accepted rationale: its text is a document of this chain, market and dispute, signed over its
-- hash by the document's juror, who has a revealed seat in the document's round with its verdict and
-- its commitment.
abbrev pub IsPublishable : RationaleIo → ℕ → Accepted → Type 0
IsPublishable io id a =
    (doc : Doc) × (address : Text) × (signer : Text) × (sig : Text) × (io.parse a.json
      ≡ some (some doc))
    × (doc.kind ≡ some rationale_type)
    × (doc.chain_id ≡ some io.chain_id)
    × (to_lower doc.market ≡ to_lower io.market)
    × (doc.dispute_id ≡ show id)
    × (doc.round ≡ some a.round)
    × ((a.round ≡ 1) ⊎ (a.round ≡ 2))
    × (io.get_address doc.juror ≡ some address)
    × (a.juror ≡ to_lower address)
    × (a.hash ≡ io.sha256_hex (io.utf8 a.json))
    × (io.recover a.hash sig ≡ some signer)
    × (to_lower signer ≡ a.juror)
    × HasSeat io id doc a.juror a.round

-- Whenever the checks of `storeRationale` pass: the text is the request's; it parses to a document of
-- the rationale type and of this chain, market and dispute; the round that is accepted is the
-- document's and is 1 or 2; the juror that is accepted is the address that the document names in
-- lower case, and signed the hash of the text; and that juror sits on the dispute in that round, with
-- a vote that is revealed on the chain and has the document's verdict and commitment.
pub check_rationale-IsPublishable :
    (io : RationaleIo) (id : ℕ) (doc_json signature : Option Text) (a : Accepted)
    → check_rationale io id doc_json signature ≡ ok a
    → (doc_json ≡ some a.json) × IsPublishable io id a
unfolding check_rationale
check_rationale-IsPublishable io id doc_json signature a h =
    let ((json, sig, doc), (p, h)) = >>=-eq-ok (read_doc io doc_json signature) _ h in
    let (_, (b, h)) = >>=-eq-ok (raise_if (not (is_text rationale_type doc.kind)) bad_type) _ h in
    let (_, (c, h)) =
      >>=-eq-ok
        (raise_if
          (not (is_number io.chain_id doc.chain_id)
            || not (text_eq (to_lower doc.market) (to_lower io.market)))
          other_chain)
        _ h in
    let (_, (d, h)) =
      >>=-eq-ok (raise_if (not (text_eq doc.dispute_id (show id))) other_dispute) _ h in
    let (round, (e, h)) = >>=-eq-ok (require (valid_round doc.round) bad_round) _ h in
    let (address, (f, h)) = >>=-eq-ok (require (io.get_address doc.juror) bad_address) _ h in
    let hash = io.sha256_hex (io.utf8 json) in
    let (_, (g, h)) =
      >>=-eq-ok (raise_if (not (is_signer (to_lower address) (io.recover hash sig))) not_signed) _
        h in
    let (s, (k, h)) = >>=-eq-ok (check_seat io id doc (to_lower address) round) _ h in
    let (given, parsed) = read_doc-parse io doc_json signature json sig doc p in
    let kind = raise_if-eq-ok _ _ b in
    let dispute = raise_if-eq-ok _ _ d in
    let signed = raise_if-eq-ok _ _ g in
    let here = raise_if-eq-ok _ _ c in
    let (same_round, one_or_two) =
      valid_round-some doc.round round (require-eq-ok (valid_round doc.round) _ round e) in
    let (signer, recovered, by_juror) =
      signer_text (to_lower address) (io.recover hash sig) (ground (arith, signed)) in
    subst (λ (a : Accepted). (doc_json ≡ some a.json) × IsPublishable io id a) (ok-injective _ a h)
      (
        given,
        (
          doc,
          address,
          signer,
          sig,
          parsed,
          some_text _ doc.kind (ground (arith, kind)),
          some_number io.chain_id doc.chain_id (ground (arith, here)),
          (text_eq_iff _ _).0 (ground (arith, here)),
          (text_eq_iff _ _).0 (ground (arith, dispute)),
          same_round,
          one_or_two,
          require-eq-ok (io.get_address doc.juror) _ address f,
          refl,
          refl,
          recovered,
          by_juror,
          check_seat-HasSeat io id doc (to_lower address) round s k,
        ),
      )
