-- ===== src/Publication/Confirmed.antt =====
-- What stands behind the address of a published rationale.
use bab_takehome.Base.{
  ◌≡◌, refl, sym, ap, subst, ◌∙◌, ◌⊎◌, inl, inr, true, false, not, Option, none, some, [], ◌∷◌,
  ◌++◌, arith, get_or, ◌==◌, Bool-cases, Text, codes, text_eq_iff, to_lower, Result, ok, err,
  raise_if, raise_if-eq-ok, >>=-eq-ok, ok-injective, some-injective, obj,
}
use bab_takehome.Publication.Canonical.{canonical}
use bab_takehome.Publication.Document.{doc_fields}
use bab_takehome.Publication.Upload.{
  Response, UploadIo, UploadError, not_signed, no_response, http_status, other_hash, require,
  strip_slashes, is_ok, is_hash, blob_url, put_blob, indexed, post_rationale, Publish, try_index,
  or_blob, upload, caught, try_upload, doc_text, publish_rationale,
}

require-eq-ok :
    {A : Type 0} (o : Option A) (e : UploadError) (a : A) → require o e ≡ ok a → o ≡ some a
require-eq-ok none e a h = absurd (ground arith)
require-eq-ok (some b) e a h = ap some (ok-injective b a h)

is_hash-eq :
    (expected : Text) (o : Option Text)
    → not (is_hash expected o) ≡ false
    → (h : Text) × (o ≡ some h) × (to_lower h ≡ expected)
is_hash-eq expected none h = absurd (ground arith)
is_hash-eq expected (some t) h = (t, refl, (text_eq_iff _ _).0 (ground arith))

-- The response is a success that names the digest of the text, in any case of its letters.
abbrev pub Confirms : UploadIo → Text → Response → Type 0
Confirms io text res =
    (is_ok res.status ≡ true)
    × ((h : Text) × (res.sha256 ≡ some h) × (to_lower h ≡ io.sha256_hex text))

Confirms-checks :
    (io : UploadIo) (text : Text) (res : Response)
    → not (is_ok res.status) ≡ false
    → not (is_hash (io.sha256_hex text) res.sha256) ≡ false
    → Confirms io text res
Confirms-checks io text res a b = (ground arith, is_hash-eq _ _ b)

-- The text was put to the blob store, and the address is that of its digest.
abbrev pub IsPut : UploadIo → Text → Text → Text → Type 0
IsPut io tee_url text url =
    (res : Response) × (io.put (strip_slashes tee_url ++ codes "/blobs") text ≡ some res)
    × Confirms io text res
    × (url ≡ blob_url tee_url (io.sha256_hex text))

-- The text was posted with a signature over its digest, and the address is the answer's.
abbrev pub IsPosted : UploadIo → Publish → Text → Text → Text → Type 0
IsPosted io a tee_url text url =
    (sign : Text → Option Text) × (signature : Text) × (res : Response) × (a.sign ≡ some sign)
    × (sign (io.sha256_hex text) ≡ some signature)
    × (io.post (strip_slashes tee_url ++ codes "/rationales/" ++ a.doc.dispute_id) text signature
        ≡ some res)
    × Confirms io text res
    × (url ≡ get_or res.url (blob_url tee_url (io.sha256_hex text)))

put_blob-IsPut :
    (io : UploadIo) (tee_url text hash url : Text)
    → put_blob io tee_url text ≡ ok (hash, url)
    → IsPut io tee_url text url
unfolding put_blob
put_blob-IsPut io tee_url text hash url h =
    let (res, (a, h)) = >>=-eq-ok (require (io.put _ text) no_response) _ h in
    let (_, (b, h)) = >>=-eq-ok (raise_if (not (is_ok res.status)) (http_status res.status)) _ h in
    let (_, (c, h)) =
      >>=-eq-ok (raise_if (not (is_hash (io.sha256_hex text) res.sha256)) (other_hash res.sha256)) _
        h in
    (
      res,
      require-eq-ok _ _ res a,
      Confirms-checks io text res (raise_if-eq-ok _ _ b) (raise_if-eq-ok _ _ c),
      sym (ap (λ (t : Text × Text). t.1) (ok-injective _ (hash, url) h)),
    )

indexed-Confirms :
    (io : UploadIo) (tee_url text hash url : Text) (res : Response)
    → indexed io tee_url text res ≡ ok (some (hash, url))
    → Confirms io text res × (url ≡ get_or res.url (blob_url tee_url (io.sha256_hex text)))
indexed-Confirms io tee_url text hash url res h =
    let (_, (b, h)) = >>=-eq-ok (raise_if (not (is_ok res.status)) (http_status res.status)) _ h in
    let (_, (c, h)) =
      >>=-eq-ok (raise_if (not (is_hash (io.sha256_hex text) res.sha256)) (other_hash res.sha256)) _
        h in
    (
      Confirms-checks io text res (raise_if-eq-ok _ _ b) (raise_if-eq-ok _ _ c),
      sym (
          ap (λ (t : Text × Text). t.1)
            (some-injective _ (hash, url) (ok-injective _ (some (hash, url)) h))),
    )

post_rationale-IsPosted :
    (io : UploadIo) (a : Publish) (tee_url text hash url : Text) (sign : Text → Option Text)
    → a.sign ≡ some sign
    → post_rationale io tee_url a.doc.dispute_id text sign ≡ ok (some (hash, url))
    → IsPosted io a tee_url text url
unfolding post_rationale
post_rationale-IsPosted io a tee_url text hash url sign s h =
    let (signature, (b, h)) = >>=-eq-ok (require (sign (io.sha256_hex text)) not_signed) _ h in
    let (res, (c, h)) = >>=-eq-ok (require (io.post _ text signature) no_response) _ h in
    elim (Bool-cases (res.status == 404)) [
      | inl e ↦ absurd (let k = rw e at h in ground arith)
      | inr e ↦
          let (ok_hash, same) = indexed-Confirms io tee_url text hash url res (rw e at h) in
          (
            sign,
            signature,
            res,
            s,
            require-eq-ok _ _ signature b,
            require-eq-ok _ _ res c,
            ok_hash,
            same,
          )
    ]

abbrev pub IsUploaded : UploadIo → Publish → Text → Text → Text → Type 0
IsUploaded io a tee_url text url = IsPosted io a tee_url text url ⊎ IsPut io tee_url text url

or_blob-IsUploaded :
    (io : UploadIo) (a : Publish) (tee_url text url : Text) (o : Option (Text × Text))
    → ((hash url : Text) → o ≡ some (hash, url) → IsPosted io a tee_url text url)
    → or_blob io tee_url text o ≡ ok url
    → IsUploaded io a tee_url text url
or_blob-IsUploaded io a tee_url text url none k h =
    let ((hash, put), (b, h)) = >>=-eq-ok (put_blob io tee_url text) _ h in
    inr (
      subst (λ (u : Text). IsPut io tee_url text u) (ok-injective _ url h)
        (put_blob-IsPut io tee_url text hash put b))
or_blob-IsUploaded io a tee_url text url (some (hash, posted)) k h =
    inl (
      subst (λ (u : Text). IsPosted io a tee_url text u) (ok-injective _ url h)
        (k hash posted refl))

upload-IsUploaded :
    (io : UploadIo) (a : Publish) (tee_url text url : Text)
    → upload io a text tee_url ≡ ok url
    → IsUploaded io a tee_url text url
unfolding upload
upload-IsUploaded io a tee_url text url h =
    let (o, (b, h)) = >>=-eq-ok (try_index io tee_url a.doc.dispute_id text a.sign) _ h in
    or_blob-IsUploaded io a tee_url text url o (λ hash u e. posted a.sign hash u refl (b ∙ ap ok e))
      h
  where
    posted :
        (sign : Option (Text → Option Text)) (hash u : Text)
        → a.sign ≡ sign
        → try_index io tee_url a.doc.dispute_id text sign ≡ ok (some (hash, u))
        → IsPosted io a tee_url text u
    posted none hash u s e = absurd (ground arith)
    posted (some sign) hash u s e = post_rationale-IsPosted io a tee_url text hash u sign s e

caught-some : (r : Result UploadError Text) (url : Text) → caught r ≡ some url → r ≡ ok url
caught-some (ok u) url h = ap ok (some-injective u url h)
caught-some (err e) url h = absurd (ground arith)

try_upload-IsUploaded :
    (io : UploadIo) (a : Publish) (text url : Text) (o : Option Text)
    → try_upload io a text o ≡ some url
    → (tee_url : Text) × (o ≡ some tee_url) × IsUploaded io a tee_url text url
unfolding try_upload
try_upload-IsUploaded io a text url none h = absurd (ground arith)
try_upload-IsUploaded io a text url (some []) h = absurd (ground arith)
try_upload-IsUploaded io a text url (some (c ∷ u)) h =
    (c ∷ u, refl, upload-IsUploaded io a (c ∷ u) text url (caught-some _ url h))

-- A publication writes the canonical text of the document and gives its digest; whenever it gives
-- an address, a TEE is configured that answered with success and this very digest, either to the
-- text posted with the juror's signature over the digest, in which case the address is the answer's
-- or else the blob's, or to the text put to the blob store, in which case it is the blob's.
pub publish_rationale-IsUploaded :
    (io : UploadIo) (a : Publish) (url : Text)
    → (publish_rationale io a).0.blob_url ≡ some url
    → ((publish_rationale io a).1 ≡ canonical io.show_number (obj (doc_fields a.doc)))
      × ((publish_rationale io a).0.sha256 ≡ io.sha256_hex (publish_rationale io a).1)
      × ((tee_url : Text) × (a.tee_url ≡ some tee_url)
          × IsUploaded io a tee_url (publish_rationale io a).1 url)
unfolding publish_rationale
publish_rationale-IsUploaded io a url h =
    (refl, refl, try_upload-IsUploaded io a (doc_text io a.doc) url a.tee_url h)
