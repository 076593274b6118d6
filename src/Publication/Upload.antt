-- ===== src/Publication/Upload.antt =====
-- services/jurors/src/publish.ts: `putBlob`, `postRationale` and `publishRationale`.
use bab_takehome.Base.{
  ℕ, Bool, false, ◌&&◌, not, Option, none, some, [], ◌∷◌, ◌++◌, get_or, if◌then◌else◌, leb, ltb,
  ◌==◌, Text, codes, text_eq, to_lower, Number, obj, Result, ok, err, ◌>>=◌, ◌>>◌, raise_if,
}
use bab_takehome.Publication.Canonical.{canonical}
use bab_takehome.Publication.Document.{RationaleDoc, doc_fields}

-- A response: its status and the fields of its JSON body.
pub record Response : Type 0 where
  pub status : ℕ
  pub sha256 : Option Text
  pub url : Option Text

-- The requests to the enclave, and the digest of a text's bytes. `put` and `post` are `none` where
-- `fetch` or the reading of the body throws, and `sign` where it rejects.
pub record UploadIo : Type 0 where
  pub show_number : Number → Text
  pub sha256_hex : Text → Text
  pub put : (url : Text) → (body : Text) → Option Response
  pub post : (url : Text) → (doc_json : Text) → (signature : Text) → Option Response

pub data UploadError : Type 0 where
  not_signed : UploadError
  no_response : UploadError
  http_status : ℕ → UploadError
  other_hash : Option Text → UploadError

abbrev pub require {ℓ} : {A : Type ℓ} → Option A → UploadError → Result UploadError A
require none e = err e
require (some a) e = ok a

-- `url.replace(/\/+$/, '')`
unfoldable pub strip_slashes : Text → Text
strip_slashes [] = []
strip_slashes (c ∷ s) =
    let rest = strip_slashes s in
    elim rest [ [] ↦ if c == b'/' then [] else c ∷ [] | d ∷ t ↦ c ∷ d ∷ t ]

abbrev pub is_ok : ℕ → Bool
is_ok status = leb 200 status && ltb status 300

-- `body.sha256 && body.sha256.toLowerCase() === expected`
abbrev pub is_hash : Text → Option Text → Bool
is_hash expected none = false
is_hash expected (some h) = text_eq (to_lower h) expected

abbrev pub blob_url : Text → Text → Text
blob_url tee_url hash = strip_slashes tee_url ++ codes "/blobs/" ++ hash

unfoldable pub put_blob : UploadIo → Text → Text → Result UploadError (Text × Text)
put_blob io tee_url text = do
  res ← require (io.put (strip_slashes tee_url ++ codes "/blobs") text) no_response
  raise_if (not (is_ok res.status)) (http_status res.status)
  raise_if (not (is_hash (io.sha256_hex text) res.sha256)) (other_hash res.sha256)
  ok (io.sha256_hex text, blob_url tee_url (io.sha256_hex text))

abbrev pub indexed : UploadIo → Text → Text → Response → Result UploadError (Option (Text × Text))
indexed io tee_url text res = do
  raise_if (not (is_ok res.status)) (http_status res.status)
  raise_if (not (is_hash (io.sha256_hex text) res.sha256)) (other_hash res.sha256)
  ok (some (io.sha256_hex text, get_or res.url (blob_url tee_url (io.sha256_hex text))))

unfoldable pub post_rationale :
    UploadIo → Text → Text → Text → (Text → Option Text) → Result UploadError (Option (Text × Text))
post_rationale io tee_url dispute_id text sign = do
  signature ← require (sign (io.sha256_hex text)) not_signed
  res ←
      require (io.post (strip_slashes tee_url ++ codes "/rationales/" ++ dispute_id) text signature)
        no_response
  if res.status == 404 then ok none else indexed io tee_url text res

pub record Publish : Type 0 where
  pub data_dir : Text
  pub tee_url : Option Text
  pub doc : RationaleDoc
  pub sign : Option (Text → Option Text)

pub record Published : Type 0 where
  pub file : Text
  pub sha256 : Text
  pub blob_url : Option Text

-- `a.sign ? await postRationale(...) : null`
abbrev pub try_index :
    UploadIo
    → Text
    → Text
    → Text
    → Option (Text → Option Text)
    → Result UploadError (Option (Text × Text))
try_index io tee_url dispute_id text none = ok none
try_index io tee_url dispute_id text (some sign) = post_rationale io tee_url dispute_id text sign

abbrev pub or_blob : UploadIo → Text → Text → Option (Text × Text) → Result UploadError Text
or_blob io tee_url text none = put_blob io tee_url text >>= λ (_, url). ok url
or_blob io tee_url text (some (_, url)) = ok url

unfoldable pub upload : UploadIo → Publish → Text → Text → Result UploadError Text
upload io a text tee_url =
    try_index io tee_url a.doc.dispute_id text a.sign >>= or_blob io tee_url text

abbrev pub caught : Result UploadError Text → Option Text
caught (ok url) = some url
caught (err e) = none

-- `if (a.teeUrl) { try { ... } catch { ... } }`
unfoldable pub try_upload : UploadIo → Publish → Text → Option Text → Option Text
try_upload io a text none = none
try_upload io a text (some []) = none
try_upload io a text (some (c ∷ url)) = caught (upload io a text (c ∷ url))

abbrev pub rationale_file : Publish → Text
rationale_file a =
    a.data_dir
    ++ codes "/rationales/"
    ++ a.doc.dispute_id
    ++ codes "-"
    ++ a.doc.juror
    ++ codes ".json"

abbrev pub doc_text : UploadIo → RationaleDoc → Text
doc_text io doc = canonical io.show_number (obj (doc_fields doc))

-- What is published, and the text that is written to its file before any request.
unfoldable pub publish_rationale : UploadIo → Publish → Published × Text
publish_rationale io a =
    let text = doc_text io a.doc in
    (
      record {
        file = rationale_file a;
        sha256 = io.sha256_hex text;
        blob_url = try_upload io a text a.tee_url;
      },
      text,
    )
