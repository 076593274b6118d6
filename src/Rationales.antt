-- ===== src/Rationales.antt =====
-- services/tee/src/rationales.ts: the rationales that jurors publish. The blob store and the index
-- of a dispute's rationales are the state; the chain, the clock, JSON and the cryptography of one
-- request are the record `RationaleIo`.
mod Checks
mod Index
mod History
mod Examples
use bab_takehome.Base.{
  ℕ, ◌+◌, ◌-◌, ◌*◌, Bool, true, false, ◌&&◌, ◌||◌, not, Option, none, some, List, [], ◌∷◌, ◌++◌,
  map, length, take, drop, any, keep, get_or, if◌then◌else◌, ltb, ◌==◌, Text, codes, text_eq,
  to_lower, show, Dict, lookup, insert, Result, ok, err, ◌>>=◌, ◌>>◌, raise_if,
}

abbrev pub rationale_type : Text
rationale_type = codes "envmarket.juror-rationale.v1"

abbrev pub max_bytes : ℕ
max_bytes = 64 * 1024

-- The errors, in the order in which the request is checked.
pub data RationaleError : Type 0 where
  missing_fields : RationaleError
  bad_size : RationaleError
  not_json : RationaleError
  null_document : RationaleError
  bad_type : RationaleError
  other_chain : RationaleError
  other_dispute : RationaleError
  bad_round : RationaleError
  bad_address : RationaleError
  not_signed : RationaleError
  chain_error : Text → RationaleError
  dispute_not_found : RationaleError
  not_seated : ℕ → RationaleError
  not_revealed : RationaleError
  other_verdict : RationaleError
  other_commitment : RationaleError

-- The fields of the document: `none` is a type or a verdict that is no string, and a number that is
-- no natural number; the other fields are what `String` makes of them.
pub record Doc : Type 0 where
  pub kind : Option Text
  pub chain_id : Option ℕ
  pub market : Text
  pub dispute_id : Text
  pub round : Option ℕ
  pub juror : Text
  pub verdict : Option Text
  pub commitment : Text

pub record Seat : Type 0 where
  pub juror : Text
  pub vote : ℕ
  pub revealed : Bool
  pub commitment : Text

pub record Entry : Type 0 where
  pub juror : Text
  pub round : ℕ
  pub sha256 : Text
  pub stored_at : Text

-- `parse` is `none` on a syntax error, and `some none` on `null`; `get_address` is `none` where it
-- throws; `recover` is `none` where it rejects.
pub record RationaleIo : Type 0 where
  pub chain_id : ℕ
  pub market : Text
  pub public_url : Text
  pub time : Text
  pub utf8 : Text → List ℕ
  pub parse : Text → Option (Option Doc)
  pub get_address : Text → Option Text
  pub sha256_hex : List ℕ → Text
  pub recover : Text → Text → Option Text
  pub get_dispute : ℕ → Result RationaleError (Option (List Seat))

pub record Store : Type 0 where
  pub blobs : Dict Text
  pub index : Dict (List Entry)

abbrev pub require {ℓ} : {A : Type ℓ} → Option A → RationaleError → Result RationaleError A
require none e = err e
require (some a) e = ok a

abbrev pub dispute_key : ℕ → Text
dispute_key id = codes "d" ++ show id

abbrev pub verdict_name : ℕ → Text
verdict_name vote =
    if vote == 1 then codes "Uphold" else if vote == 2 then codes "Reject" else codes "None"

abbrev pub is_text : Text → Option Text → Bool
is_text s none = false
is_text s (some t) = text_eq t s

abbrev pub is_number : ℕ → Option ℕ → Bool
is_number n none = false
is_number n (some m) = m == n

abbrev pub valid_round : Option ℕ → Option ℕ
valid_round none = none
valid_round (some n) = if n == 1 || n == 2 then some n else none

abbrev pub is_signer : Text → Option Text → Bool
is_signer juror none = false
is_signer juror (some signer) = text_eq (to_lower signer) juror

abbrev pub round_seats : ℕ → List Seat → List Seat
round_seats round seats = take 3 (drop ((round - 1) * 3) seats)

unfoldable pub find_seat : Text → List Seat → Option Seat
find_seat juror [] = none
find_seat juror (s ∷ seats) =
    if text_eq (to_lower s.juror) juror then some s else find_seat juror seats

-- What the checks find.
pub record Accepted : Type 0 where
  pub juror : Text
  pub round : ℕ
  pub hash : Text
  pub json : Text

-- The checks of `storeRationale`, up to the document.
unfoldable pub read_doc :
    RationaleIo → Option Text → Option Text → Result RationaleError (Text × Text × Doc)
read_doc io doc_json signature = do
  json ← require doc_json missing_fields
  sig ← require signature missing_fields
  raise_if (length (io.utf8 json) == 0 || ltb max_bytes (length (io.utf8 json))) bad_size
  parsed ← require (io.parse json) not_json
  doc ← require parsed null_document
  ok (json, sig, doc)

-- The checks against the chain.
unfoldable pub check_seat : RationaleIo → ℕ → Doc → Text → ℕ → Result RationaleError Seat
check_seat io id doc juror round = do
  got ← io.get_dispute id
  seats ← require got dispute_not_found
  seat ← require (find_seat juror (round_seats round seats)) (not_seated round)
  raise_if (not seat.revealed) not_revealed
  raise_if (not (is_text (verdict_name seat.vote) doc.verdict)) other_verdict
  raise_if (not (text_eq (to_lower doc.commitment) (to_lower seat.commitment))) other_commitment
  ok seat

unfoldable pub check_rationale :
    RationaleIo → ℕ → Option Text → Option Text → Result RationaleError Accepted
check_rationale io id doc_json signature = do
  (json, sig, doc) ← read_doc io doc_json signature
  raise_if (not (is_text rationale_type doc.kind)) bad_type
  raise_if
      (not (is_number io.chain_id doc.chain_id)
        || not (text_eq (to_lower doc.market) (to_lower io.market)))
      other_chain
  raise_if (not (text_eq doc.dispute_id (show id))) other_dispute
  round ← require (valid_round doc.round) bad_round
  address ← require (io.get_address doc.juror) bad_address
  raise_if (not (is_signer (to_lower address) (io.recover (io.sha256_hex (io.utf8 json)) sig)))
      not_signed
  seat ← check_seat io id doc (to_lower address) round
  ok (record {
    juror = to_lower address;
    round = round;
    hash = io.sha256_hex (io.utf8 json);
    json = json;
  })

abbrev pub entries : Store → ℕ → List Entry
entries st id = get_or (lookup (dispute_key id) st.index) []

abbrev pub same_seat : Text → ℕ → Entry → Bool
same_seat juror round e = text_eq e.juror juror && e.round == round

abbrev pub has_hash : Text → Entry → Bool
has_hash hash e = text_eq e.sha256 hash

abbrev pub new_entry : RationaleIo → Accepted → Entry
new_entry io a = record { juror = a.juror; round = a.round; sha256 = a.hash; stored_at = io.time }

-- The list of a dispute with an accepted rationale.
unfoldable pub add_entry : RationaleIo → Accepted → List Entry → List Entry
add_entry io a list =
    if any (has_hash a.hash) list
    then list
    else keep (λ e. not (same_seat a.juror a.round e)) list ++ new_entry io a ∷ []

unfoldable pub put_rationale : RationaleIo → Store → ℕ → Accepted → Store
put_rationale io st id a = record {
  blobs = insert a.hash a.json st.blobs;
  index =
      if any (has_hash a.hash) (entries st id)
      then st.index
      else insert (dispute_key id) (add_entry io a (entries st id)) st.index;
}

abbrev pub blob_url : RationaleIo → Text → Text
blob_url io hash = io.public_url ++ codes "/blobs/" ++ drop 2 hash

-- The hash and the address of the stored text, with the store after the request.
unfoldable pub store_rationale :
    RationaleIo
    → Store
    → ℕ
    → Option Text
    → Option Text
    → Result RationaleError (Text × Text × Store)
store_rationale io st id doc_json signature = do
  a ← check_rationale io id doc_json signature
  ok (a.hash, blob_url io a.hash, put_rationale io st id a)

pub record Listed : Type 0 where
  pub entry : Entry
  pub url : Text
  pub doc_json : Option Text

abbrev pub is_revealed : Option (List Seat) → Entry → Bool
is_revealed none e = false
is_revealed (some seats) e =
    any (λ s. text_eq (to_lower s.juror) e.juror && s.revealed) (round_seats e.round seats)

abbrev pub listed : RationaleIo → Store → Entry → Listed
listed io st e = record {
  entry = e;
  url = blob_url io e.sha256;
  doc_json = lookup e.sha256 st.blobs;
}

unfoldable pub list_rationales : RationaleIo → Store → ℕ → Result RationaleError (List Listed)
list_rationales io st id =
    if length (entries st id) == 0
    then ok []
    else io.get_dispute id >>= λ got.
        ok (map (listed io st) (keep (is_revealed got) (entries st id)))
