-- ===== src/Relay.antt =====
-- services/tee/src/relay.ts: the key-delivery relay. A call of the relay reads the delivery record of
-- its purchase once, and then what it does is the list of its effects, in their order. The chain,
-- the uploaded keys, the clock, the random numbers and the third-party cryptography of one call
-- are the record `RelayIo`, where `err` is a call that throws.
mod Effects
mod Order
mod Frozen
mod Serve
mod Examples
use bab_takehome.Base.{
  ℕ, Bool, true, false, ◌&&◌, ◌||◌, not, Option, none, some, List, [], ◌∷◌, ◌++◌, take,
  if◌then◌else◌, ltb, ◌==◌, Text, codes, text_eq, to_lower, show, Dict, lookup, insert, Result, ok,
  err, ◌>>=◌, ◌>>◌, raise_if,
}

pub data DeliveryStatus : Type 0 where
  prepared : DeliveryStatus
  submitted : DeliveryStatus
  delivered : DeliveryStatus
  failed : DeliveryStatus
  expired : DeliveryStatus

abbrev pub is_delivered : DeliveryStatus → Bool
is_delivered delivered = true
is_delivered _ = false

pub record DeliveryRecord : Type 0 where
  pub purchase_id : Text
  pub version_id : Text
  pub buyer : Text
  pub buyer_enc_pub_key : Text
  pub wrapper_json : Text
  pub wrapper_hash : Text
  pub wrapped_key : Text
  pub wrapped_key_hash : Text
  pub ciphertext_hash : Text
  pub bundle_hash : Text
  pub ephemeral_secret_key : Text
  pub nonce : Text
  pub signature : Option Text
  pub tx : Option Text
  pub status : DeliveryStatus
  pub error : Option Text
  pub created_at : Text
  pub updated_at : Text

-- The purchase states of the contract.
pub data PurchaseState : Type 0 where
  no_purchase : PurchaseState
  funded : PurchaseState
  delivered_on_chain : PurchaseState
  disputed : PurchaseState
  refunded : PurchaseState
  settled : PurchaseState

abbrev pub is_refunded : PurchaseState → Bool
is_refunded refunded = true
is_refunded _ = false

-- `[PS.Delivered, PS.Disputed, PS.Settled].includes(p.state)`
abbrev pub is_after_delivery : PurchaseState → Bool
is_after_delivery delivered_on_chain = true
is_after_delivery disputed = true
is_after_delivery settled = true
is_after_delivery _ = false

-- What the relay reads of a purchase and of a version.
pub record Purchase : Type 0 where
  pub state : PurchaseState
  pub buyer : Text
  pub buyer_enc_pub_key : Text
  pub version_id : ℕ
  pub delivery_deadline : ℕ
  pub delivered_at : ℕ
  pub challenge_deadline : ℕ
  pub wrapper_hash : Text
  pub wrapped_key_hash : Text

pub record Version : Type 0 where
  pub bundle_hash : Text
  pub ciphertext_hash : Text

pub record Wrapper : Type 0 where
  pub json : Text
  pub wrapper_hash : Text

-- The fields that `signDeliveryReceipt` signs.
pub record Receipt : Type 0 where
  pub purchase_id : Text
  pub buyer_enc_pub_key : Text
  pub ciphertext_hash : Text
  pub wrapped_key_hash : Text
  pub wrapper_hash : Text

pub record RelayIo : Type 0 where
  pub get_purchase : ℕ → Result Text (Option Purchase)
  pub get_version : ℕ → Result Text (Option Version)
  pub now : ℕ
  pub time : Text
  pub load_upload : Text → Option Text
  pub has_blob : Text → Bool
  pub build_wrapper : ℕ → Purchase → Version → Wrapper
  pub secret_key : Text
  pub random_nonce : Text
  pub wrap_key : Text → Text → Text → Text → Text → Result Text Text
  pub to_base64 : Text → Text
  pub from_base64 : Text → Text
  pub sha256_hex : Text → Text
  pub submit_txs : Bool
  pub sign : Receipt → Result Text Text
  pub record_delivery : Receipt → Text → Result Text Text

pub data Effect : Type 0 where
  save : DeliveryRecord → Effect
  signs : Receipt → Effect
  submits : Receipt → Text → Effect
  append_log : Text → Text → Text → Effect

pub record Handled : Type 0 where
  pub result : Result Text (Option DeliveryRecord)
  pub effects : List Effect

abbrev pub delivery_key : Text → Text
delivery_key id = codes "p" ++ id

-- The store after a list of effects.
unfoldable pub perform : Dict DeliveryRecord → List Effect → Dict DeliveryRecord
perform store [] = store
perform store (save r ∷ es) = perform (insert (delivery_key r.purchase_id) r store) es
perform store (signs m ∷ es) = perform store es
perform store (submits m s ∷ es) = perform store es
perform store (append_log p t w ∷ es) = perform store es

abbrev pub receipt_of : DeliveryRecord → Receipt
receipt_of r = record {
  purchase_id = r.purchase_id;
  buyer_enc_pub_key = r.buyer_enc_pub_key;
  ciphertext_hash = r.ciphertext_hash;
  wrapped_key_hash = r.wrapped_key_hash;
  wrapper_hash = r.wrapper_hash;
}

abbrev pub before : List Effect → Handled → Handled
before es h = record { result = h.result; effects = es ++ h.effects }

abbrev pub marked : RelayIo → DeliveryRecord → DeliveryStatus → DeliveryRecord
marked io r s = record r { status = s; updated_at = io.time }

abbrev pub delivered_with : RelayIo → DeliveryRecord → Text → Text → DeliveryRecord
delivered_with io r signature tx = record r {
  signature = some signature;
  tx = some tx;
  status = delivered;
  error = none;
  updated_at = io.time;
}

abbrev pub failed_with : RelayIo → DeliveryRecord → Text → Text → DeliveryRecord
failed_with io r signature message = record r {
  signature = some signature;
  status = failed;
  error = some (take 500 message);
  updated_at = io.time;
}

-- The answer to the transaction, for a record and its signature.
abbrev pub after_submit : RelayIo → DeliveryRecord → Text → Result Text Text → Handled
after_submit io r signature (ok hash) = record {
  result = ok (some (delivered_with io r signature hash));
  effects =
      append_log r.purchase_id hash r.wrapper_hash ∷ save (delivered_with io r signature hash) ∷ [];
}
after_submit io r signature (err message) = record {
  result = err message;
  effects = save (failed_with io r signature message) ∷ [];
}

abbrev pub after_sign : RelayIo → DeliveryRecord → Result Text Text → Handled
after_sign io r (err message) = record { result = err message; effects = [] }
after_sign io r (ok signature) =
    before (submits (receipt_of r) signature ∷ [])
      (after_submit io r signature (io.record_delivery (receipt_of r) signature))

-- Signing and submitting the record, from `if (!ctx.cfg.submitTxs)` on.
unfoldable pub submit : RelayIo → DeliveryRecord → Handled
submit io r =
    if not io.submit_txs
    then record { result = ok (some r); effects = [] }
    else before (signs (receipt_of r) ∷ []) (after_sign io r (io.sign (receipt_of r)))

abbrev pub new_record : RelayIo → ℕ → Purchase → Version → Wrapper → Text → DeliveryRecord
new_record io id p v w blob = record {
  purchase_id = show id;
  version_id = show p.version_id;
  buyer = to_lower p.buyer;
  buyer_enc_pub_key = to_lower p.buyer_enc_pub_key;
  wrapper_json = w.json;
  wrapper_hash = w.wrapper_hash;
  wrapped_key = io.to_base64 blob;
  wrapped_key_hash = io.sha256_hex blob;
  ciphertext_hash = to_lower v.ciphertext_hash;
  bundle_hash = to_lower v.bundle_hash;
  ephemeral_secret_key = io.secret_key;
  nonce = io.random_nonce;
  signature = none;
  tx = none;
  status = prepared;
  error = none;
  created_at = io.time;
  updated_at = io.time;
}

abbrev pub gives_up : Option DeliveryRecord → Handled
gives_up rec = record { result = ok rec; effects = [] }

abbrev pub raises : Text → Handled
raises message = record { result = err message; effects = [] }

abbrev pub prepare_new : RelayIo → ℕ → Purchase → Version → Wrapper → Result Text Text → Handled
prepare_new io id p v w (err message) = gives_up none
prepare_new io id p v w (ok blob) =
    before (save (new_record io id p v w blob) ∷ []) (submit io (new_record io id p v w blob))

-- A record is reused; without one a new one is prepared.
abbrev pub prepare : RelayIo → ℕ → Purchase → Version → Text → Option DeliveryRecord → Handled
prepare io id p v bundle_key (some r) = submit io r
prepare io id p v bundle_key none =
    let w = io.build_wrapper id p v in
    prepare_new io id p v w
      (io.wrap_key bundle_key p.buyer_enc_pub_key w.wrapper_hash io.secret_key io.random_nonce)

abbrev pub with_upload :
    RelayIo → ℕ → Purchase → Version → Option Text → Option DeliveryRecord → Handled
with_upload io id p v none rec = gives_up none
with_upload io id p v (some bundle_key) rec =
    if not (io.has_blob v.ciphertext_hash) then gives_up none else prepare io id p v bundle_key rec

abbrev pub with_version :
    RelayIo → ℕ → Purchase → Result Text (Option Version) → Option DeliveryRecord → Handled
with_version io id p (err message) rec = raises message
with_version io id p (ok none) rec =
    raises (codes "version " ++ show p.version_id ++ codes " missing")
with_version io id p (ok (some v)) rec =
    with_upload io id p v (io.load_upload v.ciphertext_hash) rec

abbrev pub past_deadline : RelayIo → Option DeliveryRecord → Handled
past_deadline io none = gives_up none
past_deadline io (some r) = record {
  result = ok (some (marked io r expired));
  effects = save (marked io r expired) ∷ [];
}

abbrev pub is_recorded : Purchase → DeliveryRecord → Bool
is_recorded p r =
    not (is_refunded p.state)
    && text_eq (to_lower p.wrapper_hash) r.wrapper_hash
    && not (is_delivered r.status)

abbrev pub not_funded : RelayIo → Purchase → Option DeliveryRecord → Handled
not_funded io p none = gives_up none
not_funded io p (some r) =
    if is_recorded p r
    then record {
      result = ok (some (marked io r delivered));
      effects = save (marked io r delivered) ∷ [];
    }
    else gives_up (some r)

abbrev pub is_funded : PurchaseState → Bool
is_funded funded = true
is_funded _ = false

abbrev pub with_purchase :
    RelayIo → ℕ → Result Text (Option Purchase) → Option DeliveryRecord → Handled
with_purchase io id (err message) rec = raises message
with_purchase io id (ok none) rec = gives_up none
with_purchase io id (ok (some p)) rec =
    if not (is_funded p.state)
    then not_funded io p rec
    else if ltb p.delivery_deadline io.now
    then past_deadline io rec
    else with_version io id p (io.get_version p.version_id) rec

abbrev pub get_delivery_record : Dict DeliveryRecord → ℕ → Option DeliveryRecord
get_delivery_record store id = lookup (delivery_key (show id)) store

unfoldable pub handle_purchased : RelayIo → Dict DeliveryRecord → ℕ → Handled
handle_purchased io store id =
    with_purchase io id (io.get_purchase id) (get_delivery_record store id)

-- What `serveDelivery` throws: the status of its `HttpError`, or another error's message.
pub data ServeError : Type 0 where
  no_delivery : ServeError
  not_delivered : ServeError
  other_wrapper : ServeError
  corrupted : ServeError
  chain_error : Text → ServeError

-- The fields of the answer that come from the record and the chain.
pub record Served : Type 0 where
  pub rec : DeliveryRecord
  pub challenge_deadline : Text

abbrev pub serve_purchase :
    RelayIo → DeliveryRecord → Result Text (Option Purchase) → Result ServeError Served
serve_purchase io r (err message) = err (chain_error message)
serve_purchase io r (ok none) = err not_delivered
serve_purchase io r (ok (some p)) = do
  raise_if (not (is_after_delivery p.state) || p.delivered_at == 0) not_delivered
  raise_if
      (not (text_eq (to_lower p.wrapper_hash) r.wrapper_hash)
        || not (text_eq (to_lower p.wrapped_key_hash) r.wrapped_key_hash))
      other_wrapper
  raise_if (not (text_eq (io.sha256_hex (io.from_base64 r.wrapped_key)) r.wrapped_key_hash))
      corrupted
  ok (record { rec = r; challenge_deadline = show p.challenge_deadline })

abbrev pub serve_record : RelayIo → ℕ → Option DeliveryRecord → Result ServeError Served
serve_record io id none = err no_delivery
serve_record io id (some r) = serve_purchase io r (io.get_purchase id)

unfoldable pub serve_delivery : RelayIo → Dict DeliveryRecord → ℕ → Result ServeError Served
serve_delivery io store id = serve_record io id (get_delivery_record store id)
