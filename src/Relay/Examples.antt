-- ===== src/Relay/Examples.antt =====
-- A delivery at concrete inputs, with cryptography that only labels its arguments.
use bab_takehome.Base.{
  ℕ, ◌≡◌, refl, true, none, some, List, [], ◌∷◌, ◌++◌, arith, Some, inl, inr, Text, codes, text_eq,
  to_lower, show, show_fuel, Dict, lookup, insert, Result, ok, err,
}
use bab_takehome.Relay.{
  DeliveryRecord, Purchase, Version, RelayIo, PurchaseState, funded, settled, delivered, failed,
  handle_purchased, submit, perform, get_delivery_record, serve_delivery, Served,
}
use bab_takehome.Relay.Effects.{IsDue}
use bab_takehome.Relay.Order.{
  IsKeyed, PersistedFirst, IsSent, handle_purchased-PersistedFirst, handle_purchased-IsDue,
}
use bab_takehome.Relay.Frozen.{
  Call, SameContents, after, history, history-SameContents, insert-IsKeyed,
}
use bab_takehome.Relay.Serve.{CanServe, serve_delivery-CanServe}

abbrev bought : PurchaseState → Purchase
bought s = record {
  state = s;
  buyer = codes "0xB";
  buyer_enc_pub_key = codes "0xE";
  version_id = 4;
  delivery_deadline = 100;
  delivered_at = 60;
  challenge_deadline = 500;
  wrapper_hash = codes "0xW";
  wrapped_key_hash = codes "hkey";
}

abbrev fourth : Version
fourth = record { bundle_hash = codes "0xBB"; ciphertext_hash = codes "0xCC" }

abbrev world : PurchaseState → ℕ → Result Text Text → RelayIo
world s now tx = record {
  get_purchase = λ id. ok (some (bought s));
  get_version = λ id. ok (some fourth);
  now = now;
  time = codes "t";
  load_upload = λ h. some (codes "k");
  has_blob = λ h. true;
  build_wrapper = λ id p v. record { json = codes "{}"; wrapper_hash = codes "0xw" };
  secret_key = codes "s";
  random_nonce = codes "n";
  wrap_key = λ k to w s n. ok (codes "key");
  to_base64 = λ b. b;
  from_base64 = λ b. b;
  sha256_hex = λ b. codes "h" ++ b;
  submit_txs = true;
  sign = λ m. ok (codes "sig");
  record_delivery = λ m g. tx;
}

abbrev refused : RelayIo
refused = world funded 50 (err (codes "reverted"))

abbrev sent : RelayIo
sent = world funded 60 (ok (codes "0xT"))

abbrev over : RelayIo
over = world settled 900 (err (codes "reverted"))

abbrev failed_record : DeliveryRecord
failed_record = record {
  purchase_id = codes "7";
  version_id = codes "4";
  buyer = codes "0xb";
  buyer_enc_pub_key = codes "0xe";
  wrapper_json = codes "{}";
  wrapper_hash = codes "0xw";
  wrapped_key = codes "key";
  wrapped_key_hash = codes "hkey";
  ciphertext_hash = codes "0xcc";
  bundle_hash = codes "0xbb";
  ephemeral_secret_key = codes "s";
  nonce = codes "n";
  signature = some (codes "sig");
  tx = none;
  status = failed;
  error = some (codes "reverted");
  created_at = codes "t";
  updated_at = codes "t";
}

abbrev after_refusal : Dict DeliveryRecord
after_refusal = (codes "p7", failed_record) ∷ []

-- A transaction that reverts leaves a failed record, and the next call submits the same record.
relay_tests :
    (perform [] (handle_purchased refused [] 7).effects ≡ after_refusal)
    × (get_delivery_record (after sent after_refusal 7) 7
        ≡ some (record failed_record { status = delivered; tx = some (codes "0xT"); error = none }))
    × ((handle_purchased (world funded 101 (ok (codes "0xT"))) [] 7).effects ≡ [])
unfolding handle_purchased submit perform after show show_fuel to_lower lookup insert text_eq
relay_tests = (refl, refl, refl)

nothing-IsKeyed : IsKeyed []
unfolding lookup
nothing-IsKeyed id r e = absurd (ground arith)

after_refusal-IsKeyed : IsKeyed after_refusal
unfolding insert
after_refusal-IsKeyed = insert-IsKeyed failed_record [] nothing-IsKeyed

found : get_delivery_record after_refusal 7 ≡ some failed_record
unfolding show show_fuel lookup text_eq
found = refl

handle_purchased-PersistedFirst_example : PersistedFirst [] (handle_purchased refused [] 7).effects
handle_purchased-PersistedFirst_example =
    handle_purchased-PersistedFirst refused [] 7 nothing-IsKeyed

signed : Some IsSent (handle_purchased refused [] 7).effects
unfolding handle_purchased submit lookup
signed = inr (inl tt)

handle_purchased-IsDue_example : IsDue refused 7
handle_purchased-IsDue_example = handle_purchased-IsDue refused [] 7 signed

abbrev calls : List Call
calls = (refused, 7) ∷ (sent, 8) ∷ (sent, 7) ∷ (over, 7) ∷ []

history-SameContents_example :
    (s : DeliveryRecord) × (get_delivery_record (history after_refusal calls) 7 ≡ some s)
    × SameContents failed_record s
history-SameContents_example =
    history-SameContents calls after_refusal 7 failed_record after_refusal-IsKeyed found

abbrev answer : Served
answer = record { rec = failed_record; challenge_deadline = codes "500" }

served : serve_delivery over after_refusal 7 ≡ ok answer
unfolding serve_delivery show show_fuel to_lower lookup text_eq
served = refl

serve_delivery-CanServe_example :
    (r : DeliveryRecord) × (get_delivery_record after_refusal 7 ≡ some r)
    × ((p : Purchase) × (over.get_purchase 7 ≡ ok (some p)) × CanServe over r p × (answer.rec ≡ r))
serve_delivery-CanServe_example = serve_delivery-CanServe over after_refusal 7 answer served
