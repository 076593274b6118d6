-- ===== src/Delivery/Opened.antt =====
-- The checks of a delivery up to its decryption.
use bab_takehome.Base.{
  ◌≡◌, refl, ap, subst, Bool, true, false, ◌&&◌, Option, none, some, arith, Text, codes,
  text_eq_iff, to_lower, ok, >>=-eq-ok, ok-injective,
}
use bab_takehome.Tar.Entries.{Bytes}
use bab_takehome.Delivery.Inputs.{DeliveryInputs, Wrapper, DeliveryIo, same_hex, must, try_get}
use bab_takehome.Delivery.Checks.{
  is_delivered_state, event_agrees, check_purchase, binds, check_wrapper, open_bundle,
}

pub must-true : (name : Text) (cond : Bool) (u : Unit {0}) → must name cond ≡ ok u → cond ≡ true
must-true name true u h = refl
must-true name false u h = absurd (ground arith)

pub try_get-some :
    {A : Type 0} (name : Text) (o : Option A) (a : A) → try_get name o ≡ ok a → o ≡ some a
try_get-some name none a h = absurd (ground arith)
try_get-some name (some b) a h = ap some (ok-injective b a h)

pub same_hex-eq : (a b : Text) → same_hex a b ≡ true → to_lower a ≡ to_lower b
same_hex-eq a b h = (text_eq_iff (to_lower a) (to_lower b)).0 h

-- The chain's purchase is a delivered one of this buyer and this version.
abbrev pub IsPurchased : DeliveryIo → DeliveryInputs → Type 0
IsPurchased io i =
    (is_delivered_state i.purchase.state ≡ true)
    × (to_lower i.purchase.buyer ≡ to_lower i.buyer)
    × (to_lower i.purchase.buyer_enc_pub_key ≡ to_lower (io.x25519_public_key i.buyer_enc_sk))
    × (event_agrees i.delivered_event i.purchase.hashes ≡ true)
    × (to_lower i.purchase.hashes.ciphertext_hash ≡ to_lower i.version.ciphertext_hash)

pub check_purchase-IsPurchased :
    (io : DeliveryIo) (i : DeliveryInputs) (u : Unit {0})
    → check_purchase io i ≡ ok u
    → IsPurchased io i
unfolding check_purchase
check_purchase-IsPurchased io i u h =
    let (_, (a, h)) = >>=-eq-ok (must (codes "purchase.state") _) _ h in
    let (_, (b, h)) = >>=-eq-ok (must (codes "purchase.buyer") _) _ h in
    let (_, (c, h)) = >>=-eq-ok (must (codes "buyerEncPubKey") _) _ h in
    let (_, (d, h)) = >>=-eq-ok (must (codes "delivered.event") _) _ h in
    (
      must-true _ _ _ a,
      same_hex-eq _ _ (must-true _ _ _ b),
      same_hex-eq _ _ (must-true _ _ _ c),
      must-true _ _ _ d,
      same_hex-eq _ _ (must-true _ _ _ h),
    )

-- The wrapper's text has the hash on the chain, and its fields are those of the purchase.
abbrev pub IsBound : DeliveryIo → DeliveryInputs → Type 0
IsBound io i =
    (w : Wrapper) × (to_lower (io.sha256_text i.wrapper_json)
      ≡ to_lower i.purchase.hashes.wrapper_hash)
    × (io.parse_wrapper i.wrapper_json ≡ some w)
    × (binds i w ≡ true)

pub check_wrapper-IsBound :
    (io : DeliveryIo) (i : DeliveryInputs) (w : Wrapper) → check_wrapper io i ≡ ok w → IsBound io i
unfolding check_wrapper
check_wrapper-IsBound io i w h =
    let (_, (a, h)) = >>=-eq-ok (must (codes "wrapperHash") _) _ h in
    let (v, (b, h)) = >>=-eq-ok (try_get (codes "wrapper.schema") _) _ h in
    let (_, (c, h)) = >>=-eq-ok (must (codes "wrapper.binding") _) _ h in
    (v, same_hex-eq _ _ (must-true _ _ _ a), try_get-some _ _ v b, must-true _ _ _ c)

-- The bundle is the decrypted ciphertext of the version, under the key that was wrapped for this
-- buyer, and has the version's hash.
abbrev pub IsOpened : DeliveryIo → DeliveryInputs → Bytes → Bytes → Type 0
IsOpened io i key bundle =
    (to_lower (io.sha256_hex i.wrapped_key) ≡ to_lower i.purchase.hashes.wrapped_key_hash)
    × (to_lower (io.sha256_hex i.ciphertext) ≡ to_lower i.version.ciphertext_hash)
    × (io.unwrap_key i.wrapped_key i.buyer_enc_sk i.purchase.hashes.wrapper_hash ≡ some key)
    × (io.decrypt_file key i.ciphertext ≡ some bundle)
    × (to_lower (io.sha256_hex bundle) ≡ to_lower i.version.bundle_hash)

pub open_bundle-IsOpened :
    (io : DeliveryIo) (i : DeliveryInputs) (key bundle : Bytes)
    → open_bundle io i ≡ ok (key, bundle)
    → IsOpened io i key bundle
unfolding open_bundle
open_bundle-IsOpened io i key bundle h =
    let (_, (a, h)) = >>=-eq-ok (must (codes "wrappedKeyHash") _) _ h in
    let (_, (b, h)) = >>=-eq-ok (must (codes "ciphertextHash") _) _ h in
    let (k, (c, h)) = >>=-eq-ok (try_get (codes "unwrapKey") _) _ h in
    let (t, (d, h)) = >>=-eq-ok (try_get (codes "decrypt") _) _ h in
    let (_, (e, h)) = >>=-eq-ok (must (codes "bundleHash") _) _ h in
    subst (λ (p : Bytes × Bytes). IsOpened io i (p.0) (p.1)) (ok-injective _ (key, bundle) h)
      (
        same_hex-eq _ _ (must-true _ _ _ a),
        same_hex-eq _ _ (must-true _ _ _ b),
        try_get-some _ _ k c,
        try_get-some _ _ t d,
        same_hex-eq _ _ (must-true _ _ _ e),
      )

pub and-right : (a b : Bool) → (a && b) ≡ true → b ≡ true
and-right true b h = h
and-right false b h = absurd (ground arith)
