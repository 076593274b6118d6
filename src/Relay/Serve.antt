-- ===== src/Relay/Serve.antt =====
-- When a delivery is served.
use bab_takehome.Base.{
  ℕ, ◌≡◌, ◌≢◌, refl, sym, ap, true, false, ◌||◌, not, Option, none, some, arith, ◌==◌, Text,
  text_eq, text_eq_iff, text_eq_refl, to_lower, show, Dict, Result, ok, err, raise_if,
  raise_if-eq-ok, >>=-eq-ok, ok-injective,
}
use bab_takehome.Relay.{
  DeliveryRecord, Purchase, RelayIo, is_after_delivery, get_delivery_record, Served, not_delivered,
  other_wrapper, corrupted, serve_purchase, serve_record, serve_delivery,
}

-- The chain says that the purchase was delivered with the wrapper and the wrapped key of the
-- record, and the stored key has the hash that the record says.
abbrev pub CanServe : RelayIo → DeliveryRecord → Purchase → Type 0
CanServe io r p =
    (is_after_delivery p.state ≡ true)
    × (p.delivered_at ≢ 0)
    × (to_lower p.wrapper_hash ≡ r.wrapper_hash)
    × (to_lower p.wrapped_key_hash ≡ r.wrapped_key_hash)
    × (io.sha256_hex (io.from_base64 r.wrapped_key) ≡ r.wrapped_key_hash)

serve_purchase-CanServe :
    (io : RelayIo) (r : DeliveryRecord) (q : Result Text (Option Purchase)) (a : Served)
    → serve_purchase io r q ≡ ok a
    → (p : Purchase) × (q ≡ ok (some p)) × CanServe io r p × (a.rec ≡ r)
serve_purchase-CanServe io r (err message) a h = absurd (ground arith)
serve_purchase-CanServe io r (ok none) a h = absurd (ground arith)
serve_purchase-CanServe io r (ok (some p)) a h =
    let (_, (b, h)) =
      >>=-eq-ok (raise_if (not (is_after_delivery p.state) || p.delivered_at == 0) not_delivered) _
        h in
    let (_, (c, h)) =
      >>=-eq-ok
        (raise_if
          (not (text_eq (to_lower p.wrapper_hash) r.wrapper_hash)
            || not (text_eq (to_lower p.wrapped_key_hash) r.wrapped_key_hash))
          other_wrapper)
        _ h in
    let (_, (d, h)) =
      >>=-eq-ok
        (raise_if (not (text_eq (io.sha256_hex (io.from_base64 r.wrapped_key)) r.wrapped_key_hash))
          corrupted)
        _ h in
    let state = raise_if-eq-ok _ _ b in
    let hashes = raise_if-eq-ok _ _ c in
    let key = raise_if-eq-ok _ _ d in
    (
      p,
      refl,
      (
        ground (arith, state),
        (λ z. absurd (ground (arith, state, z))),
        (text_eq_iff _ _).0 (ground (arith, hashes)),
        (text_eq_iff _ _).0 (ground (arith, hashes)),
        (text_eq_iff _ _).0 (ground (arith, key)),
      ),
      sym (ap Served.rec (ok-injective _ a h)),
    )

serve_record-CanServe :
    (io : RelayIo) (id : ℕ) (rec : Option DeliveryRecord) (a : Served)
    → serve_record io id rec ≡ ok a
    → (r : DeliveryRecord) × (rec ≡ some r)
      × ((p : Purchase) × (io.get_purchase id ≡ ok (some p)) × CanServe io r p × (a.rec ≡ r))
serve_record-CanServe io id none a h = absurd (ground arith)
serve_record-CanServe io id (some r) a h = (r, refl, serve_purchase-CanServe io r _ a h)

-- Whenever `serveDelivery` answers, it answers with the stored record of the purchase, and the chain
-- says that the purchase was delivered, is disputed or is settled, with a delivery time, with
-- exactly the wrapper hash and the wrapped key hash of that record, whose stored key has that hash.
pub serve_delivery-CanServe :
    (io : RelayIo) (store : Dict DeliveryRecord) (id : ℕ) (a : Served)
    → serve_delivery io store id ≡ ok a
    → (r : DeliveryRecord) × (get_delivery_record store id ≡ some r)
      × ((p : Purchase) × (io.get_purchase id ≡ ok (some p)) × CanServe io r p × (a.rec ≡ r))
unfolding serve_delivery
serve_delivery-CanServe io store id a h =
    serve_record-CanServe io id (get_delivery_record store id) a h

-- And it does answer, with that record, whenever those conditions hold.
pub CanServe-serve_delivery :
    (io : RelayIo) (store : Dict DeliveryRecord) (id : ℕ) (r : DeliveryRecord) (p : Purchase)
    → get_delivery_record store id ≡ some r
    → io.get_purchase id ≡ ok (some p)
    → CanServe io r p
    → serve_delivery io store id
      ≡ ok (record { rec = r; challenge_deadline = show p.challenge_deadline })
unfolding serve_delivery
CanServe-serve_delivery io store id r p e f (state, time, wrapper, key, stored) =
    let not_zero : (p.delivered_at == 0) ≡ false = ground arith in
    rw
      (
        e,
        f,
        state,
        not_zero,
        wrapper,
        key,
        stored,
        text_eq_refl r.wrapper_hash,
        text_eq_refl r.wrapped_key_hash,
      )
      refl
