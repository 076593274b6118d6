-- ===== src/Relay/Effects.antt =====
-- The ways through `handlePurchased`, and the order of its effects.
use bab_takehome.Base.{
  ℕ, ◌≤◌, ◌≡◌, refl, inl, inr, true, Option, none, some, [], ◌∷◌, arith, ltb, Bool-cases, Text,
  Dict, Result, ok, err,
}
use bab_takehome.Relay.{
  DeliveryStatus, delivered, expired, DeliveryRecord, Purchase, Version, Wrapper, RelayIo,
  PurchaseState, no_purchase, funded, delivered_on_chain, disputed, refunded, settled, is_funded,
  save, Handled, before, marked, submit, new_record, prepare_new, prepare, with_upload,
  with_version, past_deadline, is_recorded, not_funded, with_purchase, get_delivery_record,
  handle_purchased,
}

-- The purchase is funded on the chain, and its delivery deadline has not passed.
abbrev pub IsDue : RelayIo → ℕ → Type 0
IsDue io id =
    (p : Purchase) × (io.get_purchase id ≡ ok (some p))
    × (p.state ≡ funded)
    × (io.now ≤ p.delivery_deadline)

is_funded-eq : (s : PurchaseState) → is_funded s ≡ true → s ≡ funded
is_funded-eq funded h = refl
is_funded-eq no_purchase h = absurd (ground arith)
is_funded-eq delivered_on_chain h = absurd (ground arith)
is_funded-eq disputed h = absurd (ground arith)
is_funded-eq refunded h = absurd (ground arith)
is_funded-eq settled h = absurd (ground arith)

-- What holds of a call that does nothing, of one that marks the record of the purchase, of one that
-- submits it, and of one that prepares and submits a new record, holds of every call.
module _ (io : RelayIo) (store : Dict DeliveryRecord) (id : ℕ) (P : Handled → Type 0)
    (idle : (r : Result Text (Option DeliveryRecord)) → P (record { result = r; effects = [] }))
    (marks : (r : DeliveryRecord) (s : DeliveryStatus)
      → get_delivery_record store id ≡ some r
      → P (record { result = ok (some (marked io r s)); effects = save (marked io r s) ∷ [] }))
    (old : (r : DeliveryRecord)
      → IsDue io id
      → get_delivery_record store id ≡ some r
      → P (submit io r))
    (new : (p : Purchase) (v : Version) (w : Wrapper) (blob : Text)
      → IsDue io id
      → get_delivery_record store id ≡ none
      → P (
          before
            (save (new_record io id p v w blob) ∷ [])
            (submit io (new_record io id p v w blob)))) where
  from_wrap :
      (p : Purchase) (v : Version) (w : Wrapper) (b : Result Text Text)
      → IsDue io id
      → get_delivery_record store id ≡ none
      → P (prepare_new io id p v w b)
  from_wrap p v w (ok blob) due e = new p v w blob due e
  from_wrap p v w (err message) due e = idle _

  from_upload :
      (p : Purchase) (v : Version) (u : Option Text) (rec : Option DeliveryRecord)
      → IsDue io id
      → get_delivery_record store id ≡ rec
      → P (with_upload io id p v u rec)
  from_upload p v none rec due e = idle _
  from_upload p v (some k) rec due e = elim (Bool-cases (io.has_blob v.ciphertext_hash)) [
    | inl h ↦ rw h (from_record rec e)
    | inr h ↦ rw h (idle _)
  ]
    where
      from_record :
          (rec : Option DeliveryRecord)
          → get_delivery_record store id ≡ rec
          → P (prepare io id p v k rec)
      from_record none e = from_wrap p v (io.build_wrapper id p v) _ due e
      from_record (some r) e = old r due e

  from_version :
      (p : Purchase) (v : Result Text (Option Version)) (rec : Option DeliveryRecord)
      → IsDue io id
      → get_delivery_record store id ≡ rec
      → P (with_version io id p v rec)
  from_version p (err message) rec due e = idle _
  from_version p (ok none) rec due e = idle _
  from_version p (ok (some v)) rec due e =
      from_upload p v (io.load_upload v.ciphertext_hash) rec due e

  from_deadline :
      (rec : Option DeliveryRecord) → get_delivery_record store id ≡ rec → P (past_deadline io rec)
  from_deadline none e = idle _
  from_deadline (some r) e = marks r expired e

  from_not_funded :
      (p : Purchase) (rec : Option DeliveryRecord)
      → get_delivery_record store id ≡ rec
      → P (not_funded io p rec)
  from_not_funded p none e = idle _
  from_not_funded p (some r) e = elim (Bool-cases (is_recorded p r)) [
    | inl h ↦ rw h (marks r delivered e)
    | inr h ↦ rw h (idle _)
  ]

  from_purchase :
      (q : Result Text (Option Purchase)) (rec : Option DeliveryRecord)
      → io.get_purchase id ≡ q
      → get_delivery_record store id ≡ rec
      → P (with_purchase io id q rec)
  from_purchase (err message) rec h e = idle _
  from_purchase (ok none) rec h e = idle _
  from_purchase (ok (some p)) rec h e = elim (Bool-cases (is_funded p.state)) [
    | inr other ↦ rw other (from_not_funded p rec e)
    | inl open_now ↦ elim (Bool-cases (ltb p.delivery_deadline io.now)) [
      | inl late ↦ rw (open_now, late) (from_deadline rec e)
      | inr early ↦
          rw (open_now, early)
            (from_version p (io.get_version p.version_id) rec
              (p, h, is_funded-eq p.state open_now, ground arith) e)
    ]
  ]

  pub handle_purchased-cases : P (handle_purchased io store id)
  unfolding handle_purchased
  handle_purchased-cases = from_purchase _ _ refl refl
