-- ===== src/Relay/Order.antt =====
-- The order of the effects of `handlePurchased`, and when it signs or submits.
use bab_takehome.Base.{
  ℕ, ◌≡◌, refl, sym, subst, inl, inr, some, List, [], ◌∷◌, Some, Bool-cases, Text, show, Dict,
  lookup, insert, lookup-insert_self, Result, ok, err,
}
use bab_takehome.Relay.{
  DeliveryRecord, Receipt, RelayIo, Effect, save, signs, submits, append_log, delivery_key,
  receipt_of, after_submit, after_sign, submit, new_record, get_delivery_record, handle_purchased,
}
use bab_takehome.Relay.Effects.{IsDue, handle_purchased-cases}

-- A stored record has the fields of the receipt.
abbrev pub IsBacked : Dict DeliveryRecord → Receipt → Type 0
IsBacked store m =
    (r : DeliveryRecord) × (lookup (delivery_key m.purchase_id) store ≡ some r) × (receipt_of r ≡ m)

-- Whatever is signed or submitted is backed by a record that is in the store at that time.
abbrev pub PersistedFirst : Dict DeliveryRecord → List Effect → Type 0
PersistedFirst store [] = Unit
PersistedFirst store (save r ∷ es) = PersistedFirst (insert (delivery_key r.purchase_id) r store) es
PersistedFirst store (signs m ∷ es) = IsBacked store m × PersistedFirst store es
PersistedFirst store (submits m s ∷ es) = IsBacked store m × PersistedFirst store es
PersistedFirst store (append_log p t w ∷ es) = PersistedFirst store es

-- Each record stands under the id of its purchase.
abbrev pub IsKeyed : Dict DeliveryRecord → Type 0
IsKeyed store =
    (id : ℕ) (r : DeliveryRecord) → get_delivery_record store id ≡ some r → r.purchase_id ≡ show id

module _ (io : RelayIo) (store : Dict DeliveryRecord) (r : DeliveryRecord)
    (stored : lookup (delivery_key r.purchase_id) store ≡ some r) where
  after_submit-PersistedFirst :
      (signature : Text) (res : Result Text Text)
      → PersistedFirst store (after_submit io r signature res).effects
  after_submit-PersistedFirst signature (ok hash) = tt
  after_submit-PersistedFirst signature (err message) = tt

  after_sign-PersistedFirst :
      (res : Result Text Text) → PersistedFirst store (after_sign io r res).effects
  after_sign-PersistedFirst (err message) = tt
  after_sign-PersistedFirst (ok signature) =
      ((r, stored, refl), after_submit-PersistedFirst signature _)

  submit-PersistedFirst : PersistedFirst store (submit io r).effects
  unfolding submit
  submit-PersistedFirst = elim (Bool-cases io.submit_txs) [
    | inl on ↦ rw on ((r, stored, refl), after_sign-PersistedFirst _)
    | inr off ↦ rw off tt
  ]

-- In a call of `handlePurchased` on a store that keeps each record under its own purchase's id,
-- every receipt that is signed and every delivery that is submitted has, at that moment, a stored
-- record with the same purchase, key, ciphertext and hashes: the record is persisted before any
-- signature is made.
pub handle_purchased-PersistedFirst :
    (io : RelayIo) (store : Dict DeliveryRecord) (id : ℕ)
    → IsKeyed store
    → PersistedFirst store (handle_purchased io store id).effects
handle_purchased-PersistedFirst io store id keyed =
    handle_purchased-cases io store id (λ h. PersistedFirst store h.effects) (λ r. tt) (λ r s e. tt)
      (λ r due e.
        submit-PersistedFirst io store r
          (subst (λ (k : Text). lookup (delivery_key k) store ≡ some r) (sym (keyed id r e)) e))
      (λ p v w blob due e.
        submit-PersistedFirst io _ (new_record io id p v w blob) (lookup-insert_self _ _ store))

abbrev pub IsSent : Effect → Type 0
IsSent (save r) = ⊥
IsSent (signs m) = Unit
IsSent (submits m s) = Unit
IsSent (append_log p t w) = ⊥

-- `handlePurchased` signs or submits nothing unless the chain says that the purchase is funded and
-- its delivery deadline has not passed.
pub handle_purchased-IsDue :
    (io : RelayIo) (store : Dict DeliveryRecord) (id : ℕ)
    → Some IsSent (handle_purchased io store id).effects
    → IsDue io id
handle_purchased-IsDue io store id =
    handle_purchased-cases io store id (λ h. Some IsSent h.effects → IsDue io id) (λ r h. absurd h)
      (λ r s e h. elim h [ inl n ↦ absurd n | inr n ↦ absurd n ]) (λ r due e h. due)
      (λ p v w blob due e h. due)
