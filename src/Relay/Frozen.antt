-- ===== src/Relay/Frozen.antt =====
-- Delivery records over sequences of calls of `handlePurchased`.
use bab_takehome.Base.{
  ℕ, ◌≡◌, ◌≢◌, refl, sym, ap, subst, ◌∙◌, inl, inr, some, List, [], ◌∷◌, Bool-cases, ◌==◌,
  some-injective, Text, text_eq, text_eq_iff, show, show-injective, Dict, lookup, insert,
  lookup-insert, lookup-insert_self, lookup-insert_ne, Result, ok, err, arith,
}
use bab_takehome.Relay.{
  DeliveryRecord, RelayIo, Effect, save, signs, submits, append_log, delivery_key, perform, marked,
  after_submit, after_sign, submit, new_record, get_delivery_record, handle_purchased,
}
use bab_takehome.Relay.Effects.{handle_purchased-cases}
use bab_takehome.Relay.Order.{IsKeyed}

-- What the buyer is given, and what it takes to derive it again.
pub record Contents : Type 0 where
  pub purchase_id : Text
  pub version_id : Text
  pub buyer : Text
  pub buyer_enc_pub_key : Text
  pub wrapper_json : Text
  pub wrapper_hash : Text
  pub wrapped_key : Text
  pub wrapped_key_hash : Text
  pub ciphertext_hash : Text
  pub bundle_hash : Text
  pub ephemeral_secret_key : Text
  pub nonce : Text
  pub created_at : Text

abbrev pub contents : DeliveryRecord → Contents
contents r = record {
  purchase_id = r.purchase_id;
  version_id = r.version_id;
  buyer = r.buyer;
  buyer_enc_pub_key = r.buyer_enc_pub_key;
  wrapper_json = r.wrapper_json;
  wrapper_hash = r.wrapper_hash;
  wrapped_key = r.wrapped_key;
  wrapped_key_hash = r.wrapped_key_hash;
  ciphertext_hash = r.ciphertext_hash;
  bundle_hash = r.bundle_hash;
  ephemeral_secret_key = r.ephemeral_secret_key;
  nonce = r.nonce;
  created_at = r.created_at;
}

abbrev pub SameContents : DeliveryRecord → DeliveryRecord → Type 0
SameContents r s = contents s ≡ contents r

-- Every record that the effects store has the contents of this one.
abbrev pub SavesOnly : DeliveryRecord → List Effect → Type 0
SavesOnly r [] = Unit
SavesOnly r (save s ∷ es) = SameContents r s × SavesOnly r es
SavesOnly r (signs m ∷ es) = SavesOnly r es
SavesOnly r (submits m s ∷ es) = SavesOnly r es
SavesOnly r (append_log p t w ∷ es) = SavesOnly r es

after_submit-SavesOnly :
    (io : RelayIo) (r : DeliveryRecord) (signature : Text) (res : Result Text Text)
    → SavesOnly r (after_submit io r signature res).effects
after_submit-SavesOnly io r signature (ok hash) = (refl, tt)
after_submit-SavesOnly io r signature (err message) = (refl, tt)

after_sign-SavesOnly :
    (io : RelayIo) (r : DeliveryRecord) (res : Result Text Text)
    → SavesOnly r (after_sign io r res).effects
after_sign-SavesOnly io r (err message) = tt
after_sign-SavesOnly io r (ok signature) = after_submit-SavesOnly io r signature _

submit-SavesOnly : (io : RelayIo) (r : DeliveryRecord) → SavesOnly r (submit io r).effects
unfolding submit
submit-SavesOnly io r = elim (Bool-cases io.submit_txs) [
  | inl on ↦ rw on (after_sign-SavesOnly io r _)
  | inr off ↦ rw off tt
]

delivery_key-injective : (a b : Text) → delivery_key a ≡ delivery_key b → a ≡ b
delivery_key-injective a b h = cc

-- After saves with the contents of a record, its key holds those contents, and other keys hold what
-- they held.
perform-same :
    (r : DeliveryRecord) (store : Dict DeliveryRecord) (es : List Effect) (s : DeliveryRecord)
    → SavesOnly r es
    → lookup (delivery_key r.purchase_id) store ≡ some s
    → SameContents r s
    → (t : DeliveryRecord) × (lookup (delivery_key r.purchase_id) (perform store es) ≡ some t)
      × SameContents r t
unfolding perform
perform-same r store [] s h e c = (s, e, c)
perform-same r store (save u ∷ es) s (d, h) e c =
    perform-same r (insert (delivery_key u.purchase_id) u store) es u h
      (subst
        (λ (k : Text).
          lookup (delivery_key k) (insert (delivery_key u.purchase_id) u store) ≡ some u)
        (ap Contents.purchase_id d) (lookup-insert_self (delivery_key u.purchase_id) u store))
      d
perform-same r store (signs m ∷ es) s h e c = perform-same r store es s h e c
perform-same r store (submits m g ∷ es) s h e c = perform-same r store es s h e c
perform-same r store (append_log p t w ∷ es) s h e c = perform-same r store es s h e c

perform-other :
    (r : DeliveryRecord) (store : Dict DeliveryRecord) (es : List Effect) (k : Text)
    → SavesOnly r es
    → k ≢ r.purchase_id
    → lookup (delivery_key k) (perform store es) ≡ lookup (delivery_key k) store
unfolding perform
perform-other r store [] k h n = refl
perform-other r store (save u ∷ es) k (d, h) n =
    perform-other r (insert (delivery_key u.purchase_id) u store) es k h n
    ∙ lookup-insert_ne (delivery_key u.purchase_id) (delivery_key k) u store
        (λ e. n (sym (delivery_key-injective _ _ e) ∙ ap Contents.purchase_id d))
perform-other r store (signs m ∷ es) k h n = perform-other r store es k h n
perform-other r store (submits m g ∷ es) k h n = perform-other r store es k h n
perform-other r store (append_log p t w ∷ es) k h n = perform-other r store es k h n

pub insert-IsKeyed :
    (u : DeliveryRecord) (store : Dict DeliveryRecord)
    → IsKeyed store
    → IsKeyed (insert (delivery_key u.purchase_id) u store)
insert-IsKeyed u store keyed j v e =
    let found =
      sym (lookup-insert (delivery_key u.purchase_id) (delivery_key (show j)) u store) ∙ e in
    elim (Bool-cases (text_eq (delivery_key u.purchase_id) (delivery_key (show j)))) [
      | inl same ↦
          ap DeliveryRecord.purchase_id (sym (some-injective u v (rw same at found)))
          ∙ delivery_key-injective _ _ ((text_eq_iff _ _).0 same)
      | inr other ↦ keyed j v (rw other at found)
    ]

perform-IsKeyed :
    (store : Dict DeliveryRecord) (es : List Effect) → IsKeyed store → IsKeyed (perform store es)
unfolding perform
perform-IsKeyed store [] keyed = keyed
perform-IsKeyed store (save u ∷ es) keyed =
    perform-IsKeyed (insert (delivery_key u.purchase_id) u store) es (insert-IsKeyed u store keyed)
perform-IsKeyed store (signs m ∷ es) keyed = perform-IsKeyed store es keyed
perform-IsKeyed store (submits m g ∷ es) keyed = perform-IsKeyed store es keyed
perform-IsKeyed store (append_log p t w ∷ es) keyed = perform-IsKeyed store es keyed

unfoldable pub after : RelayIo → Dict DeliveryRecord → ℕ → Dict DeliveryRecord
after io store id = perform store (handle_purchased io store id).effects

module _ (io : RelayIo) (store : Dict DeliveryRecord) (id : ℕ) (keyed : IsKeyed store) where
  -- The record of the purchase keeps its contents.
  Kept : List Effect → Type 0
  Kept es =
      (s : DeliveryRecord)
      → get_delivery_record store id ≡ some s
      → (t : DeliveryRecord) × (get_delivery_record (perform store es) id ≡ some t)
        × SameContents s t

  SavesOnly-Kept :
      (r : DeliveryRecord) (es : List Effect)
      → get_delivery_record store id ≡ some r
      → SavesOnly r es
      → Kept es
  unfolding Kept
  SavesOnly-Kept r es e h s f =
      let same : r ≡ s = some-injective r s (sym e ∙ f) in
      let key : r.purchase_id ≡ show id = keyed id r e in
      let (t, found, c) =
        perform-same r store es r h
          (subst (λ (k : Text). lookup (delivery_key k) store ≡ some r) (sym key) e) refl in
      (
        t,
        subst (λ (k : Text). lookup (delivery_key k) (perform store es) ≡ some t) key found,
        subst (λ (u : DeliveryRecord). SameContents u t) same c,
      )

  handle_purchased-Kept : Kept (handle_purchased io store id).effects
  unfolding Kept perform
  handle_purchased-Kept =
      handle_purchased-cases io store id (λ h. Kept h.effects) (λ r s e. (s, e, refl))
        (λ r st e. SavesOnly-Kept r (save (marked io r st) ∷ []) e (refl, tt))
        (λ r due e. SavesOnly-Kept r (submit io r).effects e (submit-SavesOnly io r))
        (λ p v w blob due e s f. absurd (ground (arith, e, f)))

  -- The records of other purchases stay as they are.
  Untouched : List Effect → Type 0
  Untouched es =
      (j : ℕ) → j ≢ id → get_delivery_record (perform store es) j ≡ get_delivery_record store j

  SavesOnly-Untouched :
      (r : DeliveryRecord) (es : List Effect)
      → r.purchase_id ≡ show id
      → SavesOnly r es
      → Untouched es
  unfolding Untouched
  SavesOnly-Untouched r es key h j n =
      perform-other r store es (show j) h (λ e. n (show-injective j id (e ∙ key)))

  handle_purchased-Untouched : Untouched (handle_purchased io store id).effects
  unfolding Untouched perform
  handle_purchased-Untouched =
      handle_purchased-cases io store id (λ h. Untouched h.effects) (λ r j n. refl)
        (λ r st e. SavesOnly-Untouched r (save (marked io r st) ∷ []) (keyed id r e) (refl, tt))
        (λ r due e.
          SavesOnly-Untouched r (submit io r).effects (keyed id r e) (submit-SavesOnly io r))
        (λ p v w blob due e.
          let r = new_record io id p v w blob in
          SavesOnly-Untouched r (save r ∷ (submit io r).effects) refl (refl, submit-SavesOnly io r))

-- A call of `handlePurchased`: what the world answers during it, and the purchase.
abbrev pub Call : Type 0
Call = RelayIo × ℕ

unfoldable pub history : Dict DeliveryRecord → List Call → Dict DeliveryRecord
history store [] = store
history store ((io, id) ∷ calls) = history (after io store id) calls

step-Kept :
    (io : RelayIo) (store : Dict DeliveryRecord) (id j : ℕ) (s : DeliveryRecord)
    → IsKeyed store
    → get_delivery_record store j ≡ some s
    → (t : DeliveryRecord) × (get_delivery_record (after io store id) j ≡ some t) × SameContents s t
unfolding after Kept Untouched
step-Kept io store id j s keyed e = elim (Bool-cases (j == id)) [
  | inl same ↦
      let here : id ≡ j = ground arith in
      subst
        (λ (j : ℕ).
          get_delivery_record store j ≡ some s
          → (t : DeliveryRecord) × (get_delivery_record
                (perform store (handle_purchased io store id).effects) j
              ≡ some t)
            × SameContents s t)
        here (handle_purchased-Kept io store id keyed s) e
  | inr other ↦
      (s, handle_purchased-Untouched io store id keyed j (λ q. absurd (ground arith)) ∙ e, refl)
]

-- From a store that keeps each record under its own purchase's id, once a delivery record exists,
-- every sequence of calls of `handlePurchased`, whatever the chain and the clock answer and however
-- the transactions end, keeps it, with the same wrapper, wrapped key, hashes, ephemeral key and
-- nonce.
pub history-SameContents :
    (calls : List Call) (store : Dict DeliveryRecord) (id : ℕ) (r : DeliveryRecord)
    → IsKeyed store
    → get_delivery_record store id ≡ some r
    → (s : DeliveryRecord) × (get_delivery_record (history store calls) id ≡ some s)
      × SameContents r s
unfolding history
history-SameContents [] store id r keyed e = (r, e, refl)
history-SameContents ((io, j) ∷ calls) store id r keyed e =
    let (t, found, same) = step-Kept io store j id r keyed e in
    let (s, last, again) =
      history-SameContents calls (after io store j) id t
        (unfold after in perform-IsKeyed store _ keyed) found in
    (s, last, again ∙ same)
