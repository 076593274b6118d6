-- ===== src/JurorProcess/Secrets.antt =====
-- The secret of a round under the operations of the store.
use bab_takehome.Base.{
  ℕ, ◌≡◌, refl, sym, ap, subst, ◌∙◌, Bool, true, false, Option, none, some, arith, get_or, is_some,
  if◌then◌else◌, leb, Text, show, lookup, lookup-insert_self,
}
use bab_takehome.JurorProcess.Store.{
  RoundRecord, DisputeRecord, DeploymentState, JurorStateFile, JurorStore, save, new_round,
  new_dispute, deployment, dep, cursor, with_dep, set_cursor, dispute, put_dispute, ensure_dispute,
  dispute_or_new, round_of, round_record, put_round, ensure_round, update_round, update_dispute,
}
use bab_takehome.JurorProcess.Commit.{Secret, secret_of}
use bab_takehome.JurorProcess.Frames.{
  HasSecret, dep-with_dep, dispute_of-insert_self, insert_round, put_dispute-secret,
  put_round-secret,
}

-- What memory and the file both have.
abbrev pub IsFixed : ℕ → ℕ → Secret → JurorStore → Type 0
IsFixed id r s st =
    HasSecret id r s (dep st)
    × ((f : JurorStateFile) × (st.file ≡ some f) × HasSecret id r s (deployment st.key f))

-- Every secret in memory is in the file.
abbrev pub IsSaved : JurorStore → Type 0
IsSaved st = (id r : ℕ) (s : Secret) → HasSecret id r s (dep st) → IsFixed id r s st

-- From one store to a later one: the key and the fixed secrets stay, and all secrets stay saved.
abbrev pub Keeps : JurorStore → JurorStore → Type 0
Keeps a b =
    (b.key ≡ a.key)
    × ((id r : ℕ) (s : Secret) → IsFixed id r s a → IsFixed id r s b)
    × (IsSaved a → IsSaved b)

pub Keeps-refl : (a : JurorStore) → Keeps a a
Keeps-refl a = (refl, (λ id r s h. h), λ h. h)

pub Keeps-trans : (a b c : JurorStore) → Keeps a b → Keeps b c → Keeps a c
Keeps-trans a b c (e, f, g) (e', f', g') =
    (e' ∙ e, (λ id r s h. f' id r s (f id r s h)), λ h. g' (g h))

if-Keeps :
    (st : JurorStore) (b : Bool) (x y : JurorStore)
    → Keeps st x
    → ((b ≡ false) → Keeps st y)
    → Keeps st (if b then x else y)
if-Keeps st true x y h k = h
if-Keeps st false x y h k = k refl

-- A change of memory that leaves its secrets, saved.
save-Keeps :
    (st st' : JurorStore)
    → st'.key ≡ st.key
    → ((id r : ℕ) (s : Secret) → HasSecret id r s (dep st) → HasSecret id r s (dep st'))
    → Keeps st (save st')
save-Keeps st st' e h = (
  e,
  (λ id r s (m, f). (h id r s m, (st'.state, refl, h id r s m))),
  λ saved id r s m. (m, (st'.state, refl, m)),
)

-- A change of memory that leaves all secrets the same, not saved.
memory-Keeps :
    (st : JurorStore) (d : DeploymentState)
    → ((P : Option Secret → Type 0) (id r : ℕ)
        → P (secret_of (round_record id r st))
        → P (secret_of (round_record id r (with_dep d st))))
    → Keeps st (with_dep d st)
memory-Keeps st d h = (
  refl,
  (λ id r s (m, f). (h (λ o. o ≡ some s) id r m, f)),
  λ saved id r s m.
      let old : HasSecret id r s (dep st) =
        sym (h (λ o. o ≡ secret_of (round_record id r st)) id r refl) ∙ m in
      (m, (saved id r s old).1),
)

pub set_cursor-Keeps : (b : ℕ) (st : JurorStore) → Keeps st (set_cursor b st)
unfolding set_cursor
set_cursor-Keeps b st =
    let d : DeploymentState = record (dep st) { cursor = b } in
    if-Keeps st (leb b (cursor st)) st (save (with_dep d st)) (Keeps-refl st) (λ _.
      save-Keeps st (with_dep d st) refl
        (λ id r s m. subst (HasSecret id r s) (sym (dep-with_dep d st)) m))

rounds_absent :
    (id : ℕ) (p b : Option Text) (o : Option DisputeRecord)
    → is_some o ≡ false
    → (new_dispute id p b).rounds ≡ (get_or o (new_dispute id none none)).rounds
rounds_absent id p b none h = refl
rounds_absent id p b (some x) h = absurd (ground arith)

pub ensure_dispute-Keeps :
    (id : ℕ) (p b : Option Text) (st : JurorStore) → Keeps st (ensure_dispute id p b st)
unfolding ensure_dispute
ensure_dispute-Keeps id p b st =
    let rec = new_dispute id p b in
    if-Keeps st (is_some (dispute id st)) st (save (put_dispute id rec st)) (Keeps-refl st) (λ e.
      save-Keeps st (put_dispute id rec st) refl (λ j q s m.
        put_dispute-secret (λ o. o ≡ some s) id rec j q st (rounds_absent id p b (dispute id st) e)
          m))

secret_absent :
    (P : Option Secret → Type 0) (r : ℕ) (o : Option RoundRecord)
    → is_some o ≡ false
    → P (secret_of (get_or o (new_round r)))
    → P (secret_of (new_round r))
secret_absent P r none e h = h
secret_absent P r (some x) e h = absurd (ground arith)

if-secret :
    (Q : JurorStore → Type 0) (b : Bool) (x y : JurorStore)
    → Q x
    → (b ≡ false → Q y)
    → Q (if b then x else y)
if-secret Q true x y h k = h
if-secret Q false x y h k = k refl

-- What holds of a secret holds after the records of the round are made.
ensure_dispute-secret :
    (P : Option Secret → Type 0) (id : ℕ) (p b : Option Text) (j q : ℕ) (st : JurorStore)
    → P (secret_of (round_record j q st))
    → P (secret_of (round_record j q (ensure_dispute id p b st)))
unfolding ensure_dispute
ensure_dispute-secret P id p b j q st h =
    let rec = new_dispute id p b in
    if-secret (λ x. P (secret_of (round_record j q x))) (is_some (dispute id st)) st
      (save (put_dispute id rec st)) h
      (λ e. put_dispute-secret P id rec j q st (rounds_absent id p b (dispute id st) e) h)

pub ensure_round-secret :
    (P : Option Secret → Type 0) (id r j q : ℕ) (st : JurorStore)
    → P (secret_of (round_record j q st))
    → P (secret_of (round_record j q (ensure_round id r st)))
unfolding ensure_round
ensure_round-secret P id r j q st h =
    let ready = ensure_dispute id none none st in
    let found = lookup (show r) (dispute_or_new id ready).rounds in
    let k = ensure_dispute-secret P id none none j q st h in
    if-secret (λ x. P (secret_of (round_record j q x))) (is_some found) ready
      (put_round id r (new_round r) ready) k
      (λ e. put_round-secret P id r (new_round r) j q ready (λ _ _. secret_absent P r found e) k)

pub ensure_round-Keeps : (id r : ℕ) (st : JurorStore) → Keeps st (ensure_round id r st)
unfolding ensure_round
ensure_round-Keeps id r st =
    let ready = ensure_dispute id none none st in
    let found = lookup (show r) (dispute_or_new id ready).rounds in
    Keeps-trans st ready (if is_some found then ready else put_round id r (new_round r) ready)
      (ensure_dispute-Keeps id none none st)
      (if-Keeps ready (is_some found) ready (put_round id r (new_round r) ready) (Keeps-refl ready)
        (λ e. memory-Keeps ready _ (λ P j q m.
          put_round-secret P id r (new_round r) j q ready (λ _ _. secret_absent P r found e) m)))

-- A change of a record that leaves its secret.
abbrev pub LeavesSecret : RoundRecord → RoundRecord → Type 0
LeavesSecret old new = (s : Secret) → secret_of old ≡ some s → secret_of new ≡ some s

pub update_round-Keeps :
    (id r : ℕ) (change : RoundRecord → RoundRecord) (st : JurorStore)
    → LeavesSecret (round_record id r st) (change (round_record id r st))
    → Keeps st (update_round id r change st)
unfolding update_round
update_round-Keeps id r change st leaves =
    let rec = change (round_record id r st) in
    save-Keeps st (put_round id r rec st) refl
      (λ j q s m. put_round-secret (λ o. o ≡ some s) id r rec j q st (λ _ _. leaves s) m)

pub update_dispute-Keeps :
    (id : ℕ) (change : DisputeRecord → DisputeRecord) (st : JurorStore)
    → (change (dispute_or_new id st)).rounds ≡ (dispute_or_new id st).rounds
    → Keeps st (update_dispute id change st)
unfolding update_dispute
update_dispute-Keeps id change st leaves =
    let rec = change (dispute_or_new id st) in
    save-Keeps st (put_dispute id rec st) refl
      (λ j q s m. put_dispute-secret (λ o. o ≡ some s) id rec j q st leaves m)

pub round_record-put_round :
    (id r : ℕ) (rec : RoundRecord) (st : JurorStore)
    → round_record id r (put_round id r rec st) ≡ rec
round_record-put_round id r rec st =
    ap (round_of id r) (dep-with_dep _ st)
    ∙ ap (λ (x : DisputeRecord). get_or (lookup (show r) x.rounds) (new_round r))
        (dispute_of-insert_self id (insert_round r rec (dispute_or_new id st)) (dep st))
    ∙ ap (λ o. get_or o (new_round r))
        (lookup-insert_self (show r) rec (dispute_or_new id st).rounds)
