-- ===== src/JurorProcess/Frames.antt =====
-- The secret of a round under the changes of the store.
use bab_takehome.Base.{
  ℕ, ◌≡◌, sym, ap, subst, inl, inr, Option, none, some, get_or, Bool-cases, text_eq, text_eq_iff,
  show, show-injective, Dict, lookup, insert, lookup-insert, lookup-insert_self,
}
use bab_takehome.JurorProcess.Store.{
  RoundRecord, DisputeRecord, DeploymentState, JurorStore, new_round, new_dispute, new_deployment,
  dep, with_dep, dispute_in, put_dispute, dispute_or_new, round_of, round_record, put_round,
}
use bab_takehome.JurorProcess.Commit.{Secret, secret_of}

-- The secret of a round is `s` in a deployment.
abbrev pub HasSecret : ℕ → ℕ → Secret → DeploymentState → Type 0
HasSecret id r s d = secret_of (round_of id r d) ≡ some s

pub dep-with_dep : (d : DeploymentState) (st : JurorStore) → dep (with_dep d st) ≡ d
dep-with_dep d st =
    ap (λ o. get_or o (new_deployment 0)) (lookup-insert_self st.key d st.state.deployments)

abbrev insert_dispute : ℕ → DisputeRecord → DeploymentState → DeploymentState
insert_dispute id rec d = record d { disputes = insert (show id) rec d.disputes }

abbrev dispute_of : ℕ → DeploymentState → DisputeRecord
dispute_of id d = get_or (dispute_in id d) (new_dispute id none none)

pub dispute_of-insert_self :
    (id : ℕ) (rec : DisputeRecord) (d : DeploymentState)
    → dispute_of id (insert_dispute id rec d) ≡ rec
dispute_of-insert_self id rec d =
    ap (λ o. get_or o (new_dispute id none none)) (lookup-insert_self (show id) rec d.disputes)

-- A change of a dispute's record that leaves what holds of its secrets leaves it for all.
insert_dispute-secret :
    (P : Option Secret → Type 0) (id : ℕ) (rec : DisputeRecord) (d : DeploymentState) (j q : ℕ)
    → (id ≡ j
        → P (secret_of (round_of id q d))
        → P (secret_of (get_or (lookup (show q) rec.rounds) (new_round q))))
    → P (secret_of (round_of j q d))
    → P (secret_of (round_of j q (insert_dispute id rec d)))
insert_dispute-secret P id rec d j q keeps h = elim (Bool-cases (text_eq (show id) (show j))) [
  | inl e ↦
      let same : id ≡ j = show-injective id j ((text_eq_iff _ _).0 e) in
      subst (λ (k : ℕ). P (secret_of (round_of k q (insert_dispute id rec d)))) same
        (rw (dispute_of-insert_self id rec d)
          (keeps same (subst (λ (k : ℕ). P (secret_of (round_of k q d))) (sym same) h)))
  | inr e ↦ rw (lookup-insert (show id) (show j) rec d.disputes, e) h
]

abbrev pub insert_round : ℕ → RoundRecord → DisputeRecord → DisputeRecord
insert_round r rec x = record x { rounds = insert (show r) rec x.rounds }

insert_round-secret :
    (P : Option Secret → Type 0) (r : ℕ) (rec : RoundRecord) (rounds : Dict RoundRecord) (q : ℕ)
    → (r ≡ q → P (secret_of (get_or (lookup (show r) rounds) (new_round r))) → P (secret_of rec))
    → P (secret_of (get_or (lookup (show q) rounds) (new_round q)))
    → P (secret_of (get_or (lookup (show q) (insert (show r) rec rounds)) (new_round q)))
insert_round-secret P r rec rounds q keeps h = elim (Bool-cases (text_eq (show r) (show q))) [
  | inl e ↦
      let same : r ≡ q = show-injective r q ((text_eq_iff _ _).0 e) in
      rw (lookup-insert (show r) (show q) rec rounds, e)
        (keeps same (
          subst (λ (k : ℕ). P (secret_of (get_or (lookup (show k) rounds) (new_round k))))
            (sym same) h))
  | inr e ↦ rw (lookup-insert (show r) (show q) rec rounds, e) h
]

pub put_dispute-secret :
    (P : Option Secret → Type 0) (id : ℕ) (rec : DisputeRecord) (j q : ℕ) (st : JurorStore)
    → rec.rounds ≡ (dispute_or_new id st).rounds
    → P (secret_of (round_record j q st))
    → P (secret_of (round_record j q (put_dispute id rec st)))
put_dispute-secret P id rec j q st e h =
    subst (λ (d : DeploymentState). P (secret_of (round_of j q d))) (sym (dep-with_dep _ st))
      (insert_dispute-secret P id rec (dep st) j q
        (λ _.
          subst
            (λ (rounds : Dict RoundRecord).
              P (secret_of (get_or (lookup (show q) rounds) (new_round q))))
            (sym e))
        h)

pub put_round-secret :
    (P : Option Secret → Type 0) (id r : ℕ) (rec : RoundRecord) (j q : ℕ) (st : JurorStore)
    → (id ≡ j → r ≡ q → P (secret_of (round_record id r st)) → P (secret_of rec))
    → P (secret_of (round_record j q st))
    → P (secret_of (round_record j q (put_round id r rec st)))
put_round-secret P id r rec j q st keeps h =
    subst (λ (d : DeploymentState). P (secret_of (round_of j q d))) (sym (dep-with_dep _ st))
      (insert_dispute-secret P id (insert_round r rec (dispute_or_new id st)) (dep st) j q
        (λ a k. insert_round-secret P r rec (dispute_or_new id st).rounds q (keeps a) k) h)
