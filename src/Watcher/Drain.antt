-- ===== src/Watcher/Drain.antt =====
-- What `#drain` does about a delivery that is due.
use bab_takehome.Base.{
  ℕ, suc, ◌+◌, ◌*◌, ◌^◌, ◌≤◌, ◌<◌, ◌≡◌, ◌≢◌, refl, sym, ap, subst, ◌∙◌, ◌⊎◌, inl, inr, min, Bool,
  true, false, not, Option, none, some, List, [], ◌∷◌, arith, keep, leb, All, All-map, Bool-cases,
  some-injective, Text, text_eq, text_eq_iff, Dict, lookup, insert, lookup-insert_self,
  lookup-insert_ne, Result, ok, err,
}
use bab_takehome.Watcher.{
  JobKind, purchase, dispute, Job, is_purchase, WatcherIo, delete, Scan, next_attempt, fail,
  after_purchase, drain_purchases, delete_all, values, due_jobs, Watcher, drained,
}
use bab_takehome.Watcher.Keys.{
  Without, Once, IsKeyed, text_eq-ne, Once-delete, Once-insert, lookup-delete_ne,
  lookup-delete_self, Without-Once, Once-delete_self, Once-insert_self,
}

-- What a map has under a key, with that it has the key once at most.
abbrev pub Has : Text → Option Job → Dict Job → Type 0
Has k o d = (lookup k d ≡ o) × Once k d

delete-Has : (k i : Text) (o : Option Job) (d : Dict Job) → i ≢ k → Has k o d → Has k o (delete i d)
delete-Has k i o d m (h, once) = (lookup-delete_ne k i d m ∙ h, Once-delete k i d m once)

insert-Has :
    (k i : Text) (w : Job) (o : Option Job) (d : Dict Job)
    → i ≢ k
    → Has k o d
    → Has k o (insert i w d)
insert-Has k i w o d m (h, once) = (lookup-insert_ne i k w d m ∙ h, Once-insert k i w d m once)

fail-Has :
    (now : ℕ) (i : Job) (k : Text) (o : Option Job) (d : Dict Job)
    → i.key ≢ k
    → Has k o d
    → Has k o (fail now i d)
fail-Has now i k o d m h = elim (Bool-cases (leb 8 (suc i.attempts))) [
  | inl e ↦ rw e (delete-Has k i.key o d m h)
  | inr e ↦ rw e (insert-Has k i.key (next_attempt now i) o d m h)
]

pub after_purchase-Has :
    (io : WatcherIo) (i : Job) (r : Result Text (Unit {0})) (k : Text) (o : Option Job)
    (d : Dict Job)
    → i.key ≢ k
    → Has k o d
    → Has k o (after_purchase io i r d)
after_purchase-Has io i (ok u) k o d m h = delete-Has k i.key o d m h
after_purchase-Has io i (err e) k o d m h = fail-Has io.now i k o d m h

abbrev pub Others : Text → List Job → Type 0
Others k jobs = All (λ i. i.key ≢ k) jobs

pub drain_purchases-Has :
    (io : WatcherIo) (jobs : List Job) (k : Text) (o : Option Job) (d : Dict Job)
    → Others k jobs
    → Has k o d
    → Has k o (drain_purchases io jobs d)
unfolding drain_purchases
drain_purchases-Has io [] k o d n h = h
drain_purchases-Has io (i ∷ jobs) k o d (m, n) h =
    drain_purchases-Has io jobs k o (after_purchase io i (io.handle_purchase i.id) d) n
      (after_purchase-Has io i (io.handle_purchase i.id) k o d m h)

pub delete_all-Has :
    (jobs : List Job) (k : Text) (o : Option Job) (d : Dict Job)
    → Others k jobs
    → Has k o d
    → Has k o (delete_all jobs d)
unfolding delete_all
delete_all-Has [] k o d n h = h
delete_all-Has (i ∷ jobs) k o d (m, n) h =
    delete_all-Has jobs k o (delete i.key d) n (delete-Has k i.key o d m h)

-- What becomes of a delivery whose handler runs: it is done; or one more failure is counted, and it
-- waits for a time that doubles with each failure up to a minute, or is given up at the eighth.
abbrev pub Treats : WatcherIo → Job → Option Job → Type 0
Treats io j o =
    ((io.handle_purchase j.id ≡ ok tt) × (o ≡ none))
    ⊎ ((e : Text) × (io.handle_purchase j.id ≡ err e)
        × (((j.attempts + 1 < 8)
              × (o
                  ≡ some (record {
                    key = j.key;
                    kind = j.kind;
                    id = j.id;
                    attempts = j.attempts + 1;
                    not_before = io.now + min 60000 (2000 * 2 ^ (j.attempts + 1));
                  })))
            ⊎ ((8 ≤ j.attempts + 1) × (o ≡ none))))

after_purchase-Treats :
    (io : WatcherIo) (j : Job) (r : Result Text (Unit {0})) (d : Dict Job)
    → io.handle_purchase j.id ≡ r
    → Once j.key d
    → (o : Option Job) × Treats io j o × Has j.key o (after_purchase io j r d)
after_purchase-Treats io j (ok u) d h once = (
  none,
  inl (h, refl),
  (lookup-delete_self j.key d once, Without-Once j.key _ (Once-delete_self j.key d once)),
)
after_purchase-Treats io j (err e) d h once = elim (Bool-cases (leb 8 (suc j.attempts))) [
  | inl last ↦ (
    none,
    inr (e, h, inr (ground arith, refl)),
    rw last (lookup-delete_self j.key d once, Without-Once j.key _ (Once-delete_self j.key d once)),
  )
  | inr more ↦
      let again = next_attempt io.now j in
      let one_more : suc j.attempts ≡ j.attempts + 1 = omega arith in
      (
        some again,
        inr (
          e,
          h,
          inl (
            ground arith,
            ap
                (λ n. some (record {
                  key = j.key;
                  kind = j.kind;
                  id = j.id;
                  attempts = n;
                  not_before = io.now + min 60000 (2000 * 2 ^ n);
                }))
                one_more,
          ),
        ),
        rw more (lookup-insert_self j.key again d, Once-insert_self j.key again d once),
      )
]

-- The job is in the list, and no other of its key.
abbrev Lone : Job → List Job → Type 0
Lone j [] = ⊥
Lone j (i ∷ jobs) = ((i ≡ j) × Others j.key jobs) ⊎ ((i.key ≢ j.key) × Lone j jobs)

keep-Others : (k : Text) (p : Job → Bool) (jobs : List Job) → Others k jobs → Others k (keep p jobs)
keep-Others k p [] h = tt
keep-Others k p (i ∷ jobs) (n, h) = elim (Bool-cases (p i)) [
  | inl e ↦ rw e (n, keep-Others k p jobs h)
  | inr e ↦ rw e (keep-Others k p jobs h)
]

keep-Lone :
    (j : Job) (p : Job → Bool) (jobs : List Job) → p j ≡ true → Lone j jobs → Lone j (keep p jobs)
keep-Lone j p [] h l = absurd l
keep-Lone j p (i ∷ jobs) h (inl (e, n)) = rw (ap p e ∙ h) (inl (e, keep-Others j.key p jobs n))
keep-Lone j p (i ∷ jobs) h (inr (n, l)) = elim (Bool-cases (p i)) [
  | inl e ↦ rw e (inr (n, keep-Lone j p jobs h l))
  | inr e ↦ rw e (keep-Lone j p jobs h l)
]

keep-Lone_none :
    (j : Job) (p : Job → Bool) (jobs : List Job)
    → p j ≡ false
    → Lone j jobs
    → Others j.key (keep p jobs)
keep-Lone_none j p [] h l = absurd l
keep-Lone_none j p (i ∷ jobs) h (inl (e, n)) = rw (ap p e ∙ h) (keep-Others j.key p jobs n)
keep-Lone_none j p (i ∷ jobs) h (inr (n, l)) = elim (Bool-cases (p i)) [
  | inl e ↦ rw e (n, keep-Lone_none j p jobs h l)
  | inr e ↦ rw e (keep-Lone_none j p jobs h l)
]

values-Others : (k : Text) (d : Dict Job) → IsKeyed d → Without k d → Others k (values d)
unfolding values
values-Others k [] keyed h = tt
values-Others k ((i, v) ∷ d) ((e, es), (_, ds)) (n, h) =
    (λ q. n (e ∙ q), values-Others k d (es, ds) h)

values-Lone :
    (j : Job) (d : Dict Job)
    → IsKeyed d
    → lookup j.key d ≡ some j
    → Lone j (values d) × Once j.key d
unfolding values lookup
values-Lone j [] keyed h = absurd (ground arith)
values-Lone j ((i, v) ∷ d) ((e, es), (n, ds)) h = elim (Bool-cases (text_eq i j.key)) [
  | inl k ↦
      let same = (text_eq_iff i j.key).0 k in
      let others : Without j.key d = All-map _ d (λ t m q. m (same ∙ sym q)) n in
      (
        inl (some-injective v j (rw k at h), values-Others j.key d (es, ds) others),
        inl (same, others),
      )
  | inr k ↦
      let other = text_eq-ne i j.key k in
      let (l, once) = values-Lone j d (es, ds) (rw k at h) in
      (inr ((λ q. other (e ∙ q)), l), inr (other, once))
]

drain_purchases-Treats :
    (io : WatcherIo) (jobs : List Job) (j : Job) (d : Dict Job)
    → Lone j jobs
    → Once j.key d
    → (o : Option Job) × Treats io j o × Has j.key o (drain_purchases io jobs d)
unfolding drain_purchases
drain_purchases-Treats io [] j d l once = absurd l
drain_purchases-Treats io (i ∷ jobs) j d (inl (e, n)) once =
    let (o, t, h) = after_purchase-Treats io j (io.handle_purchase j.id) d refl once in
    (
      o,
      t,
      drain_purchases-Has io jobs j.key o (after_purchase io i (io.handle_purchase i.id) d) n (
          subst (λ (x : Job). Has j.key o (after_purchase io x (io.handle_purchase x.id) d)) (sym e)
            h),
    )
drain_purchases-Treats io (i ∷ jobs) j d (inr (n, l)) once =
    drain_purchases-Treats io jobs j (after_purchase io i (io.handle_purchase i.id) d) l
      (after_purchase-Has io i (io.handle_purchase i.id) j.key (lookup j.key d) d n (refl, once)).1

pub drained-Treats :
    (io : WatcherIo) (w : Watcher) (s : Scan) (j : Job)
    → IsKeyed s.retry
    → lookup j.key s.retry ≡ some j
    → j.kind ≡ purchase
    → j.not_before ≤ io.now
    → Treats io j (lookup j.key (drained io w s).retry)
drained-Treats io w s j keyed found kind due =
    let (l, once) = values-Lone j s.retry keyed found in
    let bought : is_purchase j ≡ true =
      ap (λ (k : JobKind). elim k [ purchase ↦ true | dispute ↦ false ]) kind in
    let waiting = keep-Lone j (λ i. leb i.not_before io.now) (values s.retry) (ground arith) l in
    let jobs = due_jobs io s.retry in
    let (o, t, h) =
      drain_purchases-Treats io (keep is_purchase jobs) j s.retry
        (keep-Lone j is_purchase jobs bought waiting) once in
    let (same, _) =
      delete_all-Has (keep (λ i. not (is_purchase i)) jobs) j.key o
        (drain_purchases io (keep is_purchase jobs) s.retry)
        (keep-Lone_none j (λ i. not (is_purchase i)) jobs (ap not bought) waiting) h in
    subst (Treats io j) (sym same) t
