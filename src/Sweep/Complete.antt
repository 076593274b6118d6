-- ===== src/Sweep/Complete.antt =====
-- The disputes that a wake reports, and what it does about each.
use bab_takehome.Base.{
  ℕ, zero, suc, ◌+◌, ◌-◌, ◌≤◌, ◌<◌, ◌≡◌, ◌≢◌, refl, sym, ap, subst, ◌∙◌, ◌⊎◌, ◌↔◌, inl, inr, true,
  false, Option, none, some, List, [], ◌∷◌, map, take, arith, keep, Some, ◌==◌, Bool-cases, Text,
  codes, text_eq, text_eq_iff, show, show-injective, Result, ok, err, >>=-eq-ok, ok-injective,
  traverse,
}
use bab_takehome.Jurors.Types.{ground_false_description, status_none, status_resolved}
use bab_takehome.Sweep.{
  Row, row_of, OpenDispute, SweepIo, first_id, ids_from, read_row, is_open, open_of, open_disputes,
  status_name, WakeAction, started, running, would_start, failed, WakeResult, run_if_active,
  active_run, wake_action, wake_one, WakeReport, wake,
}

ids_from-Some : (i n j : ℕ) → i ≤ j → j < i + n → Some (λ k. k ≡ j) (ids_from i n)
unfolding ids_from
ids_from-Some i zero j h k = absurd (omega arith)
ids_from-Some i (suc n) j h k = elim (Bool-cases (i == j)) [
  | inl e ↦ inl (ground arith)
  | inr e ↦ inr (ids_from-Some (suc i) n j (ground arith) (omega arith))
]

ids_from-bounds : (i n j : ℕ) → Some (λ k. k ≡ j) (ids_from i n) → (i ≤ j) × (j < i + n)
unfolding ids_from
ids_from-bounds i zero j s = absurd s
ids_from-bounds i (suc n) j (inl e) = (omega (arith, e), omega (arith, e))
ids_from-bounds i (suc n) j (inr s) =
    let (lo, hi) = ids_from-bounds (suc i) n j s in (omega (arith, lo), omega (arith, hi))

traverse-Some :
    (io : SweepIo) (ids : List ℕ) (rows : List Row) (j : ℕ) (r : Row)
    → traverse (read_row io) ids ≡ ok rows
    → read_row io j ≡ ok r
    → Some (λ k. k ≡ j) ids
    → Some (λ s. s ≡ r) rows
unfolding traverse
traverse-Some io [] rows j r h e s = absurd s
traverse-Some io (i ∷ ids) rows j r h e s =
    let (a, (p, k)) = >>=-eq-ok (read_row io i) _ h in
    let (rest, (q, k)) = >>=-eq-ok (traverse (read_row io) ids) _ k in
    subst (Some (λ s. s ≡ r)) (ok-injective _ rows k) (elim s [
      | inl same ↦ inl (ok-injective a r (sym p ∙ ap (read_row io) same ∙ e))
      | inr more ↦ inr (traverse-Some io ids rest j r q e more)
    ])

-- Each row is what the chain answers for its id.
traverse-read :
    (io : SweepIo) (ids : List ℕ) (rows : List Row) (P : Row → Type 0)
    → traverse (read_row io) ids ≡ ok rows
    → Some P rows
    → (r : Row) × (read_row io r.id ≡ ok r) × Some (λ k. k ≡ r.id) ids × P r
unfolding traverse
traverse-read io [] rows P h s = absurd (subst (Some P) (sym (ok-injective _ rows h)) s)
traverse-read io (i ∷ ids) rows P h s =
    let (a, (p, k)) = >>=-eq-ok (read_row io i) _ h in
    let (rest, (q, k)) = >>=-eq-ok (traverse (read_row io) ids) _ k in
    let (d, (_, e)) = >>=-eq-ok (io.get_dispute i) _ p in
    let same : i ≡ a.id = ap Row.id (ok-injective (row_of i d) a e) in
    elim (subst (Some P) (sym (ok-injective _ rows k)) s) [
      | inl here ↦ (a, subst (λ (n : ℕ). read_row io n ≡ ok a) same p, inl same, here)
      | inr more ↦
          let (r, read, listed, here) = traverse-read io ids rest P q more in
          (r, read, inr listed, here)
    ]

map-Some :
    (io : SweepIo) (P : WakeResult → Type 0) (rows : List Row) (r : Row)
    → is_open r ≡ true
    → P (wake_one io (open_of r))
    → Some (λ s. s ≡ r) rows
    → Some P (map (wake_one io) (map open_of (keep is_open rows)))
map-Some io P [] r h w s = absurd s
map-Some io P (t ∷ rows) r h w (inl same) =
    rw (ap is_open same ∙ h) (inl (subst (λ (u : Row). P (wake_one io (open_of u))) (sym same) w))
map-Some io P (t ∷ rows) r h w (inr more) = elim (Bool-cases (is_open t)) [
  | inl e ↦ rw e (inr (map-Some io P rows r h w more))
  | inr e ↦ rw e (map-Some io P rows r h w more)
]

Some-unmap :
    (io : SweepIo) (P : WakeResult → Type 0) (rows : List Row)
    → Some P (map (wake_one io) (map open_of (keep is_open rows)))
    → Some (λ r. (is_open r ≡ true) × P (wake_one io (open_of r))) rows
Some-unmap io P [] s = absurd s
Some-unmap io P (t ∷ rows) s = elim (Bool-cases (is_open t)) [
  | inl e ↦ elim (rw e at s) [
    | inl here ↦ inl (e, here)
    | inr more ↦ inr (Some-unmap io P rows more)
  ]
  | inr e ↦ inr (Some-unmap io P rows (rw e at s))
]

-- A run of the workflow holds the lock: the hook of the token names it, and its status is that it
-- runs or waits to, or cannot be read.
abbrev pub HasRun : SweepIo → Text → Text → Type 0
HasRun io token run =
    (io.get_hook token ≡ some (some run))
    × ((io.run_status run ≡ none)
        ⊎ (io.run_status run ≡ some (codes "running"))
        ⊎ (io.run_status run ≡ some (codes "pending")))

-- No run holds the lock: there is no hook, it names no run, or the run is over.
abbrev pub HasNoRun : SweepIo → Text → Type 0
HasNoRun io token =
    (io.get_hook token ≡ none)
    ⊎ (io.get_hook token ≡ some none)
    ⊎ ((run : Text) × (status : Text) × (io.get_hook token ≡ some (some run))
        × (io.run_status run ≡ some status)
        × (status ≢ codes "running")
        × (status ≢ codes "pending"))

-- What a wake does about an open dispute: it leaves a live run alone; without one it says that it
-- would start a run, if the service is off, and otherwise starts one or reports why it could not.
abbrev pub IsTreated : SweepIo → Text → WakeAction → Type 0
IsTreated io id action =
    ((run : Text) × HasRun io (io.lock_token id) run × (action ≡ running run))
    ⊎ (HasNoRun io (io.lock_token id) × (io.enabled ≡ false) × (action ≡ would_start))
    ⊎ ((run : Text) × HasNoRun io (io.lock_token id)
        × (io.enabled ≡ true)
        × (io.start id (io.lock_token id) ≡ ok run)
        × (action ≡ started run))
    ⊎ ((message : Text) × HasNoRun io (io.lock_token id)
        × (io.enabled ≡ true)
        × (io.start id (io.lock_token id) ≡ err message)
        × (action ≡ failed (take 200 message)))

Result-cases : {E A : Type 0} (r : Result E A) → ((a : A) × (r ≡ ok a)) ⊎ ((e : E) × (r ≡ err e))
Result-cases (ok a) = inl (a, refl)
Result-cases (err e) = inr (e, refl)

idle-IsTreated :
    (io : SweepIo) (d : OpenDispute)
    → HasNoRun io (io.lock_token d.dispute_id)
    → IsTreated io d.dispute_id (wake_action io d none)
idle-IsTreated io d idle = elim (Bool-cases io.enabled) [
  | inr off ↦ inr (inl (idle, off, rw off refl))
  | inl on ↦ elim (Result-cases (io.start d.dispute_id (io.lock_token d.dispute_id))) [
    | inl (run, e) ↦ inr (inr (inl (run, idle, on, e, rw (on, e) refl)))
    | inr (message, e) ↦ inr (inr (inr (message, idle, on, e, rw (on, e) refl)))
  ]
]

wake_action-IsTreated :
    (io : SweepIo) (d : OpenDispute) (hook : Option (Option Text))
    → io.get_hook (io.lock_token d.dispute_id) ≡ hook
    → IsTreated io d.dispute_id (wake_action io d (active_run io hook))
wake_action-IsTreated io d none h = idle-IsTreated io d (inl h)
wake_action-IsTreated io d (some none) h = idle-IsTreated io d (inr (inl h))
wake_action-IsTreated io d (some (some run)) h = with_status (io.run_status run) refl
  where
    with_status :
        (o : Option Text)
        → io.run_status run ≡ o
        → IsTreated io d.dispute_id (wake_action io d (run_if_active run o))
    with_status none e = inl (run, (h, inl e), refl)
    with_status (some status) e = elim (Bool-cases (text_eq status (codes "running"))) [
      | inl k ↦ rw k (inl (run, (h, inr (inl (e ∙ ap some ((text_eq_iff _ _).0 k)))), refl))
      | inr k ↦ elim (Bool-cases (text_eq status (codes "pending"))) [
        | inl m ↦ rw (k, m) (inl (run, (h, inr (inr (e ∙ ap some ((text_eq_iff _ _).0 m)))), refl))
        | inr m ↦
            rw (k, m)
              (idle-IsTreated io d (
                inr (
                  inr (
                    run,
                    status,
                    h,
                    e,
                    λ q. absurd (ground (arith, (text_eq_iff status (codes "running")).1 q)),
                    λ q. absurd (ground (arith, (text_eq_iff status (codes "pending")).1 q)),
                  ))))
      ]
    ]

-- The entry of a report for a dispute.
abbrev pub IsReported : SweepIo → ℕ → ℕ → ℕ → WakeResult → Type 0
IsReported io id status round w =
    (w.of.dispute_id ≡ show id)
    × (w.of.status ≡ status_name status)
    × (w.of.round ≡ round)
    × IsTreated io (show id) w.action

is_open_iff :
    (r : Row)
    → (is_open r ≡ true) ↔ (
        (r.ground ≡ ground_false_description)
        × (r.status ≢ status_resolved)
        × (r.status ≢ status_none))
is_open_iff r =
    (λ h. (ground arith, (λ e. ground arith), (λ e. ground arith)), λ (a, b, c). ground arith)

-- One of the last 200 disputes that is a FalseDescription dispute, known and not resolved.
abbrev pub IsDue : ℕ → ℕ → ℕ → ℕ → Type 0
IsDue next id kind status =
    (1 ≤ id)
    × (id < next)
    × (next ≤ id + 200)
    × (kind ≡ ground_false_description)
    × (status ≢ status_resolved)
    × (status ≢ status_none)

first_id-bounds : (n j : ℕ) → first_id n ≤ j → (1 ≤ j) × (n ≤ j + 200)
first_id-bounds n j h = (ground arith, ground arith)

bounds-first_id : (n j : ℕ) → 1 ≤ j → n ≤ j + 200 → first_id n ≤ j
bounds-first_id n j h k = ground arith

module _ (io : SweepIo) (n : ℕ) (rows : List Row)
    (read : traverse (read_row io) (ids_from (first_id n) (n - first_id n)) ≡ ok rows) where
  IsReported-rows :
      (id kind status round : ℕ)
      → io.get_dispute id ≡ ok (kind, status, round)
      → IsDue n id kind status
      → Some (IsReported io id status round) (map (wake_one io) (map open_of (keep is_open rows)))
  IsReported-rows id kind status round h (lo, hi, near, a, b, c) =
      let r = row_of id (kind, status, round) in
      let from = bounds-first_id n id lo near in
      map-Some io (IsReported io id status round) rows r ((is_open_iff r).1 (a, b, c))
        (refl, refl, refl, wake_action-IsTreated io (open_of r) _ refl)
        (traverse-Some io (ids_from (first_id n) (n - first_id n)) rows id r read (rw h refl)
          (ids_from-Some (first_id n) (n - first_id n) id from (omega (arith, from, hi))))

  IsDue-rows :
      (id kind status round : ℕ)
      → io.get_dispute id ≡ ok (kind, status, round)
      → Some (IsReported io id status round) (map (wake_one io) (map open_of (keep is_open rows)))
      → IsDue n id kind status
  IsDue-rows id kind status round h s =
      let ids = ids_from (first_id n) (n - first_id n) in
      let (r, answered, listed, (open_row, (named, _, _, _))) =
        traverse-read io ids rows _ read (Some-unmap io (IsReported io id status round) rows s) in
      let same : r.id ≡ id = show-injective r.id id named in
      let row : r ≡ row_of id (kind, status, round) =
        ok-injective r (row_of id (kind, status, round))
          (sym answered ∙ ap (read_row io) same ∙ rw h refl) in
      let (lo, hi) = ids_from-bounds (first_id n) (n - first_id n) r.id listed in
      let (positive, near) = first_id-bounds n r.id lo in
      let (a, b, c) = (is_open_iff r).0 open_row in
      (
        omega (arith, same, positive),
        omega (arith, same, lo, hi),
        omega (arith, same, near),
        sym (ap Row.ground row) ∙ a,
        λ e. b (ap Row.status row ∙ e),
        λ e. c (ap Row.status row ∙ e),
      )

-- Whenever a wake returns, its report has the chain's next dispute id, and a dispute for which the
-- chain answers stands in the report if and only if it is one of the last 200, a FalseDescription
-- dispute, known and not resolved. Its entry has its status and its round, and says what was done
-- about it: a live run is left alone; otherwise no run is started if the service is off, and one is
-- started if it is on, or the error of that is reported.
pub wake-IsReported :
    (io : SweepIo) (focus : Option ℕ) (report : WakeReport) (id kind status round : ℕ)
    → wake io focus ≡ ok report
    → io.get_dispute id ≡ ok (kind, status, round)
    → (io.next_dispute_id ≡ ok report.next_dispute_id)
      × (Some (IsReported io id status round) report.disputes
          ↔ IsDue report.next_dispute_id id kind status)
unfolding wake open_disputes
wake-IsReported io focus report id kind status round h d =
    let ((next, ds), (p, h)) = >>=-eq-ok (open_disputes io) _ h in
    let (n, (a, p)) = >>=-eq-ok io.next_dispute_id _ p in
    let (rows, (b, p)) =
      >>=-eq-ok (traverse (read_row io) (ids_from (first_id n) (n - first_id n))) _ p in
    let whole = ok-injective _ (next, ds) p in
    let all = ok-injective _ report h in
    let same : n ≡ report.next_dispute_id =
      ap (λ (t : ℕ × List OpenDispute). t.0) whole ∙ ap WakeReport.next_dispute_id all in
    let listed : map (wake_one io) (map open_of (keep is_open rows)) ≡ report.disputes =
      ap (λ (t : ℕ × List OpenDispute). map (wake_one io) (t.1)) whole
      ∙ ap WakeReport.disputes all in
    let Reported = Some (IsReported io id status round) in
    (
      a ∙ ap ok same,
      (
        λ s.
            subst (λ (k : ℕ). IsDue k id kind status) same
              (IsDue-rows io n rows b id kind status round d (subst Reported (sym listed) s)),
        λ due. subst Reported listed (
            IsReported-rows io n rows b id kind status round d
              (subst (λ (k : ℕ). IsDue k id kind status) (sym same) due)),
      ),
    )
