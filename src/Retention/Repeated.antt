-- ===== src/Retention/Repeated.antt =====
-- internal/store/retention.go: an execution that is asked for again.
use diffdossier.Prelude.{
  ℕ, zero, suc, String, Bool, true, false, not, ◌||◌, some, List, [], ◌∷◌, filter, eqb, eqb_iff,
  length, ◌==◌, eq_iff, Outcome, ok, ok-injective, Bool-cases, Option-cases, Outcome-cases, inl,
  inr, get, put, get-put, ◌≡◌, ◌≢◌, refl, ap, subst, arith,
}
use diffdossier.Digests.{Sha256}
use diffdossier.Journal.{Encoder}
use diffdossier.Retention.{ArchiveJson, is_digest}
use diffdossier.Retention.Collect.{
  GcPlan, GcExecution, Store, Trashed, move_runs, remove_blobs, checked_plan, without_trash, finish,
  collect, execute_gc,
}
use diffdossier.Retention.Kept.{checked_plan-ok}

filter-filter :
    (digest : String) (ts : List Trashed)
    → filter
        (λ (t : Trashed). not (t.plan_digest == digest))
        (filter (λ t. not (t.plan_digest == digest)) ts)
      ≡ filter (λ t. not (t.plan_digest == digest)) ts
filter-filter digest [] = refl
filter-filter digest (t ∷ ts) = ground (arith, filter-filter digest ts)

module _ (sha : Sha256) (encoder : Encoder) (json : ArchiveJson) (plan_text : GcPlan → String) where
  abbrev trashless : String → Store → Store
  trashless = without_trash sha encoder json plan_text

  without_trash-twice :
      (digest : String) (s : Store) → trashless digest (trashless digest s) ≡ trashless digest s
  unfolding without_trash
  without_trash-twice digest s =
      ap
        (λ ts. record {
          active = s.active;
          trash = ts;
          blobs = s.blobs;
          plans = s.plans;
          executions = s.executions;
        })
        (filter-filter digest s.trash)

  -- The store behind an execution: it is recorded, and the trash of its plan is empty.
  abbrev IsDone : String → GcExecution → Store → Type 0
  IsDone digest e s =
      (get digest s.executions ≡ some e) × ((e.plan_digest ≡ digest) × (trashless digest s ≡ s))

  finish-IsDone :
      (plan : GcPlan) (now n : ℕ) (s s' : Store) (e : GcExecution)
      → finish sha encoder json plan_text plan now n s ≡ (ok e, s')
      → IsDone plan.plan_digest e s'
  unfolding finish without_trash
  finish-IsDone plan now zero s s' e h = cc
  finish-IsDone plan now (suc zero) s s' e h = cc
  finish-IsDone plan now (suc (suc n)) s s' e h =
      let digest = plan.plan_digest in
      let execution : GcExecution = record {
        plan_digest = digest;
        executed_at = now;
        removed_runs = length plan.candidates;
        removed_blobs = length plan.blob_digests;
      } in
      let written : Store = record s { executions = put digest execution s.executions } in
      let last = trashless digest written in
      let first : execution ≡ e = ok-injective (ap (λ (r : Outcome GcExecution × Store). r.0) h) in
      let second : last ≡ s' = ap (λ (r : Outcome GcExecution × Store). r.1) h in
      subst (λ (t : Store). IsDone digest e t) second
        (subst (λ (x : GcExecution). IsDone digest x last) first
          (get-put digest execution s.executions, (refl, without_trash-twice digest written)))

  collect-IsDone :
      (plan : GcPlan) (now n : ℕ) (s s' : Store) (e : GcExecution)
      → collect sha encoder json plan_text plan now n s ≡ (ok e, s')
      → IsDone plan.plan_digest e s'
  unfolding collect
  collect-IsDone plan now n s s' e h =
      let moved = move_runs plan.plan_digest n plan.candidates s in
      elim (Outcome-cases moved.0) [
        | inr (why, o) ↦ absurd (cc (rw (o, collect) at h))
        | inl (m, o) ↦
            let removed = remove_blobs sha m plan.blob_digests moved.1 in
            elim (Outcome-cases removed.0) [
              | inr (why, p) ↦ absurd (cc (rw (o, p, collect) at h))
              | inl (k, p) ↦ finish-IsDone plan now k removed.1 s' e (rw (o, p, collect) at h)
            ]
      ]

  execute_gc-IsDone :
      (gc_lock : Bool) (n : ℕ) (digest : String) (now : ℕ) (s s' : Store) (e : GcExecution)
      → execute_gc sha encoder json plan_text gc_lock n digest now s ≡ (ok e, s')
      → (is_digest digest ≡ true) × IsDone digest e s'
  unfolding execute_gc
  execute_gc-IsDone gc_lock n digest now s s' e h =
      elim (Bool-cases (not (is_digest digest) || eqb now 0)) [
        | inl r ↦ absurd (cc (rw (r, execute_gc) at h))
        | inr r ↦ elim (Bool-cases gc_lock) [
          | inr l ↦ absurd (cc (rw (r, l, execute_gc) at h))
          | inl l ↦ (
            ground arith,
            elim (Option-cases (get digest s.executions)) [
              | inr (completed, c) ↦ elim (Bool-cases (completed.plan_digest == digest)) [
                | inr d ↦ absurd (cc (rw (r, l, c, d, execute_gc) at h))
                | inl d ↦
                    let h' : (ok completed, trashless digest s) ≡ (ok e, s') =
                      rw (r, l, c, d, execute_gc) at h in
                    let first : completed ≡ e =
                      ok-injective (ap (λ (t : Outcome GcExecution × Store). t.0) h') in
                    let second : trashless digest s ≡ s' =
                      ap (λ (t : Outcome GcExecution × Store). t.1) h' in
                    subst (λ (t : Store). IsDone digest e t) second
                      (subst (λ (x : GcExecution). IsDone digest x (trashless digest s)) first
                        (unfold without_trash in
                          (
                            c,
                            (
                              (eq_iff completed.plan_digest digest).0 d,
                              without_trash-twice digest s,
                            ),
                          )))
              ]
              | inl c ↦ elim (Outcome-cases (checked_plan sha encoder json plan_text digest s)) [
                | inr (why, k) ↦ absurd (cc (rw (r, l, c, k, execute_gc) at h))
                | inl (p, k) ↦
                    let (found, named, checked, rest) =
                      checked_plan-ok sha encoder json plan_text digest s p k in
                    subst (λ d. IsDone d e s') named
                      (collect-IsDone p now n s s' e (rw (r, l, c, k, execute_gc) at h))
              ]
            ],
          )
        ]
      ]

  -- An execution that was completed answers again with the same record, and changes nothing more.
  pub execute_gc-repeated :
      (gc_lock : Bool) (n : ℕ) (digest : String) (now : ℕ) (s s' : Store) (e : GcExecution)
      → execute_gc sha encoder json plan_text gc_lock n digest now s ≡ (ok e, s')
      → (m later : ℕ) → later ≢ 0
      → execute_gc sha encoder json plan_text true m digest later s' ≡ (ok e, s')
  unfolding execute_gc
  execute_gc-repeated gc_lock n digest now s s' e h m later nonzero =
      let (valid, (found, (named, empty))) = execute_gc-IsDone gc_lock n digest now s s' e h in
      let same : (e.plan_digest == digest) ≡ true = (eq_iff e.plan_digest digest).1 named in
      let passes : (not (is_digest digest) || eqb later 0) ≡ false =
        ground (arith, eqb_iff later 0) in
      rw (passes, found, same, execute_gc) (ap (λ t. (ok e, t)) empty)
