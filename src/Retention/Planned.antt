-- ===== src/Retention/Planned.antt =====
-- internal/store/retention.go: what `PlanGC` plans to collect.
use diffdossier.Prelude.{
  ℕ, String, Bool, true, false, not, ◌||◌, some, List, [], ◌∷◌, filter, eqb, ◌==◌, eq_iff, Outcome,
  ok, >>=-eq-ok, refuse_if, refuse_if-ok, ok-injective, Bool-cases, Outcome-cases, inl, inr, ◌⊎◌,
  All, All-weaken, All-sort_by, map, ◌≡◌, get, put, get-put, string_in, distinct, sort_strings,
  refl, sym, ap, subst, ◌∙◌, arith,
}
use diffdossier.Digests.{Sha256}
use diffdossier.Journal.{Encoder}
use diffdossier.Runs.{ArchiveRecord}
use diffdossier.Retention.{
  Dir, ArchiveFile, missing, unreadable, stored, ArchiveJson, is_digest, valid_id, is_recent,
  public_evidence_protected, read_archive_record, verify_archived_run,
}
use diffdossier.Retention.Collect.{
  GcPlan, GcCandidate, Store, is_eligible, plan_dir, plan_loop, runs_of, make_plan, plan_gc,
  blob_references, candidate_key, unretained,
}

ArchiveFile-cases :
    (a : ArchiveFile) → (a ≡ missing) ⊎ ((a ≡ unreadable) ⊎ ((r : ArchiveRecord) × (a ≡ stored r)))
ArchiveFile-cases missing = inl refl
ArchiveFile-cases unreadable = inr (inl refl)
ArchiveFile-cases (stored r) = inr (inr (r, refl))

-- The directory is one of the list.
abbrev pub IsIn : Dir → List Dir → Type 1
IsIn dir dirs = (P : Dir → Type 0) → All P dirs → P dir

All-filter :
    (P : Dir → Type 0) (p : Dir → Bool) (dirs : List Dir) → All P dirs → All P (filter p dirs)
All-filter P p [] h = tt
All-filter P p (d ∷ dirs) h = elim (Bool-cases (p d)) [
  | inl e ↦ rw e (h.0, All-filter P p dirs h.1)
  | inr e ↦ rw e (All-filter P p dirs h.1)
]

All-filter_passed :
    (p : String → Bool) (xs : List String)
    → All (λ x. not (p x) ≡ true) (filter (λ x. not (p x)) xs)
All-filter_passed p [] = tt
All-filter_passed p (x ∷ xs) = elim (Bool-cases (p x)) [
  | inl e ↦ rw e (All-filter_passed p xs)
  | inr e ↦ rw e (rw e refl, All-filter_passed p xs)
]

unretained-All :
    (retained references : List String)
    → All (λ digest. string_in digest retained ≡ false) (unretained retained references)
unfolding unretained
unretained-All retained references =
    let kept = filter (λ digest. not (string_in digest retained)) (distinct references) in
    All-weaken (λ x. not (string_in x retained) ≡ true) (λ x. string_in x retained ≡ false)
      (λ x h. ground arith) (sort_strings kept)
      (All-sort_by (λ x. x) (λ x. not (string_in x retained) ≡ true) kept
        (All-filter_passed (λ x. string_in x retained) (distinct references)))

module _ (sha : Sha256) (encoder : Encoder) (json : ArchiveJson) (plan_text : GcPlan → String) where
  -- The candidate is a directory of the list whose archive record and archive event agree, which
  -- is exported, not pinned, not recent and without public evidence, and whose content is as it
  -- was archived.
  pub record IsCollectable (days as_of : ℕ) (dirs : List Dir) (c : GcCandidate) : Type 1 where
    pub dir : Dir
    pub archive : ArchiveRecord
    pub present : IsIn dir dirs
    pub named : c.run_id ≡ dir.name
    pub sealed : read_archive_record sha encoder json dir ≡ ok archive
    pub unpinned : archive.pinned ≡ false
    pub exported : archive.run_state ≡ "EXPORTED"
    pub old : is_recent days as_of archive.archived_at ≡ false
    pub unprotected : public_evidence_protected dir ≡ false
    pub unchanged : verify_archived_run sha encoder json dir archive ≡ ok tt

  IsCollectable-widen :
      (days as_of : ℕ) (dirs wider : List Dir) (c : GcCandidate)
      → ((dir : Dir) → IsIn dir dirs → IsIn dir wider)
      → IsCollectable days as_of dirs c
      → IsCollectable days as_of wider c
  IsCollectable-widen days as_of dirs wider c f h = record {
    dir = h.dir;
    archive = h.archive;
    present = f h.dir h.present;
    named = h.named;
    sealed = h.sealed;
    unpinned = h.unpinned;
    exported = h.exported;
    old = h.old;
    unprotected = h.unprotected;
    unchanged = h.unchanged;
  }

  is_eligible-parts :
      (days as_of : ℕ) (r : ArchiveRecord) (b : Bool)
      → (not (is_eligible sha encoder json plan_text days as_of r) || b) ≡ false
      → (r.pinned ≡ false)
        × (r.run_state ≡ "EXPORTED")
        × (is_recent days as_of r.archived_at ≡ false)
        × (b ≡ false)
  unfolding is_eligible
  is_eligible-parts days as_of r b h = ground (arith, eq_iff r.run_state "EXPORTED")

  plan_dir-IsCollectable :
      (repository_id : String) (days as_of : ℕ) (dir : Dir) (dirs : List Dir)
      (others : Outcome (List GcCandidate)) (cs : List GcCandidate)
      → IsIn dir dirs
      → ((ds : List GcCandidate) → others ≡ ok ds → All (IsCollectable days as_of dirs) ds)
      → plan_dir sha encoder json plan_text repository_id days as_of dir others ≡ ok cs
      → All (IsCollectable days as_of dirs) cs
  unfolding plan_dir
  plan_dir-IsCollectable repository_id days as_of dir dirs others cs i rest h =
      let (r, sealed, h1) = >>=-eq-ok (read_archive_record sha encoder json dir) _ h in
      let (u, identity, h2) =
        >>=-eq-ok
          (refuse_if
            (not (r.repository_id == repository_id)
              || (not (r.run_id == dir.name)
                  || (not (is_digest r.content_digest) || not (is_digest r.last_event_hash))))
            "archive record identity or digest is invalid")
          _ h1 in
      let named = refuse_if-ok _ _ u identity in
      let skip =
        not (is_eligible sha encoder json plan_text days as_of r)
        || public_evidence_protected dir in
      elim (Bool-cases skip) [
        | inl e ↦ rest cs (rw e at h2)
        | inr e ↦
            let (v, unchanged, h3) =
              >>=-eq-ok (verify_archived_run sha encoder json dir r) _ (rw e at h2) in
            let (ds, o, last) = >>=-eq-ok others _ h3 in
            let (unpinned, exported, old, unprotected) =
              is_eligible-parts days as_of r (public_evidence_protected dir) e in
            subst (All (IsCollectable days as_of dirs)) (ok-injective last) (
              record {
                dir = dir;
                archive = r;
                present = i;
                named = (eq_iff r.run_id dir.name).0 (ground arith);
                sealed = sealed;
                unpinned = unpinned;
                exported = exported;
                old = old;
                unprotected = unprotected;
                unchanged = unchanged;
              },
              rest ds o,
            )
      ]

  plan_loop-IsCollectable :
      (repository_id : String) (days as_of : ℕ) (dirs : List Dir) (cs : List GcCandidate)
      → plan_loop sha encoder json plan_text repository_id days as_of dirs ≡ ok cs
      → All (IsCollectable days as_of dirs) cs
  unfolding plan_loop
  plan_loop-IsCollectable repository_id days as_of [] cs h = rw (sym (ok-injective h)) tt
  plan_loop-IsCollectable repository_id days as_of (dir ∷ rest) cs h =
      let others = plan_loop sha encoder json plan_text repository_id days as_of rest in
      let whole = IsCollectable days as_of (dir ∷ rest) in
      let widen : (ds : List GcCandidate) → others ≡ ok ds → All whole ds = λ ds o.
        All-weaken (IsCollectable days as_of rest) whole
          (λ c. IsCollectable-widen days as_of rest (dir ∷ rest) c (λ d i P p. i P p.1)) ds
          (plan_loop-IsCollectable repository_id days as_of rest ds o) in
      let (u, real, h1) =
        >>=-eq-ok (refuse_if (not dir.is_real) "run path must be a real directory") _ h in
      elim (ArchiveFile-cases dir.archive) [
        | inl a ↦ widen cs (rw a at h1)
        | inr (inl a) ↦
            plan_dir-IsCollectable repository_id days as_of dir (dir ∷ rest) others cs (λ P p. p.0)
              widen (rw a at h1)
        | inr (inr (r, a)) ↦
            plan_dir-IsCollectable repository_id days as_of dir (dir ∷ rest) others cs (λ P p. p.0)
              widen (rw a at h1)
      ]

  runs_of-IsIn :
      (repository_id : String) (s : Store) (dir : Dir)
      → IsIn dir (runs_of sha encoder json plan_text repository_id s)
      → IsIn dir s.active
  unfolding runs_of
  runs_of-IsIn repository_id s dir i P p = i P (
      All-sort_by (λ (d : Dir). d.name) P
        (filter (λ (d : Dir). d.repository_id == repository_id) s.active)
        (All-filter P (λ (d : Dir). d.repository_id == repository_id) s.active p))

  make_plan-IsCollectable :
      (repository_id : String) (days as_of : ℕ) (s : Store) (plan : GcPlan)
      → make_plan sha encoder json plan_text repository_id days as_of s ≡ ok plan
      → All (IsCollectable days as_of s.active) plan.candidates
        × ((retained references : List String)
            → blob_references (map candidate_key plan.candidates) s.active
              ≡ ok (retained, references)
            → All (λ digest. string_in digest retained ≡ false) plan.blob_digests)
  unfolding make_plan
  make_plan-IsCollectable repository_id days as_of s plan h =
      let dirs = runs_of sha encoder json plan_text repository_id s in
      let (cs, l, h1) =
        >>=-eq-ok (plan_loop sha encoder json plan_text repository_id days as_of dirs) _ h in
      let (refs, b, last) = >>=-eq-ok (blob_references (map candidate_key cs) s.active) _ h1 in
      subst
        (λ (p : GcPlan).
          All (IsCollectable days as_of s.active) p.candidates
          × ((retained references : List String)
              → blob_references (map candidate_key p.candidates) s.active
                ≡ ok (retained, references)
              → All (λ digest. string_in digest retained ≡ false) p.blob_digests))
        (ok-injective last)
        (
          All-weaken (IsCollectable days as_of dirs) (IsCollectable days as_of s.active)
              (λ c. IsCollectable-widen days as_of dirs s.active c (runs_of-IsIn repository_id s))
              cs (plan_loop-IsCollectable repository_id days as_of dirs cs l),
          λ retained references r.
              let agree : refs ≡ (retained, references) = ok-injective (sym b ∙ r) in
              subst
                (λ (t : List String × List String).
                  All (λ digest. string_in digest t.0 ≡ false) (unretained refs.0 refs.1))
                agree (unretained-All refs.0 refs.1),
        )

  -- Each candidate of a plan is a run of the store that may be collected, and no blob of the plan is
  -- one that a run outside the plan refers to. Planning changes no run and no blob, and stores the
  -- plan under its digest.
  pub plan_gc-IsCollectable :
      (gc_lock replace : Bool) (repository_id : String) (days as_of : ℕ) (s s' : Store)
      (plan : GcPlan)
      → plan_gc sha encoder json plan_text gc_lock replace repository_id days as_of s
        ≡ (ok plan, s')
      → (All (IsCollectable days as_of s.active) plan.candidates
          × ((retained references : List String)
              → blob_references (map candidate_key plan.candidates) s.active
                ≡ ok (retained, references)
              → All (λ digest. string_in digest retained ≡ false) plan.blob_digests))
        × ((s'.active ≡ s.active)
            × ((s'.blobs ≡ s.blobs) × (get plan.plan_digest s'.plans ≡ some plan)))
  unfolding plan_gc
  plan_gc-IsCollectable gc_lock replace repository_id days as_of s s' plan h =
      elim (Bool-cases (valid_id repository_id "repo-" 32)) [
        | inr a ↦ absurd (cc (rw (a, plan_gc) at h))
        | inl a ↦ elim (Bool-cases (eqb days 0 || eqb as_of 0)) [
          | inl b ↦ absurd (cc (rw (a, b, plan_gc) at h))
          | inr b ↦ elim (Bool-cases gc_lock) [
            | inr c ↦ absurd (cc (rw (a, b, c, plan_gc) at h))
            | inl c ↦
                elim (Outcome-cases
                  (make_plan sha encoder json plan_text repository_id days as_of s)) [
                    | inr (why, m) ↦ absurd (cc (rw (a, b, c, m, plan_gc) at h))
                    | inl (p, m) ↦ elim (Bool-cases replace) [
                      | inr r ↦ absurd (cc (rw (a, b, c, m, r, plan_gc) at h))
                      | inl r ↦
                          let next : Store = record s { plans = put p.plan_digest p s.plans } in
                          let h' : (ok p, next) ≡ (ok plan, s') =
                            rw (a, b, c, m, r, plan_gc) at h in
                          let same : p ≡ plan =
                            ok-injective (ap (λ (t : Outcome GcPlan × Store). t.0) h') in
                          let left : next ≡ s' = ap (λ (t : Outcome GcPlan × Store). t.1) h' in
                          (
                            make_plan-IsCollectable repository_id days as_of s plan
                                (m ∙ ap ok same),
                            subst
                                (λ (t : Store).
                                  (t.active ≡ s.active)
                                  × ((t.blobs ≡ s.blobs)
                                      × (get plan.plan_digest t.plans ≡ some plan)))
                                left
                                (
                                  refl,
                                  (
                                    refl,
                                    subst (λ (q : GcPlan). get q.plan_digest next.plans ≡ some q)
                                        same (get-put p.plan_digest p s.plans),
                                  ),
                                ),
                          )
                    ]
                  ]
          ]
        ]
      ]
