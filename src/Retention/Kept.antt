-- ===== src/Retention/Kept.antt =====
-- internal/store/retention.go: what `ExecuteGC` leaves as it is.
use mathlib.Core.Option.{some-injective}
use diffdossier.Prelude.{
  ℕ, zero, suc, String, Bool, true, false, not, ◌||◌, some, List, [], ◌∷◌, ◌++◌, map, filter, eqb,
  ◌==◌, eq_iff, eq_refl, ok, >>=-eq-ok, ok-injective, refuse_if, refuse_if-ok, Bool-cases,
  Option-cases, Outcome-cases, inl, inr, string_in, distinct, All, All-sort_by, All-string_in, get,
  ◌≡◌, refl, sym, ap, subst, ◌∙◌, arith,
}
use diffdossier.Digests.{Sha256}
use diffdossier.Journal.{Encoder}
use diffdossier.Retention.{Dir, ArchiveJson, is_digest, valid_id}
use diffdossier.Retention.Collect.{
  GcCandidate, GcPlan, Store, key_of, candidate_key, blob_references, unretained, same_strings,
  move_runs, remove_blobs, plan_seal, check_candidates, snapshot_references, checked_plan,
  without_trash, finish, collect, execute_gc,
}
use diffdossier.Retention.Moved.{retained_dirs, move_runs-retained, remove_blobs-Leaves}

module _ (sha : Sha256) (encoder : Encoder) (json : ArchiveJson) (plan_text : GcPlan → String) where
  candidate_keys-All :
      (candidates : List GcCandidate) (keys : List String)
      → ((c : GcCandidate)
          → string_in (candidate_key c) (map candidate_key candidates) ≡ true
          → string_in (candidate_key c) keys ≡ true)
      → All (λ c. string_in (candidate_key c) keys ≡ true) candidates
  unfolding string_in
  candidate_keys-All [] keys f = tt
  candidate_keys-All (c ∷ rest) keys f = (
    f c (ground (arith, eq_refl (candidate_key c))),
    candidate_keys-All rest keys (λ d h. f d (ground arith)),
  )

  -- What a collection leaves: the directories that are not candidates, and the other blobs.
  abbrev Collected : GcPlan → Store → Store → Type 0
  Collected plan s s' =
      (retained_dirs (map candidate_key plan.candidates) s'
        ≡ retained_dirs (map candidate_key plan.candidates) s)
      × ((x : String) → string_in x plan.blob_digests ≡ false → get x s'.blobs ≡ get x s.blobs)

  finish-Collected :
      (plan : GcPlan) (now n : ℕ) (s t : Store)
      → Collected plan s t
      → Collected plan s (finish sha encoder json plan_text plan now n t).1
  unfolding finish without_trash
  finish-Collected plan now zero s t h = h
  finish-Collected plan now (suc zero) s t h = h
  finish-Collected plan now (suc (suc n)) s t h = h

  collect-Collected :
      (plan : GcPlan) (now n : ℕ) (s : Store)
      → Collected plan s (collect sha encoder json plan_text plan now n s).1
  unfolding collect finish without_trash
  collect-Collected plan now n s =
      let keys = map candidate_key plan.candidates in
      let moved = move_runs plan.plan_digest n plan.candidates s in
      let (a, (b, e)) =
        move_runs-retained keys plan.plan_digest n plan.candidates s
          (candidate_keys-All plan.candidates keys (λ c h. h)) in
      let first : Collected plan s moved.1 = (a, λ x h. ap (get x) b) in
      elim (Outcome-cases moved.0) [
        | inr (why, o) ↦ rw (o, collect) first
        | inl (m, o) ↦
            let removed = remove_blobs sha m plan.blob_digests moved.1 in
            let (c, (f, g)) = remove_blobs-Leaves sha m plan.blob_digests moved.1 in
            let second : Collected plan s removed.1 = (
              ap (λ (t : List Dir). filter (λ (d : Dir). not (string_in (key_of d) keys)) t) c ∙ a,
              λ x h. g x h ∙ ap (get x) b,
            ) in
            elim (Outcome-cases removed.0) [
              | inr (why, p) ↦ rw (o, p, collect) second
              | inl (k, p) ↦ rw (o, p, collect) (finish-Collected plan now k s removed.1 second)
            ]
      ]

  same_strings-eq : (xs ys : List String) → same_strings xs ys ≡ true → xs ≡ ys
  unfolding same_strings
  same_strings-eq [] [] h = refl
  same_strings-eq [] (y ∷ ys) h = cc
  same_strings-eq (x ∷ xs) [] h = cc
  same_strings-eq (x ∷ xs) (y ∷ ys) h =
      cc ((eq_iff x y).0 (ground arith), same_strings-eq xs ys (ground arith))

  All-filter : (p : String → Bool) (xs : List String) → All (λ x. p x ≡ true) (filter p xs)
  All-filter p [] = tt
  All-filter p (x ∷ xs) = elim (Bool-cases (p x)) [
    | inl e ↦ rw e (e, All-filter p xs)
    | inr e ↦ rw e (All-filter p xs)
  ]

  unretained-excludes :
      (retained references : List String) (x : String)
      → string_in x retained ≡ true
      → string_in x (unretained retained references) ≡ false
  unfolding unretained
  unretained-excludes retained references x h =
      let kept = λ (digest : String). not (string_in digest retained) in
      elim (Bool-cases (string_in x (unretained retained references))) [
        | inr e ↦ e
        | inl e ↦ absurd (
            cc (
              h,
              All-string_in (λ y. not (string_in y retained) ≡ true)
                  (unretained retained references) x
                  (All-sort_by (λ y. y) (λ y. not (string_in y retained) ≡ true)
                    (filter kept (distinct references)) (All-filter kept (distinct references)))
                  e,
            ))
      ]

  pub checked_plan-ok :
      (digest : String) (s : Store) (plan : GcPlan)
      → checked_plan sha encoder json plan_text digest s ≡ ok plan
      → (get digest s.plans ≡ some plan)
        × (plan.plan_digest ≡ digest)
        × (check_candidates sha encoder json plan_text s plan plan.candidates ≡ ok tt)
        × ((references : List String × List String) × (more : List String) × (blob_references
                (map candidate_key plan.candidates)
                s.active
              ≡ ok references)
            × (unretained references.0 (references.1 ++ more) ≡ plan.blob_digests))
  unfolding checked_plan
  checked_plan-ok digest s plan h = elim (Option-cases (get digest s.plans)) [
    | inl g ↦ absurd (cc (rw (g, checked_plan) at h))
    | inr (p, g) ↦
        let (u1, integrity, h1) =
          >>=-eq-ok
            (refuse_if
              (not (p.plan_digest == digest)
                || not (plan_seal sha encoder json plan_text p == digest))
              "GC plan integrity check failed")
            _ (rw (g, checked_plan) at h) in
        let (u2, metadata, h2) =
          >>=-eq-ok
            (refuse_if
              (not (valid_id p.repository_id "repo-" 32)
                || (eqb p.retention_days 0 || eqb p.as_of 0))
              "GC plan metadata is invalid")
            _ h1 in
        let (u3, candidates, h3) =
          >>=-eq-ok (check_candidates sha encoder json plan_text s p p.candidates) _ h2 in
        let (references, r, h4) =
          >>=-eq-ok (blob_references (map candidate_key p.candidates) s.active) _ h3 in
        let (more, m, h5) =
          >>=-eq-ok (snapshot_references sha encoder json plan_text s digest p.candidates) _ h4 in
        let found = unretained references.0 (references.1 ++ more) in
        let (u4, same, last) =
          >>=-eq-ok
            (refuse_if (not (same_strings found p.blob_digests))
              "blob reference set changed after GC planning")
            _ h5 in
        let claimed = refuse_if-ok _ _ u1 integrity in
        let listed = refuse_if-ok _ _ u4 same in
        subst
          (λ (q : GcPlan).
            (get digest s.plans ≡ some q)
            × (q.plan_digest ≡ digest)
            × (check_candidates sha encoder json plan_text s q q.candidates ≡ ok tt)
            × ((references : List String × List String) × (more : List String) × (blob_references
                    (map candidate_key q.candidates) s.active
                  ≡ ok references)
                × (unretained references.0 (references.1 ++ more) ≡ q.blob_digests)))
          (ok-injective last)
          (
            g,
            (eq_iff p.plan_digest digest).0 (ground arith),
            candidates,
            (references, more, r, same_strings-eq found p.blob_digests (ground arith)),
          )
  ]

  -- Whatever `ExecuteGC` returns, also where the file system fails in the middle: the directories
  -- that are not candidates of the plan stay as they are, and so does every blob that one of them
  -- refers to.
  pub execute_gc-keeps :
      (gc_lock : Bool) (n : ℕ) (digest : String) (now : ℕ) (s : Store) (plan : GcPlan)
      → get digest s.plans ≡ some plan
      → let keys = map candidate_key plan.candidates in
        let s' = (execute_gc sha encoder json plan_text gc_lock n digest now s).1 in
        (retained_dirs keys s' ≡ retained_dirs keys s)
        × ((retained references : List String)
            → blob_references keys s.active ≡ ok (retained, references)
            → (x : String) → string_in x retained ≡ true
            → get x s'.blobs ≡ get x s.blobs)
  unfolding execute_gc without_trash
  execute_gc-keeps gc_lock n digest now s plan stored_plan =
      let refused = not (is_digest digest) || eqb now 0 in
      elim (Bool-cases refused) [
        | inl e ↦ rw (e, execute_gc) (refl, λ retained references r x h. refl)
        | inr e ↦ elim (Bool-cases gc_lock) [
          | inr l ↦ rw (e, l, execute_gc) (refl, λ retained references r x h. refl)
          | inl l ↦ elim (Option-cases (get digest s.executions)) [
            | inr (completed, c) ↦ elim (Bool-cases (completed.plan_digest == digest)) [
              | inl d ↦ rw (e, l, c, d, execute_gc) (refl, λ retained references r x h. refl)
              | inr d ↦ rw (e, l, c, d, execute_gc) (refl, λ retained references r x h. refl)
            ]
            | inl c ↦ elim (Outcome-cases (checked_plan sha encoder json plan_text digest s)) [
              | inr (why, k) ↦ rw (e, l, c, k, execute_gc) (refl, λ retained references r x h. refl)
              | inl (p, k) ↦
                  let (found, named, candidates, (refs, more, r, listed)) =
                    checked_plan-ok digest s p k in
                  let same : p ≡ plan = some-injective p plan (sym found ∙ stored_plan) in
                  let (dirs, blobs) = collect-Collected p now n s in
                  let s' = (collect sha encoder json plan_text p now n s).1 in
                  rw (e, l, c, k, execute_gc)
                    (
                      subst
                          (λ (q : GcPlan).
                            retained_dirs (map candidate_key q.candidates) s'
                            ≡ retained_dirs (map candidate_key q.candidates) s)
                          same dirs,
                      λ retained references r' x h.
                          let agree : refs ≡ (retained, references) = ok-injective (
                            sym r
                            ∙ subst
                                (λ (q : GcPlan).
                                  blob_references (map candidate_key q.candidates) s.active
                                  ≡ ok (retained, references))
                                (sym same) r') in
                          let there =
                            subst (λ (t : List String × List String). string_in x t.0 ≡ true)
                              (sym agree) h in
                          blobs x (
                            subst (λ ds. string_in x ds ≡ false) listed
                              (unretained-excludes refs.0 (refs.1 ++ more) x there)),
                    )
            ]
          ]
        ]
      ]
