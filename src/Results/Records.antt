-- ===== src/Results/Records.antt =====
-- internal/results/index.go: what Append adds to the index.
use mathlib.Core.List.{Perm}
use mathlib.Core.List.Perm
use diffdossier.Prelude.{
  ℕ, String, Bool, true, false, not, List, [], ◌∷◌, ◌++◌, any, eqb, ◌==◌, eq_refl, ok, ok-injective,
  Bool-cases, inl, inr, sort_by-perm, ◌≡◌, refl, subst,
}
use diffdossier.Digests.{Sha256}
use diffdossier.Results.{Result, Validation}
use diffdossier.Results.Index.{
  Record, Index, ResultJson, same_pass, opened_index, sort_records, result_digest, recorded, append,
  verify_record, same_bool,
}

module _ (sha : Sha256) (json : ResultJson) where
  same_bool_refl : (b : Bool) → same_bool b b ≡ true
  unfolding same_bool
  same_bool_refl true = refl
  same_bool_refl false = refl

  recorded-verifies :
      (result : Result) (validation : Validation) (path : String) (now : ℕ)
      → eqb now 0 ≡ false
      → verify_record sha json (recorded sha json result validation path now) result validation
        ≡ ok tt
  unfolding verify_record recorded
  recorded-verifies result validation path now n =
      rw
        (
          eq_refl result.task_id,
          eq_refl result.reviewer.pass_id,
          eq_refl result.reviewer.perspective,
          eq_refl result.reviewer.provider,
          eq_refl result.reviewer.model,
          eq_refl result.reviewer.model_family,
          eq_refl result.reviewer.prompt_digest,
          eq_refl result.reviewer.context_isolation,
          eq_refl (result_digest sha json result),
          same_bool_refl validation.completed,
          n,
        )
        refl

  sort_records-perm : (records : List Record) → Perm (sort_records records) records
  unfolding sort_records
  sort_records-perm records =
      Perm.trans (sort_by-perm (λ (r : Record). r.task_id) _)
        (sort_by-perm (λ (r : Record). r.pass_id) records)

  -- An index that Append makes has the records it had, in any order, and one more; the new record
  -- verifies against the result that it stands for, if it is not made at the zero time; and no record
  -- of the task and the pass was there before.
  pub append-Perm :
      (index index' : Index) (result : Result) (validation : Validation) (path : String) (now : ℕ)
      → append sha json index result validation path now ≡ ok index'
      → eqb now 0 ≡ false
      → Perm index'.records
          ((opened_index index).records ++ recorded sha json result validation path now ∷ [])
        × (any (same_pass result) (opened_index index).records ≡ false)
        × (verify_record sha json (recorded sha json result validation path now) result validation
            ≡ ok tt)
  unfolding append
  append-Perm index index' result validation path now h n =
      let base = opened_index index in
      elim (Bool-cases (not (base.schema_version == "1.0"))) [
        | inl e ↦ absurd (cc (rw e at h))
        | inr e ↦ elim (Bool-cases (any (same_pass result) base.records)) [
          | inl f ↦ absurd (cc (rw (e, f) at h))
          | inr f ↦ (
            subst
                (λ (i : Index).
                  Perm i.records
                    (base.records ++ recorded sha json result validation path now ∷ []))
                (ok-injective (rw (e, f) at h))
                (sort_records-perm
                  (base.records ++ recorded sha json result validation path now ∷ [])),
            f,
            recorded-verifies result validation path now n,
          )
        ]
      ]
