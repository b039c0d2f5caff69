-- ===== src/Policy/Classes.antt =====
-- internal/policy/classification.go: the most restrictive class, and what a trust binding and an
-- egress grant authorize.
use diffdossier.Prelude.{
  ℕ, String, true, false, some, List, [], ◌∷◌, ltb, All, ◌≤◌, ◌<◌, ◌==◌, ok, Option-cases,
  Bool-cases, inl, inr, ok-injective, ◌≡◌, refl, sym, arith, string_in, eq_iff, eq_refl, subst, ◌↔◌,
  ◌⊎◌,
}
use diffdossier.Policy.{
  class_rank, rank_or_zero, restrict, most_restrictive, TrustBinding, trust_authorizes, EgressGrant,
  EgressRequest, grant_authorizes, fits, Count,
}

-- A class of the list, or the one at the start, that no class of the list goes above.
abbrev pub IsTop : String → List String → String → Type 0
IsTop selected classes top =
    (rank_or_zero selected ≤ rank_or_zero top)
    × All (λ class. rank_or_zero class ≤ rank_or_zero top) classes
    × ((top ≡ selected) ⊎ (string_in top classes ≡ true))

rank_or_zero-some : (class : String) (n : ℕ) → class_rank class ≡ some n → rank_or_zero class ≡ n
unfolding rank_or_zero
rank_or_zero-some class n e = rw (e, rank_or_zero) refl

restrict-IsTop :
    (selected : String) (classes : List String) (top : String)
    → restrict selected classes ≡ ok top
    → IsTop selected classes top
unfolding restrict string_in
restrict-IsTop selected [] top h =
    let e : top ≡ selected = sym (ok-injective h) in (ground (arith, e), tt, inl e)
restrict-IsTop selected (class ∷ rest) top h = elim (Option-cases (class_rank class)) [
  | inl e ↦ absurd (cc (rw (e, restrict) at h))
  | inr (rank, e) ↦
      let r : rank_or_zero class ≡ rank = rank_or_zero-some class rank e in
      elim (Bool-cases (ltb (rank_or_zero selected) rank)) [
        | inl b ↦
            let (above, all_above, named) =
              restrict-IsTop class rest top (ground (arith, restrict, e, b)) in
            (
              ground (arith, above, r, b),
              (above, all_above),
              inr (ground (arith, named, string_in, eq_iff top class)),
            )
        | inr b ↦
            let (above, all_above, named) =
              restrict-IsTop selected rest top (ground (arith, restrict, e, b)) in
            (above, (ground (arith, above, r, b), all_above), ground (arith, named, string_in))
      ]
]

-- The class of a list that is not empty is one that no class of the list goes above: a class of the
-- list, or the lowest of all.
pub most_restrictive-IsTop :
    (class : String) (rest : List String) (top : String)
    → most_restrictive (class ∷ rest) ≡ ok top
    → IsTop "public_synthetic" (class ∷ rest) top
unfolding most_restrictive
most_restrictive-IsTop class rest top h = restrict-IsTop "public_synthetic" (class ∷ rest) top h

-- A binding authorizes a candidate before it expires, when they agree in all but the expiry, and
-- at no other time and no other candidate.
pub trust_authorizes_iff :
    (binding candidate : TrustBinding) (now : ℕ)
    → (trust_authorizes binding candidate now ≡ true) ↔ (
        (now < binding.expires_at)
        × (binding ≡ record candidate { expires_at = binding.expires_at }))
unfolding trust_authorizes
trust_authorizes_iff binding candidate now = ground (
  arith,
  eq_iff binding.repository_id candidate.repository_id,
  eq_iff binding.snapshot_id candidate.snapshot_id,
  eq_iff binding.task_input_digest candidate.task_input_digest,
  eq_iff binding.execution_plan_digest candidate.execution_plan_digest,
  eq_iff binding.config_digest candidate.config_digest,
  eq_iff binding.binary_digest candidate.binary_digest,
  eq_iff binding.capability candidate.capability,
)

fits_lem :
    (a b : Count)
    → fits a b ≡ true
    → (n m : ℕ) × (a ≡ Count.count n) × (b ≡ Count.count m) × (n ≤ m)
unfolding fits
fits_lem (Count.count n) (Count.count m) h = (n, m, refl, refl, ground arith)
fits_lem (Count.count n) (Count.below_zero m) h = cc
fits_lem (Count.below_zero n) m h = cc

-- What a grant stands for: a request for its provider, snapshot, task input and class, of so many
-- bytes.
abbrev pub granted : EgressGrant → ℕ → EgressRequest
granted grant n = record {
  provider = grant.provider;
  snapshot_id = grant.snapshot_id;
  task_input_digest = grant.task_input_digest;
  data_class = grant.data_class;
  bytes = Count.count n;
}

grant_authorizes-parts :
    (grant : EgressGrant) (request : EgressRequest) (now : ℕ)
    → grant_authorizes grant request now ≡ true
    → (now < grant.expires_at)
      × (request.provider ≡ grant.provider)
      × (request.snapshot_id ≡ grant.snapshot_id)
      × (request.task_input_digest ≡ grant.task_input_digest)
      × (request.data_class ≡ grant.data_class)
      × ((grant.data_class == "secret_denied") ≡ false)
      × (fits request.bytes grant.max_bytes ≡ true)
unfolding grant_authorizes
grant_authorizes-parts grant request now h = ground (
  arith,
  eq_iff grant.provider request.provider,
  eq_iff grant.snapshot_id request.snapshot_id,
  eq_iff grant.task_input_digest request.task_input_digest,
  eq_iff grant.data_class request.data_class,
)

granted-authorizes :
    (grant : EgressGrant) (now n m : ℕ)
    → now < grant.expires_at
    → (grant.data_class == "secret_denied") ≡ false
    → grant.max_bytes ≡ Count.count m
    → n ≤ m
    → grant_authorizes grant (granted grant n) now ≡ true
unfolding grant_authorizes fits
granted-authorizes grant now n m before denied max le = ground (
  arith,
  eq_refl grant.provider,
  eq_refl grant.snapshot_id,
  eq_refl grant.task_input_digest,
  eq_refl grant.data_class,
)

-- A grant authorizes a request before it expires, when the request is the granted one with a number
-- of bytes that is not negative and within the grant, and the class is not one that is denied; and
-- it authorizes at no other time and no other request.
pub grant_authorizes_iff :
    (grant : EgressGrant) (request : EgressRequest) (now : ℕ)
    → (grant_authorizes grant request now ≡ true) ↔ (
        (now < grant.expires_at)
        × ((grant.data_class == "secret_denied") ≡ false)
        × ((n m : ℕ) × (request ≡ granted grant n) × (grant.max_bytes ≡ Count.count m) × (n ≤ m)))
grant_authorizes_iff grant request now = (
  λ h.
      let (before, provider, snapshot, task, class, denied, fit) =
        grant_authorizes-parts grant request now h in
      let (n, m, bytes, max, le) = fits_lem request.bytes grant.max_bytes fit in
      let same : request ≡ granted grant n = cc in (before, denied, (n, m, same, max, le)),
  λ parts.
      let (before, denied, (n, m, same, max, le)) = parts in
      subst (λ r. grant_authorizes grant r now ≡ true) (sym same)
        (granted-authorizes grant now n m before denied max le),
)
