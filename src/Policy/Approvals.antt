-- ===== src/Policy/Approvals.antt =====
-- internal/policy/classification.go: what a public approval binds, and what it leaves open.
use diffdossier.Prelude.{String, false, ◌==◌, ok, ◌≡◌, refl, arith, eq_iff}
use diffdossier.Digests.{Sha256}
use diffdossier.Policy.{
  PublicCandidate, PublicApproval, ApprovalJson, public_authorizes, mismatches,
}

module _ (sha : Sha256) (json : ApprovalJson) where
  -- What an approval names of a candidate.
  abbrev pub IsBoundTo : PublicApproval → PublicCandidate → Type 0
  IsBoundTo approval candidate =
      (approval.binding.candidate_digest ≡ candidate.digest)
      × (approval.binding.data_class ≡ candidate.artifact_class)
      × (approval.binding.action ≡ candidate.action)
      × (approval.binding.policy_digest ≡ candidate.policy_digest)
      × (approval.binding.scan_digest ≡ candidate.scan_digest)
      × (approval.binding.redaction_approval_digest ≡ candidate.redaction_approval_digest)

  public_authorizes-matches :
      (approval : PublicApproval) (candidate : PublicCandidate)
      → public_authorizes sha json approval candidate ≡ ok tt
      → mismatches sha json approval candidate ≡ false
  unfolding public_authorizes
  public_authorizes-matches approval candidate h = ground arith

  matches-IsBoundTo :
      (approval : PublicApproval) (candidate : PublicCandidate)
      → mismatches sha json approval candidate ≡ false
      → IsBoundTo approval candidate
  unfolding mismatches
  matches-IsBoundTo approval candidate h = ground (
    arith,
    eq_iff approval.binding.candidate_digest candidate.digest,
    eq_iff approval.binding.data_class candidate.artifact_class,
    eq_iff approval.binding.action candidate.action,
    eq_iff approval.binding.policy_digest candidate.policy_digest,
    eq_iff approval.binding.scan_digest candidate.scan_digest,
    eq_iff approval.binding.redaction_approval_digest candidate.redaction_approval_digest,
  )

  public_authorizes-IsBoundTo :
      (approval : PublicApproval) (candidate : PublicCandidate)
      → public_authorizes sha json approval candidate ≡ ok tt
      → IsBoundTo approval candidate
  public_authorizes-IsBoundTo approval candidate h =
      matches-IsBoundTo approval candidate (public_authorizes-matches approval candidate h)

  -- Two candidates that one approval authorizes differ in the public revision at most.
  pub public_authorizes-agree :
      (approval : PublicApproval) (a b : PublicCandidate)
      → public_authorizes sha json approval a ≡ ok tt
      → public_authorizes sha json approval b ≡ ok tt
      → b ≡ record a { public_revision = b.public_revision }
  public_authorizes-agree approval a b ha hb =
      let pa = public_authorizes-IsBoundTo approval a ha in
      let pb = public_authorizes-IsBoundTo approval b hb in cc

  mismatches-revision :
      (approval : PublicApproval) (candidate : PublicCandidate) (revision : String)
      → mismatches sha json approval (record candidate { public_revision = revision })
        ≡ mismatches sha json approval candidate
  unfolding mismatches
  mismatches-revision approval candidate revision = refl

  -- An approval that authorizes a candidate authorizes it with any other public revision that is
  -- not empty: the revision is not bound.
  pub revision-open :
      (approval : PublicApproval) (candidate : PublicCandidate) (revision : String)
      → public_authorizes sha json approval candidate ≡ ok tt
      → (revision == "") ≡ false
      → public_authorizes sha json approval (record candidate { public_revision = revision })
        ≡ ok tt
  unfolding public_authorizes
  revision-open approval candidate revision h r =
      ground (arith, mismatches-revision approval candidate revision)
