-- ===== src/Policy.antt =====
-- internal/policy/classification.go and the approval type of pkg/schema/contracts.go: data classes,
-- and what trusts, grants and approvals authorize. Times are nanoseconds; 0 is the zero time.
pub mod Classes
pub mod Approvals
use diffdossier.Prelude.{
  ℕ, String, Bool, true, false, not, ◌&&◌, ◌||◌, Option, none, some, List, [], ◌∷◌, ltb, leb, eqb,
  if◌then◌else◌, ◌==◌, Outcome, ok, err,
}
use diffdossier.Digests.{Sha256, tagged}

-- `classRank[class]`, with `none` for a class that the map lacks.
unfoldable pub class_rank : String → Option ℕ
class_rank class =
    if class == "public_synthetic"
    then some 0
    else if class == "public_project"
    then some 1
    else if class == "private_project"
    then some 2
    else if class == "secret_denied"
    then some 3
    else none

-- Go reads a missing key as 0.
unfoldable pub rank_or_zero : String → ℕ
rank_or_zero class = elim (class_rank class) [ none ↦ 0 | some n ↦ n ]

unfoldable pub restrict : String → List String → Outcome String
restrict selected [] = ok selected
restrict selected (class ∷ rest) =
    let higher = restrict class rest in
    let lower = restrict selected rest in
    elim (class_rank class) [
      | none ↦ err "unknown data class"
      | some rank ↦ if ltb (rank_or_zero selected) rank then higher else lower
    ]

unfoldable pub most_restrictive : List String → Outcome String
most_restrictive [] = ok "private_project"
most_restrictive (class ∷ rest) = restrict "public_synthetic" (class ∷ rest)

pub record TrustBinding : Type 0 where
  pub repository_id : String
  pub snapshot_id : String
  pub task_input_digest : String
  pub execution_plan_digest : String
  pub config_digest : String
  pub binary_digest : String
  pub capability : String
  pub expires_at : ℕ

unfoldable pub trust_authorizes : TrustBinding → TrustBinding → ℕ → Bool
trust_authorizes binding candidate now =
    if eqb binding.expires_at 0 || not (ltb now binding.expires_at)
    then false
    else binding.repository_id == candidate.repository_id
      && (binding.snapshot_id == candidate.snapshot_id
          && (binding.task_input_digest == candidate.task_input_digest
              && (binding.execution_plan_digest == candidate.execution_plan_digest
                  && (binding.config_digest == candidate.config_digest
                      && (binding.binary_digest == candidate.binary_digest
                          && binding.capability == candidate.capability)))))

-- A byte count is Go's `int64`, which a request may give as a negative number.
pub data Count : Type 0 where
  count : ℕ → Count
  below_zero : ℕ → Count

-- `0 <= n && n <= m`
unfoldable pub fits : Count → Count → Bool
fits (count n) (count m) = leb n m
fits (count n) (below_zero m) = false
fits (below_zero n) m = false

pub record EgressRequest : Type 0 where
  pub provider : String
  pub snapshot_id : String
  pub task_input_digest : String
  pub data_class : String
  pub bytes : Count

pub record EgressGrant : Type 0 where
  pub provider : String
  pub snapshot_id : String
  pub task_input_digest : String
  pub data_class : String
  pub max_bytes : Count
  pub expires_at : ℕ

unfoldable pub grant_authorizes : EgressGrant → EgressRequest → ℕ → Bool
grant_authorizes grant request now =
    if request.data_class == "secret_denied"
      || (eqb grant.expires_at 0 || not (ltb now grant.expires_at))
    then false
    else grant.provider == request.provider
      && (grant.snapshot_id == request.snapshot_id
          && (grant.task_input_digest == request.task_input_digest
              && (grant.data_class == request.data_class && fits request.bytes grant.max_bytes)))

pub record PublicCandidate : Type 0 where
  pub digest : String
  pub artifact_class : String
  pub action : String
  pub policy_digest : String
  pub scan_digest : String
  pub public_revision : String
  pub redaction_approval_digest : String

-- pkg/schema: the part of an approval that binds it to a candidate.
pub record ApprovalBinding : Type 0 where
  pub schema_version : String
  pub candidate_digest : String
  pub data_class : String
  pub action : String
  pub policy_digest : String
  pub scan_digest : String
  pub redaction_approval_digest : String
  pub approved_at : String

pub record PublicApproval : Type 0 where
  pub binding : ApprovalBinding
  pub approved_by : String
  pub digest : String
  pub revoked : Bool

pub record RedactionApproval : Type 0 where
  pub schema_version : String
  pub source_run_digest : String
  pub derived_content_digest : String
  pub redaction_manifest_digest : String
  pub scan_digest : String
  pub approved_by : String
  pub approved_at : ℕ
  pub digest : String

-- Go's JSON texts of the two approvals, and RFC 3339 times: parameters of the model.
pub record ApprovalJson : Type 0 where
  pub public_text : PublicApproval → String
  pub redaction_text : RedactionApproval → String
  pub format_time : ℕ → String
  pub is_time : String → Bool

module _ (sha : Sha256) (json : ApprovalJson) where
  unfoldable pub digest_approval : PublicApproval → String
  digest_approval approval =
      tagged sha (json.public_text (record approval { digest = ""; revoked = false }))

  unfoldable pub digest_redaction : RedactionApproval → String
  digest_redaction approval = tagged sha (json.redaction_text (record approval { digest = "" }))

  unfoldable pub new_public_approval : PublicCandidate → String → ℕ → Outcome PublicApproval
  unfolding digest_approval
  new_public_approval candidate approved_by now =
      let approval : PublicApproval = record {
        binding = record {
          schema_version = "1.0";
          candidate_digest = candidate.digest;
          data_class = candidate.artifact_class;
          action = candidate.action;
          policy_digest = candidate.policy_digest;
          scan_digest = candidate.scan_digest;
          redaction_approval_digest = candidate.redaction_approval_digest;
          approved_at = json.format_time now;
        };
        approved_by = approved_by;
        digest = "";
        revoked = false;
      } in
      if approved_by == ""
      then err "public approval requires approver"
      else ok (record approval { digest = digest_approval approval })

  -- The first and the last test of `PublicApproval.Authorizes`.
  unfoldable pub is_broken : PublicApproval → Bool
  is_broken approval =
      not (approval.binding.schema_version == "1.0")
      || (approval.approved_by == ""
          || (approval.digest == ""
              || not (
                  approval.digest
                  == digest_approval (record approval { digest = ""; revoked = false }))))

  unfoldable pub mismatches : PublicApproval → PublicCandidate → Bool
  mismatches approval candidate =
      let b = approval.binding in
      not (b.candidate_digest == candidate.digest)
      || (not (b.data_class == candidate.artifact_class)
          || (not (b.action == candidate.action)
              || (not (b.policy_digest == candidate.policy_digest)
                  || (not (b.scan_digest == candidate.scan_digest)
                      || not
                          (b.redaction_approval_digest == candidate.redaction_approval_digest)))))

  -- `PublicApproval.Authorizes`
  unfoldable pub public_authorizes : PublicApproval → PublicCandidate → Outcome (Unit {0})
  public_authorizes approval candidate =
      if approval.revoked
      then err "public export approval is revoked"
      else if is_broken approval
      then err "public export approval integrity is invalid"
      else if not (json.is_time approval.binding.approved_at)
      then err "public export approval time is invalid"
      else if not (candidate.artifact_class == "public_synthetic")
          && (not (candidate.artifact_class == "public_project")
              && not (candidate.artifact_class == "redacted_summary"))
      then err "artifact class is not publicly exportable"
      else if candidate.artifact_class == "public_project" && candidate.public_revision == ""
      then err "public_project requires a bound public revision"
      else if candidate.artifact_class == "redacted_summary"
          && candidate.redaction_approval_digest == ""
      then err "redacted_summary requires a private redaction approval digest"
      else if mismatches approval candidate
      then err "public export approval does not exactly match candidate"
      else ok tt

  unfoldable pub new_redaction_approval :
      String → String → String → String → String → ℕ → Outcome RedactionApproval
  unfolding digest_redaction
  new_redaction_approval source_run derived_content manifest scan approved_by now =
      let approval : RedactionApproval = record {
        schema_version = "1.0";
        source_run_digest = source_run;
        derived_content_digest = derived_content;
        redaction_manifest_digest = manifest;
        scan_digest = scan;
        approved_by = approved_by;
        approved_at = now;
        digest = "";
      } in
      if source_run == ""
        || (derived_content == "" || (manifest == "" || (scan == "" || approved_by == "")))
      then err "redaction approval requires exact digests and approver"
      else ok (record approval { digest = digest_redaction approval })

  -- `RedactionApproval.Authorizes`
  unfoldable pub redaction_authorizes : RedactionApproval → PublicCandidate → Outcome (Unit {0})
  redaction_authorizes approval candidate =
      if not (approval.schema_version == "1.0")
        || (approval.approved_by == ""
            || (eqb approval.approved_at 0
                || (not (approval.digest == digest_redaction approval)
                    || (not (approval.derived_content_digest == candidate.digest)
                        || (not (approval.scan_digest == candidate.scan_digest)
                            || not (approval.digest == candidate.redaction_approval_digest))))))
      then err "redaction approval does not exactly match candidate"
      else ok tt
