-- ===== src/Tests/Reviews.antt =====
-- Witnesses for the planner, the invalidation, the policy, the redaction and the verdict.
use diffdossier.Prelude.{
  ℕ, ◌<◌, ◌≤◌, suc, String, true, false, none, some, List, [], ◌∷◌, ok, refl, ◌≡◌, ◌==◌, ◌↔◌, arith,
  length,
}
use diffdossier.Inventory.{Entry}
use diffdossier.Planner.{Task, Limits, group_slices}
use diffdossier.Planner.Slices.{IsSlicing, group_slices-IsSlicing}
use diffdossier.Invalidation.{Invalidation, rounds, known_ids, nothing, add_reload}
use diffdossier.Invalidation.Closure.{Keeps}
use diffdossier.Invalidation.Rounds.{IsClosed, rounds-IsClosed}
use diffdossier.Risk.{PathText, Inferred, Override, apply_overrides, overridden, rank}
use diffdossier.Risk.Levels.{IsRaised, apply_overrides-IsRaised}
use diffdossier.Policy.{
  TrustBinding, trust_authorizes, EgressGrant, EgressRequest, grant_authorizes, Count,
  most_restrictive, restrict, class_rank, rank_or_zero, PublicCandidate, PublicApproval,
  ApprovalJson, public_authorizes, is_broken, mismatches, new_public_approval, digest_approval,
}
use diffdossier.Policy.Classes.{
  IsTop, most_restrictive-IsTop, trust_authorizes_iff, grant_authorizes_iff, granted,
}
use diffdossier.Policy.Approvals.{public_authorizes-agree, revision-open}
use diffdossier.Redact.{Bytes, bytes, known_marker, Library, replace_known}
use diffdossier.Redact
use diffdossier.Redact.Known.{Occurs, count, replace_known-ends, replace_known-diverges}
use diffdossier.Reporting
use diffdossier.Reporting.{Input, GateEvidence}
use diffdossier.Reporting.Verdict.{IsReady, build-IsReady_iff}
use diffdossier.Digests.{tagged}
use diffdossier.Tests.Encoders.{sha}
use diffdossier.Tests.Ledgers.{ledger}

abbrev entry_at : String → ℕ → Entry
entry_at path size = record {
  scope = "staged";
  status = "M";
  path = record { bytes_base64 = path; utf8 = none };
  old_path = none;
  kind = "file";
  mode = "";
  size = size;
  content_hash = "";
  binary = false;
  link_target = none;
  git_object = "";
  lfs_oid = "";
  lfs_size = 0;
  submodule_dirty = false;
  content = [];
  previous_kind = "";
  previous_mode = "";
  previous_size = 0;
  previous_content_hash = "";
  previous_git_object = "";
  previous_content = [];
}

abbrev entries : List Entry
entries = entry_at "a" 3 ∷ entry_at "a" 4 ∷ entry_at "b" 5 ∷ []

abbrev limits : Limits
limits = record { max_files = 8; max_packet_bytes = 6 }

group_slices-IsSlicing_example : IsSlicing (group_slices limits entries) entries
group_slices-IsSlicing_example = group_slices-IsSlicing limits entries

abbrev task_with : String → List String → Task
task_with id dependencies = record {
  schema_version = "1.0";
  id = id;
  snapshot_id = "s";
  risk = "L2";
  contract_types = [];
  paths = [];
  dependency_tasks = dependencies;
  total_bytes = 0;
  oversized = false;
  needs_confirmation = false;
  required_passes = 1;
  perspectives = [];
}

abbrev tasks : List Task
tasks = task_with "1" [] ∷ task_with "2" ("1" ∷ []) ∷ task_with "3" ("2" ∷ []) ∷ []

abbrev direct : Invalidation
direct = add_reload "2" "direct path changed" nothing

rounds-IsClosed_example :
    IsClosed tasks (rounds (suc (length (known_ids tasks))) tasks direct)
    × Keeps direct (rounds (suc (length (known_ids tasks))) tasks direct)
rounds-IsClosed_example = rounds-IsClosed tasks direct

abbrev binding : TrustBinding
binding = record {
  repository_id = "r";
  snapshot_id = "s";
  task_input_digest = "t";
  execution_plan_digest = "e";
  config_digest = "c";
  binary_digest = "b";
  capability = "gate";
  expires_at = 9;
}

trust_authorizes_iff_example :
    (trust_authorizes binding (record binding { expires_at = 0 }) 3 ≡ true)
    ↔ ((3 < 9) × (binding ≡ record binding { expires_at = 9 }))
trust_authorizes_iff_example = trust_authorizes_iff binding (record binding { expires_at = 0 }) 3

abbrev grant : EgressGrant
grant = record {
  provider = "p";
  snapshot_id = "s";
  task_input_digest = "t";
  data_class = "public_project";
  max_bytes = Count.count 10;
  expires_at = 9;
}

abbrev egress : EgressRequest
egress = record {
  provider = "p";
  snapshot_id = "s";
  task_input_digest = "t";
  data_class = "public_project";
  bytes = Count.count 7;
}

grant_authorizes_iff_example : (grant_authorizes grant egress 3 ≡ true) ↔ (
    (3 < grant.expires_at)
    × ((grant.data_class == "secret_denied") ≡ false)
    × ((n m : ℕ) × (egress ≡ granted grant n) × (grant.max_bytes ≡ Count.count m) × (n ≤ m)))
grant_authorizes_iff_example = grant_authorizes_iff grant egress 3

classes-top : most_restrictive ("public_project" ∷ "private_project" ∷ []) ≡ ok "private_project"
unfolding most_restrictive restrict class_rank rank_or_zero
classes-top = refl

most_restrictive-IsTop_example :
    IsTop "public_synthetic" ("public_project" ∷ "private_project" ∷ []) "private_project"
most_restrictive-IsTop_example =
    most_restrictive-IsTop "public_project" ("private_project" ∷ []) "private_project" classes-top

abbrev candidate : PublicCandidate
candidate = record {
  digest = "d";
  artifact_class = "public_project";
  action = "export";
  policy_digest = "p";
  scan_digest = "s";
  public_revision = "v1";
  redaction_approval_digest = "";
}

abbrev approval_json : ApprovalJson
approval_json = record {
  public_text = λ a. a.approved_by;
  redaction_text = λ a. a.approved_by;
  format_time = λ n. "now";
  is_time = λ s. true;
}

abbrev approval : PublicApproval
approval = record {
  binding = record {
    schema_version = "1.0";
    candidate_digest = "d";
    data_class = "public_project";
    action = "export";
    policy_digest = "p";
    scan_digest = "s";
    redaction_approval_digest = "";
    approved_at = "now";
  };
  approved_by = "owner";
  digest = "sha256:owner";
  revoked = false;
}

approval-made : new_public_approval sha approval_json candidate "owner" 3 ≡ ok approval
unfolding new_public_approval digest_approval tagged
approval-made = refl

approval-authorizes : public_authorizes sha approval_json approval candidate ≡ ok tt
unfolding public_authorizes is_broken mismatches digest_approval tagged
approval-authorizes = refl

revision-open_example :
    public_authorizes sha approval_json approval (record candidate { public_revision = "v2" })
    ≡ ok tt
revision-open_example =
    revision-open sha approval_json approval candidate "v2" approval-authorizes refl

public_authorizes-agree_example :
    record candidate { public_revision = "v2" } ≡ record candidate { public_revision = "v2" }
public_authorizes-agree_example =
    public_authorizes-agree sha approval_json approval candidate
      (record candidate { public_revision = "v2" }) approval-authorizes revision-open_example

abbrev input : Input
input = record {
  run_id = "run";
  snapshot_id = "s";
  baseline = "";
  head = "";
  worktree = "";
  review_complete = true;
  reviewability = "reviewable";
  coverage = none;
  findings = ledger;
  needs_confirmation = some [];
  residual_risks = none;
  gates = some (record { id = "g"; blocking = true; status = "pass"; digest = "" } ∷ []);
  comparisons = none;
  human_merge_notes = none;
  evidence_limitations = none;
  now = 3;
}

build-IsReady_iff_example : (((Reporting.build input).verdict == "ready") ≡ true) ↔ IsReady input
build-IsReady_iff_example = build-IsReady_iff input

abbrev library : Library
library = record { digest = λ b. ""; find_all = λ rule b. [] }

replace_known-ends_example :
    (r : Bytes × List Redact.Finding) × (replace_known library 3 (bytes "xyz") (bytes "axyzb") []
      ≡ some r)
    × ¬ Occurs (bytes "xyz") r.0
unfolding count
replace_known-ends_example =
    replace_known-ends library (bytes "xyz") 120 (omega arith) refl 3 (bytes "axyzb") []
      (omega arith)

replace_known-diverges_example : replace_known library 100 (bytes "known") (bytes "known") [] ≡ none
replace_known-diverges_example =
    replace_known-diverges library (bytes "known") 100 (bytes "known") []
      (bytes "[REDACTED:", bytes "-value]", refl) ([], [], refl)

abbrev path_text : PathText
path_text = record {
  to_lower = λ s. s;
  to_slash = λ s. s;
  contains = λ value part. value == part;
  matches = λ glob path. some (glob == path);
}

abbrev inferred_risk : Inferred
inferred_risk = record { level = "L2"; reasons = []; known = false }

abbrev overrides : List Override
overrides =
    record { glob = "a"; level = "L4"; reason = "x" }
    ∷ record { glob = "a"; level = "L1"; reason = "y" }
    ∷ []

abbrev raised_risk : Inferred
raised_risk = record { level = "L4"; reasons = "policy: x" ∷ "policy: y" ∷ []; known = true }

overrides-apply : apply_overrides path_text "a" overrides inferred_risk ≡ ok raised_risk
unfolding apply_overrides overridden rank
overrides-apply = refl

apply_overrides-IsRaised_example : IsRaised path_text inferred_risk raised_risk
apply_overrides-IsRaised_example =
    apply_overrides-IsRaised path_text "a" overrides inferred_risk raised_risk overrides-apply
