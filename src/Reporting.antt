-- ===== src/Reporting.antt =====
-- internal/reporting/report.go: the report of a run and its verdict.
pub mod Verdict
use diffdossier.Prelude.{
  ℕ, String, Bool, true, false, not, ◌&&◌, ◌||◌, Option, none, some, List, [], ◌∷◌, ltb, is_empty,
  any, if◌then◌else◌, ◌==◌, Slice, items, sort_by, sort_strings,
}
use diffdossier.Findings.{FindingRecord, FindingLedger, has_expired}
use diffdossier.Results
use diffdossier.Results.{Confirmation, ResidualRisk}
use diffdossier.Results.Compare.{Comparison}

pub record GateEvidence : Type 0 where
  pub id : String
  pub blocking : Bool
  pub status : String
  pub digest : String

pub record Input : Type 0 where
  pub run_id : String
  pub snapshot_id : String
  pub baseline : String
  pub head : String
  pub worktree : String
  pub review_complete : Bool
  pub reviewability : String
  pub coverage : Slice (String × ℕ)
  pub findings : FindingLedger
  pub needs_confirmation : Slice Confirmation
  pub residual_risks : Slice ResidualRisk
  pub gates : Slice GateEvidence
  pub comparisons : Slice Comparison
  pub human_merge_notes : Slice String
  pub evidence_limitations : Slice String
  pub now : ℕ

pub record Report : Type 0 where
  pub schema_version : String
  pub verdict : String
  pub run_id : String
  pub snapshot_id : String
  pub baseline : String
  pub head : String
  pub worktree : String
  pub reviewability : String
  pub coverage : List (String × ℕ)
  pub findings : List FindingRecord
  pub needs_confirmation : List Confirmation
  pub gates : List GateEvidence
  pub reviewer_comparisons : List Comparison
  pub human_merge_notes : List String
  pub residual_risks : List ResidualRisk
  pub evidence_limitations : List String
  pub generated_at : ℕ

unfoldable pub awaits_confirmation : ℕ → FindingRecord → Bool
awaits_confirmation now f =
    f.state == "needs_confirmation" || (f.state == "accepted_risk" && has_expired f.expires_at now)

unfoldable pub is_open : FindingRecord → Bool
is_open f =
    (f.finding.severity == "critical" || f.finding.severity == "high")
    && (not (f.state == "rejected")
        && (not (f.state == "verified_closed") && not (f.state == "accepted_risk")))

-- The loop over the findings: the first that stops the merge decides.
unfoldable pub findings_verdict : ℕ → List FindingRecord → Option String
findings_verdict now [] = none
findings_verdict now (f ∷ rest) =
    let others = findings_verdict now rest in
    if awaits_confirmation now f
    then some "needs_confirmation"
    else if is_open f
    then some "not_ready"
    else others

unfoldable pub fails : GateEvidence → Bool
fails gate = gate.blocking && not (gate.status == "pass")

unfoldable pub verdict : Input → Report → String
verdict input report =
    if not (input.reviewability == "reviewable")
      || (not input.review_complete || not (is_empty report.evidence_limitations))
    then "not_reviewable"
    else if not (is_empty report.needs_confirmation)
    then "needs_confirmation"
    else elim (findings_verdict input.now report.findings) [
      | some stop ↦ stop
      | none ↦ if any fails report.gates then "not_ready" else "ready"
    ]

-- The report before its verdict.
unfoldable pub unjudged : Input → Report
unjudged input = record {
  schema_version = "1.0";
  verdict = "";
  run_id = input.run_id;
  snapshot_id = input.snapshot_id;
  baseline = input.baseline;
  head = input.head;
  worktree = input.worktree;
  reviewability = input.reviewability;
  coverage = items input.coverage;
  findings = sort_by (λ (f : FindingRecord). f.id) (items input.findings.findings);
  needs_confirmation = items input.needs_confirmation;
  gates = sort_by (λ (g : GateEvidence). g.id) (items input.gates);
  reviewer_comparisons = items input.comparisons;
  human_merge_notes = sort_strings (items input.human_merge_notes);
  residual_risks = items input.residual_risks;
  evidence_limitations = sort_strings (items input.evidence_limitations);
  generated_at = input.now;
}

unfoldable pub build : Input → Report
build input = let report = unjudged input in record report { verdict = verdict input report }
