-- ===== src/Tests/Ledgers.antt =====
-- Witnesses on a ledger of two confirmed findings.
use diffdossier.Prelude.{
  String, true, false, none, some, [], ◌∷◌, items, All, ok, err, refl, ◌≡◌, ◌==◌, string_in,
  sort_by, sort_strings, insert_by, if◌then◌else◌, ltb,
}
use diffdossier.Results
use diffdossier.Results.{Line, Reviewer, Result}
use diffdossier.Findings.{
  FindingRecord, FindingLedger, FixAuthorization, Request, transition_finding, transition_loop,
  transition_record, moved, allowed_finding_transition, next_finding_states, authorize_fix,
  authorized, mark, mark_all, is_repeat, sealed, verify_fix_authorization, import_findings,
  import_loop, imported, fresh_ledger,
}
use diffdossier.Findings.Ledger.{IsMove, transition_finding-IsMove}
use diffdossier.Findings.Marks.{Related, Fixed}
use diffdossier.Findings.Authorization.{
  authorize_fix-Fixed, authorize_fix-verify, same_digest-same_authorization,
}
use diffdossier.Findings.Governed.{
  AreGoverned, IsReachable, start, next, imports, IsReachable-AreGoverned,
}
use diffdossier.Tests.Encoders.{sha, json, sha-IsCollisionFree, encode-injective}

abbrev reviewer : Reviewer
reviewer = record {
  provider = "p";
  model = "m";
  model_family = "f";
  pass_id = "1";
  perspective = "correctness";
  prompt_digest = "d";
  context_isolation = "fresh";
}

abbrev finding : Results.Finding
finding = record {
  id = "F";
  severity = "high";
  confidence = "high";
  category = "c";
  path_bytes_base64 = "YQ==";
  trigger_path_bytes_base64 = "YQ==";
  line = Line.line 3;
  evidence = "e";
  impact = "i";
  remediation = "r";
  verification = "v";
  state = "reported";
  line_presence_known = true;
  line_present = true;
}

abbrev confirmed : String → FindingRecord
confirmed id = record {
  id = id;
  finding = finding;
  task_id = "t";
  snapshot_id = "s";
  reviewer = reviewer;
  state = "confirmed";
  state_operator = "o";
  reason = "";
  owner = "";
  expires_at = none;
  review_trigger = "";
  updated_at = 1;
}

abbrev pub ledger : FindingLedger
ledger = record { schema_version = "1.0"; findings = some (confirmed "a" ∷ confirmed "b" ∷ []) }

abbrev request : Request
request = record {
  next = "accepted_risk";
  operator = "o";
  reason = "known";
  owner = "team";
  review_trigger = "release";
  expires_at = some 9;
  now = 2;
}

abbrev after_move : FindingLedger
after_move = record {
  schema_version = "1.0";
  findings = some (confirmed "a" ∷ moved request (confirmed "b") ∷ []);
}

transition-succeeds : transition_finding ledger "b" request ≡ ok after_move
unfolding transition_finding transition_loop transition_record allowed_finding_transition
    next_finding_states
transition-succeeds = refl

transition_finding-IsMove_example :
    (("o" == "") ≡ false) × IsMove "b" request (items ledger.findings) (items after_move.findings)
transition_finding-IsMove_example =
    transition_finding-IsMove ledger after_move "b" request transition-succeeds

abbrev authorization : FixAuthorization
authorization = sealed sha json (record {
  schema_version = "1.0";
  snapshot_id = "s";
  finding_ids = "b" ∷ [];
  scope_digest = "x";
  authorized_by = "o";
  authorized_at = 2;
  expires_at = 5;
  digest = "";
})

abbrev after_fix : FindingLedger
after_fix = record {
  schema_version = "1.0";
  findings = some (confirmed "a" ∷ authorized "o" 2 (confirmed "b") ∷ []);
}

authorize-succeeds :
    authorize_fix sha json ledger "s" ("b" ∷ []) "o" "x" 2 5 ≡ ok (authorization, after_fix)
unfolding authorize_fix mark_all mark is_repeat sort_by
authorize-succeeds = refl

authorize_fix-Fixed_example :
    All (λ id. string_in id ("a" ∷ "b" ∷ []) ≡ true) (sort_strings ("b" ∷ []))
    × Related
        (Fixed "s" "o" 2 (sort_strings ("b" ∷ [])))
        (items ledger.findings)
        (items after_fix.findings)
authorize_fix-Fixed_example =
    authorize_fix-Fixed sha json ledger "s" ("b" ∷ []) "o" "x" 2 5 authorization after_fix
      authorize-succeeds

authorize_fix-verify_example :
    verify_fix_authorization sha json authorization 4
    ≡ (if ltb 4 5 then ok tt else err "fix authorization is invalid or expired")
authorize_fix-verify_example =
    authorize_fix-verify sha json ledger "s" ("b" ∷ []) "o" "x" 2 5 authorization after_fix 4
      authorize-succeeds

same_digest-same_authorization_example : authorization ≡ authorization
same_digest-same_authorization_example =
    same_digest-same_authorization sha json authorization authorization 3 4 sha-IsCollisionFree
      encode-injective
      (authorize_fix-verify sha json ledger "s" ("b" ∷ []) "o" "x" 2 5 authorization after_fix 3
        authorize-succeeds)
      authorize_fix-verify_example refl

abbrev pub result : Result
result = record {
  schema_version = "1.1";
  task_id = "t";
  snapshot_id = "s";
  task_input_hash = "h";
  reviewer = reviewer;
  coverage = some [];
  findings = some (finding ∷ []);
  needs_confirmation = some [];
  residual_risks = some [];
  status = "completed";
}

abbrev imported_ledger : FindingLedger
imported_ledger = record {
  schema_version = "1.0";
  findings = some (imported sha result finding 1 ∷ []);
}

import-succeeds : import_findings sha fresh_ledger result 1 ≡ ok imported_ledger
unfolding import_findings import_loop string_in sort_by insert_by
import-succeeds = refl

imported-IsReachable : IsReachable sha json imported_ledger
imported-IsReachable = next start (imports result 1 import-succeeds)

IsReachable-AreGoverned_example : AreGoverned (items imported_ledger.findings)
IsReachable-AreGoverned_example =
    IsReachable-AreGoverned sha json imported_ledger imported-IsReachable
