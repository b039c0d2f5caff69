-- ===== src/Findings.antt =====
-- internal/workflow/findings.go: the finding ledger, its transitions and the authorization of
-- fixes. Times are nanoseconds on one clock, and 0 is the zero time.
pub mod Ledger
pub mod Marks
pub mod Authorization
pub mod Governed
use diffdossier.Prelude.{
  ℕ, String, Bool, true, false, not, ◌&&◌, ◌||◌, Option, none, some, List, [], ◌∷◌, ◌++◌, map,
  Slice, items, is_nil, is_empty, ltb, if◌then◌else◌, ◌==◌, Outcome, ok, err, ◌>>=◌, ◌>>◌,
  refuse_if, string_in, sort_by, sort_strings,
}
use diffdossier.Digests.{Sha256, tagged, short_id, ◌⋄◌, joined}
use diffdossier.Results
use diffdossier.Results.{Reviewer, Result}

pub record FindingRecord : Type 0 where
  pub id : String
  pub finding : Results.Finding
  pub task_id : String
  pub snapshot_id : String
  pub reviewer : Reviewer
  pub state : String
  pub state_operator : String
  pub reason : String
  pub owner : String
  pub expires_at : Option ℕ
  pub review_trigger : String
  pub updated_at : ℕ

pub record FindingLedger : Type 0 where
  pub schema_version : String
  pub findings : Slice FindingRecord

pub record FixAuthorization : Type 0 where
  pub schema_version : String
  pub snapshot_id : String
  pub finding_ids : List String
  pub scope_digest : String
  pub authorized_by : String
  pub authorized_at : ℕ
  pub expires_at : ℕ
  pub digest : String

-- `allowed[current]`
unfoldable pub next_finding_states : String → List String
next_finding_states current =
    if current == "reported"
    then "confirmed" ∷ "rejected" ∷ "needs_confirmation" ∷ []
    else if current == "needs_confirmation"
    then "confirmed" ∷ "rejected" ∷ []
    else if current == "confirmed"
    then "fix_authorized" ∷ "accepted_risk" ∷ []
    else if current == "fix_authorized"
    then "fixed_unverified" ∷ []
    else if current == "fixed_unverified"
    then "verified_closed" ∷ "confirmed" ∷ []
    else []

unfoldable pub allowed_finding_transition : String → String → Bool
unfolding next_finding_states string_in
allowed_finding_transition current next = string_in next (next_finding_states current)

abbrev pub record_ids : List FindingRecord → List String
record_ids [] = []
record_ids (r ∷ rest) = r.id ∷ record_ids rest

unfoldable pub finding_ledger_id : Sha256 → Result → String → String
finding_ledger_id sha result provider_id =
    short_id sha "finding-" 12
      (result.snapshot_id ⋄ (result.task_id ⋄ (result.reviewer.pass_id ⋄ provider_id)))

unfoldable pub imported : Sha256 → Result → Results.Finding → ℕ → FindingRecord
imported sha result finding now = record {
  id = finding_ledger_id sha result finding.id;
  finding = finding;
  task_id = result.task_id;
  snapshot_id = result.snapshot_id;
  reviewer = result.reviewer;
  state = finding.state;
  state_operator = joined "provider:" result.reviewer.provider;
  reason = "";
  owner = "";
  expires_at = none;
  review_trigger = "";
  updated_at = now;
}

-- The loop of `ImportFindings`: `seen` is the set of IDs, and the records are appended.
unfoldable pub import_loop :
    Sha256
    → Result
    → ℕ
    → List String
    → List FindingRecord
    → List Results.Finding
    → Outcome (List FindingRecord)
import_loop sha result now seen records [] = ok records
import_loop sha result now seen records (finding ∷ rest) =
    let id = finding_ledger_id sha result finding.id in
    let others =
      import_loop sha result now (id ∷ seen) (records ++ imported sha result finding now ∷ [])
        rest in
    if not (finding.state == "reported") && not (finding.state == "needs_confirmation")
    then err "only Provider-originated finding states can be imported"
    else if string_in id seen
    then err "duplicate finding import"
    else others

abbrev pub fresh_ledger : FindingLedger
fresh_ledger = record { schema_version = "1.0"; findings = some [] }

abbrev pub opened : FindingLedger → FindingLedger
opened ledger = if ledger.schema_version == "" then fresh_ledger else ledger

unfoldable pub import_findings : Sha256 → FindingLedger → Result → ℕ → Outcome FindingLedger
import_findings sha ledger' result now =
    let ledger = opened ledger' in
    let records = items ledger.findings in
    if not (ledger.schema_version == "1.0") || is_nil ledger.findings
    then err "invalid finding ledger"
    else import_loop sha result now (record_ids records) records (items result.findings)
      >>= λ records'.
          ok (record ledger { findings = some (sort_by (λ (r : FindingRecord). r.id) records') })

-- What a transition asks for, beside the record.
pub record Request : Type 0 where
  pub next : String
  pub operator : String
  pub reason : String
  pub owner : String
  pub review_trigger : String
  pub expires_at : Option ℕ
  pub now : ℕ

-- `expiresAt == nil || !now.Before(*expiresAt)`
abbrev pub has_expired : Option ℕ → ℕ → Bool
has_expired none now = true
has_expired (some t) now = not (ltb now t)

unfoldable pub moved : Request → FindingRecord → FindingRecord
moved q r =
    let is_risk = q.next == "accepted_risk" in
    record r {
      state = q.next;
      state_operator = q.operator;
      reason = q.reason;
      owner = if is_risk then q.owner else "";
      review_trigger = if is_risk then q.review_trigger else "";
      expires_at = if is_risk then q.expires_at else none;
      updated_at = q.now;
    }

-- The body of the loop at the record that was asked for.
unfoldable pub transition_record : Request → FindingRecord → Outcome FindingRecord
transition_record q r =
    if not (allowed_finding_transition r.state q.next)
    then err "invalid finding transition"
    else if (q.next == "rejected" || q.next == "accepted_risk") && q.reason == ""
    then err "rejected and accepted_risk require a reason"
    else if q.next == "accepted_risk"
        && (q.owner == "" || (q.review_trigger == "" || has_expired q.expires_at q.now))
    then err "accepted_risk requires owner, future expiry, and review trigger"
    else ok (moved q r)

unfoldable pub transition_loop :
    String → Request → List FindingRecord → Outcome (List FindingRecord)
transition_loop id q [] = err "finding not found"
transition_loop id q (r ∷ rest) =
    let others = transition_loop id q rest in
    if r.id == id
    then (do r' ← transition_record q r; ok (r' ∷ rest))
    else (do rest' ← others; ok (r ∷ rest'))

-- A nil slice stays nil: the loop finds nothing in it.
unfoldable pub transition_finding : FindingLedger → String → Request → Outcome FindingLedger
transition_finding ledger id q =
    if q.operator == "" then err "finding transition requires an operator" else do
      records ← transition_loop id q (items ledger.findings)
      ok (record ledger { findings = some records })

unfoldable pub authorized : String → ℕ → FindingRecord → FindingRecord
authorized operator now r = record r {
  state = "fix_authorized";
  state_operator = operator;
  updated_at = now;
}

-- `index > 0 && id == ids[index-1]`
unfoldable pub is_repeat : Option String → String → Bool
is_repeat none id = false
is_repeat (some previous) id = id == previous

module _ (snapshot_id operator : String) (now : ℕ) where
  -- The inner loop: every record with the ID, and whether there was one.
  unfoldable pub mark : String → List FindingRecord → Outcome (Bool × List FindingRecord)
  mark id [] = ok (false, [])
  mark id (r ∷ rest) =
      let others = mark id rest in
      if r.id == id
      then if not (r.snapshot_id == snapshot_id) || not (r.state == "confirmed")
        then err "fix authorization requires confirmed findings on the exact snapshot"
        else (others >>= λ p. ok (true, authorized operator now r ∷ p.1))
      else others >>= λ p. ok (p.0, r ∷ p.1)

  -- The loop over the sorted IDs; `previous` is the ID before.
  unfoldable pub mark_all :
      Option String → List String → List FindingRecord → Outcome (List FindingRecord)
  mark_all previous [] records = ok records
  mark_all previous (id ∷ rest) records =
      if is_repeat previous id
      then err "duplicate finding in fix authorization"
      else mark id records >>= λ p.
          let others = mark_all (some id) rest p.1 in
          if p.0 then others else err "finding not found"

-- The digest of an authorization is that of its JSON text with an empty digest.
pub record AuthorizationJson : Type 0 where
  pub encode : FixAuthorization → String

module _ (sha : Sha256) (json : AuthorizationJson) where
  unfoldable pub authorization_digest : FixAuthorization → String
  authorization_digest a = tagged sha (json.encode (record a { digest = "" }))

  unfoldable pub sealed : FixAuthorization → FixAuthorization
  unfolding authorization_digest
  sealed a = record a { digest = authorization_digest a }

  unfoldable pub authorize_fix :
      FindingLedger
      → String
      → List String
      → String
      → String
      → ℕ
      → ℕ
      → Outcome (FixAuthorization × FindingLedger)
  unfolding sealed
  authorize_fix ledger snapshot_id finding_ids operator scope_digest now expires_at =
      if snapshot_id == ""
        || (operator == ""
            || (scope_digest == "" || (is_empty finding_ids || not (ltb now expires_at))))
      then err "fix authorization requires exact scope, operator, findings, and future expiry"
      else let ids = sort_strings finding_ids in
        mark_all snapshot_id operator now none ids (items ledger.findings) >>= λ records. ok (
          sealed (record {
            schema_version = "1.0";
            snapshot_id = snapshot_id;
            finding_ids = ids;
            scope_digest = scope_digest;
            authorized_by = operator;
            authorized_at = now;
            expires_at = expires_at;
            digest = "";
          }),
          record ledger { findings = some records },
        )

  unfoldable pub verify_fix_authorization : FixAuthorization → ℕ → Outcome (Unit {0})
  verify_fix_authorization a now =
      if not (a.schema_version == "1.0")
        || (a.snapshot_id == ""
            || (a.scope_digest == ""
                || (a.authorized_by == ""
                    || (is_empty a.finding_ids || not (ltb now a.expires_at)))))
      then err "fix authorization is invalid or expired"
      else if not (a.digest == authorization_digest a)
      then err "fix authorization digest mismatch"
      else ok tt

-- Each path and a zero byte behind it.
unfoldable pub terminated : List String → String
terminated [] = ""
terminated (path ∷ rest) = path ⋄ terminated rest

unfoldable pub mutation_scope_digest : Sha256 → List String → String
mutation_scope_digest sha paths = tagged sha (terminated (sort_strings paths))
