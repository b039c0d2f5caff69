-- ===== src/Results/Validate.antt =====
-- internal/results/result.go, Validate: the checks of a Provider's result against its task.
use Prim.Native.Char.{Char, code}
use Prim.Native.String.{len, slice}
use text.Mathlib.Text.{starts_with}
use diffdossier.Prelude.{
  ℕ, ◌+◌, String, Bool, true, false, not, ◌&&◌, ◌||◌, Option, none, some, List, [], ◌∷◌, map, eqb,
  ltb, leb, length, if◌then◌else◌, ◌==◌, Outcome, ok, err, ◌>>=◌, ◌>>◌, items, is_nil, string_in,
  distinct,
}
use diffdossier.Digests.{◌⋄◌}
use diffdossier.Planner.{Task, PathRef}
use diffdossier.Results.{Coverage, Line, Finding, Confirmation, ResidualRisk, Result, Validation}

unfoldable is_hex_char : Char → Bool
is_hex_char c =
    let n = code c in (leb 48 n && leb n 57) || ((leb 97 n && leb n 102) || (leb 65 n && leb n 70))

-- Every character is a hexadecimal digit.
unfoldable pub is_hex : String → Bool
unfolding is_hex_char
is_hex String.[] = true
is_hex (String.◌∷◌ c rest) = is_hex_char c && is_hex rest

unfoldable pub valid_digest : String → String → Bool
unfolding is_hex
valid_digest value prefix =
    if not (eqb (len value) (len prefix + 64)) || not (starts_with value prefix)
    then false
    else is_hex (slice value (len prefix) (len value))

-- The text behind the last character with the code.
unfoldable after_last : ℕ → String → Option String
after_last n String.[] = none
after_last n (String.◌∷◌ c rest) = elim (after_last n rest) [
  | some text ↦ some text
  | none ↦ if eqb (code c) n then some rest else none
]

unfoldable only_zeros : String → Bool
only_zeros String.[] = true
only_zeros (String.◌∷◌ c rest) = eqb (code c) 48 && only_zeros rest

-- Behind the last colon, or behind the last dash where there is no colon: zeros, and one at least.
unfoldable pub all_zero_digest : String → Bool
unfolding after_last only_zeros
all_zero_digest value =
    let zeros = λ (text : String). if text == "" then false else only_zeros text in
    elim (after_last 58 value) [
      | some text ↦ zeros text
      | none ↦ elim (after_last 45 value) [ some text ↦ zeros text | none ↦ false ]
    ]

-- `strings.ContainsAny(text, "\x00\r\n")`
unfoldable has_control : String → Bool
has_control String.[] = false
has_control (String.◌∷◌ c rest) =
    (eqb (code c) 0 || (eqb (code c) 13 || eqb (code c) 10)) || has_control rest

unfoldable pub valid_coverage_status : String → Bool
valid_coverage_status status = string_in status (
    "fully_reviewed" ∷ "mechanically_verified" ∷ "invariant_checked" ∷ "sampled"
    ∷ "excluded_with_reason" ∷ "not_reviewed" ∷ [])

unfoldable pub coverage_satisfies : String → String → Bool
coverage_satisfies required actual =
    if required == "fully_reviewed"
    then actual == "fully_reviewed"
    else if required == "mechanically_verified"
    then actual == "mechanically_verified"
      || (actual == "invariant_checked" || actual == "fully_reviewed")
    else if required == "invariant_checked"
    then actual == "invariant_checked" || actual == "fully_reviewed"
    else false

abbrev pub coverage_key : String → String → String
coverage_key scope path = scope ⋄ path

unfoldable pub is_negative : Line → Bool
is_negative (Line.line n) = false
is_negative (Line.negative n) = true

unfoldable pub lacks_field : Finding → Bool
lacks_field finding =
    finding.id == ""
    || (finding.severity == ""
        || (finding.confidence == ""
            || (finding.category == ""
                || (finding.path_bytes_base64 == ""
                    || (finding.trigger_path_bytes_base64 == ""
                        || (finding.evidence == ""
                            || (finding.impact == ""
                                || (finding.remediation == "" || finding.verification == ""))))))))

-- The body of the loop over the findings, with the IDs before.
unfoldable pub check_finding : String → List String → List String → Finding → Outcome (Unit {0})
check_finding version path_set finding_ids finding =
    if lacks_field finding
    then err "finding is missing a required evidence or remediation field"
    else if string_in finding.id finding_ids
    then err "duplicate finding id"
    else if not (string_in finding.path_bytes_base64 path_set)
        || not (string_in finding.trigger_path_bytes_base64 path_set)
    then err "finding path or trigger path is outside the task"
    else if not (finding.state == "reported") && not (finding.state == "needs_confirmation")
    then err "Provider cannot import finding state"
    else if not (string_in finding.severity ("critical" ∷ "high" ∷ "medium" ∷ "low" ∷ "info" ∷ []))
        || not (string_in finding.confidence ("high" ∷ "medium" ∷ "low" ∷ []))
    then err "finding severity or confidence is invalid"
    else if version == "1.1" && (finding.line_presence_known && not finding.line_present)
    then err "result schema_version 1.1 requires finding line"
    else if is_negative finding.line
    then err "finding line cannot be negative"
    else ok tt

unfoldable pub check_findings :
    String → List String → List String → List Finding → Outcome (Unit {0})
check_findings version path_set finding_ids [] = ok tt
check_findings version path_set finding_ids (finding ∷ rest) =
    check_finding version path_set finding_ids finding
    >> check_findings version path_set (finding.id ∷ finding_ids) rest

unfoldable pub check_confirmations : List String → List Confirmation → Outcome (Unit {0})
check_confirmations ids [] = ok tt
check_confirmations ids (c ∷ rest) =
    let others = check_confirmations (c.id ∷ ids) rest in
    if c.id == "" || (c.question == "" || (c.owner == "" || string_in c.id ids))
    then err "needs_confirmation entries require unique id, question, and owner"
    else others

unfoldable pub check_residuals : List String → List ResidualRisk → Outcome (Unit {0})
check_residuals ids [] = ok tt
check_residuals ids (r ∷ rest) =
    let others = check_residuals (r.id ∷ ids) rest in
    if r.id == ""
      || (r.risk == "" || (r.owner == "" || (r.review_trigger == "" || string_in r.id ids)))
    then err "residual_risks entries require unique id, risk, owner, and review_trigger"
    else others

-- `expected[key]`: the coverage that the last path with the key requires.
unfoldable pub expected : String → List PathRef → Option String
expected key [] = none
expected key (path ∷ rest) = elim (expected key rest) [
  | some required ↦ some required
  | none ↦
      if coverage_key path.scope path.path_bytes_base64 == key
      then some path.required_coverage
      else none
]

abbrev pub path_keys : List PathRef → List String
path_keys paths = map (λ (p : PathRef). coverage_key p.scope p.path_bytes_base64) paths

-- The body of the loop over the coverage: whether the entry satisfies what its path requires.
unfoldable pub check_coverage : List PathRef → List String → Coverage → Outcome Bool
check_coverage paths seen c =
    let key = coverage_key c.scope c.path_bytes_base64 in
    elim (expected key paths) [
      | none ↦ err "coverage includes path outside task"
      | some required ↦
          if string_in key seen
          then err "duplicate coverage path"
          else if not (valid_coverage_status c.status) || c.evidence == ""
          then err "invalid coverage evidence"
          else ok (coverage_satisfies required c.status)
    ]

-- The keys seen, and whether every entry satisfies.
unfoldable pub check_coverages :
    List PathRef → List String → Bool → List Coverage → Outcome (List String × Bool)
check_coverages paths seen complete [] = ok (seen, complete)
check_coverages paths seen complete (c ∷ rest) = check_coverage paths seen c >>= λ satisfied.
    check_coverages paths (coverage_key c.scope c.path_bytes_base64 ∷ seen)
      (if satisfied then complete else false) rest

-- The checks before the loops.
unfoldable pub check_binding : Result → Task → String → String → Outcome (Unit {0})
unfolding has_control
check_binding result task task_input_hash prompt_digest =
    let r = result.reviewer in
    if not (result.schema_version == "1.0") && not (result.schema_version == "1.1")
    then err "unsupported result schema_version"
    else if not (valid_digest result.snapshot_id "snap-")
        || not (valid_digest result.task_input_hash "sha256:")
    then err "result contains malformed binding digest"
    else if not (result.task_id == task.id)
        || (not (result.snapshot_id == task.snapshot_id)
            || not (result.task_input_hash == task_input_hash))
    then err "result does not bind the current task input"
    else if all_zero_digest result.snapshot_id || all_zero_digest result.task_input_hash
    then err "documentation-only zero digest is not a valid result binding"
    else if r.provider == ""
        || (r.pass_id == ""
            || (r.perspective == ""
                || (r.model == "" || (r.model_family == "" || r.context_isolation == ""))))
    then err "reviewer identity, pass, perspective, and context isolation are required"
    else if not (r.prompt_digest == prompt_digest) || not (valid_digest r.prompt_digest "sha256:")
    then err "reviewer prompt digest does not bind the packet"
    else if ltb 128 (len r.pass_id) || has_control r.pass_id
    then err "reviewer pass_id is invalid"
    else if not (string_in r.perspective task.perspectives)
    then err "reviewer perspective is not required by the task"
    else if not (result.status == "incomplete") && not (result.status == "completed")
    then err "result status must be incomplete or completed"
    else if is_nil result.coverage
        || (is_nil result.findings
            || (is_nil result.needs_confirmation || is_nil result.residual_risks))
    then err "result collection fields must be present JSON arrays"
    else ok tt

unfoldable pub validated : Result → Task → List String × Bool → Outcome Validation
validated result task p =
    let complete =
      if eqb (length p.0) (length (distinct (path_keys task.paths))) then p.1 else false in
    if result.status == "completed" && not complete
    then err "completed result does not satisfy exact required coverage"
    else ok (record { accepted = true; completed = result.status == "completed" && complete })

unfoldable pub validate : Result → Task → String → String → Outcome Validation
validate result task task_input_hash prompt_digest =
    check_binding result task task_input_hash prompt_digest
    >> check_findings result.schema_version (map (λ (p : PathRef). p.path_bytes_base64) task.paths)
        [] (items result.findings)
    >> check_confirmations [] (items result.needs_confirmation)
    >> check_residuals [] (items result.residual_risks)
    >> (check_coverages task.paths [] true (items result.coverage) >>= validated result task)
