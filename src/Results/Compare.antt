-- ===== src/Results/Compare.antt =====
-- internal/results/result.go, Compare: what the passes of several reviewers have in common. Maps
-- are read by their keys in the order of the results.
use diffdossier.Prelude.{
  ℕ, suc, String, Bool, false, ◌&&◌, ◌||◌, List, [], ◌∷◌, ◌++◌, map, any, filter, eqb, ltb, length,
  if◌then◌else◌, ◌==◌, string_in, distinct, sort_by, sort_strings, items,
}
use diffdossier.Digests.{Sha256, short_id, joined, ◌⋄◌}
use diffdossier.Results.{Reviewer, Finding, Line, Result}

pub record Comparison : Type 0 where
  pub schema_version : String
  pub pass_ids : List String
  pub reviewers : List Reviewer
  pub independent : Bool
  pub independence_evidence : List String
  pub overlap : List String
  pub unique : List (String × List String)
  pub disagreements : List String

-- What the fingerprints take from Go's packages: a printed line number, and a text in lower case
-- with its fields joined by one space.
pub record FindingText : Type 0 where
  pub print_line : Line → String
  pub folded : String → String

module _ (sha : Sha256) (text : FindingText) where
  unfoldable pub fingerprint : Finding → String
  fingerprint f = short_id sha "finding:" 12 (
      f.category
      ⋄ (f.path_bytes_base64
          ⋄ (f.trigger_path_bytes_base64 ⋄ (text.print_line f.line ⋄ text.folded f.impact))))

  unfoldable pub variant : Finding → String
  variant f = short_id sha "variant:" 12 (
      f.severity
      ⋄ (f.confidence ⋄ (f.state ⋄ (text.folded f.remediation ⋄ text.folded f.verification))))

  abbrev pub fingerprints : Result → List String
  fingerprints result = map fingerprint (items result.findings)

  -- `counts[fingerprint]`: in how many results it is.
  unfoldable pub count_of : String → List Result → ℕ
  count_of fp [] = 0
  count_of fp (result ∷ rest) =
      let others = count_of fp rest in
      if string_in fp (fingerprints result) then suc others else others

  abbrev pub variants_in : String → List Finding → List String
  variants_in fp [] = []
  variants_in fp (f ∷ rest) =
      let others = variants_in fp rest in if fingerprint f == fp then variant f ∷ others else others

  unfoldable pub variants_of : String → List Result → List String
  variants_of fp [] = []
  variants_of fp (result ∷ rest) = variants_in fp (items result.findings) ++ variants_of fp rest

  abbrev pub all_fingerprints : List Result → List String
  all_fingerprints [] = []
  all_fingerprints (result ∷ rest) = fingerprints result ++ all_fingerprints rest

  abbrev pub context_key : Result → String
  context_key result =
      result.reviewer.provider ⋄ (result.reviewer.model_family ⋄ result.reviewer.context_isolation)

  -- The loop over the inputs: the contexts and the prompt digest so far.
  unfoldable pub independent_loop : List String → String → Bool → List Result → Bool
  independent_loop contexts prompt independent [] = independent
  independent_loop contexts prompt independent (result ∷ rest) =
      let r = result.reviewer in
      let fresh =
        if string_in (context_key result) contexts || r.prompt_digest == ""
        then false
        else independent in
      let same = if prompt == "" || prompt == r.prompt_digest then fresh else false in
      independent_loop (context_key result ∷ contexts)
        (if prompt == "" then r.prompt_digest else prompt) same rest

  -- `comparison.Unique[passID]`: of the last result with the pass.
  unfoldable pub unique_to : List Result → Result → List String
  unique_to inputs result =
      sort_strings (distinct (filter (λ fp. eqb (count_of fp inputs) 1) (fingerprints result)))

  unfoldable pub unique_map : List Result → List Result → List (String × List String)
  unique_map inputs [] = []
  unique_map inputs (result ∷ rest) =
      let others = unique_map inputs rest in
      if any (λ (later : Result). later.reviewer.pass_id == result.reviewer.pass_id) rest
      then others
      else (result.reviewer.pass_id, unique_to inputs result) ∷ others

  unfoldable pub compare_results : List Result → Comparison
  compare_results inputs =
      let fps = distinct (all_fingerprints inputs) in
      record {
        schema_version = "1.0";
        pass_ids = sort_strings (map (λ (r : Result). r.reviewer.pass_id) inputs);
        reviewers = sort_by (λ (r : Reviewer). r.pass_id) (map (λ (r : Result). r.reviewer) inputs);
        independent = independent_loop [] "" (ltb 1 (length inputs)) inputs;
        independence_evidence =
            sort_strings
              (map (λ (r : Result). joined r.reviewer.pass_id (joined ":" (context_key r))) inputs);
        overlap =
            sort_strings (
              filter (λ fp. eqb (count_of fp inputs) (length inputs) && ltb 1 (length inputs)) fps);
        unique = unique_map inputs inputs;
        disagreements =
            sort_strings (filter (λ fp. ltb 1 (length (distinct (variants_of fp inputs)))) fps);
      }
