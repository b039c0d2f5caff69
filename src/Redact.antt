-- ===== src/Redact.antt =====
-- internal/redact/redact.go. Content is a list of bytes. The expressions of `rules` are matched by
-- the regexp engine of Go's library, which is the parameter `find_all`.
pub mod Known
use Prim.Native.Char.{code}
use Prim.Native.String.{len}
use diffdossier.Prelude.{
  ℕ, zero, suc, ◌+◌, ◌-◌, String, ◌≡◌, Bool, true, false, ◌&&◌, ◌||◌, not, Option, none, some, List,
  [], ◌∷◌, ◌++◌, length, leb, ltb, eqb, if◌then◌else◌, ◌==◌, Outcome, ok, err, string_in, str_ltb,
  is_empty,
}

abbrev pub Bytes : Type 0
Bytes = List ℕ

-- `[]byte(s)` of an ASCII text.
abbrev pub bytes : String → Bytes
bytes String.[] = []
bytes (String.◌∷◌ c s) = code c ∷ bytes s

pub record Finding : Type 0 where
  pub rule : String
  pub offset : ℕ
  pub match_digest : String

pub record Manifest : Type 0 where
  pub schema_version : String
  pub input_digest : String
  pub output_digest : String
  pub findings : List Finding
  pub truncated : Bool

abbrev pub max_scan_bytes : ℕ
max_scan_bytes = 16777216

abbrev pub known_marker : Bytes
known_marker = bytes "[REDACTED:known-value]"

-- `some rest` where the bytes begin with the needle.
unfoldable pub strip_prefix : Bytes → Bytes → Option Bytes
strip_prefix [] output = some output
strip_prefix (n ∷ needle) [] = none
strip_prefix (n ∷ needle) (b ∷ output) =
    let rest = strip_prefix needle output in if eqb n b then rest else none

-- `bytes.Index`: what stands before and behind the first occurrence of the needle.
unfoldable pub cut_first : Bytes → Bytes → Option (Bytes × Bytes)
cut_first needle [] = elim (strip_prefix needle []) [ none ↦ none | some after ↦ some ([], after) ]
cut_first needle (b ∷ output) =
    let later = cut_first needle output in
    elim (strip_prefix needle (b ∷ output)) [
      | some after ↦ some ([], after)
      | none ↦ elim later [ none ↦ none | some (before, after) ↦ some (b ∷ before, after) ]
    ]

abbrev pub take : ℕ → Bytes → Bytes
take zero xs = []
take (suc n) [] = []
take (suc n) (x ∷ xs) = x ∷ take n xs

abbrev pub drop : ℕ → Bytes → Bytes
drop zero xs = xs
drop (suc n) [] = []
drop (suc n) (x ∷ xs) = drop n xs

-- `output[start:end]`
abbrev pub slice : ℕ → ℕ → Bytes → Bytes
slice start end output = take (end - start) (drop start output)

-- What the package takes from Go's library: SHA-256 in hexadecimal behind `sha256:`, and the
-- locations that `FindAllIndex` returns for the expression of a rule.
pub record Library : Type 0 where
  pub digest : Bytes → String
  pub find_all : String → Bytes → List (ℕ × ℕ)

abbrev pub rules : List String
rules = "private-key" ∷ "aws-access-key" ∷ "github-token" ∷ "jwt" ∷ "assigned-secret" ∷ []

-- The comparison of findings: by offset, then by rule.
abbrev before : Finding → Finding → Bool
before a b = if eqb a.offset b.offset then str_ltb a.rule b.rule else ltb a.offset b.offset

insert_finding : Finding → List Finding → List Finding
insert_finding x [] = x ∷ []
insert_finding x (y ∷ ys) =
    let rest = insert_finding x ys in if before y x then y ∷ rest else x ∷ y ∷ ys

sort_findings : List Finding → List Finding
unfolding insert_finding
sort_findings [] = []
sort_findings (x ∷ xs) = insert_finding x (sort_findings xs)

-- Longer secrets first.
insert_secret : Bytes → List Bytes → List Bytes
insert_secret x [] = x ∷ []
insert_secret x (y ∷ ys) =
    let rest = insert_secret x ys in if leb (length y) (length x) then x ∷ y ∷ ys else y ∷ rest

sort_secrets : List Bytes → List Bytes
unfolding insert_secret
sort_secrets [] = []
sort_secrets (x ∷ xs) = insert_secret x (sort_secrets xs)

same_bytes : Bytes → Bytes → Bool
same_bytes [] [] = true
same_bytes (x ∷ xs) (y ∷ ys) = eqb x y && same_bytes xs ys
same_bytes _ _ = false

seen_before : Bytes → List Bytes → Bool
unfolding same_bytes
seen_before secret [] = false
seen_before secret (s ∷ rest) = same_bytes secret s || seen_before secret rest

module _ (library : Library) where
  -- The loop that replaces one secret until it is gone. `none`: the fuel ran out.
  unfoldable pub replace_known : ℕ → Bytes → Bytes → List Finding → Option (Bytes × List Finding)
  replace_known zero needle output findings = none
  replace_known (suc fuel) needle output findings = elim (cut_first needle output) [
    | none ↦ some (output, findings)
    | some (before', after) ↦ replace_known fuel needle (before' ++ (known_marker ++ after)) (
        findings
        ++ record {
          rule = "known-value";
          offset = length before';
          match_digest = library.digest needle;
        }
          ∷ [])
  ]

  -- The loop over the known secrets: empty and repeated ones are passed over.
  replace_all_known :
      ℕ → List Bytes → List Bytes → Bytes → List Finding → Option (Bytes × List Finding)
  unfolding replace_known seen_before
  replace_all_known fuel [] seen output findings = some (output, findings)
  replace_all_known fuel (secret ∷ rest) seen output findings =
      if is_empty secret || seen_before secret seen
      then replace_all_known fuel rest seen output findings
      else elim (replace_known fuel secret output findings) [
        | none ↦ none
        | some (output', findings') ↦ replace_all_known fuel rest (secret ∷ seen) output' findings'
      ]

  rule_marker : String → Bytes
  rule_marker rule = bytes "[REDACTED:" ++ (bytes rule ++ bytes "]")

  -- The matches of one rule, from the last to the first: `locations` is in that order.
  replace_matches : String → List (ℕ × ℕ) → Bytes → List Finding → Bytes × List Finding
  unfolding rule_marker
  replace_matches rule [] output findings = (output, findings)
  replace_matches rule ((start, end) ∷ rest) output findings =
      replace_matches rule rest (take start output ++ (rule_marker rule ++ drop end output)) (
        findings
        ++ record {
          rule = rule;
          offset = start;
          match_digest = library.digest (slice start end output);
        }
          ∷ [])

  reversed {ℓ} : {A : Type ℓ} → List A → List A → List A
  reversed [] out = out
  reversed (x ∷ xs) out = reversed xs (x ∷ out)

  replace_rules : List String → Bytes → List Finding → Bytes × List Finding
  unfolding replace_matches reversed
  replace_rules [] output findings = (output, findings)
  replace_rules (rule ∷ rest) output findings =
      let (output', findings') =
        replace_matches rule (reversed (library.find_all rule output) []) output findings in
      replace_rules rest output' findings'

  finish : Bytes → Bytes × List Finding → Bytes × Manifest
  unfolding sort_findings
  finish input (output, findings) = (
    output,
    record {
      schema_version = "1.0";
      input_digest = library.digest input;
      output_digest = library.digest output;
      findings = sort_findings findings;
      truncated = false;
    },
  )

  -- `none`: the fuel of a loop over one secret ran out.
  unfoldable pub redact_known : ℕ → Bytes → List Bytes → Option (Outcome (Bytes × Manifest))
  unfolding replace_all_known sort_secrets replace_rules finish
  redact_known fuel input known =
      if ltb max_scan_bytes (length input)
      then some (err "redaction input exceeds 16 MiB")
      else elim (replace_all_known fuel (sort_secrets known) [] input []) [
        | none ↦ none
        | some (output, findings) ↦ some (ok (finish input (replace_rules rules output findings)))
      ]

  unfoldable pub redact : ℕ → Bytes → Option (Outcome (Bytes × Manifest))
  unfolding redact_known
  redact fuel input = redact_known fuel input []

  rule_findings : String → List (ℕ × ℕ) → Bytes → List Finding
  rule_findings rule [] input = []
  rule_findings rule ((start, end) ∷ rest) input =
      record { rule = rule; offset = start; match_digest = library.digest (slice start end input) }
      ∷ rule_findings rule rest input

  all_findings : List String → Bytes → List Finding
  unfolding rule_findings
  all_findings [] input = []
  all_findings (rule ∷ rest) input =
      rule_findings rule (library.find_all rule input) input ++ all_findings rest input

  unfoldable pub scan : Bytes → Outcome (List Finding)
  unfolding all_findings sort_findings
  scan input =
      if ltb max_scan_bytes (length input)
      then err "redaction scan input exceeds 16 MiB"
      else ok (sort_findings (all_findings rules input))

  unfoldable pub contains_secret : Bytes → Bool
  unfolding scan
  contains_secret input = elim (scan input) [ err e ↦ true | ok findings ↦ not (is_empty findings) ]
