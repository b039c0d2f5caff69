-- ===== src/Risk.antt =====
-- internal/risk/risk.go: the risk of every changed path.
pub mod Levels
use diffdossier.Prelude.{
  ℕ, String, Bool, true, false, not, ◌&&◌, ◌||◌, Option, none, some, List, [], ◌∷◌, ◌++◌, ltb, leb,
  any, if◌then◌else◌, ◌==◌, Outcome, ok, err, ◌>>=◌, string_in, sort_by, unique_sorted,
}
use diffdossier.Digests.{joined}
use diffdossier.Inventory.{Entry, Contract, Graph, PathIdentity, display}

-- `rank[level]`: Go reads a missing key as 0.
unfoldable pub rank : String → ℕ
rank level =
    if level == "L1"
    then 1
    else if level == "L2"
    then 2
    else if level == "L3"
    then 3
    else if level == "L4"
    then 4
    else 0

unfoldable pub max_level : String → String → String
max_level left right = if ltb (rank left) (rank right) then right else left

unfoldable pub requires_owner : String → Bool
requires_owner level = leb (rank "L3") (rank level)

pub record Override : Type 0 where
  pub glob : String
  pub level : String
  pub reason : String

pub record PathRisk : Type 0 where
  pub path_bytes_base64 : String
  pub level : String
  pub reasons : List String
  pub needs_confirmation : Bool

pub record Assessment : Type 0 where
  pub schema_version : String
  pub paths : List PathRisk

-- What the code takes from Go's strings and path packages. A pattern that `filepath.Match` refuses
-- gives `none`.
pub record PathText : Type 0 where
  pub to_lower : String → String
  pub to_slash : String → String
  pub contains : String → String → Bool
  pub matches : String → String → Option Bool

-- `contractByPath[path]`
abbrev pub contract_types : String → List Contract → List String
contract_types path [] = []
contract_types path (c ∷ rest) =
    let others = contract_types path rest in
    if c.path_bytes_base64 == path then c.type_name ∷ others else others

pub record Inferred : Type 0 where
  pub level : String
  pub reasons : List String
  pub known : Bool

abbrev pub inferred_as : String → String → Inferred
inferred_as level reason = record { level = level; reasons = reason ∷ []; known = true }

-- The loop over the contract types: the first with a rule decides.
unfoldable pub contract_risk : List String → Option Inferred
contract_risk [] = none
contract_risk (t ∷ rest) =
    let others = contract_risk rest in
    if t == "payment_state"
    then some (inferred_as "L4" "payment contract candidate")
    else if t == "message_external"
    then some (inferred_as "L3" "message/external contract candidate")
    else if string_in t
        ("database_sql" ∷ "api_schema" ∷ "configuration" ∷ "cli_protocol" ∷ "delivery" ∷ [])
    then some (inferred_as "L2" (joined "persistent contract candidate: " t))
    else others

unfoldable pub is_artifact : String → Bool
is_artifact kind = kind == "binary" || (kind == "submodule" || kind == "lfs_pointer")

module _ (text : PathText) where
  unfoldable pub contains_any : String → List String → Bool
  contains_any value candidates = any (text.contains value) candidates

  unfoldable pub inferred : String → Entry → List String → Inferred
  inferred path entry types =
      let lower = text.to_lower (text.to_slash path) in
      if contains_any lower
        ("payment" ∷ "refund" ∷ "billing" ∷ "migration" ∷ "/prod" ∷ "delete" ∷ [])
      then inferred_as "L4" "high-impact path signal"
      else if contains_any lower
          ("auth" ∷ "permission" ∷ "secret" ∷ "webhook" ∷ "external" ∷ "security" ∷ [])
      then inferred_as "L3" "security or external-boundary signal"
      else elim (contract_risk types) [
        | some found ↦ found
        | none ↦
            if is_artifact entry.kind
            then inferred_as "L3" "non-text artifact requires specialized review"
            else if contains_any lower (".generated." ∷ ".lock" ∷ "/generated/" ∷ [])
            then inferred_as "L0" "generated or lock metadata"
            else if contains_any lower ("_test." ∷ "/test/" ∷ "/tests/" ∷ ".md" ∷ [])
            then inferred_as "L1" "test or documentation path"
            else if contains_any lower (
                ".go" ∷ ".rs" ∷ ".java" ∷ ".kt" ∷ ".py" ∷ ".js" ∷ ".ts" ∷ ".c" ∷ ".h" ∷ ".cpp" ∷ [])
            then inferred_as "L2" "source file"
            else record {
              level = "L2";
              reasons = "unclassified path fails closed" ∷ [];
              known = false;
            }
      ]

  -- The body of the loop over the overrides, where the glob matches.
  unfoldable pub overridden : Override → Inferred → Inferred
  overridden o r = record {
    level = if ltb (rank r.level) (rank o.level) then o.level else r.level;
    reasons = r.reasons ++ joined "policy: " o.reason ∷ [];
    known = true;
  }

  unfoldable pub apply_overrides : String → List Override → Inferred → Outcome Inferred
  apply_overrides path [] r = ok r
  apply_overrides path (o ∷ rest) r =
      let matching = apply_overrides path rest (overridden o r) in
      let others = apply_overrides path rest r in
      elim (text.matches o.glob (text.to_slash path)) [
        | none ↦ err "invalid risk glob"
        | some true ↦ matching
        | some false ↦ others
      ]

  unfoldable pub path_risk : Graph → List Override → Entry → Outcome PathRisk
  path_risk graph overrides entry =
      let path = display entry.path in
      let types = contract_types entry.path.bytes_base64 graph.contracts in
      apply_overrides path overrides (inferred path entry types) >>= λ r. ok (record {
        path_bytes_base64 = entry.path.bytes_base64;
        level = r.level;
        reasons = unique_sorted r.reasons;
        needs_confirmation = not r.known;
      })

  -- The loop over the entries: the first of a path decides.
  unfoldable pub assess_loop :
      Graph → List Override → List String → List Entry → Outcome (List PathRisk)
  assess_loop graph overrides seen [] = ok []
  assess_loop graph overrides seen (entry ∷ rest) =
      let skipped = assess_loop graph overrides seen rest in
      let others = assess_loop graph overrides (entry.path.bytes_base64 ∷ seen) rest in
      if string_in entry.path.bytes_base64 seen
      then skipped
      else path_risk graph overrides entry >>= λ r. others >>= λ risks. ok (r ∷ risks)

  unfoldable pub assess : List Entry → Graph → List Override → Outcome Assessment
  assess entries graph overrides = assess_loop graph overrides [] entries >>= λ risks. ok (record {
    schema_version = "1.0";
    paths = sort_by (λ (r : PathRisk). r.path_bytes_base64) risks;
  })
