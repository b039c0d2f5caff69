-- ===== src/Config.antt =====
-- internal/config/config.go: the configuration and `Validate`.
pub mod Load
pub mod Valid
pub mod Ranked
pub mod Fuel
pub mod Assigned
pub mod Rows
pub mod Layers
use Prim.Native.Char.{Char, code}
use text.Mathlib.Text.{starts_with}
use diffdossier.Prelude.{
  ℕ, zero, suc, String, Bool, true, false, not, ◌&&◌, ◌||◌, Option, none, some, List, [], ◌∷◌, ◌++◌,
  map, any, length, eqb, is_empty, if◌then◌else◌, ◌==◌, Outcome, ok, err, ◌>>=◌, ◌>>◌, refuse_if,
  string_in, get, put, keys,
}
use diffdossier.Policy.{Count, count, below_zero}
use diffdossier.Gates.{Gate, Gates, gate_at}
use diffdossier.Gates.Selection.{index}

pub record ReviewLimits : Type 0 where
  pub max_files_per_task : Count
  pub max_packet_bytes : Count
  pub default_provider : String

pub record Config : Type 0 where
  pub schema_version : Count
  pub baseline : String
  pub include_untracked : Bool
  pub include_ignored : List String
  pub review : ReviewLimits
  pub retention_days : Count
  pub policy_files : List String
  pub gates : List Gate

-- `Default`
abbrev pub default : Config
default = record {
  schema_version = count 1;
  baseline = "";
  include_untracked = true;
  include_ignored = [];
  review = record {
    max_files_per_task = count 8;
    max_packet_bytes = count 250000;
    default_provider = "manual";
  };
  retention_days = count 30;
  policy_files = [];
  gates = [];
}

-- `n >= 1`
unfoldable pub is_positive : Count → Bool
is_positive (count n) = not (eqb n 0)
is_positive (below_zero n) = false

unfoldable pub is_one : Count → Bool
is_one (count n) = eqb n 1
is_one (below_zero n) = false

-- `strings.ReplaceAll(path, "\\", "/")`
unfoldable pub slashed : String → String
slashed String.[] = String.[]
slashed (String.◌∷◌ c rest) = String.◌∷◌ (if eqb (code c) 92 then "/" else c) (slashed rest)

unfoldable pub leaves_repository : String → Bool
leaves_repository path =
    let clean = slashed path in
    clean == "" || (starts_with clean "/" || (clean == ".." || starts_with clean "../"))

unfoldable pub validate_gate : List String → Gate → Outcome (Unit {0})
validate_gate seen gate =
    refuse_if (gate.id == "" || is_empty gate.argv) "every gate requires id and non-empty argv"
    >> (refuse_if (string_in gate.id seen) "duplicate gate id"
        >> (refuse_if (not (is_positive gate.timeout_seconds)) "timeout_seconds must be positive"
            >> (refuse_if
                  (not (
                    string_in gate.cache_class (
                      "worktree_deterministic" ∷ "host_volatile" ∷ "time_network" ∷ "external"
                      ∷ [])))
                  "invalid cache_class"
                >> (refuse_if (gate.cwd == "") "cwd is required"
                    >> (refuse_if
                          (not (
                            string_in gate.resource_class
                              ("cpu" ∷ "io" ∷ "exclusive" ∷ "network" ∷ "external" ∷ [])))
                          "invalid resource_class"
                        >> (refuse_if
                              (not
                                (string_in gate.network_class ("none" ∷ "local" ∷ "external" ∷ [])))
                              "invalid network_class"
                            >> refuse_if
                                (any leaves_repository (gate.when_paths ++ gate.expected_writes))
                                "path must stay repository-relative"))))))

-- The IDs that are seen, in the order of the gates behind `seen`.
unfoldable pub validate_gates : List String → List Gate → Outcome (List String)
validate_gates seen [] = ok seen
validate_gates seen (gate ∷ rest) =
    validate_gate seen gate >> validate_gates (seen ++ gate.id ∷ []) rest

unfoldable pub validate_dependencies : List String → List Gate → Outcome (Unit {0})
validate_dependencies seen [] = ok tt
validate_dependencies seen (gate ∷ rest) =
    refuse_if (any (λ dep. dep == gate.id || not (string_in dep seen)) gate.depends_on)
      "invalid dependency"
    >> validate_dependencies seen rest

-- The maps `visiting` and `visited`; a missing key is false.
pub record Marks : Type 0 where
  pub visiting : List (String × Bool)
  pub visited : List (String × Bool)

unfoldable pub marked : List (String × Bool) → String → Bool
marked m id = elim (get id m) [ none ↦ false | some b ↦ b ]

unfoldable pub entered : String → Marks → Marks
entered id marks = record marks { visiting = put id true marks.visiting }

unfoldable pub left : String → Marks → Marks
left id marks = record {
  visiting = put id false marks.visiting;
  visited = put id true marks.visited;
}

-- The loop `for … { if err := visit(…); err != nil { return err } }`, with the call as an argument.
unfoldable pub visit_each : (String → Marks → Outcome Marks) → List String → Marks → Outcome Marks
visit_each step [] marks = ok marks
visit_each step (id ∷ rest) marks = step id marks >>= λ after. visit_each step rest after

unfoldable pub visit_gate : Gates → ℕ → String → Marks → Outcome Marks
visit_gate by_id zero id marks = err "out of fuel"
visit_gate by_id (suc fuel) id marks = elim (marked marks.visiting id) [
  | true ↦ err "gate dependency cycle"
  | false ↦ elim (marked marks.visited id) [
    | true ↦ ok marks
    | false ↦
        visit_each (visit_gate by_id fuel) (gate_at by_id id).depends_on (entered id marks)
        >>= λ after. ok (left id after)
  ]
]

-- Go goes over the gates in any order, here it is theirs.
unfoldable pub validate_order : List Gate → Outcome Marks
validate_order gates =
    let by_id = index gates [] in
    visit_each (visit_gate by_id (suc (length by_id))) (keys by_id)
      (record { visiting = []; visited = [] })

module _ (trim : String → String) where
  unfoldable pub validate : Config → Outcome (Unit {0})
  validate config =
      refuse_if (not (is_one config.schema_version)) "unsupported schema_version"
      >> (refuse_if (trim config.baseline == "")
            "baseline is required; DiffDossier does not guess main or master"
          >> (refuse_if
                (not (is_positive config.review.max_files_per_task)
                  || not (is_positive config.review.max_packet_bytes))
                "review limits must be positive"
              >> (refuse_if (config.review.default_provider == "")
                    "review.default_provider is required"
                  >> (refuse_if (not (is_positive config.retention_days))
                        "state.retention_days must be positive"
                      >> (refuse_if (any leaves_repository config.include_ignored)
                            "include_ignored path must stay repository-relative"
                          >> (validate_gates [] config.gates >>= λ seen.
                              validate_dependencies seen config.gates
                              >> (validate_order config.gates >>= λ marks. ok tt)))))))
