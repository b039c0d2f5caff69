-- ===== src/Tests/GateRuns.antt =====
-- Witnesses on two gates, where the tests depend on the build.
use diffdossier.Prelude.{
  ℕ, ◌+◌, String, true, false, none, List, [], ◌∷◌, ok, err, ◌==◌, length, string_in, has_key, get,
  put, sort_by, insert_by, str_leb, ◌≡◌, ◌⊎◌, refl,
}
use diffdossier.Digests.{tagged}
use diffdossier.Policy.{count, TrustBinding, trust_authorizes}
use diffdossier.Tests.Encoders.{sha, sha-IsCollisionFree}
use diffdossier.Gates.{
  Gate, Gates, zero_gate, gate_at, topological, visit_all, visit, visit_dependencies, state_of,
  opened, closed,
}
use diffdossier.Gates.Walks.{IsOrdered}
use diffdossier.Gates.Order.{topological-IsOrdered}
use diffdossier.Gates.Cycles.{IsRanked, IsClosed, topological-fails}
use diffdossier.Gates.Selection.{
  Regexps, selection, select, index, pull, pull_round, pull_dependencies, dependency_names,
  matches_any,
}
use diffdossier.Gates.Expand.{
  ExpandedGate, Definition, Plan, PlanBody, PlanJson, Host, sealed_plan, build_plan, expand_all,
  expand, resolve_path, classify, find_executable, file_digest, environment_loop, define,
  is_shell_mode, mentions,
}
use diffdossier.Gates.Runner.{Machine, is_unchanged, run}
use diffdossier.Gates.Justified.{trust_authorizes-sealed_plan}
use diffdossier.Gates.Runnable.{IsFaultless, build_plan-completes}

abbrev gate_named : String → List String → Gate
gate_named id needs = record zero_gate {
  id = id;
  argv = "make" ∷ id ∷ [];
  depends_on = needs;
  timeout_seconds = count 60;
}

abbrev two_gates : Gates
two_gates = ("test", gate_named "test" ("build" ∷ [])) ∷ ("build", gate_named "build" []) ∷ []

two_gates-order : topological two_gates ≡ ok ("build" ∷ "test" ∷ [])
unfolding topological visit_all visit visit_dependencies state_of opened closed gate_at get put
    has_key sort_by insert_by str_leb
two_gates-order = refl

topological-IsOrdered_example :
    IsOrdered two_gates [] ("build" ∷ "test" ∷ [])
    × ((id : String) → string_in id ("build" ∷ "test" ∷ []) ≡ has_key id two_gates)
topological-IsOrdered_example =
    topological-IsOrdered two_gates ("build" ∷ "test" ∷ []) two_gates-order

abbrev cyclic_gates : Gates
cyclic_gates = ("a", gate_named "a" ("b" ∷ [])) ∷ ("b", gate_named "b" ("a" ∷ [])) ∷ []

abbrev cycle : String
cycle = "gate dependency cycle"

cyclic_gates-cycle : topological cyclic_gates ≡ err "gate dependency cycle"
unfolding topological visit_all visit visit_dependencies state_of opened closed gate_at get put
    has_key sort_by insert_by str_leb
cyclic_gates-cycle = refl

topological-fails_example :
    ((cycle ≡ cycle) × ((rank : String → ℕ) → IsRanked cyclic_gates rank → ⊥))
    ⊎ ((cycle ≡ "gate depends on unavailable") × (IsClosed cyclic_gates → ⊥))
topological-fails_example = topological-fails cyclic_gates cycle cyclic_gates-cycle

abbrev pub regexps : Regexps
regexps = record {
  bytes = λ s. [];
  to_slash = λ s. s;
  quoted_byte = λ n. "";
  compile = λ text. none;
}

abbrev declared : List Gate
declared = gate_named "test" ("build" ∷ []) ∷ gate_named "build" [] ∷ []

abbrev host : Host
host = record {
  separator = "/";
  abs = λ path. ok path;
  is_abs = λ path. true;
  join = λ a b. b;
  rel = λ root path. ok path;
  base = λ path. path;
  lower = λ text. text;
  equal_fold = λ a b. a == b;
  eval_symlinks = λ path. ok path;
  read_file = λ path. ok "program";
  lookup = λ name. ok "/bin/make";
  getenv = λ name. ("", false);
}

abbrev plan_json : PlanJson
plan_json = record { definition_text = λ d. d.id; body_text = λ b. b.snapshot_id }

abbrev definition_of : String → List String → Definition
definition_of id needs = record {
  id = id;
  requested_executable = "make";
  executable = "/bin/make";
  executable_digest = tagged sha "program";
  argv = "make" ∷ id ∷ [];
  cwd = "";
  environment = [];
  depends_on = needs;
  timeout_seconds = count 60;
  resource_class = "";
  cache_class = "";
  blocking = false;
  final_always = false;
  network_class = "";
  expected_writes = [];
  redaction_policy = "";
  shell_mode = false;
}

abbrev expanded_of : String → List String → ExpandedGate
expanded_of id needs = record {
  definition = definition_of id needs;
  executable_class = "repository";
  cwd_class = "repository";
  when_paths = [];
  definition_digest = tagged sha id;
}

abbrev plan_body : PlanBody
plan_body = record {
  repository_id = "r";
  snapshot_id = "s";
  config_digest = "c";
  binary_digest = "b";
  gates = expanded_of "build" [] ∷ expanded_of "test" ("build" ∷ []) ∷ [];
}

abbrev plan : Plan
plan = sealed_plan sha plan_json plan_body

plan-built :
    build_plan sha plan_json host regexps "r" "/repo" "s" "c" "b" ("src/a.go" ∷ []) declared
    ≡ ok plan
unfolding build_plan sealed_plan expand_all expand resolve_path classify find_executable file_digest
    environment_loop define is_shell_mode mentions selection select index pull pull_round
    pull_dependencies dependency_names matches_any topological visit_all visit visit_dependencies
    state_of opened closed gate_at get put has_key sort_by insert_by str_leb tagged string_in
plan-built = refl

abbrev machine : Machine ℕ
machine = record {
  read_file = λ path world. ok "program";
  execute = λ gate world. (ok tt, world + 1);
  before = λ world. (ok tt, world);
  after = λ world. (ok tt, world);
}

abbrev trust : TrustBinding
trust = record {
  repository_id = "r";
  snapshot_id = "s";
  task_input_digest = "gate-dag";
  execution_plan_digest = tagged sha "s";
  config_digest = "c";
  binary_digest = "b";
  capability = "gate:run";
  expires_at = 10;
}

trust-authorizes : trust_authorizes trust plan.trust_candidate 5 ≡ true
unfolding trust_authorizes sealed_plan tagged
trust-authorizes = refl

later-authorizes : trust_authorizes trust plan.trust_candidate 6 ≡ true
unfolding trust_authorizes sealed_plan tagged
later-authorizes = refl

machine-IsFaultless : IsFaultless sha machine plan 5 [] false
unfolding sealed_plan is_unchanged tagged
machine-IsFaultless = (((λ w. refl), ((λ w. refl), tt)), (λ g w. refl), (λ w. refl), λ w. refl)

trust_authorizes-sealed_plan_example : plan_json.body_text plan_body ≡ plan_json.body_text plan_body
trust_authorizes-sealed_plan_example =
    trust_authorizes-sealed_plan sha plan_json sha-IsCollisionFree trust plan_body plan_body 5 6
      trust-authorizes later-authorizes

build_plan-completes_example :
    ((run sha machine plan 5 [] false trust 0).error ≡ none)
    × (length (run sha machine plan 5 [] false trust 0).results ≡ length plan.body.gates)
build_plan-completes_example =
    build_plan-completes sha machine plan 5 [] false plan_json host regexps "r" "/repo" "s" "c" "b"
      ("src/a.go" ∷ []) declared plan-built machine-IsFaultless trust 0 trust-authorizes
