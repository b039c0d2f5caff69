-- ===== src/Gates/Expand.antt =====
-- internal/gates/plan.go: the plan that `BuildPlan` makes of the declared gates.
use Prim.Native.Char.{code}
use Prim.Native.String.{◌++◌}
use text.Mathlib.Text.{starts_with}
use diffdossier.Prelude.{
  ℕ, String, Bool, false, not, ◌&&◌, ◌||◌, List, [], ◌∷◌, any, eqb, if◌then◌else◌, Outcome, ok, err,
  ◌>>=◌, ◌>>◌, refuse_if, sort_by, sort_strings, string_in, ◌==◌,
}
use diffdossier.Digests.{Sha256, tagged}
use diffdossier.Policy.{Count, TrustBinding}
use diffdossier.Gates.{Gate, Gates, gate_at, topological}
use diffdossier.Gates.Selection.{Regexps, selection}

pub record EnvBinding : Type 0 where
  pub name : String
  pub value_digest : String
  pub present : Bool

-- What the digest of a definition covers.
pub record Definition : Type 0 where
  pub id : String
  pub requested_executable : String
  pub executable : String
  pub executable_digest : String
  pub argv : List String
  pub cwd : String
  pub environment : List EnvBinding
  pub depends_on : List String
  pub timeout_seconds : Count
  pub resource_class : String
  pub cache_class : String
  pub blocking : Bool
  pub final_always : Bool
  pub network_class : String
  pub expected_writes : List String
  pub redaction_policy : String
  pub shell_mode : Bool

pub record ExpandedGate : Type 0 where
  pub definition : Definition
  pub executable_class : String
  pub cwd_class : String
  pub when_paths : List String
  pub definition_digest : String

-- What the digest of a plan covers; `schema_version` is "1.0".
pub record PlanBody : Type 0 where
  pub repository_id : String
  pub snapshot_id : String
  pub config_digest : String
  pub binary_digest : String
  pub gates : List ExpandedGate

pub record Plan : Type 0 where
  pub body : PlanBody
  pub plan_digest : String
  pub trust_candidate : TrustBinding

-- Go's library and the machine, as far as planning uses them: paths, symbolic links, the
-- environment, and the contents of files.
pub record Host : Type 0 where
  pub separator : String
  pub abs : String → Outcome String
  pub is_abs : String → Bool
  pub join : String → String → String
  pub rel : String → String → Outcome String
  pub base : String → String
  pub lower : String → String
  pub equal_fold : String → String → Bool
  pub eval_symlinks : String → Outcome String
  pub read_file : String → Outcome String
  pub lookup : String → Outcome String
  pub getenv : String → String × Bool

-- `json.Marshal`, which does not fail on these types.
pub record PlanJson : Type 0 where
  pub definition_text : Definition → String
  pub body_text : PlanBody → String

-- A text contains the ASCII character of this code.
unfoldable pub mentions : ℕ → String → Bool
mentions n String.[] = false
mentions n (String.◌∷◌ c s) = eqb (code c) n || mentions n s

module _ (sha : Sha256) (json : PlanJson) where
  unfoldable pub sealed_plan : PlanBody → Plan
  sealed_plan body =
      let digest = tagged sha (json.body_text body) in
      record {
        body = body;
        plan_digest = digest;
        trust_candidate = record {
          repository_id = body.repository_id;
          snapshot_id = body.snapshot_id;
          task_input_digest = "gate-dag";
          execution_plan_digest = digest;
          config_digest = body.config_digest;
          binary_digest = body.binary_digest;
          capability = "gate:run";
          expires_at = 0;
        };
      }

module _ (sha : Sha256) (json : PlanJson) (host : Host) where
  unfoldable pub is_shell_mode : String → List String → Bool
  is_shell_mode executable arguments =
      let name = host.lower (host.base executable) in
      if not (
        string_in name
          ("sh" ∷ "bash" ∷ "zsh" ∷ "dash" ∷ "cmd.exe" ∷ "powershell.exe" ∷ "pwsh" ∷ []))
      then false
      else any
          (λ argument.
            argument == "-c"
            || (host.equal_fold argument "/c" || host.equal_fold argument "-command"))
          arguments

  unfoldable pub classify : String → String → String
  classify root path = elim (host.rel root path) [
    | err e ↦ "external"
    | ok rel ↦
        if not (rel == "..") && not (starts_with rel (".." ++ host.separator))
        then "repository"
        else "external"
  ]

  unfoldable pub resolve_path : String → String → Outcome (String × String)
  resolve_path root value =
      host.abs (if host.is_abs value then value else host.join root value) >>= λ abs.
      host.eval_symlinks abs >>= λ resolved. ok (resolved, classify root resolved)

  unfoldable pub file_digest : String → Outcome String
  file_digest path = host.read_file path >>= λ content. ok (tagged sha content)

  unfoldable pub environment_loop : List String → List String → Outcome (List EnvBinding)
  environment_loop seen [] = ok []
  environment_loop seen (name ∷ rest) =
      refuse_if (name == "" || (mentions 61 name || string_in name seen))
        "invalid or duplicate environment name"
      >> (environment_loop (name ∷ seen) rest >>= λ others.
          let (value, present) = host.getenv name in
          ok
            ((record { name = name; value_digest = tagged sha value; present = present }) ∷ others))

  -- With "/" and "\" as the characters that make a path of the name.
  unfoldable pub find_executable : String → String → Outcome String
  find_executable cwd requested =
      (if mentions 47 requested || mentions 92 requested
        then ok (if host.is_abs requested then requested else host.join cwd requested)
        else host.lookup requested)
      >>= λ named. host.abs named >>= λ abs. host.eval_symlinks abs

  unfoldable pub define :
      Gate → String → String → String → String → List String → List EnvBinding → Definition
  define gate requested executable digest cwd arguments environment = record {
    id = gate.id;
    requested_executable = requested;
    executable = executable;
    executable_digest = digest;
    argv = gate.argv;
    cwd = cwd;
    environment = environment;
    depends_on = sort_strings gate.depends_on;
    timeout_seconds = gate.timeout_seconds;
    resource_class = gate.resource_class;
    cache_class = gate.cache_class;
    blocking = gate.blocking;
    final_always = gate.final_always;
    network_class = gate.network_class;
    expected_writes = sort_strings gate.expected_writes;
    redaction_policy = gate.redaction_policy;
    shell_mode = is_shell_mode executable arguments;
  }

  -- Go stops with a panic at `gate.Argv[0]` of a gate without arguments.
  unfoldable pub expand : String → Gate → Outcome ExpandedGate
  expand root gate = resolve_path root gate.cwd >>= λ place. elim gate.argv [
    | [] ↦ err "panic: index out of range"
    | requested ∷ arguments ↦ find_executable place.0 requested >>= λ executable.
        file_digest executable >>= λ digest. environment_loop [] gate.env_allowlist >>= λ bindings.
        let environment = sort_by (λ (b : EnvBinding). b.name) bindings in
        let definition = define gate requested executable digest place.0 arguments environment in
        ok (record {
          definition = definition;
          executable_class = classify root executable;
          cwd_class = place.1;
          when_paths = sort_strings gate.when_paths;
          definition_digest = tagged sha (json.definition_text definition);
        })
  ]

  unfoldable pub expand_all : String → Gates → List String → Outcome (List ExpandedGate)
  expand_all root selected [] = ok []
  expand_all root selected (id ∷ rest) = expand root (gate_at selected id) >>= λ first.
      expand_all root selected rest >>= λ others. ok (first ∷ others)

  -- `changed` are the paths of the seal's inventory, as `changedPaths` decodes them.
  unfoldable pub build_plan :
      Regexps → String → String → String → String → String → List String → List Gate → Outcome Plan
  build_plan re repository_id repository_root snapshot_id config_digest binary_digest changed
        gates =
      refuse_if
        (repository_id == "" || (snapshot_id == "" || (config_digest == "" || binary_digest == "")))
        "repository, snapshot, config, and binary digests are required"
      >> (host.abs repository_root >>= λ root.
          let selected = selection re changed gates in
          topological selected >>= λ order. expand_all root selected order >>= λ expanded. ok (
            sealed_plan sha json (record {
              repository_id = repository_id;
              snapshot_id = snapshot_id;
              config_digest = config_digest;
              binary_digest = binary_digest;
              gates = expanded;
            })))
