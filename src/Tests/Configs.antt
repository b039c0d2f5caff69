-- ===== src/Tests/Configs.antt =====
-- Witnesses on a small configuration file.
use diffdossier.Prelude.{
  String, true, List, [], ◌∷◌, ◌==◌, ok, if◌then◌else◌, string_in, get, put, ◌≡◌, refl, length,
}
use diffdossier.Digests.{tagged}
use diffdossier.Policy.{count}
use diffdossier.Gates.{Gate, zero_gate, gate_at, topological}
use diffdossier.Gates.Selection.{index, selection}
use diffdossier.Config.{
  Config, default, is_positive, is_one, slashed, leaves_repository, validate_gate, validate_gates,
  validate_dependencies, marked, entered, left, visit_each, visit_gate, validate_order, validate,
}
use diffdossier.Config.Load.{
  Format, ConfigFile, lines, absent, Effective, Source, begin_gate, assign_gate, assign_last,
  parse_strings, parse_items, quoted, ends_with, begin_section, load_layer, override, finish,
  finish_overridden, load_user, load_effective, read_lines, read_line, read_field, field_id, assign,
  strip, cut,
}
use diffdossier.Config.Valid.{validate-ordered}
use diffdossier.Config.Layers.{AreLayered, user_gates, gates_of, load_effective-AreLayered}
use diffdossier.Tests.Encoders.{sha}
use diffdossier.Tests.GateRuns.{regexps}

abbrev trim : String → String
trim text = text

abbrev checked_gate : String → List String → Gate
checked_gate id dependencies = record zero_gate {
  id = id;
  argv = "\"make\"" ∷ [];
  cwd = ".";
  depends_on = dependencies;
  timeout_seconds = count 1;
  cache_class = "external";
  resource_class = "cpu";
  network_class = "none";
}

abbrev config : Config
config = record default {
  baseline = "main";
  gates = checked_gate "test" ("build" ∷ []) ∷ checked_gate "build" [] ∷ [];
}

config-valid : validate trim config ≡ ok tt
unfolding validate validate_gates validate_gate validate_dependencies validate_order visit_each
    visit_gate marked entered left leaves_repository slashed is_positive is_one index gate_at get
    put string_in
config-valid = refl

validate-ordered_example :
    (order : List String) × (topological (selection regexps ("src/a.go" ∷ []) config.gates)
      ≡ ok order)
validate-ordered_example = validate-ordered trim config config-valid regexps ("src/a.go" ∷ [])

abbrev format : Format
format = record {
  trim = trim;
  unquote = λ text. ok text;
  parse_int = λ text. ok (count 1);
  parse_bool = λ text. ok true;
  config_text = λ c. c.baseline;
}

abbrev rows : List String
rows =
    "baseline=main # default" ∷ "[[gates]]" ∷ "id=build" ∷ "argv=[\"make\"]" ∷ "cwd=."
    ∷ "timeout_seconds=60" ∷ "cache_class=external" ∷ "resource_class=cpu" ∷ "network_class=none"
    ∷ []

abbrev files : String → ConfigFile
files path = if path == "repo.toml" then lines "text" rows true else absent

abbrev effective : Effective
effective = record {
  config = record default { baseline = "HEAD"; gates = checked_gate "build" [] ∷ [] };
  sources =
      (record { kind = "repository"; path = "repo.toml"; digest = tagged sha "text" })
      ∷ (record { kind = "cli"; path = "baseline"; digest = tagged sha "HEAD" })
      ∷ [];
  digest = tagged sha "HEAD";
}

effective-loaded :
    load_effective sha format (λ n. "0") files "user.toml" "repo.toml" "HEAD" ≡ ok effective
unfolding begin_gate assign_gate assign_last parse_strings parse_items quoted ends_with
    begin_section validate_gate load_effective load_user load_layer read_lines read_line read_field
    field_id assign strip cut override finish finish_overridden validate validate_gates
    validate_order visit_each validate_dependencies leaves_repository slashed is_positive is_one
    index gate_at get put string_in tagged visit_gate marked
effective-loaded = refl

load_effective-AreLayered_example :
    (user : Config) × (sources : List Source) × (load_user sha format (λ n. "0") files "user.toml"
      ≡ ok (user, sources))
    × (length user.gates ≡ user_gates sha format (λ n. "0") files "user.toml")
    × AreLayered sha format
        (λ n. "0")
        files
        user.gates
        (gates_of sha format (λ n. "0") files (files "repo.toml"))
        effective.config.gates
load_effective-AreLayered_example =
    load_effective-AreLayered sha format (λ n. "0") files "user.toml" "repo.toml" "HEAD" effective
      effective-loaded
