-- ===== src/Gates/Runner.antt =====
-- internal/gates/runner.go: a plan is run, gate by gate.
use diffdossier.Prelude.{
  ℕ, String, Bool, true, false, not, ◌&&◌, Option, none, some, List, [], ◌∷◌, ◌++◌, if◌then◌else◌,
  Outcome, ok, err, get, put, ◌==◌, all,
}
use diffdossier.Digests.{Sha256, tagged, ◌⋄◌}
use diffdossier.Policy.{TrustBinding, trust_authorizes}
use diffdossier.Gates.Expand.{ExpandedGate, Plan}

pub record Evidence : Type 0 where
  pub gate_id : String
  pub snapshot_id : String
  pub plan_digest : String
  pub definition_digest : String
  pub status : String
  pub cache_hit : Bool
  pub final_run : Bool
  pub recorded_at : ℕ

-- The machine, and what runs on it: `os.ReadFile`, the executor under its timeout, and the two
-- freshness guards. Each may change the machine.
pub record Machine (World : Type 0) : Type 0 where
  pub read_file : String → World → Outcome String
  pub execute : ExpandedGate → World → Outcome (Unit {0}) × World
  pub before : World → Outcome (Unit {0}) × World
  pub after : World → Outcome (Unit {0}) × World

-- The results of a call of `Run`, its error if it has one, and the machine it leaves.
pub record Ran (World : Type 0) : Type 0 where
  pub results : List Evidence
  pub error : Option String
  pub world : World

-- A missing key of `passed` is read as false.
unfoldable pub has_passed : List (String × Bool) → String → Bool
has_passed passed id = elim (get id passed) [ none ↦ false | some b ↦ b ]

module _ (sha : Sha256) {World : Type 0} (machine : Machine World) where
  unfoldable pub is_unchanged : ExpandedGate → World → Bool
  is_unchanged gate world =
      if gate.definition.executable == ""
      then true
      else elim (machine.read_file gate.definition.executable world) [
        | err e ↦ false
        | ok content ↦ tagged sha content == gate.definition.executable_digest
      ]

  module _ (plan : Plan) (now : ℕ) (cached : List (String × Evidence)) (final : Bool) where
    unfoldable pub cache_key : ExpandedGate → String
    cache_key gate =
        plan.body.snapshot_id
        ⋄ (gate.definition_digest ⋄ (plan.body.binary_digest ⋄ gate.definition.executable_digest))

    unfoldable pub usable : ExpandedGate → Evidence → Bool
    usable gate prior =
        gate.definition.cache_class == "worktree_deterministic"
        && (not (final && gate.definition.final_always) && prior.status == "pass")

    unfoldable pub revived : Evidence → Evidence
    revived prior = record prior { cache_hit = true; recorded_at = now }

    -- The result of an earlier run that stands for this gate.
    unfoldable pub reusable : ExpandedGate → Option Evidence
    reusable gate = elim (get (cache_key gate) cached) [
      | none ↦ none
      | some prior ↦ if usable gate prior then some (revived prior) else none
    ]

    unfoldable pub evidence_of : ExpandedGate → Outcome (Unit {0}) → Evidence
    evidence_of gate outcome = record {
      gate_id = gate.definition.id;
      snapshot_id = plan.body.snapshot_id;
      plan_digest = plan.plan_digest;
      definition_digest = gate.definition_digest;
      status = elim outcome [ ok u ↦ "pass" | err e ↦ "fail" ];
      cache_hit = false;
      final_run = final;
      recorded_at = now;
    }

    abbrev pub succeeded : Outcome (Unit {0}) → Bool
    succeeded (ok u) = true
    succeeded (err e) = false

    -- A failure of a blocking gate ends the run.
    unfoldable pub stop_reason : ExpandedGate → Outcome (Unit {0}) → Option String
    stop_reason gate (ok u) = none
    stop_reason gate (err e) = if gate.definition.blocking then some e else none

    abbrev pub recorded : List Evidence → Ran World → Ran World
    recorded earlier rest = record rest { results = earlier ++ rest.results }

    -- The loop over the gates, from `passed` and the machine on; the results are those from here.
    unfoldable pub run_gates : List ExpandedGate → List (String × Bool) → World → Ran World
    run_gates [] passed world = record { results = []; error = none; world = world }
    run_gates (gate ∷ rest) passed world = elim (is_unchanged gate world) [
      | false ↦ record {
        results = [];
        error = some "gate executable changed after planning";
        world = world;
      }
      | true ↦ elim (all (has_passed passed) gate.definition.depends_on) [
        | false ↦ record {
          results = [];
          error = some "gate dependency did not pass";
          world = world;
        }
        | true ↦ elim (reusable gate) [
          | some prior ↦
              recorded (prior ∷ []) (run_gates rest (put gate.definition.id true passed) world)
          | none ↦
              let (outcome, executed) = machine.execute gate world in
              let (fresh, checked) = machine.after executed in
              let evidence = evidence_of gate outcome in
              elim fresh [
                | err e ↦ record {
                  results = evidence ∷ [];
                  error = some "gate caused unexpected repository mutation; snapshot is stale";
                  world = checked;
                }
                | ok u ↦ elim (stop_reason gate outcome) [
                  | some e ↦ record { results = evidence ∷ []; error = some e; world = checked }
                  | none ↦
                      recorded (evidence ∷ [])
                        (run_gates rest (put gate.definition.id (succeeded outcome) passed) checked)
                ]
              ]
        ]
      ]
    ]

    unfoldable pub run : TrustBinding → World → Ran World
    run trust world =
        if not (trust_authorizes trust plan.trust_candidate now)
        then record { results = []; error = some "gate execution is not authorized"; world = world }
        else let (fresh, checked) = machine.before world in
          elim fresh [
            | err e ↦ record { results = []; error = some e; world = checked }
            | ok u ↦ run_gates plan.body.gates [] checked
          ]
