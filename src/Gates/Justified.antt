-- ===== src/Gates/Justified.antt =====
-- internal/gates/runner.go: what stands behind the evidence that `Run` returns.
use diffdossier.Prelude.{
  ℕ, String, Bool, true, Option, none, List, [], ◌∷◌, ok, ◌⊎◌, put, ◌==◌, all, if◌then◌else◌, ◌≡◌,
  ◌≢◌, sym, ap, ◌∙◌,
}
use diffdossier.Digests.{Sha256, IsCollisionFree, tagged-injective}
use diffdossier.Policy.{TrustBinding, trust_authorizes}
use diffdossier.Policy.Classes.{trust_authorizes_iff}
use diffdossier.Gates.Expand.{ExpandedGate, Plan, PlanBody, PlanJson, sealed_plan}
use diffdossier.Gates.Runner.{Evidence, Machine, Ran, has_passed, is_unchanged, run_gates}
use diffdossier.Gates.Recorded.{IsReused, IsExecuted}

module _ (sha : Sha256) {World : Type 0} (machine : Machine World) (plan : Plan) (now : ℕ)
    (cached : List (String × Evidence)) (final : Bool) where
  -- The machine behind the execution of the gate and the freshness guard.
  abbrev pub world_behind : ExpandedGate → World → World
  world_behind gate world = (machine.after (machine.execute gate world).1).1

  -- The repository is fresh behind the execution, and it has not failed if it blocks.
  abbrev pub GoesOn : ExpandedGate → World → Type 0
  GoesOn gate world =
      ((machine.after (machine.execute gate world).1).0 ≡ ok tt)
      × (gate.definition.blocking ≡ true → (machine.execute gate world).0 ≡ ok tt)

  -- The results belong to the first gates of the plan, in their order, from the machine `world` on.
  -- A gate has a result only if its executable is the planned one and all its dependencies have
  -- passed before. A result is reused, and the machine is as it was, or the gate has been executed
  -- on the machine; in that case more results follow, or the run ends without an error, only if the
  -- repository is still fresh and no blocking gate has failed. Nothing else is executed, so the
  -- machine behind the last result is the one that is left, and without an error every gate has a
  -- result.
  abbrev pub IsJustified :
      List (String × Bool)
      → List ExpandedGate
      → World
      → List Evidence
      → Option String
      → World
      → Type 0
  IsJustified passed gates world [] error left = (left ≡ world) × (error ≡ none → gates ≡ [])
  IsJustified passed [] world (e ∷ rest) error left = ⊥
  IsJustified passed (gate ∷ gates) world (e ∷ rest) error left =
      (is_unchanged sha machine gate world ≡ true)
      × (all (has_passed passed) gate.definition.depends_on ≡ true)
      × ((IsReused sha machine plan now cached final gate e
            × IsJustified (put gate.definition.id true passed) gates world rest error left)
          ⊎ (IsExecuted sha machine plan now cached final gate world e
              × ((rest ≢ []) ⊎ (error ≡ none) → GoesOn gate world)
              × IsJustified (put gate.definition.id (e.status == "pass") passed) gates
                  (world_behind gate world) rest error left))

  abbrev runs : List ExpandedGate → List (String × Bool) → World → Ran World
  runs = run_gates sha machine plan now cached final

  abbrev Justifies : List (String × Bool) → List ExpandedGate → World → Ran World → Type 0
  Justifies passed gates world r = IsJustified passed gates world r.results r.error r.world

  -- The machine on which the first gate is run: behind the first guard, if the plan is trusted.
  abbrev pub started : TrustBinding → World → World
  started trust world =
      if trust_authorizes trust plan.trust_candidate now then (machine.before world).1 else world

module _ (sha : Sha256) (json : PlanJson) where
  -- Two plans that one trust binding authorizes, at whatever times, have the same JSON: what was
  -- trusted for one list of expanded gates cannot stand for another.
  pub trust_authorizes-sealed_plan :
      IsCollisionFree sha
      → (trust : TrustBinding) (a b : PlanBody) (now later : ℕ)
      → trust_authorizes trust (sealed_plan sha json a).trust_candidate now ≡ true
      → trust_authorizes trust (sealed_plan sha json b).trust_candidate later ≡ true
      → json.body_text a ≡ json.body_text b
  unfolding sealed_plan
  trust_authorizes-sealed_plan free trust a b now later h k =
      let plan_of = λ (t : TrustBinding). t.execution_plan_digest in
      let first =
        ap plan_of
          ((trust_authorizes_iff trust (sealed_plan sha json a).trust_candidate now).0 h).1 in
      let second =
        ap plan_of
          ((trust_authorizes_iff trust (sealed_plan sha json b).trust_candidate later).0 k).1 in
      tagged-injective sha (json.body_text a) (json.body_text b) free (sym first ∙ second)
