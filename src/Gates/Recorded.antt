-- ===== src/Gates/Recorded.antt =====
-- internal/gates/runner.go: what one piece of evidence says of its gate.
use diffdossier.Prelude.{
  ℕ, String, Bool, true, false, none, some, List, Outcome, ok, err, if-eq-some, Option-cases, inl,
  inr, get, ◌==◌, eq_iff, ◌&&◌, ◌≡◌, refl, sym, arith,
}
use diffdossier.Digests.{Sha256}
use diffdossier.Gates.Expand.{ExpandedGate, Plan}
use diffdossier.Gates.Runner.{
  Evidence, Machine, cache_key, usable, revived, reusable, evidence_of, stop_reason, succeeded,
}

abbrev pub status_of : Outcome (Unit {0}) → String
status_of (ok u) = "pass"
status_of (err e) = "fail"

module _ (sha : Sha256) {World : Type 0} (machine : Machine World) (plan : Plan) (now : ℕ)
    (cached : List (String × Evidence)) (final : Bool) where
  -- A passing result of the cache under the gate's key, marked and dated, of a gate that may be
  -- taken from the cache in this run.
  pub record IsReused (gate : ExpandedGate) (e : Evidence) : Type 0 where
    pub prior : Evidence
    pub found : get (cache_key sha machine plan now cached final gate) cached ≡ some prior
    pub passing : prior.status ≡ "pass"
    pub same : e ≡ record prior { cache_hit = true; recorded_at = now }
    pub deterministic : gate.definition.cache_class ≡ "worktree_deterministic"
    pub not_final : (final && gate.definition.final_always) ≡ false

  -- The record of the gate's execution on the machine: it names the gate, the plan and the
  -- definition, and says that the gate passed exactly if the executor returned no error. There was no
  -- result to reuse.
  pub record IsExecuted (gate : ExpandedGate) (world : World) (e : Evidence) : Type 0 where
    pub not_reusable : reusable sha machine plan now cached final gate ≡ none
    pub status : e.status ≡ status_of (machine.execute gate world).0
    pub gate_id : e.gate_id ≡ gate.definition.id
    pub snapshot_id : e.snapshot_id ≡ plan.body.snapshot_id
    pub plan_digest : e.plan_digest ≡ plan.plan_digest
    pub definition_digest : e.definition_digest ≡ gate.definition_digest
    pub not_cached : e.cache_hit ≡ false
    pub finality : e.final_run ≡ final

  pub passes :
      (gate : ExpandedGate) (outcome : Outcome (Unit {0}))
      → ((evidence_of sha machine plan now cached final gate outcome).status == "pass")
        ≡ succeeded sha machine plan now cached final outcome
  unfolding evidence_of
  passes gate (ok u) = refl
  passes gate (err e) = refl

  pub carries_on :
      (gate : ExpandedGate) (outcome : Outcome (Unit {0}))
      → stop_reason sha machine plan now cached final gate outcome ≡ none
      → gate.definition.blocking ≡ true
      → outcome ≡ ok tt
  unfolding stop_reason
  carries_on gate (ok u) b blocks = refl
  carries_on gate (err e) b blocks = cc (rw (blocks, stop_reason) at b)

  recorded_status :
      (gate : ExpandedGate) (outcome : Outcome (Unit {0}))
      → (evidence_of sha machine plan now cached final gate outcome).status ≡ status_of outcome
  unfolding evidence_of
  recorded_status gate (ok u) = refl
  recorded_status gate (err e) = refl

  pub evidence_of-IsExecuted :
      (gate : ExpandedGate) (world : World)
      → reusable sha machine plan now cached final gate ≡ none
      → IsExecuted gate world
          (evidence_of sha machine plan now cached final gate (machine.execute gate world).0)
  unfolding evidence_of
  evidence_of-IsExecuted gate world r = record {
    not_reusable = r;
    status = recorded_status gate (machine.execute gate world).0;
    gate_id = refl;
    snapshot_id = refl;
    plan_digest = refl;
    definition_digest = refl;
    not_cached = refl;
    finality = refl;
  }

  usable-parts :
      (gate : ExpandedGate) (prior : Evidence)
      → usable sha machine plan now cached final gate prior ≡ true
      → (gate.definition.cache_class ≡ "worktree_deterministic")
        × ((final && gate.definition.final_always) ≡ false)
        × (prior.status ≡ "pass")
  unfolding usable
  usable-parts gate prior h = ground (
    arith,
    eq_iff gate.definition.cache_class "worktree_deterministic",
    eq_iff prior.status "pass",
  )

  pub reusable-IsReused :
      (gate : ExpandedGate) (e : Evidence)
      → reusable sha machine plan now cached final gate ≡ some e
      → IsReused gate e
  unfolding reusable revived
  reusable-IsReused gate e h =
      elim (Option-cases (get (cache_key sha machine plan now cached final gate) cached)) [
        | inl n ↦ absurd (cc (rw (n, reusable) at h))
        | inr (prior, f) ↦
            let (y, same) =
              if-eq-some (usable sha machine plan now cached final gate prior)
                (revived sha machine plan now cached final prior) e (rw (f, reusable) at h) in
            let (class, not_final, pass) = usable-parts gate prior y in
            record {
              prior = prior;
              found = f;
              passing = pass;
              same = sym same;
              deterministic = class;
              not_final = not_final;
            }
      ]
