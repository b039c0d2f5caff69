-- ===== src/Gates/Runnable.antt =====
-- internal/gates: a plan that `BuildPlan` returns, run by `Run`.
use diffdossier.Prelude.{
  ℕ, suc, String, Bool, true, ◌||◌, none, some, List, [], ◌∷◌, ◌++◌, ok, >>=-eq-ok, ok-injective,
  refuse_if, Bool-cases, Option-cases, List-cases, inl, inr, ◌⊎◌, length, get, put, get-put,
  get-put-other, ◌==◌, eq_iff, all, All, All-sort_by, sort_strings, string_in, string_in-append,
  ◌≡◌, ◌≢◌, refl, sym, ap, subst, ◌∙◌, arith,
}
use diffdossier.Digests.{Sha256}
use diffdossier.Policy.{TrustBinding, trust_authorizes}
use diffdossier.Gates.{Gate, Gates, gate_at, topological}
use diffdossier.Gates.Walks.{IsOrdered}
use diffdossier.Gates.Order.{topological-IsOrdered}
use diffdossier.Gates.Selection.{Regexps, selection}
use diffdossier.Gates.Pulling.{IsCarried, All-selection, All-gate_at}
use diffdossier.Gates.Expand.{
  ExpandedGate, Plan, PlanJson, Host, resolve_path, expand, expand_all, build_plan, sealed_plan,
  find_executable, file_digest, environment_loop, define,
}
use diffdossier.Gates.Runner.{
  Evidence, Machine, Ran, has_passed, is_unchanged, reusable, evidence_of, stop_reason, succeeded,
  recorded, run_gates, run,
}

-- Each gate stands behind the gates that it depends on.
abbrev pub IsRunnable : List String → List ExpandedGate → Type 0
IsRunnable before [] = Unit
IsRunnable before (gate ∷ rest) =
    All (λ d. string_in d before ≡ true) gate.definition.depends_on
    × IsRunnable (before ++ gate.definition.id ∷ []) rest

module _ (sha : Sha256) (json : PlanJson) (host : Host) where
  -- A gate that is expanded has arguments, and keeps its ID and its dependencies.
  expand-keeps :
      (root : String) (gate : Gate) (expanded : ExpandedGate)
      → expand sha json host root gate ≡ ok expanded
      → (gate.argv ≢ [])
        × (expanded.definition.id ≡ gate.id)
        × (expanded.definition.depends_on ≡ sort_strings gate.depends_on)
  unfolding expand define
  expand-keeps root gate expanded h =
      let (place, r, h1) = >>=-eq-ok (resolve_path sha json host root gate.cwd) _ h in
      elim (List-cases gate.argv) [
        | inl none_there ↦ absurd (cc (rw none_there at h1))
        | inr (requested, arguments, e) ↦
            let (executable, f, h2) =
              >>=-eq-ok (find_executable sha json host place.0 requested) _ (rw e at h1) in
            let (digest, g, h3) = >>=-eq-ok (file_digest sha json host executable) _ h2 in
            let (bindings, k, h4) =
              >>=-eq-ok (environment_loop sha json host [] gate.env_allowlist) _ h3 in
            let same = sym (ok-injective h4) in
            (
              λ n. cc (n, e),
              ap (λ (x : ExpandedGate). x.definition.id) same,
              ap (λ (x : ExpandedGate). x.definition.depends_on) same,
            )
      ]

  -- The key of an entry is the ID of its gate, if that has arguments.
  abbrev IsKeyed : String × Gate → Type 0
  IsKeyed entry = (entry.1.argv ≡ []) ⊎ (entry.1.id ≡ entry.0)

  All-IsKeyed : (gates : List Gate) → All (λ (gate : Gate). IsKeyed (gate.id, gate)) gates
  All-IsKeyed [] = tt
  All-IsKeyed (gate ∷ rest) = (inr refl, All-IsKeyed rest)

  expand_all-IsRunnable :
      (root : String) (selected : Gates) (before order : List String) (gates : List ExpandedGate)
      → ((id : String) → IsKeyed (id, gate_at selected id))
      → IsOrdered selected before order
      → expand_all sha json host root selected order ≡ ok gates
      → IsRunnable before gates
  unfolding expand_all
  expand_all-IsRunnable root selected before [] gates keyed o h = rw (sym (ok-injective h)) tt
  expand_all-IsRunnable root selected before (id ∷ rest) gates keyed o h =
      let gate = gate_at selected id in
      let (first, f, h1) = >>=-eq-ok (expand sha json host root gate) _ h in
      let (others, g, h2) = >>=-eq-ok (expand_all sha json host root selected rest) _ h1 in
      let (argv, named, needs) = expand-keeps root gate first f in
      let same_id : first.definition.id ≡ id = elim (keyed id) [
        | inl none_there ↦ absurd (argv none_there)
        | inr k ↦ named ∙ k
      ] in
      subst (IsRunnable before) (ok-injective h2) (
        subst (All (λ d. string_in d before ≡ true)) (sym needs)
            (All-sort_by (λ d. d) (λ d. string_in d before ≡ true) gate.depends_on o.0),
        subst (λ i. IsRunnable (before ++ i ∷ []) others) (sym same_id)
            (expand_all-IsRunnable root selected (before ++ id ∷ []) rest others keyed o.2 g),
      )

  -- In a plan that `BuildPlan` returns, each gate stands behind all gates that it depends on.
  build_plan-IsRunnable :
      (re : Regexps) (repository_id root snapshot_id config_digest binary_digest : String)
      → (changed : List String) (gates : List Gate) (plan : Plan)
      → build_plan sha json host re repository_id root snapshot_id config_digest binary_digest
          changed gates
        ≡ ok plan
      → IsRunnable [] plan.body.gates
  unfolding build_plan sealed_plan
  build_plan-IsRunnable re repository_id root snapshot_id config_digest binary_digest changed gates
        plan h =
      let (u, g, h1) =
        >>=-eq-ok
          (refuse_if
            (repository_id == ""
              || (snapshot_id == "" || (config_digest == "" || binary_digest == "")))
            "repository, snapshot, config, and binary digests are required")
          _ h in
      let (abs, a, h2) = >>=-eq-ok (host.abs root) _ h1 in
      let selected = selection re changed gates in
      let (order, t, h3) = >>=-eq-ok (topological selected) _ h2 in
      let (expanded, x, h4) = >>=-eq-ok (expand_all sha json host abs selected order) _ h3 in
      let carried : IsCarried IsKeyed gates = (All-IsKeyed gates, λ id. inl refl) in
      subst (λ (p : Plan). IsRunnable [] p.body.gates) (ok-injective h4)
        (expand_all-IsRunnable abs selected [] order expanded
          (λ id.
            All-gate_at IsKeyed selected id (λ i. inl refl)
              (All-selection IsKeyed gates carried re changed))
          (topological-IsOrdered selected order t).0 x)

module _ (sha : Sha256) {World : Type 0} (machine : Machine World) (plan : Plan) (now : ℕ)
    (cached : List (String × Evidence)) (final : Bool) where
  -- Nothing goes wrong: no executable changes, every execution succeeds, and the repository stays
  -- as it is.
  abbrev pub IsFaultless : Type 0
  IsFaultless =
      All (λ gate. (world : World) → is_unchanged sha machine gate world ≡ true) plan.body.gates
      × ((gate : ExpandedGate) (world : World) → (machine.execute gate world).0 ≡ ok tt)
      × ((world : World) → (machine.before world).0 ≡ ok tt)
      × ((world : World) → (machine.after world).0 ≡ ok tt)

  abbrev HavePassed : List String → List (String × Bool) → Type 0
  HavePassed before passed =
      (id : String) → string_in id before ≡ true → has_passed passed id ≡ true

  HavePassed-all :
      (before : List String) (passed : List (String × Bool)) (ids : List String)
      → HavePassed before passed
      → All (λ d. string_in d before ≡ true) ids
      → all (has_passed passed) ids ≡ true
  HavePassed-all before passed [] p h = refl
  HavePassed-all before passed (d ∷ ids) p h =
      ground (arith, p d h.0, HavePassed-all before passed ids p h.1)

  HavePassed-put :
      (before : List String) (passed : List (String × Bool)) (id : String)
      → HavePassed before passed
      → HavePassed (before ++ id ∷ []) (put id true passed)
  unfolding has_passed string_in
  HavePassed-put before passed id p x m = elim (Bool-cases (x == id)) [
    | inl e ↦
        let there =
          subst (λ y. get y (put id true passed) ≡ some true) (sym ((eq_iff x id).0 e))
            (get-put id true passed) in
        rw (there, has_passed) refl
    | inr e ↦
        rw (get-put-other x id true passed e, has_passed)
          (p x (ground (arith, string_in-append x before (id ∷ []), e)))
  ]

  run_gates-completes :
      (gates : List ExpandedGate) (before : List String) (passed : List (String × Bool))
      (world : World)
      → All (λ gate. (world : World) → is_unchanged sha machine gate world ≡ true) gates
      → IsFaultless
      → IsRunnable before gates
      → HavePassed before passed
      → let r = run_gates sha machine plan now cached final gates passed world in
        (r.error ≡ none) × (length r.results ≡ length gates)
  unfolding run_gates stop_reason
  run_gates-completes [] before passed world same f r p = (refl, refl)
  run_gates-completes (gate ∷ rest) before passed world same f r p =
      let c = same.0 world in
      let d = HavePassed-all before passed gate.definition.depends_on p r.0 in
      let id = gate.definition.id in
      let runs = run_gates sha machine plan now cached final in
      let whole = runs (gate ∷ rest) passed world in
      let result = λ (t : Ran World). (t.error ≡ none) × (length t.results ≡ suc (length rest)) in
      elim (Option-cases (reusable sha machine plan now cached final gate)) [
        | inr (prior, q) ↦
            let next = runs rest (put id true passed) world in
            let eq : whole ≡ recorded sha machine plan now cached final (prior ∷ []) next =
              rw (c, d, q, run_gates) refl in
            let (e, l) =
              run_gates-completes rest (before ++ id ∷ []) (put id true passed) world same.1 f r.1
                (HavePassed-put before passed id p) in
            subst result (sym eq) (e, ap suc l)
        | inl q ↦
            let outcome = (machine.execute gate world).0 in
            let executed = (machine.execute gate world).1 in
            let after = (machine.after executed).1 in
            let x = sym (f.1 gate world) in
            let fresh = f.3 executed in
            let go_on =
              subst (λ o. stop_reason sha machine plan now cached final gate o ≡ none) x refl in
            let done = succeeded sha machine plan now cached final outcome in
            let is_done =
              subst (λ o. succeeded sha machine plan now cached final o ≡ true) x refl in
            let evidence = evidence_of sha machine plan now cached final gate outcome in
            let eq : whole
                ≡ recorded sha machine plan now cached final (evidence ∷ [])
                    (runs rest (put id done passed) after) =
              rw (c, d, q, fresh, go_on, run_gates) refl in
            let (e, l) =
              run_gates-completes rest (before ++ id ∷ []) (put id true passed) after same.1 f r.1
                (HavePassed-put before passed id p) in
            subst result (sym eq) (
              subst
                (λ t.
                  ((runs rest (put id t passed) after).error ≡ none)
                  × (suc (length (runs rest (put id t passed) after).results) ≡ suc (length rest)))
                (sym is_done) (e, ap suc l))
      ]

  -- A plan that `BuildPlan` returned and a trust binding authorizes runs to its end, with a result
  -- for every gate, if nothing goes wrong: the dependencies never stop it.
  pub build_plan-completes :
      (json : PlanJson) (host : Host) (re : Regexps)
      → (repository_id root snapshot_id config_digest binary_digest : String)
        (changed : List String) (gates : List Gate)
      → build_plan sha json host re repository_id root snapshot_id config_digest binary_digest
          changed gates
        ≡ ok plan
      → IsFaultless
      → (trust : TrustBinding) (world : World)
      → trust_authorizes trust plan.trust_candidate now ≡ true
      → let r = run sha machine plan now cached final trust world in
        (r.error ≡ none) × (length r.results ≡ length plan.body.gates)
  unfolding run string_in
  build_plan-completes json host re repository_id root snapshot_id config_digest binary_digest
        changed gates h f trust world a =
      let runnable =
        build_plan-IsRunnable sha json host re repository_id root snapshot_id config_digest
          binary_digest changed gates plan h in
      let checked = (machine.before world).1 in
      let started = f.2 world in
      let eq : run sha machine plan now cached final trust world
          ≡ run_gates sha machine plan now cached final plan.body.gates [] checked =
        rw (a, started, run) refl in
      subst (λ (t : Ran World). (t.error ≡ none) × (length t.results ≡ length plan.body.gates))
        (sym eq) (run_gates-completes plan.body.gates [] [] checked f.0 f runnable (λ id m. cc))
