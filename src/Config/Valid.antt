-- ===== src/Config/Valid.antt =====
-- internal/config/config.go: what holds of every configuration that is loaded.
use diffdossier.Prelude.{
  ℕ, suc, ◌<◌, String, true, false, not, ◌||◌, none, some, List, [], ◌∷◌, ◌++◌, any, length,
  is_empty, ok, >>=-eq-ok, refuse_if, refuse_if-ok, Option-cases, inl, inr, All, All-weaken,
  All-string_in, string_in, string_in-append, get, put, get-put, get-put-other, has_key, has_key-in,
  keys, ◌==◌, eq_iff, ◌≡◌, refl, sym, subst, ◌∙◌, arith,
}
use diffdossier.Gates.{Gate, Gates, zero_gate, gate_at, topological}
use diffdossier.Gates.Selection.{Regexps, index, selection}
use diffdossier.Gates.Pulling.{selection-ordered}
use diffdossier.Config.{
  Config, Marks, marked, is_one, is_positive, leaves_repository, validate_gate, validate_gates,
  validate_dependencies, visit_each, visit_gate, validate_order, validate,
}
use diffdossier.Config.Ranked.{HasRanks, visit_each-ranks, visit_gate-ranks}

-- The IDs of the gates are not in the list.
abbrev AreFresh : List String → List Gate → Type 0
AreFresh seen = All (λ (gate : Gate). string_in gate.id seen ≡ false)

validate_gate-IsFresh :
    (seen : List String) (gate : Gate)
    → validate_gate seen gate ≡ ok tt
    → string_in gate.id seen ≡ false
unfolding validate_gate
validate_gate-IsFresh seen gate h =
    let (u1, a, h1) =
      >>=-eq-ok
        (refuse_if (gate.id == "" || is_empty gate.argv)
          "every gate requires id and non-empty argv")
        _ h in
    let (u2, b, h2) = >>=-eq-ok (refuse_if (string_in gate.id seen) "duplicate gate id") _ h1 in
    refuse_if-ok _ _ u2 b

validate_gates-AreFresh :
    (seen last : List String) (gates : List Gate)
    → validate_gates seen gates ≡ ok last
    → AreFresh seen gates
unfolding validate_gates
validate_gates-AreFresh seen last [] h = tt
validate_gates-AreFresh seen last (gate ∷ rest) h =
    let (u, first, others) = >>=-eq-ok (validate_gate seen gate) _ h in
    (
      validate_gate-IsFresh seen gate first,
      All-weaken (λ (g : Gate). string_in g.id (seen ++ gate.id ∷ []) ≡ false)
          (λ g. string_in g.id seen ≡ false)
          (λ g f. ground (arith, f, string_in-append g.id seen (gate.id ∷ []))) rest
          (validate_gates-AreFresh (seen ++ gate.id ∷ []) last rest others),
    )

get-index :
    (gates : List Gate) (x : String) (m : Gates)
    → All (λ (g : Gate). (x == g.id) ≡ false) gates
    → get x (index gates m) ≡ get x m
unfolding index
get-index [] x m h = refl
get-index (gate ∷ rest) x m h =
    get-index rest x (put gate.id gate m) h.1 ∙ get-put-other x gate.id gate m h.0

gate_at-get : (m : Gates) (id : String) (gate : Gate) → get id m ≡ some gate → gate_at m id ≡ gate
unfolding gate_at
gate_at-get m id gate e = rw (e, gate_at) refl

gate_at-missing : (m : Gates) (id : String) → get id m ≡ none → gate_at m id ≡ zero_gate
unfolding gate_at
gate_at-missing m id e = rw (e, gate_at) refl

-- With each ID once, a gate is found under its ID.
gate_at-index :
    (gates : List Gate) (seen last : List String) (m : Gates)
    → validate_gates seen gates ≡ ok last
    → All (λ (g : Gate). gate_at (index gates m) g.id ≡ g) gates
unfolding index validate_gates string_in
gate_at-index [] seen last m h = tt
gate_at-index (gate ∷ rest) seen last m h =
    let (u, first, others) = >>=-eq-ok (validate_gate seen gate) _ h in
    let apart =
      All-weaken (λ (g : Gate). string_in g.id (seen ++ gate.id ∷ []) ≡ false)
        (λ g. (gate.id == g.id) ≡ false)
        (λ g f. ground (
          arith,
          f,
          string_in-append g.id seen (gate.id ∷ []),
          eq_iff g.id gate.id,
          eq_iff gate.id g.id,
        ))
        rest (validate_gates-AreFresh (seen ++ gate.id ∷ []) last rest others) in
    let there = get-index rest gate.id (put gate.id gate m) apart ∙ get-put gate.id gate m in
    (
      gate_at-get (index (gate ∷ rest) m) gate.id gate there,
      gate_at-index rest (seen ++ gate.id ∷ []) last (put gate.id gate m) others,
    )

module _ (by_id : Gates) where
  -- The visits of all gates give ranks to all that have dependencies.
  validate_order-ranks :
      (m : Marks)
      → visit_each
          (visit_gate by_id (suc (length by_id)))
          (keys by_id)
          (record { visiting = []; visited = [] })
        ≡ ok m
      → (rank : String → ℕ) × ((id : String)
          → All (λ d. rank d < rank id) (gate_at by_id id).depends_on)
  unfolding marked get
  validate_order-ranks m h =
      let start : HasRanks by_id (record { visiting = []; visited = [] }) =
        ((λ x. 0), 0, λ id v. absurd (cc v)) in
      let ((rank, bound, ranked), (goes, done)) =
        visit_each-ranks by_id (visit_gate by_id (suc (length by_id)))
          (visit_gate-ranks by_id (suc (length by_id))) (keys by_id)
          (record { visiting = []; visited = [] }) m start h in
      (
        rank,
        λ id. elim (Option-cases (get id by_id)) [
          | inl e ↦
              subst (λ (g : Gate). All (λ d. rank d < rank id) g.depends_on)
                (sym (gate_at-missing by_id id e)) tt
          | inr (gate, e) ↦
              let key : has_key id by_id ≡ true = unfold has_key in (rw e refl) in
              let v =
                All-string_in (λ x. marked m.visited x ≡ true) (keys by_id) id done
                  (has_key-in id by_id ∙ key) in
              All-weaken (λ d. (marked m.visited d ≡ true) × (rank d < rank id))
                (λ d. rank d < rank id) (λ d p. p.1) (gate_at by_id id).depends_on (ranked id v).1
        ],
      )

module _ (trim : String → String) where
  validate-parts :
      (config : Config)
      → validate trim config ≡ ok tt
      → ((seen : List String) × (validate_gates [] config.gates ≡ ok seen))
        × ((m : Marks) × (validate_order config.gates ≡ ok m))
  unfolding validate
  validate-parts config h =
      let (u1, p1, h1) =
        >>=-eq-ok (refuse_if (not (is_one config.schema_version)) "unsupported schema_version") _
          h in
      let (u2, p2, h2) =
        >>=-eq-ok
          (refuse_if (trim config.baseline == "")
            "baseline is required; DiffDossier does not guess main or master")
          _ h1 in
      let (u3, p3, h3) =
        >>=-eq-ok
          (refuse_if
            (not (is_positive config.review.max_files_per_task)
              || not (is_positive config.review.max_packet_bytes))
            "review limits must be positive")
          _ h2 in
      let (u4, p4, h4) =
        >>=-eq-ok
          (refuse_if (config.review.default_provider == "") "review.default_provider is required") _
          h3 in
      let (u5, p5, h5) =
        >>=-eq-ok
          (refuse_if (not (is_positive config.retention_days))
            "state.retention_days must be positive")
          _ h4 in
      let (u6, p6, h6) =
        >>=-eq-ok
          (refuse_if (any leaves_repository config.include_ignored)
            "include_ignored path must stay repository-relative")
          _ h5 in
      let (seen, gates, h7) = >>=-eq-ok (validate_gates [] config.gates) _ h6 in
      let (u8, p8, h8) = >>=-eq-ok (validate_dependencies seen config.gates) _ h7 in
      let (m, order, last) = >>=-eq-ok (validate_order config.gates) _ h8 in
      ((seen, gates), (m, order))

  -- The gates of a valid configuration have an order for every change: `BuildPlan` never finds a
  -- cycle or a missing dependency in them.
  pub validate-ordered :
      (config : Config)
      → validate trim config ≡ ok tt
      → (re : Regexps) (changed : List String)
      → (order : List String) × (topological (selection re changed config.gates) ≡ ok order)
  unfolding validate_order
  validate-ordered config h re changed =
      let ((seen, gates), (m, order)) = validate-parts config h in
      let by_id = index config.gates [] in
      let (rank, ranked) = validate_order-ranks by_id m order in
      selection-ordered re changed config.gates rank (
        All-weaken (λ (g : Gate). gate_at by_id g.id ≡ g)
          (λ g. All (λ d. rank d < rank g.id) g.depends_on)
          (λ g e. subst (λ (t : Gate). All (λ d. rank d < rank g.id) t.depends_on) e (ranked g.id))
          config.gates (gate_at-index config.gates [] seen [] gates))
