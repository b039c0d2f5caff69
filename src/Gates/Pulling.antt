-- ===== src/Gates/Pulling.antt =====
-- internal/gates/plan.go: what `BuildPlan` selects has all its dependencies, and so an order.
use diffdossier.Prelude.{
  ℕ, zero, suc, ◌≤◌, ◌<◌, String, Bool, true, false, not, List, [], ◌∷◌, length, Bool-cases,
  Option-cases, inl, inr, ◌⊎◌, All, All-of_string_in, string_in, string_in-append, count_of,
  count_of_mono, count_of-less, count_of-bound, get, put, has_key, has_key-put, All-put, All-get,
  eq_refl, ok, ◌≡◌, refl, sym, subst, ◌∙◌, arith,
}
use diffdossier.Gates.{Gate, Gates, zero_gate, gate_at, topological}
use diffdossier.Gates.Selection.{
  Regexps, select, index, pull_dependencies, pull_round, pull, dependency_names, selection,
  matches_any,
}
use diffdossier.Gates.Cycles.{IsClosed, topological-succeeds}

-- A predicate that the declared gates have under their IDs, and the gate of a missing key has.
abbrev pub IsCarried : (String × Gate → Type 0) → List Gate → Type 0
IsCarried P gates =
    All (λ (gate : Gate). P (gate.id, gate)) gates × ((id : String) → P (id, zero_gate))

module _ (P : String × Gate → Type 0) where
  All-index :
      (gates : List Gate) (m : Gates)
      → All (λ (gate : Gate). P (gate.id, gate)) gates
      → All P m
      → All P (index gates m)
  unfolding index
  All-index [] m p h = h
  All-index (gate ∷ rest) m p h =
      All-index rest (put gate.id gate m) p.1 (All-put P gate.id gate m p.0 h)

  All-select :
      (re : Regexps) (changed : List String) (gates : List Gate) (m : Gates)
      → All (λ (gate : Gate). P (gate.id, gate)) gates
      → All P m
      → All P (select re changed gates m)
  unfolding select
  All-select re changed [] m p h = h
  All-select re changed (gate ∷ rest) m p h =
      elim (Bool-cases (matches_any re gate.when_paths changed)) [
        | inl e ↦
            rw e
              (All-select re changed rest (put gate.id gate m) p.1 (All-put P gate.id gate m p.0 h))
        | inr e ↦ rw e (All-select re changed rest m p.1 h)
      ]

  pub All-gate_at :
      (m : Gates) (id : String)
      → ((id : String) → P (id, zero_gate))
      → All P m
      → P (id, gate_at m id)
  unfolding gate_at
  All-gate_at m id z h = elim (Option-cases (get id m)) [
    | inl e ↦ rw (e, gate_at) (z id)
    | inr (gate, e) ↦ rw (e, gate_at) (All-get P id gate m h e)
  ]

abbrev NeedsIn : List String → String × Gate → Type 0
NeedsIn names entry = All (λ d. string_in d names ≡ true) entry.1.depends_on

-- The names that are not yet selected.
unpulled : List String → Gates → ℕ
unpulled names m = count_of (λ name. not (has_key name m)) names

abbrev Keeps : Gates → Gates → Type 0
Keeps m m' = (id : String) → has_key id m ≡ true → has_key id m' ≡ true

-- From `(m, c)` to `(m', c')`: nothing is lost; either nothing is new, and then the IDs are there,
-- or fewer names are missing.
abbrev Pulled : List String → (Gates → Type 0) → Gates → Bool → Gates → Bool → Type 0
Pulled names Have m c m' c' =
    Keeps m m'
    × (((c' ≡ c) × (m' ≡ m) × Have m) ⊎ ((c' ≡ true) × (unpulled names m' < unpulled names m)))

abbrev HaveKeys : List String → Gates → Type 0
HaveKeys ids m = All (λ d. has_key d m ≡ true) ids

unpulled_mono :
    (names : List String) (m m' : Gates) → Keeps m m' → unpulled names m' ≤ unpulled names m
unfolding unpulled
unpulled_mono names m m' k =
    count_of_mono (λ name. not (has_key name m')) (λ name. not (has_key name m)) names
      (λ x h. ground (arith, k x))

unpulled-put :
    (names : List String) (dep : String) (gate : Gate) (m : Gates)
    → string_in dep names ≡ true
    → has_key dep m ≡ false
    → unpulled names (put dep gate m) < unpulled names m
unfolding unpulled
unpulled-put names dep gate m n f =
    count_of-less (λ name. not (has_key name (put dep gate m))) (λ name. not (has_key name m)) names
      dep (λ x h. ground (arith, has_key-put x dep gate m)) n
      (ground (arith, has_key-put dep dep gate m, eq_refl dep)) (ground arith)

Pulled-trans :
    (names : List String) (F G H : Gates → Type 0)
    → ((m : Gates) → F m → G m → H m)
    → (m : Gates) (c : Bool) (m' : Gates) (c' : Bool) (m'' : Gates) (c'' : Bool)
    → Pulled names F m c m' c'
    → Pulled names G m' c' m'' c''
    → Pulled names H m c m'' c''
Pulled-trans names F G H both m c m' c' m'' c'' (k, inl (p, q, f)) (l, inl (p', q', g)) =
    (λ id h. l id (k id h), inl (p' ∙ p, q' ∙ q, both m f (subst G q g)))
Pulled-trans names F G H both m c m' c' m'' c'' (k, inl (p, q, f)) (l, inr (p', less)) =
    (λ id h. l id (k id h), inr (p', subst (λ t. unpulled names m'' < unpulled names t) q less))
Pulled-trans names F G H both m c m' c' m'' c'' (k, inr (p, less)) (l, inl (p', q', g)) = (
  λ id h. l id (k id h),
  inr (p' ∙ p, subst (λ t. unpulled names t < unpulled names m) (sym q') less),
)
Pulled-trans names F G H both m c m' c' m'' c'' (k, inr (p, less)) (l, inr (p', less')) =
    (λ id h. l id (k id h), inr (p', omega arith))

module _ (P : String × Gate → Type 0) (gates : List Gate) (carried : IsCarried P gates) where
  All-by_id : All P (index gates [])
  All-by_id = All-index P gates [] carried.0 tt

  All-pull_dependencies :
      (ids : List String) (m : Gates) (c : Bool)
      → All P m
      → All P (pull_dependencies (index gates []) ids (m, c)).0
  unfolding pull_dependencies
  All-pull_dependencies [] m c h = h
  All-pull_dependencies (dep ∷ rest) m c h = elim (Bool-cases (has_key dep m)) [
    | inl e ↦ rw (e, pull_dependencies) (All-pull_dependencies rest m c h)
    | inr e ↦
        let by_id = index gates [] in
        rw (e, pull_dependencies)
          (All-pull_dependencies rest (put dep (gate_at by_id dep) m) true
            (All-put P dep (gate_at by_id dep) m (All-gate_at P by_id dep carried.1 All-by_id) h))
  ]

  All-pull_round :
      (entries m : Gates) (c : Bool)
      → All P m
      → All P (pull_round (index gates []) entries (m, c)).0
  unfolding pull_round
  All-pull_round [] m c h = h
  All-pull_round (entry ∷ rest) m c h =
      let (m', c') = pull_dependencies (index gates []) entry.1.depends_on (m, c) in
      All-pull_round rest m' c' (All-pull_dependencies entry.1.depends_on m c h)

  All-pull : (fuel : ℕ) (m : Gates) → All P m → All P (pull fuel (index gates []) m)
  unfolding pull
  All-pull zero m h = h
  All-pull (suc fuel) m h =
      let round = pull_round (index gates []) m (m, false) in
      elim (Bool-cases round.1) [
        | inl e ↦ rw (e, pull) (All-pull fuel round.0 (All-pull_round m m false h))
        | inr e ↦ rw (e, pull) (All-pull_round m m false h)
      ]

  -- What the declared gates have, the selected ones have.
  pub All-selection : (re : Regexps) (changed : List String) → All P (selection re changed gates)
  unfolding selection
  All-selection re changed =
      All-pull (suc (length (dependency_names gates))) (select re changed gates [])
        (All-select P re changed gates [] carried.0 tt)

Pulled-dependencies :
    (by_id : Gates) (names ids : List String) (m : Gates) (c : Bool)
    → All (λ d. string_in d names ≡ true) ids
    → let s = pull_dependencies by_id ids (m, c) in Pulled names (HaveKeys ids) m c s.0 s.1
unfolding pull_dependencies
Pulled-dependencies by_id names [] m c n = (λ id h. h, inl (refl, refl, tt))
Pulled-dependencies by_id names (dep ∷ rest) m c n =
    let all_ids = pull_dependencies by_id (dep ∷ rest) (m, c) in
    let result = λ (s : Gates × Bool). Pulled names (HaveKeys (dep ∷ rest)) m c s.0 s.1 in
    let join =
      Pulled-trans names (λ g. has_key dep g ≡ true) (HaveKeys rest) (HaveKeys (dep ∷ rest))
        (λ g h t. (h, t)) m c in
    elim (Bool-cases (has_key dep m)) [
      | inl e ↦
          let s = pull_dependencies by_id rest (m, c) in
          let same : all_ids ≡ s = rw (e, pull_dependencies) refl in
          subst result (sym same) (
            join m c s.0 s.1 (λ id h. h, inl (refl, refl, e))
              (Pulled-dependencies by_id names rest m c n.1))
      | inr e ↦
          let gate = gate_at by_id dep in
          let s = pull_dependencies by_id rest (put dep gate m, true) in
          let same : all_ids ≡ s = rw (e, pull_dependencies) refl in
          subst result (sym same) (
            join (put dep gate m) true s.0 s.1
              (
                λ id h. ground (arith, has_key-put id dep gate m),
                inr (refl, unpulled-put names dep gate m n.0 e),
              )
              (Pulled-dependencies by_id names rest (put dep gate m) true n.1))
    ]

abbrev EntriesHave : Gates → Gates → Type 0
EntriesHave entries m = All (λ (entry : String × Gate). HaveKeys entry.1.depends_on m) entries

Pulled-round :
    (by_id : Gates) (names : List String) (entries m : Gates) (c : Bool)
    → All (NeedsIn names) entries
    → let s = pull_round by_id entries (m, c) in Pulled names (EntriesHave entries) m c s.0 s.1
unfolding pull_round
Pulled-round by_id names [] m c n = (λ id h. h, inl (refl, refl, tt))
Pulled-round by_id names (entry ∷ rest) m c n =
    let (m', c') = pull_dependencies by_id entry.1.depends_on (m, c) in
    let s = pull_round by_id rest (m', c') in
    Pulled-trans names (HaveKeys entry.1.depends_on) (EntriesHave rest) (EntriesHave (entry ∷ rest))
      (λ g h t. (h, t)) m c m' c' s.0 s.1
      (Pulled-dependencies by_id names entry.1.depends_on m c n.0)
      (Pulled-round by_id names rest m' c' n.1)

HaveKeys-pull :
    (by_id : Gates) (names : List String) (fuel : ℕ) (m : Gates)
    → ((entries g : Gates)
        → All (NeedsIn names) entries
        → All (NeedsIn names) g
        → All (NeedsIn names) (pull_round by_id entries (g, false)).0)
    → All (NeedsIn names) m
    → unpulled names m < fuel
    → EntriesHave (pull fuel by_id m) (pull fuel by_id m)
unfolding pull
HaveKeys-pull by_id names zero m keep n u = absurd (omega arith)
HaveKeys-pull by_id names (suc fuel) m keep n u =
    let s = pull_round by_id m (m, false) in
    elim (Bool-cases s.1) [
      | inl e ↦
          let less : unpulled names s.0 < unpulled names m =
            elim (Pulled-round by_id names m m false n).1 [
              | inl (p, q, h) ↦ absurd (cc (p, e))
              | inr (p, h) ↦ h
            ] in
          rw (e, pull) (HaveKeys-pull by_id names fuel s.0 keep (keep m m n n) (omega arith))
      | inr e ↦ elim (Pulled-round by_id names m m false n).1 [
        | inr (p, h) ↦ absurd (cc (p, e))
        | inl (p, q, h) ↦
            let closed_map : EntriesHave s.0 s.0 = subst (λ g. EntriesHave g g) (sym q) h in
            rw (e, pull) closed_map
      ]
    ]

unpulled-bound : (names : List String) (m : Gates) → unpulled names m ≤ length names
unfolding unpulled
unpulled-bound names m = count_of-bound (λ name. not (has_key name m)) names

NeedsIn-declared :
    (gates : List Gate) (names : List String)
    → ((d : String) → string_in d (dependency_names gates) ≡ true → string_in d names ≡ true)
    → All (λ (gate : Gate). NeedsIn names (gate.id, gate)) gates
unfolding dependency_names
NeedsIn-declared [] names f = tt
NeedsIn-declared (gate ∷ rest) names f = (
  All-of_string_in (λ d. string_in d names ≡ true) gate.depends_on
      (λ d h. f d (ground (arith, string_in-append d gate.depends_on (dependency_names rest)))),
  NeedsIn-declared rest names
      (λ d h. f d (ground (arith, string_in-append d gate.depends_on (dependency_names rest)))),
)

-- The selection has every dependency of each of its gates: the fuel is enough.
pub selection-IsClosed :
    (re : Regexps) (changed : List String) (gates : List Gate)
    → IsClosed (selection re changed gates)
unfolding selection
selection-IsClosed re changed gates id =
    let names = dependency_names gates in
    let carried : IsCarried (NeedsIn names) gates =
      (NeedsIn-declared gates names (λ d h. h), λ id. tt) in
    let m = select re changed gates [] in
    let n = All-select (NeedsIn names) re changed gates [] carried.0 tt in
    let chosen = selection re changed gates in
    All-gate_at (λ entry. HaveKeys entry.1.depends_on chosen) chosen id (λ id. tt)
      (HaveKeys-pull (index gates []) names (suc (length names)) m
        (λ entries g needs h. All-pull_round (NeedsIn names) gates carried entries g false h) n
        (omega (arith, unpulled-bound names m)))

-- The gates of a change have an order whenever the declared dependencies have no cycle, also where
-- a dependency is not declared.
pub selection-ordered :
    (re : Regexps) (changed : List String) (gates : List Gate) (rank : String → ℕ)
    → All (λ (gate : Gate). All (λ d. rank d < rank gate.id) gate.depends_on) gates
    → (order : List String) × (topological (selection re changed gates) ≡ ok order)
selection-ordered re changed gates rank ranked =
    topological-succeeds (selection re changed gates) rank
      (λ id.
        let P = λ (entry : String × Gate). All (λ d. rank d < rank entry.0) entry.1.depends_on in
        All-gate_at P (selection re changed gates) id (λ id. tt)
          (All-selection P gates (ranked, λ id. tt) re changed))
      (selection-IsClosed re changed gates)
