-- ===== src/Gates.antt =====
-- internal/gates/plan.go and the gate type of internal/config/config.go: the declared gates, which
-- of them a change selects, and the order in which they run.
pub mod Walks
pub mod Order
pub mod Cycles
pub mod Selection
pub mod Expand
pub mod Runner
pub mod Pulling
pub mod Recorded
pub mod Justified
pub mod Runnable
use diffdossier.Prelude.{
  ℕ, zero, suc, ◌+◌, String, Bool, true, false, not, Option, none, some, List, [], ◌∷◌, ◌++◌,
  length, eqb, if◌then◌else◌, Outcome, ok, err, ◌>>=◌, any, is_empty, sort_strings, get, put,
  has_key, keys,
}
use diffdossier.Policy.{Count, count}

pub record Gate : Type 0 where
  pub id : String
  pub argv : List String
  pub cwd : String
  pub env_allowlist : List String
  pub when_paths : List String
  pub depends_on : List String
  pub timeout_seconds : Count
  pub resource_class : String
  pub blocking : Bool
  pub cache_class : String
  pub final_always : Bool
  pub network_class : String
  pub expected_writes : List String
  pub redaction_policy : String

abbrev pub Gates : Type 0
Gates = List (String × Gate)

-- Go reads a missing key of a map of gates as this.
abbrev pub zero_gate : Gate
zero_gate = record {
  id = "";
  argv = [];
  cwd = "";
  env_allowlist = [];
  when_paths = [];
  depends_on = [];
  timeout_seconds = count 0;
  resource_class = "";
  blocking = false;
  cache_class = "";
  final_always = false;
  network_class = "";
  expected_writes = [];
  redaction_policy = "";
}

unfoldable pub gate_at : Gates → String → Gate
gate_at gates id = elim (get id gates) [ none ↦ zero_gate | some gate ↦ gate ]

-- The variables `state` and `order` of `topological`: 1 is under visit, 2 is done.
pub record Walk : Type 0 where
  pub state : List (String × ℕ)
  pub order : List String

unfoldable pub state_of : Walk → String → ℕ
state_of walk id = elim (get id walk.state) [ none ↦ 0 | some n ↦ n ]

unfoldable pub opened : String → Walk → Walk
opened id walk = record walk { state = put id 1 walk.state }

unfoldable pub closed : String → Walk → Walk
closed id walk = record walk { state = put id 2 walk.state; order = walk.order ++ id ∷ [] }

module _ (gates : Gates) where
  -- The loop over the dependencies, with the call of `visit` as an argument.
  unfoldable pub visit_dependencies :
      (String → Walk → Outcome Walk) → List String → Walk → Outcome Walk
  visit_dependencies step [] walk = ok walk
  visit_dependencies step (dep ∷ rest) walk = elim (has_key dep gates) [
    | false ↦ err "gate depends on unavailable"
    | true ↦ step dep walk >>= λ after. visit_dependencies step rest after
  ]

  unfoldable pub visit : ℕ → String → Walk → Outcome Walk
  visit zero id walk = err "out of fuel"
  visit (suc fuel) id walk = elim (eqb (state_of walk id) 1) [
    | true ↦ err "gate dependency cycle"
    | false ↦ elim (eqb (state_of walk id) 2) [
      | true ↦ ok walk
      | false ↦
          visit_dependencies (visit fuel) (sort_strings (gate_at gates id).depends_on)
            (opened id walk)
          >>= λ after. ok (closed id after)
    ]
  ]

  unfoldable pub visit_all : ℕ → List String → Walk → Outcome Walk
  visit_all fuel [] walk = ok walk
  visit_all fuel (id ∷ rest) walk = visit fuel id walk >>= λ after. visit_all fuel rest after

  unfoldable pub topological : Outcome (List String)
  topological =
      visit_all (suc (length gates)) (sort_strings (keys gates)) (record { state = []; order = [] })
      >>= λ walk. ok walk.order
