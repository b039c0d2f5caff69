-- ===== src/Results/Index.antt =====
-- internal/results/index.go: the index of a run's review results.
use diffdossier.Prelude.{
  ℕ, String, Bool, true, false, not, ◌&&◌, ◌||◌, List, [], ◌∷◌, ◌++◌, any, all, eqb, ltb, length,
  is_empty, if◌then◌else◌, ◌==◌, Outcome, ok, err, string_in, distinct, sort_by,
}
use diffdossier.Digests.{Sha256, tagged, short_id, joined, ◌⋄◌}
use diffdossier.Planner.{Task, Plan}
use diffdossier.Results.{Result, Validation}

pub record Record : Type 0 where
  pub task_id : String
  pub pass_id : String
  pub perspective : String
  pub provider : String
  pub model : String
  pub model_family : String
  pub prompt_digest : String
  pub context_isolation : String
  pub result_path : String
  pub result_digest : String
  pub completed : Bool
  pub recorded_at : ℕ

pub record Index : Type 0 where
  pub schema_version : String
  pub records : List Record

-- The JSON text of a result.
pub record ResultJson : Type 0 where
  pub encode : Result → String

abbrev pub same_pass : Result → Record → Bool
same_pass result r = r.task_id == result.task_id && r.pass_id == result.reviewer.pass_id

abbrev pub fresh_index : Index
fresh_index = record { schema_version = "1.0"; records = [] }

abbrev pub opened_index : Index → Index
opened_index index = if index.schema_version == "" then fresh_index else index

-- By task, then by pass: the sort keeps the order of equal keys.
unfoldable pub sort_records : List Record → List Record
sort_records records =
    sort_by (λ (r : Record). r.task_id) (sort_by (λ (r : Record). r.pass_id) records)

unfoldable pub same_bool : Bool → Bool → Bool
same_bool true b = b
same_bool false b = not b

module _ (sha : Sha256) (json : ResultJson) where
  unfoldable pub result_digest : Result → String
  result_digest result = tagged sha (json.encode result)

  unfoldable pub recorded : Result → Validation → String → ℕ → Record
  unfolding result_digest
  recorded result validation path now = record {
    task_id = result.task_id;
    pass_id = result.reviewer.pass_id;
    perspective = result.reviewer.perspective;
    provider = result.reviewer.provider;
    model = result.reviewer.model;
    model_family = result.reviewer.model_family;
    prompt_digest = result.reviewer.prompt_digest;
    context_isolation = result.reviewer.context_isolation;
    result_path = path;
    result_digest = result_digest result;
    completed = validation.completed;
    recorded_at = now;
  }

  unfoldable pub append : Index → Result → Validation → String → ℕ → Outcome Index
  append index' result validation path now =
      let index = opened_index index' in
      if not (index.schema_version == "1.0")
      then err "unsupported result index schema"
      else if any (same_pass result) index.records
      then err "task already has pass_id"
      else ok (record index {
        records = sort_records (index.records ++ recorded result validation path now ∷ []);
      })

  unfoldable pub verify_record : Record → Result → Validation → Outcome (Unit {0})
  verify_record r result validation =
      if not (r.task_id == result.task_id)
        || (not (r.pass_id == result.reviewer.pass_id)
            || (not (r.perspective == result.reviewer.perspective)
                || (not (r.provider == result.reviewer.provider)
                    || (not (r.model == result.reviewer.model)
                        || (not (r.model_family == result.reviewer.model_family)
                            || (not (r.prompt_digest == result.reviewer.prompt_digest)
                                || (not (r.context_isolation == result.reviewer.context_isolation)
                                    || (not (r.result_digest == result_digest result)
                                        || (not (same_bool r.completed validation.completed)
                                            || eqb r.recorded_at 0)))))))))
      then err "result index record does not match persisted result"
      else ok tt

  -- "results/<task>/pass-<digest>.json"
  unfoldable pub result_path : String → String → String
  result_path task_id pass_id =
      joined "results/"
        (joined task_id (joined "/" (joined (short_id sha "pass-" 8 pass_id) ".json")))

-- The perspectives of a task's completed passes, and their contexts, one for each record.
unfoldable pub completed_by : (Record → String) → String → List Record → List String
completed_by key task_id [] = []
completed_by key task_id (r ∷ rest) =
    let others = completed_by key task_id rest in
    if r.task_id == task_id && r.completed then key r ∷ others else others

abbrev pub perspective_of : Record → String
perspective_of r = r.perspective

abbrev pub context_of : Record → String
context_of r = r.provider ⋄ (r.model_family ⋄ r.context_isolation)

unfoldable pub is_reviewed : List Record → Task → Bool
is_reviewed records task =
    let completed = completed_by perspective_of task.id records in
    let contexts = completed_by context_of task.id records in
    if ltb (length (distinct completed)) task.required_passes
      || ltb (length (distinct contexts)) task.required_passes
    then false
    else all (λ p. string_in p completed) task.perspectives

unfoldable pub review_complete : Index → Plan → Bool
review_complete index plan =
    if all (is_reviewed index.records) plan.tasks then not (is_empty plan.tasks) else false
