-- ===== src/Invalidation.antt =====
-- internal/workflow/invalidation.go: the tasks that must be reviewed again. The reasons are a map
-- from task IDs.
pub mod Closure
pub mod Rounds
use diffdossier.Prelude.{
  ℕ, zero, suc, ◌+◌, String, Bool, true, false, not, ◌&&◌, ◌||◌, List, [], ◌∷◌, ◌++◌, map, any,
  length, eqb, if◌then◌else◌, ◌==◌, string_in, sort_strings,
}
use diffdossier.Planner.{Task, Plan, PathRef}

pub record Invalidation : Type 0 where
  pub schema_version : String
  pub must_reload : List String
  pub reasons : List (String × List String)

unfoldable pub has_reload : Invalidation → String → Bool
has_reload result task_id = any (λ id. id == task_id) result.must_reload

-- The reason at the end of those of the ID, where it is not among them.
unfoldable pub add_reason :
    String → String → List (String × List String) → List (String × List String)
add_reason task_id reason [] = (task_id, reason ∷ []) ∷ []
add_reason task_id reason (entry ∷ rest) =
    let others = add_reason task_id reason rest in
    if entry.0 == task_id
    then (if string_in reason entry.1 then entry else (entry.0, entry.1 ++ reason ∷ [])) ∷ rest
    else entry ∷ others

unfoldable pub add_reload : String → String → Invalidation → Invalidation
add_reload task_id reason result = record result {
  must_reload =
      if has_reload result task_id then result.must_reload else result.must_reload ++ task_id ∷ [];
  reasons = add_reason task_id reason result.reasons;
}

-- `for … { addReload(&result, id, reason) }`
unfoldable pub add_all : String → List String → Invalidation → Invalidation
add_all reason [] result = result
add_all reason (id ∷ rest) result = add_all reason rest (add_reload id reason result)

-- The IDs of the tasks that depend on a task, one for each dependency on it.
unfoldable pub dependency_peers : String → String → List String → List String
dependency_peers id peer [] = []
dependency_peers id peer (dependency ∷ rest) =
    let others = dependency_peers id peer rest in if dependency == id then peer ∷ others else others

unfoldable pub dependents : String → List Task → List String
dependents id [] = []
dependents id (peer ∷ rest) =
    dependency_peers id peer.id peer.dependency_tasks ++ dependents id rest

-- The neighbours of a task that is in.
unfoldable pub spread : List Task → Task → Invalidation → Invalidation
spread tasks task result =
    if has_reload result task.id
    then add_all "dependent neighbor changed" (dependents task.id tasks)
        (add_all "dependency neighbor changed" task.dependency_tasks result)
    else result

-- One round over the tasks.
unfoldable pub spread_all : List Task → List Task → Invalidation → Invalidation
spread_all tasks [] result = result
spread_all tasks (task ∷ rest) result = spread_all tasks rest (spread tasks task result)

-- The rounds, until one adds no task: on fuel.
unfoldable pub rounds : ℕ → List Task → Invalidation → Invalidation
rounds zero tasks result = result
rounds (suc fuel) tasks result =
    let next = spread_all tasks tasks result in
    let more = rounds fuel tasks next in
    if eqb (length next.must_reload) (length result.must_reload) then next else more

-- The tasks with a changed path, one call for each such path.
unfoldable pub changed_ids : List String → List Task → List String
changed_ids changed [] = []
changed_ids changed (task ∷ rest) = path_ids changed task.id task.paths ++ changed_ids changed rest
  where
    path_ids : List String → String → List PathRef → List String
    path_ids changed id [] = []
    path_ids changed id (path ∷ paths) =
        let others = path_ids changed id paths in
        if string_in path.path_bytes_base64 changed then id ∷ others else others

-- The contract types of the tasks that are in, where the last task with an ID stands for it.
unfoldable pub reloaded_types : Invalidation → List Task → List String
reloaded_types result [] = []
reloaded_types result (task ∷ rest) =
    let others = reloaded_types result rest in
    if has_reload result task.id && not (any (λ (later : Task). later.id == task.id) rest)
    then task.contract_types ++ others
    else others

-- The tasks that have a type among these, one call for each such type.
unfoldable pub consumer_ids : List String → List Task → List String
consumer_ids types [] = []
consumer_ids types (task ∷ rest) =
    shared types task.id task.contract_types ++ consumer_ids types rest
  where
    shared : List String → String → List String → List String
    shared types id [] = []
    shared types id (t ∷ ts) =
        let others = shared types id ts in if string_in t types then id ∷ others else others

unfoldable pub finalize : Invalidation → Invalidation
finalize result = record result {
  must_reload = sort_strings result.must_reload;
  reasons = map (λ (p : String × List String). (p.0, sort_strings p.1)) result.reasons;
}

abbrev pub nothing : Invalidation
nothing = record { schema_version = "1.0"; must_reload = []; reasons = [] }

abbrev pub task_ids : List Task → List String
task_ids [] = []
task_ids (task ∷ rest) = task.id ∷ task_ids rest

-- The IDs that a round can add: every task's, and every dependency.
abbrev pub known_ids : List Task → List String
known_ids [] = []
known_ids (task ∷ rest) = task.id ∷ task.dependency_tasks ++ known_ids rest

-- The rounds have fuel for one more than the IDs there are.
unfoldable pub compute_invalidation : Plan → List String → Bool → Invalidation
compute_invalidation plan changed_paths semantic_inputs_changed =
    if semantic_inputs_changed
    then finalize (add_all "semantic input changed" (task_ids plan.tasks) nothing)
    else let direct =
        add_all "direct path changed" (changed_ids changed_paths plan.tasks) nothing in
      let closed = rounds (suc (length (known_ids plan.tasks))) plan.tasks direct in
      finalize (
        add_all "shared contract consumer changed"
          (consumer_ids (reloaded_types closed plan.tasks) plan.tasks) closed)
