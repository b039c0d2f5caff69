-- ===== src/Planner.antt =====
-- internal/planner/planner.go: the review tasks of a snapshot.
pub mod Slices
use diffdossier.Prelude.{
  ℕ, zero, suc, ◌+◌, String, Bool, true, false, not, ◌&&◌, ◌||◌, Option, none, some, List, [], ◌∷◌,
  ◌++◌, map, ltb, leb, length, any, filter, take, drop, is_empty, if◌then◌else◌, ◌==◌, string_in,
  distinct, sort_by, sort_strings, unique_sorted,
}
use diffdossier.Digests.{Sha256, short_id, joined}
use diffdossier.Inventory.{Entry, Contract, Graph, PathIdentity, display}
use diffdossier.Risk.{PathRisk, Assessment, contract_types, max_level, requires_owner, is_artifact}

pub record PathRef : Type 0 where
  pub scope : String
  pub path_bytes_base64 : String
  pub display_path : String
  pub current_hash : String
  pub previous_hash : String
  pub bytes : ℕ
  pub required_coverage : String

pub record Task : Type 0 where
  pub schema_version : String
  pub id : String
  pub snapshot_id : String
  pub risk : String
  pub contract_types : List String
  pub paths : List PathRef
  pub dependency_tasks : List String
  pub total_bytes : ℕ
  pub oversized : Bool
  pub needs_confirmation : Bool
  pub required_passes : ℕ
  pub perspectives : List String

pub record Plan : Type 0 where
  pub schema_version : String
  pub snapshot_id : String
  pub tasks : List Task
  pub coverage : List (String × ℕ)

-- A limit below 1 is written 0.
pub record Limits : Type 0 where
  pub max_files : ℕ
  pub max_packet_bytes : ℕ

unfoldable pub with_defaults : Limits → Limits
with_defaults limits = record {
  max_files = if ltb limits.max_files 1 then 8 else limits.max_files;
  max_packet_bytes = if ltb limits.max_packet_bytes 1 then 250000 else limits.max_packet_bytes;
}

abbrev pub entry_path : Entry → String
entry_path entry = entry.path.bytes_base64

abbrev pub entry_bytes : Entry → ℕ
entry_bytes entry = entry.size + entry.previous_size

-- The loop of `sliceSize` behind the first entry: the entries of the slice and their bytes.
-- `seen` holds each path once.
unfoldable pub slice_loop : Limits → List String → ℕ → ℕ → List Entry → ℕ × ℕ
slice_loop limits seen count total [] = (count, total)
slice_loop limits seen count total (entry ∷ rest) =
    let known = slice_loop limits seen (suc count) (total + entry_bytes entry) rest in
    let fresh =
      slice_loop limits (entry_path entry ∷ seen) (suc count) (total + entry_bytes entry) rest in
    if string_in (entry_path entry) seen
    then known
    else if leb limits.max_files (length seen)
        || ltb limits.max_packet_bytes (total + entry_bytes entry)
    then (count, total)
    else fresh

-- `sliceSize` of a list that is not empty.
unfoldable pub slice_size : Limits → Entry → List Entry → ℕ × ℕ
slice_size limits entry rest = slice_loop limits (entry_path entry ∷ []) 1 (entry_bytes entry) rest

-- `riskByPath[path]`: the last item of a path, or the zero value.
unfoldable pub risk_by_path : String → List PathRisk → PathRisk
risk_by_path path [] = record {
  path_bytes_base64 = "";
  level = "";
  reasons = [];
  needs_confirmation = false;
}
risk_by_path path (r ∷ rest) =
    let later = risk_by_path path rest in
    if any (λ (x : PathRisk). x.path_bytes_base64 == path) rest
    then later
    else if r.path_bytes_base64 == path
    then r
    else later

-- The JSON text that a task's ID is the digest of.
pub record TaskJson : Type 0 where
  pub encode : String → String → List String → List PathRef → String

unfoldable pub path_coverage : PathRisk → Entry → String
path_coverage r entry =
    if is_artifact entry.kind
    then "fully_reviewed"
    else if r.level == "L0"
    then "mechanically_verified"
    else "fully_reviewed"

unfoldable pub path_ref : PathRisk → Entry → PathRef
path_ref r entry = record {
  scope = entry.scope;
  path_bytes_base64 = entry_path entry;
  display_path = display entry.path;
  current_hash = entry.content_hash;
  previous_hash = entry.previous_content_hash;
  bytes = entry_bytes entry;
  required_coverage = path_coverage r entry;
}

module _ (risks : List PathRisk) where
  -- `task.Risk` after the loop.
  unfoldable pub task_risk : String → List Entry → String
  task_risk level [] = level
  task_risk level (entry ∷ rest) =
      task_risk (max_level level (risk_by_path (entry_path entry) risks).level) rest

  unfoldable pub task_confirmation : List Entry → Bool
  task_confirmation entries =
      any
        (λ (entry : Entry).
          (risk_by_path (entry_path entry) risks).needs_confirmation || is_artifact entry.kind)
        entries

abbrev pub all_contract_types : List Contract → List Entry → List String
all_contract_types contracts [] = []
all_contract_types contracts (entry ∷ rest) =
    contract_types (entry_path entry) contracts ++ all_contract_types contracts rest

unfoldable pub make_task :
    Sha256 → TaskJson → String → List Entry → List PathRisk → List Contract → ℕ → ℕ → Task
make_task sha json snapshot_id entries risks contracts total limit =
    let risk = task_risk risks "L0" entries in
    let owner = requires_owner risk in
    let types = unique_sorted (all_contract_types contracts entries) in
    let paths =
      map (λ (entry : Entry). path_ref (risk_by_path (entry_path entry) risks) entry) entries in
    record {
      schema_version = "1.0";
      id = short_id sha "task-" 12 (json.encode snapshot_id risk types paths);
      snapshot_id = snapshot_id;
      risk = risk;
      contract_types = types;
      paths = paths;
      dependency_tasks = [];
      total_bytes = total;
      oversized = ltb limit total;
      needs_confirmation = task_confirmation risks entries || owner;
      required_passes = if owner then 2 else 1;
      perspectives = if owner then "correctness" ∷ "failure-recovery" ∷ [] else "correctness" ∷ [];
    }

unfoldable pub overlap : List String → List String → Bool
overlap left right = any (λ l. any (λ r. l == r) right) left

-- The IDs of the earlier tasks that share a contract type, in their order.
unfoldable pub linked_ids : Task → List Task → List String
linked_ids task [] = []
linked_ids task (earlier ∷ rest) =
    let others = linked_ids task rest in
    if overlap task.contract_types earlier.contract_types then earlier.id ∷ others else others

-- `earlier` are the tasks before, in their order.
unfoldable pub link_dependencies : List Task → List Task → List Task
link_dependencies earlier [] = []
link_dependencies earlier (task ∷ rest) =
    record task {
      dependency_tasks = sort_strings (task.dependency_tasks ++ linked_ids task earlier);
    }
    ∷ link_dependencies (earlier ++ task ∷ []) rest

-- `strings.ReplaceAll(path, "\\", "/")` up to the first slash.
unfoldable pub before_slash : String → Option String
before_slash String.[] = none
before_slash (String.◌∷◌ c rest) =
    let others = before_slash rest in
    if String.◌∷◌ c "" == "/" || String.◌∷◌ c "" == "\\"
    then some ""
    else elim others [ none ↦ none | some text ↦ some (String.◌∷◌ c text) ]

unfoldable pub filepath_group : String → String
filepath_group path = elim (before_slash path) [ none ↦ "." | some text ↦ text ]

-- `strings.Join(values, ",")`
unfoldable pub comma_joined : List String → String
comma_joined [] = ""
comma_joined (x ∷ []) = x
comma_joined (x ∷ y ∷ rest) = joined x (joined "," (comma_joined (y ∷ rest)))

unfoldable pub group_key : List PathRisk → List Contract → Entry → String
group_key risks contracts entry =
    let types = unique_sorted (contract_types (entry_path entry) contracts) in
    let group =
      joined (risk_by_path (entry_path entry) risks).level (joined "|" (comma_joined types)) in
    if is_empty types
    then joined group (joined "|" (filepath_group (display entry.path)))
    else group

-- By path, then by scope: the sort keeps the order of equal keys.
unfoldable pub sort_entries : List Entry → List Entry
sort_entries entries =
    sort_by (λ (entry : Entry). entry_path entry) (sort_by (λ (entry : Entry). entry.scope) entries)

-- The loop that slices a group, on fuel: one slice takes one entry at least.
unfoldable pub slices : ℕ → Limits → List Entry → List (List Entry × ℕ)
slices zero limits entries = []
slices (suc fuel) limits [] = []
slices (suc fuel) limits (entry ∷ rest) =
    let p = slice_size limits entry rest in
    (take p.0 (entry ∷ rest), p.1) ∷ slices fuel limits (drop p.0 (entry ∷ rest))

-- The slices of a group's entries, with fuel for one slice to an entry.
abbrev pub group_slices : Limits → List Entry → List (List Entry × ℕ)
group_slices limits entries = slices (length entries) limits entries

-- The tasks of the groups, in the order of the keys.
unfoldable pub all_slices :
    Limits → List PathRisk → List Contract → List Entry → List String → List (List Entry × ℕ)
all_slices limits risks contracts entries [] = []
all_slices limits risks contracts entries (key ∷ keys) =
    group_slices limits
      (sort_entries (filter (λ (entry : Entry). group_key risks contracts entry == key) entries))
    ++ all_slices limits risks contracts entries keys

-- `plan.Coverage`: in how many tasks a path is.
unfoldable pub coverage_count : String → List Task → ℕ
coverage_count path [] = 0
coverage_count path (task ∷ rest) =
    let others = coverage_count path rest in
    if any (λ (p : PathRef). p.path_bytes_base64 == path) task.paths then suc others else others

abbrev pub task_paths : List Task → List String
task_paths [] = []
task_paths (task ∷ rest) = map (λ (p : PathRef). p.path_bytes_base64) task.paths ++ task_paths rest

unfoldable pub build : Sha256 → TaskJson → String → List Entry → Graph → Assessment → Limits → Plan
build sha json snapshot_id entries graph assessment limits' =
    let limits = with_defaults limits' in
    let keys = unique_sorted (map (group_key assessment.paths graph.contracts) entries) in
    let tasks =
      map
        (λ (p : List Entry × ℕ).
          make_task sha json snapshot_id p.0 assessment.paths graph.contracts p.1
            limits.max_packet_bytes)
        (all_slices limits assessment.paths graph.contracts entries keys) in
    record {
      schema_version = "1.0";
      snapshot_id = snapshot_id;
      tasks = link_dependencies [] tasks;
      coverage = map (λ path. (path, coverage_count path tasks)) (distinct (task_paths tasks));
    }
