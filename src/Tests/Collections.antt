-- ===== src/Tests/Collections.antt =====
-- Witnesses on a store with one archived run, which is old, and one run that is in use.
use diffdossier.Prelude.{
  ◌≤◌, ◌↔◌, ◌+◌, ◌*◌, String, Bool, true, false, Option, none, some, List, [], ◌∷◌, ok, map, All,
  string_in, get, put, remove, distinct, sort_by, insert_by, str_leb, ◌≡◌, refl, arith,
}
use diffdossier.Digests.{Sha256, tagged}
use diffdossier.Journal.{
  Event, Encoder, Payload, archived, strings, other, entry, zero_event, next_event,
  verify_event_chain, last_event, verify_lines,
}
use diffdossier.Runs.{ArchiveRecord}
use diffdossier.Results.Validate.{valid_digest}
use diffdossier.Retention.{
  Dir, missing, stored, ArchiveJson, valid_id, day, retention, is_recent, same_bool, matches_star,
  public_evidence_protected, walk, map_text, digest_string_map, run_content_digest, record_seal,
  read_archive_record, payload_matches, verify_archived_run,
}
use diffdossier.Retention.Collect.{
  GcPlan, GcExecution, Store, candidate_key, blob_references, entry_references, unretained,
  find_dir, find_trashed, candidate_location, same_strings, rename, move_runs, remove_blobs,
  is_eligible, plan_dir, plan_loop, plan_seal, runs_of, make_plan, plan_gc, check_candidate,
  check_candidates, snapshot_references, checked_plan, without_trash, finish, collect, execute_gc,
}
use diffdossier.Retention.Moved.{retained_dirs}
use diffdossier.Retention.Kept.{execute_gc-keeps}
use diffdossier.Retention.Age.{is_recent_iff, is_recent-overflow}
use diffdossier.Retention.Planned.{IsCollectable, plan_gc-IsCollectable}
use diffdossier.Retention.Repeated.{execute_gc-repeated}

abbrev zeros : String
zeros = "0000000000000000000000000000000000000000000000000000000000000000"

abbrev zero_digest : String
zero_digest = "sha256:0000000000000000000000000000000000000000000000000000000000000000"

-- One digest for all texts: what is checked here needs no other.
abbrev sha : Sha256
sha = record { hex = λ text. zeros }

abbrev encoder : Encoder
encoder = record { digest = λ c. zero_digest; line_bytes = λ e. 100 }

unfoldable decode : Payload → Option (Bool × String × String)
decode (archived pinned reason state) = some (pinned, reason, state)
decode (strings fields) = none
decode (other text) = none

abbrev json : ArchiveJson
json = record { record_text = λ r. ""; decode = decode; own_files = λ dir. []; trim = λ text. text }

abbrev plan_text : GcPlan → String
plan_text plan = ""

abbrev repository : String
repository = "repo-00000000000000000000000000000000"

abbrev old_name : String
old_name = "run-000000000000000000000000"

abbrev old_event : Event
old_event = next_event encoder zero_event "run_archived" (archived false "done" "EXPORTED") 7

abbrev old_record : ArchiveRecord
old_record = record {
  schema_version = "1.0";
  repository_id = repository;
  run_id = old_name;
  run_state = "EXPORTED";
  archived_at = 7;
  pinned = false;
  reason = "done";
  last_event_hash = zero_digest;
  content_digest = zero_digest;
  record_digest = zero_digest;
}

abbrev old_run : Dir
old_run = record {
  repository_id = repository;
  name = old_name;
  is_real = true;
  archive = stored old_record;
  run = none;
  snapshot = none;
  events = some (entry old_event ∷ []);
  unterminated = false;
  references = ok ((zero_digest, "") ∷ []);
  others = [];
}

abbrev used_run : Dir
used_run = record old_run {
  name = "run-111111111111111111111111";
  archive = missing;
  references =
      ok (("sha256:1111111111111111111111111111111111111111111111111111111111111111", "") ∷ []);
}

abbrev store : Store
store = record {
  active = old_run ∷ used_run ∷ [];
  trash = [];
  blobs =
      (zero_digest, "old")
      ∷ ("sha256:1111111111111111111111111111111111111111111111111111111111111111", "used")
      ∷ [];
  plans = [];
  executions = [];
}

abbrev plan : GcPlan
plan = record {
  repository_id = repository;
  as_of = 7 + 30 * day;
  retention_days = 30;
  candidates =
      (record {
        repository_id = repository;
        run_id = old_name;
        archive_digest = zero_digest;
        content_digest = zero_digest;
      })
      ∷ [];
  blob_digests = zero_digest ∷ [];
  plan_digest = zero_digest;
}

abbrev planned : Store
planned = record store { plans = (zero_digest, plan) ∷ [] }

plan-made :
    plan_gc sha encoder json plan_text true true repository 30 (7 + 30 * day) store
    ≡ (ok plan, planned)
unfolding plan_gc make_plan plan_loop plan_dir runs_of read_archive_record record_seal
    verify_archived_run is_eligible is_recent retention public_evidence_protected payload_matches
    decode same_bool run_content_digest walk digest_string_map map_text tagged verify_event_chain
    verify_lines last_event next_event blob_references entry_references unretained plan_seal put
    valid_id sort_by insert_by str_leb distinct string_in matches_star valid_digest
plan-made = refl

plan_gc-IsCollectable_example :
    (All (IsCollectable sha encoder json plan_text 30 (7 + 30 * day) store.active) plan.candidates
      × ((retained references : List String)
          → blob_references (map candidate_key plan.candidates) store.active
            ≡ ok (retained, references)
          → All (λ digest. string_in digest retained ≡ false) plan.blob_digests))
    × ((planned.active ≡ store.active)
        × ((planned.blobs ≡ store.blobs) × (get plan.plan_digest planned.plans ≡ some plan)))
plan_gc-IsCollectable_example =
    plan_gc-IsCollectable sha encoder json plan_text true true repository 30 (7 + 30 * day) store
      planned plan plan-made

is_recent_iff_example : (is_recent 30 9 7 ≡ false) ↔ (7 + 30 * day ≤ 9)
is_recent_iff_example = is_recent_iff 30 9 7 (omega arith)

-- A retention of 200000 days keeps nothing.
is_recent-overflow_example : is_recent 200000 9 7 ≡ false
is_recent-overflow_example = is_recent-overflow 200000 9 7 (omega arith) (omega arith) (omega arith)

abbrev execution : GcExecution
execution = record {
  plan_digest = zero_digest;
  executed_at = 8;
  removed_runs = 1;
  removed_blobs = 1;
}

abbrev collected : Store
collected = record planned {
  active = used_run ∷ [];
  blobs = ("sha256:1111111111111111111111111111111111111111111111111111111111111111", "used") ∷ [];
  executions = (zero_digest, execution) ∷ [];
}

planned-executed :
    execute_gc sha encoder json plan_text true 9 zero_digest 8 planned ≡ (ok execution, collected)
unfolding execute_gc checked_plan check_candidates check_candidate candidate_location find_dir
    find_trashed snapshot_references same_strings collect rename move_runs remove_blobs finish
    without_trash get remove read_archive_record record_seal verify_archived_run is_eligible
    is_recent retention public_evidence_protected payload_matches decode same_bool
    run_content_digest walk digest_string_map map_text tagged verify_event_chain verify_lines
    last_event next_event blob_references entry_references unretained plan_seal put valid_id sort_by
    insert_by str_leb distinct string_in matches_star valid_digest
planned-executed = refl

planned-stored : get zero_digest planned.plans ≡ some plan
unfolding get
planned-stored = refl

execute_gc-keeps_example :
    let after = (execute_gc sha encoder json plan_text true 9 zero_digest 8 planned).1 in
    let keys = map candidate_key plan.candidates in
    (retained_dirs keys after ≡ retained_dirs keys planned)
    × ((retained references : List String)
        → blob_references keys planned.active ≡ ok (retained, references)
        → (x : String) → string_in x retained ≡ true
        → get x after.blobs ≡ get x planned.blobs)
execute_gc-keeps_example =
    execute_gc-keeps sha encoder json plan_text true 9 zero_digest 8 planned plan planned-stored

execute_gc-repeated_example :
    execute_gc sha encoder json plan_text true 0 zero_digest 9 collected ≡ (ok execution, collected)
execute_gc-repeated_example =
    execute_gc-repeated sha encoder json plan_text true 9 zero_digest 8 planned collected execution
      planned-executed 0 9 (omega arith)
