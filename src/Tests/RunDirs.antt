-- ===== src/Tests/RunDirs.antt =====
-- Witnesses on the directory of a run whose journal has two events.
use diffdossier.Prelude.{
  get, put, ◌∷◌, [], String, true, false, none, some, ok, err, refl, ◌≡◌, ◌≢◌, ◌↔◌, ==-false,
}
use diffdossier.Journal.{
  run_journal_state, first_state, follow, step_state, field, allowed_transition, next_states,
  next_event, Event, strings, entry, too_long, verify_event_chain, zero_event,
}
use diffdossier.Runs.{
  Run, RunDir, Io, appended, load_run, valid_run_data_class, recover_run, run_archived,
  update_run_state_held, extended,
}
use diffdossier.Runs.Loaded.{IsLoaded-load_run}
use diffdossier.Runs.Begin.{
  EntryBlobs, prepared_payload, begin_classified_run, new_run, persist_one, persist,
  load_run-begin_classified_run,
}
use diffdossier.Runs.Appended.{IsShortBehind, append_event-verified_iff, append_event-ok, verified}
use diffdossier.Runs.Update.{UpdateOutcome, update_outcomes, IsPending, transition_payload}
use diffdossier.Runs.Recovery.{recovery_payload, recover_run-pending, recover_run-archived}
use diffdossier.Tests.Encoders.{encoder, sha}
use diffdossier.Tests.BlobFiles.{content, name, written}
use diffdossier.Blobs.{write_blob}
use diffdossier.Tests.Journals.{journal, journal-verified, journal-last, first, second}

abbrev run_in : String → Run
run_in state = record {
  schema_version = "1.0";
  id = "run";
  repository_id = "repository";
  snapshot_id = "snap";
  data_class = "public_project";
  state = state;
  created_at = 1;
  updated_at = 1;
}

abbrev dir : RunDir
dir = record {
  archive = none;
  run = some (run_in "CONTRACTED");
  snapshot = some "snap";
  events = journal;
  unterminated = false;
}

-- The journal is one transition ahead of run.json.
abbrev behind : RunDir
behind = record dir { run = some (run_in "PREPARED") }

abbrev archived_dir : RunDir
archived_dir = record behind {
  archive = some (record {
    schema_version = "1.0";
    repository_id = "repository";
    run_id = "run";
    run_state = "PREPARED";
    archived_at = 2;
    pinned = false;
    reason = "";
    last_event_hash = "";
    content_digest = "";
    record_digest = "";
  });
}

abbrev io : Io
io = record { write_lock = true; events_lock = true; append = appended; replace = true }

journal-state : run_journal_state encoder journal "snap" "public_project" ≡ ok "CONTRACTED"
unfolding run_journal_state first_state follow step_state field allowed_transition next_states first
    second next_event
journal-state = refl

dir-loaded : load_run encoder dir ≡ ok (run_in "CONTRACTED")
unfolding valid_run_data_class
dir-loaded = IsLoaded-load_run encoder dir (run_in "CONTRACTED") (record {
  mutable = refl;
  stored = refl;
  sealed = refl;
  chained = journal-verified;
  derived = journal-state;
  classed = refl;
})

update-short :
    IsShortBehind encoder dir "state_transition"
      (transition_payload encoder (run_in "CONTRACTED") "REVIEWING")
      3
unfolding next_event
update-short last l = refl

update_outcomes_example :
    UpdateOutcome encoder dir
      (run_in "CONTRACTED")
      "REVIEWING"
      (update_run_state_held encoder io "REVIEWING" true 3 dir)
update_outcomes_example =
    update_outcomes encoder io dir (run_in "CONTRACTED") "REVIEWING" true 3
      (λ allowed. update-short) dir-loaded

-- The event behind the journal's two.
abbrev added : Event
added = next_event encoder second "evidence_added" (strings []) 3

append_event-verified_iff_example :
    (verify_event_chain encoder (extended (entry added) dir).events ≡ ok tt)
    ↔ ((dir.unterminated ≡ false) × (too_long encoder added ≡ false))
append_event-verified_iff_example =
    append_event-verified_iff encoder io "evidence_added" (strings []) 3 dir
      (extended (entry added) dir) added (verified journal-verified)
      (append_event-ok encoder io "evidence_added" (strings []) 3 dir second refl refl refl
        journal-last)

behind-IsPending : IsPending encoder behind (run_in "PREPARED") "CONTRACTED"
unfolding valid_run_data_class
behind-IsPending = record {
  mutable = refl;
  stored = refl;
  sealed = refl;
  chained = journal-verified;
  derived = journal-state;
  ahead = refl;
  classed = refl;
}

recovery-short :
    IsShortBehind encoder behind "run_recovered"
      (recovery_payload encoder (run_in "PREPARED") "CONTRACTED")
      3
unfolding next_event
recovery-short last l = refl

recover_run-pending_example :
    ((dir' : RunDir) × (run' : Run) × (recover_run encoder io "CONTRACTED" 3 behind
        ≡ (ok run', dir'))
      × (run'.state ≡ "CONTRACTED")
      × (behind.unterminated ≡ false → load_run encoder dir' ≡ ok run')
      × (behind.unterminated ≡ true → (r : Run) → load_run encoder dir' ≢ ok r))
    × ((echo : String)
        → echo ≢ "CONTRACTED"
        → recover_run encoder io echo 3 behind
          ≡ (err "recovery requires exact journal state", behind))
recover_run-pending_example =
    recover_run-pending encoder io behind (run_in "PREPARED") "CONTRACTED" 3
      (refl, refl, refl, refl) behind-IsPending recovery-short

recover_run-archived_example : recover_run encoder io "CONTRACTED" 3 archived_dir ≡ (
  err run_archived,
  record archived_dir {
    run = some (record (run_in "PREPARED") { state = "CONTRACTED"; updated_at = 3 });
  },
)
recover_run-archived_example =
    recover_run-archived encoder io archived_dir (run_in "PREPARED") "CONTRACTED" 3 refl refl refl
      refl refl journal-verified journal-state (==-false "CONTRACTED" "PREPARED" refl)

project-valid : valid_run_data_class "public_project" ≡ true
unfolding valid_run_data_class
project-valid = refl

abbrev blob : EntryBlobs
blob = record {
  content_hash = name;
  content = content;
  previous_content_hash = "";
  previous_content = "";
}

blob-stored : persist sha encoder true (blob ∷ []) [] ≡ (ok tt, written)
unfolding persist persist_one write_blob get put
blob-stored = refl

begin-short :
    too_long encoder (
      next_event encoder zero_event "run_prepared"
        (prepared_payload sha encoder "snap" "public_project")
        1)
    ≡ false
unfolding next_event
begin-short = refl

load_run-begin_classified_run_example :
    (begun : RunDir) × (begin_classified_run sha encoder true io "repository" "run" "snap"
        (blob ∷ [])
        "public_project"
        1
        1
        []
      ≡ (ok (new_run "repository" "run" "snap" "public_project" 1), begun, written))
    × (load_run encoder begun ≡ ok (new_run "repository" "run" "snap" "public_project" 1))
load_run-begin_classified_run_example =
    load_run-begin_classified_run sha encoder io "repository" "run" "snap" (blob ∷ [])
      "public_project" 1 1 [] written refl refl refl project-valid blob-stored begin-short
