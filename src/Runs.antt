-- ===== src/Runs.antt =====
-- internal/store/store.go: the operations on the directory of one run.
pub mod Loaded
pub mod Appended
pub mod Update
pub mod Recovery
pub mod Begin
use diffdossier.Prelude.{
  ℕ, String, Bool, true, false, not, ◌&&◌, ◌||◌, Option, none, some, List, [], ◌∷◌, ◌++◌,
  if◌then◌else◌, ◌==◌, Outcome, ok, err,
}
use diffdossier.Journal.{
  Event, Encoder, Payload, strings, Line, entry, garbage, Journal, allowed_transition,
  verify_event_chain, run_journal_state, last_event, next_event, lines, written_behind,
}

pub record Run : Type 0 where
  pub schema_version : String
  pub id : String
  pub repository_id : String
  pub snapshot_id : String
  pub data_class : String
  pub state : String
  pub created_at : ℕ
  pub updated_at : ℕ

pub record ArchiveRecord : Type 0 where
  pub schema_version : String
  pub repository_id : String
  pub run_id : String
  pub run_state : String
  pub archived_at : ℕ
  pub pinned : Bool
  pub reason : String
  pub last_event_hash : String
  pub content_digest : String
  pub record_digest : String

-- The directory of a run, as far as these operations read and write it: `archive.json`, `run.json`,
-- the snapshot ID in `snapshot.json` and `events.jsonl`. `none` is a file that is not there or that
-- does not decode.
pub record RunDir : Type 0 where
  pub archive : Option ArchiveRecord
  pub run : Option Run
  pub snapshot : Option String
  pub events : Journal
  pub unterminated : Bool  -- the last line of events.jsonl has no newline

-- What the file system answers during one operation. A file is replaced as a whole or not at all
-- (`atomicBytes`); an append can leave a torn line behind its error,
-- all of the event but its newline, or the whole line where only the sync fails.
pub data Append : Type 0 where
  appended refused torn cut_short unsynced : Append

pub record Io : Type 0 where
  pub write_lock : Bool  -- locks/write.lock is acquired
  pub events_lock : Bool  -- locks/events.lock is acquired
  pub append : Append
  pub replace : Bool  -- the replacement of a file succeeds

abbrev pub run_archived : String
run_archived = "run is archived and read-only"

abbrev pub public_synthetic : String
public_synthetic = "public_synthetic"

abbrev pub public_project : String
public_project = "public_project"

abbrev pub private_project : String
private_project = "private_project"

abbrev pub secret_denied : String
secret_denied = "secret_denied"

unfoldable pub valid_run_data_class : String → Bool
valid_run_data_class data_class =
    data_class == public_synthetic || data_class == public_project || data_class == private_project

-- `ensureRunMutable`: whether archive.json is there.
abbrev pub is_archived : RunDir → Bool
is_archived dir = elim dir.archive [ none ↦ false | some record' ↦ true ]

-- An operation on the directory: its result, and the directory that it leaves.
abbrev pub Action : Type 0 → Type 0
Action A = RunDir → Outcome A × RunDir

-- The file behind a write that ends with a newline, and behind one that breaks off before it.
abbrev pub extended : Line → RunDir → RunDir
extended line dir = record dir {
  events = some (written_behind dir.unterminated (lines dir.events) line);
  unterminated = false;
}

abbrev pub broken_off : Line → RunDir → RunDir
broken_off line dir = record dir {
  events = some (written_behind dir.unterminated (lines dir.events) line);
  unterminated = true;
}

write_event : Io → Event → Action Event
write_event io e dir = elim io.append [
  | appended ↦ (ok e, extended (entry e) dir)
  | refused ↦ (err "write events.jsonl", dir)
  | torn ↦ (err "write events.jsonl", broken_off garbage dir)
  | cut_short ↦ (err "write events.jsonl", broken_off (entry e) dir)
  | unsynced ↦ (err "sync events.jsonl", extended (entry e) dir)
]

module _ (encoder : Encoder) where
  unfoldable pub append_event : Io → String → Payload → ℕ → Action Event
  unfolding write_event
  append_event io type payload now dir =
      if is_archived dir
      then (err run_archived, dir)
      else if not io.events_lock
      then (err "lock already held", dir)
      else elim (last_event encoder dir.events) [
        | err e ↦ (err e, dir)
        | ok previous ↦ write_event io (next_event encoder previous type payload now) dir
      ]

  save_run : Io → Run → Action Run
  save_run io run dir =
      if io.replace then (ok run, record dir { run = some run }) else (err "replace run.json", dir)

  -- run.json is replaced only behind a written event.
  save_behind : Io → Run → Outcome Event × RunDir → Outcome Run × RunDir
  unfolding save_run
  save_behind io run (err e, dir) = (err e, dir)
  save_behind io run (ok event, dir) = save_run io run dir

  -- The event comes first, then run.json.
  advance : Io → Run → String → ℕ → Action Run
  unfolding save_behind
  advance io run next now dir =
      save_behind io (record run { state = next; updated_at = now })
        (append_event io "state_transition" (strings (("from", run.state) ∷ ("to", next) ∷ [])) now
          dir)

  -- `held`: the caller's lock is the run's write lock.
  unfoldable pub update_run_state_held : Io → String → Bool → ℕ → Action Run
  unfolding advance
  update_run_state_held io next held now dir =
      if is_archived dir
      then (err run_archived, dir)
      else if not held
      then (err "valid run write lock is required", dir)
      else elim dir.run [
        | none ↦ (err "read run.json", dir)
        | some run ↦
            if allowed_transition run.state next
            then advance io run next now dir
            else (err "invalid run transition", dir)
      ]

  unfoldable pub update_run_state : Io → String → ℕ → Action Run
  update_run_state io next now dir =
      if io.write_lock
      then update_run_state_held io next true now dir
      else (err "lock already held", dir)

  unfoldable pub verify_run_journal : Run → Journal → Outcome (Unit {0})
  verify_run_journal run events =
      elim (run_journal_state encoder events run.snapshot_id run.data_class) [
        | err e ↦ err e
        | ok derived ↦
            if derived == run.state
            then ok tt
            else err "run state does not match event journal state"
      ]

  -- The checks of `LoadRun` behind the two files that it reads.
  check_loaded : Run → String → RunDir → Outcome Run
  unfolding verify_run_journal
  check_loaded run snapshot_id dir = elim (verify_event_chain encoder dir.events) [
    | err e ↦ err e
    | ok _ ↦ elim (verify_run_journal run dir.events) [
      | err e ↦ err e
      | ok _ ↦
          if not (run.snapshot_id == snapshot_id)
          then err "run and snapshot identifiers do not match"
          else if not (valid_run_data_class run.data_class)
          then err "run contains an invalid data_class"
          else ok run
    ]
  ]

  unfoldable pub load_run : RunDir → Outcome Run
  unfolding check_loaded
  load_run dir = if is_archived dir then err run_archived else elim dir.run [
    | none ↦ err "read run.json"
    | some run ↦ elim dir.snapshot [
      | none ↦ err "read snapshot.json"
      | some snapshot_id ↦ check_loaded run snapshot_id dir
    ]
  ]

  recovered_behind : Run → Outcome Event × RunDir → Outcome Run × RunDir
  recovered_behind run (err e, dir) = (err e, dir)
  recovered_behind run (ok event, dir) = (ok run, dir)

  -- run.json first, then the event.
  restore : Io → Run → String → ℕ → Action Run
  unfolding recovered_behind
  restore io run derived now dir =
      let run' : Run = record run { state = derived; updated_at = now } in
      if not io.replace
      then (err "replace run.json", dir)
      else recovered_behind run' (
          append_event io "run_recovered"
            (strings (("persisted_state", run.state) ∷ ("journal_state", derived) ∷ [])) now
            (record dir { run = some run' }))

  recover_checked : Io → Run → String → ℕ → Action Run
  unfolding restore
  recover_checked io run expected now dir = elim (verify_event_chain encoder dir.events) [
    | err e ↦ (err e, dir)
    | ok _ ↦ elim (run_journal_state encoder dir.events run.snapshot_id run.data_class) [
      | err e ↦ (err e, dir)
      | ok derived ↦
          if derived == run.state
          then (ok run, dir)
          else if expected == "" || not (expected == derived)
          then (err "recovery requires exact journal state", dir)
          else restore io run derived now dir
    ]
  ]

  unfoldable pub recover_run : Io → String → ℕ → Action Run
  unfolding recover_checked
  recover_run io expected now dir =
      if not io.write_lock then (err "lock already held", dir) else elim dir.run [
        | none ↦ (err "read run.json", dir)
        | some run ↦ elim dir.snapshot [
          | none ↦ (err "read snapshot.json", dir)
          | some snapshot_id ↦
              if run.snapshot_id == snapshot_id
              then recover_checked io run expected now dir
              else (err "run and snapshot identifiers do not match", dir)
        ]
      ]
