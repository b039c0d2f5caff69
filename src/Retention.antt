-- ===== src/Retention.antt =====
-- internal/store/retention.go: a run is archived, and what an archived run must be to be collected.
pub mod Collect
pub mod Moved
pub mod Kept
pub mod Age
pub mod Planned
pub mod Repeated
use Prim.Native.String.{len, slice}
use text.Mathlib.Text.{starts_with}
use diffdossier.Prelude.{
  ℕ, ◌+◌, ◌-◌, ◌*◌, ◌%◌, ◌^◌, String, Bool, true, false, not, ◌&&◌, ◌||◌, Option, none, some, List,
  [], ◌∷◌, ◌++◌, any, eqb, ltb, if◌then◌else◌, ◌==◌, Outcome, ok, err, ◌>>=◌, ◌>>◌, refuse_if,
  sort_by,
}
use diffdossier.Digests.{Sha256, tagged, joined}
use diffdossier.Journal.{Event, Encoder, Payload, archived, Journal, verify_event_chain, last_event}
use diffdossier.Runs.{
  Run, ArchiveRecord, RunDir, Io, append_event, verify_run_journal, run_archived,
}
use diffdossier.Results.Validate.{is_hex, valid_digest}
use diffdossier.Gates.Expand.{mentions}

unfoldable pub valid_id : String → String → ℕ → Bool
unfolding is_hex
valid_id value prefix hex_length =
    if not (eqb (len value) (len prefix + hex_length)) || not (starts_with value prefix)
    then false
    else is_hex (slice value (len prefix) (len value))

abbrev pub is_digest : String → Bool
is_digest value = valid_digest value "sha256:"

-- An entry that `filepath.WalkDir` meets, by its path in the run's directory.
pub data Kind : Type 0 where
  directory regular irregular : Kind

pub record FileEntry : Type 0 where
  pub path : String
  pub kind : Kind
  pub content : Outcome String

-- archive.json: not there, there but not a regular file or not decoded, or decoded.
pub data ArchiveFile : Type 0 where
  missing unreadable : ArchiveFile
  stored : ArchiveRecord → ArchiveFile

-- The directory of a run, under the names of its repository and of itself. `references` are the
-- content hashes of the entries of snapshot.json, each with the previous one; `others` are the
-- files that have no field of their own.
pub record Dir : Type 0 where
  pub repository_id : String
  pub name : String
  pub is_real : Bool
  pub archive : ArchiveFile
  pub run : Option Run
  pub snapshot : Option String
  pub events : Journal
  pub unterminated : Bool  -- the last line of events.jsonl has no newline
  pub references : Outcome (List (String × String))
  pub others : List FileEntry

-- `encoding/json` for these types; `decode` reads the payload of an archive event, and
-- `own_files` are the files that the fields of a directory stand for.
pub record ArchiveJson : Type 0 where
  pub record_text : ArchiveRecord → String
  pub decode : Payload → Option (Bool × String × String)
  pub own_files : Dir → List FileEntry
  pub trim : String → String

abbrev zero_record : ArchiveRecord
zero_record = record {
  schema_version = "";
  repository_id = "";
  run_id = "";
  run_state = "";
  archived_at = 0;
  pinned = false;
  reason = "";
  last_event_hash = "";
  content_digest = "";
  record_digest = "";
}

-- The directory as the operations of store.go see it.
unfoldable pub run_dir : Dir → RunDir
run_dir dir = record {
  archive = elim dir.archive [ missing ↦ none | unreadable ↦ some zero_record | stored r ↦ some r ];
  run = dir.run;
  snapshot = dir.snapshot;
  events = dir.events;
  unterminated = dir.unterminated;
}

unfoldable pub same_bool : Bool → Bool → Bool
same_bool true b = b
same_bool false b = not b

-- `path` matches `prefix` and a star, which takes no slash.
unfoldable pub matches_star : String → String → Bool
matches_star prefix path =
    starts_with path prefix && not (mentions 47 (slice path (len prefix) (len path)))

unfoldable pub public_evidence_protected : Dir → Bool
public_evidence_protected dir =
    any (λ prefix. any (λ (entry : FileEntry). matches_star prefix entry.path) dir.others)
      ("approvals/public-" ∷ "approvals/redaction-" ∷ "exports/public-bundle"
        ∷ "exports/public-tombstone" ∷ [])

module _ (sha : Sha256) (encoder : Encoder) (json : ArchiveJson) where
  -- The digests of the regular files; archive.json and the locks are left out.
  unfoldable pub walk : List FileEntry → Outcome (List (String × String))
  walk [] = ok []
  walk (entry ∷ rest) =
      if entry.path == "locks" || (starts_with entry.path "locks/" || entry.path == "archive.json")
      then walk rest
      else elim entry.kind [
        | directory ↦ walk rest
        | irregular ↦ err "archived run contains non-regular entry"
        | regular ↦ entry.content >>= λ content.
            walk rest >>= λ others. ok ((entry.path, tagged sha content) ∷ others)
      ]

  unfoldable pub map_text : List (String × String) → String
  map_text [] = ""
  map_text ((key, value) ∷ rest) =
      joined key (joined "\0" (joined value (joined "\0" (map_text rest))))

  unfoldable pub digest_string_map : List (String × String) → String
  digest_string_map values = tagged sha (map_text (sort_by (λ (e : String × String). e.0) values))

  unfoldable pub run_content_digest : Dir → Outcome String
  run_content_digest dir =
      walk (json.own_files dir ++ dir.others) >>= λ digests. ok (digest_string_map digests)

  unfoldable pub record_seal : ArchiveRecord → String
  record_seal r = tagged sha (json.record_text (record r { record_digest = "" }))

  unfoldable pub read_archive_record : Dir → Outcome ArchiveRecord
  read_archive_record dir = elim dir.archive [
    | missing ↦ err "archive.json is not there"
    | unreadable ↦ err "archive record is not a regular file"
    | stored r ↦
        if r.record_digest == "" || not (record_seal r == r.record_digest)
        then err "archive record integrity check failed"
        else ok r
  ]

  unfoldable pub payload_matches : Payload → Bool → String → String → Bool
  payload_matches payload pinned reason state = elim (json.decode payload) [
    | none ↦ false
    | some (p, r, s) ↦ same_bool p pinned && (r == reason && s == state)
  ]

  unfoldable pub verify_archived_run : Dir → ArchiveRecord → Outcome (Unit {0})
  verify_archived_run dir r =
      verify_event_chain encoder dir.events
      >> (last_event encoder dir.events >>= λ last.
          refuse_if
            (not (last.type == "run_archived") || not (last.event_hash == r.last_event_hash))
            "archive event binding is invalid"
          >> (refuse_if
                (not (payload_matches last.payload r.pinned r.reason r.run_state)
                  || not (eqb last.recorded_at r.archived_at))
                "archive metadata does not match archive event"
              >> (run_content_digest dir >>= λ digest.
                  refuse_if (not (digest == r.content_digest)) "archived run content changed")))

  -- The archive event: one that an earlier attempt left, or a new one.
  unfoldable pub archive_event :
      Io → Dir → Payload → Bool → String → String → ℕ → Outcome Event × Dir
  archive_event io dir payload pinned reason state clock = elim (last_event encoder dir.events) [
    | err e ↦ (err e, dir)
    | ok last ↦
        if last.type == "run_archived"
        then (
          if payload_matches last.payload pinned reason state
              then ok last
              else err "existing archive event does not match requested archive",
          dir,
        )
        else let (written, after) =
            append_event encoder io "run_archived" payload clock (run_dir dir) in
          (written, record dir { events = after.events; unterminated = after.unterminated })
  ]

  -- What `ArchiveRun` has checked before it writes anything; `now` is 0 for the zero time.
  unfoldable pub archive_checks : Bool → Io → String → String → String → ℕ → Dir → Outcome Run
  archive_checks gc_lock io repository_id run_id reason now dir =
      refuse_if (not (valid_id repository_id "repo-" 32) || not (valid_id run_id "run-" 24))
        "invalid repository or run ID"
      >> (refuse_if (json.trim reason == "") "archive reason is required"
          >> (refuse_if (eqb now 0) "archive time is required"
              >> (refuse_if (not gc_lock) "lock already held"
                  >> (refuse_if (not dir.is_real) "run path must be a real directory"
                      >> (refuse_if (not io.write_lock) "lock already held"
                          >> (elim dir.archive [
                            | missing ↦ ok tt
                            | unreadable ↦ err run_archived
                            | stored r ↦ err run_archived
                          ]
                              >> (elim dir.run [ none ↦ err "read run.json" | some run ↦ ok run ]
                                  >>= λ (run : Run).
                                      refuse_if
                                        (not (run.id == run_id)
                                          || not (run.repository_id == repository_id))
                                        "run identity does not match archive target"
                                      >> (refuse_if
                                            (not (run.state == "FINALIZED")
                                              && (not (run.state == "EXPORTED")
                                                  && not (run.state == "BLOCKED")))
                                            "run state is not terminal enough to archive"
                                          >> (verify_event_chain encoder dir.events
                                              >> (verify_run_journal encoder run dir.events
                                                  >> ok run))))))))))

  unfoldable pub archive_record : Run → String → Bool → Event → String → ArchiveRecord
  archive_record run reason pinned last content_digest =
      let draft : ArchiveRecord = record {
        schema_version = "1.0";
        repository_id = run.repository_id;
        run_id = run.id;
        run_state = run.state;
        archived_at = last.recorded_at;
        pinned = pinned;
        reason = reason;
        last_event_hash = last.event_hash;
        content_digest = content_digest;
        record_digest = "";
      } in
      record draft { record_digest = record_seal draft }

  unfoldable pub archive_run :
      Bool → Io → String → String → String → Bool → ℕ → ℕ → Dir → Outcome ArchiveRecord × Dir
  archive_run gc_lock io repository_id run_id reason pinned now clock dir =
      elim (archive_checks gc_lock io repository_id run_id reason now dir) [
        | err e ↦ (err e, dir)
        | ok run ↦
            let text = json.trim reason in
            let (event, after) =
              archive_event io dir (archived pinned text run.state) pinned text run.state clock in
            elim event [
              | err e ↦ (err e, after)
              | ok last ↦ elim (run_content_digest after) [
                | err e ↦ (err e, after)
                | ok digest ↦
                    let r = archive_record run text pinned last digest in
                    if io.replace
                    then (ok r, record after { archive = stored r })
                    else (err "replace archive.json", after)
              ]
            ]
      ]

-- `time.Duration(days) * 24 * time.Hour` in nanoseconds wraps around at 64 bits; a number from
-- 2 ^ 63 on stands for a negative one.
abbrev pub day : ℕ
day = 86400000000000

unfoldable pub retention : ℕ → ℕ
retention days = days * day % 2 ^ 64

-- `archived_at.After(as_of.Add(-retention))`
unfoldable pub is_recent : ℕ → ℕ → ℕ → Bool
is_recent days as_of archived_at =
    if ltb (retention days) (2 ^ 63)
    then ltb as_of (archived_at + retention days)
    else ltb (as_of + (2 ^ 64 - retention days)) archived_at
