-- ===== src/Runs/Begin.antt =====
-- `BeginClassifiedRun` of internal/store/store.go: the directory of a new run.
use diffdossier.Prelude.{
  ℕ, String, Bool, true, false, not, none, some, List, [], ◌∷◌, if◌then◌else◌, ◌==◌, eq_refl,
  Outcome, ok, err, ◌≡◌, refl, sym, ap, ap₂, subst, inl,
}
use diffdossier.Digests.{Sha256}
use diffdossier.Journal.{
  Event, Encoder, Payload, strings, entry, field, first_state, follow, run_journal_state,
  last_event, next_event, too_long, zero_event, written_behind,
}
use diffdossier.Journal.Chain.{verify_event_chain-append}
use diffdossier.Runs.{
  Run, RunDir, Io, appended, append_event, valid_run_data_class, load_run, extended,
}
use diffdossier.Runs.Loaded.{IsLoaded-load_run}
use diffdossier.Runs.Appended.{append_event-ok}
use diffdossier.Blobs.{Blobs, write_blob}

-- The contents that an entry of the inventory carries, under their hashes; "" is no hash.
pub record EntryBlobs : Type 0 where
  pub content_hash : String
  pub content : String
  pub previous_content_hash : String
  pub previous_content : String

abbrev pub empty_dir : RunDir
empty_dir = record {
  archive = none;
  run = none;
  snapshot = none;
  events = none;
  unterminated = false;
}

abbrev pub new_run : String → String → String → String → ℕ → Run
new_run repository_id id snapshot_id data_class now = record {
  schema_version = "1.0";
  id = id;
  repository_id = repository_id;
  snapshot_id = snapshot_id;
  data_class = data_class;
  state = "PREPARED";
  created_at = now;
  updated_at = now;
}

module _ (sha : Sha256) (encoder : Encoder) where
  unfoldable pub persist_one : Bool → String → String → Blobs → Outcome (Unit {0}) × Blobs
  persist_one replace hash content blobs =
      if hash == "" then (ok tt, blobs) else write_blob sha replace hash content blobs

  unfoldable pub persist : Bool → List EntryBlobs → Blobs → Outcome (Unit {0}) × Blobs
  persist replace [] blobs = (ok tt, blobs)
  persist replace (e ∷ rest) blobs =
      let (current, b1) = persist_one replace e.content_hash e.content blobs in
      elim current [
        | err why ↦ (err why, b1)
        | ok u ↦
            let (previous, b2) =
              persist_one replace e.previous_content_hash e.previous_content b1 in
            elim previous [ err why ↦ (err why, b2) | ok v ↦ persist replace rest b2 ]
      ]

  unfoldable pub prepared_payload : String → String → Payload
  prepared_payload snapshot_id data_class =
      strings (("snapshot_id", snapshot_id) ∷ ("data_class", data_class) ∷ [])

  -- `id` is the random ID, and `io.replace` the writing of the files; inventory.json is not read
  -- again by what is modelled.
  unfoldable pub begin_classified_run :
      Bool
      → Io
      → String
      → String
      → String
      → List EntryBlobs
      → String
      → ℕ
      → ℕ
      → Blobs
      → Outcome Run × RunDir × Blobs
  begin_classified_run gc_lock io repository_id id snapshot_id entries data_class now clock blobs =
      if not (valid_run_data_class data_class)
      then (
        err "run data_class must be public_synthetic, public_project, or private_project",
        empty_dir,
        blobs,
      )
      else if not gc_lock
      then (err "lock already held", empty_dir, blobs)
      else if not io.replace
      then (err "replace run.json", empty_dir, blobs)
      else let run = new_run repository_id id snapshot_id data_class now in
        let dir : RunDir = record empty_dir { run = some run; snapshot = some snapshot_id } in
        let (persisted, after) = persist io.replace entries blobs in
        elim persisted [
          | err why ↦ (err why, dir, after)
          | ok u ↦
              let (event, prepared) =
                append_event encoder io "run_prepared" (prepared_payload snapshot_id data_class)
                  clock dir in
              elim event [ err why ↦ (err why, prepared, after) | ok e ↦ (ok run, prepared, after) ]
        ]

  run_journal_state-prepared :
      (snapshot_id data_class : String) (clock : ℕ)
      → let e =
          next_event encoder zero_event "run_prepared"
            (prepared_payload snapshot_id data_class)
            clock in
        too_long encoder e ≡ false
        → run_journal_state encoder (some (entry e ∷ [])) snapshot_id data_class ≡ ok "PREPARED"
  unfolding run_journal_state first_state follow field next_event prepared_payload
  run_journal_state-prepared snapshot_id data_class clock short =
      rw (short, eq_refl snapshot_id, eq_refl data_class) refl

  -- Where the file system works and the blobs can be stored, a run begins in the state PREPARED, and
  -- `LoadRun` accepts its directory.
  pub load_run-begin_classified_run :
      (io : Io) (repository_id id snapshot_id : String) (entries : List EntryBlobs)
      (data_class : String) (now clock : ℕ)
      → (blobs after : Blobs) → io.replace ≡ true
      → io.events_lock ≡ true
      → io.append ≡ appended
      → valid_run_data_class data_class ≡ true
      → persist true entries blobs ≡ (ok tt, after)
      → too_long encoder (
          next_event encoder zero_event "run_prepared"
            (prepared_payload snapshot_id data_class)
            clock)
        ≡ false
      → (dir : RunDir) × (begin_classified_run true io repository_id id snapshot_id entries
            data_class now clock blobs
          ≡ (ok (new_run repository_id id snapshot_id data_class now), dir, after))
        × (load_run encoder dir ≡ ok (new_run repository_id id snapshot_id data_class now))
  unfolding begin_classified_run last_event written_behind
  load_run-begin_classified_run io repository_id id snapshot_id entries data_class now clock blobs
        after replace lock append class stored short =
      let run = new_run repository_id id snapshot_id data_class now in
      let payload = prepared_payload snapshot_id data_class in
      let start : RunDir = record empty_dir { run = some run; snapshot = some snapshot_id } in
      let e = next_event encoder zero_event "run_prepared" payload clock in
      let dir : RunDir = extended (entry e) start in
      let first_of = λ (t : Outcome (Unit {0}) × Blobs). t.0 in
      let persisted = subst (λ b. persist b entries blobs ≡ (ok tt, after)) (sym replace) stored in
      let written =
        append_event-ok encoder io "run_prepared" payload clock start zero_event refl lock append
          refl in
      (
        dir,
        rw
            (
              class,
              replace,
              ap first_of stored,
              ap (λ (t : Outcome Event × RunDir). t.0) written,
              begin_classified_run,
            )
            (ap₂ (λ (d : RunDir) (b : Blobs). (ok run, d, b))
              (ap (λ (t : Outcome Event × RunDir). t.1) written)
              (ap (λ (t : Outcome (Unit {0}) × Blobs). t.1) persisted)),
        IsLoaded-load_run encoder dir run (record {
          mutable = refl;
          stored = refl;
          sealed = refl;
          chained =
              verify_event_chain-append encoder none zero_event "run_prepared" payload clock
                (inl refl) refl short;
          derived = run_journal_state-prepared snapshot_id data_class clock short;
          classed = class;
        }),
      )
