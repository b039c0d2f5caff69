-- ===== src/Runs/Loaded.antt =====
-- `LoadRun` of internal/store/store.go: what it has checked of the directory that it accepts.
use diffdossier.Prelude.{
  String, ◌≡◌, refl, sym, ap, subst, ◌∙◌, Bool, true, false, Option, none, some, arith,
  if◌then◌else◌, ◌==◌, eq_iff, eq_refl, Outcome, ok, err,
}
use diffdossier.Journal.{Encoder, Journal, verify_event_chain, run_journal_state}
use diffdossier.Runs.{
  Run, RunDir, run_archived, is_archived, valid_run_data_class, verify_run_journal, check_loaded,
  load_run,
}

agrees :
    (o : Outcome String) (state : String)
    → elim o [
      | err e ↦ err e
      | ok derived ↦
          if derived == state then ok tt else err "run state does not match event journal state"
    ]
      ≡ ok (tt {0})
    → o ≡ ok state
agrees (err e) state h = cc
agrees (ok derived) state h = ground (arith, eq_iff derived state)

-- The files that `LoadRun` reads are there.
opened :
    (archived : Bool) (stored : Option Run) (snapshot : Option String)
    (check : Run → String → Outcome Run) (run : Run)
    → (if archived then err run_archived else elim stored [
      | none ↦ err "read run.json"
      | some r ↦ elim snapshot [ none ↦ err "read snapshot.json" | some s ↦ check r s ]
    ])
      ≡ ok run
    → (r : Run) × (s : String) × (archived ≡ false)
      × (stored ≡ some r)
      × (snapshot ≡ some s)
      × (check r s ≡ ok run)
opened true stored snapshot check run h = cc
opened false none snapshot check run h = cc
opened false (some r) none check run h = cc
opened false (some r) (some s) check run h = (r, s, refl, refl, refl, h)

module _ (encoder : Encoder) where
  -- What `LoadRun` has checked of a directory that it accepts.
  pub record IsLoaded (dir : RunDir) (run : Run) : Type 0 where
    pub mutable : is_archived dir ≡ false
    pub stored : dir.run ≡ some run
    pub sealed : dir.snapshot ≡ some run.snapshot_id
    pub chained : verify_event_chain encoder dir.events ≡ ok tt
    pub derived : run_journal_state encoder dir.events run.snapshot_id run.data_class ≡ ok run.state
    pub classed : valid_run_data_class run.data_class ≡ true

  verify_run_journal-ok :
      (run : Run) (events : Journal)
      → verify_run_journal encoder run events ≡ ok tt
      → run_journal_state encoder events run.snapshot_id run.data_class ≡ ok run.state
  unfolding verify_run_journal
  verify_run_journal-ok run events h =
      agrees (run_journal_state encoder events run.snapshot_id run.data_class) run.state h

  check_loaded-ok :
      (run r : Run) (snapshot_id : String) (dir : RunDir)
      → check_loaded encoder run snapshot_id dir ≡ ok r
      → (run ≡ r)
        × (run.snapshot_id ≡ snapshot_id)
        × (verify_event_chain encoder dir.events ≡ ok tt)
        × (verify_run_journal encoder run dir.events ≡ ok tt)
        × (valid_run_data_class run.data_class ≡ true)
  unfolding check_loaded
  check_loaded-ok run r snap dir h = ground (arith, eq_iff run.snapshot_id snap)

  pub load_run-IsLoaded :
      (dir : RunDir) (run : Run) → load_run encoder dir ≡ ok run → IsLoaded dir run
  unfolding load_run
  load_run-IsLoaded dir run h =
      let (r, s, mutable, stored, sealed, checked) =
        opened (is_archived dir) dir.run dir.snapshot (λ r s. check_loaded encoder r s dir) run h in
      let (same, ids, chained, journal, classed) = check_loaded-ok r run s dir checked in
      subst (IsLoaded dir) same (record {
        mutable = mutable;
        stored = stored;
        sealed = sealed ∙ ap some (sym ids);
        chained = chained;
        derived = verify_run_journal-ok r dir.events journal;
        classed = classed;
      })

  pub IsLoaded-load_run :
      (dir : RunDir) (run : Run) → IsLoaded dir run → load_run encoder dir ≡ ok run
  unfolding load_run check_loaded verify_run_journal
  IsLoaded-load_run dir run h = ground (arith, eq_refl run.state, eq_refl run.snapshot_id)
