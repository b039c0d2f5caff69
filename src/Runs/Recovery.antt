-- ===== src/Runs/Recovery.antt =====
-- `RecoverRun` of internal/store/store.go: an interrupted update is taken up again.
use diffdossier.Prelude.{
  ℕ, String, ◌≡◌, refl, sym, subst, ◌∙◌, ◌≢◌, ◌||◌, inr, true, false, not, some, [], ◌∷◌, arith,
  if◌then◌else◌, ◌==◌, eq_iff, eq_refl, ok, err,
}
use diffdossier.Journal.{
  Event, Encoder, Payload, strings, Line, entry, verify_event_chain, run_journal_state, last_event,
  next_event,
}
use diffdossier.Journal.Chain.{verify_event_chain-append}
use diffdossier.Journal.Extend.{
  verify_event_chain-last, run_journal_state-named, run_journal_state-other,
}
use diffdossier.Runs.{
  Run, RunDir, Io, appended, run_archived, is_archived, append_event, load_run, restore,
  recover_run, extended,
}
use diffdossier.Runs.Loaded.{IsLoaded, load_run-IsLoaded, IsLoaded-load_run}
use diffdossier.Runs.Appended.{IsShortBehind, extended-ended, extended-merged, append_event-ok}
use diffdossier.Runs.Update.{IsPending, IsPending-caught_up}

module _ (encoder : Encoder) where
  append-IsLoaded :
      (dir : RunDir) (run : Run) (last : Event) (payload : Payload) (now : ℕ)
      → IsShortBehind encoder dir "run_recovered" payload now
      → IsLoaded encoder dir run
      → last_event encoder dir.events ≡ ok last
      → dir.unterminated ≡ false
      → IsLoaded encoder
          (extended (entry (next_event encoder last "run_recovered" payload now)) dir)
          run
  append-IsLoaded dir run last payload now short h l ended =
      let e = next_event encoder last "run_recovered" payload now in
      let plain = extended-ended (entry e) dir ended in
      record {
        mutable = h.mutable;
        stored = h.stored;
        sealed = h.sealed;
        chained =
            subst (λ j. verify_event_chain encoder j ≡ ok tt) (sym plain)
              (verify_event_chain-append encoder dir.events last "run_recovered" payload now
                (inr h.chained) l (short last l));
        derived =
            subst (λ j. run_journal_state encoder j run.snapshot_id run.data_class ≡ ok run.state)
              (sym plain)
              (run_journal_state-other encoder dir.events run.snapshot_id run.data_class run.state e
                h.derived (unfold next_event in refl) (short last l));
        classed = h.classed;
      }

  abbrev IsWorking : Io → Type 0
  IsWorking io =
      (io.write_lock ≡ true)
      × (io.events_lock ≡ true)
      × (io.append ≡ appended)
      × (io.replace ≡ true)

  abbrev pub recovery_payload : Run → String → Payload
  recovery_payload run derived =
      strings (("persisted_state", run.state) ∷ ("journal_state", derived) ∷ [])

  restore-working :
      (io : Io) (run : Run) (derived : String) (now : ℕ) (dir : RunDir) (last : Event)
      → io.replace ≡ true
      → is_archived dir ≡ false
      → io.events_lock ≡ true
      → io.append ≡ appended
      → last_event encoder dir.events ≡ ok last
      → let run' : Run = record run { state = derived; updated_at = now } in
        let e = next_event encoder last "run_recovered" (recovery_payload run derived) now in
        restore encoder io run derived now dir
        ≡ (ok run', extended (entry e) (record dir { run = some run' }))
  unfolding restore
  restore-working io run derived now dir last replace mutable lock append l =
      let run' : Run = record run { state = derived; updated_at = now } in
      ground (
        arith,
        append_event-ok encoder io "run_recovered" (recovery_payload run derived) now
            (record dir { run = some run' }) last mutable lock append l,
      )

  -- What `RecoverRun` does behind its checks.
  recover_run-checked :
      (io : Io) (dir : RunDir) (run : Run) (next echo : String) (now : ℕ)
      → io.write_lock ≡ true
      → IsPending encoder dir run next
      → recover_run encoder io echo now dir ≡ (
          if next == run.state
          then (ok run, dir)
          else if echo == "" || not (echo == next)
          then (err "recovery requires exact journal state", dir)
          else restore encoder io run next now dir)
  unfolding recover_run
  recover_run-checked io dir run next echo now lock h = ground (arith, eq_refl run.snapshot_id)

  -- An unterminated journal takes up the recovery event, and `LoadRun` refuses the run.
  extended-refused :
      (dir : RunDir) (line : Line)
      → dir.unterminated ≡ true
      → verify_event_chain encoder dir.events ≡ ok tt
      → (r : Run) → load_run encoder (extended line dir) ≢ ok r
  extended-refused dir line open_line v r loaded =
      extended-merged encoder dir line open_line v
        (load_run-IsLoaded encoder (extended line dir) r loaded).chained

  -- After an update that stopped between the journal and run.json, `RecoverRun` with the exact
  -- journal state, where every lock and write succeeds, reports the run in that state. `LoadRun`
  -- accepts what it leaves if the journal ended in a newline and the line of the recovery event is
  -- within the scanner's limit; if the journal did not, `LoadRun` refuses the run from then on. With
  -- any other echo `RecoverRun` is refused and changes nothing.
  pub recover_run-pending :
      (io : Io) (dir : RunDir) (run : Run) (next : String) (now : ℕ)
      → IsWorking io
      → IsPending encoder dir run next
      → IsShortBehind encoder dir "run_recovered" (recovery_payload run next) now
      → ((dir' : RunDir) × (run' : Run) × (recover_run encoder io next now dir ≡ (ok run', dir'))
          × (run'.state ≡ next)
          × (dir.unterminated ≡ false → load_run encoder dir' ≡ ok run')
          × (dir.unterminated ≡ true → (r : Run) → load_run encoder dir' ≢ ok r))
        × ((echo : String)
            → echo ≢ next
            → recover_run encoder io echo now dir
              ≡ (err "recovery requires exact journal state", dir))
  unfolding recover_run
  recover_run-pending io dir run next now working h short =
      let (write_lock, events_lock, append, replace) = working in
      let (last, l) = verify_event_chain-last encoder dir.events h.chained in
      let run' : Run = record run { state = next; updated_at = now } in
      let dir' : RunDir = record dir { run = some run' } in
      let loaded = IsPending-caught_up encoder dir run next now h in
      let named =
        run_journal_state-named encoder dir.events run.snapshot_id run.data_class next h.derived in
      let payload = recovery_payload run next in
      (
        (
          _,
          run',
          recover_run-checked io dir run next next now write_lock h
              ∙ rw (h.ahead, named, eq_refl next)
                  (restore-working io run next now dir last replace h.mutable events_lock append l),
          refl,
          λ ended.
              IsLoaded-load_run encoder _ _
                (append-IsLoaded dir' run' last payload now short loaded l ended),
          λ open_line. extended-refused dir' _ open_line h.chained,
        ),
        λ echo other.
            recover_run-checked io dir run next echo now write_lock h
            ∙ ground (arith, eq_iff echo next),
      )

  -- On an archived run whose run.json is behind its journal, `RecoverRun` reports that the run is
  -- read-only, and has replaced run.json all the same.
  pub recover_run-archived :
      (io : Io) (dir : RunDir) (run : Run) (next : String) (now : ℕ)
      → io.write_lock ≡ true
      → io.replace ≡ true
      → is_archived dir ≡ true
      → dir.run ≡ some run
      → dir.snapshot ≡ some run.snapshot_id
      → verify_event_chain encoder dir.events ≡ ok tt
      → run_journal_state encoder dir.events run.snapshot_id run.data_class ≡ ok next
      → next ≢ run.state
      → recover_run encoder io next now dir ≡ (
        err run_archived,
        record dir { run = some (record run { state = next; updated_at = now }) },
      )
  unfolding recover_run append_event
  recover_run-archived io dir run next now lock replace archived stored sealed chained derived
        ahead =
      let named =
        run_journal_state-named encoder dir.events run.snapshot_id run.data_class next derived in
      ground (arith, named, eq_refl run.snapshot_id, eq_iff next run.state, eq_refl next)
