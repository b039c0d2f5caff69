-- ===== src/Runs/Update.antt =====
-- `UpdateRunStateHeld` of internal/store/store.go: the event is written ahead of run.json.
use diffdossier.Prelude.{
  ℕ, String, ◌≡◌, ◌≢◌, refl, sym, subst, inl, inr, Bool, true, false, not, some, [], ◌∷◌, arith,
  ◌==◌, Outcome, ok, err, Bool-cases,
}
use diffdossier.Journal.{
  Event, Encoder, Payload, strings, entry, garbage, allowed_transition, next_states,
  verify_event_chain, run_journal_state, last_event, next_event, lines, written_behind,
}
use diffdossier.Journal.Chain.{verify_event_chain-append}
use diffdossier.Journal.Route.{edges_checked}
use diffdossier.Journal.Extend.{IsTransition, verify_event_chain-last, run_journal_state-append}
use diffdossier.Runs.{
  Run, RunDir, Io, is_archived, valid_run_data_class, advance, save_behind, update_run_state_held,
  load_run, extended, broken_off,
}
use diffdossier.Runs.Loaded.{IsLoaded, load_run-IsLoaded, IsLoaded-load_run}
use diffdossier.Runs.Appended.{
  IsShortBehind, extended-ended, extended-merged, append_event-outcome, nothing, torn_off, unended,
  unsafe, done,
}

is_move : String → String → Bool
is_move s t = not (t == s)

-- No state is its own successor.
transitions_move : (s t : String) → allowed_transition s t ≡ true → (t == s) ≡ false
unfolding is_move next_states
transitions_move s t a = let moves = edges_checked is_move refl s t a in ground (arith, moves)

module _ (encoder : Encoder) where
  -- The journal is one transition ahead of run.json.
  pub record IsPending (dir : RunDir) (run : Run) (next : String) : Type 0 where
    pub mutable : is_archived dir ≡ false
    pub stored : dir.run ≡ some run
    pub sealed : dir.snapshot ≡ some run.snapshot_id
    pub chained : verify_event_chain encoder dir.events ≡ ok tt
    pub derived : run_journal_state encoder dir.events run.snapshot_id run.data_class ≡ ok next
    pub ahead : (next == run.state) ≡ false
    pub classed : valid_run_data_class run.data_class ≡ true

  abbrev pub transition_payload : Run → String → Payload
  transition_payload run next = strings (("from", run.state) ∷ ("to", next) ∷ [])

  append-IsPending :
      (dir : RunDir) (run : Run) (next : String) (last : Event) (now : ℕ) (unterminated : Bool)
      → IsShortBehind encoder dir "state_transition" (transition_payload run next) now
      → IsLoaded encoder dir run
      → allowed_transition run.state next ≡ true
      → last_event encoder dir.events ≡ ok last
      → dir.unterminated ≡ false
      → IsPending
          (record dir {
            events = some (
                written_behind dir.unterminated (lines dir.events) (
                  entry (
                    next_event encoder last "state_transition" (transition_payload run next) now)));
            unterminated = unterminated;
          })
          run
          next
  append-IsPending dir run next last now unterminated short h a l ended =
      let e = next_event encoder last "state_transition" (transition_payload run next) now in
      let tr : IsTransition run.state next e = unfold next_event in (refl, refl) in
      let plain = extended-ended (entry e) dir ended in
      record {
        mutable = h.mutable;
        stored = h.stored;
        sealed = h.sealed;
        chained =
            subst (λ j. verify_event_chain encoder j ≡ ok tt) (sym plain)
              (verify_event_chain-append encoder dir.events last "state_transition"
                (transition_payload run next) now (inr h.chained) l (short last l));
        derived =
            subst (λ j. run_journal_state encoder j run.snapshot_id run.data_class ≡ ok next)
              (sym plain)
              (run_journal_state-append encoder dir.events run.snapshot_id run.data_class run.state
                next e h.derived a tr (short last l));
        ahead = transitions_move run.state next a;
        classed = h.classed;
      }

  -- run.json catches up with the journal.
  pub IsPending-caught_up :
      (dir : RunDir) (run : Run) (next : String) (now : ℕ)
      → IsPending dir run next
      → let run' : Run = record run { state = next; updated_at = now } in
        IsLoaded encoder (record dir { run = some run' }) run'
  IsPending-caught_up dir run next now h = record {
    mutable = h.mutable;
    stored = refl;
    sealed = h.sealed;
    chained = h.chained;
    derived = h.derived;
    classed = h.classed;
  }

  -- How an update of the run state can end.
  pub data UpdateOutcome (dir : RunDir) (run : Run) (next : String) (r : Outcome Run × RunDir)
      : Type 0 where
    rejected : (e : String) → r ≡ (err e, dir) → UpdateOutcome dir run next r
    torn_line : (e : String) → r ≡ (err e, broken_off garbage dir) → UpdateOutcome dir run next r
    interrupted :
        (e : String) (dir' : RunDir)
        → r ≡ (err e, dir')
        → IsPending dir' run next
        → UpdateOutcome dir run next r
    completed :
        (dir' : RunDir) (run' : Run)
        → r ≡ (ok run', dir')
        → run'.state ≡ next
        → allowed_transition run.state next ≡ true
        → load_run encoder dir' ≡ ok run'
        → UpdateOutcome dir run next r
    merged :
        dir.unterminated ≡ true
        → verify_event_chain encoder r.1.events ≢ ok tt
        → UpdateOutcome dir run next r

  -- What is behind a whole event in a journal that ended in a newline.
  save-outcome :
      (io : Io) (dir dir' : RunDir) (run : Run) (next : String) (now : ℕ) (e : Event)
      → IsPending dir' run next
      → allowed_transition run.state next ≡ true
      → UpdateOutcome dir run next
          (save_behind encoder io (record run { state = next; updated_at = now }) (ok e, dir'))
  unfolding save_behind
  save-outcome io dir dir' run next now e pending a = elim (Bool-cases io.replace) [
    | inr failed ↦ interrupted "replace run.json" dir' (rw failed) pending
    | inl saved ↦
        completed _ (record run { state = next; updated_at = now }) (rw saved) refl a
          (IsLoaded-load_run encoder _ _ (IsPending-caught_up dir' run next now pending))
  ]

  save_behind-events :
      (io : Io) (run : Run) (e : Event) (dir : RunDir)
      → (save_behind encoder io run (ok e, dir)).1.events ≡ dir.events
  unfolding save_behind
  save_behind-events io run e dir = elim (Bool-cases io.replace) [
    | inr failed ↦ rw failed
    | inl saved ↦ rw saved
  ]

  -- The append of the transition to an unterminated journal, whatever comes of it.
  merged-outcome :
      (io : Io) (dir : RunDir) (run : Run) (next : String) (now : ℕ) (last : Event)
      → IsLoaded encoder dir run
      → dir.unterminated ≡ true
      → last_event encoder dir.events ≡ ok last
      → UpdateOutcome dir run next (advance encoder io run next now dir)
  unfolding advance
  merged-outcome io dir run next now last h open_line l =
      let payload = transition_payload run next in
      let e = next_event encoder last "state_transition" payload now in
      let spoilt = extended-merged encoder dir (entry e) open_line h.chained in
      let saved =
        save_behind-events io (record run { state = next; updated_at = now }) e
          (extended (entry e) dir) in
      elim (append_event-outcome encoder io "state_transition" payload now dir last h.mutable l) [
        | nothing message r ↦ rejected message (rw r)
        | torn_off message r ↦ torn_line message (rw r)
        | unended message r ↦ merged open_line (rw r spoilt)
        | unsafe message r ↦ merged open_line (rw r spoilt)
        | done r ↦ merged open_line (rw (r, saved) spoilt)
      ]

  ended-outcome :
      (io : Io) (dir : RunDir) (run : Run) (next : String) (now : ℕ) (last : Event)
      → IsShortBehind encoder dir "state_transition" (transition_payload run next) now
      → IsLoaded encoder dir run
      → allowed_transition run.state next ≡ true
      → dir.unterminated ≡ false
      → last_event encoder dir.events ≡ ok last
      → UpdateOutcome dir run next (advance encoder io run next now dir)
  unfolding advance
  ended-outcome io dir run next now last short h a ended l =
      let payload = transition_payload run next in
      let e = next_event encoder last "state_transition" payload now in
      let pending = λ (b : Bool). append-IsPending dir run next last now b short h a l ended in
      elim (append_event-outcome encoder io "state_transition" payload now dir last h.mutable l) [
        | nothing message r ↦ rejected message (rw r)
        | torn_off message r ↦ torn_line message (rw r)
        | unended message r ↦ interrupted message _ (rw r) (pending true)
        | unsafe message r ↦ interrupted message _ (rw r) (pending false)
        | done r ↦ rw r (save-outcome io dir _ run next now e (pending false) a)
      ]

  -- `UpdateRunStateHeld` on a run that `LoadRun` accepts ends in one of five ways, if the line of
  -- an allowed transition is within the scanner's limit: nothing is changed; a torn line ends the
  -- journal; the journal alone has the transition; run.json has the next state, the table allows the
  -- transition, and `LoadRun` accepts the run again; or, only where the last line had no newline
  -- before, the journal does not verify any more.
  pub update_outcomes :
      (io : Io) (dir : RunDir) (run : Run) (next : String) (held : Bool) (now : ℕ)
      → (allowed_transition run.state next ≡ true
          → IsShortBehind encoder dir "state_transition" (transition_payload run next) now)
      → load_run encoder dir ≡ ok run
      → UpdateOutcome dir run next (update_run_state_held encoder io next held now dir)
  unfolding update_run_state_held
  update_outcomes io dir run next held now short loaded =
      let h = load_run-IsLoaded encoder dir run loaded in
      let (last, l) = verify_event_chain-last encoder dir.events h.chained in
      elim (Bool-cases held) [
        | inr missing ↦ rejected "valid run write lock is required" (ground arith)
        | inl got ↦ elim (Bool-cases (allowed_transition run.state next)) [
          | inr not_allowed ↦ rejected "invalid run transition" (ground arith)
          | inl allowed ↦
              let same : update_run_state_held encoder io next held now dir
                  ≡ advance encoder io run next now dir =
                ground arith in
              subst (UpdateOutcome dir run next) (sym same) (elim (Bool-cases dir.unterminated) [
                | inl open_line ↦ merged-outcome io dir run next now last h open_line l
                | inr ended ↦
                    ended-outcome io dir run next now last (short allowed) h allowed ended l
              ])
        ]
      ]
