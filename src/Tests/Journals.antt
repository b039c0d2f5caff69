-- ===== src/Tests/Journals.antt =====
-- Witnesses on a journal of two events, and on a finished one.
use diffdossier.Prelude.{String, true, some, [], ◌∷◌, ok, refl, arith, ◌≡◌}
use diffdossier.Journal.{
  Event, Payload, strings, Line, entry, Journal, zero_event, next_event, lines, verify_event_chain,
  verify_lines, last_event, run_journal_state, first_state, follow, step_state, field,
  allowed_transition, next_states,
}
use diffdossier.Journal.Chain.{verified_journals_agree}
use diffdossier.Journal.Route.{finished_journal_route, visits}
use diffdossier.Tests.Codes.{number, text, list, pair}
use diffdossier.Tests.Encoders.{encoder, digest, digest-injective}

abbrev pub prepared : Payload
prepared = strings (("snapshot_id", "snap") ∷ ("data_class", "public_project") ∷ [])

abbrev pub transition : String → String → Payload
transition from to = strings (("from", from) ∷ ("to", to) ∷ [])

unfoldable pub first : Event
first = next_event encoder zero_event "run_prepared" prepared 1

unfoldable pub second : Event
second = next_event encoder first "state_transition" (transition "PREPARED" "CONTRACTED") 2

abbrev pub journal : Journal
journal = some (entry first ∷ entry second ∷ [])

pub journal-verified : verify_event_chain encoder journal ≡ ok tt
unfolding verify_event_chain verify_lines first second next_event digest number text list pair
journal-verified = refl

pub journal-last : last_event encoder journal ≡ ok second
unfolding last_event first next_event second
journal-last = refl

verified_journals_agree_example : journal ≡ journal
verified_journals_agree_example =
    verified_journals_agree encoder digest-injective journal journal second second journal-verified
      journal-verified journal-last journal-last refl (omega arith) (omega arith)

-- An event of a finished run, as the state derivation reads it.
abbrev step_line : String → String → Line
step_line from to = entry (record {
  sequence = 0;
  type = "state_transition";
  recorded_at = 0;
  payload = transition from to;
  previous_hash = "";
  event_hash = "";
})

abbrev finished : Journal
finished = some (
    entry first
    ∷ step_line "PREPARED" "CONTRACTED"
    ∷ step_line "CONTRACTED" "REVIEWING"
    ∷ step_line "REVIEWING" "REVIEWED"
    ∷ step_line "REVIEWED" "GATED"
    ∷ step_line "GATED" "REREVIEWED"
    ∷ step_line "REREVIEWED" "FINALIZED"
    ∷ [])

finished-state : run_journal_state encoder finished "snap" "public_project" ≡ ok "FINALIZED"
unfolding run_journal_state first_state follow step_state field allowed_transition next_states first
    next_event
finished-state = refl

finished_journal_route_example :
    (visits "REVIEWED" (lines finished) ≡ true)
    × (visits "GATED" (lines finished) ≡ true)
    × (visits "REREVIEWED" (lines finished) ≡ true)
finished_journal_route_example =
    finished_journal_route encoder finished "snap" "public_project" "FINALIZED" finished-state refl
