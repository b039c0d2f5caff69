-- ===== src/Journal.antt =====
-- internal/store/store.go: the event journal of a run, `events.jsonl`, and the run states.
pub mod Chain
pub mod Extend
pub mod Route
use diffdossier.Prelude.{
  ℕ, ◌+◌, ◌%◌, ◌^◌, String, Bool, true, false, not, ◌&&◌, ◌||◌, Option, none, some, List, [], ◌∷◌,
  ◌++◌, leb, eqb, if◌then◌else◌, ◌==◌, Outcome, ok, err, ◌>>=◌, string_in, has_key, get,
}

-- A `json.RawMessage`: a JSON object of strings, the object that `ArchiveRun` writes, or any other
-- JSON text. Only the first decodes into a `map[string]string`.
pub data Payload : Type 0 where
  strings : List (String × String) → Payload
  archived : Bool → String → String → Payload
  other : String → Payload

pub record Event : Type 0 where
  pub sequence : ℕ  -- uint64
  pub type : String
  pub recorded_at : ℕ
  pub payload : Payload
  pub previous_hash : String
  pub event_hash : String

-- The anonymous struct of `eventDigest`: an event without its own hash.
pub record Canonical : Type 0 where
  pub sequence : ℕ
  pub type : String
  pub recorded_at : ℕ
  pub payload : Payload
  pub previous_hash : String

-- What the journal needs of `crypto/sha256` and `encoding/json`: the digest of a canonical event,
-- and the bytes of the line that holds an event.
pub record Encoder : Type 0 where
  pub digest : Canonical → String
  pub line_bytes : Event → ℕ

-- A line of the file: one that decodes into an event, or one that does not.
pub data Line : Type 0 where
  entry : Event → Line
  garbage : Line

-- The lines of a file behind whose last byte a line is written. An unterminated last line, one
-- without its newline, takes up what is written, and two JSON values on a line do not decode.
unfoldable pub written_behind : Bool → List Line → Line → List Line
written_behind unterminated [] line = line ∷ []
written_behind unterminated (last ∷ []) line =
    if unterminated then garbage ∷ [] else last ∷ line ∷ []
written_behind unterminated (first ∷ next ∷ rest) line =
    first ∷ written_behind unterminated (next ∷ rest) line

-- `none`: the file is not there. A scanner gives the same lines whether or not the last one has its
-- newline.
abbrev pub Journal : Type 0
Journal = Option (List Line)

abbrev pub u64 : ℕ → ℕ
u64 n = n % 2 ^ 64

-- `bufio.MaxScanTokenSize`: a scanner stops with an error at a line of so many bytes.
abbrev pub max_token : ℕ
max_token = 65536

abbrev pub zero_event : Event
zero_event = record {
  sequence = 0;
  type = "";
  recorded_at = 0;
  payload = strings [];
  previous_hash = "";
  event_hash = "";
}

abbrev pub canonical : Event → Canonical
canonical e = record {
  sequence = e.sequence;
  type = e.type;
  recorded_at = e.recorded_at;
  payload = e.payload;
  previous_hash = e.previous_hash;
}

-- `allowed[current]`
unfoldable pub next_states : String → List String
next_states current =
    if current == "PREPARED"
    then "CONTRACTED" ∷ "BLOCKED" ∷ []
    else if current == "CONTRACTED"
    then "REVIEWING" ∷ "BLOCKED" ∷ []
    else if current == "REVIEWING"
    then "REVIEWED" ∷ "BLOCKED" ∷ []
    else if current == "REVIEWED"
    then "FIX_AUTHORIZED" ∷ "GATED" ∷ "BLOCKED" ∷ []
    else if current == "FIX_AUTHORIZED"
    then "MUTATED" ∷ "BLOCKED" ∷ []
    else if current == "MUTATED"
    then "PREPARED" ∷ "BLOCKED" ∷ []
    else if current == "GATED"
    then "REREVIEWED" ∷ "BLOCKED" ∷ []
    else if current == "REREVIEWED"
    then "FINALIZED" ∷ "BLOCKED" ∷ []
    else if current == "FINALIZED"
    then "EXPORTED" ∷ []
    else if current == "BLOCKED"
    then "PREPARED" ∷ "REVIEWING" ∷ []
    else []

unfoldable pub allowed_transition : String → String → Bool
unfolding next_states string_in
allowed_transition current next = string_in next (next_states current)

-- `json.Unmarshal(payload, &map[string]string)`
abbrev pub decode : Payload → Option (List (String × String))
decode (strings fields) = some fields
decode (archived pinned reason state) = none
decode (other text) = none

-- `m[key]` of a decoded object: of a key that comes twice the last value, the empty string where it
-- is missing.
unfoldable pub field : String → List (String × String) → String
unfolding has_key get
field key [] = ""
field key ((k, v) ∷ rest) = if k == key && not (has_key key rest) then v else field key rest

-- What a `state_transition` event does to the derived state; other events leave it alone.
unfoldable pub step_state : String → Event → Outcome String
unfolding field
step_state derived e =
    if e.type == "state_transition"
    then elim (decode e.payload) [
      | none ↦ err "invalid state transition payload"
      | some transition ↦
          if field "from" transition == derived
            && allowed_transition derived (field "to" transition)
          then ok (field "to" transition)
          else err "event journal contains invalid state transition"
    ]
    else ok derived

module _ (encoder : Encoder) where
  abbrev pub too_long : Event → Bool
  too_long e = leb max_token (encoder.line_bytes e)

  -- The loop of `VerifyEventChain`, from the sequence number and the hash of the event before.
  unfoldable pub verify_lines : ℕ → String → List Line → Outcome (Unit {0})
  verify_lines sequence previous [] = ok tt
  verify_lines sequence previous (garbage ∷ rest) = err "decode event"
  verify_lines sequence previous (entry e ∷ rest) =
      let others = verify_lines e.sequence e.event_hash rest in
      if too_long e
      then err "bufio.Scanner: token too long"
      else if not (eqb e.sequence (u64 (sequence + 1))) || not (e.previous_hash == previous)
      then err "event chain discontinuity"
      else if not (e.event_hash == encoder.digest (canonical e))
      then err "event hash mismatch"
      else others

  unfoldable pub verify_event_chain : Journal → Outcome (Unit {0})
  verify_event_chain none = err "open events.jsonl"
  verify_event_chain (some []) = err "event chain is empty"
  verify_event_chain (some (l ∷ rest)) = verify_lines 0 "" (l ∷ rest)

  -- The loop of `runJournalState` behind the first event.
  unfoldable pub follow : String → List Line → Outcome String
  follow derived [] = if derived == "" then err "event journal has no run state" else ok derived
  follow derived (garbage ∷ rest) = err "decode event"
  follow derived (entry e ∷ rest) =
      let others = step_state derived e >>= λ next. follow next rest in
      if too_long e then err "bufio.Scanner: token too long" else others

  -- The first event must bind the run's snapshot and data class.
  unfoldable pub first_state : String → String → Event → Outcome String
  unfolding field
  first_state snapshot_id data_class e =
      if e.type == "run_prepared"
      then elim (decode e.payload) [
        | none ↦ err "run_prepared does not bind the run snapshot and data_class"
        | some payload ↦
            if field "snapshot_id" payload == snapshot_id
              && field "data_class" payload == data_class
            then ok "PREPARED"
            else err "run_prepared does not bind the run snapshot and data_class"
      ]
      else err "event journal must begin with run_prepared"

  unfoldable pub run_journal_state : Journal → String → String → Outcome String
  run_journal_state none snapshot_id data_class = err "open events.jsonl"
  run_journal_state (some []) snapshot_id data_class = err "event journal has no run state"
  run_journal_state (some (garbage ∷ rest)) snapshot_id data_class = err "decode event"
  run_journal_state (some (entry e ∷ rest)) snapshot_id data_class =
      if too_long e
      then err "bufio.Scanner: token too long"
      else first_state snapshot_id data_class e >>= λ derived. follow derived rest

  last_from : Event → List Line → Outcome Event
  last_from last [] = ok last
  last_from last (garbage ∷ rest) = err "decode event log"
  last_from last (entry e ∷ rest) =
      let others = last_from e rest in
      if too_long e then err "bufio.Scanner: token too long" else others

  -- A journal that is not there has the zero event for its last.
  unfoldable pub last_event : Journal → Outcome Event
  unfolding last_from
  last_event none = ok zero_event
  last_event (some lines) = last_from zero_event lines

  -- The event that `AppendEvent` builds behind `previous`.
  unfoldable pub next_event : Event → String → Payload → ℕ → Event
  next_event previous type payload now =
      let draft : Canonical = record {
        sequence = u64 (previous.sequence + 1);
        type = type;
        recorded_at = now;
        payload = payload;
        previous_hash = previous.event_hash;
      } in
      record {
        sequence = draft.sequence;
        type = draft.type;
        recorded_at = draft.recorded_at;
        payload = draft.payload;
        previous_hash = draft.previous_hash;
        event_hash = encoder.digest draft;
      }

abbrev pub lines : Journal → List Line
lines none = []
lines (some ls) = ls
