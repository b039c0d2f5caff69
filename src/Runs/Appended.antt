-- ===== src/Runs/Appended.antt =====
-- `AppendEvent` of internal/store/store.go: what it leaves of a journal that verifies.
use diffdossier.Prelude.{
  ℕ, String, ◌≡◌, ◌≢◌, refl, sym, ap, subst, ◌⊎◌, inl, inr, ◌↔◌, ◌∙◌, true, false, none, some, List,
  [], ◌∷◌, ◌++◌, Outcome, ok, err, Bool-cases, Outcome-cases, ok-injective,
}
use diffdossier.Journal.{
  Event, Encoder, Payload, Line, entry, garbage, Journal, too_long, verify_lines,
  verify_event_chain, last_event, next_event, lines, written_behind,
}
use diffdossier.Journal.Chain.{verify_lines-cons, verify_event_chain-append}
use diffdossier.Runs.{
  RunDir, Io, appended, refused, torn, cut_short, unsynced, Append, is_archived, append_event,
  extended, broken_off,
}

pub Append-cases :
    (a : Append)
    → (a ≡ appended) ⊎ ((a ≡ refused) ⊎ ((a ≡ torn) ⊎ ((a ≡ cut_short) ⊎ (a ≡ unsynced))))
Append-cases appended = inl refl
Append-cases refused = inr (inl refl)
Append-cases torn = inr (inr (inl refl))
Append-cases cut_short = inr (inr (inr (inl refl)))
Append-cases unsynced = inr (inr (inr (inr refl)))

-- Behind a terminated line, a written line is the next one.
pub written_behind-terminated :
    (ls : List Line) (line : Line) → written_behind false ls line ≡ ls ++ line ∷ []
unfolding written_behind
written_behind-terminated [] line = refl
written_behind-terminated (last ∷ []) line = refl
written_behind-terminated (first ∷ next ∷ rest) line =
    ap (λ ls. first ∷ ls) (written_behind-terminated (next ∷ rest) line)

pub extended-ended :
    (line : Line) (dir : RunDir)
    → dir.unterminated ≡ false
    → some (written_behind dir.unterminated (lines dir.events) line)
      ≡ some (lines dir.events ++ line ∷ [])
extended-ended line dir ended =
    ap some (rw ended (written_behind-terminated (lines dir.events) line))

module _ (encoder : Encoder) where
  verify_lines-merged :
      (s : ℕ) (p : String) (x : Line) (ls : List Line) (line : Line)
      → verify_lines encoder s p (written_behind true (x ∷ ls) line) ≢ ok tt
  unfolding written_behind
  verify_lines-merged s p x [] line v = unfold verify_lines in cc
  verify_lines-merged s p garbage (y ∷ ls) line v = unfold verify_lines in cc
  verify_lines-merged s p (entry e) (y ∷ ls) line v =
      verify_lines-merged e.sequence e.event_hash y ls line
        (verify_lines-cons encoder s p e (written_behind true (y ∷ ls) line) v).1

  -- A line that is written to an unterminated one leaves a journal that does not verify.
  pub verify_event_chain-merged :
      (journal : Journal) (line : Line)
      → verify_event_chain encoder journal ≡ ok tt
      → verify_event_chain encoder (some (written_behind true (lines journal) line)) ≢ ok tt
  unfolding verify_event_chain written_behind
  verify_event_chain-merged none line v w = cc
  verify_event_chain-merged (some []) line v w = cc
  verify_event_chain-merged (some (x ∷ [])) line v w = verify_lines-merged 0 "" x [] line w
  verify_event_chain-merged (some (x ∷ y ∷ ls)) line v w =
      verify_lines-merged 0 "" x (y ∷ ls) line w

  pub extended-merged :
      (dir : RunDir) (line : Line)
      → dir.unterminated ≡ true
      → verify_event_chain encoder dir.events ≡ ok tt
      → verify_event_chain encoder (some (written_behind dir.unterminated (lines dir.events) line))
        ≢ ok tt
  extended-merged dir line open_line v w = verify_event_chain-merged dir.events line v (
      subst
        (λ b. verify_event_chain encoder (some (written_behind b (lines dir.events) line)) ≡ ok tt)
        open_line w)

  verify_lines-last :
      (s : ℕ) (p : String) (ls : List Line) (e : Event)
      → verify_lines encoder s p (ls ++ entry e ∷ []) ≡ ok tt
      → too_long encoder e ≡ false
  verify_lines-last s p [] e v = (verify_lines-cons encoder s p e [] v).0.short
  verify_lines-last s p (garbage ∷ ls) e v = unfold verify_lines in cc
  verify_lines-last s p (entry f ∷ ls) e v =
      verify_lines-last f.sequence f.event_hash ls e
        (verify_lines-cons encoder s p f (ls ++ entry e ∷ []) v).1

  verify_event_chain-short :
      (ls : List Line) (e : Event)
      → verify_event_chain encoder (some (ls ++ entry e ∷ [])) ≡ ok tt
      → too_long encoder e ≡ false
  unfolding verify_event_chain
  verify_event_chain-short [] e v = verify_lines-last 0 "" [] e v
  verify_event_chain-short (x ∷ ls) e v = verify_lines-last 0 "" (x ∷ ls) e v

  pub append_event-ok :
      (io : Io) (type : String) (payload : Payload) (now : ℕ) (dir : RunDir) (last : Event)
      → is_archived dir ≡ false
      → io.events_lock ≡ true
      → io.append ≡ appended
      → last_event encoder dir.events ≡ ok last
      → let e = next_event encoder last type payload now in
        append_event encoder io type payload now dir ≡ (ok e, extended (entry e) dir)
  unfolding append_event
  append_event-ok io type payload now dir last mutable lock append l = rw (mutable, lock, l, append)

  -- The event that would be appended has a line within the scanner's limit.
  abbrev pub IsShortBehind : RunDir → String → Payload → ℕ → Type 0
  IsShortBehind dir type payload now =
      (last : Event)
      → last_event encoder dir.events ≡ ok last
      → too_long encoder (next_event encoder last type payload now) ≡ false

  -- How an append to a mutable directory can end.
  pub data AppendOutcome (dir : RunDir) (e : Event) (r : Outcome Event × RunDir) : Type 0 where
    nothing : (message : String) → r ≡ (err message, dir) → AppendOutcome dir e r
    torn_off :
        (message : String) → r ≡ (err message, broken_off garbage dir) → AppendOutcome dir e r
    unended :
        (message : String) → r ≡ (err message, broken_off (entry e) dir) → AppendOutcome dir e r
    unsafe : (message : String) → r ≡ (err message, extended (entry e) dir) → AppendOutcome dir e r
    done : r ≡ (ok e, extended (entry e) dir) → AppendOutcome dir e r

  pub append_event-outcome :
      (io : Io) (type : String) (payload : Payload) (now : ℕ) (dir : RunDir) (last : Event)
      → is_archived dir ≡ false
      → last_event encoder dir.events ≡ ok last
      → AppendOutcome dir
          (next_event encoder last type payload now)
          (append_event encoder io type payload now dir)
  append_event-outcome io type payload now dir last mutable l = elim (Bool-cases io.events_lock) [
    | inr held ↦ nothing "lock already held" (unfold append_event in rw (mutable, held))
    | inl got ↦ elim (Append-cases io.append) [
      | inl a ↦ done (append_event-ok io type payload now dir last mutable got a l)
      | inr (inl a) ↦ nothing "write events.jsonl" (unfold append_event in rw (mutable, got, l, a))
      | inr (inr (inl a)) ↦
          torn_off "write events.jsonl" (unfold append_event in rw (mutable, got, l, a))
      | inr (inr (inr (inl a))) ↦
          unended "write events.jsonl" (unfold append_event in rw (mutable, got, l, a))
      | inr (inr (inr (inr a))) ↦
          unsafe "sync events.jsonl" (unfold append_event in rw (mutable, got, l, a))
    ]
  ]

  -- Only to a mutable directory with a readable last event is an event reported as written.
  append_event-inv :
      (io : Io) (type : String) (payload : Payload) (now : ℕ) (dir dir' : RunDir) (e : Event)
      → append_event encoder io type payload now dir ≡ (ok e, dir')
      → (last : Event) × (last_event encoder dir.events ≡ ok last)
        × (e ≡ next_event encoder last type payload now)
        × (dir' ≡ extended (entry e) dir)
  unfolding append_event
  append_event-inv io type payload now dir dir' e h = elim (Bool-cases (is_archived dir)) [
    | inl archived ↦ absurd (cc (rw archived at h))
    | inr mutable ↦ elim (Bool-cases io.events_lock) [
      | inr held ↦ absurd (cc (rw (mutable, held) at h))
      | inl got ↦ elim (Outcome-cases (last_event encoder dir.events)) [
        | inr (why, l) ↦ absurd (cc (rw (mutable, got, l) at h))
        | inl (last, l) ↦ elim (append_event-outcome io type payload now dir last mutable l) [
          | nothing message r ↦ absurd (cc (h, r))
          | torn_off message r ↦ absurd (cc (h, r))
          | unended message r ↦ absurd (cc (h, r))
          | unsafe message r ↦ absurd (cc (h, r))
          | done r ↦
              let same = sym h ∙ r in
              let event = ok-injective (ap (λ (t : Outcome Event × RunDir). t.0) same) in
              (
                last,
                l,
                event,
                ap (λ (t : Outcome Event × RunDir). t.1) same
                    ∙ ap (λ (x : Event). extended (entry x) dir) (sym event),
              )
        ]
      ]
    ]
  ]

  -- A journal that verifies, or one that is not there.
  pub data IsSound (dir : RunDir) : Type 0 where
    new_journal : dir.events ≡ none → dir.unterminated ≡ false → IsSound dir
    verified : verify_event_chain encoder dir.events ≡ ok tt → IsSound dir

  verify_extended :
      (dir : RunDir) (last : Event) (type : String) (payload : Payload) (now : ℕ)
      → IsSound dir
      → last_event encoder dir.events ≡ ok last
      → let e = next_event encoder last type payload now in
        (verify_event_chain encoder (extended (entry e) dir).events ≡ ok tt)
        ↔ ((dir.unterminated ≡ false) × (too_long encoder e ≡ false))
  verify_extended dir last type payload now sound l =
      let e = next_event encoder last type payload now in
      elim (Bool-cases dir.unterminated) [
        | inr ended ↦
            let plain : (extended (entry e) dir).events ≡ some (lines dir.events ++ entry e ∷ []) =
              extended-ended (entry e) dir ended in
            let old : (dir.events ≡ none) ⊎ (verify_event_chain encoder dir.events ≡ ok tt) =
              elim sound [ new_journal n t ↦ inl n | verified v ↦ inr v ] in
            (
              λ v. (
                ended,
                verify_event_chain-short (lines dir.events) e
                    (subst (λ j. verify_event_chain encoder j ≡ ok tt) plain v),
              ),
              λ both.
                  subst (λ j. verify_event_chain encoder j ≡ ok tt) (sym plain)
                    (verify_event_chain-append encoder dir.events last type payload now old l
                      both.1),
            )
        | inl open_line ↦ elim sound [
          | new_journal n t ↦ absurd (cc (open_line, t))
          | verified v ↦ (
            λ w. absurd (extended-merged dir (entry e) open_line v w),
            λ both. absurd (cc (open_line, both.0)),
          )
        ]
      ]

  -- Where `AppendEvent` reports an event as written, to a journal that verifies or to a new one, the
  -- journal that it leaves verifies if and only if the old one ended in a newline and the line of
  -- the event is within the scanner's limit.
  pub append_event-verified_iff :
      (io : Io) (type : String) (payload : Payload) (now : ℕ) (dir dir' : RunDir) (e : Event)
      → IsSound dir
      → append_event encoder io type payload now dir ≡ (ok e, dir')
      → (verify_event_chain encoder dir'.events ≡ ok tt)
        ↔ ((dir.unterminated ≡ false) × (too_long encoder e ≡ false))
  append_event-verified_iff io type payload now dir dir' e sound h =
      let (last, l, event, left) = append_event-inv io type payload now dir dir' e h in
      subst
        (λ (d : RunDir).
          (verify_event_chain encoder d.events ≡ ok tt)
          ↔ ((dir.unterminated ≡ false) × (too_long encoder e ≡ false)))
        (sym left)
        (subst
          (λ (x : Event).
            (verify_event_chain encoder (extended (entry x) dir).events ≡ ok tt)
            ↔ ((dir.unterminated ≡ false) × (too_long encoder x ≡ false)))
          (sym event) (verify_extended dir last type payload now sound l))
