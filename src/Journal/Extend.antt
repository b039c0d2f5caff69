-- ===== src/Journal/Extend.antt =====
-- internal/store/store.go: what one more event does to a verified journal and its derived state.
use diffdossier.Prelude.{
  String, ◌≡◌, refl, subst, inl, inr, true, false, none, some, List, [], ◌∷◌, ◌++◌, arith, ◌==◌,
  eq_refl, ok, not, Bool,
}
use diffdossier.Journal.{
  Event, Encoder, strings, Line, entry, garbage, Journal, allowed_transition, next_states, too_long,
  step_state, follow, run_journal_state, verify_lines, verify_event_chain, last_from, last_event,
  lines, zero_event,
}
use diffdossier.Journal.Chain.{verify_lines-cons}
use diffdossier.Journal.Route.{
  first_line, follow-cons, follow-nil, step_state-cases, edges_checked, follow-short,
}

-- A `state_transition` event as `UpdateRunStateHeld` writes it.
abbrev pub IsTransition : String → String → Event → Type 0
IsTransition from to e =
    (e.type ≡ "state_transition") × (e.payload ≡ strings (("from", from) ∷ ("to", to) ∷ []))

is_named : String → String → Bool
is_named s t = not (t == "")

allowed-ne-empty : (s t : String) → allowed_transition s t ≡ true → (t == "") ≡ false
unfolding is_named next_states
allowed-ne-empty s t a = let named = edges_checked is_named refl s t a in ground (arith, named)

step_state-transition :
    (s t : String) (e : Event)
    → allowed_transition s t ≡ true
    → IsTransition s t e
    → step_state s e ≡ ok t
unfolding step_state
step_state-transition s t e a h = rw (h.0, h.1) (ground (arith, eq_refl s))

step-named :
    (derived next : String) (e : Event)
    → (derived == "") ≡ false
    → step_state derived e ≡ ok next
    → (next == "") ≡ false
step-named derived next e ne h = elim (step_state-cases derived next e h) [
  | inl same ↦ subst (λ s. (s == "") ≡ false) same ne
  | inr moved ↦ allowed-ne-empty derived next moved.0
]

module _ (encoder : Encoder) where
  verified_last :
      (start : Event) (ls : List Line)
      → verify_lines encoder start.sequence start.event_hash ls ≡ ok tt
      → (last : Event) × (last_from encoder start ls ≡ ok last)
  unfolding last_from
  verified_last start [] v = (start, refl)
  verified_last start (garbage ∷ ls) v = unfold verify_lines in cc
  verified_last start (entry e ∷ ls) v =
      let (linked, others) = verify_lines-cons encoder start.sequence start.event_hash e ls v in
      let (last, found) = verified_last e ls others in (last, rw linked.short found)

  -- A verified journal has a last event.
  pub verify_event_chain-last :
      (journal : Journal)
      → verify_event_chain encoder journal ≡ ok tt
      → (last : Event) × (last_event encoder journal ≡ ok last)
  unfolding verify_event_chain last_event
  verify_event_chain-last none v = cc
  verify_event_chain-last (some []) v = cc
  verify_event_chain-last (some (l ∷ ls)) v = verified_last zero_event (l ∷ ls) v

  -- A derived state is never the empty string.
  follow-named :
      (derived s : String) (ls : List Line)
      → (derived == "") ≡ false
      → follow encoder derived ls ≡ ok s
      → (s == "") ≡ false
  unfolding follow
  follow-named derived s [] ne h = ground arith
  follow-named derived s (garbage ∷ ls) ne h = cc
  follow-named derived s (entry e ∷ ls) ne h =
      let (next, first, rest) = follow-cons encoder derived s e ls h in
      follow-named next s ls (step-named derived next e ne first) rest

  follow-append :
      (derived s t : String) (ls : List Line) (e : Event)
      → follow encoder derived ls ≡ ok s
      → step_state s e ≡ ok t
      → (t == "") ≡ false
      → too_long encoder e ≡ false
      → follow encoder derived (ls ++ entry e ∷ []) ≡ ok t
  unfolding follow
  follow-append derived s t [] e h step ne short =
      let same = follow-nil encoder derived s h in rw (short, same, step, ne)
  follow-append derived s t (garbage ∷ ls) e h step ne short = cc
  follow-append derived s t (entry f ∷ ls) e h step ne short =
      let (next, first, rest) = follow-cons encoder derived s f ls h in
      rw (follow-short encoder derived s f ls h, first)
        (follow-append next s t ls e rest step ne short)

  -- A transition out of the derived state, appended to an accepted journal, derives the next state.
  pub run_journal_state-append :
      (journal : Journal) (snapshot_id data_class s t : String) (e : Event)
      → run_journal_state encoder journal snapshot_id data_class ≡ ok s
      → allowed_transition s t ≡ true
      → IsTransition s t e
      → too_long encoder e ≡ false
      → run_journal_state encoder (some (lines journal ++ entry e ∷ [])) snapshot_id data_class
        ≡ ok t
  unfolding run_journal_state
  run_journal_state-append none snap class s t e h a tr short = cc
  run_journal_state-append (some []) snap class s t e h a tr short = cc
  run_journal_state-append (some (garbage ∷ ls)) snap class s t e h a tr short = cc
  run_journal_state-append (some (entry f ∷ ls)) snap class s t e h a tr short =
      let (short', bound, rest) = first_line encoder f ls snap class s h in
      rw (short', bound)
        (follow-append "PREPARED" s t ls e rest (step_state-transition s t e a tr)
          (allowed-ne-empty s t a) short)

  -- An event of another type leaves the derived state alone.
  pub run_journal_state-other :
      (journal : Journal) (snapshot_id data_class s : String) (e : Event)
      → run_journal_state encoder journal snapshot_id data_class ≡ ok s
      → (e.type == "state_transition") ≡ false
      → too_long encoder e ≡ false
      → run_journal_state encoder (some (lines journal ++ entry e ∷ [])) snapshot_id data_class
        ≡ ok s
  unfolding run_journal_state
  run_journal_state-other none snap class s e h a short = cc
  run_journal_state-other (some []) snap class s e h a short = cc
  run_journal_state-other (some (garbage ∷ ls)) snap class s e h a short = cc
  run_journal_state-other (some (entry f ∷ ls)) snap class s e h a short =
      let (short', bound, rest) = first_line encoder f ls snap class s h in
      rw (short', bound)
        (follow-append "PREPARED" s s ls e rest (unfold step_state in rw a)
          (follow-named "PREPARED" s ls refl rest) short)

  pub run_journal_state-named :
      (journal : Journal) (snapshot_id data_class s : String)
      → run_journal_state encoder journal snapshot_id data_class ≡ ok s
      → (s == "") ≡ false
  unfolding run_journal_state
  run_journal_state-named none snap class s h = cc
  run_journal_state-named (some []) snap class s h = cc
  run_journal_state-named (some (garbage ∷ ls)) snap class s h = cc
  run_journal_state-named (some (entry f ∷ ls)) snap class s h =
      let (short, bound, rest) = first_line encoder f ls snap class s h in
      follow-named "PREPARED" s ls refl rest
