-- ===== src/Journal/Route.antt =====
-- `runJournalState` of internal/store/store.go: which states an accepted journal has passed.
use diffdossier.Prelude.{
  String, ◌≡◌, refl, ◌⊎◌, inl, inr, Bool, true, false, ◌&&◌, ◌||◌, none, some, List, [], ◌∷◌, arith,
  ◌==◌, eq_iff, ok, >>=-eq-ok, ok≢err, sym, subst, Bool-cases, string_in, all-string_in, all, not,
}
use diffdossier.Journal.{
  Event, Encoder, Payload, Line, entry, garbage, Journal, decode, field, allowed_transition,
  next_states, too_long, step_state, follow, first_state, run_journal_state, lines,
}

-- The event is a transition into the state.
unfoldable pub enters : String → Event → Bool
enters state e =
    e.type == "state_transition"
    && elim (decode e.payload) [ none ↦ false | some m ↦ field "to" m == state ]

unfoldable pub visits : String → List Line → Bool
visits state [] = false
visits state (garbage ∷ rest) = visits state rest
visits state (entry e ∷ rest) = enters state e || visits state rest

abbrev pub fields : Payload → List (String × String)
fields payload = elim (decode payload) [ none ↦ [] | some m ↦ m ]

pub step_state-cases :
    (derived next : String) (e : Event)
    → step_state derived e ≡ ok next
    → (derived ≡ next) ⊎ ((allowed_transition derived next ≡ true) × (enters next e ≡ true))
unfolding step_state enters
step_state-cases derived next e h = ground (arith, eq_iff (field "to" (fields e.payload)) next)

-- A set of states that can be entered from outside only through the gate.
abbrev IsGuarded : String → (String → Bool) → Type 0
IsGuarded gate inside =
    (s t : String) → allowed_transition s t ≡ true → inside s ≡ false → inside t ≡ true → t ≡ gate

module _ (encoder : Encoder) where
  pub follow-cons :
      (derived s : String) (e : Event) (ls : List Line)
      → follow encoder derived (entry e ∷ ls) ≡ ok s
      → (next : String) × (step_state derived e ≡ ok next) × (follow encoder next ls ≡ ok s)
  unfolding follow
  follow-cons derived s e ls h = elim (Bool-cases (too_long encoder e)) [
    | inl p ↦ absurd (ok≢err (sym (rw p at h)))
    | inr p ↦ >>=-eq-ok (step_state derived e) (λ next. follow encoder next ls) (rw p at h)
  ]

  pub follow-short :
      (derived s : String) (e : Event) (ls : List Line)
      → follow encoder derived (entry e ∷ ls) ≡ ok s
      → too_long encoder e ≡ false
  unfolding follow
  follow-short derived s e ls h = elim (Bool-cases (too_long encoder e)) [
    | inl p ↦ absurd (ok≢err (sym (rw p at h)))
    | inr p ↦ p
  ]

  pub follow-nil : (derived s : String) → follow encoder derived [] ≡ ok s → derived ≡ s
  unfolding follow
  follow-nil derived s h = ground arith

  follow-visits :
      (gate : String) (inside : String → Bool)
      → IsGuarded gate inside
      → (derived s : String) (ls : List Line) → follow encoder derived ls ≡ ok s
      → inside derived ≡ false
      → inside s ≡ true
      → visits gate ls ≡ true
  unfolding visits
  follow-visits gate inside guarded derived s [] h out into =
      let same = follow-nil derived s h in cc
  follow-visits gate inside guarded derived s (garbage ∷ ls) h out into =
      unfold follow in ground arith
  follow-visits gate inside guarded derived s (entry e ∷ ls) h out into =
      let (next, step, rest) = follow-cons derived s e ls h in
      elim (Bool-cases (inside next)) [
        | inl came ↦ elim (step_state-cases derived next e step) [
          | inl same ↦ cc
          | inr moved ↦
              let at_gate = guarded derived next moved.0 out came in
              let entered = subst (λ x. enters x e ≡ true) at_gate moved.1 in
              ground (arith, entered)
        ]
        | inr not_yet ↦
            let later = follow-visits gate inside guarded next s ls rest not_yet into in
            ground (arith, later)
      ]

  -- What an accepted first line decides.
  pub first_line :
      (e : Event) (ls : List Line) (snapshot_id data_class s : String)
      → run_journal_state encoder (some (entry e ∷ ls)) snapshot_id data_class ≡ ok s
      → (too_long encoder e ≡ false)
        × (first_state encoder snapshot_id data_class e ≡ ok "PREPARED")
        × (follow encoder "PREPARED" ls ≡ ok s)
  unfolding run_journal_state first_state
  first_line e ls snap class s h = ground arith

  -- A journal whose derived state is inside has visited the gate, if PREPARED is outside.
  pub run_journal_state-visits :
      (gate : String) (inside : String → Bool)
      → IsGuarded gate inside
      → inside "PREPARED" ≡ false
      → (journal : Journal) (snapshot_id data_class s : String)
      → run_journal_state encoder journal snapshot_id data_class ≡ ok s
      → inside s ≡ true
      → visits gate (lines journal) ≡ true
  unfolding run_journal_state
  run_journal_state-visits gate inside guarded out none snap class s h into = cc
  run_journal_state-visits gate inside guarded out (some []) snap class s h into = cc
  run_journal_state-visits gate inside guarded out (some (garbage ∷ ls)) snap class s h into = cc
  run_journal_state-visits gate inside guarded out (some (entry e ∷ ls)) snap class s h into =
      let (short, bound, first) = first_line e ls snap class s h in
      let later = follow-visits gate inside guarded "PREPARED" s ls first out into in
      unfold visits in ground (arith, later)

beyond_review : String → Bool
unfolding string_in
beyond_review s = string_in s (
    "REVIEWED" ∷ "FIX_AUTHORIZED" ∷ "MUTATED" ∷ "GATED" ∷ "REREVIEWED" ∷ "FINALIZED" ∷ "EXPORTED"
    ∷ [])

beyond_gates : String → Bool
unfolding string_in
beyond_gates s = string_in s ("GATED" ∷ "REREVIEWED" ∷ "FINALIZED" ∷ "EXPORTED" ∷ [])

beyond_rereview : String → Bool
unfolding string_in
beyond_rereview s = string_in s ("REREVIEWED" ∷ "FINALIZED" ∷ "EXPORTED" ∷ [])

abbrev pub states : List String
states =
    "PREPARED" ∷ "CONTRACTED" ∷ "REVIEWING" ∷ "REVIEWED" ∷ "FIX_AUTHORIZED" ∷ "MUTATED" ∷ "GATED"
    ∷ "REREVIEWED" ∷ "FINALIZED" ∷ "BLOCKED" ∷ []

source_known : (s t : String) → allowed_transition s t ≡ true → string_in s states ≡ true
unfolding allowed_transition
source_known s t a = ground arith

-- What holds of each edge of the table holds of each transition that it allows.
pub edges_checked :
    (p : String → String → Bool)
    → all (λ s. all (p s) (next_states s)) states ≡ true
    → (s t : String) → allowed_transition s t ≡ true
    → p s t ≡ true
edges_checked p checked s t a =
    all-string_in (p s) (next_states s) t
      (all-string_in (λ s'. all (p s') (next_states s')) states s checked (source_known s t a))
      (unfold allowed_transition in a)

guards : String → (String → Bool) → String → String → Bool
guards gate inside s t = inside s || (not (inside t) || t == gate)

guards-IsGuarded :
    (gate : String) (inside : String → Bool)
    → all (λ s. all (guards gate inside s) (next_states s)) states ≡ true
    → IsGuarded gate inside
unfolding guards
guards-IsGuarded gate inside checked s t a out into =
    let passed = edges_checked (guards gate inside) checked s t a in
    ground (arith, passed, eq_iff t gate)

review-IsGuarded : IsGuarded "REVIEWED" beyond_review
unfolding guards beyond_review next_states
review-IsGuarded = guards-IsGuarded "REVIEWED" beyond_review refl

gates-IsGuarded : IsGuarded "GATED" beyond_gates
unfolding guards beyond_gates next_states
gates-IsGuarded = guards-IsGuarded "GATED" beyond_gates refl

rereview-IsGuarded : IsGuarded "REREVIEWED" beyond_rereview
unfolding guards beyond_rereview next_states
rereview-IsGuarded = guards-IsGuarded "REREVIEWED" beyond_rereview refl

abbrev pub is_finished : String → Bool
is_finished s = s == "FINALIZED" || s == "EXPORTED"

finished_beyond :
    (s : String)
    → is_finished s ≡ true
    → (beyond_review s ≡ true) × (beyond_gates s ≡ true) × (beyond_rereview s ≡ true)
unfolding beyond_review beyond_gates beyond_rereview
finished_beyond s h = ground arith

-- Whatever events it holds, a journal that is accepted in the state FINALIZED or EXPORTED holds
-- transitions into REVIEWED, GATED and REREVIEWED: no chain of events gets there by another way.
pub finished_journal_route :
    (encoder : Encoder) (journal : Journal) (snapshot_id data_class s : String)
    → run_journal_state encoder journal snapshot_id data_class ≡ ok s
    → is_finished s ≡ true
    → (visits "REVIEWED" (lines journal) ≡ true)
      × (visits "GATED" (lines journal) ≡ true)
      × (visits "REREVIEWED" (lines journal) ≡ true)
unfolding beyond_review beyond_gates beyond_rereview
finished_journal_route encoder journal snap class s h finished =
    let (review, gates, rereview) = finished_beyond s finished in
    (
      run_journal_state-visits encoder "REVIEWED" beyond_review review-IsGuarded refl journal snap
          class s h review,
      run_journal_state-visits encoder "GATED" beyond_gates gates-IsGuarded refl journal snap class
          s h gates,
      run_journal_state-visits encoder "REREVIEWED" beyond_rereview rereview-IsGuarded refl journal
          snap class s h rereview,
    )
