-- ===== src/Journal/Chain.antt =====
-- `VerifyEventChain` of internal/store/store.go: what a verified journal is, that `AppendEvent`
-- keeps it so, and that its last hash determines it.
use diffdossier.Prelude.{
  ℕ, ◌+◌, ◌^◌, ◌<◌, String, ◌≡◌, refl, sym, ap, subst, ap₂, ◌∙◌, false, none, some, List, [], ◌∷◌,
  ◌++◌, arith, length, eq_iff, ok, ok-injective, ◌⊎◌,
}
use diffdossier.Journal.{
  Event, Canonical, Encoder, Payload, Line, entry, garbage, Journal, u64, canonical, too_long,
  verify_lines, verify_event_chain, last_from, last_event, next_event, lines, zero_event,
}

module _ (encoder : Encoder) where
  -- What the loop found of an event that it passed.
  pub record IsLinked (sequence : ℕ) (previous : String) (e : Event) : Type 0 where
    pub short : too_long encoder e ≡ false
    pub next : e.sequence ≡ u64 (sequence + 1)
    pub linked : e.previous_hash ≡ previous
    pub hashed : e.event_hash ≡ encoder.digest (canonical e)

  pub verify_lines-cons :
      (s : ℕ) (p : String) (e : Event) (rest : List Line)
      → verify_lines encoder s p (entry e ∷ rest) ≡ ok tt
      → IsLinked s p e × (verify_lines encoder e.sequence e.event_hash rest ≡ ok tt)
  unfolding verify_lines
  verify_lines-cons s p e rest h =
      ground (arith, eq_iff e.previous_hash p, eq_iff e.event_hash (encoder.digest (canonical e)))

  pub verify_lines-cons_ok :
      (s : ℕ) (p : String) (e : Event) (rest : List Line)
      → IsLinked s p e
      → verify_lines encoder s p (entry e ∷ rest)
        ≡ verify_lines encoder e.sequence e.event_hash rest
  unfolding verify_lines
  verify_lines-cons_ok s p e rest h =
      ground (arith, eq_iff e.previous_hash p, eq_iff e.event_hash (encoder.digest (canonical e)))

  next_event-IsLinked :
      (last : Event) (type : String) (payload : Payload) (now : ℕ)
      → too_long encoder (next_event encoder last type payload now) ≡ false
      → IsLinked last.sequence last.event_hash (next_event encoder last type payload now)
  unfolding next_event
  next_event-IsLinked last type payload now short = record {
    short = short;
    next = refl;
    linked = refl;
    hashed = refl;
  }

  verify_lines-append :
      (start last e : Event) (ls : List Line)
      → verify_lines encoder start.sequence start.event_hash ls ≡ ok tt
      → last_from encoder start ls ≡ ok last
      → IsLinked last.sequence last.event_hash e
      → verify_lines encoder start.sequence start.event_hash (ls ++ entry e ∷ []) ≡ ok tt
  unfolding last_from
  verify_lines-append start last e [] v l k =
      subst (λ (x : Event). verify_lines encoder x.sequence x.event_hash (entry e ∷ []) ≡ ok tt)
        (sym (ok-injective l))
        (verify_lines-cons_ok last.sequence last.event_hash e [] k ∙ unfold verify_lines in refl)
  verify_lines-append start last e (garbage ∷ ls) v l k = ground arith
  verify_lines-append start last e (entry f ∷ ls) v l k =
      let (linked, others) = verify_lines-cons start.sequence start.event_hash f ls v in
      let short = linked.short in
      verify_lines-cons_ok start.sequence start.event_hash f (ls ++ entry e ∷ []) linked
      ∙ verify_lines-append f last e ls others (ground arith) k

  -- An event that `AppendEvent` builds behind the last event of a verified journal, or as the
  -- first of a journal that is not there, leaves a verified journal, if its line is short enough.
  pub verify_event_chain-append :
      (journal : Journal) (last : Event) (type : String) (payload : Payload) (now : ℕ)
      → (journal ≡ none) ⊎ (verify_event_chain encoder journal ≡ ok tt)
      → last_event encoder journal ≡ ok last
      → too_long encoder (next_event encoder last type payload now) ≡ false
      → verify_event_chain encoder
          (some (lines journal ++ entry (next_event encoder last type payload now) ∷ []))
        ≡ ok tt
  unfolding verify_event_chain last_event
  verify_event_chain-append none last type payload now v l short =
      verify_lines-append zero_event last (next_event encoder last type payload now) []
        (unfold verify_lines in refl) (unfold last_from in l)
        (next_event-IsLinked last type payload now short)
  verify_event_chain-append (some []) last type payload now v l short = ground arith
  verify_event_chain-append (some (x ∷ ls)) last type payload now v l short =
      verify_lines-append zero_event last (next_event encoder last type payload now) (x ∷ ls)
        (ground arith) l (next_event-IsLinked last type payload now short)

  -- In a verified journal the last sequence number counts the events.
  last_from-sequence :
      (start last : Event) (ls : List Line)
      → verify_lines encoder start.sequence start.event_hash ls ≡ ok tt
      → last_from encoder start ls ≡ ok last
      → start.sequence + length ls < 2 ^ 64
      → last.sequence ≡ start.sequence + length ls
  unfolding last_from
  last_from-sequence start last [] v l bound =
      omega (arith, ap (λ (e : Event). e.sequence) (ok-injective l))
  last_from-sequence start last (garbage ∷ ls) v l bound = unfold verify_lines in ground arith
  last_from-sequence start last (entry f ∷ ls) v l bound =
      let (linked, others) = verify_lines-cons start.sequence start.event_hash f ls v in
      let short = linked.short in
      let next = linked.next in
      omega (arith, last_from-sequence f last ls others (ground arith) (omega arith))

  abbrev IsHashed : Event → Type 0
  IsHashed e = e.event_hash ≡ encoder.digest (canonical e)

  last_from-IsHashed :
      (start last : Event) (ls : List Line)
      → IsHashed start
      → verify_lines encoder start.sequence start.event_hash ls ≡ ok tt
      → last_from encoder start ls ≡ ok last
      → IsHashed last
  unfolding last_from
  last_from-IsHashed start last [] h v l = subst IsHashed (ok-injective l) h
  last_from-IsHashed start last (garbage ∷ ls) h v l = unfold verify_lines in ground arith
  last_from-IsHashed start last (entry f ∷ ls) h v l =
      let (linked, others) = verify_lines-cons start.sequence start.event_hash f ls v in
      let short = linked.short in last_from-IsHashed f last ls linked.hashed others (ground arith)

  abbrev pub IsInjective : Type 0
  IsInjective = (a b : Canonical) → encoder.digest a ≡ encoder.digest b → a ≡ b

  -- An event is its canonical part and its hash.
  event-eq : (e f : Event) → canonical e ≡ canonical f → e.event_hash ≡ f.event_hash → e ≡ f
  event-eq e f c h = λ i. record {
    sequence = (c i).sequence;
    type = (c i).type;
    recorded_at = (c i).recorded_at;
    payload = (c i).payload;
    previous_hash = (c i).previous_hash;
    event_hash = h i;
  }

  -- Two verified stretches of the same length that end in the same hash are the same.
  verified_stretches_agree :
      IsInjective
      → (start start' last last' : Event) (ls ms : List Line)
      → verify_lines encoder start.sequence start.event_hash ls ≡ ok tt
      → verify_lines encoder start'.sequence start'.event_hash ms ≡ ok tt
      → last_from encoder start ls ≡ ok last
      → last_from encoder start' ms ≡ ok last'
      → length ls ≡ length ms
      → last.event_hash ≡ last'.event_hash
      → (start.event_hash ≡ start'.event_hash) × (ls ≡ ms)
  unfolding last_from
  verified_stretches_agree inj start start' last last' [] [] v v' l l' n h = (
    ap (λ (e : Event). e.event_hash) (ok-injective l)
        ∙ h
        ∙ sym (ap (λ (e : Event). e.event_hash) (ok-injective l')),
    refl,
  )
  verified_stretches_agree inj start start' last last' [] (m ∷ ms) v v' l l' n h =
      absurd (omega arith)
  verified_stretches_agree inj start start' last last' (l₀ ∷ ls) [] v v' l l' n h =
      absurd (omega arith)
  verified_stretches_agree inj start start' last last' (garbage ∷ ls) (m ∷ ms) v v' l l' n h = cc
  verified_stretches_agree inj start start' last last' (entry e ∷ ls) (garbage ∷ ms) v v' l l' n h =
      cc
  verified_stretches_agree inj start start' last last' (entry e ∷ ls) (entry f ∷ ms) v v' l l' n h =
      let (linked, others) = verify_lines-cons start.sequence start.event_hash e ls v in
      let (linked', others') = verify_lines-cons start'.sequence start'.event_hash f ms v' in
      let short = linked.short in
      let short' = linked'.short in
      let (hashes, rest) =
        verified_stretches_agree inj e f last last' ls ms others others' (ground arith)
          (ground arith) (omega arith) h in
      let same = inj (canonical e) (canonical f) (sym linked.hashed ∙ hashes ∙ linked'.hashed) in
      (
        sym linked.linked ∙ ap (λ (c : Canonical). c.previous_hash) same ∙ linked'.linked,
        ap₂ ◌∷◌ (ap entry (event-eq e f same hashes)) rest,
      )

  last_event-cons :
      (x : Line) (ls : List Line) (last : Event)
      → verify_event_chain encoder (some (x ∷ ls)) ≡ ok tt
      → last_event encoder (some (x ∷ ls)) ≡ ok last
      → IsHashed last
  unfolding verify_event_chain last_event last_from
  last_event-cons garbage ls last v l = cc
  last_event-cons (entry e) ls last v l =
      let (linked, others) = verify_lines-cons 0 "" e ls v in
      let short = linked.short in last_from-IsHashed e last ls linked.hashed others (ground arith)

  -- Two journals that verify, of fewer than 2^64 events each, and that end in the same hash are
  -- the same journal, if the digest of events has no collisions.
  pub verified_journals_agree :
      IsInjective
      → (j k : Journal) (last last' : Event) → verify_event_chain encoder j ≡ ok tt
      → verify_event_chain encoder k ≡ ok tt
      → last_event encoder j ≡ ok last
      → last_event encoder k ≡ ok last'
      → last.event_hash ≡ last'.event_hash
      → length (lines j) < 2 ^ 64
      → length (lines k) < 2 ^ 64
      → j ≡ k
  unfolding verify_event_chain last_event
  verified_journals_agree inj none k last last' v v' l l' h n n' = cc
  verified_journals_agree inj (some []) k last last' v v' l l' h n n' = cc
  verified_journals_agree inj (some (x ∷ ls)) none last last' v v' l l' h n n' = cc
  verified_journals_agree inj (some (x ∷ ls)) (some []) last last' v v' l l' h n n' = cc
  verified_journals_agree inj (some (x ∷ ls)) (some (y ∷ ms)) last last' v v' l l' h n n' =
      let same =
        inj (canonical last) (canonical last')
          (sym (last_event-cons x ls last v l) ∙ h ∙ last_event-cons y ms last' v' l') in
      let numbers = ap (λ (c : Canonical). c.sequence) same in
      ap some
        (verified_stretches_agree inj zero_event zero_event last last' (x ∷ ls) (y ∷ ms) v v' l l'
          (omega (
            arith,
            numbers,
            last_from-sequence zero_event last (x ∷ ls) v l (omega arith),
            last_from-sequence zero_event last' (y ∷ ms) v' l' (omega arith),
          ))
          h).1
