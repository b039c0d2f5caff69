-- ===== src/Findings/Marks.antt =====
-- internal/workflow/findings.go, AuthorizeFix: what the loops over the IDs do to the records.
use diffdossier.Prelude.{
  ℕ, String, Bool, true, false, Option, some, List, [], ◌∷◌, if◌then◌else◌, Bool-cases, All, ◌==◌,
  eq_iff, ok, err, ◌>>=◌, >>=-eq-ok, ok-injective, string_in, ◌≡◌, refl, sym, ap, subst, ap₂, ◌∙◌,
  inl, inr, arith, ◌⊎◌,
}
use diffdossier.Findings.{FindingRecord, authorized, is_repeat, mark, mark_all, record_ids}

-- The records of two lists, one with one.
abbrev pub Related : {A : Type 0} → (A → A → Type 0) → List A → List A → Type 0
Related R [] [] = Unit
Related R [] (y ∷ ys) = ⊥
Related R (x ∷ xs) [] = ⊥
Related R (x ∷ xs) (y ∷ ys) = R x y × Related R xs ys

module _ (snapshot_id operator : String) (now : ℕ) where
  -- A record that the IDs name was confirmed on the snapshot and is authorized; others stay.
  abbrev pub Fixed : List String → FindingRecord → FindingRecord → Type 0
  Fixed ids r r' =
      ((string_in r.id ids ≡ true)
        × ((r.state == "confirmed") ≡ true)
        × ((r.snapshot_id == snapshot_id) ≡ true)
        × (r' ≡ authorized operator now r))
      ⊎ ((string_in r.id ids ≡ false) × (r' ≡ r))

  -- A record with the ID, where the loop goes on.
  mark-named :
      (id : String) (r : FindingRecord) (rest : List FindingRecord) (p : Bool × List FindingRecord)
      → (r.id == id) ≡ true
      → mark snapshot_id operator now id (r ∷ rest) ≡ ok p
      → (((r.state == "confirmed") ≡ true) × ((r.snapshot_id == snapshot_id) ≡ true))
        × ((mark snapshot_id operator now id rest >>= λ p.
              ok (true, authorized operator now r ∷ p.1))
            ≡ ok p)
  unfolding mark
  mark-named id r rest p e h = ground (arith, e)

  mark-Fixed :
      (id : String) (records : List FindingRecord) (p : Bool × List FindingRecord)
      → mark snapshot_id operator now id records ≡ ok p
      → (p.0 ≡ string_in id (record_ids records)) × Related (Fixed (id ∷ [])) records p.1
  unfolding mark string_in
  mark-Fixed id [] p h =
      subst (λ (p : Bool × List FindingRecord). (p.0 ≡ false) × Related (Fixed (id ∷ [])) [] p.1)
        (ok-injective h) (refl, tt)
  mark-Fixed id (r ∷ rest) p h = elim (Bool-cases (r.id == id)) [
    | inl e ↦
        let (known, t) = mark-named id r rest p e h in
        let (p', u, done) =
          >>=-eq-ok (mark snapshot_id operator now id rest)
            (λ (p : Bool × List FindingRecord). ok (true, authorized operator now r ∷ p.1)) t in
        let (found, related) = mark-Fixed id rest p' u in
        subst
          (λ (p : Bool × List FindingRecord).
            (p.0 ≡ string_in id (record_ids (r ∷ rest))) × Related (Fixed (id ∷ [])) (r ∷ rest) p.1)
          (ok-injective done)
          (
            ground (arith, e, eq_iff r.id id, eq_iff id r.id),
            (inl (ground (arith, e), known.0, known.1, refl), related),
          )
    | inr e ↦
        let (p', t, done) =
          >>=-eq-ok (mark snapshot_id operator now id rest)
            (λ (p : Bool × List FindingRecord). ok (p.0, r ∷ p.1)) (rw e at h) in
        let (found, others) = mark-Fixed id rest p' t in
        subst
          (λ (p : Bool × List FindingRecord).
            (p.0 ≡ string_in id (record_ids (r ∷ rest))) × Related (Fixed (id ∷ [])) (r ∷ rest) p.1)
          (ok-injective done)
          (
            ground (arith, e, found, eq_iff r.id id, eq_iff id r.id),
            (inr (ground (arith, e), refl), others),
          )
  ]

  Fixed-none : (records : List FindingRecord) → Related (Fixed []) records records
  unfolding string_in
  Fixed-none [] = tt
  Fixed-none (r ∷ rest) = (inr (refl, refl), Fixed-none rest)

  Fixed-cons :
      (id : String) (ids : List String) (r r' r'' : FindingRecord)
      → Fixed (id ∷ []) r r'
      → Fixed ids r' r''
      → Fixed (id ∷ ids) r r''
  unfolding string_in authorized
  Fixed-cons id ids r r' r'' (inl (i, c, s, m)) (inl (i', c', s', m')) =
      absurd (cc (subst (λ (x : FindingRecord). (x.state == "confirmed") ≡ true) m c'))
  Fixed-cons id ids r r' r'' (inl (i, c, s, m)) (inr (_, m')) =
      inl (ground (arith, i), c, s, m' ∙ m)
  Fixed-cons id ids r r' r'' (inr (i, m)) (inl (i', c, s, m')) = inl (
    ground (arith, m, i'),
    ground (arith, m, c),
    ground (arith, m, s),
    m' ∙ ap (authorized operator now) m,
  )
  Fixed-cons id ids r r' r'' (inr (i, m)) (inr (i', m')) = inr (ground (arith, i, m, i'), m' ∙ m)

  Related-cons :
      (id : String) (ids : List String) (xs ys zs : List FindingRecord)
      → Related (Fixed (id ∷ [])) xs ys
      → Related (Fixed ids) ys zs
      → Related (Fixed (id ∷ ids)) xs zs
  Related-cons id ids [] [] [] h k = tt
  Related-cons id ids [] [] (z ∷ zs) h k = elim k [ ]
  Related-cons id ids [] (y ∷ ys) zs h k = elim h [ ]
  Related-cons id ids (x ∷ xs) [] zs h k = elim h [ ]
  Related-cons id ids (x ∷ xs) (y ∷ ys) [] h k = elim k [ ]
  Related-cons id ids (x ∷ xs) (y ∷ ys) (z ∷ zs) h k =
      (Fixed-cons id ids x y z h.0 k.0, Related-cons id ids xs ys zs h.1 k.1)

  -- A mark changes no ID.
  Fixed-ids :
      (ids : List String) (xs ys : List FindingRecord)
      → Related (Fixed ids) xs ys
      → record_ids ys ≡ record_ids xs
  unfolding authorized
  Fixed-ids ids [] [] h = refl
  Fixed-ids ids [] (y ∷ ys) h = elim h [ ]
  Fixed-ids ids (x ∷ xs) [] h = elim h [ ]
  Fixed-ids ids (x ∷ xs) (y ∷ ys) (inl (_, _, _, m), rest) =
      ap₂ ◌∷◌ (ap (λ (r : FindingRecord). r.id) m) (Fixed-ids ids xs ys rest)
  Fixed-ids ids (x ∷ xs) (y ∷ ys) (inr (_, m), rest) =
      ap₂ ◌∷◌ (ap (λ (r : FindingRecord). r.id) m) (Fixed-ids ids xs ys rest)

  mark_all-nil :
      (previous : Option String) (records records' : List FindingRecord)
      → mark_all snapshot_id operator now previous [] records ≡ ok records'
      → records ≡ records'
  unfolding mark_all
  mark_all-nil previous records records' h = ok-injective h

  mark_all-cons :
      (previous : Option String) (id : String) (ids : List String)
      (records records' : List FindingRecord)
      → mark_all snapshot_id operator now previous (id ∷ ids) records ≡ ok records'
      → (p : Bool × List FindingRecord) × (mark snapshot_id operator now id records ≡ ok p)
        × (p.0 ≡ true)
        × (mark_all snapshot_id operator now (some id) ids p.1 ≡ ok records')
  unfolding mark_all
  mark_all-cons previous id ids records records' h = elim (Bool-cases (is_repeat previous id)) [
    | inl e ↦ absurd (cc (rw e at h))
    | inr e ↦
        let (p, t, others) =
          >>=-eq-ok (mark snapshot_id operator now id records)
            (λ (p : Bool × List FindingRecord).
              if p.0
              then mark_all snapshot_id operator now (some id) ids p.1
              else err "finding not found")
            (rw e at h) in
        elim (Bool-cases p.0) [
          | inl f ↦ (p, t, f, rw f at others)
          | inr f ↦ absurd (cc (rw f at others))
        ]
  ]

  pub mark_all-Fixed :
      (previous : Option String) (ids : List String) (records records' : List FindingRecord)
      → mark_all snapshot_id operator now previous ids records ≡ ok records'
      → All (λ id. string_in id (record_ids records) ≡ true) ids
        × Related (Fixed ids) records records'
  mark_all-Fixed previous [] records records' h = (
    tt,
    subst (Related (Fixed []) records) (mark_all-nil previous records records' h)
        (Fixed-none records),
  )
  mark_all-Fixed previous (id ∷ ids) records records' h =
      let (p, t, found, others) = mark_all-cons previous id ids records records' h in
      let (known, related) = mark-Fixed id records p t in
      let (all_known, related') = mark_all-Fixed (some id) ids p.1 records' others in
      (
        (
          sym known ∙ found,
          subst (λ known. All (λ id. string_in id known ≡ true) ids)
              (Fixed-ids (id ∷ []) records p.1 related) all_known,
        ),
        Related-cons id ids records p.1 records' related related',
      )
