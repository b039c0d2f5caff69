-- ===== src/Findings/Ledger.antt =====
-- internal/workflow/findings.go, TransitionFinding: a transition and the record it is about.
use diffdossier.Prelude.{
  String, true, false, some, List, [], ◌∷◌, ◌++◌, items, Bool-cases, ◌==◌, eq_iff, ok, >>=-eq-ok,
  ok-injective, string_in, ◌≡◌, refl, sym, ap, subst, ◌∙◌, inl, inr, arith,
}
use diffdossier.Findings.{
  FindingRecord, FindingLedger, Request, allowed_finding_transition, moved, transition_record,
  transition_loop, transition_finding, record_ids,
}

-- The first record with the ID makes a transition that the table allows; all else stays.
abbrev pub IsMove : String → Request → List FindingRecord → List FindingRecord → Type 0
IsMove id q records records' =
    (before : List FindingRecord) × (r : FindingRecord) × (after : List FindingRecord) × (records
      ≡ before ++ r ∷ after)
    × (string_in id (record_ids before) ≡ false)
    × (r.id ≡ id)
    × (allowed_finding_transition r.state q.next ≡ true)
    × (records' ≡ before ++ moved q r ∷ after)

pub transition_record-ok :
    (q : Request) (r r' : FindingRecord)
    → transition_record q r ≡ ok r'
    → (allowed_finding_transition r.state q.next ≡ true) × (r' ≡ moved q r)
unfolding transition_record
transition_record-ok q r r' h = ground arith

pub transition_loop-IsMove :
    (id : String) (q : Request) (records records' : List FindingRecord)
    → transition_loop id q records ≡ ok records'
    → IsMove id q records records'
unfolding transition_loop string_in
transition_loop-IsMove id q [] records' h = cc
transition_loop-IsMove id q (r ∷ rest) records' h = elim (Bool-cases (r.id == id)) [
  | inl e ↦
      let (r', t, done) =
        >>=-eq-ok (transition_record q r) (λ (r' : FindingRecord). ok (r' ∷ rest)) (rw e at h) in
      let (allowed, m) = transition_record-ok q r r' t in
      (
        [],
        r,
        rest,
        refl,
        refl,
        (eq_iff r.id id).0 e,
        allowed,
        sym (ok-injective done) ∙ ap (λ (x : FindingRecord). x ∷ rest) m,
      )
  | inr e ↦
      let (rest', t, done) =
        >>=-eq-ok (transition_loop id q rest) (λ (rest' : List FindingRecord). ok (r ∷ rest'))
          (rw e at h) in
      let (before, r', after, split, fresh, named, allowed, m) =
        transition_loop-IsMove id q rest rest' t in
      (
        r ∷ before,
        r',
        after,
        ap (λ tail. r ∷ tail) split,
        ground (arith, e, fresh, eq_iff r.id id, eq_iff id r.id),
        named,
        allowed,
        sym (ok-injective done) ∙ ap (λ tail. r ∷ tail) m,
      )
]

-- A transition that succeeds names an operator, moves the first record with the ID along an edge
-- of the table, and leaves every other record as it was.
pub transition_finding-IsMove :
    (ledger ledger' : FindingLedger) (id : String) (q : Request)
    → transition_finding ledger id q ≡ ok ledger'
    → ((q.operator == "") ≡ false) × IsMove id q (items ledger.findings) (items ledger'.findings)
unfolding transition_finding
transition_finding-IsMove ledger ledger' id q h = elim (Bool-cases (q.operator == "")) [
  | inl e ↦ absurd (cc (rw e at h))
  | inr e ↦
      let (records, t, done) =
        >>=-eq-ok (transition_loop id q (items ledger.findings))
          (λ (records : List FindingRecord). ok (record ledger { findings = some records }))
          (rw e at h) in
      subst
        (λ (l : FindingLedger).
          ((q.operator == "") ≡ false) × IsMove id q (items ledger.findings) (items l.findings))
        (ok-injective done) (e, transition_loop-IsMove id q (items ledger.findings) records t)
]
