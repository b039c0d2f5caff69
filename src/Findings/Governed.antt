-- ===== src/Findings/Governed.antt =====
-- internal/workflow/findings.go: what every operation keeps of the ledger's records.
use diffdossier.Prelude.{
  ℕ, String, Bool, true, false, not, ◌&&◌, ◌||◌, some, List, [], ◌∷◌, ◌++◌, items, is_nil,
  if◌then◌else◌, IsTrue, Bool-cases, All, All-append, All-sort_by, ◌==◌, ==-excludes, ok, >>=-eq-ok,
  ok-injective, sort_strings, sort_by, ◌≡◌, refl, sym, subst, inl, inr, arith,
}
use diffdossier.Digests.{Sha256}
use diffdossier.Results
use diffdossier.Results.{Result}
use diffdossier.Findings.{
  FindingRecord, FindingLedger, Request, AuthorizationJson, has_expired, moved, transition_record,
  transition_loop, transition_finding, imported, import_loop, import_findings, finding_ledger_id,
  authorized, authorize_fix, record_ids, FixAuthorization, fresh_ledger, opened,
}
use diffdossier.Findings.Ledger.{transition_record-ok}
use diffdossier.Findings.Marks.{Related, Fixed}
use diffdossier.Findings.Authorization.{authorize_fix-Fixed}

-- The conditions that the ledger keeps for a record.
unfoldable pub is_governed : FindingRecord → Bool
is_governed r =
    if r.state == "accepted_risk"
    then not (r.reason == "")
      && (not (r.owner == "")
          && (not (r.review_trigger == "") && not (has_expired r.expires_at r.updated_at)))
    else (not (r.state == "rejected") || not (r.reason == ""))
      && (r.owner == "" && (r.review_trigger == "" && is_nil r.expires_at))

moved-is_governed :
    (q : Request) (r r' : FindingRecord)
    → transition_record q r ≡ ok r'
    → is_governed (moved q r) ≡ true
unfolding transition_record is_governed moved
moved-is_governed q r r' h = elim (Bool-cases (q.next == "accepted_risk")) [
  | inl e ↦
      let excluded = ==-excludes q.next "accepted_risk" "rejected" e refl in
      rw e (ground (arith, e))
  | inr e ↦ rw e (ground (arith, e))
]

abbrev pub AreGoverned : List FindingRecord → Type 0
AreGoverned = All (λ (r : FindingRecord). IsTrue (is_governed r))

-- A move replaces a record by one that is governed.
move-AreGoverned :
    (q : Request) (r : FindingRecord) (before after : List FindingRecord)
    → is_governed (moved q r) ≡ true
    → AreGoverned (before ++ r ∷ after)
    → AreGoverned (before ++ moved q r ∷ after)
move-AreGoverned q r [] after g h = (g, h.1)
move-AreGoverned q r (x ∷ before) after g h = (h.0, move-AreGoverned q r before after g h.1)

transition_loop-AreGoverned :
    (id : String) (q : Request) (records records' : List FindingRecord)
    → transition_loop id q records ≡ ok records'
    → AreGoverned records
    → AreGoverned records'
unfolding transition_loop
transition_loop-AreGoverned id q [] records' h g = cc
transition_loop-AreGoverned id q (r ∷ rest) records' h g = elim (Bool-cases (r.id == id)) [
  | inl e ↦
      let (r', t, done) =
        >>=-eq-ok (transition_record q r) (λ (r' : FindingRecord). ok (r' ∷ rest)) (rw e at h) in
      let (allowed, m) = transition_record-ok q r r' t in
      subst AreGoverned (ok-injective done) (
        subst (λ (x : FindingRecord). IsTrue (is_governed x)) (sym m) (moved-is_governed q r r' t),
        g.1,
      )
  | inr e ↦
      let (rest', t, done) =
        >>=-eq-ok (transition_loop id q rest) (λ (rest' : List FindingRecord). ok (r ∷ rest'))
          (rw e at h) in
      subst AreGoverned (ok-injective done) (g.0, transition_loop-AreGoverned id q rest rest' t g.1)
]

imported-is_governed :
    (sha : Sha256) (result : Result) (finding : Results.Finding) (now : ℕ)
    → (not (finding.state == "reported") && not (finding.state == "needs_confirmation")) ≡ false
    → is_governed (imported sha result finding now) ≡ true
unfolding is_governed imported
imported-is_governed sha result finding now h = ground (
  arith,
  ==-excludes finding.state "reported" "accepted_risk",
  ==-excludes finding.state "reported" "rejected",
  ==-excludes finding.state "needs_confirmation" "accepted_risk",
  ==-excludes finding.state "needs_confirmation" "rejected",
)

import_loop-AreGoverned :
    (sha : Sha256) (result : Result) (now : ℕ) (seen : List String) (records : List FindingRecord)
    (findings : List Results.Finding) (records' : List FindingRecord)
    → import_loop sha result now seen records findings ≡ ok records'
    → AreGoverned records
    → AreGoverned records'
unfolding import_loop
import_loop-AreGoverned sha result now seen records [] records' h g =
    subst AreGoverned (ok-injective h) g
import_loop-AreGoverned sha result now seen records (finding ∷ rest) records' h g =
    import_loop-AreGoverned sha result now (finding_ledger_id sha result finding.id ∷ seen)
      (records ++ imported sha result finding now ∷ []) rest records' (ground arith)
      (All-append (λ (r : FindingRecord). IsTrue (is_governed r)) records
        (imported sha result finding now ∷ []) g
        (imported-is_governed sha result finding now (ground arith), tt))

authorized-is_governed :
    (operator : String) (now : ℕ) (r : FindingRecord)
    → (r.state == "confirmed") ≡ true
    → is_governed r ≡ true
    → is_governed (authorized operator now r) ≡ true
unfolding is_governed authorized
authorized-is_governed operator now r c g =
    ground (arith, ==-excludes r.state "confirmed" "accepted_risk" c refl)

Fixed-AreGoverned :
    (snapshot_id operator : String) (now : ℕ) (ids : List String) (xs ys : List FindingRecord)
    → Related (Fixed snapshot_id operator now ids) xs ys
    → AreGoverned xs
    → AreGoverned ys
Fixed-AreGoverned snapshot_id operator now ids [] [] h g = tt
Fixed-AreGoverned snapshot_id operator now ids [] (y ∷ ys) h g = elim h [ ]
Fixed-AreGoverned snapshot_id operator now ids (x ∷ xs) [] h g = elim h [ ]
Fixed-AreGoverned snapshot_id operator now ids (x ∷ xs) (y ∷ ys) (inl (_, c, _, m), rest) g = (
  subst (λ (r : FindingRecord). IsTrue (is_governed r)) (sym m)
      (authorized-is_governed operator now x c g.0),
  Fixed-AreGoverned snapshot_id operator now ids xs ys rest g.1,
)
Fixed-AreGoverned snapshot_id operator now ids (x ∷ xs) (y ∷ ys) (inr (_, m), rest) g = (
  subst (λ (r : FindingRecord). IsTrue (is_governed r)) (sym m) g.0,
  Fixed-AreGoverned snapshot_id operator now ids xs ys rest g.1,
)

module _ (sha : Sha256) (json : AuthorizationJson) where
  -- The operations of the ledger, where they succeed.
  pub data Step : FindingLedger → FindingLedger → Type 0 where
    imports :
        {ledger ledger' : FindingLedger} (result : Result) (now : ℕ)
        → import_findings sha ledger result now ≡ ok ledger'
        → Step ledger ledger'
    moves :
        {ledger ledger' : FindingLedger} (id : String) (q : Request)
        → transition_finding ledger id q ≡ ok ledger'
        → Step ledger ledger'
    authorizes :
        {ledger ledger' : FindingLedger} (snapshot_id : String) (ids : List String)
        (operator scope_digest : String) (now expires_at : ℕ) (a : FixAuthorization)
        → authorize_fix sha json ledger snapshot_id ids operator scope_digest now expires_at
          ≡ ok (a, ledger')
        → Step ledger ledger'

  -- The ledgers that the operations make of the empty one.
  pub data IsReachable : FindingLedger → Type 0 where
    start : IsReachable fresh_ledger
    next :
        {ledger ledger' : FindingLedger}
        → IsReachable ledger
        → Step ledger ledger'
        → IsReachable ledger'

  opened-AreGoverned :
      (ledger : FindingLedger)
      → AreGoverned (items ledger.findings)
      → AreGoverned (items (opened ledger).findings)
  opened-AreGoverned ledger g = elim (Bool-cases (ledger.schema_version == "")) [
    | inl e ↦ rw e tt
    | inr e ↦ rw e g
  ]

  import_findings-AreGoverned :
      (ledger ledger' : FindingLedger) (result : Result) (now : ℕ)
      → import_findings sha ledger result now ≡ ok ledger'
      → AreGoverned (items ledger.findings)
      → AreGoverned (items ledger'.findings)
  unfolding import_findings
  import_findings-AreGoverned ledger ledger' result now h g =
      let base = opened ledger in
      let records = items base.findings in
      elim (Bool-cases (not (base.schema_version == "1.0") || is_nil base.findings)) [
        | inl e ↦ absurd (cc (rw e at h))
        | inr e ↦
            let (records', t, done) =
              >>=-eq-ok
                (import_loop sha result now (record_ids records) records (items result.findings))
                (λ (records' : List FindingRecord). ok (record base {
                  findings = some (sort_by (λ (r : FindingRecord). r.id) records');
                }))
                (rw e at h) in
            subst (λ (l : FindingLedger). AreGoverned (items l.findings)) (ok-injective done)
              (All-sort_by (λ (r : FindingRecord). r.id)
                (λ (r : FindingRecord). IsTrue (is_governed r)) records'
                (import_loop-AreGoverned sha result now (record_ids records) records
                  (items result.findings) records' t (opened-AreGoverned ledger g)))
      ]

  transition_finding-AreGoverned :
      (ledger ledger' : FindingLedger) (id : String) (q : Request)
      → transition_finding ledger id q ≡ ok ledger'
      → AreGoverned (items ledger.findings)
      → AreGoverned (items ledger'.findings)
  unfolding transition_finding
  transition_finding-AreGoverned ledger ledger' id q h g = elim (Bool-cases (q.operator == "")) [
    | inl e ↦ absurd (cc (rw e at h))
    | inr e ↦
        let (records, t, done) =
          >>=-eq-ok (transition_loop id q (items ledger.findings))
            (λ (records : List FindingRecord). ok (record ledger { findings = some records }))
            (rw e at h) in
        subst (λ (l : FindingLedger). AreGoverned (items l.findings)) (ok-injective done)
          (transition_loop-AreGoverned id q (items ledger.findings) records t g)
  ]

  Step-AreGoverned :
      (ledger ledger' : FindingLedger)
      → Step ledger ledger'
      → AreGoverned (items ledger.findings)
      → AreGoverned (items ledger'.findings)
  Step-AreGoverned ledger ledger' (imports result now h) g =
      import_findings-AreGoverned ledger ledger' result now h g
  Step-AreGoverned ledger ledger' (moves id q h) g =
      transition_finding-AreGoverned ledger ledger' id q h g
  Step-AreGoverned ledger ledger'
        (authorizes snapshot_id ids operator scope_digest now expires_at a h) g =
      Fixed-AreGoverned snapshot_id operator now (sort_strings ids) (items ledger.findings)
        (items ledger'.findings)
        (authorize_fix-Fixed sha json ledger snapshot_id ids operator scope_digest now expires_at a
          ledger' h).1
        g

  -- In every ledger that imports, transitions and authorizations make of the empty one: an
  -- accepted risk has a reason, an owner, a review trigger and an expiry after its last update; no
  -- other record has an owner, a trigger or an expiry; and a rejected one has a reason.
  pub IsReachable-AreGoverned :
      (ledger : FindingLedger) → IsReachable ledger → AreGoverned (items ledger.findings)
  IsReachable-AreGoverned ledger start = tt
  IsReachable-AreGoverned ledger (next {ledger = before} r s) =
      Step-AreGoverned before ledger s (IsReachable-AreGoverned before r)
