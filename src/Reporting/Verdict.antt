-- ===== src/Reporting/Verdict.antt =====
-- internal/reporting/report.go: what a ready verdict promises.
use diffdossier.Prelude.{
  ℕ, String, true, false, not, ◌||◌, none, some, List, [], ◌∷◌, is_empty, any, All, ◌==◌, items,
  sort_by, sort_by-is_empty, Option-cases, Bool-cases, inl, inr, ◌≡◌, refl, sym, subst, ◌∙◌, arith,
  ◌↔◌, All-sort_by, All-unsort,
}
use diffdossier.Findings.{FindingRecord}
use diffdossier.Reporting.{
  Input, Report, GateEvidence, awaits_confirmation, is_open, findings_verdict, fails, verdict,
  unjudged, build,
}

-- A finding that does not stop the merge.
abbrev pub IsSettled : ℕ → FindingRecord → Type 0
IsSettled now f = (awaits_confirmation now f ≡ false) × (is_open f ≡ false)

stops-at :
    (v stop : String) → some v ≡ some stop → (v == "ready") ≡ false → (stop == "ready") ≡ false
stops-at v stop e = subst (λ s. (s == "ready") ≡ false) (cc e)

findings_verdict-stops :
    (now : ℕ) (fs : List FindingRecord) (stop : String)
    → findings_verdict now fs ≡ some stop
    → (stop == "ready") ≡ false
unfolding findings_verdict
findings_verdict-stops now [] stop h = cc
findings_verdict-stops now (f ∷ rest) stop h = elim (Bool-cases (awaits_confirmation now f)) [
  | inl a ↦ stops-at "needs_confirmation" stop (rw a at h) refl
  | inr a ↦ elim (Bool-cases (is_open f)) [
    | inl o ↦ stops-at "not_ready" stop (rw (a, o) at h) refl
    | inr o ↦ findings_verdict-stops now rest stop (rw (a, o) at h)
  ]
]

findings_verdict-none :
    (now : ℕ) (fs : List FindingRecord) → findings_verdict now fs ≡ none → All (IsSettled now) fs
unfolding findings_verdict
findings_verdict-none now [] h = tt
findings_verdict-none now (f ∷ rest) h =
    (ground arith, findings_verdict-none now rest (ground arith))

any-none : (gates : List GateEvidence) → any fails gates ≡ false → All (λ g. fails g ≡ false) gates
any-none [] h = tt
any-none (g ∷ rest) h = (ground arith, any-none rest (ground arith))

All-passing :
    (gates : List GateEvidence) → All (λ g. fails g ≡ false) gates → any fails gates ≡ false
All-passing [] h = refl
All-passing (g ∷ rest) h = ground (arith, h.0, All-passing rest h.1)

findings_verdict-settled :
    (now : ℕ) (fs : List FindingRecord) → All (IsSettled now) fs → findings_verdict now fs ≡ none
unfolding findings_verdict
findings_verdict-settled now [] h = refl
findings_verdict-settled now (f ∷ rest) h =
    ground (arith, h.0, findings_verdict-settled now rest h.1)

-- What a ready report promises of its input.
abbrev pub IsReady : Input → Type 0
IsReady input =
    ((input.reviewability == "reviewable") ≡ true)
    × (input.review_complete ≡ true)
    × (is_empty (items input.evidence_limitations) ≡ true)
    × (is_empty (items input.needs_confirmation) ≡ true)
    × All (IsSettled input.now) (items input.findings.findings)
    × All (λ g. fails g ≡ false) (items input.gates)

verdict-parts :
    (input : Input) (report : Report)
    → (verdict input report == "ready") ≡ true
    → ((input.reviewability == "reviewable") ≡ true)
      × (input.review_complete ≡ true)
      × (is_empty report.evidence_limitations ≡ true)
      × (is_empty report.needs_confirmation ≡ true)
      × (findings_verdict input.now report.findings ≡ none)
      × (any fails report.gates ≡ false)
unfolding verdict
verdict-parts input report h =
    elim (Bool-cases (
      not (input.reviewability == "reviewable")
      || (not input.review_complete || not (is_empty report.evidence_limitations)))) [
        | inl g ↦ absurd (cc (rw (g, verdict) at h))
        | inr g ↦ elim (Bool-cases (not (is_empty report.needs_confirmation))) [
          | inl n ↦ absurd (cc (rw (g, n, verdict) at h))
          | inr n ↦ elim (Option-cases (findings_verdict input.now report.findings)) [
            | inl e ↦ elim (Bool-cases (any fails report.gates)) [
              | inl a ↦ absurd (cc (rw (g, n, e, a, verdict) at h))
              | inr a ↦ ground (arith, g, n, e, a)
            ]
            | inr (stop, e) ↦
                let never = findings_verdict-stops input.now report.findings stop e in
                absurd (cc (never, rw (g, n, e, verdict) at h))
          ]
        ]
      ]

verdict-ready :
    (input : Input) (report : Report)
    → ((input.reviewability == "reviewable") ≡ true)
      × (input.review_complete ≡ true)
      × (is_empty report.evidence_limitations ≡ true)
      × (is_empty report.needs_confirmation ≡ true)
      × (findings_verdict input.now report.findings ≡ none)
      × (any fails report.gates ≡ false)
    → verdict input report ≡ "ready"
unfolding verdict
verdict-ready input report (a, b, c, d, e, f) = ground arith

-- The verdict is `ready` exactly when: the input is reviewable and its review is complete, there is
-- no evidence limitation and no open confirmation, no finding awaits a confirmation and none of
-- critical or high severity is open, and no blocking gate has another status than `pass`.
pub build-IsReady_iff :
    (input : Input) → (((build input).verdict == "ready") ≡ true) ↔ IsReady input
unfolding build unjudged
build-IsReady_iff input = (
  λ h.
      let (a, b, c, d, e, f) = verdict-parts input (unjudged input) h in
      (
        a,
        b,
        sym (sort_by-is_empty (λ s. s) (items input.evidence_limitations)) ∙ c,
        d,
        All-unsort (λ (f : FindingRecord). f.id) (IsSettled input.now)
            (items input.findings.findings)
            (findings_verdict-none input.now
              (sort_by (λ (f : FindingRecord). f.id) (items input.findings.findings)) e),
        All-unsort (λ (g : GateEvidence). g.id) (λ g. fails g ≡ false) (items input.gates)
            (any-none (sort_by (λ (g : GateEvidence). g.id) (items input.gates)) f),
      ),
  λ (a, b, c, d, e, f).
      subst (λ v. (v == "ready") ≡ true)
        (sym (
          verdict-ready input (unjudged input) (
            a,
            b,
            sort_by-is_empty (λ s. s) (items input.evidence_limitations) ∙ c,
            d,
            findings_verdict-settled input.now
                (sort_by (λ (f : FindingRecord). f.id) (items input.findings.findings))
                (All-sort_by (λ (f : FindingRecord). f.id) (IsSettled input.now)
                  (items input.findings.findings) e),
            All-passing (sort_by (λ (g : GateEvidence). g.id) (items input.gates)) (
                All-sort_by (λ (g : GateEvidence). g.id) (λ g. fails g ≡ false) (items input.gates)
                  f),
          )))
        refl,
)
