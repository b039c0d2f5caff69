-- ===== src/Findings/Authorization.antt =====
-- internal/workflow/findings.go, AuthorizeFix: which records an authorization marks.
use diffdossier.Prelude.{
  ℕ, String, true, false, not, ◌||◌, none, some, List, items, ltb, if◌then◌else◌, Bool-cases, All,
  ◌==◌, eq_iff, eq_refl, ok, err, is_empty, >>=-eq-ok, ok-injective, string_in, sort_strings,
  sort_by-is_empty, ◌≡◌, sym, ap, subst, ◌∙◌, inl, inr, arith,
}
use diffdossier.Digests.{Sha256, IsCollisionFree, tagged-injective}
use diffdossier.Findings.{
  FindingRecord, FindingLedger, FixAuthorization, AuthorizationJson, mark_all, authorize_fix,
  verify_fix_authorization, authorization_digest, record_ids, sealed,
}
use diffdossier.Findings.Marks.{Related, Fixed, mark_all-Fixed}

module _ (sha : Sha256) (json : AuthorizationJson) where
  authorize_fix-parts :
      (ledger : FindingLedger) (snapshot_id : String) (ids : List String)
      (operator scope_digest : String) (now expires_at : ℕ) (a : FixAuthorization)
      (ledger' : FindingLedger)
      → authorize_fix sha json ledger snapshot_id ids operator scope_digest now expires_at
        ≡ ok (a, ledger')
      → (records : List FindingRecord) × ((snapshot_id == "")
            || ((operator == "") || ((scope_digest == "") || is_empty ids))
          ≡ false)
        × (mark_all snapshot_id operator now none (sort_strings ids) (items ledger.findings)
            ≡ ok records)
        × (ledger' ≡ record ledger { findings = some records })
        × (a
            ≡ sealed sha json (record {
              schema_version = "1.0";
              snapshot_id = snapshot_id;
              finding_ids = sort_strings ids;
              scope_digest = scope_digest;
              authorized_by = operator;
              authorized_at = now;
              expires_at = expires_at;
              digest = "";
            }))
  unfolding authorize_fix
  authorize_fix-parts ledger snapshot_id ids operator scope_digest now expires_at a ledger' h =
      elim (Bool-cases (
        snapshot_id == ""
        || (operator == ""
            || (scope_digest == "" || (is_empty ids || not (ltb now expires_at)))))) [
              | inl e ↦ absurd (cc (rw e at h))
              | inr e ↦
                  let (records, t, done) =
                    >>=-eq-ok
                      (mark_all snapshot_id operator now none (sort_strings ids)
                        (items ledger.findings))
                      (λ (records : List FindingRecord). ok (
                        sealed sha json (record {
                          schema_version = "1.0";
                          snapshot_id = snapshot_id;
                          finding_ids = sort_strings ids;
                          scope_digest = scope_digest;
                          authorized_by = operator;
                          authorized_at = now;
                          expires_at = expires_at;
                          digest = "";
                        }),
                        record ledger { findings = some records },
                      ))
                      (rw e at h) in
                  (
                    records,
                    ground (arith, e),
                    t,
                    sym (ap (λ (p : FixAuthorization × FindingLedger). p.1) (ok-injective done)),
                    sym (ap (λ (p : FixAuthorization × FindingLedger). p.0) (ok-injective done)),
                  )
            ]

  -- What an authorization marks: the ledger holds each ID, every record with one was confirmed on
  -- the snapshot and is now authorized by the operator, and every other record is as it was.
  pub authorize_fix-Fixed :
      (ledger : FindingLedger) (snapshot_id : String) (ids : List String)
      (operator scope_digest : String) (now expires_at : ℕ) (a : FixAuthorization)
      (ledger' : FindingLedger)
      → authorize_fix sha json ledger snapshot_id ids operator scope_digest now expires_at
        ≡ ok (a, ledger')
      → All (λ id. string_in id (record_ids (items ledger.findings)) ≡ true) (sort_strings ids)
        × Related
            (Fixed snapshot_id operator now (sort_strings ids))
            (items ledger.findings)
            (items ledger'.findings)
  authorize_fix-Fixed ledger snapshot_id ids operator scope_digest now expires_at a ledger' h =
      let (records, _, t, m, _) =
        authorize_fix-parts ledger snapshot_id ids operator scope_digest now expires_at a ledger'
          h in
      let (known, related) =
        mark_all-Fixed snapshot_id operator now none (sort_strings ids) (items ledger.findings)
          records t in
      (
        known,
        subst
            (λ (l : FindingLedger).
              Related (Fixed snapshot_id operator now (sort_strings ids)) (items ledger.findings)
                (items l.findings))
            (sym m) related,
      )

  -- An authorization verifies until its expiry and never from then on.
  pub authorize_fix-verify :
      (ledger : FindingLedger) (snapshot_id : String) (ids : List String)
      (operator scope_digest : String) (now expires_at : ℕ) (a : FixAuthorization)
      (ledger' : FindingLedger) (later : ℕ)
      → authorize_fix sha json ledger snapshot_id ids operator scope_digest now expires_at
        ≡ ok (a, ledger')
      → verify_fix_authorization sha json a later
        ≡ (if ltb later expires_at then ok tt else err "fix authorization is invalid or expired")
  unfolding verify_fix_authorization sealed authorization_digest
  authorize_fix-verify ledger snapshot_id ids operator scope_digest now expires_at a ledger' later
        h =
      let (records, given, t, m, same) =
        authorize_fix-parts ledger snapshot_id ids operator scope_digest now expires_at a ledger'
          h in
      let full = sort_by-is_empty (λ s. s) ids in
      subst
        (λ (a : FixAuthorization).
          verify_fix_authorization sha json a later
          ≡ (if ltb later expires_at then ok tt else err "fix authorization is invalid or expired"))
        (sym same)
        (ground (
          arith,
          given,
          full,
          eq_refl (
              authorization_digest sha json (record {
                schema_version = "1.0";
                snapshot_id = snapshot_id;
                finding_ids = sort_strings ids;
                scope_digest = scope_digest;
                authorized_by = operator;
                authorized_at = now;
                expires_at = expires_at;
                digest = "";
              })),
        ))

  verified-digest :
      (a : FixAuthorization) (now : ℕ)
      → verify_fix_authorization sha json a now ≡ ok tt
      → a.digest ≡ authorization_digest sha json a
  unfolding verify_fix_authorization
  verified-digest a now v = ground (arith, eq_iff a.digest (authorization_digest sha json a))

  -- Two authorizations that verify and have the same digest are the same authorization, where
  -- SHA-256 has no collision and no two authorizations have the same JSON text.
  pub same_digest-same_authorization :
      (a b : FixAuthorization) (now later : ℕ)
      → IsCollisionFree sha
      → ((x y : FixAuthorization) → json.encode x ≡ json.encode y → x ≡ y)
      → verify_fix_authorization sha json a now ≡ ok tt
      → verify_fix_authorization sha json b later ≡ ok tt
      → a.digest ≡ b.digest
      → a ≡ b
  unfolding verify_fix_authorization authorization_digest
  same_digest-same_authorization a b now later free injective va vb same =
      let encoded =
        tagged-injective sha (json.encode (record a { digest = "" }))
          (json.encode (record b { digest = "" })) free
          (sym (verified-digest a now va) ∙ same ∙ verified-digest b later vb) in
      let bare = injective (record a { digest = "" }) (record b { digest = "" }) encoded in
      ap (λ (x : FixAuthorization). record x { digest = a.digest }) bare
      ∙ ap (λ d. record b { digest = d }) same
