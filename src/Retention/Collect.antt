-- ===== src/Retention/Collect.antt =====
-- internal/store/retention.go: garbage collection is planned and executed on the whole store.
use diffdossier.Prelude.{
  ℕ, zero, suc, String, Bool, true, false, not, ◌&&◌, ◌||◌, Option, none, some, List, [], ◌∷◌, ◌++◌,
  map, filter, eqb, length, if◌then◌else◌, ◌==◌, Outcome, ok, err, ◌>>=◌, ◌>>◌, refuse_if, sort_by,
  sort_strings, string_in, distinct, get, put, remove,
}
use diffdossier.Digests.{Sha256, tagged, joined}
use diffdossier.Journal.{Encoder}
use diffdossier.Runs.{ArchiveRecord}
use diffdossier.Retention.{
  Dir, missing, unreadable, stored, ArchiveJson, is_digest, valid_id, is_recent,
  public_evidence_protected, read_archive_record, verify_archived_run,
}

pub record GcCandidate : Type 0 where
  pub repository_id : String
  pub run_id : String
  pub archive_digest : String
  pub content_digest : String

pub record GcPlan : Type 0 where
  pub repository_id : String
  pub as_of : ℕ
  pub retention_days : ℕ
  pub candidates : List GcCandidate
  pub blob_digests : List String
  pub plan_digest : String

pub record GcExecution : Type 0 where
  pub plan_digest : String
  pub executed_at : ℕ
  pub removed_runs : ℕ
  pub removed_blobs : ℕ

-- A directory that a plan has moved to the trash.
pub record Trashed : Type 0 where
  pub plan_digest : String
  pub dir : Dir

-- The store: the directories of runs under repositories/, blobs by digest, and the files under gc/
-- by the digest of their plan.
pub record Store : Type 0 where
  pub active : List Dir
  pub trash : List Trashed
  pub blobs : List (String × String)
  pub plans : List (String × GcPlan)
  pub executions : List (String × GcExecution)

-- `repositoryID + "/" + runID`
abbrev pub key_of : Dir → String
key_of dir = joined dir.repository_id (joined "/" dir.name)

abbrev pub candidate_key : GcCandidate → String
candidate_key candidate = joined candidate.repository_id (joined "/" candidate.run_id)

unfoldable pub entry_references : List (String × String) → List String
entry_references [] = []
entry_references ((current, previous) ∷ rest) =
    let others = entry_references rest in
    let behind = if is_digest previous then previous ∷ others else others in
    if is_digest current then current ∷ behind else behind

-- The blobs that retained runs refer to, and those that candidates refer to.
unfoldable pub blob_references : List String → List Dir → Outcome (List String × List String)
blob_references keys [] = ok ([], [])
blob_references keys (dir ∷ rest) = dir.references >>= λ entries.
    blob_references keys rest >>= λ others.
    let found = entry_references entries in
    if string_in (key_of dir) keys
    then ok (others.0, found ++ others.1)
    else ok (found ++ others.0, others.1)

unfoldable pub unretained : List String → List String → List String
unretained retained references =
    sort_strings (filter (λ digest. not (string_in digest retained)) (distinct references))

unfoldable pub find_dir : String → List Dir → Option Dir
find_dir key [] = none
find_dir key (dir ∷ rest) =
    let found = find_dir key rest in if key == key_of dir then some dir else found

unfoldable pub find_trashed : String → String → List Trashed → Option Dir
find_trashed digest key [] = none
find_trashed digest key (t ∷ rest) =
    let found = find_trashed digest key rest in
    if digest == t.plan_digest && key == key_of t.dir then some t.dir else found

unfoldable pub candidate_location : Store → String → GcCandidate → Outcome Dir
candidate_location s digest candidate = elim (find_dir (candidate_key candidate) s.active) [
  | some dir ↦ if dir.is_real then ok dir else err "run path must be a real directory"
  | none ↦ elim (find_trashed digest (candidate_key candidate) s.trash) [
    | none ↦ err "planned archived run is missing"
    | some dir ↦ if dir.is_real then ok dir else err "run path must be a real directory"
  ]
]

unfoldable pub same_strings : List String → List String → Bool
same_strings [] [] = true
same_strings [] (y ∷ ys) = false
same_strings (x ∷ xs) [] = false
same_strings (x ∷ xs) (y ∷ ys) = x == y && same_strings xs ys

-- The answers to the calls of `os.Rename`. The number counts the changes that the file system makes
-- before one fails, as it does after an interruption; and a rename fails onto a directory.
unfoldable pub rename : String → GcCandidate → Dir → ℕ → Store → Option (ℕ × Store)
rename digest candidate dir zero s = none
rename digest candidate dir (suc m) s =
    elim (find_trashed digest (candidate_key candidate) s.trash) [
      | some there ↦ none
      | none ↦ some (
        m,
        record s {
          active = filter (λ d. not (candidate_key candidate == key_of d)) s.active;
          trash = (record { plan_digest = digest; dir = dir }) ∷ s.trash;
        },
      )
    ]

-- Each candidate that is still in its place is moved to the trash of the plan.
unfoldable pub move_runs : String → ℕ → List GcCandidate → Store → Outcome ℕ × Store
move_runs digest n [] s = (ok n, s)
move_runs digest n (candidate ∷ rest) s = elim (find_dir (candidate_key candidate) s.active) [
  | none ↦ move_runs digest n rest s
  | some dir ↦ elim (rename digest candidate dir n s) [
    | none ↦ (err "rename failed", s)
    | some (m, moved) ↦ move_runs digest m rest moved
  ]
]

module _ (sha : Sha256) where
  unfoldable pub remove_blobs : ℕ → List String → Store → Outcome ℕ × Store
  remove_blobs n [] s = (ok n, s)
  remove_blobs n (digest ∷ rest) s =
      if is_digest digest
      then elim (get digest s.blobs) [
        | none ↦ remove_blobs n rest s
        | some content ↦ elim (tagged sha content == digest) [
          | false ↦ (err "planned blob content does not match its digest", s)
          | true ↦ elim n [
            | zero ↦ (err "remove failed", s)
            | suc m ↦ remove_blobs m rest (record s { blobs = remove digest s.blobs })
          ]
        ]
      ]
      else (err "invalid blob digest", s)

module _ (sha : Sha256) (encoder : Encoder) (json : ArchiveJson) (plan_text : GcPlan → String) where
  unfoldable pub is_eligible : ℕ → ℕ → ArchiveRecord → Bool
  is_eligible days as_of r =
      not (r.pinned || (not (r.run_state == "EXPORTED") || is_recent days as_of r.archived_at))

  -- The body of the loop for a directory that has an archive.json; `others` are the candidates
  -- behind it.
  unfoldable pub plan_dir :
      String → ℕ → ℕ → Dir → Outcome (List GcCandidate) → Outcome (List GcCandidate)
  plan_dir repository_id days as_of dir others =
      read_archive_record sha encoder json dir >>= λ (r : ArchiveRecord).
      refuse_if
        (not (r.repository_id == repository_id)
          || (not (r.run_id == dir.name)
              || (not (is_digest r.content_digest) || not (is_digest r.last_event_hash))))
        "archive record identity or digest is invalid"
      >> (if not (is_eligible days as_of r) || public_evidence_protected dir
          then others
          else verify_archived_run sha encoder json dir r
            >> (others >>= λ candidates. ok (
                (record {
                  repository_id = repository_id;
                  run_id = r.run_id;
                  archive_digest = r.record_digest;
                  content_digest = r.content_digest;
                })
                ∷ candidates)))

  -- The loop of `PlanGC` over the directories of the repository.
  unfoldable pub plan_loop : String → ℕ → ℕ → List Dir → Outcome (List GcCandidate)
  plan_loop repository_id days as_of [] = ok []
  plan_loop repository_id days as_of (dir ∷ rest) =
      let others = plan_loop repository_id days as_of rest in
      refuse_if (not dir.is_real) "run path must be a real directory"
      >> (elim dir.archive as (λ x. Outcome (List GcCandidate)) [
        | missing ↦ others
        | unreadable ↦ plan_dir repository_id days as_of dir others
        | stored r ↦ plan_dir repository_id days as_of dir others
      ])

  unfoldable pub plan_seal : GcPlan → String
  plan_seal plan = tagged sha (plan_text (record plan { plan_digest = "" }))

  unfoldable pub runs_of : String → Store → List Dir
  runs_of repository_id s =
      sort_by (λ (d : Dir). d.name) (filter (λ d. d.repository_id == repository_id) s.active)

  unfoldable pub make_plan : String → ℕ → ℕ → Store → Outcome GcPlan
  make_plan repository_id days as_of s =
      plan_loop repository_id days as_of (runs_of repository_id s) >>= λ candidates.
      blob_references (map candidate_key candidates) s.active >>= λ references.
      let draft : GcPlan = record {
        repository_id = repository_id;
        as_of = as_of;
        retention_days = days;
        candidates = candidates;
        blob_digests = unretained references.0 references.1;
        plan_digest = "";
      } in
      ok (record draft { plan_digest = plan_seal draft })

  -- The numbers of days below 1 are one, 0; `replace` is the writing of the plan's file.
  unfoldable pub plan_gc : Bool → Bool → String → ℕ → ℕ → Store → Outcome GcPlan × Store
  plan_gc gc_lock replace repository_id days as_of s =
      if not (valid_id repository_id "repo-" 32)
      then (err "invalid repository ID", s)
      else if eqb days 0 || eqb as_of 0
      then (err "positive retention and exact as-of time are required", s)
      else if not gc_lock
      then (err "lock already held", s)
      else elim (make_plan repository_id days as_of s) [
        | err e ↦ (err e, s)
        | ok plan ↦
            if replace
            then (ok plan, record s { plans = put plan.plan_digest plan s.plans })
            else (err "replace GC plan", s)
      ]

  unfoldable pub check_candidate : Store → GcPlan → GcCandidate → Outcome (Unit {0})
  check_candidate s plan candidate =
      refuse_if
        (not (candidate.repository_id == plan.repository_id)
          || (not (valid_id candidate.repository_id "repo-" 32)
              || (not (valid_id candidate.run_id "run-" 24)
                  || (not (is_digest candidate.archive_digest)
                      || not (is_digest candidate.content_digest)))))
        "GC candidate identity is invalid"
      >> (candidate_location s plan.plan_digest candidate >>= λ (dir : Dir).
          read_archive_record sha encoder json dir >>= λ (r : ArchiveRecord).
          refuse_if
            (not (r.record_digest == candidate.archive_digest)
              || not (r.content_digest == candidate.content_digest))
            "archived run no longer matches GC plan"
          >> (refuse_if (not (is_eligible plan.retention_days plan.as_of r))
                "archived run is no longer eligible for GC"
              >> (refuse_if (public_evidence_protected dir)
                    "archived run contains protected public-export evidence"
                  >> verify_archived_run sha encoder json dir r)))

  unfoldable pub check_candidates : Store → GcPlan → List GcCandidate → Outcome (Unit {0})
  check_candidates s plan [] = ok tt
  check_candidates s plan (candidate ∷ rest) =
      check_candidate s plan candidate >> check_candidates s plan rest

  unfoldable pub snapshot_references : Store → String → List GcCandidate → Outcome (List String)
  snapshot_references s digest [] = ok []
  snapshot_references s digest (candidate ∷ rest) =
      candidate_location s digest candidate >>= λ (dir : Dir). dir.references >>= λ entries.
      snapshot_references s digest rest >>= λ others. ok (entry_references entries ++ others)

  -- What `ExecuteGC` checks of the plan before it moves or removes anything.
  unfoldable pub checked_plan : String → Store → Outcome GcPlan
  checked_plan digest s =
      elim (get digest s.plans) [ none ↦ err "read GC plan" | some plan ↦ ok plan ]
      >>= λ (plan : GcPlan).
          refuse_if (not (plan.plan_digest == digest) || not (plan_seal plan == digest))
            "GC plan integrity check failed"
          >> (refuse_if
                (not (valid_id plan.repository_id "repo-" 32)
                  || (eqb plan.retention_days 0 || eqb plan.as_of 0))
                "GC plan metadata is invalid"
              >> (check_candidates s plan plan.candidates
                  >> (blob_references (map candidate_key plan.candidates) s.active >>= λ references.
                      snapshot_references s digest plan.candidates >>= λ more.
                      refuse_if
                        (not (
                          same_strings (unretained references.0 (references.1 ++ more))
                            plan.blob_digests))
                        "blob reference set changed after GC planning"
                      >> ok plan)))

  unfoldable pub without_trash : String → Store → Store
  without_trash digest s = record s { trash = filter (λ t. not (t.plan_digest == digest)) s.trash }

  -- The record of the execution is written before the trash is emptied.
  unfoldable pub finish : GcPlan → ℕ → ℕ → Store → Outcome GcExecution × Store
  finish plan now zero s = (err "replace GC execution", s)
  finish plan now (suc n) s =
      let execution : GcExecution = record {
        plan_digest = plan.plan_digest;
        executed_at = now;
        removed_runs = length plan.candidates;
        removed_blobs = length plan.blob_digests;
      } in
      let written : Store = record s { executions = put plan.plan_digest execution s.executions } in
      elim n [
        | zero ↦ (err "empty trash", written)
        | suc m ↦ (ok execution, without_trash plan.plan_digest written)
      ]

  unfoldable pub collect : GcPlan → ℕ → ℕ → Store → Outcome GcExecution × Store
  collect plan now n s =
      let (moved, s1) = move_runs plan.plan_digest n plan.candidates s in
      elim moved [
        | err e ↦ (err e, s1)
        | ok m ↦
            let (removed, s2) = remove_blobs sha m plan.blob_digests s1 in
            elim removed [ err e ↦ (err e, s2) | ok k ↦ finish plan now k s2 ]
      ]

  unfoldable pub execute_gc : Bool → ℕ → String → ℕ → Store → Outcome GcExecution × Store
  execute_gc gc_lock n digest now s =
      if not (is_digest digest) || eqb now 0
      then (err "exact GC plan digest and execution time are required", s)
      else if not gc_lock
      then (err "lock already held", s)
      else elim (get digest s.executions) [
        | some completed ↦
            if completed.plan_digest == digest
            then (ok completed, without_trash digest s)
            else (err "GC execution record does not match requested plan", s)
        | none ↦ elim (checked_plan digest s) [
          | err e ↦ (err e, s)
          | ok plan ↦ collect plan now n s
        ]
      ]
