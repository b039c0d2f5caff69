-- ===== src/Retention/Moved.antt =====
-- internal/store/retention.go: what the moving of runs and the removal of blobs leave as it is.
use mathlib.Core.Option.{some-injective}
use diffdossier.Prelude.{
  ℕ, zero, suc, String, true, false, not, List, [], ◌∷◌, filter, ◌==◌, eq_iff, Bool-cases,
  Option-cases, inl, inr, string_in, All, get, remove, get-remove-other, ◌≡◌, refl, sym, ap, some,
  subst, ◌∙◌, arith,
}
use diffdossier.Digests.{Sha256, tagged}
use diffdossier.Retention.{Dir, is_digest}
use diffdossier.Retention.Collect.{
  GcCandidate, Store, key_of, candidate_key, find_dir, find_trashed, rename, move_runs,
  remove_blobs,
}

-- The directories of the store that no key of the list names.
abbrev pub retained_dirs : List String → Store → List Dir
retained_dirs keys s = filter (λ (d : Dir). not (string_in (key_of d) keys)) s.active

filter-retained :
    (keys : List String) (key : String) (dirs : List Dir)
    → string_in key keys ≡ true
    → filter
        (λ (d : Dir). not (string_in (key_of d) keys))
        (filter (λ d. not (key == key_of d)) dirs)
      ≡ filter (λ d. not (string_in (key_of d) keys)) dirs
filter-retained keys key [] h = refl
filter-retained keys key (d ∷ dirs) h =
    let named = λ (e : key ≡ key_of d). subst (λ k. string_in k keys ≡ true) e h in
    ground (arith, filter-retained keys key dirs h, named, eq_iff key (key_of d))

-- A rename that succeeds takes the candidate's directory out of its place, and changes nothing but
-- that and the trash.
rename-moves :
    (digest : String) (c : GcCandidate) (dir : Dir) (n m : ℕ) (s moved : Store)
    → rename digest c dir n s ≡ some (m, moved)
    → (moved.active ≡ filter (λ d. not (candidate_key c == key_of d)) s.active)
      × (moved.blobs ≡ s.blobs)
      × (moved.executions ≡ s.executions)
unfolding rename
rename-moves digest c dir zero m s moved h = cc
rename-moves digest c dir (suc k) m s moved h =
    elim (Option-cases (find_trashed digest (candidate_key c) s.trash)) [
      | inr (there, e) ↦ absurd (cc (rw (e, rename) at h))
      | inl e ↦
          let same = some-injective _ _ (rw (e, rename) at h) in
          (
            sym (ap (λ (t : ℕ × Store). t.1.active) same),
            sym (ap (λ (t : ℕ × Store). t.1.blobs) same),
            sym (ap (λ (t : ℕ × Store). t.1.executions) same),
          )
    ]

pub move_runs-retained :
    (keys : List String) (digest : String) (n : ℕ) (candidates : List GcCandidate) (s : Store)
    → All (λ c. string_in (candidate_key c) keys ≡ true) candidates
    → let s' = (move_runs digest n candidates s).1 in
      (retained_dirs keys s' ≡ retained_dirs keys s)
      × ((s'.blobs ≡ s.blobs) × (s'.executions ≡ s.executions))
unfolding move_runs
move_runs-retained keys digest n [] s h = (refl, (refl, refl))
move_runs-retained keys digest n (c ∷ rest) s h =
    elim (Option-cases (find_dir (candidate_key c) s.active)) [
      | inl e ↦ rw (e, move_runs) (move_runs-retained keys digest n rest s h.1)
      | inr (dir, e) ↦ elim (Option-cases (rename digest c dir n s)) [
        | inl r ↦ rw (e, r, move_runs) (refl, (refl, refl))
        | inr ((m, moved), r) ↦
            let (active, blobs, executions) = rename-moves digest c dir n m s moved r in
            let (a, (b, x)) = move_runs-retained keys digest m rest moved h.1 in
            let kept = λ (dirs : List Dir). filter (λ d. not (string_in (key_of d) keys)) dirs in
            rw (e, r, move_runs)
              (
                a ∙ ap kept active ∙ filter-retained keys (candidate_key c) s.active h.0,
                (b ∙ blobs, x ∙ executions),
              )
      ]
    ]

-- The store is left as it is but for blobs of the list.
abbrev pub Leaves : List String → Store → Store → Type 0
Leaves digests s s' =
    (s'.active ≡ s.active)
    × ((s'.executions ≡ s.executions)
        × ((x : String) → string_in x digests ≡ false → get x s'.blobs ≡ get x s.blobs))

Leaves-same : (digests : List String) (s : Store) → Leaves digests s s
Leaves-same digests s = (refl, (refl, λ x h. refl))

Leaves-weaken :
    (digest : String) (digests : List String) (s s' : Store)
    → Leaves digests s s'
    → Leaves (digest ∷ digests) s s'
unfolding string_in
Leaves-weaken digest digests s s' (a, (e, b)) = (a, (e, λ x h. b x (ground arith)))

abbrev without_blob : String → Store → Store
without_blob digest s = record s { blobs = remove digest s.blobs }

Leaves-remove :
    (digest : String) (digests : List String) (s s' : Store)
    → Leaves digests (without_blob digest s) s'
    → Leaves (digest ∷ digests) s s'
unfolding string_in
Leaves-remove digest digests s s' (a, (e, b)) =
    (a, (e, λ x h. b x (ground arith) ∙ get-remove-other x digest s.blobs (ground arith)))

module _ (sha : Sha256) where
  pub remove_blobs-Leaves :
      (n : ℕ) (digests : List String) (s : Store)
      → Leaves digests s (remove_blobs sha n digests s).1
  unfolding remove_blobs
  remove_blobs-Leaves n [] s = Leaves-same [] s
  remove_blobs-Leaves n (digest ∷ rest) s =
      let same = Leaves-same (digest ∷ rest) s in
      elim (Bool-cases (is_digest digest)) [
        | inr d ↦ rw (d, remove_blobs) same
        | inl d ↦ elim (Option-cases (get digest s.blobs)) [
          | inl g ↦
              rw (d, g, remove_blobs)
                (Leaves-weaken digest rest s (remove_blobs sha n rest s).1
                  (remove_blobs-Leaves n rest s))
          | inr (content, g) ↦ elim (Bool-cases (tagged sha content == digest)) [
            | inr c ↦ rw (d, g, c, remove_blobs) same
            | inl c ↦
                elim n as (λ k. Leaves (digest ∷ rest) s (remove_blobs sha k (digest ∷ rest) s).1) [
                  | zero ↦ rw (d, g, c, remove_blobs) same
                  | suc m ↦
                      let next = without_blob digest s in
                      rw (d, g, c, remove_blobs)
                        (Leaves-remove digest rest s (remove_blobs sha m rest next).1
                          (remove_blobs-Leaves m rest next))
                ]
          ]
        ]
      ]
