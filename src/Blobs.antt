-- ===== src/Blobs.antt =====
-- internal/store/store.go: the blobs of a store, by their digest.
use Prim.Native.String.{len, slice, ◌++◌}
use text.Mathlib.Text.{starts_with}
use text.Mathlib.TextEquality.{starts_with_iff}
use text.Mathlib.TextPositions.{len-append, slice-append_right}
use diffdossier.Prelude.{
  ◌+◌, String, Bool, true, not, ◌||◌, none, some, List, eqb, if◌then◌else◌, ◌==◌, eq_iff, Outcome,
  ok, err, ok-injective, Bool-cases, Option-cases, inl, inr, get, put, get-put, get-put-other, ◌≡◌,
  ◌≢◌, refl, sym, ap, subst, ◌∙◌, arith,
}
use diffdossier.Digests.{Sha256, tagged, IsCollisionFree, tagged-injective}
use diffdossier.Results.Validate.{valid_digest}

-- What stands at the path of a blob: a regular file with its content, or something else.
pub data BlobFile : Type 0 where
  regular : String → BlobFile
  irregular : BlobFile

abbrev pub Blobs : Type 0
Blobs = List (String × BlobFile)

module _ (sha : Sha256) where
  -- `replace` is the writing of the file.
  unfoldable pub write_blob : Bool → String → String → Blobs → Outcome (Unit {0}) × Blobs
  write_blob replace digest content blobs =
      if not (eqb (len digest) (len "sha256:" + 64)) || not (starts_with digest "sha256:")
      then (err "invalid blob digest", blobs)
      else if not (sha.hex content == slice digest (len "sha256:") (len digest))
      then (err "blob content does not match digest", blobs)
      else elim (get digest blobs) [
        | some file ↦ (ok tt, blobs)
        | none ↦
            if replace
            then (ok tt, put digest (regular content) blobs)
            else (err "replace blob", blobs)
      ]

  unfoldable pub read_blob : String → Blobs → Outcome String
  read_blob digest blobs =
      if not (valid_digest digest "sha256:")
      then err "invalid blob digest"
      else elim (get digest blobs) [
        | none ↦ err "blob is not there"
        | some irregular ↦ err "blob is not a regular file"
        | some (regular content) ↦
            if tagged sha content == digest
            then ok content
            else err "blob content does not match digest"
      ]

  -- A digest that passes the first two tests is the digest of the content.
  tagged-slice :
      (digest content : String)
      → starts_with digest "sha256:" ≡ true
      → (sha.hex content == slice digest (len "sha256:") (len digest)) ≡ true
      → tagged sha content ≡ digest
  unfolding tagged
  tagged-slice digest content p h =
      let (rest, e) = (starts_with_iff digest "sha256:").0 p in
      let same : slice digest (len "sha256:") (len digest) ≡ rest =
        subst (λ d. slice d (len "sha256:") (len d) ≡ rest) e
          (subst (λ n. slice ("sha256:" ++ rest) (len "sha256:") n ≡ rest)
            (sym (len-append "sha256:" rest)) (slice-append_right "sha256:" rest)) in
      ap (λ t. "sha256:" ++ t)
        ((eq_iff (sha.hex content) (slice digest (len "sha256:") (len digest))).0 h ∙ same)
      ∙ e

  read_blob-ok :
      (digest found : String) (blobs : Blobs)
      → read_blob digest blobs ≡ ok found
      → tagged sha found ≡ digest
  unfolding read_blob
  read_blob-ok digest found blobs h = elim (Bool-cases (valid_digest digest "sha256:")) [
    | inr v ↦ absurd (cc (rw (v, read_blob) at h))
    | inl v ↦ elim (Option-cases (get digest blobs)) [
      | inl g ↦ absurd (cc (rw (v, g, read_blob) at h))
      | inr (irregular, g) ↦ absurd (cc (rw (v, g, read_blob) at h))
      | inr (regular content, g) ↦ elim (Bool-cases (tagged sha content == digest)) [
        | inr t ↦ absurd (cc (rw (v, g, t, read_blob) at h))
        | inl t ↦
            let same : content ≡ found = ok-injective (rw (v, g, t, read_blob) at h) in
            subst (λ c. tagged sha c ≡ digest) same ((eq_iff (tagged sha content) digest).0 t)
      ]
    ]
  ]

  read_blob-put :
      (digest content : String) (blobs : Blobs)
      → valid_digest digest "sha256:" ≡ true
      → tagged sha content ≡ digest
      → read_blob digest (put digest (regular content) blobs) ≡ ok content
  unfolding read_blob
  read_blob-put digest content blobs v t =
      rw (v, get-put digest (regular content) blobs, (eq_iff (tagged sha content) digest).1 t) refl

  -- A blob that was written and was not there before is read back. Whatever a later reading under
  -- the digest returns is that content, if digests do not collide; and no blob that was there is
  -- changed.
  pub read_blob-write_blob :
      IsCollisionFree sha
      → (replace : Bool) (digest content : String) (blobs after : Blobs)
      → valid_digest digest "sha256:" ≡ true
      → write_blob replace digest content blobs ≡ (ok tt, after)
      → (get digest blobs ≡ none → read_blob digest after ≡ ok content)
        × ((found : String) → read_blob digest after ≡ ok found → found ≡ content)
        × ((other : String) → get other blobs ≢ none → get other after ≡ get other blobs)
  unfolding write_blob
  read_blob-write_blob free replace digest content blobs after v h =
      let shape =
        not (eqb (len digest) (len "sha256:" + 64)) || not (starts_with digest "sha256:") in
      elim (Bool-cases shape) [
        | inl a ↦ absurd (cc (rw (a, write_blob) at h))
        | inr a ↦ elim (Bool-cases (sha.hex content == slice digest (len "sha256:") (len digest))) [
          | inr b ↦ absurd (cc (rw (a, b, write_blob) at h))
          | inl b ↦
              let named = tagged-slice digest content (ground arith) b in
              let agrees = λ (found : String) (r : read_blob digest after ≡ ok found).
                tagged-injective sha found content free
                  (read_blob-ok digest found after r ∙ sym named) in
              elim (Option-cases (get digest blobs)) [
                | inr (file, g) ↦
                    let same : blobs ≡ after =
                      ap (λ (t : Outcome (Unit {0}) × Blobs). t.1)
                        (rw (a, b, g, write_blob) at h) in
                    (
                      λ missing. absurd (cc (missing, g)),
                      agrees,
                      λ other present. ap (get other) (sym same),
                    )
                | inl g ↦ elim (Bool-cases replace) [
                  | inr r ↦ absurd (cc (rw (a, b, g, r, write_blob) at h))
                  | inl r ↦
                      let same : put digest (regular content) blobs ≡ after =
                        ap (λ (t : Outcome (Unit {0}) × Blobs). t.1)
                          (rw (a, b, g, r, write_blob) at h) in
                      (
                        λ missing.
                            subst (λ t. read_blob digest t ≡ ok content) same
                              (read_blob-put digest content blobs v named),
                        agrees,
                        λ other present. elim (Bool-cases (other == digest)) [
                          | inl e ↦ absurd (
                              present (
                                subst (λ k. get k blobs ≡ none) (sym ((eq_iff other digest).0 e))
                                  g))
                          | inr e ↦
                              subst (λ t. get other t ≡ get other blobs) same
                                (get-put-other other digest (regular content) blobs e)
                        ],
                      )
                ]
              ]
        ]
      ]
