-- ===== src/Tests/BlobFiles.antt =====
-- A witness on a blob that is written and read.
use diffdossier.Prelude.{String, true, none, [], ◌∷◌, ok, get, put, ◌≡◌, ◌≢◌, refl}
use diffdossier.Results.Validate.{valid_digest}
use diffdossier.Tests.Encoders.{sha, sha-IsCollisionFree}
use diffdossier.Blobs.{BlobFile, regular, Blobs, write_blob, read_blob, read_blob-write_blob}

abbrev pub content : String
content = "0000000000000000000000000000000000000000000000000000000000000000"

abbrev pub name : String
name = "sha256:0000000000000000000000000000000000000000000000000000000000000000"

abbrev pub written : Blobs
written = (name, regular content) ∷ []

name-valid : valid_digest name "sha256:" ≡ true
unfolding valid_digest
name-valid = refl

content-written : write_blob sha true name content [] ≡ (ok tt, written)
unfolding write_blob get put
content-written = refl

read_blob-write_blob_example :
    (get {A = BlobFile} name [] ≡ none → read_blob sha name written ≡ ok content)
    × ((found : String) → read_blob sha name written ≡ ok found → found ≡ content)
    × ((other : String) → get {A = BlobFile} other [] ≢ none → get other written ≡ get other [])
read_blob-write_blob_example =
    read_blob-write_blob sha sha-IsCollisionFree true name content [] written name-valid
      content-written
