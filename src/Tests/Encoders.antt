-- ===== src/Tests/Encoders.antt =====
-- Concrete digests and texts without collisions, for tests.
use Prim.Native.String.{len}
use diffdossier.Prelude.{ℕ, ◌+◌, String, List, Bool, true, false, ◌≡◌, refl, ap}
use diffdossier.Tests.Codes.{
  Code, IsCode, number, number-IsCode, text, text-IsCode, list, list-IsCode, pair, pair-IsCode,
}
use diffdossier.Journal.{Payload, strings, archived, other, Canonical, Encoder}
use diffdossier.Digests.{Sha256, IsCollisionFree}
use diffdossier.Findings.{FixAuthorization, AuthorizationJson}

abbrev fields : Code (List (String × String))
fields =
    list (pair text text-IsCode text text-IsCode) (pair-IsCode text text-IsCode text text-IsCode)

fields-IsCode : IsCode fields
fields-IsCode = list-IsCode _ (pair-IsCode text text-IsCode text text-IsCode)

abbrev bit : Bool → ℕ
bit true = 1
bit false = 0

bit-injective : (a b : Bool) → bit a ≡ bit b → a ≡ b
bit-injective true true h = refl
bit-injective false false h = refl
bit-injective true false h = cc
bit-injective false true h = cc

unfoldable payload : Code Payload
payload (strings fs) s = number 0 (fields fs s)
payload (archived pinned reason state) s =
    number 1 (number (bit pinned) (text reason (text state s)))
payload (other t) s = number 2 (text t s)

payload-IsCode : IsCode payload
unfolding payload
payload-IsCode (strings fs) (strings gs) s t h =
    let (_, e) = number-IsCode 0 0 _ _ h in
    let (f, g) = fields-IsCode fs gs s t e in (ap strings f, g)
payload-IsCode (archived p r x) (archived q r' x') s t h =
    let (_, e) = number-IsCode 1 1 _ _ h in
    let (f, g) = number-IsCode (bit p) (bit q) _ _ e in
    let (k, l) = text-IsCode r r' _ _ g in
    let (m, n) = text-IsCode x x' s t l in (cc (bit-injective p q f, k, m), n)
payload-IsCode (other a) (other b) s t h =
    let (_, e) = number-IsCode 2 2 _ _ h in let (f, g) = text-IsCode a b s t e in (ap other f, g)
payload-IsCode (strings fs) (archived q r' x') s t h = cc (number-IsCode 0 1 _ _ h).0
payload-IsCode (strings fs) (other b) s t h = cc (number-IsCode 0 2 _ _ h).0
payload-IsCode (archived p r x) (strings gs) s t h = cc (number-IsCode 1 0 _ _ h).0
payload-IsCode (archived p r x) (other b) s t h = cc (number-IsCode 1 2 _ _ h).0
payload-IsCode (other a) (strings gs) s t h = cc (number-IsCode 2 0 _ _ h).0
payload-IsCode (other a) (archived q r' x') s t h = cc (number-IsCode 2 1 _ _ h).0

unfoldable pub digest : Canonical → String
unfolding payload
digest c =
    number c.sequence
      (text c.type (number c.recorded_at (payload c.payload (text c.previous_hash ""))))

-- The line of an event grows with its type.
abbrev pub encoder : Encoder
encoder = record { digest = digest; line_bytes = λ e. 100 + len e.type }

pub digest-injective : (a b : Canonical) → digest a ≡ digest b → a ≡ b
unfolding digest
digest-injective a b h =
    let (e₁, h₁) = number-IsCode a.sequence b.sequence _ _ h in
    let (e₂, h₂) = text-IsCode a.type b.type _ _ h₁ in
    let (e₃, h₃) = number-IsCode a.recorded_at b.recorded_at _ _ h₂ in
    let (e₄, h₄) = payload-IsCode a.payload b.payload _ _ h₃ in
    let (e₅, h₅) = text-IsCode a.previous_hash b.previous_hash "" "" h₄ in cc

-- The text itself for its digest.
abbrev pub sha : Sha256
sha = record { hex = λ s. s }

pub sha-IsCollisionFree : IsCollisionFree sha
sha-IsCollisionFree a b h = h

unfoldable pub encode : FixAuthorization → String
encode a = text a.schema_version (
    text a.snapshot_id (
      list text text-IsCode a.finding_ids (
        text a.scope_digest (
          text a.authorized_by (number a.authorized_at (number a.expires_at (text a.digest "")))))))

abbrev pub json : AuthorizationJson
json = record { encode = encode }

pub encode-injective : (a b : FixAuthorization) → encode a ≡ encode b → a ≡ b
unfolding encode
encode-injective a b h =
    let (e₁, h₁) = text-IsCode a.schema_version b.schema_version _ _ h in
    let (e₂, h₂) = text-IsCode a.snapshot_id b.snapshot_id _ _ h₁ in
    let (e₃, h₃) = list-IsCode text text-IsCode a.finding_ids b.finding_ids _ _ h₂ in
    let (e₄, h₄) = text-IsCode a.scope_digest b.scope_digest _ _ h₃ in
    let (e₅, h₅) = text-IsCode a.authorized_by b.authorized_by _ _ h₄ in
    let (e₆, h₆) = number-IsCode a.authorized_at b.authorized_at _ _ h₅ in
    let (e₇, h₇) = number-IsCode a.expires_at b.expires_at _ _ h₆ in
    let (e₈, h₈) = text-IsCode a.digest b.digest "" "" h₇ in cc
