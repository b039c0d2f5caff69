-- ===== src/Digests.antt =====
-- SHA-256 in hexadecimal, which the program takes from Go's library: a parameter of the model.
use Prim.Native.String.{slice, ◌++◌}
use text.Mathlib.TextLemmas.{append_cancel_left}
use diffdossier.Prelude.{ℕ, ◌*◌, String, ◌≡◌}

pub record Sha256 : Type 0 where
  pub hex : String → String

module _ (sha : Sha256) where
  -- `"sha256:" + hex.EncodeToString(digest[:])`
  unfoldable pub tagged : String → String
  tagged text = "sha256:" ++ sha.hex text

  -- `prefix + hex.EncodeToString(digest[:n])`
  unfoldable pub short_id : String → ℕ → String → String
  short_id prefix n text = prefix ++ slice (sha.hex text) 0 (2 * n)

-- Two texts with the same digest are the same text: the collision resistance that digests stand on.
abbrev pub IsCollisionFree : Sha256 → Type 0
IsCollisionFree sha = (a b : String) → sha.hex a ≡ sha.hex b → a ≡ b

module _ (sha : Sha256) where
  pub tagged-injective : (a b : String) → IsCollisionFree sha → tagged sha a ≡ tagged sha b → a ≡ b
  unfolding tagged
  tagged-injective a b free h = free a b (append_cancel_left "sha256:" (sha.hex a) (sha.hex b) h)

-- `a + "\x00" + b`
infixr 66 ◌⋄◌
unfoldable pub ◌⋄◌ : String → String → String
a ⋄ b = a ++ ("\0" ++ b)

-- `a + b`
abbrev pub joined : String → String → String
joined a b = a ++ b
