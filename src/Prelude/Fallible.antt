-- ===== src/Prelude/Fallible.antt =====
-- A Go result `(value, error)`: the error is its message, with the values that `%s`, `%q` and `%d`
-- print left out.
use Prim.Native.String.{String}
use mathlib.Core.Path.{◌≡◌, refl}
use mathlib.Core.Logic.{◌⊎◌, inl, inr}
use mathlib.Core.Bool.{Bool, true, false}

pub data Outcome {ℓ} (A : Type ℓ) : Type ℓ where
  ok : A → Outcome A
  err : String → Outcome A

module _ {ℓ κ} {A : Type ℓ} {B : Type κ} where
  -- `value, err := first; if err != nil { return err }`, and what comes behind it.
  infixl 5 ◌>>=◌
  abbrev pub ◌>>=◌ : Outcome A → (A → Outcome B) → Outcome B
  first >>= next = elim first [ err message ↦ err message | ok value ↦ next value ]

  -- What is done came to an end in both parts.
  pub >>=-eq-ok :
      (first : Outcome A) (next : A → Outcome B) {last : B}
      → (first >>= next) ≡ ok last
      → (value : A) × (first ≡ ok value) × (next value ≡ ok last)
  >>=-eq-ok (err message) next done = cc
  >>=-eq-ok (ok value) next done = (value, refl, done)

  -- What fails did so in one of the parts.
  pub >>=-eq-err :
      (first : Outcome A) (next : A → Outcome B) (message : String)
      → (first >>= next) ≡ err message
      → (first ≡ err message) ⊎ ((value : A) × (first ≡ ok value) × (next value ≡ err message))
  >>=-eq-err (err other) next message failed = inl cc
  >>=-eq-err (ok value) next message failed = inr (value, refl, failed)

pub Outcome-cases {ℓ} :
    {A : Type ℓ} (r : Outcome A)
    → ((value : A) × (r ≡ ok value)) ⊎ ((message : String) × (r ≡ err message))
Outcome-cases (ok value) = inl (value, refl)
Outcome-cases (err message) = inr (message, refl)

-- The same where the first part has no value.
infixl 5 ◌>>◌
abbrev pub ◌>>◌ {ℓ} : {B : Type ℓ} → Outcome (Unit {0}) → Outcome B → Outcome B
check >> rest = check >>= λ _. rest

-- `if test { return errors.New(message) }`
abbrev pub refuse_if : Bool → String → Outcome (Unit {0})
refuse_if true message = err message
refuse_if false message = ok tt

pub ok-injective {ℓ} : {A : Type ℓ} {a b : A} → ok a ≡ ok b → a ≡ b
ok-injective h = cc

pub ok≢err {ℓ} : {A : Type ℓ} {a : A} {e : String} → ok a ≡ err e → ⊥
ok≢err h = cc

pub refuse_if-ok :
    (test : Bool) (message : String) (u : Unit {0}) → refuse_if test message ≡ ok u → test ≡ false
refuse_if-ok true message u h = cc
refuse_if-ok false message u h = refl
