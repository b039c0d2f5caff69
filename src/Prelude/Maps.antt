-- ===== src/Prelude/Maps.antt =====
-- A Go map with text keys, as an association list in which `put` keeps each key once.
use Prim.Native.String.{String}
use mathlib.Core.Path.{◌≡◌, refl, sym, subst}
use mathlib.Core.Logic.{inl, inr}
use mathlib.Core.Bool.{Bool, false, not, ◌||◌}
use mathlib.Core.List.{List, [], ◌∷◌, map}
use mathlib.Core.Option.{Option, none, some}
use native.Mathlib.Omega.{arith}
use text.Mathlib.Text.{◌==◌}
use text.Mathlib.TextEquality.{eq_iff}
use text.Mathlib.TextPositions.{eq_refl}
use diffdossier.Prelude.Tests.{if◌then◌else◌, is_nil, Bool-cases, All}
use diffdossier.Prelude.Strings.{string_in}

module _ {ℓ} {A : Type ℓ} where
  unfoldable pub get : String → List (String × A) → Option A
  get key [] = none
  get key (entry ∷ rest) =
      let found = get key rest in if key == entry.0 then some entry.1 else found

  -- `m[key] = value`
  unfoldable pub put : String → A → List (String × A) → List (String × A)
  put key value [] = (key, value) ∷ []
  put key value (entry ∷ rest) =
      let others = put key value rest in
      if key == entry.0 then (key, value) ∷ rest else entry ∷ others

  unfoldable pub has_key : String → List (String × A) → Bool
  has_key key m = not (is_nil (get key m))

  abbrev pub keys : List (String × A) → List String
  keys m = map (λ entry. entry.0) m

  pub get-put :
      (key : String) (value : A) (m : List (String × A)) → get key (put key value m) ≡ some value
  unfolding get put
  get-put key value [] = ground (arith, eq_refl key)
  get-put key value (entry ∷ rest) = ground (arith, eq_refl key, get-put key value rest)

  pub get-put-other :
      (key other : String) (value : A) (m : List (String × A))
      → (key == other) ≡ false
      → get key (put other value m) ≡ get key m
  unfolding get put
  get-put-other key other value [] h = ground (arith, eq_iff key other)
  get-put-other key other value (entry ∷ rest) h = ground (
    arith,
    eq_iff key other,
    eq_iff other entry.0,
    eq_iff key entry.0,
    get-put-other key other value rest h,
  )

  pub has_key-in : (key : String) (m : List (String × A)) → string_in key (keys m) ≡ has_key key m
  unfolding get has_key string_in
  has_key-in key [] = refl
  has_key-in key (entry ∷ rest) = ground (arith, has_key-in key rest)

  pub has_key-put :
      (key other : String) (value : A) (m : List (String × A))
      → has_key key (put other value m) ≡ (key == other || has_key key m)
  unfolding has_key
  has_key-put key other value m = elim (Bool-cases (key == other)) [
    | inl e ↦ ground (
      arith,
      subst (λ k. get k (put other value m) ≡ some value) (sym ((eq_iff key other).0 e))
          (get-put other value m),
    )
    | inr e ↦ ground (arith, get-put-other key other value m e)
  ]

  pub All-put {κ} :
      (P : String × A → Type κ) (key : String) (value : A) (m : List (String × A))
      → P (key, value)
      → All P m
      → All P (put key value m)
  unfolding put
  All-put P key value [] p h = (p, tt)
  All-put P key value (entry ∷ rest) p h = elim (Bool-cases (key == entry.0)) [
    | inl e ↦ rw e (p, h.1)
    | inr e ↦ rw e (h.0, All-put P key value rest p h.1)
  ]

  pub All-get {κ} :
      (P : String × A → Type κ) (key : String) (value : A) (m : List (String × A))
      → All P m
      → get key m ≡ some value
      → P (key, value)
  unfolding get
  All-get P key value [] h e = cc
  All-get P key value (entry ∷ rest) h e = elim (Bool-cases (key == entry.0)) [
    | inl f ↦
        let same : entry.1 ≡ value = cc (rw (f, get) at e) in
        subst (λ t. P (t, value)) (sym ((eq_iff key entry.0).0 f))
          (subst (λ t. P (entry.0, t)) same h.0)
    | inr f ↦ All-get P key value rest h.1 (ground arith)
  ]

  -- `delete(m, key)`
  unfoldable pub remove : String → List (String × A) → List (String × A)
  remove key [] = []
  remove key (entry ∷ rest) =
      let others = remove key rest in if key == entry.0 then others else entry ∷ others

  pub get-remove-other :
      (key other : String) (m : List (String × A))
      → (key == other) ≡ false
      → get key (remove other m) ≡ get key m
  unfolding get remove
  get-remove-other key other [] h = refl
  get-remove-other key other (entry ∷ rest) h = ground (
    arith,
    eq_iff key other,
    eq_iff other entry.0,
    eq_iff key entry.0,
    get-remove-other key other rest h,
  )
