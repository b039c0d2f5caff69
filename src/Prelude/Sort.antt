-- ===== src/Prelude/Sort.antt =====
-- `sort.Slice` and `sort.Strings`: an ascending rearrangement of the slice. Items with equal keys
-- keep their order here; Go leaves that order open, and no theorem depends on it.
use Prim.Native.String.{String}
use mathlib.Core.Path.{◌≡◌, refl}
use mathlib.Core.Logic.{inl, inr}
use mathlib.Core.Bool.{true, false}
use mathlib.Core.List.{List, [], ◌∷◌, Perm}
use mathlib.Core.List.Perm
use diffdossier.Prelude.Tests.{if◌then◌else◌, Bool-cases, All, is_empty}
use diffdossier.Prelude.Strings.{str_leb, str_leb_total, str_leb_trans, distinct}

module _ {ℓ} {A : Type ℓ} (key : A → String) where
  unfoldable pub insert_by : A → List A → List A
  insert_by x [] = x ∷ []
  insert_by x (y ∷ ys) =
      let rest = insert_by x ys in if str_leb (key x) (key y) then x ∷ y ∷ ys else y ∷ rest

  unfoldable pub sort_by : List A → List A
  unfolding insert_by
  sort_by [] = []
  sort_by (x ∷ xs) = insert_by x (sort_by xs)

  -- Every item comes before those behind it.
  abbrev pub IsSorted : List A → Type 0
  IsSorted [] = Unit
  IsSorted (x ∷ xs) = All (λ y. str_leb (key x) (key y) ≡ true) xs × IsSorted xs

  pub insert_by-perm : (x : A) (ys : List A) → Perm (insert_by x ys) (x ∷ ys)
  unfolding insert_by
  insert_by-perm x [] = Perm.refl _
  insert_by-perm x (y ∷ ys) = elim (Bool-cases (str_leb (key x) (key y))) [
    | inl p ↦ rw p (Perm.refl _)
    | inr p ↦ rw p (Perm.trans (Perm.cons y (insert_by-perm x ys)) (Perm.swap x y ys))
  ]

  pub sort_by-perm : (xs : List A) → Perm (sort_by xs) xs
  unfolding sort_by
  sort_by-perm [] = Perm.refl _
  sort_by-perm (x ∷ xs) = Perm.trans (insert_by-perm x (sort_by xs)) (Perm.cons x (sort_by-perm xs))

  insert_by-is_empty : (x : A) (ys : List A) → is_empty (insert_by x ys) ≡ false
  unfolding insert_by
  insert_by-is_empty x [] = refl
  insert_by-is_empty x (y ∷ ys) = elim (Bool-cases (str_leb (key x) (key y))) [
    | inl p ↦ rw p refl
    | inr p ↦ rw p refl
  ]

  pub sort_by-is_empty : (xs : List A) → is_empty (sort_by xs) ≡ is_empty xs
  unfolding sort_by
  sort_by-is_empty [] = refl
  sort_by-is_empty (x ∷ xs) = insert_by-is_empty x (sort_by xs)

  -- A property of all items survives the insertion.
  pub All-insert_by {κ} :
      (P : A → Type κ) (x : A) (ys : List A) → P x → All P ys → All P (insert_by x ys)
  unfolding insert_by
  All-insert_by P x [] px h = (px, tt)
  All-insert_by P x (y ∷ ys) px h = elim (Bool-cases (str_leb (key x) (key y))) [
    | inl p ↦ rw p (px, h)
    | inr p ↦ rw p (h.0, All-insert_by P x ys px h.1)
  ]

  All-uninsert {κ} :
      (P : A → Type κ) (x : A) (ys : List A) → All P (insert_by x ys) → P x × All P ys
  unfolding insert_by
  All-uninsert P x [] h = h
  All-uninsert P x (y ∷ ys) h = elim (Bool-cases (str_leb (key x) (key y))) [
    | inl p ↦ rw p at h
    | inr p ↦
        let (py, others) : P y × All P (insert_by x ys) = rw p at h in
        let (px, rest) = All-uninsert P x ys others in (px, (py, rest))
  ]

  pub All-sort_by {κ} : (P : A → Type κ) (xs : List A) → All P xs → All P (sort_by xs)
  unfolding sort_by
  All-sort_by P [] h = tt
  All-sort_by P (x ∷ xs) h = All-insert_by P x (sort_by xs) h.0 (All-sort_by P xs h.1)

  pub All-unsort {κ} : (P : A → Type κ) (xs : List A) → All P (sort_by xs) → All P xs
  unfolding sort_by
  All-unsort P [] h = tt
  All-unsort P (x ∷ xs) h =
      let (px, others) = All-uninsert P x (sort_by xs) h in (px, All-unsort P xs others)

  -- What is below `y` is below all that `y` is below.
  All-below :
      (a b : String) (xs : List A)
      → str_leb a b ≡ true
      → All (λ y. str_leb b (key y) ≡ true) xs
      → All (λ y. str_leb a (key y) ≡ true) xs
  All-below a b [] p h = tt
  All-below a b (x ∷ xs) p h = (str_leb_trans a b (key x) p h.0, All-below a b xs p h.1)

  insert_by-IsSorted : (x : A) (ys : List A) → IsSorted ys → IsSorted (insert_by x ys)
  unfolding insert_by
  insert_by-IsSorted x [] h = (tt, tt)
  insert_by-IsSorted x (y ∷ ys) h = elim (Bool-cases (str_leb (key x) (key y))) [
    | inl p ↦ rw p ((p, All-below (key x) (key y) ys p h.0), h)
    | inr p ↦ rw p (
      All-insert_by (λ z. str_leb (key y) (key z) ≡ true) x ys (str_leb_total (key x) (key y) p)
          h.0,
      insert_by-IsSorted x ys h.1,
    )
  ]

  pub sort_by-IsSorted : (xs : List A) → IsSorted (sort_by xs)
  unfolding sort_by
  sort_by-IsSorted [] = tt
  sort_by-IsSorted (x ∷ xs) = insert_by-IsSorted x (sort_by xs) (sort_by-IsSorted xs)

-- `sort.Strings`
abbrev pub sort_strings : List String → List String
sort_strings = sort_by (λ s. s)

-- `unique` and `uniqueSorted`
abbrev pub unique_sorted : List String → List String
unique_sorted values = sort_strings (distinct values)
