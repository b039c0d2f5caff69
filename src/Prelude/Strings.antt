-- ===== src/Prelude/Strings.antt =====
-- Go strings: equality is that of the text library, and `<` is the bytewise order, which on UTF-8
-- is the order of the code points.
use Prim.Native.Char.{code}
use Prim.Native.Nat.{ℕ, suc, ◌≤◌, ◌<◌}
use Prim.Native.String.{String}
use mathlib.Core.Path.{◌≡◌, refl, sym, subst, ap₂}
use mathlib.Core.Logic.{◌≢◌, inl, inr}
use mathlib.Core.Bool.{Bool, true, false, ◌||◌}
use mathlib.Core.List.{List, [], ◌∷◌, ◌++◌}
use native.Mathlib.Omega.{arith}
use text.Mathlib.Text.{◌==◌}
use text.Mathlib.TextEquality.{eq_iff, Char-path}
use text.Mathlib.TextPositions.{eq_refl}
use diffdossier.Prelude.Tests.{ltb, if◌then◌else◌, Bool-cases, all, All, length}

unfoldable pub str_leb : String → String → Bool
str_leb String.[] t = true
str_leb (String.◌∷◌ c s) String.[] = false
str_leb (String.◌∷◌ c s) (String.◌∷◌ d t) =
    let rest = str_leb s t in
    if ltb (code c) (code d) then true else if ltb (code d) (code c) then false else rest

-- a < b
abbrev pub str_ltb : String → String → Bool
str_ltb a b = if str_leb b a then false else true

pub str_leb_refl : (s : String) → str_leb s s ≡ true
unfolding str_leb
str_leb_refl String.[] = refl
str_leb_refl (String.◌∷◌ c s) = ground (arith, str_leb_refl s)

pub str_leb_total : (s t : String) → str_leb s t ≡ false → str_leb t s ≡ true
unfolding str_leb
str_leb_total String.[] t h = ground arith
str_leb_total (String.◌∷◌ c s) String.[] h = refl
str_leb_total (String.◌∷◌ c s) (String.◌∷◌ d t) h = ground (arith, str_leb_total s t)

pub str_leb_trans : (s t u : String) → str_leb s t ≡ true → str_leb t u ≡ true → str_leb s u ≡ true
unfolding str_leb
str_leb_trans String.[] t u p q = refl
str_leb_trans (String.◌∷◌ c s) String.[] u p q = ground arith
str_leb_trans (String.◌∷◌ c s) (String.◌∷◌ d t) String.[] p q = ground arith
str_leb_trans (String.◌∷◌ c s) (String.◌∷◌ d t) (String.◌∷◌ e u) p q =
    ground (arith, str_leb_trans s t u)

pub str_leb_antisymm : (s t : String) → str_leb s t ≡ true → str_leb t s ≡ true → s ≡ t
unfolding str_leb
str_leb_antisymm String.[] String.[] p q = refl
str_leb_antisymm String.[] (String.◌∷◌ d t) p q = ground arith
str_leb_antisymm (String.◌∷◌ c s) String.[] p q = ground arith
str_leb_antisymm (String.◌∷◌ c s) (String.◌∷◌ d t) p q =
    ap₂ String.◌∷◌ (Char-path c d (ground arith))
      (str_leb_antisymm s t (ground arith) (ground arith))

-- The loops that look a string up in a slice.
unfoldable pub string_in : String → List String → Bool
string_in value [] = false
string_in value (candidate ∷ rest) = value == candidate || string_in value rest

-- The keys of a set that a loop fills: each string once.
unfoldable pub distinct : List String → List String
distinct [] = []
distinct (x ∷ rest) =
    let others = distinct rest in if string_in x others then others else x ∷ others

pub string_in-append :
    (s : String) (xs ys : List String) → string_in s (xs ++ ys) ≡ (string_in s xs || string_in s ys)
unfolding string_in
string_in-append s [] ys = refl
string_in-append s (x ∷ xs) ys = ground (arith, string_in-append s xs ys)

pub ==-false : (a b : String) → (a == b) ≡ false → a ≢ b
==-false a b h e = ground (arith, eq_iff a b)

-- A string is one literal at most.
pub ==-excludes : (s a b : String) → (s == a) ≡ true → (a == b) ≡ false → (s == b) ≡ false
==-excludes s a b h e = subst (λ t. (t == b) ≡ false) (sym ((eq_iff s a).0 h)) e

-- A test that every string of a list passes.
pub all-string_in :
    (p : String → Bool) (xs : List String) (s : String)
    → all p xs ≡ true
    → string_in s xs ≡ true
    → p s ≡ true
unfolding string_in
all-string_in p [] s h m = cc
all-string_in p (x ∷ xs) s h m = elim (Bool-cases (s == x)) [
  | inl e ↦ subst (λ y. p y ≡ true) (sym ((eq_iff s x).0 e)) (ground arith)
  | inr e ↦ all-string_in p xs s (ground arith) (ground arith)
]

-- One string is in a list that another is not in: they differ.
pub string_in-separates :
    (a b : String) (xs : List String)
    → string_in a xs ≡ true
    → string_in b xs ≡ false
    → (b == a) ≡ false
string_in-separates a b xs ha hb = elim (Bool-cases (b == a)) [
  | inl e ↦ absurd (cc (subst (λ s. string_in s xs ≡ false) ((eq_iff b a).0 e) hb))
  | inr e ↦ e
]

pub All-of_string_in {κ} :
    (P : String → Type κ) (xs : List String)
    → ((x : String) → string_in x xs ≡ true → P x)
    → All P xs
unfolding string_in
All-of_string_in P [] f = tt
All-of_string_in P (x ∷ xs) f =
    (f x (ground (arith, eq_refl x)), All-of_string_in P xs (λ y h. f y (ground arith)))

pub All-string_in {κ} :
    (P : String → Type κ) (xs : List String) (x : String) → All P xs → string_in x xs ≡ true → P x
unfolding string_in
All-string_in P [] x h m = cc
All-string_in P (y ∷ xs) x h m = elim (Bool-cases (x == y)) [
  | inl e ↦ subst P (sym ((eq_iff x y).0 e)) h.0
  | inr e ↦ All-string_in P xs x h.1 (ground arith)
]

-- How many strings of the list pass the test.
unfoldable pub count_of : (String → Bool) → List String → ℕ
count_of p [] = 0
count_of p (x ∷ rest) = let n = count_of p rest in if p x then suc n else n

pub count_of_mono :
    (p q : String → Bool) (xs : List String)
    → ((x : String) → p x ≡ true → q x ≡ true)
    → count_of p xs ≤ count_of q xs
unfolding count_of
count_of_mono p q [] f = omega arith
count_of_mono p q (x ∷ xs) f = ground (arith, f x, count_of_mono p q xs f)

pub count_of-less :
    (p q : String → Bool) (xs : List String) (x : String)
    → ((y : String) → p y ≡ true → q y ≡ true)
    → string_in x xs ≡ true
    → p x ≡ false
    → q x ≡ true
    → count_of p xs < count_of q xs
unfolding count_of string_in
count_of-less p q [] x f m a b = cc
count_of-less p q (y ∷ xs) x f m a b = elim (Bool-cases (x == y)) [
  | inl e ↦
      let same = (eq_iff x y).0 e in
      let a' = subst (λ i. p i ≡ false) same a in
      let b' = subst (λ i. q i ≡ true) same b in ground (arith, count_of_mono p q xs f)
  | inr e ↦ ground (arith, f y, count_of-less p q xs x f (ground arith) a b)
]

pub count_of-bound : (p : String → Bool) (xs : List String) → count_of p xs ≤ length xs
unfolding count_of
count_of-bound p [] = omega arith
count_of-bound p (x ∷ xs) = ground (arith, count_of-bound p xs)
