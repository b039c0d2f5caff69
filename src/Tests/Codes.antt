-- ===== src/Tests/Codes.antt =====
-- Texts that can be read back, for tests: with each value a rest is written behind it.
use Prim.Native.Char.{Char, code}
use diffdossier.Prelude.{
  ℕ, zero, suc, String, List, [], ◌∷◌, Bool, true, false, eqb, ◌≡◌, refl, sym, ap, ap₂,
}

abbrev pub Code : Type 0 → Type 0
Code A = A → String → String

abbrev pub IsCode : {A : Type 0} → Code A → Type 0
IsCode {A} code = (a b : A) (s t : String) → code a s ≡ code b t → (a ≡ b) × (s ≡ t)

abbrev one : String → String
one s = String.◌∷◌ "1" s

abbrev stop : String → String
stop s = String.◌∷◌ "0" s

abbrev begins : String → Bool
begins String.[] = false
begins (String.◌∷◌ c s) = eqb (code c) 49

abbrev tail : String → String
tail String.[] = ""
tail (String.◌∷◌ c s) = s

abbrev head : String → Char
head String.[] = "0"
head (String.◌∷◌ c s) = c

apart : (s t : String) → one s ≡ stop t → ⊥
apart s t h = let e : true ≡ false = ap begins h in absurd (cc e)

unfoldable pub number : Code ℕ
number zero s = stop s
number (suc n) s = one (number n s)

pub number-IsCode : IsCode number
unfolding number
number-IsCode zero zero s t h = (refl, ap tail h)
number-IsCode zero (suc b) s t h = absurd (apart _ _ (sym h))
number-IsCode (suc a) zero s t h = absurd (apart _ _ h)
number-IsCode (suc a) (suc b) s t h =
    let (e, f) = number-IsCode a b s t (ap tail h) in (ap suc e, f)

unfoldable pub text : Code String
text String.[] s = stop s
text (String.◌∷◌ c cs) s = one (String.◌∷◌ c (text cs s))

pub text-IsCode : IsCode text
unfolding text
text-IsCode String.[] String.[] s t h = (refl, ap tail h)
text-IsCode String.[] (String.◌∷◌ d ds) s t h = absurd (apart _ _ (sym h))
text-IsCode (String.◌∷◌ c cs) String.[] s t h = absurd (apart _ _ h)
text-IsCode (String.◌∷◌ c cs) (String.◌∷◌ d ds) s t h =
    let (e, f) = text-IsCode cs ds s t (ap (λ x. tail (tail x)) h) in
    (ap₂ String.◌∷◌ (ap (λ x. head (tail x)) h) e, f)

module _ {A : Type 0} (code : Code A) (c : IsCode code) where
  unfoldable pub list : Code (List A)
  list [] s = stop s
  list (x ∷ xs) s = one (code x (list xs s))

  pub list-IsCode : IsCode list
  unfolding list
  list-IsCode [] [] s t h = (refl, ap tail h)
  list-IsCode [] (y ∷ ys) s t h = absurd (apart _ _ (sym h))
  list-IsCode (x ∷ xs) [] s t h = absurd (apart _ _ h)
  list-IsCode (x ∷ xs) (y ∷ ys) s t h =
      let (e, f) = c x y (list xs s) (list ys t) (ap tail h) in
      let (g, k) = list-IsCode xs ys s t f in (ap₂ ◌∷◌ e g, k)

  module _ {B : Type 0} (code' : Code B) (c' : IsCode code') where
    unfoldable pub pair : Code (A × B)
    pair p s = code p.0 (code' p.1 s)

    pub pair-IsCode : IsCode pair
    unfolding pair
    pair-IsCode p q s t h =
        let (e, f) = c p.0 q.0 (code' p.1 s) (code' q.1 t) h in
        let (g, k) = c' p.1 q.1 s t f in (ap₂ (λ a b. (a, b)) e g, k)
