-- ===== src/Redact/Known.antt =====
-- The loop of `RedactKnown` in internal/redact/redact.go that replaces a known secret: when it
-- ends, and when it does not.
use mathlib.Core.List.{append_assoc}
use diffdossier.Prelude.{
  ℕ, zero, suc, ◌+◌, ◌<◌, ◌≡◌, ◌≢◌, refl, ap, ap₂, ◌∙◌, Option, none, some, List, [], ◌∷◌, ◌++◌,
  arith, length, eqb, if◌then◌else◌, inl, inr, Option-cases,
}
use diffdossier.Redact.{
  Bytes, Finding, known_marker, strip_prefix, cut_first, Library, replace_known,
}

-- The needle occurs in the bytes.
abbrev pub Occurs : Bytes → Bytes → Type 0
Occurs needle output = (b : Bytes) × (a : Bytes) × (output ≡ b ++ (needle ++ a))

strip_prefix-some :
    (needle output rest : Bytes) → strip_prefix needle output ≡ some rest → output ≡ needle ++ rest
unfolding strip_prefix
strip_prefix-some [] output rest h = ground arith
strip_prefix-some (n ∷ needle) [] rest h = cc
strip_prefix-some (n ∷ needle) (b ∷ output) rest h =
    ap₂ ◌∷◌ (ground arith) (strip_prefix-some needle output rest (ground arith))

strip_prefix-append : (needle rest : Bytes) → strip_prefix needle (needle ++ rest) ≡ some rest
unfolding strip_prefix
strip_prefix-append [] rest = refl
strip_prefix-append (n ∷ needle) rest = ground (arith, strip_prefix-append needle rest)

placed :
    (needle x y b a : Bytes)
    → ◌≡◌ {A = Option (Bytes × Bytes)} (some (x, y)) (some (b, a))
    → x ++ (needle ++ y) ≡ b ++ (needle ++ a)
placed needle x y b a h =
    let p : x ≡ b = cc in let q : y ≡ a = cc in ap₂ (λ (v w : Bytes). v ++ (needle ++ w)) p q

cut_first-some :
    (needle output b a : Bytes)
    → cut_first needle output ≡ some (b, a)
    → output ≡ b ++ (needle ++ a)
unfolding cut_first
cut_first-some needle [] b a h = elim (Option-cases (strip_prefix needle [])) [
  | inl e ↦ cc (rw (e, cut_first) at h)
  | inr (rest, e) ↦
      let same : ◌≡◌ {A = Option (Bytes × Bytes)} (some ([], rest)) (some (b, a)) =
        rw (e, cut_first) at h in
      strip_prefix-some needle [] rest e ∙ placed needle _ _ b a same
]
cut_first-some needle (x ∷ output) b a h = elim (Option-cases (strip_prefix needle (x ∷ output))) [
  | inr (rest, e) ↦
      let same : ◌≡◌ {A = Option (Bytes × Bytes)} (some ([], rest)) (some (b, a)) =
        rw (e, cut_first) at h in
      strip_prefix-some needle (x ∷ output) rest e ∙ placed needle _ _ b a same
  | inl e ↦ elim (Option-cases (cut_first needle output)) [
    | inl f ↦ cc (rw (e, f, cut_first) at h)
    | inr ((b', a'), f) ↦
        let same : ◌≡◌ {A = Option (Bytes × Bytes)} (some (x ∷ b', a')) (some (b, a)) =
          rw (e, f, cut_first) at h in
        ap (◌∷◌ x) (cut_first-some needle output b' a' f) ∙ placed needle _ _ b a same
  ]
]

cut_first-here :
    (needle output rest : Bytes)
    → strip_prefix needle output ≡ some rest
    → cut_first needle output ≡ some ([], rest)
unfolding cut_first
cut_first-here needle [] rest h = rw (h, cut_first)
cut_first-here needle (x ∷ output) rest h = rw (h, cut_first)

-- An occurrence is found, if not always this one.
cut_first-found :
    (needle b a : Bytes) → (p : Bytes × Bytes) × (cut_first needle (b ++ (needle ++ a)) ≡ some p)
unfolding cut_first
cut_first-found needle [] a = (([], a), cut_first-here needle _ a (strip_prefix-append needle a))
cut_first-found needle (x ∷ b) a =
    let (p, found) = cut_first-found needle b a in
    elim (Option-cases (strip_prefix needle (x ∷ (b ++ (needle ++ a))))) [
      | inr (rest, e) ↦ (([], rest), rw (e, cut_first))
      | inl e ↦ ((x ∷ p.0, p.1), rw (e, found, cut_first))
    ]

unfoldable pub count : ℕ → Bytes → ℕ
count c [] = 0
count c (x ∷ xs) = (if eqb x c then 1 else 0) + count c xs

count-append : (c : ℕ) (xs ys : Bytes) → count c (xs ++ ys) ≡ count c xs + count c ys
unfolding count
count-append c [] ys = omega arith
count-append c (x ∷ xs) ys = omega (arith, count-append c xs ys)

regroup :
    (b' a' pre needle post : Bytes)
    → b' ++ ((pre ++ (needle ++ post)) ++ a') ≡ (b' ++ pre) ++ (needle ++ (post ++ a'))
regroup b' a' pre needle post = simp append_assoc

not_found : (needle output : Bytes) → Occurs needle output → cut_first needle output ≢ none
not_found needle output (b, a, o) e =
    let (p, found) = cut_first-found needle b a in
    let found' : cut_first needle output ≡ some p = rw o found in cc

shrinks :
    (needle output b a : Bytes) (c : ℕ)
    → cut_first needle output ≡ some (b, a)
    → count c known_marker ≡ 0
    → count c (b ++ (known_marker ++ a)) + count c needle ≡ count c output
shrinks needle output b a c e lacks =
    let whole = ap (count c) (cut_first-some needle output b a e) in
    omega (
      arith,
      whole,
      count-append c b (known_marker ++ a),
      count-append c known_marker a,
      count-append c b (needle ++ a),
      count-append c needle a,
    )

module _ (library : Library) (needle : Bytes) where
  replaced : Bytes → List Finding → List Finding
  replaced b findings =
      findings
      ++ record { rule = "known-value"; offset = length b; match_digest = library.digest needle }
        ∷ []

  replace_known-step :
      (fuel : ℕ) (output b a : Bytes) (findings : List Finding)
      → cut_first needle output ≡ some (b, a)
      → replace_known library (suc fuel) needle output findings
        ≡ replace_known library fuel needle (b ++ (known_marker ++ a)) (replaced b findings)
  unfolding replace_known replaced
  replace_known-step fuel output b a findings e = rw (e, replace_known)

  replace_known-done :
      (fuel : ℕ) (output : Bytes) (findings : List Finding)
      → cut_first needle output ≡ none
      → replace_known library (suc fuel) needle output findings ≡ some (output, findings)
  unfolding replace_known
  replace_known-done fuel output findings e = rw (e, replace_known)

  -- A secret that occurs in the marker that replaces it, in content where it occurs: the loop
  -- never ends, whatever the fuel.
  pub replace_known-diverges :
      (fuel : ℕ) (output : Bytes) (findings : List Finding)
      → Occurs needle known_marker
      → Occurs needle output
      → replace_known library fuel needle output findings ≡ none
  replace_known-diverges zero output findings m o = unfold replace_known in refl
  replace_known-diverges (suc fuel) output findings (pre, post, m) (b, a, o) =
      let ((b', a'), found) = cut_first-found needle b a in
      let found' : cut_first needle output ≡ some (b', a') = rw o found in
      replace_known-step fuel output b' a' findings found'
      ∙ (replace_known-diverges fuel (b' ++ (known_marker ++ a')) _ (pre, post, m)
          (
            b' ++ pre,
            post ++ a',
            ap (λ marker. b' ++ (marker ++ a')) m ∙ regroup b' a' pre needle post,
          ))

  -- A byte of the secret that the marker does not have: each round removes at least one.
  pub replace_known-ends :
      (c : ℕ)
      → 0 < count c needle
      → count c known_marker ≡ 0
      → (fuel : ℕ) (output : Bytes) (findings : List Finding) → count c output < fuel
      → (r : Bytes × List Finding) × (replace_known library fuel needle output findings ≡ some r)
        × ¬ Occurs needle r.0
  replace_known-ends c has lacks zero output findings enough = absurd (omega arith)
  replace_known-ends c has lacks (suc fuel) output findings enough =
      elim (Option-cases (cut_first needle output)) [
        | inl e ↦ (
          (output, findings),
          replace_known-done fuel output findings e,
          λ o. not_found needle output o e,
        )
        | inr ((b, a), e) ↦
            let smaller = shrinks needle output b a c e lacks in
            let (r, found, free) =
              replace_known-ends c has lacks fuel (b ++ (known_marker ++ a)) _ (omega arith) in
            (r, replace_known-step fuel output b a findings e ∙ found, free)
      ]
