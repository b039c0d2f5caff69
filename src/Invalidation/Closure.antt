-- ===== src/Invalidation/Closure.antt =====
-- internal/workflow/invalidation.go: what a call of addReload keeps, and how far it brings the
-- rounds.
use diffdossier.Prelude.{
  ℕ, suc, ◌≤◌, ◌<◌, String, Bool, true, false, ◌||◌, List, [], ◌∷◌, ◌++◌, any, length,
  length-append, if◌then◌else◌, Bool-cases, inl, inr, ◌⊎◌, string_in, All, eq_iff, eq_refl, ◌==◌,
  ◌≡◌, refl, sym, subst, ◌∙◌, arith,
}
use diffdossier.Planner.{Task}
use diffdossier.Invalidation.{Invalidation, has_reload, add_reload, add_all}

-- The IDs of the list that are not in yet.
pub missing : List String → Invalidation → ℕ
missing [] r = 0
missing (id ∷ rest) r = if has_reload r id then missing rest r else suc (missing rest r)

abbrev pub Keeps : Invalidation → Invalidation → Type 0
Keeps r s = (id : String) → has_reload r id ≡ true → has_reload s id ≡ true

missing_mono :
    (known : List String) (r s : Invalidation) → Keeps r s → missing known s ≤ missing known r
unfolding missing
missing_mono [] r s k = omega arith
missing_mono (id ∷ rest) r s k = ground (arith, k id, missing_mono rest r s k)

missing-less :
    (known : List String) (r s : Invalidation) (id : String)
    → Keeps r s
    → string_in id known ≡ true
    → has_reload r id ≡ false
    → has_reload s id ≡ true
    → missing known s < missing known r
unfolding missing string_in
missing-less [] r s id k m a b = cc
missing-less (x ∷ rest) r s id k m a b = elim (Bool-cases (id == x)) [
  | inl e ↦
      let same = (eq_iff id x).0 e in
      let a' = subst (λ i. has_reload r i ≡ false) same a in
      let b' = subst (λ i. has_reload s i ≡ true) same b in ground (arith, missing_mono rest r s k)
  | inr e ↦ ground (arith, k x, missing-less rest r s id k (ground arith) a b)
]

-- Nothing is new, or something is; and nothing is lost.
abbrev pub Extends : List String → Invalidation → Invalidation → Type 0
Extends known r s =
    ((s.must_reload ≡ r.must_reload)
      ⊎ ((missing known s < missing known r) × (length r.must_reload < length s.must_reload)))
    × Keeps r s

pub Extends-refl : (known : List String) (r : Invalidation) → Extends known r r
Extends-refl known r = (inl refl, λ id h. h)

pub Keeps-same : (r s : Invalidation) → s.must_reload ≡ r.must_reload → Keeps s r
unfolding has_reload
Keeps-same r s e id h = rw (sym e) h

pub Extends-trans :
    (known : List String) (r s t : Invalidation)
    → Extends known r s
    → Extends known s t
    → Extends known r t
Extends-trans known r s t (inl e, k) (inl f, l) = (inl (f ∙ e), λ id h. l id (k id h))
Extends-trans known r s t (inl e, k) (inr (m, n), l) = (
  inr (
    omega (arith, missing_mono known r s k),
    subst (λ ids. length ids < length t.must_reload) e n,
  ),
  λ id h. l id (k id h),
)
Extends-trans known r s t (inr (m, n), k) (inl f, l) = (
  inr (
    omega (arith, missing_mono known s t l),
    subst (λ ids. length r.must_reload < length ids) (sym f) n,
  ),
  λ id h. l id (k id h),
)
Extends-trans known r s t (inr (m, n), k) (inr (m', n'), l) =
    (inr (omega arith, omega arith), λ id h. l id (k id h))

any-append : (p : String → Bool) (xs ys : List String) → any p (xs ++ ys) ≡ (any p xs || any p ys)
any-append p [] ys = refl
any-append p (x ∷ xs) ys = ground (arith, any-append p xs ys)

-- The ID is in, and what was in is in.
has_reload-add :
    (id reason : String) (r : Invalidation) → has_reload (add_reload id reason r) id ≡ true
unfolding has_reload add_reload
has_reload-add id reason r = elim (Bool-cases (has_reload r id)) [
  | inl e ↦ rw e e
  | inr e ↦
      rw (e, any-append (λ x. x == id) r.must_reload (id ∷ []), eq_refl id)
        (ground (arith, any (λ x. x == id) r.must_reload))
]

Keeps-add : (id reason : String) (r : Invalidation) → Keeps r (add_reload id reason r)
unfolding has_reload add_reload
Keeps-add id reason r other h = elim (Bool-cases (has_reload r id)) [
  | inl e ↦ rw e h
  | inr e ↦ rw (e, any-append (λ x. x == other) r.must_reload (id ∷ []), h) refl
]

Extends-add :
    (known : List String) (id reason : String) (r : Invalidation)
    → string_in id known ≡ true
    → Extends known r (add_reload id reason r)
unfolding add_reload
Extends-add known id reason r m = (
  elim (Bool-cases (has_reload r id)) [
    | inl e ↦ inl (rw e refl)
    | inr e ↦ inr (
      missing-less known r (add_reload id reason r) id (Keeps-add id reason r) m e
          (has_reload-add id reason r),
      rw e (omega (arith, length-append r.must_reload (id ∷ []))),
    )
  ],
  Keeps-add id reason r,
)

pub Extends-add_all :
    (known : List String) (reason : String) (ids : List String) (r : Invalidation)
    → All (λ id. string_in id known ≡ true) ids
    → Extends known r (add_all reason ids r)
      × All (λ id. has_reload (add_all reason ids r) id ≡ true) ids
unfolding add_all
Extends-add_all known reason [] r h = (Extends-refl known r, tt)
Extends-add_all known reason (id ∷ rest) r h =
    let first = add_reload id reason r in
    let (e, all_in) = Extends-add_all known reason rest first h.1 in
    (
      Extends-trans known r first (add_all reason rest first) (Extends-add known id reason r h.0) e,
      (e.1 id (has_reload-add id reason r), all_in),
    )

-- The IDs of the tasks and of their dependencies.
abbrev pub IsKnown : List String → List Task → Type 0
IsKnown known = All (λ (t : Task).
    (string_in t.id known ≡ true) × All (λ id. string_in id known ≡ true) t.dependency_tasks)

pub missing-bound : (known : List String) (r : Invalidation) → missing known r ≤ length known
unfolding missing
missing-bound [] r = omega arith
missing-bound (id ∷ rest) r = ground (arith, missing-bound rest r)
