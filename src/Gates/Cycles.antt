-- ===== src/Gates/Cycles.antt =====
-- internal/gates/plan.go: when `topological` fails. The fuel of the model is never the reason.
use diffdossier.Prelude.{
  ℕ, zero, suc, ◌≤◌, ◌<◌, String, true, List, [], ◌∷◌, eqb, length, if◌then◌else◌, ok, err,
  >>=-eq-err, Outcome-cases, ok≢err, Bool-cases, inl, inr, ◌⊎◌, string_in, sort_strings, All,
  All-sort_by, has_key, has_key-in, eqb_iff, ◌∙◌, get, keys, ◌==◌, eq_iff, ◌≡◌, ◌≢◌, refl, sym,
  subst, arith,
}
use diffdossier.Gates.{
  Gates, Walk, state_of, opened, closed, visit_dependencies, visit, visit_all, topological,
}
use diffdossier.Gates.Order.{All-keys, start}
use diffdossier.Gates.Walks.{
  dependencies, IsSound, IsSound-start, IsSound-opened, Advances, Advances-opened, visit-visited,
  state_of-opened,
}

-- The IDs of the list that no visit has reached.
pub unseen : List String → Walk → ℕ
unseen [] w = 0
unseen (id ∷ rest) w = let n = unseen rest w in if eqb (state_of w id) 0 then suc n else n

unseen_mono : (ids : List String) (w w' : Walk) → Advances w w' → unseen ids w' ≤ unseen ids w
unfolding unseen Advances
unseen_mono [] w w' f = omega arith
unseen_mono (id ∷ ids) w w' f = ground (arith, f id, unseen_mono ids w w' f)

unseen_mono-opened :
    (ids : List String) (id : String) (w : Walk) → unseen ids (opened id w) ≤ unseen ids w
unfolding unseen
unseen_mono-opened [] id w = omega arith
unseen_mono-opened (x ∷ ids) id w =
    ground (arith, state_of-opened id x w, unseen_mono-opened ids id w)

unseen-opened :
    (ids : List String) (id : String) (w : Walk)
    → string_in id ids ≡ true
    → state_of w id ≡ 0
    → unseen ids (opened id w) < unseen ids w
unfolding unseen string_in
unseen-opened [] id w m z = cc
unseen-opened (x ∷ ids) id w m z = elim (Bool-cases (id == x)) [
  | inl e ↦
      let there = subst (λ y. state_of w y ≡ 0) ((eq_iff id x).0 e) z in
      ground (arith, state_of-opened id x w, eq_iff id x, eq_iff x id, unseen_mono-opened ids id w)
  | inr e ↦ ground (
    arith,
    state_of-opened id x w,
    eq_iff id x,
    eq_iff x id,
    unseen-opened ids id w (ground arith) z,
  )
]

unseen-bound : (ids : List String) (w : Walk) → unseen ids w ≤ length ids
unfolding unseen
unseen-bound [] w = omega arith
unseen-bound (id ∷ ids) w = ground (arith, unseen-bound ids w)

module _ (gates : Gates) where
  -- The dependencies can be ranked: they have no cycle.
  abbrev pub IsRanked : (String → ℕ) → Type 0
  IsRanked rank = (id : String) → All (λ d. rank d < rank id) (dependencies gates id)

  -- Every dependency is a gate of the map.
  abbrev pub IsClosed : Type 0
  IsClosed = (id : String) → All (λ d. has_key d gates ≡ true) (dependencies gates id)

  -- The error of a visit: a cycle, and then no ranking puts all that is under visit above the ID;
  -- or a missing gate, and then the map is not closed.
  abbrev BlamesVisit : String → Walk → String → Type 0
  BlamesVisit id w e =
      ((e ≡ "gate dependency cycle")
        × ((rank : String → ℕ)
            → IsRanked rank
            → ((x : String) → state_of w x ≡ 1 → rank id < rank x)
            → ⊥))
      ⊎ ((e ≡ "gate depends on unavailable") × (IsClosed → ⊥))

  abbrev BlamesLoop : List String → Walk → String → Type 0
  BlamesLoop ids w e =
      ((e ≡ "gate dependency cycle")
        × ((rank : String → ℕ) (r : ℕ)
            → IsRanked rank
            → All (λ d. rank d < r) ids
            → ((x : String) → state_of w x ≡ 1 → r ≤ rank x)
            → ⊥))
      ⊎ ((e ≡ "gate depends on unavailable")
          × (IsClosed → All (λ d. has_key d gates ≡ true) ids → ⊥))

  visit_dependencies-blames :
      (fuel : ℕ)
      → ((id : String) (w : Walk) (e : String)
          → has_key id gates ≡ true
          → IsSound gates w
          → unseen (keys gates) w < fuel
          → visit gates fuel id w ≡ err e
          → BlamesVisit id w e)
      → (ids : List String) (w : Walk) (e : String) → IsSound gates w
      → unseen (keys gates) w < fuel
      → visit_dependencies gates (visit gates fuel) ids w ≡ err e
      → BlamesLoop ids w e
  unfolding visit_dependencies
  visit_dependencies-blames fuel each [] w e s u h = absurd (ok≢err h)
  visit_dependencies-blames fuel each (id ∷ ids) w e s u h = elim (Bool-cases (has_key id gates)) [
    | inr k ↦ inr (cc (rw (k, visit_dependencies) at h), λ closed_map all_in. cc (all_in.0))
    | inl k ↦
        elim (>>=-eq-err (visit gates fuel id w)
          (λ (after : Walk). visit_dependencies gates (visit gates fuel) ids after) e
          (rw (k, visit_dependencies) at h)) [
            | inl first ↦ elim (each id w e k s u first) [
              | inl (c, f) ↦ inl (
                c,
                λ rank r ranked below above.
                    f rank ranked (λ x o. omega (arith, below.0, above x o)),
              )
              | inr (c, f) ↦ inr (c, λ closed_map all_in. f closed_map)
            ]
            | inr (v, first, rest) ↦
                let (t, a, d) = visit-visited gates fuel id w v k s first in
                let less = unseen_mono (keys gates) w v a in
                elim (visit_dependencies-blames fuel each ids v e t (omega arith) rest) [
                  | inl (c, f) ↦ inl (
                    c,
                    λ rank r ranked below above.
                        f rank r ranked below.1 (λ x o. above x (Advances-opened w v x a o)),
                  )
                  | inr (c, f) ↦ inr (c, λ closed_map all_in. f closed_map all_in.1)
                ]
          ]
  ]

  visit-blames :
      (fuel : ℕ) (id : String) (w : Walk) (e : String)
      → has_key id gates ≡ true
      → IsSound gates w
      → unseen (keys gates) w < fuel
      → visit gates fuel id w ≡ err e
      → BlamesVisit id w e
  unfolding visit
  visit-blames zero id w e k s u h = absurd (omega arith)
  visit-blames (suc fuel) id w e k s u h = elim (Bool-cases (eqb (state_of w id) 1)) [
    | inl p ↦ inl (
      cc (rw (p, visit) at h),
      λ rank ranked above. omega (arith, above id ((eqb_iff (state_of w id) 1).0 p)),
    )
    | inr p ↦ elim (Bool-cases (eqb (state_of w id) 2)) [
      | inl q ↦ absurd (cc (rw (p, q, visit) at h))
      | inr q ↦
          let z : state_of w id ≡ 0 = ground (arith, s.range id) in
          let deps = sort_strings (dependencies gates id) in
          elim (>>=-eq-err (visit_dependencies gates (visit gates fuel) deps (opened id w))
            (λ (after : Walk). ok (closed id after)) e (rw (p, q, visit) at h)) [
              | inr (v, first, last) ↦ absurd (ok≢err last)
              | inl first ↦
                  let less = unseen-opened (keys gates) id w (has_key-in id gates ∙ k) z in
                  elim (visit_dependencies-blames fuel (visit-blames fuel) deps (opened id w) e
                    (IsSound-opened gates id w s z) (omega arith) first) [
                      | inl (c, f) ↦ inl (
                        c,
                        λ rank ranked above.
                            f rank (rank id) ranked
                              (All-sort_by (λ d. d) (λ d. rank d < rank id) (dependencies gates id)
                                (ranked id))
                              (λ x o. elim (Bool-cases (x == id)) [
                                | inl same ↦
                                    subst (λ y. rank id ≤ rank y) (sym ((eq_iff x id).0 same))
                                      (omega arith)
                                | inr other ↦ ground (arith, state_of-opened id x w, above x)
                              ]),
                      )
                      | inr (c, f) ↦ inr (
                        c,
                        λ closed_map. f closed_map (
                            All-sort_by (λ d. d) (λ d. has_key d gates ≡ true)
                              (dependencies gates id) (closed_map id)),
                      )
                    ]
            ]
    ]
  ]

  abbrev Blames : String → Type 0
  Blames e =
      ((e ≡ "gate dependency cycle") × ((rank : String → ℕ) → IsRanked rank → ⊥))
      ⊎ ((e ≡ "gate depends on unavailable") × (IsClosed → ⊥))

  abbrev IsIdle : Walk → Type 0
  IsIdle w = (x : String) → state_of w x ≢ 1

  visit_all-Blames :
      (fuel : ℕ) (ids : List String) (w : Walk) (e : String)
      → All (λ id. has_key id gates ≡ true) ids
      → IsSound gates w
      → IsIdle w
      → unseen (keys gates) w < fuel
      → visit_all gates fuel ids w ≡ err e
      → Blames e
  unfolding visit_all
  visit_all-Blames fuel [] w e k s idle u h = absurd (ok≢err h)
  visit_all-Blames fuel (id ∷ ids) w e k s idle u h =
      elim (>>=-eq-err (visit gates fuel id w) (λ (after : Walk). visit_all gates fuel ids after) e
        h) [
          | inl first ↦ elim (visit-blames fuel id w e k.0 s u first) [
            | inl (c, f) ↦ inl (c, λ rank ranked. f rank ranked (λ x o. absurd (idle x o)))
            | inr fault ↦ inr fault
          ]
          | inr (v, first, rest) ↦
              let (t, a, d) = visit-visited gates fuel id w v k.0 s first in
              let less = unseen_mono (keys gates) w v a in
              visit_all-Blames fuel ids v e k.1 t (λ x o. idle x (Advances-opened w v x a o))
                (omega arith) rest
        ]

  length-keys : (g : Gates) → length (keys g) ≡ length g
  length-keys [] = refl
  length-keys (entry ∷ g) = cc (length-keys g)

  -- `topological` fails for two reasons only: a cycle, and then no ranking puts every dependency
  -- below its gate; or a dependency that is not in the map. So it succeeds on every map that has
  -- all dependencies and no cycle, and the fuel is always enough.
  pub topological-fails :
      (e : String)
      → topological gates ≡ err e
      → ((e ≡ "gate dependency cycle") × ((rank : String → ℕ) → IsRanked rank → ⊥))
        ⊎ ((e ≡ "gate depends on unavailable") × (IsClosed → ⊥))
  unfolding topological
  topological-fails e h =
      elim (>>=-eq-err (visit_all gates (suc (length gates)) (sort_strings (keys gates)) start)
        (λ (walk : Walk). ok walk.order) e h) [
          | inl all_visited ↦
              visit_all-Blames (suc (length gates)) (sort_strings (keys gates)) start e
                (All-sort_by (λ s. s) (λ id. has_key id gates ≡ true) (keys gates) (All-keys gates))
                (IsSound-start gates) (unfold state_of get in (λ x. omega arith))
                (omega (arith, unseen-bound (keys gates) start, length-keys gates)) all_visited
          | inr (w, first, last) ↦ absurd (ok≢err last)
        ]

  pub topological-succeeds :
      (rank : String → ℕ)
      → IsRanked rank
      → IsClosed
      → (order : List String) × (topological gates ≡ ok order)
  topological-succeeds rank ranked closed_map = elim (Outcome-cases (topological gates)) [
    | inl found ↦ found
    | inr (e, h) ↦
        absurd
          (elim (topological-fails e h) [ inl (c, f) ↦ f rank ranked | inr (c, f) ↦ f closed_map ])
  ]
