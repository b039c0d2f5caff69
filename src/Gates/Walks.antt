-- ===== src/Gates/Walks.antt =====
-- internal/gates/plan.go: what a visit keeps of the states and of the order, in `topological`.
use mathlib.Core.List.{append_assoc, append-nil}
use diffdossier.Prelude.{
  ℕ, zero, suc, ◌≤◌, String, true, false, List, [], ◌∷◌, ◌++◌, ◌||◌, eqb, eqb_iff, if◌then◌else◌,
  Outcome, ok, >>=-eq-ok, ok-injective, Bool-cases, inl, inr, ◌⊎◌, string_in, string_in-append,
  sort_strings, All, All-weaken, All-unsort, get, put, some, get-put, get-put-other, has_key, ◌==◌,
  eq_iff, eq_refl, ◌≡◌, refl, sym, subst, arith,
}
use diffdossier.Gates.{
  Gates, Walk, state_of, opened, closed, gate_at, visit_dependencies, visit, visit_all,
}

pub state_of-opened :
    (id x : String) (w : Walk) → state_of (opened id w) x ≡ (if x == id then 1 else state_of w x)
unfolding state_of opened
state_of-opened id x w = elim (Bool-cases (x == id)) [
  | inl e ↦
      let same = (eq_iff x id).0 e in
      ground (
        arith,
        same,
        subst (λ y. get y (put id 1 w.state) ≡ some 1) (sym same) (get-put id 1 w.state),
      )
  | inr e ↦ ground (arith, get-put-other x id 1 w.state e)
]

state_of-closed :
    (id x : String) (w : Walk) → state_of (closed id w) x ≡ (if x == id then 2 else state_of w x)
unfolding state_of closed
state_of-closed id x w = elim (Bool-cases (x == id)) [
  | inl e ↦
      let same = (eq_iff x id).0 e in
      ground (
        arith,
        same,
        subst (λ y. get y (put id 2 w.state) ≡ some 2) (sym same) (get-put id 2 w.state),
      )
  | inr e ↦ ground (arith, get-put-other x id 2 w.state e)
]

-- A state stays, or an ID that was not seen is done.
unfoldable pub Advances : Walk → Walk → Type 0
Advances w w' =
    (id : String) → (state_of w' id ≡ state_of w id) ⊎ ((state_of w id ≡ 0) × (state_of w' id ≡ 2))

pub Advances-refl : (w : Walk) → Advances w w
unfolding Advances
Advances-refl w id = inl refl

pub Advances-trans : (u v w : Walk) → Advances u v → Advances v w → Advances u w
unfolding Advances
Advances-trans u v w f g id = ground (arith, f id, g id)

pub Advances-done :
    (w w' : Walk) (id : String) → Advances w w' → state_of w id ≡ 2 → state_of w' id ≡ 2
unfolding Advances
Advances-done w w' id f h = ground (arith, f id)

pub Advances-opened :
    (w w' : Walk) (id : String) → Advances w w' → state_of w' id ≡ 1 → state_of w id ≡ 1
unfolding Advances
Advances-opened w w' id f h = ground (arith, f id)

module _ (gates : Gates) where
  abbrev pub dependencies : String → List String
  dependencies id = (gate_at gates id).depends_on

  -- Behind the IDs of `before`, each of the others stands once, and behind its dependencies.
  abbrev pub IsOrdered : List String → List String → Type 0
  IsOrdered before [] = Unit
  IsOrdered before (id ∷ rest) =
      All (λ d. string_in d before ≡ true) (dependencies id)
      × (string_in id before ≡ false)
      × IsOrdered (before ++ id ∷ []) rest

  IsOrdered-append :
      (before xs : List String) (id : String)
      → IsOrdered before xs
      → All (λ d. string_in d (before ++ xs) ≡ true) (dependencies id)
      → string_in id (before ++ xs) ≡ false
      → IsOrdered before (xs ++ id ∷ [])
  IsOrdered-append before [] id h a f = let e = append-nil before in (rw e at a, rw e at f, tt)
  IsOrdered-append before (x ∷ xs) id h a f =
      let e = sym (append_assoc before (x ∷ []) xs) in
      (h.0, h.1, IsOrdered-append (before ++ x ∷ []) xs id h.2 (rw e at a) (rw e at f))

  pub record IsSound (w : Walk) : Type 0 where
    pub ordered : IsOrdered [] w.order
    pub placed : (id : String) → state_of w id ≡ 2 → string_in id w.order ≡ true
    pub done : (id : String) → string_in id w.order ≡ true → state_of w id ≡ 2
    pub range : (id : String) → state_of w id ≤ 2
    pub known : (id : String) → string_in id w.order ≡ true → has_key id gates ≡ true

  -- What a visit of the ID does to the walk, if it succeeds.
  abbrev pub HasVisited : String → Walk → Walk → Type 0
  HasVisited id w w' = IsSound w' × Advances w w' × (state_of w' id ≡ 2)

  -- The same for the loop over dependencies.
  abbrev pub HaveVisited : List String → Walk → Walk → Type 0
  HaveVisited ids w w' = IsSound w' × Advances w w' × All (λ id. state_of w' id ≡ 2) ids

  HaveVisited-next :
      (id : String) (ids : List String) (u v w : Walk)
      → HasVisited id u v
      → HaveVisited ids v w
      → HaveVisited (id ∷ ids) u w
  HaveVisited-next id ids u v w (s, a, d) (t, b, ds) =
      (t, Advances-trans u v w a b, (Advances-done v w id b d, ds))

  pub IsSound-opened :
      (id : String) (w : Walk) → IsSound w → state_of w id ≡ 0 → IsSound (opened id w)
  unfolding opened
  IsSound-opened id w s z = record {
    ordered = s.ordered;
    placed = λ x h. ground (arith, state_of-opened id x w, s.placed x);
    done = λ x h. elim (Bool-cases (x == id)) [
      | inl e ↦
          let two = subst (λ y. state_of w y ≡ 2) ((eq_iff x id).0 e) (s.done x h) in
          ground (arith, z)
      | inr e ↦ ground (arith, state_of-opened id x w, s.done x h)
    ];
    range = λ x. ground (arith, state_of-opened id x w, s.range x);
    known = s.known;
  }

  string_in-last :
      (x id : String) (xs : List String) → string_in x (xs ++ id ∷ []) ≡ (string_in x xs || x == id)
  unfolding string_in
  string_in-last x id xs = ground (arith, string_in-append x xs (id ∷ []))

  IsSound-closed :
      (id : String) (w : Walk)
      → IsSound w
      → has_key id gates ≡ true
      → state_of w id ≡ 1
      → All (λ d. state_of w d ≡ 2) (dependencies id)
      → IsSound (closed id w)
  unfolding closed
  IsSound-closed id w s k one deps = record {
    ordered =
        IsOrdered-append [] w.order id s.ordered
          (All-weaken (λ d. state_of w d ≡ 2) (λ d. string_in d w.order ≡ true) s.placed
            (dependencies id) deps)
          (ground (arith, s.done id));
    placed = λ x h. ground (arith, state_of-closed id x w, s.placed x, string_in-last x id w.order);
    done = λ x h. ground (arith, state_of-closed id x w, s.done x, string_in-last x id w.order);
    range = λ x. ground (arith, state_of-closed id x w, s.range x);
    known = λ x h. elim (Bool-cases (x == id)) [
      | inl e ↦ subst (λ y. has_key y gates ≡ true) (sym ((eq_iff x id).0 e)) k
      | inr e ↦ s.known x (ground (arith, string_in-last x id w.order))
    ];
  }

  Advances-visited :
      (id : String) (w v : Walk)
      → state_of w id ≡ 0
      → Advances (opened id w) v
      → Advances w (closed id v)
  unfolding Advances
  Advances-visited id w v z f x = elim (Bool-cases (x == id)) [
    | inl e ↦
        let zero_there = subst (λ y. state_of w y ≡ 0) (sym ((eq_iff x id).0 e)) z in
        ground (arith, state_of-closed id x v)
    | inr e ↦ ground (arith, state_of-closed id x v, state_of-opened id x w, f x)
  ]

  visit_dependencies-visited :
      (step : String → Walk → Outcome Walk)
      → ((id : String) (w w' : Walk)
          → has_key id gates ≡ true
          → IsSound w
          → step id w ≡ ok w'
          → HasVisited id w w')
      → (ids : List String) (w w' : Walk) → IsSound w
      → visit_dependencies gates step ids w ≡ ok w'
      → HaveVisited ids w w'
  unfolding visit_dependencies
  visit_dependencies-visited step each [] w w' s h =
      let e = ok-injective h in rw (sym e) (s, Advances-refl w, tt)
  visit_dependencies-visited step each (id ∷ ids) w w' s h = elim (Bool-cases (has_key id gates)) [
    | inl e ↦
        let (v, first, rest) =
          >>=-eq-ok (step id w) (λ (after : Walk). visit_dependencies gates step ids after)
            (rw (e, visit_dependencies) at h) in
        let (t, a, d) = each id w v e s first in
        HaveVisited-next id ids w v w' (t, a, d)
          (visit_dependencies-visited step each ids v w' t rest)
    | inr e ↦ absurd (cc (rw (e, visit_dependencies) at h))
  ]

  -- What `visit` does to the walk, if it succeeds.
  pub visit-visited :
      (fuel : ℕ) (id : String) (w w' : Walk)
      → has_key id gates ≡ true
      → IsSound w
      → visit gates fuel id w ≡ ok w'
      → HasVisited id w w'
  unfolding visit Advances
  visit-visited zero id w w' k s h = cc
  visit-visited (suc fuel) id w w' k s h = elim (Bool-cases (eqb (state_of w id) 1)) [
    | inl e ↦ absurd (cc (rw (e, visit) at h))
    | inr e ↦ elim (Bool-cases (eqb (state_of w id) 2)) [
      | inl f ↦
          let same = ok-injective (rw (e, f, visit) at h) in
          rw (sym same) (s, Advances-refl w, (eqb_iff (state_of w id) 2).0 f)
      | inr f ↦
          let z : state_of w id ≡ 0 = ground (arith, s.range id) in
          let (v, deps, last) =
            >>=-eq-ok
              (visit_dependencies gates (visit gates fuel) (sort_strings (dependencies id))
                (opened id w))
              (λ (after : Walk). ok (closed id after)) (rw (e, f, visit) at h) in
          let (t, a, ds) =
            visit_dependencies-visited (visit gates fuel) (visit-visited fuel)
              (sort_strings (dependencies id)) (opened id w) v (IsSound-opened id w s z) deps in
          let one : state_of v id ≡ 1 = ground (arith, a id, state_of-opened id id w, eq_refl id) in
          let sound =
            IsSound-closed id v t k one
              (All-unsort (λ s. s) (λ d. state_of v d ≡ 2) (dependencies id) ds) in
          rw (sym (ok-injective last)) (
            sound,
            Advances-visited id w v z a,
            ground (arith, state_of-closed id id v, eq_refl id),
          )
    ]
  ]

  pub visit_all-visited :
      (fuel : ℕ) (ids : List String) (w w' : Walk)
      → All (λ id. has_key id gates ≡ true) ids
      → IsSound w
      → visit_all gates fuel ids w ≡ ok w'
      → HaveVisited ids w w'
  unfolding visit_all
  visit_all-visited fuel [] w w' k s h =
      let e = ok-injective h in rw (sym e) (s, Advances-refl w, tt)
  visit_all-visited fuel (id ∷ ids) w w' k s h =
      let (v, first, rest) =
        >>=-eq-ok (visit gates fuel id w) (λ (after : Walk). visit_all gates fuel ids after) h in
      let (t, a, d) = visit-visited fuel id w v k.0 s first in
      HaveVisited-next id ids w v w' (t, a, d) (visit_all-visited fuel ids v w' k.1 t rest)

  pub IsSound-start : IsSound (record { state = []; order = [] })
  unfolding state_of get string_in
  IsSound-start = record {
    ordered = tt;
    placed = λ id h. absurd (omega arith);
    done = λ id h. cc;
    range = λ id. omega arith;
    known = λ id h. cc;
  }
