-- ===== src/Config/Ranked.antt =====
-- internal/config/config.go: what the visits of `Validate` show of the dependencies.
use diffdossier.Prelude.{
  ℕ, zero, suc, ◌<◌, String, Bool, true, false, List, [], ◌∷◌, if◌then◌else◌, Outcome, ok,
  >>=-eq-ok, ok-injective, Bool-cases, inl, inr, All, All-weaken, get, put, some, get-put,
  get-put-other, ◌==◌, eq_iff, eq_refl, ◌≡◌, refl, sym, subst, ◌∙◌, arith,
}
use diffdossier.Gates.{Gates, gate_at}
use diffdossier.Config.{Marks, marked, entered, left, visit_each, visit_gate}

pub marked-put :
    (m : List (String × Bool)) (id x : String) (b : Bool)
    → marked (put id b m) x ≡ (if x == id then b else marked m x)
unfolding marked
marked-put m id x b = elim (Bool-cases (x == id)) [
  | inl e ↦
      let same = (eq_iff x id).0 e in
      ground (arith, subst (λ y. get y (put id b m) ≡ some b) (sym same) (get-put id b m))
  | inr e ↦ ground (arith, get-put-other x id b m e)
]

entered-visiting : (id : String) (m : Marks) → marked (entered id m).visiting id ≡ true
unfolding entered
entered-visiting id m = ground (arith, marked-put m.visiting id id true, eq_refl id)

left-visited : (id : String) (m : Marks) → marked (left id m).visited id ≡ true
unfolding left
left-visited id m = ground (arith, marked-put m.visited id id true, eq_refl id)

module _ (by_id : Gates) where
  abbrev pub needs : String → List String
  needs id = (gate_at by_id id).depends_on

  abbrev IsVisited : Marks → String → Type 0
  IsVisited m id = marked m.visited id ≡ true

  -- What is visited has a rank below the bound, above the ranks of all that it depends on.
  abbrev IsRankedBelow : (String → ℕ) → ℕ → Marks → Type 0
  IsRankedBelow rank bound m =
      (id : String)
      → IsVisited m id
      → (rank id < bound) × All (λ d. IsVisited m d × (rank d < rank id)) (needs id)

  abbrev pub HasRanks : Marks → Type 0
  HasRanks m = (rank : String → ℕ) × (bound : ℕ) × IsRankedBelow rank bound m

  -- What is visited stays so; what is being visited stays so, and does not become visited.
  abbrev pub Goes : Marks → Marks → Type 0
  Goes m m' =
      ((id : String) → IsVisited m id → IsVisited m' id)
      × ((id : String)
          → marked m.visiting id ≡ true
          → (marked m'.visiting id ≡ true) × (marked m'.visited id ≡ marked m.visited id))

  Goes-refl : (m : Marks) → Goes m m
  Goes-refl m = (λ id h. h, λ id h. (h, refl))

  Goes-trans : (m m' m'' : Marks) → Goes m m' → Goes m' m'' → Goes m m''
  Goes-trans m m' m'' (f, g) (f', g') = (
    λ id h. f' id (f id h),
    λ id h. let (o, v) = g id h in let (o', v') = g' id o in (o', v' ∙ v),
  )

  differs :
      (m : Marks) (id d : String) → marked m.visited id ≡ false → IsVisited m d → (d == id) ≡ false
  differs m id d fresh v = elim (Bool-cases (d == id)) [
    | inr e ↦ e
    | inl e ↦ absurd (cc (subst (λ y. marked m.visited y ≡ true) ((eq_iff d id).0 e) v, fresh))
  ]

  -- The rank of what is visited last.
  abbrev ranked_last : String → ℕ → (String → ℕ) → String → ℕ
  ranked_last id bound rank x = if x == id then bound else rank x

  HasRanks-left :
      (id : String) (m : Marks)
      → HasRanks m
      → marked m.visited id ≡ false
      → All (IsVisited m) (needs id)
      → HasRanks (left id m)
  unfolding left
  HasRanks-left id m (rank, bound, h) fresh deps =
      let rank' = ranked_last id bound rank in
      (
        rank',
        suc bound,
        λ x v. elim (Bool-cases (x == id)) [
          | inl e ↦ (
            ground arith,
            All-weaken (IsVisited m) (λ d. IsVisited (left id m) d × (rank' d < rank' x))
                (λ d w. (
                  ground (arith, marked-put m.visited id d true),
                  ground (arith, differs m id d fresh w, (h d w).0),
                ))
                (needs x) (subst (λ y. All (IsVisited m) (needs y)) (sym ((eq_iff x id).0 e)) deps),
          )
          | inr e ↦
              let old : IsVisited m x = ground (arith, marked-put m.visited id x true) in
              let (below, all_below) = h x old in
              (
                ground arith,
                All-weaken (λ d. IsVisited m d × (rank d < rank x))
                    (λ d. IsVisited (left id m) d × (rank' d < rank' x))
                    (λ d p. (
                      ground (arith, p.0, marked-put m.visited id d true),
                      ground (arith, p.1, differs m id d fresh p.0),
                    ))
                    (needs x) all_below,
              )
        ],
      )

  abbrev HasVisited : String → Marks → Marks → Type 0
  HasVisited id m m' = HasRanks m' × (Goes m m' × IsVisited m' id)

  pub visit_each-ranks :
      (step : String → Marks → Outcome Marks)
      → ((id : String) (m m' : Marks) → HasRanks m → step id m ≡ ok m' → HasVisited id m m')
      → (ids : List String) (m m' : Marks) → HasRanks m
      → visit_each step ids m ≡ ok m'
      → HasRanks m' × (Goes m m' × All (IsVisited m') ids)
  unfolding visit_each
  visit_each-ranks step each [] m m' r h =
      subst (λ (t : Marks). HasRanks t × (Goes m t × Unit {0})) (ok-injective h)
        (r, (Goes-refl m, tt))
  visit_each-ranks step each (id ∷ ids) m m' r h =
      let (v, first, rest) =
        >>=-eq-ok (step id m) (λ (after : Marks). visit_each step ids after) h in
      let (r1, (g1, d1)) = each id m v r first in
      let (r2, (g2, d2)) = visit_each-ranks step each ids v m' r1 rest in
      (r2, (Goes-trans m v m' g1 g2, (g2.0 id d1, d2)))

  Goes-visited :
      (id : String) (m v : Marks)
      → marked m.visiting id ≡ false
      → Goes (entered id m) v
      → Goes m (left id v)
  unfolding entered left
  Goes-visited id m v free (f, g) = (
    λ x h. ground (arith, marked-put v.visited id x true, f x h),
    λ x h. elim (Bool-cases (x == id)) [
      | inl e ↦ absurd (cc (subst (λ y. marked m.visiting y ≡ true) ((eq_iff x id).0 e) h, free))
      | inr e ↦
          let (o, same) = g x (ground (arith, marked-put m.visiting id x true)) in
          (
            ground (arith, marked-put v.visiting id x false),
            ground (arith, marked-put v.visited id x true),
          )
    ],
  )

  pub visit_gate-ranks :
      (fuel : ℕ) (id : String) (m m' : Marks)
      → HasRanks m
      → visit_gate by_id fuel id m ≡ ok m'
      → HasVisited id m m'
  unfolding visit_gate
  visit_gate-ranks zero id m m' r h = cc
  visit_gate-ranks (suc fuel) id m m' r h = elim (Bool-cases (marked m.visiting id)) [
    | inl a ↦ absurd (cc (rw (a, visit_gate) at h))
    | inr a ↦ elim (Bool-cases (marked m.visited id)) [
      | inl b ↦
          subst (λ (t : Marks). HasVisited id m t) (ok-injective (rw (a, b, visit_gate) at h))
            (r, (Goes-refl m, b))
      | inr b ↦
          let (v, deps, last) =
            >>=-eq-ok (visit_each (visit_gate by_id fuel) (needs id) (entered id m))
              (λ (after : Marks). ok (left id after)) (rw (a, b, visit_gate) at h) in
          let (r1, (g, all_visited)) =
            visit_each-ranks (visit_gate by_id fuel) (visit_gate-ranks fuel) (needs id)
              (entered id m) v (unfold entered in r) deps in
          let (still, same) = g.1 id (entered-visiting id m) in
          let fresh : marked v.visited id ≡ false = same ∙ unfold entered in b in
          subst (λ (t : Marks). HasVisited id m t) (ok-injective last)
            (HasRanks-left id v r1 fresh all_visited, (Goes-visited id m v a g, left-visited id v))
    ]
  ]
