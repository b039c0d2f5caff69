-- ===== src/Config/Fuel.antt =====
-- internal/config/config.go: the visits of `Validate` have enough fuel.
use diffdossier.Prelude.{
  ℕ, zero, suc, ◌≤◌, ◌<◌, String, true, false, not, List, [], ◌∷◌, length, ok, err, >>=-eq-err,
  ok≢err, Bool-cases, Option-cases, inl, inr, get, put, has_key, has_key-in, keys, string_in,
  count_of, count_of_mono, count_of-less, count_of-bound, eq_refl, ◌≡◌, ◌≢◌, refl, sym, subst, ◌∙◌,
  arith,
}
use diffdossier.Gates.{Gate, Gates, gate_at}
use diffdossier.Gates.Selection.{index}
use diffdossier.Config.{Marks, marked, entered, left, visit_each, visit_gate, validate_order}
use diffdossier.Config.Ranked.{HasRanks, Goes, needs, marked-put, visit_gate-ranks}

module _ (by_id : Gates) where
  -- The gates that are not being visited.
  outside : Marks → ℕ
  outside m = count_of (λ id. not (marked m.visiting id)) (keys by_id)

  outside_mono : (m m' : Marks) → Goes by_id m m' → outside m' ≤ outside m
  unfolding outside
  outside_mono m m' (f, g) =
      count_of_mono (λ id. not (marked m'.visiting id)) (λ id. not (marked m.visiting id))
        (keys by_id)
        (λ x h. elim (Bool-cases (marked m.visiting x)) [
          | inl e ↦ absurd (cc ((g x e).0, h))
          | inr e ↦ rw e refl
        ])

  outside-entered :
      (id : String) (m : Marks)
      → string_in id (keys by_id) ≡ true
      → marked m.visiting id ≡ false
      → outside (entered id m) < outside m
  unfolding outside entered
  outside-entered id m k free =
      count_of-less (λ x. not (marked (put id true m.visiting) x)) (λ x. not (marked m.visiting x))
        (keys by_id) id (λ x h. ground (arith, marked-put m.visiting id x true)) k
        (ground (arith, marked-put m.visiting id id true, eq_refl id)) (ground arith)

  visit_each-ends :
      (fuel : ℕ)
      → ((id : String) (m : Marks)
          → HasRanks by_id m
          → outside m < fuel
          → visit_gate by_id fuel id m ≢ err "out of fuel")
      → (ids : List String) (m : Marks) → HasRanks by_id m
      → outside m < fuel
      → visit_each (visit_gate by_id fuel) ids m ≢ err "out of fuel"
  unfolding visit_each
  visit_each-ends fuel each [] m r u h = ok≢err h
  visit_each-ends fuel each (id ∷ ids) m r u h =
      elim (>>=-eq-err (visit_gate by_id fuel id m)
        (λ (after : Marks). visit_each (visit_gate by_id fuel) ids after) "out of fuel" h) [
          | inl first ↦ each id m r u first
          | inr (v, first, rest) ↦
              let (r1, (g, d)) = visit_gate-ranks by_id fuel id m v r first in
              let less = outside_mono m v g in visit_each-ends fuel each ids v r1 (omega arith) rest
        ]

  no_needs : (id : String) → string_in id (keys by_id) ≡ false → (gate_at by_id id).depends_on ≡ []
  unfolding gate_at has_key
  no_needs id k = elim (Option-cases (get id by_id)) [
    | inl e ↦ rw (e, gate_at) refl
    | inr (gate, e) ↦
        let there : has_key id by_id ≡ true = rw (e, has_key) refl in
        absurd (cc (there, sym (has_key-in id by_id) ∙ k))
  ]

  visit_gate-ends :
      (fuel : ℕ) (id : String) (m : Marks)
      → HasRanks by_id m
      → outside m < fuel
      → visit_gate by_id fuel id m ≢ err "out of fuel"
  unfolding visit_gate visit_each
  visit_gate-ends zero id m r u h = absurd (omega arith)
  visit_gate-ends (suc fuel) id m r u h = elim (Bool-cases (marked m.visiting id)) [
    | inl a ↦ absurd (cc (rw (a, visit_gate) at h))
    | inr a ↦ elim (Bool-cases (marked m.visited id)) [
      | inl b ↦ ok≢err (rw (a, b, visit_gate) at h)
      | inr b ↦
          elim (>>=-eq-err (visit_each (visit_gate by_id fuel) (needs by_id id) (entered id m))
            (λ (after : Marks). ok (left id after)) "out of fuel" (rw (a, b, visit_gate) at h)) [
              | inr (v, first, last) ↦ ok≢err last
              | inl first ↦ elim (Bool-cases (string_in id (keys by_id))) [
                | inl k ↦
                    let less = outside-entered id m k a in
                    visit_each-ends fuel (visit_gate-ends fuel) (needs by_id id) (entered id m)
                      (unfold entered in r) (omega arith) first
                | inr k ↦ ok≢err (
                    subst
                      (λ ids.
                        visit_each (visit_gate by_id fuel) ids (entered id m) ≡ err "out of fuel")
                      (no_needs id k) first)
              ]
            ]
    ]
  ]

length-keys : (g : Gates) → length (keys g) ≡ length g
length-keys [] = refl
length-keys (entry ∷ g) = cc (length-keys g)

-- `Validate` fails for its checks alone: the visits never run out of fuel.
pub validate_order-ends : (gates : List Gate) → validate_order gates ≢ err "out of fuel"
unfolding validate_order outside marked get
validate_order-ends gates h =
    let by_id = index gates [] in
    let fuel = suc (length by_id) in
    let start : Marks = record { visiting = []; visited = [] } in
    let ranks : HasRanks by_id start = ((λ x. 0), 0, λ id v. absurd (cc v)) in
    let bound = count_of-bound (λ id. not (marked start.visiting id)) (keys by_id) in
    visit_each-ends by_id fuel (visit_gate-ends by_id fuel) (keys by_id) start ranks
      (omega (arith, bound, length-keys by_id)) h
