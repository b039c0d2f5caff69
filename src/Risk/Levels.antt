-- ===== src/Risk/Levels.antt =====
-- internal/risk/risk.go: what the overrides of a policy do to a level.
use diffdossier.Prelude.{
  ◌≤◌, String, true, false, List, [], ◌∷◌, ltb, ltb→lt, ok, ok-injective, ◌≡◌, refl, subst, arith,
  Bool-cases, Option-cases, inl, inr,
}
use diffdossier.Risk.{rank, Override, Inferred, PathText, overridden, apply_overrides}

module _ (text : PathText) where
  -- The level is at least as high, and what was known stays known.
  abbrev pub IsRaised : Inferred → Inferred → Type 0
  IsRaised r s = (rank r.level ≤ rank s.level) × (r.known ≡ true → s.known ≡ true)

  overridden-IsRaised : (o : Override) (r : Inferred) → IsRaised r (overridden text o r)
  unfolding overridden
  overridden-IsRaised o r = elim (Bool-cases (ltb (rank r.level) (rank o.level))) [
    | inl e ↦ (rw e (omega (arith, ltb→lt (rank r.level) (rank o.level) e)), λ _. refl)
    | inr e ↦ (rw e (omega arith), λ _. refl)
  ]

  -- Overrides never lower a level, whatever their order, and never make a known risk unknown.
  pub apply_overrides-IsRaised :
      (path : String) (overrides : List Override) (r s : Inferred)
      → apply_overrides text path overrides r ≡ ok s
      → IsRaised r s
  unfolding apply_overrides
  apply_overrides-IsRaised path [] r s h = subst (IsRaised r) (ok-injective h) (omega arith, λ k. k)
  apply_overrides-IsRaised path (o ∷ rest) r s h =
      elim (Option-cases (text.matches o.glob (text.to_slash path))) [
        | inl e ↦ absurd (cc (rw (e, apply_overrides) at h))
        | inr (true, e) ↦
            let first = overridden-IsRaised o r in
            let others =
              apply_overrides-IsRaised path rest (overridden text o r) s
                (rw (e, apply_overrides) at h) in
            (omega (arith, first.0, others.0), λ k. others.1 (first.1 k))
        | inr (false, e) ↦ apply_overrides-IsRaised path rest r s (rw (e, apply_overrides) at h)
      ]
