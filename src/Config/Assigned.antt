-- ===== src/Config/Assigned.antt =====
-- internal/config/config.go: what an assignment of `decodeInto` leaves of the gates.
use diffdossier.Prelude.{
  suc, String, Bool, true, false, List, [], ◌∷◌, length, if◌then◌else◌, ◌==◌, Bool-cases, inl, inr,
  Outcome, ok, err, ◌>>=◌, >>=-eq-ok, ok-injective, ◌≡◌, refl, sym, ap, ◌∙◌,
}
use diffdossier.Digests.{joined}
use diffdossier.Gates.{Gate}
use diffdossier.Config.{Config}
use diffdossier.Config.Load.{Format, assign, assign_last, assign_gate, parse_strings}

-- What an assignment keeps: the number of gates, and outside of their section the gates.
pub record Keeps (section : String) (config : Config) (o : Outcome Config) : Type 0 where
  pub keeps :
      (c : Config)
      → o ≡ ok c
      → (length c.gates ≡ length config.gates)
        × ((section == "gates") ≡ false → c.gates ≡ config.gates)

Keeps-if :
    (section : String) (config : Config) (test : Bool) (first second : Outcome Config)
    → Keeps section config first
    → Keeps section config second
    → Keeps section config (if test then first else second)
Keeps-if section config true first second a b = a
Keeps-if section config false first second a b = b

Keeps-set :
    {A : Type 0} (section : String) (config : Config) (value : Outcome A) (set : A → Config)
    → ((a : A) → (set a).gates ≡ config.gates)
    → Keeps section config (value >>= λ a. ok (set a))
Keeps-set section config value set same = record {
  keeps = λ c h.
      let (a, v, last) = >>=-eq-ok value _ h in
      let gates : c.gates ≡ config.gates =
        ap (λ (x : Config). x.gates) (sym (ok-injective last)) ∙ same a in
      (ap length gates, λ outside. gates);
}

module _ (format : Format) where
  assign_last-length :
      (key raw : String) (gates changed : List Gate)
      → assign_last format key raw gates ≡ ok changed
      → length changed ≡ length gates
  unfolding assign_last
  assign_last-length key raw [] changed h = cc
  assign_last-length key raw (gate ∷ []) changed h =
      let (g, v, last) = >>=-eq-ok (assign_gate format key raw gate) _ h in
      ap length (sym (ok-injective last))
  assign_last-length key raw (gate ∷ next ∷ rest) changed h =
      let (others, v, last) = >>=-eq-ok (assign_last format key raw (next ∷ rest)) _ h in
      ap length (sym (ok-injective last))
      ∙ ap suc (assign_last-length key raw (next ∷ rest) others v)

  assign_gates-Keeps :
      (section key raw : String) (config : Config)
      → Keeps section config (
          if section == "gates"
          then (assign_last format key raw config.gates >>= λ gates.
              ok (record config { gates = gates }))
          else err "unknown field")
  assign_gates-Keeps section key raw config = elim (Bool-cases (section == "gates")) [
    | inr outside ↦ rw outside (record { keeps = λ c h. absurd (cc h) })
    | inl inside ↦ record {
      keeps = λ c h.
          let (gates, v, last) =
            >>=-eq-ok (assign_last format key raw config.gates) _ (rw inside at h) in
          let same : c.gates ≡ gates = ap (λ (x : Config). x.gates) (sym (ok-injective last)) in
          (
            ap length same ∙ assign_last-length key raw config.gates gates v,
            λ outside. absurd (cc (inside, outside)),
          );
    }
  ]

  pub assign-Keeps :
      (section key raw : String) (config : Config)
      → Keeps section config (assign format section key raw config)
  unfolding assign
  assign-Keeps section key raw config =
      let q = if section == "" then key else joined section (joined "." key) in
      let none_left = assign_gates-Keeps section key raw config in
      let from8 =
        Keeps-if section config (q == "risk.policy_files") _ _
          (Keeps-set section config (parse_strings format raw)
            (λ v. record config { policy_files = v }) (λ v. refl))
          none_left in
      let from7 =
        Keeps-if section config (q == "state.retention_days") _ _
          (Keeps-set section config (format.parse_int raw)
            (λ v. record config { retention_days = v }) (λ v. refl))
          from8 in
      let from6 =
        Keeps-if section config (q == "review.default_provider") _ _
          (Keeps-set section config (format.unquote raw)
            (λ v. record config { review = record config.review { default_provider = v } })
            (λ v. refl))
          from7 in
      let from5 =
        Keeps-if section config (q == "review.max_packet_bytes") _ _
          (Keeps-set section config (format.parse_int raw)
            (λ v. record config { review = record config.review { max_packet_bytes = v } })
            (λ v. refl))
          from6 in
      let from4 =
        Keeps-if section config (q == "review.max_files_per_task") _ _
          (Keeps-set section config (format.parse_int raw)
            (λ v. record config { review = record config.review { max_files_per_task = v } })
            (λ v. refl))
          from5 in
      let from3 =
        Keeps-if section config (q == "include_ignored") _ _
          (Keeps-set section config (parse_strings format raw)
            (λ v. record config { include_ignored = v }) (λ v. refl))
          from4 in
      let from2 =
        Keeps-if section config (q == "include_untracked") _ _
          (Keeps-set section config (format.parse_bool raw)
            (λ v. record config { include_untracked = v }) (λ v. refl))
          from3 in
      let from1 =
        Keeps-if section config (q == "baseline") _ _
          (Keeps-set section config (format.unquote raw) (λ v. record config { baseline = v })
            (λ v. refl))
          from2 in
      let from0 =
        Keeps-if section config (q == "schema_version") _ _
          (Keeps-set section config (format.parse_int raw)
            (λ v. record config { schema_version = v }) (λ v. refl))
          from1 in
      from0
