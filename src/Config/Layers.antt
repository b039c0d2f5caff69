-- ===== src/Config/Layers.antt =====
-- internal/config/config.go: the gates that `LoadEffectiveWithBaseline` has of its layers.
use diffdossier.Prelude.{
  ℕ, zero, suc, ◌<◌, String, Bool, false, not, List, [], ◌∷◌, ◌++◌, length, arith, if◌then◌else◌,
  ◌==◌, Bool-cases, ◌⊎◌, inl, inr, ok, >>=-eq-ok, ok-injective, refuse_if, ◌≡◌, refl, sym, ap,
  subst, ◌∙◌,
}
use diffdossier.Digests.{Sha256}
use diffdossier.Gates.{Gate}
use diffdossier.Config.{Config, default, validate}
use diffdossier.Config.Load.{
  Format, ConfigFile, absent, broken, lines, Source, Effective, Cursor, read_lines, load_layer,
  override, finish, finish_overridden, load_user, load_effective,
}
use diffdossier.Config.Rows.{count_gates, IsRead, untouched, replaced, read_lines-IsRead}

ConfigFile-cases :
    (file : ConfigFile)
    → (file ≡ absent)
      ⊎ ((file ≡ broken)
          ⊎ ((content : String) × (rows : List String) × (complete : Bool) × (file
                ≡ lines content rows complete)))
ConfigFile-cases absent = inl refl
ConfigFile-cases broken = inr (inl refl)
ConfigFile-cases (lines content rows complete) = inr (inr (content, rows, complete, refl))

module _ (sha : Sha256) (format : Format) (number : ℕ → String) (files : String → ConfigFile) where
  -- How many gates the lines of a file begin.
  abbrev pub gates_of : ConfigFile → ℕ
  gates_of absent = 0
  gates_of broken = 0
  gates_of (lines content rows complete) = count_gates format rows

  -- The gates of a layer: `n` new ones, or those below it where `n` is 0.
  abbrev pub AreLayered : List Gate → ℕ → List Gate → Type 0
  AreLayered base n gates = (n ≡ 0 → gates ≡ base) × (0 < n → length gates ≡ n)

  IsRead-AreLayered :
      (base : List Gate) (n : ℕ) (cursor : Cursor)
      → IsRead format base n cursor
      → AreLayered base n cursor.config.gates
  IsRead-AreLayered base n cursor (untouched none_yet kept outside gates) =
      (λ z. gates, λ more. absurd (omega (arith, none_yet, more)))
  IsRead-AreLayered base n cursor (replaced more done counted) =
      (λ z. absurd (omega (arith, z, more)), λ m. counted)

  read_layer :
      (rows : List String) (base config : Config) (content kind path : String) (complete : Bool)
      (source : Source)
      → let start : Cursor = record {
        config = base;
        section = "";
        gates_replaced = false;
        seen_fields = [];
        seen_sections = [];
      } in
        files path ≡ lines content rows complete
        → load_layer sha format number files base kind path ≡ ok (config, source)
        → (after : Cursor) × (read_lines format number rows start ≡ ok after)
          × (after.config ≡ config)
  unfolding load_layer
  read_layer rows base config content kind path complete source f h =
      let start : Cursor = record {
        config = base;
        section = "";
        gates_replaced = false;
        seen_fields = [];
        seen_sections = [];
      } in
      let (after, read, h1) =
        >>=-eq-ok (read_lines format number rows start) _ (rw (f, load_layer) at h) in
      let (u, v, h2) = >>=-eq-ok (refuse_if (not complete) "read config") _ h1 in
      let (w, x, last) = >>=-eq-ok (validate format.trim _) _ h2 in
      (after, read, ap (λ (t : Config × Source). t.0) (ok-injective last))

  load_layer-AreLayered :
      (base config : Config) (kind path : String) (source : Source)
      → load_layer sha format number files base kind path ≡ ok (config, source)
      → AreLayered base.gates (gates_of (files path)) config.gates
  unfolding load_layer
  load_layer-AreLayered base config kind path source h = elim (ConfigFile-cases (files path)) [
    | inl f ↦ absurd (cc (rw (f, load_layer) at h))
    | inr (inl f) ↦ absurd (cc (rw (f, load_layer) at h))
    | inr (inr (content, rows, complete, f)) ↦
        let (after, read, same) =
          read_layer rows base config content kind path complete source f h in
        let whole : IsRead format base.gates (count_gates format rows) after =
          subst (λ n. IsRead format base.gates n after) (omega arith)
            (read_lines-IsRead format number rows base.gates 0 _ after
              (untouched refl refl refl refl) read) in
        let layered = IsRead-AreLayered base.gates (count_gates format rows) after whole in
        subst (λ n. AreLayered base.gates n config.gates) (sym (ap gates_of f))
          (subst (λ (c : Config). AreLayered base.gates (count_gates format rows) c.gates) same
            layered)
  ]

  abbrev pub user_gates : String → ℕ
  user_gates path = if path == "" then 0 else gates_of (files path)

  as_many : (n : ℕ) (gates : List Gate) → AreLayered [] n gates → length gates ≡ n
  as_many zero gates h = ap length (h.0 refl)
  as_many (suc n) gates h = h.1 (omega arith)

  load_user-length :
      (path : String) (user : Config × List Source)
      → load_user sha format number files path ≡ ok user
      → length user.0.gates ≡ user_gates path
  unfolding load_user load_layer
  load_user-length path user h = elim (Bool-cases (path == "")) [
    | inl e ↦ rw e (
        ap (λ (u : Config × List Source). length u.0.gates)
          (sym (ok-injective (rw (e, load_user) at h))))
    | inr e ↦ elim (ConfigFile-cases (files path)) [
      | inl f ↦
          rw (e, f)
            (ap (λ (u : Config × List Source). length u.0.gates)
              (sym (ok-injective (rw (e, f, load_user) at h))))
      | inr (inl f) ↦
          let (loaded, l, last) =
            >>=-eq-ok (load_layer sha format number files default "user" path) _
              (rw (e, f, load_user) at h) in
          absurd (cc (rw (f, load_layer) at l))
      | inr (inr (content, rows, complete, f)) ↦
          let (loaded, l, last) =
            >>=-eq-ok (load_layer sha format number files default "user" path) _
              (rw (e, f, load_user) at h) in
          let layered = load_layer-AreLayered default loaded.0 "user" path loaded.1 l in
          let gates =
            ap (λ (u : Config × List Source). length u.0.gates) (sym (ok-injective last)) in
          rw e (gates ∙ as_many (gates_of (files path)) loaded.0.gates layered)
    ]
  ]

  finish-gates :
      (config : Config) (sources : List Source) (e : Effective)
      → finish sha format number files config sources ≡ ok e
      → e.config.gates ≡ config.gates
  unfolding finish
  finish-gates config sources e h =
      let (u, v, last) = >>=-eq-ok (validate format.trim config) _ h in
      ap (λ (x : Effective). x.config.gates) (sym (ok-injective last))

  finish_overridden-gates :
      (baseline : String) (config : Config) (sources : List Source) (e : Effective)
      → finish_overridden sha format number files baseline config sources ≡ ok e
      → e.config.gates ≡ config.gates
  unfolding finish_overridden override
  finish_overridden-gates baseline config sources e h =
      elim (Bool-cases (format.trim baseline == "")) [
        | inl b ↦ finish-gates config _ e (rw (b, finish_overridden) at h)
        | inr b ↦
            finish-gates (record config { baseline = baseline }) _ e
              (rw (b, finish_overridden) at h)
      ]

  -- The gates of an effective configuration: as many as the lines `[[gates]]` of the repository's
  -- file, and where it has none, the gates of the user's configuration, which are as many as the
  -- lines of the user's file, and none where there is no such file. The gates of the layers are
  -- never mixed.
  pub load_effective-AreLayered :
      (user_path repository_path baseline : String) (e : Effective)
      → load_effective sha format number files user_path repository_path baseline ≡ ok e
      → (user : Config) × (sources : List Source) × (load_user sha format number files user_path
          ≡ ok (user, sources))
        × (length user.gates ≡ user_gates user_path)
        × AreLayered user.gates (gates_of (files repository_path)) e.config.gates
  unfolding load_effective
  load_effective-AreLayered user_path repository_path baseline e h =
      let (user, u, h1) = >>=-eq-ok (load_user sha format number files user_path) _ h in
      let (loaded, l, last) =
        >>=-eq-ok (load_layer sha format number files user.0 "repository" repository_path) _ h1 in
      let kept = finish_overridden-gates baseline loaded.0 (user.1 ++ loaded.1 ∷ []) e last in
      (
        user.0,
        user.1,
        u,
        load_user-length user_path user u,
        subst (AreLayered user.0.gates (gates_of (files repository_path))) (sym kept)
            (load_layer-AreLayered user.0 loaded.0 "repository" repository_path loaded.1 l),
      )
