-- ===== src/Gates/Selection.antt =====
-- internal/gates/plan.go: the gates that changed paths select, and the dependencies they pull in.
use diffdossier.Prelude.{
  ℕ, zero, suc, String, Bool, true, false, ◌||◌, Option, none, some, List, [], ◌∷◌, ◌++◌, any,
  is_empty, length, eqb, if◌then◌else◌, put, has_key,
}
use diffdossier.Digests.{joined}
use diffdossier.Gates.{Gate, Gates, gate_at}

-- Go's library, as far as patterns use it: the bytes of a text, `filepath.ToSlash`,
-- `regexp.QuoteMeta(string(b))` of a byte, and `regexp.Compile` with `MatchString`.
pub record Regexps : Type 0 where
  pub bytes : String → List ℕ
  pub to_slash : String → String
  pub quoted_byte : ℕ → String
  pub compile : String → Option (String → Bool)

-- How many stars of the pattern are read and not yet written out.
pub data Stars : Type 0 where
  no_star : Stars
  one_star : Stars
  two_stars : Stars

-- What the stars come to when no slash or star follows.
unfoldable pub written : Stars → String
written no_star = ""
written one_star = "[^/]*"
written two_stars = ".*"

module _ (re : Regexps) where
  unfoldable pub glob_plain : String → ℕ → String × Stars
  glob_plain before byte =
      if eqb byte 42
      then (before, one_star)
      else if eqb byte 63
      then (joined before "[^/]", no_star)
      else (joined before (re.quoted_byte byte), no_star)

  unfoldable pub glob_step : Stars → ℕ → String × Stars
  glob_step no_star byte = glob_plain "" byte
  glob_step one_star byte =
      if eqb byte 42 then ("", two_stars) else glob_plain (written one_star) byte
  glob_step two_stars byte =
      if eqb byte 47 then ("(?:.*/)?", no_star) else glob_plain (written two_stars) byte

  -- The `switch` of the loop looks up to two bytes ahead; here the stars read are kept instead.
  unfoldable pub glob_body : Stars → List ℕ → String
  glob_body stars [] = written stars
  glob_body stars (byte ∷ rest) =
      let (text, next) = glob_step stars byte in joined text (glob_body next rest)

  unfoldable pub glob_regexp : String → Option (String → Bool)
  glob_regexp pattern =
      re.compile (joined "^" (joined (glob_body no_star (re.bytes (re.to_slash pattern))) "$"))

  unfoldable pub matches_any : List String → List String → Bool
  matches_any patterns paths =
      is_empty patterns
      || any (λ pattern. elim (glob_regexp pattern) [ none ↦ false | some found ↦ any found paths ])
          patterns

  unfoldable pub select : List String → List Gate → Gates → Gates
  select changed [] selected = selected
  select changed (gate ∷ rest) selected =
      select changed rest
        (if matches_any gate.when_paths changed then put gate.id gate selected else selected)

unfoldable pub index : List Gate → Gates → Gates
index [] by_id = by_id
index (gate ∷ rest) by_id = index rest (put gate.id gate by_id)

-- The loop over `gate.DependsOn`, with the flag `changedSelection`.
unfoldable pub pull_dependencies : Gates → List String → Gates × Bool → Gates × Bool
pull_dependencies by_id [] state = state
pull_dependencies by_id (dep ∷ rest) (selected, changed) = pull_dependencies by_id rest (
    if has_key dep selected
    then (selected, changed)
    else (put dep (gate_at by_id dep) selected, true))

-- One round over the gates that were selected when it began; Go may reach some of the new ones in
-- the same round, and else reaches them in the next.
unfoldable pub pull_round : Gates → Gates → Gates × Bool → Gates × Bool
pull_round by_id [] state = state
pull_round by_id (entry ∷ rest) state =
    pull_round by_id rest (pull_dependencies by_id entry.1.depends_on state)

unfoldable pub pull : ℕ → Gates → Gates → Gates
pull zero by_id selected = selected
pull (suc fuel) by_id selected =
    let (next, changed) = pull_round by_id selected (selected, false) in
    elim changed [ false ↦ next | true ↦ pull fuel by_id next ]

unfoldable pub dependency_names : List Gate → List String
dependency_names [] = []
dependency_names (gate ∷ rest) = gate.depends_on ++ dependency_names rest

unfoldable pub selection : Regexps → List String → List Gate → Gates
selection re changed gates =
    pull (suc (length (dependency_names gates))) (index gates []) (select re changed gates [])
