-- ===== src/Config/Load.antt =====
-- internal/config/config.go: the file format, and the layers of configuration.
use Prim.Native.Char.{code}
use Prim.Native.String.{len, slice}
use text.Mathlib.Text.{starts_with}
use diffdossier.Prelude.{
  ℕ, zero, suc, ◌-◌, String, Bool, true, false, not, ◌&&◌, ◌||◌, Option, none, some, List, [], ◌∷◌,
  ◌++◌, length, eqb, if◌then◌else◌, ◌==◌, Outcome, ok, err, ◌>>=◌, ◌>>◌, refuse_if, string_in,
}
use diffdossier.Digests.{Sha256, tagged, joined}
use diffdossier.Policy.{Count}
use diffdossier.Gates.{Gate, zero_gate}
use diffdossier.Config.{Config, default, validate}

-- Go's library, as far as the format uses it.
pub record Format : Type 0 where
  pub trim : String → String
  pub unquote : String → Outcome String
  pub parse_int : String → Outcome Count
  pub parse_bool : String → Outcome Bool
  pub config_text : Config → String  -- json.Marshal

-- A text up to a comment: `in_string` and `escaped` are the variables of the loop.
unfoldable pub strip : Bool → Bool → String → String
strip in_string escaped String.[] = String.[]
strip in_string escaped (String.◌∷◌ c rest) =
    let escapes = eqb (code c) 92 && in_string in
    let toggles = eqb (code c) 34 && not escaped in
    let inside = if toggles then not in_string else in_string in
    let behind = strip inside (escapes && not escaped) rest in
    if eqb (code c) 35 && not inside then String.[] else String.◌∷◌ c behind

abbrev pub strip_comment : String → String
strip_comment line = strip false false line

-- The text up to the first character with the code, and the text behind it.
unfoldable pub cut : ℕ → String → Option (String × String)
cut n String.[] = none
cut n (String.◌∷◌ c rest) = if eqb (code c) n then some ("", rest) else elim (cut n rest) [
  | none ↦ none
  | some (before, behind) ↦ some (String.◌∷◌ c before, behind)
]

-- Behind an opening quote: the text with the closing quote, and what comes behind it.
unfoldable pub quoted : Bool → String → Option (String × String)
quoted escaped String.[] = none
quoted escaped (String.◌∷◌ c rest) =
    if eqb (code c) 34 && not escaped
    then some (String.◌∷◌ c String.[], rest)
    else elim (quoted (eqb (code c) 92 && not escaped) rest) [
      | none ↦ none
      | some (text, behind) ↦ some (String.◌∷◌ c text, behind)
    ]

unfoldable pub ends_with : ℕ → String → Bool
ends_with n String.[] = false
ends_with n (String.◌∷◌ c String.[]) = eqb (code c) n
ends_with n (String.◌∷◌ c (String.◌∷◌ d rest)) = ends_with n (String.◌∷◌ d rest)

module _ (format : Format) where
  -- The loop of `parseStrings` over the body between the brackets, which gets shorter each time.
  unfoldable pub parse_items : ℕ → String → Outcome (List String)
  parse_items zero body = err "out of fuel"
  parse_items (suc fuel) body = elim (format.trim body) [
    | String.[] ↦ err "expected quoted string in array"
    | String.◌∷◌ c rest ↦
        if not (eqb (code c) 34)
        then err "expected quoted string in array"
        else elim (quoted false rest) [
          | none ↦ err "unterminated string in array"
          | some (text, behind) ↦ format.unquote (String.◌∷◌ c text) >>= λ value.
              elim (format.trim behind) [
                | String.[] ↦ ok (value ∷ [])
                | String.◌∷◌ d more ↦
                    if not (eqb (code d) 44)
                    then err "expected comma between array values"
                    else if more == ""
                    then ok (value ∷ [])
                    else parse_items fuel more >>= λ others. ok (value ∷ others)
              ]
        ]
  ]

  unfoldable pub parse_strings : String → Outcome (List String)
  parse_strings text =
      let raw = format.trim text in
      refuse_if
        (eqb (len raw) 0
          || (eqb (len raw) 1 || (not (starts_with raw "[") || not (ends_with 93 raw))))
        "expected string array"
      >> (let body = format.trim (slice raw 1 (len raw - 1)) in
          if body == "" then ok [] else parse_items (len body) body)

  -- `assign` on the last gate, which is the one of the section.
  unfoldable pub assign_gate : String → String → Gate → Outcome Gate
  assign_gate key raw gate =
      let text = λ (set : String → Gate). format.unquote raw >>= λ value. ok (set value) in
      let texts = λ (set : List String → Gate). parse_strings raw >>= λ values. ok (set values) in
      let flag = λ (set : Bool → Gate). format.parse_bool raw >>= λ value. ok (set value) in
      if key == "id"
      then text (λ v. record gate { id = v })
      else if key == "argv"
      then texts (λ v. record gate { argv = v })
      else if key == "cwd"
      then text (λ v. record gate { cwd = v })
      else if key == "env_allowlist"
      then texts (λ v. record gate { env_allowlist = v })
      else if key == "when_paths"
      then texts (λ v. record gate { when_paths = v })
      else if key == "depends_on"
      then texts (λ v. record gate { depends_on = v })
      else if key == "timeout_seconds"
      then (format.parse_int raw >>= λ n. ok (record gate { timeout_seconds = n }))
      else if key == "blocking"
      then flag (λ v. record gate { blocking = v })
      else if key == "resource_class"
      then text (λ v. record gate { resource_class = v })
      else if key == "cache_class"
      then text (λ v. record gate { cache_class = v })
      else if key == "final_always"
      then flag (λ v. record gate { final_always = v })
      else if key == "network_class"
      then text (λ v. record gate { network_class = v })
      else if key == "expected_writes"
      then texts (λ v. record gate { expected_writes = v })
      else if key == "redaction_policy"
      then text (λ v. record gate { redaction_policy = v })
      else err "unknown field"

  unfoldable pub assign_last : String → String → List Gate → Outcome (List Gate)
  assign_last key raw [] = err "unknown field"
  assign_last key raw (gate ∷ []) = assign_gate key raw gate >>= λ changed. ok (changed ∷ [])
  assign_last key raw (gate ∷ next ∷ rest) =
      assign_last key raw (next ∷ rest) >>= λ others. ok (gate ∷ others)

  unfoldable pub assign : String → String → String → Config → Outcome Config
  assign section key raw config =
      let qualified = if section == "" then key else joined section (joined "." key) in
      let int = λ (set : Count → Config). format.parse_int raw >>= λ value. ok (set value) in
      let text = λ (set : String → Config). format.unquote raw >>= λ value. ok (set value) in
      let texts = λ (set : List String → Config). parse_strings raw >>= λ values. ok (set values) in
      if qualified == "schema_version"
      then int (λ v. record config { schema_version = v })
      else if qualified == "baseline"
      then text (λ v. record config { baseline = v })
      else if qualified == "include_untracked"
      then (format.parse_bool raw >>= λ v. ok (record config { include_untracked = v }))
      else if qualified == "include_ignored"
      then texts (λ v. record config { include_ignored = v })
      else if qualified == "review.max_files_per_task"
      then int (λ v. record config { review = record config.review { max_files_per_task = v } })
      else if qualified == "review.max_packet_bytes"
      then int (λ v. record config { review = record config.review { max_packet_bytes = v } })
      else if qualified == "review.default_provider"
      then text (λ v. record config { review = record config.review { default_provider = v } })
      else if qualified == "state.retention_days"
      then int (λ v. record config { retention_days = v })
      else if qualified == "risk.policy_files"
      then texts (λ v. record config { policy_files = v })
      else if section == "gates"
      then (assign_last key raw config.gates >>= λ gates. ok (record config { gates = gates }))
      else err "unknown field"

-- The variables of the loop over the lines. A field is seen under its section, the number of gates
-- in that section, and its key; `seen_fields` has these texts.
pub record Cursor : Type 0 where
  pub config : Config
  pub section : String
  pub gates_replaced : Bool
  pub seen_fields : List String
  pub seen_sections : List String

module _ (format : Format) (number : ℕ → String) where
  unfoldable pub begin_gate : Cursor → Cursor
  begin_gate cursor =
      let kept = if cursor.gates_replaced then cursor.config.gates else [] in
      record cursor {
        config = record cursor.config { gates = kept ++ zero_gate ∷ [] };
        section = "gates";
        gates_replaced = true;
      }

  unfoldable pub begin_section : String → Cursor → Outcome Cursor
  begin_section line cursor =
      let section = format.trim (slice line 1 (len line - 1)) in
      refuse_if (not (ends_with 93 line)) "unterminated section"
      >> (refuse_if (not (string_in section ("review" ∷ "state" ∷ "risk" ∷ []))) "unknown section"
          >> (refuse_if (string_in section cursor.seen_sections) "duplicate section"
              >> ok (record cursor {
                section = section;
                seen_sections = section ∷ cursor.seen_sections;
              })))

  -- `fmt.Sprintf("%s/%d/%s", section, gateIndex, key)`
  unfoldable pub field_id : Cursor → String → String
  field_id cursor key =
      let place =
        if cursor.section == "gates" then number (length cursor.config.gates - 1) else "-1" in
      joined cursor.section (joined "/" (joined place (joined "/" key)))

  unfoldable pub read_field : String → String → Cursor → Outcome Cursor
  read_field key raw cursor =
      let id = field_id cursor key in
      refuse_if (string_in id cursor.seen_fields) "duplicate field"
      >> (assign format cursor.section key raw cursor.config >>= λ config.
          ok (record cursor { config = config; seen_fields = id ∷ cursor.seen_fields }))

  unfoldable pub read_line : String → Cursor → Outcome Cursor
  read_line text cursor =
      let line = format.trim (strip_comment text) in
      if line == ""
      then ok cursor
      else if starts_with line "[["
      then (if line == "[[gates]]" then ok (begin_gate cursor) else err "unknown array section")
      else if starts_with line "["
      then begin_section line cursor
      else elim (cut 61 line) [
        | none ↦ err "expected key = value"
        | some (key, raw) ↦ read_field (format.trim key) (format.trim raw) cursor
      ]

  unfoldable pub read_lines : List String → Cursor → Outcome Cursor
  read_lines [] cursor = ok cursor
  read_lines (line ∷ rest) cursor = read_line line cursor >>= λ after. read_lines rest after

-- What `os.Open` and the scanner give: no file, another failure, or the text with its lines, which
-- may break off.
pub data ConfigFile : Type 0 where
  absent broken : ConfigFile
  lines : String → List String → Bool → ConfigFile

pub record Source : Type 0 where
  pub kind : String
  pub path : String
  pub digest : String

pub record Effective : Type 0 where
  pub config : Config
  pub sources : List Source
  pub digest : String

module _ (sha : Sha256) (format : Format) (number : ℕ → String) (files : String → ConfigFile) where
  unfoldable pub load_layer : Config → String → String → Outcome (Config × Source)
  load_layer config kind path = elim (files path) [
    | absent ↦ err "open config: not there"
    | broken ↦ err "open config"
    | lines content rows complete ↦
        read_lines format number rows (record {
          config = config;
          section = "";
          gates_replaced = false;
          seen_fields = [];
          seen_sections = [];
        })
        >>= λ cursor.
            refuse_if (not complete) "read config"
            >> (let layer = cursor.config in
                let checked : Config =
                  if format.trim layer.baseline == ""
                  then record layer { baseline = "pending-higher-precedence-baseline" }
                  else layer in
                validate format.trim checked
                >> ok (layer, record { kind = kind; path = path; digest = tagged sha content }))
  ]

  unfoldable pub override : String → Config → List Source → Config × List Source
  override baseline config sources = if format.trim baseline == "" then (config, sources) else (
    record config { baseline = baseline },
    sources ++ (record { kind = "cli"; path = "baseline"; digest = tagged sha baseline }) ∷ [],
  )

  unfoldable pub finish : Config → List Source → Outcome Effective
  finish config sources =
      validate format.trim config
      >> ok (record {
        config = config;
        sources = sources;
        digest = tagged sha (format.config_text config);
      })

  unfoldable pub finish_overridden : String → Config → List Source → Outcome Effective
  finish_overridden baseline config sources =
      let (last, all_sources) = override baseline config sources in finish last all_sources

  -- `LoadExactWithBaseline`; `LoadExact` has the baseline "".
  unfoldable pub load_exact : String → String → Outcome Effective
  load_exact path baseline = load_layer default "explicit" path >>= λ loaded.
      finish_overridden baseline loaded.0 (loaded.1 ∷ [])

  -- The user's layer, which may be absent.
  unfoldable pub load_user : String → Outcome (Config × List Source)
  load_user path = if path == "" then ok (default, []) else elim (files path) [
    | absent ↦ ok (default, [])
    | _ ↦ load_layer default "user" path >>= λ loaded. ok (loaded.0, loaded.1 ∷ [])
  ]

  -- `LoadEffectiveWithBaseline`; `LoadEffective` has the baseline "".
  unfoldable pub load_effective : String → String → String → Outcome Effective
  load_effective user_path repository_path baseline = load_user user_path >>= λ user.
      load_layer user.0 "repository" repository_path >>= λ loaded.
      finish_overridden baseline loaded.0 (user.1 ++ loaded.1 ∷ [])
