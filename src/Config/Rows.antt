-- ===== src/Config/Rows.antt =====
-- internal/config/config.go: the gates behind the lines of a configuration file.
use Prim.Native.String.{len, slice}
use text.Mathlib.Text.{starts_with}
use diffdossier.Prelude.{
  ℕ, suc, ◌+◌, ◌-◌, ◌<◌, String, Bool, true, false, not, List, [], ◌∷◌, length, length-append,
  arith, if◌then◌else◌, ◌==◌, eq_iff, Bool-cases, Option-cases, inl, inr, ok, >>=-eq-ok,
  ok-injective, refuse_if, refuse_if-ok, string_in, ◌≡◌, refl, sym, subst, ◌∙◌,
}
use diffdossier.Gates.{Gate, zero_gate}
use diffdossier.Config.Load.{
  Format, Cursor, strip_comment, cut, assign, begin_gate, begin_section, read_field, read_line,
  read_lines, field_id, ends_with,
}
use diffdossier.Config.Assigned.{assign-Keeps}

module _ (format : Format) where
  -- A line that begins a gate.
  abbrev pub begins_gate : String → Bool
  begins_gate row = format.trim (strip_comment row) == "[[gates]]"

  abbrev pub count_gates : List String → ℕ
  count_gates [] = 0
  count_gates (row ∷ rest) =
      let others = count_gates rest in if begins_gate row then suc others else others

  -- The gates behind lines of which `n` begin a gate: those of the layers below, or `n` new ones.
  pub data IsRead (base : List Gate) (n : ℕ) (cursor : Cursor) : Type 0 where
    untouched :
        n ≡ 0
        → cursor.gates_replaced ≡ false
        → (cursor.section == "gates") ≡ false
        → cursor.config.gates ≡ base
        → IsRead base n cursor
    replaced :
        0 < n → cursor.gates_replaced ≡ true → length cursor.config.gates ≡ n → IsRead base n cursor

  module _ (number : ℕ → String) where
    begin_gate-IsRead :
        (base : List Gate) (n : ℕ) (cursor : Cursor)
        → IsRead base n cursor
        → IsRead base (suc n) (begin_gate format number cursor)
    unfolding begin_gate
    begin_gate-IsRead base n cursor (untouched none_yet kept outside gates) =
        replaced (omega arith) refl (rw kept (omega (arith, none_yet)))
    begin_gate-IsRead base n cursor (replaced more done counted) =
        replaced (omega arith) refl
          (rw done (omega (arith, counted, length-append cursor.config.gates (zero_gate ∷ []))))

    read_field-IsRead :
        (key raw : String) (base : List Gate) (n : ℕ) (cursor after : Cursor)
        → IsRead base n cursor
        → read_field format number key raw cursor ≡ ok after
        → IsRead base n after
    unfolding read_field
    read_field-IsRead key raw base n cursor after h r =
        let seen = string_in (field_id format number cursor key) cursor.seen_fields in
        let (u, u', r1) = >>=-eq-ok (refuse_if seen "duplicate field") _ r in
        let (config, assigned, last) =
          >>=-eq-ok (assign format cursor.section key raw cursor.config) _ r1 in
        let (count, same) =
          (assign-Keeps format cursor.section key raw cursor.config).keeps config assigned in
        let changed : Cursor = record cursor {
          config = config;
          seen_fields = field_id format number cursor key ∷ cursor.seen_fields;
        } in
        let read : IsRead base n changed = elim h [
          | untouched none_yet kept outside gates ↦
              untouched none_yet kept outside (same outside ∙ gates)
          | replaced more done counted ↦ replaced more done (count ∙ counted)
        ] in
        subst (IsRead base n) (ok-injective last) read

    known_section :
        (section : String)
        → string_in section ("review" ∷ "state" ∷ "risk" ∷ []) ≡ true
        → (section == "gates") ≡ false
    unfolding string_in
    known_section section h =
        let is_gates = λ (e : section ≡ "gates").
          subst (λ s. string_in s ("review" ∷ "state" ∷ "risk" ∷ []) ≡ true) e h in
        elim (Bool-cases (section == "gates")) [
          | inr outside ↦ outside
          | inl inside ↦ absurd (cc (is_gates ((eq_iff section "gates").0 inside)))
        ]

    begin_section-IsRead :
        (line : String) (base : List Gate) (n : ℕ) (cursor after : Cursor)
        → IsRead base n cursor
        → begin_section format number line cursor ≡ ok after
        → IsRead base n after
    unfolding begin_section
    begin_section-IsRead line base n cursor after h r =
        let section = format.trim (slice line 1 (len line - 1)) in
        let named = string_in section ("review" ∷ "state" ∷ "risk" ∷ []) in
        let (u1, v1, r1) =
          >>=-eq-ok (refuse_if (not (ends_with 93 line)) "unterminated section") _ r in
        let (u2, v2, r2) = >>=-eq-ok (refuse_if (not named) "unknown section") _ r1 in
        let (u3, v3, last) =
          >>=-eq-ok (refuse_if (string_in section cursor.seen_sections) "duplicate section") _ r2 in
        let known = refuse_if-ok (not named) "unknown section" u2 v2 in
        let outside = known_section section (ground (arith, known)) in
        let changed : Cursor = record cursor {
          section = section;
          seen_sections = section ∷ cursor.seen_sections;
        } in
        let read : IsRead base n changed = elim h [
          | untouched none_yet kept before gates ↦ untouched none_yet kept outside gates
          | replaced more done counted ↦ replaced more done counted
        ] in
        subst (IsRead base n) (ok-injective last) read

    -- A line that begins no gate.
    other_line-IsRead :
        (row : String) (base : List Gate) (n : ℕ) (cursor after : Cursor)
        → begins_gate row ≡ false
        → IsRead base n cursor
        → read_line format number row cursor ≡ ok after
        → IsRead base n after
    unfolding read_line
    other_line-IsRead row base n cursor after other h r =
        let line = format.trim (strip_comment row) in
        elim (Bool-cases (line == "")) [
          | inl e ↦ subst (IsRead base n) (ok-injective (rw e at r)) h
          | inr e ↦ elim (Bool-cases (starts_with line "[[")) [
            | inl a ↦ absurd (cc (rw (e, a, other) at r))
            | inr a ↦ elim (Bool-cases (starts_with line "[")) [
              | inl s ↦ begin_section-IsRead line base n cursor after h (rw (e, a, s) at r)
              | inr s ↦ elim (Option-cases (cut 61 line)) [
                | inl c ↦ absurd (cc (rw (e, a, s, c) at r))
                | inr ((key, raw), c) ↦
                    read_field-IsRead (format.trim key) (format.trim raw) base n cursor after h
                      (rw (e, a, s, c) at r)
              ]
            ]
          ]
        ]

    gate_line :
        (row : String) (cursor : Cursor)
        → begins_gate row ≡ true
        → read_line format number row cursor ≡ ok (begin_gate format number cursor)
    unfolding read_line
    gate_line row cursor h =
        let line = (eq_iff (format.trim (strip_comment row)) "[[gates]]").0 h in rw line refl

    pub read_lines-IsRead :
        (rows : List String) (base : List Gate) (n : ℕ) (cursor after : Cursor)
        → IsRead base n cursor
        → read_lines format number rows cursor ≡ ok after
        → IsRead base (n + count_gates rows) after
    unfolding read_lines
    read_lines-IsRead [] base n cursor after h r =
        subst (IsRead base (n + 0)) (ok-injective r)
          (subst (λ k. IsRead base k cursor) (omega arith) h)
    read_lines-IsRead (row ∷ rest) base n cursor after h r =
        let (next, first, others) = >>=-eq-ok (read_line format number row cursor) _ r in
        elim (Bool-cases (begins_gate row)) [
          | inl b ↦
              let begun : begin_gate format number cursor ≡ next =
                ok-injective (sym (gate_line row cursor b) ∙ first) in
              let read =
                read_lines-IsRead rest base (suc n) next after
                  (subst (IsRead base (suc n)) begun (begin_gate-IsRead base n cursor h)) others in
              rw b (subst (λ k. IsRead base k after) (omega arith) read)
          | inr b ↦ rw b (
              read_lines-IsRead rest base n next after
                (other_line-IsRead row base n cursor next b h first) others)
        ]
