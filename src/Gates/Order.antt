-- ===== src/Gates/Order.antt =====
-- internal/gates/plan.go: what `topological` returns, and when it fails.
use diffdossier.Prelude.{
  suc, String, true, List, [], length, ok, >>=-eq-ok, ok-injective, All-string_in, All-of_string_in,
  string_in, sort_strings, All, All-unsort, All-sort_by, has_key, has_key-in, keys, ◌≡◌, sym, ◌∙◌,
  arith,
}
use diffdossier.Gates.{Gates, Walk, state_of, visit_all, topological}
use diffdossier.Gates.Walks.{IsOrdered, IsSound-start, visit_all-visited}

abbrev pub start : Walk
start = record { state = []; order = [] }

module _ (gates : Gates) where
  pub All-keys : All (λ id. has_key id gates ≡ true) (keys gates)
  All-keys =
      All-of_string_in (λ id. has_key id gates ≡ true) (keys gates)
        (λ id h. sym (has_key-in id gates) ∙ h)

  -- An order that `topological` returns has each gate of the map once and no other, and each gate
  -- stands in it behind all its dependencies.
  pub topological-IsOrdered :
      (order : List String)
      → topological gates ≡ ok order
      → IsOrdered gates [] order × ((id : String) → string_in id order ≡ has_key id gates)
  unfolding topological
  topological-IsOrdered order h =
      let ids = sort_strings (keys gates) in
      let (w, all_visited, last) =
        >>=-eq-ok (visit_all gates (suc (length gates)) ids start) (λ (walk : Walk). ok walk.order)
          h in
      let (s, a, d) =
        visit_all-visited gates (suc (length gates)) ids start w
          (All-sort_by (λ s. s) (λ id. has_key id gates ≡ true) (keys gates) All-keys)
          (IsSound-start gates) all_visited in
      let done = All-unsort (λ s. s) (λ id. state_of w id ≡ 2) (keys gates) d in
      rw (sym (ok-injective last)) (
        s.ordered,
        λ id. ground (
          arith,
          has_key-in id gates,
          s.known id,
          λ (m : string_in id (keys gates) ≡ true).
              s.placed id (All-string_in (λ x. state_of w x ≡ 2) (keys gates) id done m),
        ),
      )
