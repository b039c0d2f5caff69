-- ===== src/Invalidation/Rounds.antt =====
-- internal/workflow/invalidation.go: the rounds end, and what they leave is closed under the
-- dependencies between the tasks, in both directions.
use diffdossier.Prelude.{
  ℕ, zero, suc, ◌<◌, String, true, false, List, [], ◌∷◌, ◌++◌, eqb, eqb_iff, length, Bool-cases,
  inl, inr, string_in, string_in-append, All, All-append, All-append-parts, All-weaken, eq_iff,
  eq_refl, ◌==◌, ◌≡◌, refl, sym, subst, ap, arith,
}
use diffdossier.Planner.{Task}
use diffdossier.Invalidation.{
  Invalidation, has_reload, add_all, dependency_peers, dependents, spread, spread_all, rounds,
  known_ids,
}
use diffdossier.Invalidation.Closure.{
  missing, missing-bound, Keeps, Extends, Extends-refl, Extends-trans, Extends-add_all, IsKnown,
  Keeps-same,
}

dependency_peers-known :
    (known : List String) (id peer : String) (ids : List String)
    → string_in peer known ≡ true
    → All (λ i. string_in i known ≡ true) (dependency_peers id peer ids)
unfolding dependency_peers
dependency_peers-known known id peer [] h = tt
dependency_peers-known known id peer (d ∷ rest) h = elim (Bool-cases (d == id)) [
  | inl e ↦ rw e (h, dependency_peers-known known id peer rest h)
  | inr e ↦ rw e (dependency_peers-known known id peer rest h)
]

dependents-known :
    (known : List String) (id : String) (tasks : List Task)
    → IsKnown known tasks
    → All (λ i. string_in i known ≡ true) (dependents id tasks)
unfolding dependents
dependents-known known id [] h = tt
dependents-known known id (t ∷ rest) h =
    All-append (λ i. string_in i known ≡ true) (dependency_peers id t.id t.dependency_tasks)
      (dependents id rest) (dependency_peers-known known id t.id t.dependency_tasks h.0.0)
      (dependents-known known id rest h.1)

-- A property of all peers of an ID is one of every task that depends on it.
dependency_peers-holds :
    (P : String → Type 0) (id peer : String) (ids : List String)
    → string_in id ids ≡ true
    → All P (dependency_peers id peer ids)
    → P peer
unfolding dependency_peers string_in
dependency_peers-holds P id peer [] m h = cc
dependency_peers-holds P id peer (d ∷ rest) m h = elim (Bool-cases (d == id)) [
  | inl e ↦ (rw e at h).0
  | inr e ↦
      dependency_peers-holds P id peer rest (ground (arith, e, m, eq_iff id d, eq_iff d id))
        (rw e at h)
]

-- The tasks that depend on the ID are in.
abbrev pub HasDependents : String → Invalidation → List Task → Type 0
HasDependents id r =
    All (λ (peer : Task). string_in id peer.dependency_tasks ≡ true → has_reload r peer.id ≡ true)

dependents-HasDependents :
    (id : String) (r : Invalidation) (tasks : List Task)
    → All (λ i. has_reload r i ≡ true) (dependents id tasks)
    → HasDependents id r tasks
unfolding dependents
dependents-HasDependents id r [] h = tt
dependents-HasDependents id r (t ∷ rest) h =
    let (here, others) =
      All-append-parts (λ i. has_reload r i ≡ true) (dependency_peers id t.id t.dependency_tasks)
        (dependents id rest) h in
    (
      λ m. dependency_peers-holds (λ i. has_reload r i ≡ true) id t.id t.dependency_tasks m here,
      dependents-HasDependents id r rest others,
    )

All-Keeps :
    (r s : Invalidation) (ids : List String)
    → Keeps r s
    → All (λ i. has_reload r i ≡ true) ids
    → All (λ i. has_reload s i ≡ true) ids
All-Keeps r s [] k h = tt
All-Keeps r s (i ∷ rest) k h = (k i h.0, All-Keeps r s rest k h.1)

-- What a task that is in brings in.
abbrev pub HasNeighbours : List Task → Task → Invalidation → Type 0
HasNeighbours tasks t r =
    All (λ i. has_reload r i ≡ true) t.dependency_tasks
    × All (λ i. has_reload r i ≡ true) (dependents t.id tasks)

HasNeighbours-Keeps :
    (tasks : List Task) (t : Task) (r s : Invalidation)
    → Keeps r s
    → HasNeighbours tasks t r
    → HasNeighbours tasks t s
HasNeighbours-Keeps tasks t r s k h =
    (All-Keeps r s t.dependency_tasks k h.0, All-Keeps r s (dependents t.id tasks) k h.1)

module _ (known : List String) (tasks : List Task) (all_known : IsKnown known tasks) where
  spread-Extends :
      (t : Task) (r : Invalidation)
      → All (λ i. string_in i known ≡ true) t.dependency_tasks
      → Extends known r (spread tasks t r)
        × (has_reload r t.id ≡ true → HasNeighbours tasks t (spread tasks t r))
  unfolding spread
  spread-Extends t r h = elim (Bool-cases (has_reload r t.id)) [
    | inl e ↦
        let middle = add_all "dependency neighbor changed" t.dependency_tasks r in
        let ids = dependents t.id tasks in
        let last = add_all "dependent neighbor changed" ids middle in
        let (first, dependencies) =
          Extends-add_all known "dependency neighbor changed" t.dependency_tasks r h in
        let (second, peers) =
          Extends-add_all known "dependent neighbor changed" ids middle
            (dependents-known known t.id tasks all_known) in
        rw e (
          Extends-trans known r middle last first second,
          λ _. (All-Keeps middle last t.dependency_tasks second.1 dependencies, peers),
        )
    | inr e ↦ rw e (Extends-refl known r, λ c. absurd (cc c))
  ]

  spread_all-Extends :
      (some_tasks : List Task) (r : Invalidation)
      → IsKnown known some_tasks
      → Extends known r (spread_all tasks some_tasks r)
        × All
            (λ (t : Task).
              has_reload r t.id ≡ true → HasNeighbours tasks t (spread_all tasks some_tasks r))
            some_tasks
  unfolding spread_all
  spread_all-Extends [] r h = (Extends-refl known r, tt)
  spread_all-Extends (t ∷ rest) r h =
      let first = spread tasks t r in
      let last = spread_all tasks rest first in
      let (here, neighbours) = spread-Extends t r h.0.1 in
      let (later, others) = spread_all-Extends rest first h.1 in
      (
        Extends-trans known r first last here later,
        (
          λ c. HasNeighbours-Keeps tasks t first last later.1 (neighbours c),
          All-weaken (λ (u : Task). has_reload first u.id ≡ true → HasNeighbours tasks u last)
              (λ (u : Task). has_reload r u.id ≡ true → HasNeighbours tasks u last)
              (λ u f c. f (here.1 u.id c)) rest others,
        ),
      )

-- With each task its dependencies are in, and the tasks that depend on it.
abbrev pub IsClosed : List Task → Invalidation → Type 0
IsClosed tasks r =
    All
      (λ (t : Task).
        has_reload r t.id ≡ true
        → All (λ id. has_reload r id ≡ true) t.dependency_tasks × HasDependents t.id r tasks)
      tasks

-- A round that adds nothing has nothing left to add.
fixed-IsClosed :
    (tasks : List Task) (r s : Invalidation)
    → s.must_reload ≡ r.must_reload
    → All (λ (t : Task). has_reload r t.id ≡ true → HasNeighbours tasks t s) tasks
    → IsClosed tasks s
fixed-IsClosed tasks r s same h =
    All-weaken (λ (t : Task). has_reload r t.id ≡ true → HasNeighbours tasks t s)
      (λ (t : Task).
        has_reload s t.id ≡ true
        → All (λ id. has_reload s id ≡ true) t.dependency_tasks × HasDependents t.id s tasks)
      (λ t f c.
        let (dependencies, peers) = f (Keeps-same r s same t.id c) in
        (dependencies, dependents-HasDependents t.id s tasks peers))
      tasks h

rounds-step :
    (fuel : ℕ) (tasks : List Task) (r : Invalidation)
    → eqb (length (spread_all tasks tasks r).must_reload) (length r.must_reload) ≡ false
    → rounds (suc fuel) tasks r ≡ rounds fuel tasks (spread_all tasks tasks r)
unfolding rounds
rounds-step fuel tasks r e = rw e refl

rounds-last :
    (fuel : ℕ) (tasks : List Task) (r : Invalidation)
    → eqb (length (spread_all tasks tasks r).must_reload) (length r.must_reload) ≡ true
    → rounds (suc fuel) tasks r ≡ spread_all tasks tasks r
unfolding rounds
rounds-last fuel tasks r e = rw e refl

rounds_fuel-IsClosed :
    (known : List String) (tasks : List Task) (fuel : ℕ) (r : Invalidation)
    → IsKnown known tasks
    → missing known r < fuel
    → IsClosed tasks (rounds fuel tasks r) × Keeps r (rounds fuel tasks r)
rounds_fuel-IsClosed known tasks zero r k h = absurd (omega arith)
rounds_fuel-IsClosed known tasks (suc fuel) r k h =
    let s = spread_all tasks tasks r in
    let (e, neighbours) = spread_all-Extends known tasks k tasks r k in
    elim e.0 [
      | inl same ↦
          let stop = (eqb_iff (length s.must_reload) (length r.must_reload)).1 (ap length same) in
          subst (λ (x : Invalidation). IsClosed tasks x × Keeps r x)
            (sym (rounds-last fuel tasks r stop)) (fixed-IsClosed tasks r s same neighbours, e.1)
      | inr (less, longer) ↦
          let go : eqb (length s.must_reload) (length r.must_reload) ≡ false =
            ground (arith, longer) in
          let (closed, kept) = rounds_fuel-IsClosed known tasks fuel s k (omega (arith, less, h)) in
          subst (λ (x : Invalidation). IsClosed tasks x × Keeps r x)
            (sym (rounds-step fuel tasks r go)) (closed, λ id c. kept id (e.1 id c))
    ]

-- The strings of a list, which another list holds too.
All-inside :
    (ids known : List String)
    → ((i : String) → string_in i ids ≡ true → string_in i known ≡ true)
    → All (λ i. string_in i known ≡ true) ids
unfolding string_in
All-inside [] known f = tt
All-inside (i ∷ rest) known f =
    (f i (ground (arith, eq_refl i)), All-inside rest known (λ x m. f x (ground (arith, m))))

IsKnown-widen :
    (front known : List String) (tasks : List Task)
    → IsKnown known tasks
    → IsKnown (front ++ known) tasks
IsKnown-widen front known tasks h =
    let wider : (i : String) → string_in i known ≡ true → string_in i (front ++ known) ≡ true =
      λ i m. ground (arith, m, string_in-append i front known) in
    All-weaken
      (λ (t : Task).
        (string_in t.id known ≡ true) × All (λ i. string_in i known ≡ true) t.dependency_tasks)
      (λ (t : Task).
        (string_in t.id (front ++ known) ≡ true)
        × All (λ i. string_in i (front ++ known) ≡ true) t.dependency_tasks)
      (λ t k. (
        wider t.id k.0,
        All-weaken (λ i. string_in i known ≡ true) (λ i. string_in i (front ++ known) ≡ true) wider
            t.dependency_tasks k.1,
      ))
      tasks h

known_ids-IsKnown : (tasks : List Task) → IsKnown (known_ids tasks) tasks
unfolding string_in
known_ids-IsKnown [] = tt
known_ids-IsKnown (t ∷ rest) =
    let behind = known_ids rest in
    (
      (
        ground (arith, eq_refl t.id),
        All-inside t.dependency_tasks (t.id ∷ t.dependency_tasks ++ behind)
            (λ i m. ground (arith, m, string_in-append i t.dependency_tasks behind)),
      ),
      IsKnown-widen (t.id ∷ t.dependency_tasks) behind rest (known_ids-IsKnown rest),
    )

-- The rounds end within the fuel that ComputeInvalidation's model gives them: they keep what was
-- in, and with each task that is in, the tasks it depends on and the tasks that depend on it are in.
pub rounds-IsClosed :
    (tasks : List Task) (r : Invalidation)
    → IsClosed tasks (rounds (suc (length (known_ids tasks))) tasks r)
      × Keeps r (rounds (suc (length (known_ids tasks))) tasks r)
rounds-IsClosed tasks r =
    rounds_fuel-IsClosed (known_ids tasks) tasks (suc (length (known_ids tasks))) r
      (known_ids-IsKnown tasks) (omega (arith, missing-bound (known_ids tasks) r))
