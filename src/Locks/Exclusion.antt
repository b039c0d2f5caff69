-- ===== src/Locks/Exclusion.antt =====
-- internal/store/store.go: the lock excludes, as long as no process dies.
use mathlib.Core.Option.{some-injective}
use diffdossier.Prelude.{
  ℕ, suc, true, false, Option, none, some, eqb, eqb_iff, Bool-cases, inl, inr, ◌≡◌, ◌≢◌, refl, sym,
  ap, subst, ◌∙◌, arith,
}
use diffdossier.Locks.{
  LockFile, Phase, idle, opening, reading, removing, writing, holding, releasing, owns, System,
  goes, write_through, Step, start, create, exists, write, read_missing, read_unwritten, read_held,
  read_stale, remove, release_own, release_other, release_missing, unlink, Steps, done, next_step,
  Holds,
}

-- The file at the path is the one with this number that the process made.
abbrev IsAt : Option LockFile → ℕ → ℕ → Type 0
IsAt path n i = (f : LockFile) × (path ≡ some f) × (f.number ≡ n) × (f.maker ≡ i)

pub record IsExclusive (s : System) : Type 0 where
  pub owned : (i n : ℕ) → owns (s.phase i) ≡ some n → IsAt s.path n i
  pub calm : (i : ℕ) → s.phase i ≢ removing
  pub lively : (i : ℕ) → s.alive i ≡ true

IsExclusive-goes :
    (s : System) (i : ℕ) (p : Phase)
    → owns p ≡ none
    → p ≢ removing
    → IsExclusive s
    → IsExclusive (goes s i p)
IsExclusive-goes s i p free not_removing h = record {
  owned = λ j n o. elim (Bool-cases (eqb i j)) [
    | inl e ↦ absurd (cc (rw e at o, free))
    | inr e ↦ h.owned j n (rw e at o)
  ];
  calm = λ j r. elim (Bool-cases (eqb i j)) [
    | inl e ↦ not_removing (rw e at r)
    | inr e ↦ h.calm j (rw e at r)
  ];
  lively = h.lively;
}

some-IsAt : (f g : LockFile) (path : Option LockFile) → path ≡ some f → path ≡ some g → f ≡ g
some-IsAt f g path e e' = some-injective f g (sym e ∙ e')

IsExclusive-create :
    (s : System) (i : ℕ)
    → s.path ≡ none
    → IsExclusive s
    → IsExclusive (record (goes s i (writing s.next)) {
      path = some (record { number = s.next; maker = i; written = false });
      next = suc s.next;
    })
unfolding owns
IsExclusive-create s i free h = record {
  owned = λ j n o. elim (Bool-cases (eqb i j)) [
    | inl e ↦
        let same : s.next ≡ n = some-injective s.next n (rw e at o) in
        (record { number = s.next; maker = i; written = false }, refl, same, (eqb_iff i j).0 e)
    | inr e ↦ let (f, there, number, maker) = h.owned j n (rw e at o) in absurd (cc (there, free))
  ];
  calm = λ j r. elim (Bool-cases (eqb i j)) [
    | inl e ↦ absurd (cc (rw e at r))
    | inr e ↦ h.calm j (rw e at r)
  ];
  lively = h.lively;
}

owners_agree :
    (s : System)
    → IsExclusive s
    → (i j n m : ℕ) → owns (s.phase i) ≡ some n
    → owns (s.phase j) ≡ some m
    → i ≡ j
owners_agree s h i j n m o o' =
    let (f, there, number, maker) = h.owned i n o in
    let (g, there', number', maker') = h.owned j m o' in
    sym maker ∙ (ap (λ (t : LockFile). t.maker) (some-IsAt f g s.path there there') ∙ maker')

-- A process that owns a file takes its next step with it.
IsExclusive-owner :
    (s : System) (i n : ℕ) (p : Phase) (path : Option LockFile)
    → owns (s.phase i) ≡ some n
    → owns p ≡ some n
    → p ≢ removing
    → ((j : ℕ) → IsAt s.path n j → IsAt path n j)
    → IsExclusive s
    → IsExclusive (record (goes s i p) { path = path })
IsExclusive-owner s i n p path before after not_removing move h = record {
  owned = λ j m o. elim (Bool-cases (eqb i j)) [
    | inl e ↦
        let same : n ≡ m = some-injective n m (sym after ∙ (rw e at o)) in
        subst (λ k. IsAt path m k) ((eqb_iff i j).0 e)
          (subst (λ k. IsAt path k i) same (move i (h.owned i n before)))
    | inr e ↦
        let same = owners_agree s h i j n m before (rw e at o) in
        absurd (ground (arith, eqb_iff i j))
  ];
  calm = λ j r. elim (Bool-cases (eqb i j)) [
    | inl e ↦ not_removing (rw e at r)
    | inr e ↦ h.calm j (rw e at r)
  ];
  lively = h.lively;
}

IsExclusive-unlink :
    (s : System) (i n : ℕ)
    → owns (s.phase i) ≡ some n
    → IsExclusive s
    → IsExclusive (record (goes s i idle) { path = none })
unfolding owns
IsExclusive-unlink s i n before h = record {
  owned = λ j m o. elim (Bool-cases (eqb i j)) [
    | inl e ↦ absurd (cc (rw e at o))
    | inr e ↦
        let same = owners_agree s h i j n m before (rw e at o) in
        absurd (ground (arith, eqb_iff i j))
  ];
  calm = λ j r. elim (Bool-cases (eqb i j)) [
    | inl e ↦ absurd (cc (rw e at r))
    | inr e ↦ h.calm j (rw e at r)
  ];
  lively = h.lively;
}

write_through-IsAt :
    (n j : ℕ) (path : Option LockFile) → IsAt path n j → IsAt (write_through n path) n j
unfolding write_through
write_through-IsAt n j none (f, there, number, maker) = absurd (cc there)
write_through-IsAt n j (some g) (f, there, number, maker) =
    let same : g ≡ f = some-injective g f there in
    let named : g.number ≡ n = ap (λ (t : LockFile). t.number) same ∙ number in
    let e : eqb g.number n ≡ true = (eqb_iff g.number n).1 named in
    let made : g.maker ≡ j = ap (λ (t : LockFile). t.maker) same ∙ maker in
    (record g { written = true }, rw e refl, named, made)

owns-at :
    (s : System) (i : ℕ) (p : Phase) (n : ℕ)
    → s.phase i ≡ p
    → owns p ≡ some n
    → owns (s.phase i) ≡ some n
owns-at s i p n e o = ap owns e ∙ o

Step-IsExclusive : (s t : System) → Step s t → IsExclusive s → IsExclusive t
unfolding owns
Step-IsExclusive _ _ (start s i a p) h = IsExclusive-goes s i opening refl (λ e. cc) h
Step-IsExclusive _ _ (create s i a p free) h = IsExclusive-create s i free h
Step-IsExclusive _ _ (exists s i f a p e) h = IsExclusive-goes s i reading refl (λ e. cc) h
Step-IsExclusive _ _ (write s i n a p) h =
    IsExclusive-owner s i n (holding n) (write_through n s.path) (owns-at s i (writing n) n p refl)
      refl (λ e. cc) (λ j. write_through-IsAt n j s.path) h
Step-IsExclusive _ _ (read_missing s i a p e) h = IsExclusive-goes s i idle refl (λ e. cc) h
Step-IsExclusive _ _ (read_unwritten s i f a p e w) h = IsExclusive-goes s i idle refl (λ e. cc) h
Step-IsExclusive _ _ (read_held s i f a p e w l) h = IsExclusive-goes s i idle refl (λ e. cc) h
Step-IsExclusive _ _ (read_stale s i f a p e w l) h = absurd (cc (h.lively f.maker, l))
Step-IsExclusive _ _ (remove s i a p) h = absurd (h.calm i p)
Step-IsExclusive _ _ (release_own s i n f a p e m) h =
    IsExclusive-owner s i n (releasing n) s.path (owns-at s i (holding n) n p refl) refl (λ e. cc)
      (λ j at. at) h
Step-IsExclusive _ _ (release_other s i n f a p e m) h = IsExclusive-goes s i idle refl (λ e. cc) h
Step-IsExclusive _ _ (release_missing s i n a p e) h = IsExclusive-goes s i idle refl (λ e. cc) h
Step-IsExclusive _ _ (unlink s i n a p) h =
    IsExclusive-unlink s i n (owns-at s i (releasing n) n p refl) h

Steps-IsExclusive : (s t : System) → Steps s t → IsExclusive s → IsExclusive t
Steps-IsExclusive _ _ (done s) h = h
Steps-IsExclusive _ _ (next_step s u t step rest) h =
    Steps-IsExclusive u t rest (Step-IsExclusive s u step h)

-- Where no process dies, and all begin outside the lock with no lock file there, at most one process
-- holds the lock, however their steps interleave.
pub Steps-Holds :
    (s t : System)
    → ((i : ℕ) → s.phase i ≡ idle)
    → ((i : ℕ) → s.alive i ≡ true)
    → Steps s t
    → (i j : ℕ) → Holds t i
    → Holds t j
    → i ≡ j
unfolding owns
Steps-Holds s t outside lively steps i j (n, p) (m, q) =
    let first : IsExclusive s = record {
      owned = λ k l o. absurd (cc (ap owns (outside k), o));
      calm = λ k r. absurd (cc (outside k, r));
      lively = lively;
    } in
    owners_agree t (Steps-IsExclusive s t steps first) i j n m (owns-at t i (holding n) n p refl)
      (owns-at t j (holding m) m q refl)
