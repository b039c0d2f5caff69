-- ===== src/Tests/LockRuns.antt =====
-- Witnesses on processes that take a lock.
use diffdossier.Prelude.{ℕ, true, false, none, some, eqb, if◌then◌else◌, ◌≡◌, refl, arith}
use diffdossier.Locks.{
  idle, opening, System, goes, Steps, start, create, write, done, next_step, Holds,
}
use diffdossier.Locks.Exclusion.{Steps-Holds}
use diffdossier.Locks.Stale.{create_at, write_at, Steps-both}

abbrev free : System
free = record { path = none; next = 0; phase = λ i. idle; alive = λ i. true }

abbrev taken : System
taken = write_at (create_at (goes free 3 opening) 3) 3 0

free-taken : Steps free taken
free-taken =
    let s1 = goes free 3 opening in
    let s2 = create_at s1 3 in
    next_step free s1 taken (start free 3 refl refl) (
      next_step s1 s2 taken (create s1 3 refl refl refl)
        (next_step s2 taken taken (write s2 3 0 refl refl) (done taken)))

Steps-Holds_example : ◌≡◌ {A = ℕ} 3 3
Steps-Holds_example =
    Steps-Holds free taken (λ i. refl) (λ i. refl) free-taken 3 3 (0, refl) (0, refl)

abbrev stale : System
stale = record {
  path = some (record { number = 0; maker = 7; written = true });
  next = 1;
  phase = λ i. idle;
  alive = λ i. if eqb i 7 then false else true;
}

Steps-both_example : (t : System) × Steps stale t × Holds t 1 × Holds t 2
Steps-both_example =
    Steps-both stale 1 2 (record { number = 0; maker = 7; written = true })
      (record {
        apart = omega arith;
        left = refl;
        right = refl;
        left_idle = refl;
        right_idle = refl;
        present = refl;
        written = refl;
        dead = refl;
      })
