-- ===== src/Locks/Stale.antt =====
-- internal/store/store.go: two processes that find the same stale lock.
use diffdossier.Prelude.{ℕ, suc, true, false, none, some, ◌≡◌, ◌≢◌, refl, arith}
use diffdossier.Locks.{
  LockFile, idle, opening, reading, removing, writing, holding, System, goes, write_through, start,
  create, exists, write, read_stale, remove, Steps, done, next_step, Holds,
}

-- The lock file of a process that died, and two live processes that want the lock.
pub record IsContended (s : System) (i j : ℕ) (f : LockFile) : Type 0 where
  pub apart : i ≢ j
  pub left : s.alive i ≡ true
  pub right : s.alive j ≡ true
  pub left_idle : s.phase i ≡ idle
  pub right_idle : s.phase j ≡ idle
  pub present : s.path ≡ some f
  pub written : f.written ≡ true
  pub dead : s.alive f.maker ≡ false

abbrev pub create_at : System → ℕ → System
create_at s i = record (goes s i (writing s.next)) {
  path = some (record { number = s.next; maker = i; written = false });
  next = suc s.next;
}

abbrev pub write_at : System → ℕ → ℕ → System
write_at s i n = record (goes s i (holding n)) { path = write_through n s.path }

abbrev remove_at : System → ℕ → System
remove_at s i = record (goes s i opening) { path = none }

-- Where a process died with the lock, any two others can come to hold it at the same time: the
-- second removes the lock of the first for the stale one that it has read before.
pub Steps-both :
    (s : System) (i j : ℕ) (f : LockFile)
    → IsContended s i j f
    → (t : System) × Steps s t × Holds t i × Holds t j
Steps-both s i j f h =
    let apart = h.apart in
    let s1 = goes s i opening in
    let s2 = goes s1 j opening in
    let s3 = goes s2 i reading in
    let s4 = goes s3 j reading in
    let s5 = goes s4 i removing in
    let s6 = goes s5 j removing in
    let s7 = remove_at s6 i in
    let s8 = create_at s7 i in
    let s9 = write_at s8 i s.next in
    let s10 = remove_at s9 j in
    let s11 = create_at s10 j in
    let s12 = write_at s11 j (suc s.next) in
    (
      s12,
      next_step s s1 s12 (start s i h.left h.left_idle) (
          next_step s1 s2 s12 (start s1 j h.right (ground (arith, h.right_idle))) (
            next_step s2 s3 s12 (exists s2 i f h.left (ground arith) h.present) (
              next_step s3 s4 s12 (exists s3 j f h.right (ground arith) h.present) (
                next_step s4 s5 s12
                  (read_stale s4 i f h.left (ground arith) h.present h.written h.dead)
                  (next_step s5 s6 s12
                    (read_stale s5 j f h.right (ground arith) h.present h.written h.dead)
                    (next_step s6 s7 s12 (remove s6 i h.left (ground arith)) (
                      next_step s7 s8 s12 (create s7 i h.left (ground arith) refl) (
                        next_step s8 s9 s12 (write s8 i s.next h.left (ground arith)) (
                          next_step s9 s10 s12 (remove s9 j h.right (ground arith)) (
                            next_step s10 s11 s12 (create s10 j h.right (ground arith) refl) (
                              next_step s11 s12 s12
                                (write s11 j (suc s.next) h.right (ground arith))
                                (done s12)))))))))))),
      (s.next, ground arith),
      (suc s.next, ground arith),
    )
