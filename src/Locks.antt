-- ===== src/Locks.antt =====
-- internal/store/store.go, `acquire` and `Release`: processes that compete for one lock file, as
-- steps that interleave. Process i has the PID i. A step is a call of the file system and what the
-- code does with its answer; between two steps of a process, others may take theirs.
pub mod Exclusion
pub mod Stale
use diffdossier.Prelude.{
  ℕ, suc, Bool, true, false, Option, none, some, eqb, if◌then◌else◌, ◌≡◌, ◌≢◌,
}

-- A lock file: its number stands for the random token of the process that made it, which is in it
-- once it is written.
pub record LockFile : Type 0 where
  pub number : ℕ
  pub maker : ℕ
  pub written : Bool

-- Where a process is: before `acquire`; before `os.OpenFile`; before `os.ReadFile`; before
-- `os.Remove` of a stale lock; before `file.Write`; behind `acquire`; and in `Release`, before its
-- `os.Remove`.
pub data Phase : Type 0 where
  idle opening reading removing : Phase
  writing holding releasing : ℕ → Phase

-- The process has made the lock file with this number and is not done with it.
unfoldable pub owns : Phase → Option ℕ
owns idle = none
owns opening = none
owns reading = none
owns removing = none
owns (writing n) = some n
owns (holding n) = some n
owns (releasing n) = some n

pub record System : Type 0 where
  pub path : Option LockFile
  pub next : ℕ
  pub phase : ℕ → Phase
  pub alive : ℕ → Bool

abbrev pub set {ℓ} : {A : Type ℓ} → (ℕ → A) → ℕ → A → ℕ → A
set f i a j = if eqb i j then a else f j

abbrev pub goes : System → ℕ → Phase → System
goes s i p = record s { phase = set s.phase i p }

-- `file.Write` through the handle: it reaches the path only if the file is still there.
unfoldable pub write_through : ℕ → Option LockFile → Option LockFile
write_through n none = none
write_through n (some f) = if eqb f.number n then some (record f { written = true }) else some f

-- The steps of live processes.
pub data Step : System → System → Type 0 where
  start : (s : System) (i : ℕ) → s.alive i ≡ true → s.phase i ≡ idle → Step s (goes s i opening)
  create :
      (s : System) (i : ℕ)
      → s.alive i ≡ true
      → s.phase i ≡ opening
      → s.path ≡ none
      → Step s (record (goes s i (writing s.next)) {
        path = some (record { number = s.next; maker = i; written = false });
        next = suc s.next;
      })
  exists :
      (s : System) (i : ℕ) (f : LockFile)
      → s.alive i ≡ true
      → s.phase i ≡ opening
      → s.path ≡ some f
      → Step s (goes s i reading)
  write :
      (s : System) (i n : ℕ)
      → s.alive i ≡ true
      → s.phase i ≡ writing n
      → Step s (record (goes s i (holding n)) { path = write_through n s.path })
  read_missing :
      (s : System) (i : ℕ)
      → s.alive i ≡ true
      → s.phase i ≡ reading
      → s.path ≡ none
      → Step s (goes s i idle)
  read_unwritten :
      (s : System) (i : ℕ) (f : LockFile)
      → s.alive i ≡ true
      → s.phase i ≡ reading
      → s.path ≡ some f
      → f.written ≡ false
      → Step s (goes s i idle)
  read_held :
      (s : System) (i : ℕ) (f : LockFile)
      → s.alive i ≡ true
      → s.phase i ≡ reading
      → s.path ≡ some f
      → f.written ≡ true
      → s.alive f.maker ≡ true
      → Step s (goes s i idle)
  read_stale :
      (s : System) (i : ℕ) (f : LockFile)
      → s.alive i ≡ true
      → s.phase i ≡ reading
      → s.path ≡ some f
      → f.written ≡ true
      → s.alive f.maker ≡ false
      → Step s (goes s i removing)
  remove :
      (s : System) (i : ℕ)
      → s.alive i ≡ true
      → s.phase i ≡ removing
      → Step s (record (goes s i opening) { path = none })
  release_own :
      (s : System) (i n : ℕ) (f : LockFile)
      → s.alive i ≡ true
      → s.phase i ≡ holding n
      → s.path ≡ some f
      → f.number ≡ n
      → Step s (goes s i (releasing n))
  release_other :
      (s : System) (i n : ℕ) (f : LockFile)
      → s.alive i ≡ true
      → s.phase i ≡ holding n
      → s.path ≡ some f
      → f.number ≢ n
      → Step s (goes s i idle)
  release_missing :
      (s : System) (i n : ℕ)
      → s.alive i ≡ true
      → s.phase i ≡ holding n
      → s.path ≡ none
      → Step s (goes s i idle)
  unlink :
      (s : System) (i n : ℕ)
      → s.alive i ≡ true
      → s.phase i ≡ releasing n
      → Step s (record (goes s i idle) { path = none })

pub data Steps : System → System → Type 0 where
  done : (s : System) → Steps s s
  next_step : (s t u : System) → Step s t → Steps t u → Steps s u

-- The process has the lock: `acquire` has returned it and `Release` has not begun or has only read.
abbrev pub Holds : System → ℕ → Type 0
Holds s i = (n : ℕ) × (s.phase i ≡ holding n)
