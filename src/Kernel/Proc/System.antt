-- ===== src/Kernel/Proc/System.antt =====
-- The steps of all processes, in any order, and the invariant of the process table.
use mits081_lab.Base.{ℕ, ◌≡◌, ◌≢◌, ◌<◌, Bool, true, false, Option, none, some, ◌⊎◌}
use mits081_lab.Kernel.Panic.{ok}
use mits081_lab.Kernel.Proc.{
  nproc, ProcState, unused, used, running, fork_adopt, fork_start, zombie, is_unused, Channel,
  Table, Processes, blank, fork, exit, wait, sleep, tidy, yield, wakeup, scheduler, kill,
}

-- A step of a running process, of an interrupt, or of the scheduler. fork is three steps, between which there may be any others:
-- `adopts` and `starts` can follow for any child that is so far, which allows all that fork does, and more.
pub data Step : Processes → Processes → Type 0 where
  forks :
      {s : Processes} (me trapframe pagetable : ℕ) (copied : Bool)
      → (s.table me).state ≡ running
      → Step s (fork me trapframe pagetable copied s).2
  adopts :
      {s : Processes} (me i : ℕ)
      → (s.table me).state ≡ running
      → (s.table i).state ≡ used
      → (s.table i).parent ≡ none
      → Step s (fork_adopt me i s)
  starts :
      {s : Processes} (me i : ℕ)
      → (s.table me).state ≡ running
      → (s.table i).state ≡ used
      → (s.table i).parent ≡ some me
      → Step s (fork_start i s)
  exits :
      {s s' : Processes} (me status : ℕ)
      → (s.table me).state ≡ running
      → exit me status s ≡ ok s'
      → Step s s'
  waits :
      {s : Processes} (me : ℕ) (copied : Bool)
      → (s.table me).state ≡ running
      → Step s (wait me copied s).1
  sleeps :
      {s : Processes} (me : ℕ) (chan : Channel)
      → (s.table me).state ≡ running
      → Step s (record s { table = sleep me chan s.table })
  tidies :
      {s : Processes} (me : ℕ)
      → (s.table me).state ≡ running
      → Step s (record s { table = tidy me s.table })
  yields :
      {s : Processes} (me : ℕ)
      → (s.table me).state ≡ running
      → Step s (record s { table = yield me s.table })
  wakes_up :
      {s : Processes} (me : Option ℕ) (chan : Option Channel)
      → Step s (record s { table = wakeup me chan s.table })
  schedules : {s : Processes} (i : ℕ) → Step s (record s { table = scheduler i s.table })
  kills :
      {s : Processes} {t : Table} (pid : ℕ)
      → pid ≢ 0
      → kill pid s.table ≡ some t
      → Step s (record s { table = t })

pub data Reach (s : Processes) : Processes → Type 0 where
  here : Reach s s
  next : {t u : Processes} → Reach s t → Step t u → Reach s u

-- a process that has not exited
abbrev pub is_alive : ProcState → Bool
is_alive unused = false
is_alive zombie = false
is_alive _ = true

-- The process in slot `i` has a parent that has not exited, or it is one that fork has not yet given its parent.
unfoldable pub HasParent : Table → ℕ → Type 0
HasParent t i =
    (((t i).state ≡ used) × ((t i).parent ≡ none))
    ⊎ ((q : ℕ) × ((t i).parent ≡ some q) × (is_alive (t q).state ≡ true))

-- A slot that is not in use is blank. The others lie in the table and have process ids of their own, and each but
-- the first process has a parent that has not exited, or is one that fork has not yet given its parent.
pub record Sound (s : Processes) : Type 0 where
  pub free : (i : ℕ) → is_unused (s.table i).state ≡ true → s.table i ≡ blank
  pub pids :
      (i : ℕ)
      → is_unused (s.table i).state ≡ false
      → (0 < (s.table i).pid) × ((s.table i).pid < s.nextpid) × (i < nproc)
  pub distinct :
      (i j : ℕ)
      → is_unused (s.table i).state ≡ false
      → is_unused (s.table j).state ≡ false
      → (s.table i).pid ≡ (s.table j).pid
      → i ≡ j
  pub parents : (i : ℕ) → is_unused (s.table i).state ≡ false → i ≢ s.init → HasParent s.table i
  pub first : is_alive (s.table s.init).state ≡ true
