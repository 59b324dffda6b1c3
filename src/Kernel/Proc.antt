-- ===== src/Kernel/Proc.antt =====
-- kernel/proc.c: the process table. A process is named by its slot. Each part of a function that runs with one
-- process's lock or wait_lock held is one step: fork is three of them, and between the first two the child has no
-- parent. Process ids do not reach 2 ^ 31. Open files, the current directory, mappings, names, kernel stacks and
-- contexts are left out.
pub mod Wakeup
pub mod System
pub mod Similar
pub mod Start
pub mod Adopt
pub mod End
pub mod Wait
pub mod Always
pub mod Reap
pub mod Branches
mod Tests
use mits081_lab.Base.{
  ℕ, zero, suc, ◌+◌, Bool, true, false, not, ◌&&◌, ◌||◌, Option, none, some, List, [], ◌∷◌, ◌++◌,
  ◌==◌, if◌then◌else◌, points_to,
}
use mits081_lab.Kernel.Panic.{Run, ok, ◌>>=◌, ◌>>◌, panic_if}
use mits081_lab.Kernel.Disk.{update}

abbrev pub nproc : ℕ
nproc = 64

pub data ProcState : Type 0 where
  unused used sleeping runnable running zombie : ProcState

abbrev pub is_unused : ProcState → Bool
is_unused unused = true
is_unused _ = false

abbrev pub is_sleeping : ProcState → Bool
is_sleeping sleeping = true
is_sleeping _ = false

abbrev pub is_runnable : ProcState → Bool
is_runnable runnable = true
is_runnable _ = false

abbrev pub is_zombie : ProcState → Bool
is_zombie zombie = true
is_zombie _ = false

-- What a process sleeps on: the address of a process, or another address.
pub data Channel : Type 0 where
  proc address : ℕ → Channel

-- `p->chan == chan`; `none` is the null pointer.
abbrev pub same_chan : Option Channel → Option Channel → Bool
same_chan none none = true
same_chan (some (proc i)) (some (proc j)) = i == j
same_chan (some (address a)) (some (address b)) = a == b
same_chan _ _ = false

-- `struct proc`; `parent` is a slot, and the trapframe and the page table are addresses.
pub record Process : Type 0 where
  pub state : ProcState
  pub chan : Option Channel
  pub killed : Bool
  pub xstate : ℕ
  pub pid : ℕ
  pub parent : Option ℕ
  pub sz : ℕ
  pub pagetable : ℕ
  pub trapframe : ℕ

abbrev pub Table : Type 0
Table = ℕ → Process

-- `proc`, `nextpid`, and the slot of `initproc`
pub record Processes : Type 0 where
  pub table : Table
  pub nextpid : ℕ
  pub init : ℕ

-- the calls of `freeproc` that give memory back
pub data Release : Type 0 where
  free_page : ℕ → Release
  free_table : ℕ → ℕ → Release

abbrev pub blank : Process
blank = record {
  state = unused;
  chan = none;
  killed = false;
  xstate = 0;
  pid = 0;
  parent = none;
  sz = 0;
  pagetable = 0;
  trapframe = 0;
}

unfoldable pub allocpid : Processes → ℕ × Processes
allocpid s = (s.nextpid, record s { nextpid = s.nextpid + 1 })

unfoldable pub freeproc : Process → List Release × Process
freeproc p = (
  (if p.trapframe == 0 then [] else free_page p.trapframe ∷ [])
      ++ (if p.pagetable == 0 then [] else free_table p.pagetable p.sz ∷ []),
  blank,
)

-- The loop of `allocproc`, with `k` slots left at `i`.
unfoldable pub find_unused : ℕ → ℕ → Table → Option ℕ
find_unused zero i t = none
find_unused (suc k) i t =
    let rest = find_unused k (i + 1) t in if is_unused (t i).state then some i else rest

abbrev pub set_slot : Processes → ℕ → Process → Processes
set_slot s i p = record s { table = update s.table i p }

-- `allocproc` after its loop.
unfoldable pub allocproc_in : ℕ → ℕ → Processes → Option ℕ → Option ℕ × List Release × Processes
allocproc_in trapframe pagetable s none = (none, [], s)
allocproc_in trapframe pagetable s (some i) =
    let (pid, s₁) = allocpid s in
    let p = record (s.table i) { pid = pid; state = used; trapframe = trapframe } in
    let p₁ = record p { pagetable = pagetable } in
    if trapframe == 0
    then (none, (freeproc p).0, set_slot s₁ i (freeproc p).1)
    else if pagetable == 0
    then (none, (freeproc p₁).0, set_slot s₁ i (freeproc p₁).1)
    else (some i, [], set_slot s₁ i p₁)

-- `trapframe` is what kalloc returns, and `pagetable` what proc_pagetable does. The slot, or `none` for 0.
unfoldable pub allocproc : ℕ → ℕ → Processes → Option ℕ × List Release × Processes
allocproc trapframe pagetable s = allocproc_in trapframe pagetable s (find_unused nproc 0 s.table)

-- `userinit` after its call of `allocproc`; `none` is a load through the null pointer.
unfoldable pub userinit_into : Option ℕ → Processes → Option Processes
userinit_into none s = none
userinit_into (some i) s =
    some (set_slot (record s { init = i }) i (record (s.table i) { sz = 4096; state = runnable }))

unfoldable pub userinit : ℕ → ℕ → Processes → Option Processes
userinit trapframe pagetable s =
    let (p, _, s₁) = allocproc trapframe pagetable s in userinit_into p s₁

-- The process table as the kernel is loaded.
abbrev pub initial : Processes
initial = record { table = λ _. blank; nextpid = 1; init = 0 }

-- `fork` after its call of `allocproc`, up to its release of the child's lock; `copied` is whether uvmcopy copies the memory.
unfoldable pub fork_into :
    ℕ → Bool → Option ℕ → List Release → Processes → Option ℕ × List Release × Processes
fork_into me copied none released s = (none, released, s)
fork_into me copied (some i) released s =
    let child = s.table i in
    if not copied
    then (none, (freeproc child).0, set_slot s i (freeproc child).1)
    else (some child.pid, released, set_slot s i (record child { sz = (s.table me).sz }))

-- `fork` up to its release of the child's lock: the child's pid, or `none` for -1. The child is still USED.
unfoldable pub fork : ℕ → ℕ → ℕ → Bool → Processes → Option ℕ × List Release × Processes
fork me trapframe pagetable copied s =
    let (np, released, s₁) = allocproc trapframe pagetable s in fork_into me copied np released s₁

-- The part of `fork` with wait_lock held, for the child in slot `i`.
unfoldable pub fork_adopt : ℕ → ℕ → Processes → Processes
fork_adopt me i s = set_slot s i (record (s.table i) { parent = some me })

-- The last part of `fork`, with the child's lock held again.
unfoldable pub fork_start : ℕ → Processes → Processes
fork_start i s = set_slot s i (record (s.table i) { state = runnable })

-- Whether `wakeup` by `me` on `chan` wakes the process in slot `i`; `me` is `myproc()`, which is null when no process
-- runs on the CPU.
unfoldable pub wakes : Option ℕ → Option Channel → ℕ → Process → Bool
wakes me chan i p = not (points_to me i) && (is_sleeping p.state && same_chan p.chan chan)

-- The loop of `wakeup` by `me`, with `k` slots left at `i`.
unfoldable pub wakeup_from : ℕ → ℕ → Option ℕ → Option Channel → Table → Table
wakeup_from zero i me chan t = t
wakeup_from (suc k) i me chan t =
    let woken = update t i (record (t i) { state = runnable }) in
    wakeup_from k (i + 1) me chan (if wakes me chan i (t i) then woken else t)

unfoldable pub wakeup : Option ℕ → Option Channel → Table → Table
wakeup me chan t = wakeup_from nproc 0 me chan t

-- The loop of `reparent`, with `k` slots left at `i`.
unfoldable pub reparent_from : ℕ → ℕ → ℕ → ℕ → Table → Table
reparent_from zero i init p t = t
reparent_from (suc k) i init p t =
    let taken =
      wakeup (some p) (some (proc init)) (update t i (record (t i) { parent = some init })) in
    reparent_from k (i + 1) init p (if points_to (t i).parent p then taken else t)

unfoldable pub reparent : ℕ → ℕ → Table → Table
reparent init p t = reparent_from nproc 0 init p t

abbrev pub parent_chan : Option ℕ → Option Channel
parent_chan none = none
parent_chan (some q) = some (proc q)

-- The table once `exit` has given its children away and woken its parent.
unfoldable pub orphaned : ℕ → Processes → Table
orphaned me s = let t = reparent s.init me s.table in wakeup (some me) (parent_chan (t me).parent) t

-- What `exit` leaves when it calls sched.
unfoldable pub exited : ℕ → ℕ → Processes → Processes
exited me status s =
    let t = orphaned me s in
    record s { table = update t me (record (t me) { xstate = status; state = zombie }) }

-- `exit` up to its call of sched, after the files are closed.
unfoldable pub exit : ℕ → ℕ → Processes → Run Processes
exit me status s = panic_if (me == s.init) >> ok (exited me status s)

-- The scan of `wait`, with `k` slots left at `i`: a zombie child, and whether there are children.
unfoldable pub scan : ℕ → ℕ → ℕ → Table → Option ℕ × Bool
scan zero i me t = (none, false)
scan (suc k) i me t =
    let (found, kids) = scan k (i + 1) me t in
    if points_to (t i).parent me
    then (if is_zombie (t i).state then some i else found, true)
    else (found, kids)

unfoldable pub sleep : ℕ → Channel → Table → Table
sleep me chan t = update t me (record (t me) { chan = some chan; state = sleeping })

-- `sleep` after sched.
unfoldable pub tidy : ℕ → Table → Table
tidy me t = update t me (record (t me) { chan = none })

pub data Waited : Type 0 where
  reaped : (pid xstate : ℕ) → List Release → Waited
  failed asleep : Waited

-- `wait` after its scan; `copied` is whether the exit status, if it is asked for, is copied out.
unfoldable pub wait_after : ℕ → Bool → Processes → Option ℕ → Bool → Waited × Processes
wait_after me copied s (some i) kids =
    let np = s.table i in
    if not copied
    then (failed, s)
    else (reaped np.pid np.xstate (freeproc np).0, set_slot s i (freeproc np).1)
wait_after me copied s none kids =
    if not kids || (s.table me).killed
    then (failed, s)
    else (asleep, record s { table = sleep me (proc me) s.table })

-- One round of the loop of `wait`.
unfoldable pub wait : ℕ → Bool → Processes → Waited × Processes
wait me copied s = let (found, kids) = scan nproc 0 me s.table in wait_after me copied s found kids

-- One round of the loop of `scheduler`, up to swtch.
unfoldable pub scheduler : ℕ → Table → Table
scheduler i t = if is_runnable (t i).state then update t i (record (t i) { state = running }) else t

unfoldable pub yield : ℕ → Table → Table
yield me t = update t me (record (t me) { state = runnable })

-- The loop of `kill`, with `k` slots left at `i`; `none` is -1.
unfoldable pub kill_from : ℕ → ℕ → ℕ → Table → Option Table
kill_from zero i pid t = none
kill_from (suc k) i pid t =
    let rest = kill_from k (i + 1) pid t in
    let p = record (t i) {
      killed = true;
      state = if is_sleeping (t i).state then runnable else (t i).state;
    } in
    if (t i).pid == pid then some (update t i p) else rest

unfoldable pub kill : ℕ → Table → Option Table
kill pid t = kill_from nproc 0 pid t
