-- ===== src/Kernel/Proc/Tests.antt =====
-- The first process forks, waits, and reaps its child.
use mits081_lab.Base.{Option, ◌≡◌, refl, true, false, none, some}
use mits081_lab.Kernel.Panic.{ok}
use mits081_lab.Kernel.Disk.{update}
use mits081_lab.Kernel.Proc.{
  proc, used, runnable, running, sleeping, blank, Process, Processes, Table, initial, userinit,
  userinit_into, allocproc, allocproc_in, find_unused, allocpid, fork, fork_into, fork_adopt,
  fork_start, scan, scheduler, wait, wait_after, sleep, exit, exited, kill, kill_from,
}
use mits081_lab.Kernel.Proc.System.{
  Sound, Reach, here, next, schedules, forks, adopts, starts, waits,
}
use mits081_lab.Kernel.Proc.Always.{proc-Sound, Reach-Sound}
use mits081_lab.Kernel.Proc.Reap.{IsReaped, wait-exit}
use mits081_lab.Kernel.Proc.Branches.{Waits, wait-Waits}

-- The first process, about to run; its trapframe and page table are at 8192 and 12288.
abbrev init : Process
init = record {
  state = runnable;
  chan = none;
  killed = false;
  xstate = 0;
  pid = 1;
  parent = none;
  sz = 4096;
  pagetable = 12288;
  trapframe = 8192;
}

abbrev booted : Processes
booted = record {
  table = update (update (λ _. blank) 0 (record init { state = used; sz = 0 })) 0 init;
  nextpid = 2;
  init = 0;
}

booted_lem : userinit 8192 12288 initial ≡ some booted
unfolding userinit userinit_into allocproc allocproc_in find_unused allocpid
booted_lem = refl

-- It runs, and forks, in three steps.
abbrev parent_runs : Processes
parent_runs = record booted { table = scheduler 0 booted.table }

abbrev allocated : Processes
allocated = (fork 0 16384 20480 true parent_runs).2

abbrev adopted : Processes
adopted = fork_adopt 0 1 allocated

abbrev forked : Processes
forked = fork_start 1 adopted

-- The child has no parent when its lock is released, and cannot run.
allocated_child : ((allocated.table 1).state ≡ used) × ((allocated.table 1).parent ≡ none)
unfolding scheduler fork fork_into allocproc allocproc_in find_unused allocpid
allocated_child = (refl, refl)

allocated_parent : (allocated.table 0).state ≡ running
unfolding scheduler fork fork_into allocproc allocproc_in find_unused allocpid
allocated_parent = refl

adopted_child : ((adopted.table 1).state ≡ used) × ((adopted.table 1).parent ≡ some 0)
unfolding scheduler fork fork_into fork_adopt allocproc allocproc_in find_unused allocpid
adopted_child = (refl, refl)

adopted_parent : (adopted.table 0).state ≡ running
unfolding scheduler fork fork_into fork_adopt allocproc allocproc_in find_unused allocpid
adopted_parent = refl

Reach-allocated : Reach booted allocated
unfolding scheduler
Reach-allocated = next (next here (schedules 0)) (forks 0 16384 20480 true refl)

Reach-forked : Reach booted forked
Reach-forked =
    next (next Reach-allocated (adopts 0 1 allocated_parent allocated_child.0 allocated_child.1))
      (starts 0 1 adopted_parent adopted_child.0 adopted_child.1)

proc-Sound_example : Sound forked
proc-Sound_example = proc-Sound 8192 12288 booted_lem Reach-forked

-- The parent waits, and the child runs.
abbrev parent_waits : Processes
parent_waits = (wait 0 true forked).1

abbrev child_runs : Processes
child_runs = record parent_waits { table = scheduler 1 parent_waits.table }

parent_state : (forked.table 0).state ≡ running
unfolding scheduler fork fork_into fork_adopt fork_start allocproc allocproc_in find_unused allocpid
parent_state = refl

child_runs-Sound : Sound child_runs
child_runs-Sound =
    Reach-Sound proc-Sound_example (next (next here (waits 0 true parent_state)) (schedules 1))

parent_sleeps :
    ((child_runs.table 0).state ≡ sleeping) × ((child_runs.table 0).chan ≡ some (proc 0))
unfolding scheduler fork fork_into fork_adopt fork_start allocproc allocproc_in find_unused allocpid
    wait wait_after scan sleep
parent_sleeps = (refl, refl)

child_state : ((child_runs.table 1).state ≡ running) × ((child_runs.table 1).parent ≡ some 0)
unfolding scheduler fork fork_into fork_adopt fork_start allocproc allocproc_in find_unused allocpid
    wait wait_after scan sleep
child_state = (refl, refl)

exit_returns : exit 1 7 child_runs ≡ ok (exited 1 7 child_runs)
unfolding exit wait wait_after scan fork fork_into fork_adopt fork_start allocproc allocproc_in
    find_unused scheduler allocpid
exit_returns = refl

wait-exit_example :
    (((exited 1 7 child_runs).table 0).state ≡ runnable)
    × IsReaped (wait 0 true (exited 1 7 child_runs)).0
wait-exit_example =
    wait-exit child_runs 0 1 7 child_runs-Sound parent_sleeps.0 parent_sleeps.1 child_state.0
      child_state.1 exit_returns

wait-Waits_example : Waits 0 true forked (wait 0 true forked).0 (wait 0 true forked).1
wait-Waits_example = wait-Waits 0 true forked

-- `kill` of the process id 0 marks a slot that is not in use, and `fork` does not clear the mark.
abbrev marked : Table → Option Table → Table
marked t none = t
marked t (some u) = u

killed_at_birth :
    ((fork 0 16384 20480 true (record parent_runs {
      table = marked parent_runs.table (kill 0 parent_runs.table);
    })).2.table
      1).killed
    ≡ true
unfolding scheduler fork fork_into allocproc allocproc_in find_unused allocpid kill kill_from
killed_at_birth = refl
