-- ===== src/Kernel/Spinlock/Tests.antt =====
-- Two CPUs at one lock, and nested calls of push_off.
use mits081_lab.Base.{refl, true, false, some, arith}
use mits081_lab.Kernel.Disk.{update}
use mits081_lab.Kernel.Spinlock.{Cpu, initlock, push_off, acquire_mark, test_and_set, acquire_enter}
use mits081_lab.Kernel.Spinlock.Nesting.{
  Matched, done, off, execute, IsQuiet, Restored, execute-Restored,
}
use mits081_lab.Kernel.Spinlock.Steps.{
  System, outside, spinning, swapped, critical, Reach, here, next, enter, take, mark, spin,
}
use mits081_lab.Kernel.Spinlock.Exclusion.{IsStart, Safe, spinlock-Safe}

abbrev running : Cpu
running = record { noff = 0; intena = false; enabled = true }

abbrev start : System
start = record { lock = initlock; cpus = λ _. running; place = λ _. outside }

-- CPU 0 has the lock, and CPU 1 waits for it.
abbrev contended : System
contended = record {
  lock = record { locked = true; cpu = some 0 };
  cpus = update (update start.cpus 0 (push_off running)) 1 (push_off running);
  place = update (update (update (update start.place 0 spinning) 0 swapped) 0 critical) 1 spinning;
}

start-IsStart : IsStart start
start-IsStart = record { lock = refl; place = λ j. refl }

Reach-contended : Reach start contended
unfolding acquire_enter test_and_set acquire_mark
Reach-contended =
    next
      (next (next (next (next here (enter 0 refl refl)) (take 0 refl refl)) (mark 0 refl))
        (enter 1 refl refl))
      (spin 1 refl refl)

spinlock-Safe_example : Safe contended
spinlock-Safe_example = spinlock-Safe start-IsStart Reach-contended

-- Two nested pairs, and a third after them.
abbrev nested : Matched
nested = off (off done done) (off done done)

running-IsQuiet : IsQuiet running
unfolding IsQuiet
running-IsQuiet h = absurd (omega arith)

execute-Restored_example : Restored running (execute nested running)
execute-Restored_example = execute-Restored nested running running-IsQuiet
