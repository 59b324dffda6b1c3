-- ===== src/Kernel/Spinlock.antt =====
-- kernel/spinlock.c: the nesting of push_off and pop_off on one CPU, and a spin lock that all CPUs share, each
-- access to the lock in a function of its own. A CPU is named by its number.
pub mod Nesting
pub mod Steps
pub mod Exclusion
mod Tests
use mits081_lab.Base.{
  ℕ, suc, ◌+◌, ◌-◌, Bool, true, false, ◌&&◌, Option, none, some, points_to, ◌==◌, ltb,
  if◌then◌else◌,
}
use mits081_lab.Kernel.Panic.{Run, ok, ◌>>=◌, ◌>>◌, panic_if}

-- the fields of `struct cpu` that the functions below use, and whether the CPU's interrupts are on
pub record Cpu : Type 0 where
  pub noff : ℕ
  pub intena : Bool
  pub enabled : Bool

-- `struct spinlock`; `cpu` is the CPU that holds the lock, for `holding`.
pub record SpinLock : Type 0 where
  pub locked : Bool
  pub cpu : Option ℕ

abbrev pub initlock : SpinLock
initlock = record { locked = false; cpu = none }

unfoldable pub push_off : Cpu → Cpu
push_off c = record {
  noff = c.noff + 1;
  intena = if c.noff == 0 then c.enabled else c.intena;
  enabled = false;
}

unfoldable pub pop_off : Cpu → Run Cpu
pop_off c = do
  panic_if c.enabled
  panic_if (ltb c.noff 1)
  ok (record {
    noff = c.noff - 1;
    intena = c.intena;
    enabled = if c.noff - 1 == 0 && c.intena then true else c.enabled;
  })

unfoldable pub holding : ℕ → SpinLock → Bool
holding me lk = lk.locked && points_to lk.cpu me

-- `acquire` up to its loop.
pub acquire_enter : ℕ → Cpu → SpinLock → Run Cpu
unfolding push_off holding
acquire_enter me c lk = do panic_if (holding me lk); ok (push_off c)

-- One round of the loop of `acquire`: whether the lock was taken before, and the lock.
unfoldable pub test_and_set : SpinLock → Bool × SpinLock
test_and_set lk = (lk.locked, record lk { locked = true })

-- `acquire` after its loop.
unfoldable pub acquire_mark : ℕ → SpinLock → SpinLock
acquire_mark me lk = record lk { cpu = some me }

-- `release` up to its fence.
pub release_unmark : ℕ → SpinLock → Run SpinLock
unfolding holding
release_unmark me lk = do
  panic_if (if holding me lk then false else true)
  ok (record lk { cpu = none })

-- `release` after its fence.
pub release_unlock : Cpu → SpinLock → Run (Cpu × SpinLock)
unfolding pop_off
release_unlock c lk = do c' ← pop_off c; ok (c', record lk { locked = false })
