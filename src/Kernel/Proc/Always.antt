-- ===== src/Kernel/Proc/Always.antt =====
-- The process table in every state that the kernel can reach.
use mits081_lab.Base.{
  ℕ, ◌≡◌, ◌≢◌, inl, inr, refl, ◌∙◌, sym, ap, true, false, Bool-cases, Option, none, some, ◌==◌,
  ==_iff, ==_false, if◌then◌else◌, arith, ℕ_discrete,
}
use mits081_lab.Kernel.Proc.{
  runnable, is_unused, Process, Table, Processes, blank, initial, allocproc, allocproc_in,
  find_unused, userinit, userinit_into, allocpid, freeproc,
}
use mits081_lab.Kernel.Proc.System.{
  is_alive, Sound, Step, forks, adopts, starts, exits, waits, sleeps, tidies, yields, wakes_up,
  schedules, kills, Reach, here, next,
}
use mits081_lab.Kernel.Proc.Similar.{
  alive_used, bool_clash, Similar-Sound, sleep-Similar, tidy-Similar, yield-Similar, wakeup-Similar,
  scheduler-Similar, kill-Similar,
}
use mits081_lab.Kernel.Proc.Start.{fork-Sound}
use mits081_lab.Kernel.Proc.Adopt.{fork_adopt-Sound, fork_start-Sound}
use mits081_lab.Kernel.Proc.End.{exit-exited, exited-Sound}
use mits081_lab.Kernel.Proc.Wait.{wait-Sound}

Step-Sound : {s t : Processes} → Step s t → Sound s → Sound t
Step-Sound (forks me trapframe pagetable copied e) d = fork-Sound me trapframe pagetable copied e d
Step-Sound (adopts me i e state parent) d = fork_adopt-Sound me i e state d
Step-Sound (starts me i e state parent) d = fork_start-Sound me i e state parent d
Step-Sound (exits {s = s} me status e r) d =
    let (other, same) = exit-exited me status s r in rw same (exited-Sound s me status d e other)
Step-Sound (waits me copied e) d = wait-Sound me copied e d
Step-Sound (sleeps {s = s} me chan e) d =
    Similar-Sound (sleep-Similar me chan s.table e) (omega arith) d
Step-Sound (tidies {s = s} me e) d = Similar-Sound (tidy-Similar me s.table e) (omega arith) d
Step-Sound (yields {s = s} me e) d = Similar-Sound (yield-Similar me s.table e) (omega arith) d
Step-Sound (wakes_up {s = s} me chan) d =
    Similar-Sound (wakeup-Similar me chan s.table) (omega arith) d
Step-Sound (schedules {s = s} i) d = Similar-Sound (scheduler-Similar i s.table) (omega arith) d
Step-Sound (kills pid ne e) d = Similar-Sound (kill-Similar pid d ne e) (omega arith) d

pub Reach-Sound : {s t : Processes} → Sound s → Reach s t → Sound t
Reach-Sound d here = d
Reach-Sound d (next r step) = Step-Sound step (Reach-Sound d r)

-- The table with one process, in slot 0.
only :
    (p : Process)
    → is_alive p.state ≡ true
    → p.pid ≡ 1
    → (t : Table) → ((j : ℕ) → t j ≡ (if 0 == j then p else blank))
    → Sound (record { table = t; nextpid = 2; init = 0 })
only p alive pid t at = record {
  free = λ j e. elim (ℕ_discrete 0 j) [
    | yes same ↦ absurd (bool_clash (alive_used p.state alive) (rw (first j same) at e))
    | no ne ↦ rest j ne
  ];
  pids = λ j e.
      let z = zero_of j e in rw (first j z, pid) (omega arith, omega arith, omega (arith, z));
  distinct = λ j k e f same. sym (zero_of j e) ∙ zero_of k f;
  parents = λ j e ne. absurd (ne (sym (zero_of j e)));
  first = rw (first 0 refl) alive;
}
  where
    first : (j : ℕ) → 0 ≡ j → t j ≡ p
    first j e = at j ∙ rw ((==_iff 0 j).1 e) refl

    rest : (j : ℕ) → 0 ≢ j → t j ≡ blank
    rest j ne = at j ∙ rw (==_false 0 j ne) refl

    zero_of : (j : ℕ) → is_unused (t j).state ≡ false → 0 ≡ j
    zero_of j e = elim (ℕ_discrete 0 j) [
      | yes same ↦ same
      | no ne ↦ absurd (bool_clash e (ap {A = Process} (λ x. is_unused x.state) (rest j ne)))
    ]

none-some : {s : Processes} → ◌≡◌ {A = Option Processes} none (some s) → ⊥
none-some e = grind (arith, e)

some-some : {s t : Processes} → some s ≡ some t → t ≡ s
some-some {s = s} e = sym (ap value e)
  where
    value : Option Processes → Processes
    value none = s
    value (some t) = t

userinit-Sound :
    (trapframe pagetable : ℕ) {s : Processes}
    → userinit trapframe pagetable initial ≡ some s
    → Sound s
unfolding userinit userinit_into allocproc allocproc_in find_unused allocpid freeproc
userinit-Sound trapframe pagetable {s = s} e = elim (Bool-cases (trapframe == 0)) [
  | inl f ↦ absurd (none-some (rw f at e))
  | inr f ↦ elim (Bool-cases (pagetable == 0)) [
    | inl g ↦ absurd (none-some (rw (f, g) at e))
    | inr g ↦ rw (some-some (rw (f, g) at e)) (
        only
          (record blank {
            pid = 1;
            sz = 4096;
            state = runnable;
            trapframe = trapframe;
            pagetable = pagetable;
          })
          refl refl _ (λ j. ground arith))
  ]
]

-- In every state that the kernel reaches after `userinit`, whatever the order of the steps of processes, interrupts and the
-- scheduler, if no process calls `kill` with the process id 0: the table is sound. A slot that is not in use is blank; the
-- processes have distinct ids, which are not 0 and have been handed out; each of them but the first has a parent that has
-- not exited, which can wait for it, or is in state USED without a parent, between the first two critical sections of the fork
-- that makes it; and the first has not exited.
pub proc-Sound :
    {s t : Processes} (trapframe pagetable : ℕ)
    → userinit trapframe pagetable initial ≡ some s
    → Reach s t
    → Sound t
proc-Sound trapframe pagetable e r = Reach-Sound (userinit-Sound trapframe pagetable e) r
