-- ===== src/Kernel/Proc/Reap.antt =====
-- A parent that waits, and a child that exits.
use mits081_lab.Base.{
  ℕ, ◌≡◌, ◌≢◌, ◌<◌, ◌⊎◌, inl, inr, refl, ◌∙◌, sym, ap, Bool, true, false, Option, none, some,
  ==_iff, ==_false, lt→ltb, arith,
}
use mits081_lab.Kernel.Panic.{ok}
use mits081_lab.Kernel.Proc.{
  nproc, ProcState, sleeping, runnable, running, is_zombie, proc, wakes, Process, Table, Processes,
  wakeup, exit, exited, orphaned, scan, Waited, reaped, wait, wait_after,
}
use mits081_lab.Kernel.Proc.Wakeup.{wakeup_lem}
use mits081_lab.Kernel.Proc.System.{is_alive, Sound}
use mits081_lab.Kernel.Proc.Similar.{alive_used, bool_clash}
use mits081_lab.Kernel.Proc.End.{
  exit-exited, given, given-Reparented, orphaned-given, exited_at, exited_parent,
}
use mits081_lab.Kernel.Proc.Wait.{scan-none, is_dead_child}

-- A process that has slept on its own address wakes once it is woken, if it has not been before.
woken_up :
    (me p : ℕ) (t : Table)
    → p < nproc
    → me ≢ p
    → (t p).chan ≡ some (proc p)
    → ((t p).state ≡ sleeping) ⊎ ((t p).state ≡ runnable)
    → (wakeup (some me) (some (proc p)) t p).state ≡ runnable
unfolding wakes
woken_up me p t small ne chan (inl asleep) =
    let test : wakes (some me) (some (proc p)) p (t p) ≡ true =
      rw (asleep, chan, ==_false me p ne, (==_iff p p).1 refl) refl in
    rw (wakeup_lem (some me) (some (proc p)) t p, test, lt→ltb p nproc small) refl
woken_up me p t small ne chan (inr awake) =
    let test : wakes (some me) (some (proc p)) p (t p) ≡ false =
      rw (awake, ==_false me p ne) refl in
    rw (wakeup_lem (some me) (some (proc p)) t p, test) (ground (arith, awake))

clash : ◌≡◌ {A = ProcState} running sleeping → ⊥
clash e = grind (arith, e)

-- `me` sleeps as `wait` has left it, and its child `child` runs.
module _ (s : Processes) (me child : ℕ) (d : Sound s) (asleep : (s.table me).state ≡ sleeping)
    (chan : (s.table me).chan ≡ some (proc me)) (runs : (s.table child).state ≡ running)
    (parent : (s.table child).parent ≡ some me) where
  apart : child ≢ me
  apart e = clash (sym runs ∙ ap (λ i. (s.table i).state) e ∙ asleep)

  parent_given : (given s child child).parent ≡ some me
  parent_given =
      (given-Reparented s child child).parent
      ∙ rw (parent, ==_false me child (λ e. apart (sym e))) (ground arith)

  orphaned_runnable : (orphaned child s me).state ≡ runnable
  orphaned_runnable =
      rw (orphaned-given s child, parent_given)
        (woken_up child me (given s child) in_table apart slept state)
    where
      in_table : me < nproc
      in_table = (d.pids me (alive_used _ (ap is_alive asleep))).2

      slept : (given s child me).chan ≡ some (proc me)
      slept = ap {A = Process} (λ x. x.chan) (given-Reparented s child me).rouses.same ∙ chan

      state : ((given s child me).state ≡ sleeping) ⊎ ((given s child me).state ≡ runnable)
      state = elim (given-Reparented s child me).rouses.state [
        | inl e ↦ inl (e ∙ asleep)
        | inr (_, e) ↦ inr e
      ]

  -- `child` is found by the scan.
  dead_child : (status : ℕ) → is_dead_child me ((exited child status s).table child) ≡ true
  dead_child status =
      rw (exited_parent s child status child, parent, ==_false me child (λ e. apart (sym e)), dead)
        (ground arith)
    where
      dead : is_zombie ((exited child status s).table child).state ≡ true
      dead = rw (exited_at s child status child, (==_iff child child).1 refl) refl

-- What `wait` returns when it reaps a child.
pub IsReaped : Waited → Type 0
IsReaped (reaped pid xstate released) = Unit
IsReaped _ = ⊥

wait_after-IsReaped :
    (me : ℕ) (s : Processes) (i : ℕ) (kids : Bool) → IsReaped (wait_after me true s (some i) kids).0
unfolding wait_after IsReaped
wait_after-IsReaped me s i kids = tt

-- The scan finds a child that has exited, so that `wait` reaps one.
wait-IsReaped :
    (me child : ℕ) (s : Processes)
    → child < nproc
    → is_dead_child me (s.table child) ≡ true
    → IsReaped (wait me true s).0
unfolding wait
wait-IsReaped me child s small dead = go (scan nproc 0 me s.table).0 refl
  where
    go :
        (o : Option ℕ)
        → (scan nproc 0 me s.table).0 ≡ o
        → IsReaped (wait_after me true s o (scan nproc 0 me s.table).1).0
    go none e = absurd (
        bool_clash (scan-none nproc 0 me s.table e child (omega arith) (omega (arith, small))) dead)
    go (some i) e = wait_after-IsReaped me s i _

-- A parent that sleeps in `wait` is not left to sleep: when a child of it exits, the parent becomes runnable, and its
-- next scan of the table finds an exited child.
pub wait-exit :
    (s : Processes) (me child status : ℕ) {s' : Processes}
    → Sound s
    → (s.table me).state ≡ sleeping
    → (s.table me).chan ≡ some (proc me)
    → (s.table child).state ≡ running
    → (s.table child).parent ≡ some me
    → exit child status s ≡ ok s'
    → ((s'.table me).state ≡ runnable) × IsReaped (wait me true s').0
wait-exit s me child status d asleep chan runs parent e =
    let (_, same) = exit-exited child status s e in
    let (_, _, small) = d.pids child (alive_used _ (ap is_alive runs)) in
    rw same (
      rw
          (
            exited_at s child status me,
            ==_false child me (apart s me child d asleep chan runs parent),
          )
          (orphaned_runnable s me child d asleep chan runs parent),
      wait-IsReaped me child (exited child status s) small
          (dead_child s me child d asleep chan runs parent status),
    )
