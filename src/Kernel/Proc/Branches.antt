-- ===== src/Kernel/Proc/Branches.antt =====
-- What one round of wait does, on each branch.
use mits081_lab.Base.{
  ℕ, zero, suc, ◌+◌, ◌≡◌, ◌<◌, inl, inr, refl, Bool, true, false, Bool-cases, Option, none, some,
  arith, points_to,
}
use mits081_lab.Kernel.Disk.{update}
use mits081_lab.Kernel.Proc.{
  nproc, Table, Processes, proc, blank, freeproc, scan, Waited, reaped, failed, asleep, wait_after,
  wait, sleep,
}
use mits081_lab.Kernel.Proc.Wait.{is_dead_child, scan_found, scan-none, scan_kids}
use mits081_lab.Kernel.Proc.Similar.{bool_clash}

-- What `wait` of `me` returns and leaves.
pub data Waits (me : ℕ) (copied : Bool) (s : Processes) : Waited → Processes → Type 0 where
  reaps :
      (i : ℕ)
      → i < nproc
      → is_dead_child me (s.table i) ≡ true
      → copied ≡ true
      → Waits me copied s
          (reaped (s.table i).pid (s.table i).xstate (freeproc (s.table i)).0)
          (record s { table = update s.table i blank })
  faults :
      (i : ℕ)
      → i < nproc
      → is_dead_child me (s.table i) ≡ true
      → copied ≡ false
      → Waits me copied s failed s
  childless :
      ((j : ℕ) → j < nproc → points_to (s.table j).parent me ≡ false) → Waits me copied s failed s
  dies :
      ((j : ℕ) → j < nproc → is_dead_child me (s.table j) ≡ false)
      → (s.table me).killed ≡ true
      → Waits me copied s failed s
  sleeps :
      ((j : ℕ) → j < nproc → is_dead_child me (s.table j) ≡ false)
      → (s.table me).killed ≡ false
      → (i : ℕ) → i < nproc
      → points_to (s.table i).parent me ≡ true
      → Waits me copied s asleep (record s { table = sleep me (proc me) s.table })

scan_child :
    (k i me : ℕ) (t : Table)
    → (scan k i me t).1 ≡ true
    → (j : ℕ) × (j < i + k) × (points_to (t j).parent me ≡ true)
unfolding scan
scan_child zero i me t e = grind (arith, e)
scan_child (suc k) i me t e = elim (Bool-cases (points_to (t i).parent me)) [
  | inl mine ↦ (i, omega arith, mine)
  | inr other ↦
      let rest : (scan k (i + 1) me t).1 ≡ true = ground (arith, other, e) in
      let (j, small, mine) = scan_child k (i + 1) me t rest in (j, omega (arith, small), mine)
]

scan_childless :
    (me : ℕ) (t : Table)
    → (scan nproc 0 me t).1 ≡ false
    → (j : ℕ) → j < nproc
    → points_to (t j).parent me ≡ false
scan_childless me t e j small = elim (Bool-cases (points_to (t j).parent me)) [
  | inl mine ↦
      absurd (bool_clash e (scan_kids nproc 0 me t j (omega arith) (omega (arith, small)) mine))
  | inr other ↦ other
]

wait_after_found :
    (me : ℕ) (copied : Bool) (s : Processes) (i : ℕ) (kids : Bool)
    → i < nproc
    → is_dead_child me (s.table i) ≡ true
    → Waits me copied s
        (wait_after me copied s (some i) kids).0
        (wait_after me copied s (some i) kids).1
unfolding wait_after freeproc
wait_after_found me true s i kids small dead = reaps i small dead refl
wait_after_found me false s i kids small dead = faults i small dead refl

wait_after-none :
    (me : ℕ) (copied : Bool) (s : Processes)
    → (scan nproc 0 me s.table).0 ≡ none
    → (kids : Bool) → (scan nproc 0 me s.table).1 ≡ kids
    → Waits me copied s (wait_after me copied s none kids).0 (wait_after me copied s none kids).1
unfolding wait_after
wait_after-none me copied s e false kids = childless (scan_childless me s.table kids)
wait_after-none me copied s e true kids =
    let living : (j : ℕ) → j < nproc → is_dead_child me (s.table j) ≡ false =
      λ j small. scan-none nproc 0 me s.table e j (omega arith) (omega (arith, small)) in
    let (i, small, mine) = scan_child nproc 0 me s.table kids in
    elim (Bool-cases (s.table me).killed) [
      | inl killed ↦ rw killed (dies living killed)
      | inr lives ↦ rw lives (sleeps living lives i (omega (arith, small)) mine)
    ]

-- One round of `wait` frees the slot of an exited child and returns that child's id and exit status; or fails, if the status
-- cannot be copied out, or there is no child, or the caller is killed and no child has exited; or
-- sleeps on the caller's own address, if it has children, none of which has exited, and is not killed.
pub wait-Waits :
    (me : ℕ) (copied : Bool) (s : Processes)
    → Waits me copied s (wait me copied s).0 (wait me copied s).1
unfolding wait
wait-Waits me copied s = go (scan nproc 0 me s.table).0 refl
  where
    go :
        (o : Option ℕ)
        → (scan nproc 0 me s.table).0 ≡ o
        → Waits me copied s
            (wait_after me copied s o (scan nproc 0 me s.table).1).0
            (wait_after me copied s o (scan nproc 0 me s.table).1).1
    go none e = wait_after-none me copied s e (scan nproc 0 me s.table).1 refl
    go (some i) e =
        let (dead, small) = scan_found nproc 0 me s.table e in
        wait_after_found me copied s i (scan nproc 0 me s.table).1 (omega (arith, small)) dead
