-- ===== src/Kernel/Proc/Wait.antt =====
-- wait: its scan of the table, and that it keeps the table sound.
use mits081_lab.Base.{
  ℕ, zero, suc, ◌+◌, ◌≡◌, ◌≢◌, ◌<◌, ◌≤◌, inl, inr, refl, ◌∙◌, sym, ap, Bool, true, false, not, ◌&&◌,
  ◌||◌, Bool-cases, Option, none, some, ==_iff, ==_false, arith, ℕ_discrete, points_to,
}
use mits081_lab.Kernel.Disk.{update}
use mits081_lab.Kernel.Proc.{
  nproc, ProcState, unused, used, sleeping, runnable, running, zombie, is_unused, is_zombie, proc,
  Process, Table, Processes, blank, freeproc, scan, wait_after, wait,
}
use mits081_lab.Kernel.Proc.System.{is_alive, HasParent, Sound}
use mits081_lab.Kernel.Proc.Similar.{bool_clash, Similar-Sound, sleep-Similar}

-- a child of `me` that has exited
abbrev pub is_dead_child : ℕ → Process → Bool
is_dead_child me p = points_to p.parent me && is_zombie p.state

pub scan_found :
    (k i me : ℕ) (t : Table) {j : ℕ}
    → (scan k i me t).0 ≡ some j
    → (is_dead_child me (t j) ≡ true) × (j < i + k)
unfolding scan
scan_found zero i me t e = grind (arith, e)
scan_found (suc k) i me t {j = j} e = elim (Bool-cases (is_dead_child me (t i))) [
  | inl dead ↦ let same : i ≡ j = ground (arith, dead, e) in rw (sym same) (dead, omega arith)
  | inr other ↦
      let rest : (scan k (i + 1) me t).0 ≡ some j = ground (arith, other, e) in
      let (dead, small) = scan_found k (i + 1) me t rest in (dead, omega (arith, small))
]

pub scan-none :
    (k i me : ℕ) (t : Table)
    → (scan k i me t).0 ≡ none
    → (j : ℕ) → i ≤ j
    → j < i + k
    → is_dead_child me (t j) ≡ false
unfolding scan
scan-none zero i me t e j lo hi = absurd (omega arith)
scan-none (suc k) i me t e j lo hi = elim (ℕ_discrete i j) [
  | yes same ↦ rw (sym same) (ground (arith, e))
  | no ne ↦ scan-none k (i + 1) me t (ground (arith, e)) j (omega arith) (omega arith)
]

pub scan_kids :
    (k i me : ℕ) (t : Table) (j : ℕ)
    → i ≤ j
    → j < i + k
    → points_to (t j).parent me ≡ true
    → (scan k i me t).1 ≡ true
unfolding scan
scan_kids zero i me t j lo hi e = absurd (omega arith)
scan_kids (suc k) i me t j lo hi e = elim (ℕ_discrete i j) [
  | yes same ↦ rw (same, e) refl
  | no ne ↦ ground (arith, scan_kids k (i + 1) me t j (omega arith) (omega arith) e)
]

dead_zombie : (me : ℕ) (p : Process) → is_dead_child me p ≡ true → is_zombie p.state ≡ true
dead_zombie me p e = ground (arith, e)

zombie_used : (x : ProcState) → is_zombie x ≡ true → (is_unused x ≡ false) × (is_alive x ≡ false)
zombie_used zombie e = (refl, refl)
zombie_used unused e = grind (arith, e)
zombie_used used e = grind (arith, e)
zombie_used sleeping e = grind (arith, e)
zombie_used runnable e = grind (arith, e)
zombie_used running e = grind (arith, e)

-- The slot of a zombie is freed.
freed_Sound :
    {s : Processes} (i : ℕ)
    → is_zombie (s.table i).state ≡ true
    → Sound s
    → Sound (record s { table = update s.table i blank })
unfolding HasParent
freed_Sound {s = s} i dead d = record {
  free = λ j e. elim (ℕ_discrete i j) [
    | yes same ↦ here j same
    | no ne ↦ rw (other j ne) (d.free j (rw (other j ne) at e))
  ];
  pids = λ j e. rw (other j (apart j e)) (d.pids j (was j e));
  distinct = λ j k e f same. d.distinct j k (was j e) (was k f) (sym (pid j e) ∙ same ∙ pid k f);
  parents = λ j e ne. old_parent j (apart j e) (d.parents j (was j e) ne);
  first = kept s.init d.first;
}
  where
    here : (j : ℕ) → i ≡ j → update s.table i blank j ≡ blank
    here j e = rw ((==_iff i j).1 e) refl

    other : (j : ℕ) → i ≢ j → update s.table i blank j ≡ s.table j
    other j ne = rw (==_false i j ne) refl

    apart : (j : ℕ) → is_unused (update s.table i blank j).state ≡ false → i ≢ j
    apart j e same = bool_clash e (ap {A = Process} (λ x. is_unused x.state) (here j same))

    was :
        (j : ℕ)
        → is_unused (update s.table i blank j).state ≡ false
        → is_unused (s.table j).state ≡ false
    was j e = rw (other j (apart j e)) at e

    pid :
        (j : ℕ)
        → is_unused (update s.table i blank j).state ≡ false
        → (update s.table i blank j).pid ≡ (s.table j).pid
    pid j e = ap {A = Process} (λ x. x.pid) (other j (apart j e))

    kept :
        (q : ℕ)
        → is_alive (s.table q).state ≡ true
        → is_alive (update s.table i blank q).state ≡ true
    kept q a =
        rw
          (other q (λ same.
            bool_clash ((zombie_used _ dead).1) (ap (λ j. is_alive (s.table j).state) same ∙ a)))
          a

    old_parent : (j : ℕ) → i ≢ j → HasParent s.table j → HasParent (update s.table i blank) j
    old_parent j ne (inl (state, parent)) = inl (rw (other j ne) (state, parent))
    old_parent j ne (inr (q, p, a)) = inr (q, rw (other j ne) p, kept q a)

wait_after-Sound :
    {s : Processes} (me : ℕ) (copied : Bool) (found : Option ℕ) (kids : Bool)
    → (s.table me).state ≡ running
    → ((i : ℕ) → found ≡ some i → is_zombie (s.table i).state ≡ true)
    → Sound s
    → Sound (wait_after me copied s found kids).1
unfolding wait_after freeproc
wait_after-Sound me false (some i) kids e h d = d
wait_after-Sound me true (some i) kids e h d = freed_Sound i (h i refl) d
wait_after-Sound {s = s} me copied none kids e h d =
    elim (Bool-cases (not kids || (s.table me).killed)) [
      | inl fails ↦ rw fails d
      | inr sleeps ↦
          rw sleeps (Similar-Sound (sleep-Similar me (proc me) s.table e) (omega arith) d)
    ]

pub wait-Sound :
    {s : Processes} (me : ℕ) (copied : Bool)
    → (s.table me).state ≡ running
    → Sound s
    → Sound (wait me copied s).1
unfolding wait
wait-Sound {s = s} me copied e d =
    wait_after-Sound me copied (scan nproc 0 me s.table).0 (scan nproc 0 me s.table).1 e
      (λ i found. dead_zombie me (s.table i) (scan_found nproc 0 me s.table found).0) d
