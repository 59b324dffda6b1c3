-- ===== src/Kernel/Proc/Start.antt =====
-- The first part of fork keeps the process table sound.
use mits081_lab.Base.{
  ℕ, zero, suc, ◌+◌, ◌≡◌, ◌≢◌, ◌<◌, ◌≤◌, inl, inr, refl, ◌∙◌, sym, ap, Bool, true, false,
  Bool-cases, Option, none, some, List, ◌==◌, ==_iff, ==_false, if◌then◌else◌, arith, ℕ_discrete,
}
use mits081_lab.Kernel.Disk.{update}
use mits081_lab.Kernel.Proc.{
  nproc, used, running, is_unused, Process, Table, Processes, Release, blank, find_unused, freeproc,
  allocpid, allocproc_in, allocproc, fork_into, fork,
}
use mits081_lab.Kernel.Proc.System.{is_alive, HasParent, Sound}
use mits081_lab.Kernel.Proc.Similar.{alive_used, bool_clash, Similar, Similar-refl, Similar-Sound}

find_unused_lem :
    (k i : ℕ) (t : Table) {j : ℕ}
    → find_unused k i t ≡ some j
    → (is_unused (t j).state ≡ true) × (j < i + k)
unfolding find_unused
find_unused_lem zero i t e = grind (arith, e)
find_unused_lem (suc k) i t {j = j} e = elim (Bool-cases (is_unused (t i).state)) [
  | inl free ↦ let same : i ≡ j = ground (arith, free, e) in rw (sym same) (free, omega arith)
  | inr taken ↦
      let (free, small) = find_unused_lem k (i + 1) t (rw taken at e) in
      (free, omega (arith, small))
]

-- What `allocproc` does: nothing, or it hands out a process id and leaves a free slot blank or fills it.
pub data Allocated (s : Processes) : Option ℕ → Processes → Type 0 where
  full : Allocated s none s
  no_memory :
      {s' : Processes} (i : ℕ)
      → is_unused (s.table i).state ≡ true
      → i < nproc
      → s' ≡ record s { nextpid = s.nextpid + 1; table = update s.table i blank }
      → Allocated s none s'
  got :
      {s' : Processes} (i : ℕ) (trapframe pagetable : ℕ)
      → is_unused (s.table i).state ≡ true
      → i < nproc
      → s' ≡ record s {
        nextpid = s.nextpid + 1;
        table = update s.table i (record (s.table i) {
          pid = s.nextpid;
          state = used;
          trapframe = trapframe;
          pagetable = pagetable;
        });
      }
      → Allocated s (some i) s'

allocproc_in-Allocated :
    (trapframe pagetable : ℕ) (s : Processes) (i : ℕ)
    → is_unused (s.table i).state ≡ true
    → i < nproc
    → Allocated s
        (allocproc_in trapframe pagetable s (some i)).0
        (allocproc_in trapframe pagetable s (some i)).2
unfolding allocproc_in freeproc allocpid
allocproc_in-Allocated trapframe pagetable s i free small = elim (Bool-cases (trapframe == 0)) [
  | inl e ↦ rw e (no_memory i free small refl)
  | inr e ↦ elim (Bool-cases (pagetable == 0)) [
    | inl f ↦ rw (e, f) (no_memory i free small refl)
    | inr f ↦ rw (e, f) (got i trapframe pagetable free small refl)
  ]
]

allocproc-Allocated :
    (trapframe pagetable : ℕ) (s : Processes)
    → Allocated s (allocproc trapframe pagetable s).0 (allocproc trapframe pagetable s).2
unfolding allocproc allocproc_in
allocproc-Allocated trapframe pagetable s = from_slot (find_unused nproc 0 s.table) refl
  where
    from_slot :
        (o : Option ℕ)
        → find_unused nproc 0 s.table ≡ o
        → Allocated s
            (allocproc_in trapframe pagetable s o).0
            (allocproc_in trapframe pagetable s o).2
    from_slot none e = full
    from_slot (some i) e =
        let (free, small) = find_unused_lem nproc 0 s.table e in
        allocproc_in-Allocated trapframe pagetable s i free small

-- A new process in a free slot.
pub Sound-child :
    {s : Processes} {t : Table} (i : ℕ) (child : Process)
    → Sound s
    → is_unused (s.table i).state ≡ true
    → i < nproc
    → child.pid ≡ s.nextpid
    → child.state ≡ used
    → child.parent ≡ none
    → ((j : ℕ) → t j ≡ (if i == j then child else s.table j))
    → Sound (record s { table = t; nextpid = s.nextpid + 1 })
unfolding HasParent
Sound-child {s = s} {t = t} i child d free small pid state parent at = record {
  free = λ j e. elim (ℕ_discrete i j) [
    | yes same ↦ absurd (bool_clash (alive_used child.state alive) (rw (here j same) at e))
    | no ne ↦ other j ne ∙ d.free j (rw (other j ne) at e)
  ];
  pids = λ j e. elim (ℕ_discrete i j) [
    | yes same ↦ rw (here j same, pid) (positive, omega arith, omega (arith, same))
    | no ne ↦
        let (lo, hi, small') = d.pids j (rw (other j ne) at e) in
        rw (other j ne) (lo, omega (arith, hi), small')
  ];
  distinct = λ j k e f same. elim (ℕ_discrete i j) [
    | yes here_j ↦ elim (ℕ_discrete i k) [
      | yes here_k ↦ sym here_j ∙ here_k
      | no ne ↦ absurd (newer k f ne (sym (pid_here j here_j) ∙ same))
    ]
    | no ne ↦ elim (ℕ_discrete i k) [
      | yes here_k ↦ absurd (newer j e ne (sym (pid_here k here_k) ∙ sym same))
      | no ne' ↦
          d.distinct j k (rw (other j ne) at e) (rw (other k ne') at f)
            (sym (pid_other j ne) ∙ same ∙ pid_other k ne')
    ]
  ];
  parents = λ j e ne'. elim (ℕ_discrete i j) [
    | yes same ↦ inl (rw (here j same) (state, parent))
    | no ne ↦ old_parent j ne (d.parents j (rw (other j ne) at e) ne')
  ];
  first = kept s.init d.first;
}
  where
    alive : is_alive child.state ≡ true
    alive = ap is_alive state

    here : (j : ℕ) → i ≡ j → t j ≡ child
    here j e = at j ∙ rw ((==_iff i j).1 e) refl

    other : (j : ℕ) → i ≢ j → t j ≡ s.table j
    other j ne = at j ∙ rw (==_false i j ne) refl

    kept : (q : ℕ) → is_alive (s.table q).state ≡ true → is_alive (t q).state ≡ true
    kept q a =
        rw
          (other q (λ same.
            bool_clash (alive_used _ a) (ap (λ j. is_unused (s.table j).state) (sym same) ∙ free)))
          a

    old_parent : (j : ℕ) → i ≢ j → HasParent s.table j → HasParent t j
    old_parent j ne (inl (state, parent)) = inl (rw (other j ne) (state, parent))
    old_parent j ne (inr (q, p, a)) = inr (q, rw (other j ne) p, kept q a)

    positive : 0 < s.nextpid
    positive = let (lo, hi, _) = d.pids s.init (alive_used _ d.first) in omega (arith, lo, hi)

    pid_here : (j : ℕ) → i ≡ j → (t j).pid ≡ s.nextpid
    pid_here j e = ap {A = Process} (λ x. x.pid) (here j e) ∙ pid

    pid_other : (j : ℕ) → i ≢ j → (t j).pid ≡ (s.table j).pid
    pid_other j ne = ap {A = Process} (λ x. x.pid) (other j ne)

    newer : (j : ℕ) → is_unused (t j).state ≡ false → i ≢ j → s.nextpid ≡ (t j).pid → ⊥
    newer j f ne same =
        let (_, older, _) = d.pids j (rw (other j ne) at f) in
        omega (arith, older, same, pid_other j ne)

update_same :
    (f : Table) (i : ℕ) (a b : Process) (j : ℕ)
    → update (update f i a) i b j ≡ (if i == j then b else f j)
update_same f i a b j = ground arith

-- A slot that was free is blank again.
blank_again :
    {s : Processes} {t : Table} (i : ℕ) {n : ℕ}
    → Sound s
    → is_unused (s.table i).state ≡ true
    → s.nextpid ≤ n
    → ((j : ℕ) → t j ≡ (if i == j then blank else s.table j))
    → Sound (record s { table = t; nextpid = n })
blank_again {s = s} i d free more at = Similar-Sound (λ j. rw (at j) (same j)) more d
  where
    same : (j : ℕ) → Similar (s.table j) (if i == j then blank else s.table j)
    same j = elim (ℕ_discrete i j) [
      | yes e ↦ rw ((==_iff i j).1 e, sym (d.free i free), e) (Similar-refl (s.table j))
      | no ne ↦ rw (==_false i j ne) (Similar-refl (s.table j))
    ]

fork_into-Sound :
    {s s' : Processes} {o : Option ℕ} (me : ℕ) (copied : Bool) (released : List Release)
    → (s.table me).state ≡ running
    → Sound s
    → Allocated s o s'
    → Sound (fork_into me copied o released s').2
unfolding fork_into freeproc
fork_into-Sound me copied released e d full = d
fork_into-Sound {s = s} me copied released e d (no_memory i free small same) =
    rw same (blank_again i d free (omega arith) (λ j. refl))
fork_into-Sound {s = s} me true released e d (got i tf pt free small same) = rw same (
    Sound-child i _ d free small (ground arith) (ground arith)
      (ground (arith, ap {A = Process} (λ x. x.parent) (d.free i free)))
      (λ j. update_same s.table i _ _ j))
fork_into-Sound {s = s} me false released e d (got i tf pt free small same) =
    rw same (blank_again i d free (omega arith) (λ j. update_same s.table i _ _ j))

pub fork-Sound :
    {s : Processes} (me trapframe pagetable : ℕ) (copied : Bool)
    → (s.table me).state ≡ running
    → Sound s
    → Sound (fork me trapframe pagetable copied s).2
unfolding fork
fork-Sound {s = s} me trapframe pagetable copied e d =
    fork_into-Sound me copied _ e d (allocproc-Allocated trapframe pagetable s)
