-- ===== src/Kernel/Spinlock/Exclusion.antt =====
-- Mutual exclusion: what holds of every order of the CPUs' accesses to a spin lock.
use mits081_lab.Base.{
  ℕ, ◌≡◌, ◌≢◌, ◌<◌, refl, ◌∙◌, sym, ap, true, false, Option, none, some, points_to, arith, ==_false,
  ℕ_discrete,
}
use mits081_lab.Kernel.Panic.{ok, panic}
use mits081_lab.Kernel.Disk.{update}
use mits081_lab.Kernel.Spinlock.{
  Cpu, SpinLock, initlock, holding, acquire_enter, test_and_set, acquire_mark, release_unmark,
  release_unlock,
}
use mits081_lab.Kernel.Spinlock.Nesting.{popped}
use mits081_lab.Kernel.Spinlock.Steps.{
  Place, outside, spinning, swapped, critical, unmarked, System, Step, enter, spin, take, mark,
  unmark, unlock, Reach, here, next, owns, noted, is_inside, Owner, free, owned, Locks, owned_by,
  update_at, update_other, moved, stays,
}

spin_lem : (l : SpinLock) {lk : SpinLock} → test_and_set l ≡ (true, lk) → l ≡ lk
unfolding test_and_set
spin_lem l e = grind (arith, e)

take_lem :
    {l lk : SpinLock}
    → l ≡ initlock
    → test_and_set l ≡ (false, lk)
    → lk ≡ record { locked = true; cpu = none }
unfolding test_and_set
take_lem lock e = grind (arith, lock, e)

take-free :
    {l lk : SpinLock} {o : Option ℕ}
    → l ≡ record { locked = true; cpu = o }
    → test_and_set l ≡ (false, lk)
    → ⊥
unfolding test_and_set
take-free lock e = grind (arith, lock, e)

mark_lem :
    (i : ℕ) {l : SpinLock}
    → l ≡ record { locked = true; cpu = none }
    → acquire_mark i l ≡ record { locked = true; cpu = some i }
unfolding acquire_mark
mark_lem i lock = grind (arith, lock)

unmark_result :
    (i : ℕ)
    → release_unmark i (record { locked = true; cpu = some i })
      ≡ ok (record { locked = true; cpu = none })
unfolding release_unmark
unmark_result i = ground arith

unlock_result :
    (c : Cpu) (o : Option ℕ)
    → c.enabled ≡ false
    → 0 < c.noff
    → release_unlock c (record { locked = true; cpu = o })
      ≡ ok (popped c, record { locked = false; cpu = o })
unfolding release_unlock
unlock_result c o e h = ground (arith, e, h)

unmark_lem :
    (i : ℕ) {l lk : SpinLock}
    → l ≡ record { locked = true; cpu = some i }
    → release_unmark i l ≡ ok lk
    → lk ≡ record { locked = true; cpu = none }
unmark_lem i lock e = grind (arith, unmark_result i, e, ap (release_unmark i) lock)

unlock_lem :
    (c c' : Cpu) {l lk : SpinLock}
    → (c.enabled ≡ false) × (0 < c.noff)
    → l ≡ record { locked = true; cpu = none }
    → release_unlock c l ≡ ok (c', lk)
    → lk ≡ initlock
unlock_lem c c' (off, deep) lock e =
    grind (arith, unlock_result c none off deep, e, ap (release_unlock c) lock)

enter_lem :
    (i : ℕ) (c : Cpu) (l : SpinLock) {c' : Cpu}
    → acquire_enter i c l ≡ ok c'
    → (c'.enabled ≡ false) × (0 < c'.noff)
unfolding acquire_enter
enter_lem i c l e = ground (arith, e)

Step-Owner : {s t : System} → Step s t → Locks s → Owner t
Step-Owner (enter {s = s} i at e) h = stays s i spinning _ refl (ap owns at) h.owner
Step-Owner (spin {s = s} i {lk = lk} at e) h = rw (spin_lem s.lock e) at h.owner
Step-Owner (take {s = s} i at e) h = elim h.owner [
  | free lock none_has ↦ moved s i swapped s.cpus refl (take_lem lock e) (λ j ne. none_has j)
  | owned k has lock others ↦ absurd (take-free lock e)
]
Step-Owner (mark {s = s} i at) h =
    let (lock, others) = owned_by h.owner i (ap owns at) in
    moved s i critical s.cpus refl (mark_lem i (rw at at lock)) others
Step-Owner (unmark {s = s} i {lk = lk} at e) h =
    let (lock, others) = owned_by h.owner i (ap owns at) in
    moved s i unmarked s.cpus refl (unmark_lem i (rw at at lock) e) others
Step-Owner (unlock {s = s} i {c = c} at e) h =
    let (lock, others) = owned_by h.owner i (ap owns at) in
    let q = h.quiet i (ap is_inside at) in
    free (unlock_lem (s.cpus i) c q (rw at at lock) e) λ j. elim (ℕ_discrete j i) [
      | yes same ↦ rw (same, update_at s.place i outside) refl
      | no ne ↦ rw (update_other s.place i outside j ne) (others j ne)
    ]

-- The interrupts of a CPU after a step of the CPU `i` to a place.
quiet-update :
    (s : System) (i : ℕ) (p : Place)
    → (is_inside p ≡ true → is_inside (s.place i) ≡ true)
    → Locks s
    → (j : ℕ) → is_inside (update s.place i p j) ≡ true
    → ((s.cpus j).enabled ≡ false) × (0 < (s.cpus j).noff)
quiet-update s i p back h j inside = elim (ℕ_discrete j i) [
  | yes e ↦ rw e (h.quiet i (back (rw (e, update_at s.place i p) at inside)))
  | no ne ↦ h.quiet j (rw (update_other s.place i p j ne) at inside)
]

Step-quiet :
    {s t : System}
    → Step s t
    → Locks s
    → (j : ℕ) → is_inside (t.place j) ≡ true
    → ((t.cpus j).enabled ≡ false) × (0 < (t.cpus j).noff)
Step-quiet (enter {s = s} i {c = c} at e) h j inside = elim (ℕ_discrete j i) [
  | yes same ↦ rw (same, update_at s.cpus i c) (enter_lem i (s.cpus i) s.lock e)
  | no ne ↦
      rw (update_other s.cpus i c j ne)
        (h.quiet j (rw (update_other s.place i spinning j ne) at inside))
]
Step-quiet (spin i at e) h j inside = h.quiet j inside
Step-quiet (take {s = s} i at e) h j inside =
    quiet-update s i swapped (λ _. ap is_inside at) h j inside
Step-quiet (mark {s = s} i at) h j inside =
    quiet-update s i critical (λ _. ap is_inside at) h j inside
Step-quiet (unmark {s = s} i at e) h j inside =
    quiet-update s i unmarked (λ _. ap is_inside at) h j inside
Step-quiet (unlock {s = s} i {c = c} at e) h j inside = elim (ℕ_discrete j i) [
  | yes same ↦ grind (arith, (rw (same, update_at s.place i outside) at inside))
  | no ne ↦
      rw (update_other s.cpus i c j ne)
        (h.quiet j (rw (update_other s.place i outside j ne) at inside))
]

-- No CPU uses the lock.
pub record IsStart (s : System) : Type 0 where
  pub lock : s.lock ≡ initlock
  pub place : (j : ℕ) → s.place j ≡ outside

Reach-Locks : {s t : System} → IsStart s → Reach s t → Locks t
Reach-Locks start here = record {
  owner = free start.lock (λ j. ap owns (start.place j));
  quiet = λ j inside. grind (arith, inside, ap is_inside (start.place j));
}
Reach-Locks start (next r step) =
    let h = Reach-Locks start r in record { owner = Step-Owner step h; quiet = Step-quiet step h }

-- What holds while CPUs use a spin lock.
pub record Safe (s : System) : Type 0 where
  pub exclusive : (i j : ℕ) → s.place i ≡ critical → s.place j ≡ critical → i ≡ j
  pub quiet : (i : ℕ) → s.place i ≡ critical → (s.cpus i).enabled ≡ false
  pub enter_returns : (i : ℕ) → s.place i ≡ outside → acquire_enter i (s.cpus i) s.lock ≢ panic
  pub unmark_returns : (i : ℕ) → s.place i ≡ critical → release_unmark i s.lock ≢ panic
  pub unlock_returns : (i : ℕ) → s.place i ≡ unmarked → release_unlock (s.cpus i) s.lock ≢ panic

enter_ok : (i : ℕ) (c : Cpu) (l : SpinLock) → holding i l ≡ false → acquire_enter i c l ≢ panic
unfolding acquire_enter
enter_ok i c l not_mine e = ground (arith, not_mine, e)

points_to-noted : (k i : ℕ) (p : Place) → k ≢ i → points_to (noted k p) i ≡ false
points_to-noted k i outside ne = refl
points_to-noted k i spinning ne = refl
points_to-noted k i swapped ne = refl
points_to-noted k i critical ne = ==_false k i ne
points_to-noted k i unmarked ne = refl

-- Only a CPU between `acquire` and `release` is recorded in the lock.
holding-false : {s : System} → Owner s → (i : ℕ) → s.place i ≡ outside → holding i s.lock ≡ false
unfolding holding
holding-false (free lock _) i at = ap (holding i) lock
holding-false {s = s} (owned k has lock _) i at =
    ap (holding i) lock
    ∙ points_to-noted k i (s.place k)
        λ e. grind (arith, ap (λ j. owns (s.place j)) e, ap owns at, has)

Locks-Safe : {s : System} → Locks s → Safe s
Locks-Safe {s = s} h = record {
  exclusive = λ i j at_i at_j. elim (ℕ_discrete j i) [
    | yes e ↦ sym e
    | no ne ↦ grind (arith, (owned_by h.owner i (ap owns at_i)).1 j ne, ap owns at_j)
  ];
  quiet = λ i at. (h.quiet i (ap is_inside at)).0;
  enter_returns = λ i at. enter_ok i (s.cpus i) s.lock (holding-false h.owner i at);
  unmark_returns = λ i at e.
      let (lock, _) = owned_by h.owner i (ap owns at) in
      grind (arith, e, unmark_result i, ap (release_unmark i) (rw at at lock));
  unlock_returns = λ i at e.
      let (lock, _) = owned_by h.owner i (ap owns at) in
      let (off, deep) = h.quiet i (ap is_inside at) in
      grind (
        arith,
        e,
        unlock_result (s.cpus i) none off deep,
        ap (release_unlock (s.cpus i)) (rw at at lock),
      );
}

-- From a state in which no CPU uses the lock, whatever the order of the accesses of all CPUs to it: no two CPUs are
-- between `acquire` and `release` at once, the one that is there has its interrupts off, and neither `acquire` nor
-- `release` panics.
pub spinlock-Safe : {s t : System} → IsStart s → Reach s t → Safe t
spinlock-Safe start r = Locks-Safe (Reach-Locks start r)
