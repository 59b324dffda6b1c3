-- ===== src/Kernel/Spinlock/Steps.antt =====
-- CPUs that take turns in accesses to one spin lock.
use mits081_lab.Base.{
  ℕ, ◌≡◌, ◌≢◌, ◌<◌, ap, Bool, true, false, Option, none, some, arith, ℕ_discrete,
}
use mits081_lab.Kernel.Panic.{ok}
use mits081_lab.Kernel.Disk.{update}
use mits081_lab.Kernel.Spinlock.{
  Cpu, SpinLock, initlock, acquire_enter, test_and_set, acquire_mark, release_unmark,
  release_unlock,
}

-- Where a CPU is: outside `acquire` and `release`, in the loop of `acquire`, after it, between `acquire` and `release`,
-- or at the fence of `release`.
pub data Place : Type 0 where
  outside spinning swapped critical unmarked : Place

pub record System : Type 0 where
  pub lock : SpinLock
  pub cpus : ℕ → Cpu
  pub place : ℕ → Place

-- One access to the lock by the CPU `i`.
pub data Step : System → System → Type 0 where
  enter :
      {s : System} (i : ℕ) {c : Cpu}
      → s.place i ≡ outside
      → acquire_enter i (s.cpus i) s.lock ≡ ok c
      → Step s (record s { cpus = update s.cpus i c; place = update s.place i spinning })
  spin :
      {s : System} (i : ℕ) {lk : SpinLock}
      → s.place i ≡ spinning
      → test_and_set s.lock ≡ (true, lk)
      → Step s (record s { lock = lk })
  take :
      {s : System} (i : ℕ) {lk : SpinLock}
      → s.place i ≡ spinning
      → test_and_set s.lock ≡ (false, lk)
      → Step s (record s { lock = lk; place = update s.place i swapped })
  mark :
      {s : System} (i : ℕ)
      → s.place i ≡ swapped
      → Step s (record s { lock = acquire_mark i s.lock; place = update s.place i critical })
  unmark :
      {s : System} (i : ℕ) {lk : SpinLock}
      → s.place i ≡ critical
      → release_unmark i s.lock ≡ ok lk
      → Step s (record s { lock = lk; place = update s.place i unmarked })
  unlock :
      {s : System} (i : ℕ) {c : Cpu} {lk : SpinLock}
      → s.place i ≡ unmarked
      → release_unlock (s.cpus i) s.lock ≡ ok (c, lk)
      → Step s (record { lock = lk; cpus = update s.cpus i c; place = update s.place i outside })

pub data Reach (s : System) : System → Type 0 where
  here : Reach s s
  next : {t u : System} → Reach s t → Step t u → Reach s u

-- whether a CPU there has the lock
abbrev pub owns : Place → Bool
owns outside = false
owns spinning = false
owns swapped = true
owns critical = true
owns unmarked = true

-- what `lk->cpu` is while CPU `i` is there
abbrev pub noted : ℕ → Place → Option ℕ
noted i critical = some i
noted i _ = none

-- whether a CPU there is between `push_off` and `pop_off`
abbrev pub is_inside : Place → Bool
is_inside outside = false
is_inside _ = true

-- Who has the lock.
pub data Owner (s : System) : Type 0 where
  free : s.lock ≡ initlock → ((j : ℕ) → owns (s.place j) ≡ false) → Owner s
  owned :
      (i : ℕ)
      → owns (s.place i) ≡ true
      → s.lock ≡ record { locked = true; cpu = noted i (s.place i) }
      → ((j : ℕ) → j ≢ i → owns (s.place j) ≡ false)
      → Owner s

-- A CPU that uses the lock has its interrupts off.
pub record Locks (s : System) : Type 0 where
  pub owner : Owner s
  pub quiet :
      (j : ℕ) → is_inside (s.place j) ≡ true → ((s.cpus j).enabled ≡ false) × (0 < (s.cpus j).noff)

-- A CPU that has the lock is its only owner.
pub owned_by :
    {s : System}
    → Owner s
    → (i : ℕ) → owns (s.place i) ≡ true
    → (s.lock ≡ record { locked = true; cpu = noted i (s.place i) })
      × ((j : ℕ) → j ≢ i → owns (s.place j) ≡ false)
owned_by (free _ none_has) i has = absurd (clash (none_has i) has)
  where
    clash : {b : Bool} → b ≡ false → b ≡ true → ⊥
    clash f t = grind (arith, f, t)
owned_by (owned k has_k lock others) i has = elim (ℕ_discrete i k) [
  | yes e ↦ rw e (lock, others)
  | no ne ↦ grind (arith, others i ne, has)
]

module _ {A : Type 0} (f : ℕ → A) (i : ℕ) (p : A) where
  pub update_at : update f i p i ≡ p
  update_at = ground arith

  pub update_other : (j : ℕ) → j ≢ i → update f i p j ≡ f j
  update_other j ne = ground (arith, ne)

-- The owner goes on to another place.
pub moved :
    (s : System) (i : ℕ) (p : Place) {lk : SpinLock} (cpus : ℕ → Cpu)
    → owns p ≡ true
    → lk ≡ record { locked = true; cpu = noted i p }
    → ((j : ℕ) → j ≢ i → owns (s.place j) ≡ false)
    → Owner (record { lock = lk; cpus = cpus; place = update s.place i p })
moved s i p cpus has lock others =
    owned i (rw (update_at s.place i p) has) (rw (update_at s.place i p) lock)
      (λ j ne. rw (update_other s.place i p j ne) (others j ne))

-- A CPU that does not have the lock goes on without it.
pub stays :
    (s : System) (i : ℕ) (p : Place) (cpus : ℕ → Cpu)
    → owns p ≡ false
    → owns (s.place i) ≡ false
    → Owner s
    → Owner (record { lock = s.lock; cpus = cpus; place = update s.place i p })
stays s i p cpus f g (free lock none_has) = free lock λ j. elim (ℕ_discrete j i) [
  | yes e ↦ rw (e, update_at s.place i p) f
  | no ne ↦ rw (update_other s.place i p j ne) (none_has j)
]
stays s i p cpus f g (owned k has lock others) = elim (ℕ_discrete k i) [
  | yes e ↦ grind (arith, ap (λ j. owns (s.place j)) e, has, g)
  | no ne ↦
      owned k (rw (update_other s.place i p k ne) has) (rw (update_other s.place i p k ne) lock)
        (λ j other. elim (ℕ_discrete j i) [
          | yes e ↦ rw (e, update_at s.place i p) f
          | no ne' ↦ rw (update_other s.place i p j ne') (others j other)
        ])
]
