-- ===== src/Kernel/Mmap/Fork.antt =====
-- The mappings that a child inherits by fork, and the reference counts of their files.
use mits081_lab.Base.{
  ℕ, zero, suc, ◌+◌, ◌≤◌, ◌<◌, ◌≡◌, refl, ◌∙◌, sym, ap, ◌≢◌, inl, inr, Bool, true, false, ◌&&◌,
  arith, ◌==◌, if◌then◌else◌, Bool-cases, ℕ_discrete,
}
use mits081_lab.Kernel.Panic.{ok}
use mits081_lab.Kernel.Disk.{update}
use mits081_lab.Kernel.File.{FileTable, filedup}
use mits081_lab.Kernel.Mmap.{Vma, fork_vmas}

-- how many of the `k` slots from `i` on hold a reference to `g`
abbrev pub holds : (ℕ → Vma) → ℕ → ℕ → ℕ → ℕ
holds vma g zero i = 0
holds vma g (suc k) i = (if (vma i).valid && ((vma i).f == g) then 1 else 0) + holds vma g k (i + 1)

-- the file of every mapping is open
abbrev pub AllOpen : (ℕ → Vma) → FileTable → Type 0
AllOpen vma t = (j : ℕ) → (vma j).valid ≡ true → 0 < t.ref (vma j).f

filedup-ok :
    (f : ℕ) (t : FileTable)
    → 0 < t.ref f
    → filedup f t ≡ ok (record t { ref = update t.ref f (t.ref f + 1) })
unfolding filedup
filedup-ok f t h = ground arith

-- What the loop of `fork` leaves for the `k` slots from `i` on.
pub record Copied (vma child : ℕ → Vma) (k i : ℕ) (t : FileTable) (child' : ℕ → Vma)
    (t' : FileTable) : Type 0 where
  pub counts : (g : ℕ) → t'.ref g ≡ t.ref g + holds vma g k i
  pub copies : (j : ℕ) → i ≤ j → j < i + k → child' j ≡ (if (vma j).valid then vma j else child j)
  pub before : (j : ℕ) → j < i → child' j ≡ child j

pub update_at : (child : ℕ → Vma) (i : ℕ) (v : Vma) → update child i v i ≡ v
update_at child i v = ground arith

pub update_ne : (child : ℕ → Vma) (i j : ℕ) (v : Vma) → j ≢ i → update child i v j ≡ child j
update_ne child i j v ne = ground (arith, ne)

if_true : (v w : Vma) {b : Bool} → b ≡ true → (if b then v else w) ≡ v
if_true v w e = ap (λ b. if b then v else w) e

if_false : (v w : Vma) {b : Bool} → b ≡ false → (if b then v else w) ≡ w
if_false v w e = ap (λ b. if b then v else w) e

module _ (vma : ℕ → Vma) where
  fork-copy :
      (k i : ℕ) (child child' : ℕ → Vma) (t t' : FileTable)
      → (vma i).valid ≡ true
      → Copied vma
          (update child i (vma i))
          k
          (i + 1)
          (record t { ref = update t.ref (vma i).f (t.ref (vma i).f + 1) })
          child'
          t'
      → Copied vma child (suc k) i t child' t'
  fork-copy k i child child' t t' used c = record {
    counts = λ g. ground (arith, used, c.counts g);
    copies = λ j lo hi. elim (ℕ_discrete j i) [
      | yes e ↦
          c.before j (omega arith)
          ∙ ap (update child i (vma i)) e
          ∙ update_at child i (vma i)
          ∙ ap vma (sym e)
          ∙ sym (if_true (vma j) (child j) (ap (λ x. (vma x).valid) e ∙ used))
      | no ne ↦
          c.copies j (omega arith) (omega arith)
          ∙ ap (λ x. if (vma j).valid then vma j else x) (update_ne child i j (vma i) ne)
    ];
    before = λ j lo. c.before j (omega arith) ∙ update_ne child i j (vma i) (λ e. omega (arith, e));
  }

  fork-skip :
      (k i : ℕ) (child child' : ℕ → Vma) (t t' : FileTable)
      → (vma i).valid ≡ false
      → Copied vma child k (i + 1) t child' t'
      → Copied vma child (suc k) i t child' t'
  fork-skip k i child child' t t' unused c = record {
    counts = λ g. ground (arith, unused, c.counts g);
    copies = λ j lo hi. elim (ℕ_discrete j i) [
      | yes e ↦
          c.before j (omega arith)
          ∙ sym (if_false (vma j) (child j) (ap (λ x. (vma x).valid) e ∙ unused))
      | no ne ↦ c.copies j (omega arith) (omega arith)
    ];
    before = λ j lo. c.before j (omega arith);
  }

  fork_vmas-used :
      (k i : ℕ) (child : ℕ → Vma) (t : FileTable)
      → (vma i).valid ≡ true
      → 0 < t.ref (vma i).f
      → fork_vmas vma (suc k) i child t
        ≡ fork_vmas vma k
            (i + 1)
            (update child i (vma i))
            (record t { ref = update t.ref (vma i).f (t.ref (vma i).f + 1) })
  unfolding fork_vmas
  fork_vmas-used k i child t used held = ground (arith, used, filedup-ok (vma i).f t held)

  fork_vmas-unused :
      (k i : ℕ) (child : ℕ → Vma) (t : FileTable)
      → (vma i).valid ≡ false
      → fork_vmas vma (suc k) i child t ≡ fork_vmas vma k (i + 1) child t
  unfolding fork_vmas
  fork_vmas-unused k i child t unused = ground (arith, unused)

  more_open :
      (f : ℕ) (t : FileTable)
      → AllOpen vma t
      → AllOpen vma (record t { ref = update t.ref f (t.ref f + 1) })
  more_open f t held j valid = ground (arith, held j valid)

  -- In `fork` every mapping's file is open: then the loop over the mappings does not panic, the child has the
  -- parent's mappings and keeps its own in the other slots, and each file's count grows by the number of
  -- mappings of it.
  pub fork_vmas-Copied :
      (k i : ℕ) (child : ℕ → Vma) (t : FileTable)
      → AllOpen vma t
      → (child' : ℕ → Vma) × (t' : FileTable) × (fork_vmas vma k i child t ≡ ok (child', t'))
        × Copied vma child k i t child' t'
  unfolding fork_vmas
  fork_vmas-Copied zero i child t held = (
    child,
    t,
    refl,
    record {
      counts = λ g. omega arith;
      copies = λ j lo hi. absurd (omega arith);
      before = λ j lo. refl;
    },
  )
  fork_vmas-Copied (suc k) i child t held = elim (Bool-cases (vma i).valid) [
    | inl used ↦
        let f = (vma i).f in
        let (child', t', run, c) =
          fork_vmas-Copied k (i + 1) (update child i (vma i))
            (record t { ref = update t.ref f (t.ref f + 1) }) (more_open f t held) in
        (
          child',
          t',
          fork_vmas-used k i child t used (held i used) ∙ run,
          fork-copy k i child child' t t' used c,
        )
    | inr unused ↦
        let (child', t', run, c) = fork_vmas-Copied k (i + 1) child t held in
        (
          child',
          t',
          fork_vmas-unused k i child t unused ∙ run,
          fork-skip k i child child' t t' unused c,
        )
  ]
