-- ===== src/Kernel/Fs/Table/Scan.antt =====
-- Which entry iget takes.
use mits081_lab.Base.{
  ℕ, zero, suc, ◌+◌, ◌<◌, ◌≡◌, ◌≢◌, ◌⊎◌, inl, inr, refl, true, false, Bool-cases, Option, none,
  some, ==_iff, ==_false, ℕ_discrete, arith,
}
use mathlib.Core.Path.{subst}
use mits081_lab.Kernel.Panic.{Run, ok, panic}
use mits081_lab.Kernel.Disk.{update}
use mits081_lab.Kernel.Fs.Table.{
  Itable, ninode, is_entry, remember, ref_up, taken_entry, iget_empty, iget_from, iget,
}

-- What the loop of `iget` has seen before entry `i`: none in use has the number, and what the first free one is.
Seen : ℕ → ℕ → Itable → ℕ → Option ℕ → Type 0
Seen dev inum t i none =
    ((j : ℕ) → j < i → is_entry dev inum (t j) ≡ false) × ((j : ℕ) → j < i → (t j).ref ≢ 0)
Seen dev inum t i (some e) =
    ((j : ℕ) → j < i → is_entry dev inum (t j) ≡ false) × ((e < i) × ((t e).ref ≡ 0))

-- What `iget` returns: the entry in use that has the number, with one reference more; or a free entry, which it takes, when
-- there is none; it panics when there is none and no entry is free. All other entries are as they were.
unfoldable pub Igets : ℕ → ℕ → Itable → Run (ℕ × Itable) → Type 0
Igets dev inum t (ok (i, u)) =
    (i < ninode)
    × (((is_entry dev inum (t i) ≡ true) × (u ≡ update t i (ref_up (t i))))
        ⊎ (((j : ℕ) → j < ninode → is_entry dev inum (t j) ≡ false)
            × ((t i).ref ≡ 0)
            × (u ≡ update t i (taken_entry dev inum (t i)))))
Igets dev inum t panic =
    ((j : ℕ) → j < ninode → is_entry dev inum (t j) ≡ false)
    × ((j : ℕ) → j < ninode → (t j).ref ≢ 0)

up_to : {P : ℕ → Type 0} (i : ℕ) → ((j : ℕ) → j < i → P j) → P i → (j : ℕ) → j < i + 1 → P j
up_to {P = P} i before here j lt = elim (ℕ_discrete j i) [
  | yes e ↦ rw (e) here
  | no ne ↦ before j (omega (arith, lt, ne))
]

Seen-remember :
    (dev inum : ℕ) (t : Itable) (i : ℕ) (empty : Option ℕ)
    → Seen dev inum t i empty
    → is_entry dev inum (t i) ≡ false
    → Seen dev inum t (i + 1) (remember empty i (t i))
unfolding Seen
Seen-remember dev inum t i (some e) (before, (small, free)) other =
    (up_to i before other, (omega (arith, small), free))
Seen-remember dev inum t i none (before, used) other = elim (ℕ_discrete (t i).ref 0) [
  | yes z ↦ rw ((==_iff (t i).ref 0).1 z) (up_to i before other, (omega arith, z))
  | no nz ↦ rw (==_false (t i).ref 0 nz) (up_to i before other, up_to i used nz)
]

Igets-iget_empty :
    (dev inum : ℕ) (t : Itable) (empty : Option ℕ)
    → Seen dev inum t ninode empty
    → Igets dev inum t (iget_empty dev inum t empty)
unfolding Igets Seen
Igets-iget_empty dev inum t none seen = seen
Igets-iget_empty dev inum t (some e) (before, (small, free)) = (small, inr (before, free, refl))

Igets-here :
    (dev inum : ℕ) (t : Itable) (i : ℕ)
    → i < ninode
    → is_entry dev inum (t i) ≡ true
    → Igets dev inum t (ok (i, update t i (ref_up (t i))))
unfolding Igets
Igets-here dev inum t i small e = (small, inl (e, refl))

iget_from-Igets :
    (dev inum : ℕ) (t : Itable) (k i : ℕ) (empty : Option ℕ)
    → i + k ≡ ninode
    → Seen dev inum t i empty
    → Igets dev inum t (iget_from k i empty dev inum t)
unfolding iget_from
iget_from-Igets dev inum t zero i empty end seen =
    let last : i ≡ ninode = omega (arith, end) in
    Igets-iget_empty dev inum t empty (subst (λ x. Seen dev inum t x empty) last seen)
iget_from-Igets dev inum t (suc k) i empty end seen = elim (Bool-cases (is_entry dev inum (t i))) [
  | inl e ↦ rw (e) (Igets-here dev inum t i (omega (arith, end)) e)
  | inr other ↦ rw (other) (
      iget_from-Igets dev inum t k (i + 1) (remember empty i (t i)) (omega (arith, end))
        (Seen-remember dev inum t i empty seen other))
]

pub iget-Igets : (dev inum : ℕ) (t : Itable) → Igets dev inum t (iget dev inum t)
unfolding iget Seen
iget-Igets dev inum t =
    iget_from-Igets dev inum t ninode 0 none (omega arith)
      (λ j lt. absurd (omega (arith, lt)), λ j lt. absurd (omega (arith, lt)))
