-- ===== src/Kernel/Fs/Table/Get.antt =====
-- What iget does.
use mits081_lab.Base.{
  ℕ, ◌+◌, ◌<◌, ◌≡◌, ◌≢◌, ◌⊎◌, inl, inr, refl, sym, ap, ◌∙◌, true, false, Bool-cases, ==_iff,
  ==_false, if◌then◌else◌, ℕ_discrete, arith,
}
use mathlib.Core.Path.{subst}
use mits081_lab.Kernel.Panic.{Run, ok, panic}
use mits081_lab.Kernel.Disk.{update}
use mits081_lab.Kernel.Fs.Blocks.Alloc.{clash}
use mits081_lab.Kernel.Fs.Table.{Entry, Itable, ninode, is_entry, ref_up, taken_entry, iget}
use mits081_lab.Kernel.Fs.Table.Scan.{Igets, iget-Igets}

-- No two entries in use have one inode.
unfoldable pub Unique : Itable → Type 0
Unique t =
    (dev inum i j : ℕ)
    → i < ninode
    → j < ninode
    → is_entry dev inum (t i) ≡ true
    → is_entry dev inum (t j) ≡ true
    → i ≡ j

-- What is left of `Unique` after a change of entry `i` from `e` to one that is for `dev` and `inum`.
Unique-update :
    (dev inum i : ℕ) (t : Itable) (e : Entry)
    → Unique t
    → ((d n : ℕ) → is_entry d n e ≡ true → (d ≡ dev) × (n ≡ inum))
    → ((j : ℕ) → j < ninode → j ≢ i → is_entry dev inum (t j) ≡ false)
    → Unique (update t i e)
unfolding Unique
Unique-update dev inum i t e unique only others d n a b la lb ea eb = elim (ℕ_discrete a i) [
  | yes here ↦ elim (ℕ_discrete b i) [
    | yes there ↦ here ∙ sym there
    | no away ↦ absurd (clash_at d n b lb away (at a here ea) (old b away eb))
  ]
  | no off ↦ elim (ℕ_discrete b i) [
    | yes there ↦ absurd (clash_at d n a la off (at b there eb) (old a off ea))
    | no away ↦ unique d n a b la lb (old a off ea) (old b away eb)
  ]
]
  where
    at : (x : ℕ) → x ≡ i → is_entry d n (update t i e x) ≡ true → is_entry d n e ≡ true
    at x same h =
        sym (ap (λ z. is_entry d n (if z then e else t x)) ((==_iff i x).1 (sym same))) ∙ h

    old : (x : ℕ) → x ≢ i → is_entry d n (update t i e x) ≡ true → is_entry d n (t x) ≡ true
    old x ne h =
        sym (ap (λ z. is_entry d n (if z then e else t x)) (==_false i x (λ s. ne (sym s)))) ∙ h

    clash_at :
        (d n x : ℕ) → x < ninode → x ≢ i → is_entry d n e ≡ true → is_entry d n (t x) ≡ true → ⊥
    clash_at d n x lt ne h k =
        let (sd, sn) = only d n h in
        clash k
          (ap (λ y. is_entry y n (t x)) sd ∙ (ap (λ y. is_entry dev y (t x)) sn ∙ others x lt ne))

ref_up-is_entry : (d n : ℕ) (e : Entry) → is_entry d n e ≡ true → is_entry d n (ref_up e) ≡ true
ref_up-is_entry d n e h = ground (arith, h)

taken_entry-is_entry : (d n : ℕ) (e : Entry) → is_entry d n (taken_entry d n e) ≡ true
taken_entry-is_entry d n e = ground arith

recycled_only :
    (dev inum d n : ℕ) (e : Entry)
    → is_entry d n (taken_entry dev inum e) ≡ true
    → (d ≡ dev) × (n ≡ inum)
recycled_only dev inum d n e h = ground (arith, h)

retained_only :
    (dev inum d n : ℕ) (e : Entry)
    → is_entry dev inum e ≡ true
    → is_entry d n (ref_up e) ≡ true
    → (d ≡ dev) × (n ≡ inum)
retained_only dev inum d n e here h = ground (arith, here, h)

-- The entry in use for the inode, with one reference more; all else of it is as it was.
pub record Retained (dev inum : ℕ) (old new : Entry) : Type 0 where
  in_use : 0 < old.ref
  one_more : new.ref ≡ old.ref + 1
  same_dev : (old.dev ≡ dev) × (new.dev ≡ dev)
  same_inum : (old.inode.inum ≡ inum) × (new.inode.inum ≡ inum)
  same_valid : new.valid ≡ old.valid
  same_inode : new.inode ≡ old.inode

-- The free entry for the inode: it has one reference, and is to be read from the disk.
pub record Recycled (dev inum : ℕ) (old new : Entry) : Type 0 where
  was_free : old.ref ≡ 0
  one_ref : new.ref ≡ 1
  for_dev : new.dev ≡ dev
  for_inum : new.inode.inum ≡ inum
  not_valid : new.valid ≡ false

Retained-ref_up :
    (dev inum : ℕ) (e : Entry) → is_entry dev inum e ≡ true → Retained dev inum e (ref_up e)
Retained-ref_up dev inum e h =
    let same_dev : e.dev ≡ dev = ground (arith, h) in
    let same_inum : e.inode.inum ≡ inum = ground (arith, h) in
    record {
      in_use = ground (arith, h);
      one_more = refl;
      same_dev = (same_dev, same_dev);
      same_inum = (same_inum, same_inum);
      same_valid = refl;
      same_inode = refl;
    }

Recycled-taken_entry :
    (dev inum : ℕ) (e : Entry) → e.ref ≡ 0 → Recycled dev inum e (taken_entry dev inum e)
Recycled-taken_entry dev inum e free = record {
  was_free = free;
  one_ref = refl;
  for_dev = refl;
  for_inum = refl;
  not_valid = refl;
}

-- The entry that `iget` returns, what it was and what it is afterwards.
unfoldable pub Gives : ℕ → ℕ → Itable → Run (ℕ × Itable) → Type 0
Gives dev inum t (ok (i, u)) =
    (i < ninode)
    × Unique u
    × (is_entry dev inum (u i) ≡ true)
    × ((j : ℕ) → j ≢ i → u j ≡ t j)
    × (Retained dev inum (t i) (u i)
        ⊎ (((j : ℕ) → j < ninode → is_entry dev inum (t j) ≡ false)
            × Recycled dev inum (t i) (u i)))
Gives dev inum t panic =
    ((j : ℕ) → j < ninode → is_entry dev inum (t j) ≡ false)
    × ((j : ℕ) → j < ninode → (t j).ref ≢ 0)

update_here : (t : Itable) (i : ℕ) (e : Entry) → update t i e i ≡ e
update_here t i e = ap (λ z. if z then e else t i) ((==_iff i i).1 refl)

update_there : (t : Itable) (i : ℕ) (e : Entry) (j : ℕ) → j ≢ i → update t i e j ≡ t j
update_there t i e j ne = ap (λ z. if z then e else t j) (==_false i j (λ s. ne (sym s)))

Gives-retained :
    (dev inum i : ℕ) (t : Itable)
    → Unique t
    → i < ninode
    → is_entry dev inum (t i) ≡ true
    → Gives dev inum t (ok (i, update t i (ref_up (t i))))
unfolding Gives Unique
Gives-retained dev inum i t unique small e = (
  small,
  Unique-update dev inum i t (ref_up (t i)) unique (λ d n. retained_only dev inum d n (t i) e)
      others,
  ap (is_entry dev inum) (update_here t i (ref_up (t i))) ∙ ref_up-is_entry dev inum (t i) e,
  λ j ne. update_there t i (ref_up (t i)) j ne,
  inl (
      subst (Retained dev inum (t i)) (sym (update_here t i (ref_up (t i))))
        (Retained-ref_up dev inum (t i) e)),
)
  where
    others : (j : ℕ) → j < ninode → j ≢ i → is_entry dev inum (t j) ≡ false
    others j lt ne = elim (Bool-cases (is_entry dev inum (t j))) [
      | inl yes_too ↦ absurd (ne (unique dev inum j i lt small yes_too e))
      | inr other ↦ other
    ]

Gives-recycled :
    (dev inum i : ℕ) (t : Itable)
    → Unique t
    → i < ninode
    → ((j : ℕ) → j < ninode → is_entry dev inum (t j) ≡ false)
    → (t i).ref ≡ 0
    → Gives dev inum t (ok (i, update t i (taken_entry dev inum (t i))))
unfolding Gives
Gives-recycled dev inum i t unique small others free = (
  small,
  Unique-update dev inum i t (taken_entry dev inum (t i)) unique
      (λ d n. recycled_only dev inum d n (t i)) (λ j lt _. others j lt),
  ap (is_entry dev inum) (update_here t i (taken_entry dev inum (t i)))
      ∙ taken_entry-is_entry dev inum (t i),
  λ j ne. update_there t i (taken_entry dev inum (t i)) j ne,
  inr (
    others,
    subst (Recycled dev inum (t i)) (sym (update_here t i (taken_entry dev inum (t i))))
        (Recycled-taken_entry dev inum (t i) free),
  ),
)

Gives-panic :
    (dev inum : ℕ) (t : Itable)
    → ((j : ℕ) → j < ninode → is_entry dev inum (t j) ≡ false)
      × ((j : ℕ) → j < ninode → (t j).ref ≢ 0)
    → Gives dev inum t panic
unfolding Gives
Gives-panic dev inum t none_left = none_left

Gives-Igets :
    (dev inum : ℕ) (t : Itable) (r : Run (ℕ × Itable))
    → Unique t
    → Igets dev inum t r
    → Gives dev inum t r
unfolding Igets
Gives-Igets dev inum t panic unique none_left = Gives-panic dev inum t none_left
Gives-Igets dev inum t (ok (i, u)) unique (small, inl (e, same)) =
    subst (λ v. Gives dev inum t (ok (i, v))) (sym same)
      (Gives-retained dev inum i t unique small e)
Gives-Igets dev inum t (ok (i, u)) unique (small, inr (others, free, same)) =
    subst (λ v. Gives dev inum t (ok (i, v))) (sym same)
      (Gives-recycled dev inum i t unique small others free)

-- For a table in which no inode has two entries in use: `iget` keeps that so, and returns an entry in use for the inode: the
-- one that it has, with one reference more and otherwise as it was, or else, if it has none, a free entry, now with this device
-- and number, one reference, and not valid. No other entry changes.
-- It panics only if the inode has no entry and all entries are in use.
pub iget-Gives : (dev inum : ℕ) (t : Itable) → Unique t → Gives dev inum t (iget dev inum t)
iget-Gives dev inum t unique =
    Gives-Igets dev inum t (iget dev inum t) unique (iget-Igets dev inum t)
