-- ===== src/Kernel/Vm.antt =====
-- kernel/vm.c: three-level page tables (Sv39), in the pages that kalloc hands out. Flags are the low ten
-- bits of a page-table entry; `x | y` of numbers with no bit in common is `x + y`.
pub mod Tree
pub mod Grow
pub mod Walk
pub mod Lookup
pub mod Map
pub mod Range
pub mod Mappages
mod Tests
use mits081_lab.Base.{
  ℕ, zero, suc, ◌+◌, ◌-◌, ◌*◌, ◌/◌, ◌%◌, ◌^◌, Bool, true, false, not, ◌||◌, Option, none, some,
  ◌==◌, leb, ltb, if◌then◌else◌,
}
use mits081_lab.Kernel.Panic.{Run, ok, panic, ◌>>=◌, ◌>>◌, panic_if}
use mits081_lab.Kernel.Kalloc.{
  Memory, pgsize, pgroundup, pgrounddown, store, fill_page, kalloc, kfree,
}

abbrev pub maxva : ℕ
maxva = 2 ^ 38

-- PX(level, va)
abbrev pub px : ℕ → ℕ → ℕ
px level va = va / 2 ^ (12 + 9 * level) % 512

abbrev pub pte2pa : ℕ → ℕ
pte2pa pte = pte / 2 ^ 10 * 2 ^ 12

abbrev pub pa2pte : ℕ → ℕ
pa2pte pa = pa / 2 ^ 12 * 2 ^ 10

abbrev pub pte_flags : ℕ → ℕ
pte_flags pte = pte % 2 ^ 10

-- `pte & PTE_V` and `pte & PTE_U`
abbrev pub is_valid : ℕ → Bool
is_valid pte = pte % 2 == 1

abbrev pub is_user : ℕ → Bool
is_user pte = pte / 2 ^ 4 % 2 == 1

-- `PA2PTE(pa) | perm | PTE_V`
abbrev pub leaf_pte : ℕ → ℕ → ℕ
leaf_pte pa perm = pa2pte pa + (perm + (1 - perm % 2))

-- where a page-table entry is: a page, and an index in it
abbrev pub Slot : Type 0
Slot = ℕ × ℕ

-- a zeroed page-table page at `new`, and the entry that points to it
abbrev pub attach : ℕ → ℕ → ℕ → Memory → Memory
attach page i new m = store (fill_page m new 0) page i (pa2pte new + 1)

-- The loop of `walk` from a level down to 0.
pub walk_from : Bool → ℕ → ℕ → ℕ → Memory → Option Slot × Memory
walk_from alloc zero page va m = (some (page, px 0 va), m)
walk_from alloc (suc level) page va m =
    let i = px (suc level) va in
    let pte = m.word page i in
    let (new, m₁) = kalloc m in
    let below = walk_from alloc level (pte2pa pte) va m in
    let grown = walk_from alloc level new va (attach page i new m₁) in
    if is_valid pte
    then below
    else if not alloc
    then (none, m)
    else if new == 0
    then (none, m₁)
    else grown

pub walk : ℕ → ℕ → Bool → Memory → Run (Option Slot × Memory)
unfolding walk_from
walk pagetable va alloc m = panic_if (leb maxva va) >> ok (walk_from alloc 2 pagetable va m)

-- The physical address, or 0 if the page is not mapped for the user.
pub walkaddr : ℕ → ℕ → Memory → Run ℕ
unfolding walk
walkaddr pagetable va m = if leb maxva va then ok 0 else do
  (slot, _) ← walk pagetable va false m
  elim slot [
    | none ↦ ok 0
    | some (p, i) ↦
        let pte = m.word p i in
        if not (is_valid pte) then ok 0 else if not (is_user pte) then ok 0 else ok (pte2pa pte)
  ]

-- One round of `mappages`: whether `walk` found a place, and the memory.
pub map_one : ℕ → ℕ → ℕ → ℕ → Memory → Run (Bool × Memory)
unfolding walk
map_one pagetable a pa perm m = do
  (slot, m₁) ← walk pagetable a true m
  elim slot [
    | none ↦ ok (false, m₁)
    | some (p, i) ↦ panic_if (is_valid (m₁.word p i)) >> ok (true, store m₁ p i (leaf_pte pa perm))
  ]

-- The loop of `mappages`, with `k` pages after the one at `a`: `false` is -1.
pub mappages_from : ℕ → ℕ → ℕ → ℕ → ℕ → Memory → Run (Bool × Memory)
unfolding map_one
mappages_from pagetable zero a pa perm m = map_one pagetable a pa perm m
mappages_from pagetable (suc k) a pa perm m = do
  (good, m₁) ← map_one pagetable a pa perm m
  let rest = mappages_from pagetable k (a + pgsize) (pa + pgsize) perm m₁
  if good then rest else ok (false, m₁)

-- `va + size - 1` does not wrap round.
pub mappages : ℕ → ℕ → ℕ → ℕ → ℕ → Memory → Run (Bool × Memory)
unfolding mappages_from
mappages pagetable va size pa perm m =
    let a = pgrounddown va in
    let last = pgrounddown (va + size - 1) in
    panic_if (size == 0) >> mappages_from pagetable ((last - a) / pgsize) a pa perm m

-- The loop of `uvmunmap`, with `k` pages left at `a`.
pub uvmunmap_from : ℕ → ℕ → ℕ → ℕ → Bool → Memory → Run Memory
unfolding walk
uvmunmap_from kernel_end pagetable zero a do_free m = ok m
uvmunmap_from kernel_end pagetable (suc k) a do_free m = do
  (slot, _) ← walk pagetable a false m
  elim slot [
    | none ↦ panic
    | some (p, i) ↦ do
      let pte = m.word p i
      panic_if (not (is_valid pte))
      panic_if (pte_flags pte == 1)
      m₁ ← if do_free then kfree kernel_end (pte2pa pte) m else ok m
      uvmunmap_from kernel_end pagetable k (a + pgsize) do_free (store m₁ p i 0)
  ]

pub uvmunmap : ℕ → ℕ → ℕ → ℕ → Bool → Memory → Run Memory
unfolding uvmunmap_from
uvmunmap kernel_end pagetable va npages do_free m =
    panic_if (not (va % pgsize == 0)) >> uvmunmap_from kernel_end pagetable npages va do_free m
