-- ===== src/Kernel/Kalloc.antt =====
-- kernel/kalloc.c: the allocator of physical pages. The free pages form a linked list through their own
-- first words.
pub mod FreeList
pub mod Boot
mod Tests
use mits081_lab.Base.{
  ℕ, zero, suc, ◌+◌, ◌-◌, ◌*◌, ◌/◌, ◌%◌, Bool, true, false, not, ◌||◌, List, [], ◌∷◌, ◌==◌, ltb,
  leb, if◌then◌else◌,
}
use mits081_lab.Kernel.Panic.{Run, ok, panic, ◌>>=◌, ◌>>◌, panic_if}

abbrev pub pgsize : ℕ
pgsize = 4096

-- KERNBASE + 128*1024*1024
abbrev pub phystop : ℕ
phystop = 0x8800_0000

-- PGROUNDUP and PGROUNDDOWN of kernel/riscv.h
abbrev pub pgroundup : ℕ → ℕ
pgroundup a = (a + (pgsize - 1)) / pgsize * pgsize

abbrev pub pgrounddown : ℕ → ℕ
pgrounddown a = a / pgsize * pgsize

-- Physical memory: word `i` of the page at `p` (64 bits each, 512 in a page), and `kmem.freelist`.
pub record Memory : Type 0 where
  pub word : ℕ → ℕ → ℕ
  pub freelist : ℕ

-- a write of one word, and of a whole page by memset
abbrev pub store : Memory → ℕ → ℕ → ℕ → Memory
store m p i x = record m {
  word = λ q j. if q == p then (if j == i then x else m.word q j) else m.word q j;
}

abbrev pub fill_page : Memory → ℕ → ℕ → Memory
fill_page m p x = record m { word = λ q j. if q == p then x else m.word q j }

-- eight bytes 1, and eight bytes 5
abbrev pub junk_free : ℕ
junk_free = 0x0101_0101_0101_0101

abbrev pub junk_alloc : ℕ
junk_alloc = 0x0505_0505_0505_0505

-- What `kfree` does to the page at `pa`: fill it with junk, and put it in front of the list.
abbrev pub link : ℕ → Memory → Memory
link pa m =
    let m₁ = fill_page m pa junk_free in
    let m₂ = store m₁ pa 0 m₁.freelist in record m₂ { freelist = pa }

-- `end` is the first address after the kernel, which the linker sets.
module _ (kernel_end : ℕ) where
  pub kfree : ℕ → Memory → Run Memory
  kfree pa m = do
    panic_if (not (pa % pgsize == 0) || ltb pa kernel_end || leb phystop pa)
    ok (link pa m)

  -- The loop of `freerange` with `k` pages left at `p`.
  pub freerange_from : ℕ → ℕ → Memory → Run Memory
  unfolding kfree
  freerange_from zero p m = ok m
  freerange_from (suc k) p m = do m' ← kfree p m; freerange_from k (p + pgsize) m'

  -- The loop runs while `p + PGSIZE <= pa_end`: once for each whole page.
  pub freerange : ℕ → ℕ → Memory → Run Memory
  unfolding freerange_from
  freerange pa_start pa_end m =
      freerange_from ((pa_end - pgroundup pa_start) / pgsize) (pgroundup pa_start) m

  pub kinit : Memory → Run Memory
  unfolding freerange
  kinit m = freerange kernel_end phystop (record m { freelist = 0 })

-- Take page `r` off the list, and fill it with junk.
abbrev pub unlink : ℕ → Memory → Memory
unlink r m = fill_page (record m { freelist = m.word r 0 }) r junk_alloc

-- A page, or 0 if there is none.
pub kalloc : Memory → ℕ × Memory
kalloc m = let r = m.freelist in if not (r == 0) then (r, unlink r m) else (r, m)
