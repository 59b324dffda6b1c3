-- ===== src/Kernel/Kalloc/Boot.antt =====
-- kinit: at boot every whole page between the kernel and the end of memory becomes free.
use mits081_lab.Base.{
  ℕ, zero, suc, ◌+◌, ◌-◌, ◌*◌, ◌/◌, ◌%◌, ◌≤◌, ◌<◌, ◌≡◌, refl, List, [], ◌∷◌, arith,
}
use mits081_lab.Kernel.Panic.{ok}
use mits081_lab.Kernel.Kalloc.{Memory, pgsize, phystop, pgroundup, freerange_from, freerange, kinit}
use mits081_lab.Kernel.Kalloc.FreeList.{NotIn, Free, kfree_lem}

-- the `k` pages from `p` on, pushed in turn in front of `ps`
abbrev pub pushed : ℕ → ℕ → List ℕ → List ℕ
pushed zero p ps = ps
pushed (suc k) p ps = pushed k (p + pgsize) (p ∷ ps)

AllBelow : ℕ → List ℕ → Type 0
AllBelow p [] = Unit
AllBelow p (q ∷ qs) = (q < p) × AllBelow p qs

AllBelow-NotIn : (p : ℕ) (ps : List ℕ) → AllBelow p ps → NotIn p ps
unfolding AllBelow
AllBelow-NotIn p [] h = tt
AllBelow-NotIn p (q ∷ qs) h = (omega arith, AllBelow-NotIn p qs h.1)

AllBelow-weaken : (p r : ℕ) (ps : List ℕ) → p ≤ r → AllBelow p ps → AllBelow r ps
unfolding AllBelow
AllBelow-weaken p r [] le h = tt
AllBelow-weaken p r (q ∷ qs) le h = (omega arith, AllBelow-weaken p r qs le h.1)

module _ (kernel_end : ℕ) (pos : 0 < kernel_end) where
  freerange_from-Free :
      (k p : ℕ) (m : Memory) (ps : List ℕ)
      → p % pgsize ≡ 0
      → kernel_end ≤ p
      → p + k * pgsize ≤ phystop
      → Free m ps
      → AllBelow p ps
      → (m' : Memory) × (freerange_from kernel_end k p m ≡ ok m') × Free m' (pushed k p ps)
  unfolding freerange_from AllBelow
  freerange_from-Free zero p m ps a lo hi f below = (m, refl, f)
  freerange_from-Free (suc k) p m ps a lo hi f below =
      let (m₁, run, f₁, _) =
        (kfree_lem kernel_end p m ps pos f (AllBelow-NotIn p ps below)).0 (a, lo, omega arith) in
      let (m₂, run₂, f₂) =
        freerange_from-Free k (p + pgsize) m₁ (p ∷ ps) (omega arith) (omega arith) (omega arith) f₁
          (omega arith, AllBelow-weaken p (p + pgsize) ps (omega arith) below) in
      (m₂, rw run run₂, f₂)

  -- `kinit` does not panic. After it the free pages are exactly the whole pages from the kernel's end,
  -- rounded up, to the end of memory, the highest first.
  pub kinit_lem :
      (m : Memory)
      → pgroundup kernel_end ≤ phystop
      → (m' : Memory) × (kinit kernel_end m ≡ ok m')
        × Free m' (pushed ((phystop - pgroundup kernel_end) / pgsize) (pgroundup kernel_end) [])
  unfolding kinit freerange AllBelow
  kinit_lem m fits =
      freerange_from-Free ((phystop - pgroundup kernel_end) / pgsize) (pgroundup kernel_end) _ []
        (omega arith) (omega arith) (omega arith) refl tt
