-- ===== src/Kernel/Kalloc/Tests.antt =====
-- Concrete memories for kalloc.c.
use mits081_lab.Base.{ℕ, ◌≡◌, refl, ◌≢◌, ◌⊎◌, List, [], ◌∷◌, arith, ◌==◌, if◌then◌else◌}
use mits081_lab.Kernel.Panic.{ok, panic}
use mits081_lab.Kernel.Kalloc.{Memory, junk_alloc, kfree, kinit, kalloc}
use mits081_lab.Kernel.Kalloc.FreeList.{NotIn, Free, IsPage, kfree_lem, kalloc_lem}
use mits081_lab.Kernel.Kalloc.Boot.{kinit_lem}

abbrev blank : Memory
blank = record { word = λ q i. 0; freelist = 0 }

-- two free pages, the one at 0x8200_0000 first
abbrev two_free : Memory
two_free = record {
  word = λ q i. if q == 0x8200_0000 then 0x8100_0000 else 0;
  freelist = 0x8200_0000;
}

abbrev pages : List ℕ
pages = 0x8200_0000 ∷ 0x8100_0000 ∷ []

two_free-Free : Free two_free pages
two_free-Free = (refl, omega arith, (omega arith, tt), (refl, omega arith, tt, refl))

kinit_lem_example :
    (m' : Memory) × (kinit 0x87ff_dabc blank ≡ ok m') × Free m' (0x87ff_f000 ∷ 0x87ff_e000 ∷ [])
kinit_lem_example = kinit_lem 0x87ff_dabc (omega arith) blank (omega arith)

kfree_lem_example :
    (IsPage 0x8002_6000 0x8000_1000
      → (m' : Memory) × (kfree 0x8002_6000 0x8000_1000 two_free ≡ ok m')
        × Free m' (0x8000_1000 ∷ pages)
        × ((q i : ℕ) → q ≢ 0x8000_1000 → m'.word q i ≡ two_free.word q i))
    × (¬ IsPage 0x8002_6000 0x8000_1000 → kfree 0x8002_6000 0x8000_1000 two_free ≡ panic)
kfree_lem_example =
    kfree_lem 0x8002_6000 0x8000_1000 two_free pages (omega arith) two_free-Free
      (omega arith, (omega arith, tt))

kalloc_lem_example :
    ((pages ≡ []) × (kalloc two_free ≡ (0, two_free)))
    ⊎ ((q : ℕ) × (rest : List ℕ) × (pages ≡ q ∷ rest)
        × ((kalloc two_free).0 ≡ q)
        × (q ≢ 0)
        × NotIn q rest
        × Free (kalloc two_free).1 rest
        × ((p i : ℕ) → p ≢ q → (kalloc two_free).1.word p i ≡ two_free.word p i)
        × ((i : ℕ) → (kalloc two_free).1.word q i ≡ junk_alloc))
kalloc_lem_example = kalloc_lem two_free pages two_free-Free
