-- ===== src/Kernel/Vm/Tests.antt =====
-- A concrete page table for vm.c: an empty root at 0x1000, and two free pages.
use mits081_lab.Base.{
  ℕ, ◌≡◌, refl, ◌≢◌, ◌⊎◌, inl, inr, List, [], ◌∷◌, arith, ◌==◌, if◌then◌else◌, ℕ_discrete,
}
use mits081_lab.Kernel.Kalloc.{Memory}
use mits081_lab.Kernel.Kalloc.FreeList.{NotIn}
use mits081_lab.Kernel.Vm.{mappages, walkaddr}
use mits081_lab.Kernel.Vm.Tree.{Role, free, root, mid, other, child, leaf_page, entry, IsTree}
use mits081_lab.Kernel.Panic.{ok}
use mits081_lab.Kernel.Vm.Lookup.{walkaddr-entry}
use mits081_lab.Kernel.Vm.Mappages.{MappedRange, mappages-MappedRange}

abbrev memory : Memory
memory = record { word = λ q i. if q == 0x2000 then 0x3000 else 0; freelist = 0x2000 }

abbrev role : ℕ → Role
role p =
    if p == 0x1000 then root else if p == 0x2000 then free else if p == 0x3000 then free else other

abbrev free_pages : List ℕ
free_pages = 0x2000 ∷ 0x3000 ∷ []

is_free_page : (q : ℕ) → (NotIn q free_pages → ⊥) → (q ≡ 0x2000) ⊎ (q ≡ 0x3000)
is_free_page q h = elim (ℕ_discrete q 0x2000) [
  | yes e ↦ inl e
  | no n₂ ↦ elim (ℕ_discrete q 0x3000) [ yes e ↦ inr e | no n₃ ↦ absurd (h (n₂, (n₃, tt))) ]
]

not_mid : (p i : ℕ) → role p ≢ mid i
not_mid p i e = ground (arith, e)

memory-IsTree : IsTree 0x1000 role free_pages memory
unfolding child
memory-IsTree = record {
  free_list = (refl, omega arith, (omega arith, tt), (refl, omega arith, tt, refl));
  free_role = λ q h. ground (arith, is_free_page q h);
  aligned = λ q h. ground (arith, is_free_page q h);
  table_role = refl;
  mids = λ i p e. ground (arith, e);
  leaves = λ p i j q e f. absurd (not_mid p i e);
}

-- Two bytes on either side of a page boundary: two pages, which share their page-table pages.
mappages-MappedRange_example :
    MappedRange 0x1000 1 0x5000 0x9000 6 memory (mappages 0x1000 0x5fff 2 0x9000 6 memory)
mappages-MappedRange_example =
    mappages-MappedRange 0x1000 0x5fff 2 0x9000 6 role free_pages memory (omega arith) (omega arith)
      memory-IsTree

-- a table that maps va 0x5000 to 0x9000 for the user
abbrev user_page : Memory
user_page = record {
  word = λ q i.
      if q == 0x1000
      then (if i == 0 then 2049 else 0)
      else if q == 0x2000
      then (if i == 0 then 3073 else 0)
      else if q == 0x3000
      then (if i == 5 then 9239 else 0)
      else 0;
  freelist = 0;
}

walkaddr-entry_example : walkaddr 0x1000 0x5000 user_page ≡ ok 0x9000
unfolding entry leaf_page child
walkaddr-entry_example = walkaddr-entry 0x1000 0x5000 user_page
