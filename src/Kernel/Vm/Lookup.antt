-- ===== src/Kernel/Vm/Lookup.antt =====
-- walkaddr: the physical address that an entry gives to a user page.
use mits081_lab.Base.{ℕ, ◌≡◌, ◌&&◌, inl, inr, arith, ltb, if◌then◌else◌, Option-cases}
use mits081_lab.Kernel.Panic.{ok}
use mits081_lab.Kernel.Kalloc.{Memory}
use mits081_lab.Kernel.Vm.{maxva, px, pte2pa, is_valid, is_user, walkaddr}
use mits081_lab.Kernel.Vm.Tree.{leaf_page, entry}
use mits081_lab.Kernel.Vm.Walk.{walk_from-lookup}

-- For any memory and any `va`, `walkaddr` does not panic. It returns the page of the entry that the table holds
-- for `va`, if `va` is below MAXVA and the entry is valid and for the user, and 0 otherwise, also where a
-- level of the table is missing.
pub walkaddr-entry :
    (table va : ℕ) (m : Memory)
    → let pte = entry m.word table (px 2 va) (px 1 va) (px 0 va) in
      walkaddr table va m
      ≡ ok (if ltb va maxva && is_valid pte && is_user pte then pte2pa pte else 0)
unfolding walkaddr entry
walkaddr-entry table va m = elim (Option-cases (leaf_page m.word table (px 2 va) (px 1 va))) [
  | inl missing ↦ ground (arith, missing, walk_from-lookup table va m)
  | inr (p, at) ↦ ground (arith, at, walk_from-lookup table va m)
]
