-- ===== src/Kernel/Vm/Map.antt =====
-- mappages and walkaddr: a page table as the map from virtual pages to entries that it stands for.
use mathlib.Core.Path.{subst}
use mits081_lab.Base.{
  ℕ, ◌/◌, ◌<◌, ◌≡◌, ◌∙◌, sym, ap, ap₂, inl, inr, Bool, true, false, List, [], ◌&&◌, Option, none,
  some, arith, ◌==◌, if◌then◌else◌, Bool-cases,
}
use mits081_lab.Kernel.Panic.{Run, ok, panic}
use mits081_lab.Kernel.Kalloc.{Memory, pgsize, store}
use mits081_lab.Kernel.Vm.{Slot, maxva, px, is_valid, leaf_pte, walk_from, walk, map_one}
use mits081_lab.Kernel.Vm.Tree.{Role, Words, leaf_page, entry, IsTree, IsTree-store, entry-store}
use mits081_lab.Kernel.Vm.Walk.{Walked, Walked₂}

-- The entry for the page of a virtual address.
abbrev pub entry_at : ℕ → Memory → ℕ → ℕ
entry_at table m va = entry m.word table (px 2 va) (px 1 va) (px 0 va)

-- What one round of `mappages` does at `va`.
pub data MappedOne (table va pa perm : ℕ) (m : Memory) : Run (Bool × Memory) → Type 0 where
  remap : is_valid (entry_at table m va) ≡ true → MappedOne table va pa perm m panic
  no_memory :
      {role : ℕ → Role} {m' : Memory}
      → IsTree table role [] m'
      → ((va' : ℕ) → entry_at table m' va' ≡ entry_at table m va')
      → MappedOne table va pa perm m (ok (false, m'))
  mapped :
      {role : ℕ → Role} {ps : List ℕ} {m' : Memory}
      → is_valid (entry_at table m va) ≡ false
      → IsTree table role ps m'
      → ((va' : ℕ)
          → va' < maxva
          → entry_at table m' va'
            ≡ (if va / pgsize == va' / pgsize then leaf_pte pa perm else entry_at table m va'))
      → MappedOne table va pa perm m (ok (true, m'))

-- Below MAXVA the three indices are the page number.
same_page :
    (va va' : ℕ)
    → va < maxva
    → va' < maxva
    → ((px 2 va == px 2 va') && (px 1 va == px 1 va') && (px 0 va == px 0 va'))
      ≡ (va / pgsize == va' / pgsize)
same_page va va' h h' = ground arith

entry-found :
    (w : Words) (table i j k p : ℕ) → leaf_page w table i j ≡ some p → entry w table i j k ≡ w p k
unfolding entry
entry-found w table i j k p e = ground (arith, e)

module _ (table va pa perm : ℕ) (small : va < maxva) where
  finish : Option Slot × Memory → Run (Bool × Memory)
  finish (none, m) = ok (false, m)
  finish (some (p, i), m) =
      if is_valid (m.word p i) then panic else ok (true, store m p i (leaf_pte pa perm))

  map_one-finish : (m : Memory) → map_one table va pa perm m ≡ finish (walk_from true 2 table va m)
  unfolding map_one walk finish
  map_one-finish m = ground arith

  finish-MappedOne :
      (m m' : Memory) (slot : Option Slot)
      → Walked table (px 2 va) (px 1 va) (px 0 va) m slot m'
      → MappedOne table va pa perm m (finish (slot, m'))
  unfolding finish
  finish-MappedOne m m' none w =
      no_memory {role = w.role} (subst (λ l. IsTree table w.role l m') w.found w.tree)
        (λ va'. w.same (px 2 va') (px 1 va') (px 0 va'))
  finish-MappedOne m m' (some (p, i)) w =
      let x = leaf_pte pa perm in
      let at : entry_at table m va ≡ m'.word p i =
        sym (w.same (px 2 va) (px 1 va) (px 0 va))
        ∙ entry-found m'.word table (px 2 va) (px 1 va) (px 0 va) p w.found.1
        ∙ ap (m'.word p) (sym w.found.0) in
      elim (Bool-cases (is_valid (m'.word p i))) [
        | inl set ↦ rw set (remap (ap is_valid at ∙ set))
        | inr unset ↦ rw unset (
            mapped (ap is_valid at ∙ unset)
              (IsTree-store table w.role w.ps m' w.tree (px 2 va) (px 1 va) i x p w.found.2)
              (λ va' small'.
                ap (λ k. entry_at table (store m' p k x) va') w.found.0
                ∙ entry-store table w.role w.ps m' w.tree (px 2 va) (px 1 va) (px 0 va) x p
                    w.found.2 w.found.1 (px 2 va') (px 1 va') (px 0 va')
                ∙ ap₂ (λ b old. if b then x else old) (same_page va va' small small')
                    (w.same (px 2 va') (px 1 va') (px 0 va'))))
      ]

  -- On a page table that is a tree, for one round of `mappages` at a `va` below MAXVA one of three cases
  -- holds: the page of `va` is mapped already and it panics; it finds no page for a missing level, with no
  -- free page left and every entry as it was, and fails; or the page was not mapped and it sets the entry of `va`'s page to the physical address and the
  -- permissions, leaves the entries of all other pages as they were, and the table is a tree again.
  pub map_one-MappedOne :
      (role : ℕ → Role) (ps : List ℕ) (m : Memory)
      → IsTree table role ps m
      → MappedOne table va pa perm m (map_one table va pa perm m)
  map_one-MappedOne role ps m t =
      let (slot, m') = walk_from true 2 table va m in
      rw (map_one-finish m) (finish-MappedOne m m' slot (Walked₂ table va role ps m t))
