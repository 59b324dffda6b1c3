-- ===== src/Kernel/Vm/Walk.antt =====
-- walk: where the entry of a virtual address is, and what finding it does to the table.
use mits081_lab.Base.{
  ℕ, suc, ◌≡◌, refl, ◌∙◌, ap, ◌≢◌, inl, inr, Bool, true, false, List, [], ◌∷◌, Option, none, some,
  arith, Option-cases,
}
use mits081_lab.Kernel.Kalloc.{Memory, unlink}
use mits081_lab.Kernel.Kalloc.FreeList.{kalloc-none, kalloc-unlink}
use mits081_lab.Kernel.Vm.{Slot, px, attach, walk_from}
use mits081_lab.Kernel.Vm.Tree.{Role, free, mid, leaf, Words, child, leaf_page, entry, IsTree}
use mits081_lab.Kernel.Vm.Grow.{
  with_role, IsTree-grown, entry-grown, in_use, role-new, child-at, child-other,
}

module _ (l page va : ℕ) (m : Memory) where
  step-down :
      (alloc : Bool) (p : ℕ)
      → child m.word page (px (suc l) va) ≡ some p
      → walk_from alloc (suc l) page va m ≡ walk_from alloc l p va m
  unfolding walk_from child
  step-down alloc p e = ground arith

  step-missing :
      child m.word page (px (suc l) va) ≡ none → walk_from false (suc l) page va m ≡ (none, m)
  unfolding walk_from child
  step-missing e = ground arith

  step-out_of_memory :
      child m.word page (px (suc l) va) ≡ none
      → m.freelist ≡ 0
      → walk_from true (suc l) page va m ≡ (none, m)
  unfolding walk_from child
  step-out_of_memory e f = ground (arith, kalloc-none m f)

  step-grow :
      (q : ℕ)
      → child m.word page (px (suc l) va) ≡ none
      → m.freelist ≡ q
      → q ≢ 0
      → walk_from true (suc l) page va m
        ≡ walk_from true l q va (attach page (px (suc l) va) q (unlink q m))
  unfolding walk_from child
  step-grow q e f ne = ground (arith, kalloc-unlink m q f ne)

-- What `walk` has found: the slot of the entry for `i`, `j`, `k`; or nothing, and then no page is free.
abbrev pub Found : ℕ → ℕ → ℕ → ℕ → (ℕ → Role) → List ℕ → Memory → Option Slot → Type 0
Found table i j k role ps m none = ps ≡ []
Found table i j k role ps m (some (p, k')) =
    (k' ≡ k) × (leaf_page m.word table i j ≡ some p) × (role p ≡ leaf i j)

-- The table is a tree after the walk, and holds the same entries.
pub record Walked (table i j k : ℕ) (m : Memory) (slot : Option Slot) (m' : Memory) : Type 0 where
  pub role : ℕ → Role
  pub ps : List ℕ
  pub tree : IsTree table role ps m'
  pub same : (a b c : ℕ) → entry m'.word table a b c ≡ entry m.word table a b c
  pub found : Found table i j k role ps m' slot

leaf_page-below :
    (w : Words) (table i j p : ℕ) → child w table i ≡ some p → leaf_page w table i j ≡ child w p j
unfolding leaf_page
leaf_page-below w table i j p e = ground (arith, e)

module _ (table va : ℕ) where
  -- the last level: the entry is in page `p`
  Walked₀ :
      (role : ℕ → Role) (ps : List ℕ) (m m₀ : Memory) (p : ℕ)
      → IsTree table role ps m
      → ((a b c : ℕ) → entry m.word table a b c ≡ entry m₀.word table a b c)
      → leaf_page m.word table (px 2 va) (px 1 va) ≡ some p
      → role p ≡ leaf (px 2 va) (px 1 va)
      → let (slot, m') = walk_from true 0 p va m in
        Walked table (px 2 va) (px 1 va) (px 0 va) m₀ slot m'
  unfolding walk_from
  Walked₀ role ps m m₀ p t same at rp = record {
    role = role;
    ps = ps;
    tree = t;
    same = same;
    found = (refl, at, rp);
  }

  -- no page is left for the missing level
  Walked-none :
      (role : ℕ → Role) (m m₀ : Memory)
      → IsTree table role [] m
      → ((a b c : ℕ) → entry m.word table a b c ≡ entry m₀.word table a b c)
      → Walked table (px 2 va) (px 1 va) (px 0 va) m₀ none m
  Walked-none role m m₀ t same = record {
    role = role;
    ps = [];
    tree = t;
    same = same;
    found = refl;
  }

  Walked₁ :
      (role : ℕ → Role) (ps : List ℕ) (m m₀ : Memory) (p₁ : ℕ)
      → IsTree table role ps m
      → ((a b c : ℕ) → entry m.word table a b c ≡ entry m₀.word table a b c)
      → child m.word table (px 2 va) ≡ some p₁
      → let (slot, m') = walk_from true 1 p₁ va m in
        Walked table (px 2 va) (px 1 va) (px 0 va) m₀ slot m'
  Walked₁ role ps m m₀ p₁ t same at = elim (Option-cases (child m.word p₁ (px 1 va))) [
    | inr (p₀, at₀) ↦ rw (step-down 0 p₁ va m true p₀ at₀) (
        Walked₀ role ps m m₀ p₀ t same
          (leaf_page-below m.word table (px 2 va) (px 1 va) p₁ at ∙ at₀)
          (t.leaves p₁ (px 2 va) (px 1 va) p₀ (t.mids (px 2 va) p₁ at) at₀))
    | inl unset ↦ missing ps t unset
  ]
    where
      missing :
          (ps : List ℕ)
          → IsTree table role ps m
          → child m.word p₁ (px 1 va) ≡ none
          → let (slot, m') = walk_from true 1 p₁ va m in
            Walked table (px 2 va) (px 1 va) (px 0 va) m₀ slot m'
      missing [] t unset =
          rw (step-out_of_memory 0 p₁ va m unset t.free_list) (Walked-none role m m₀ t same)
      missing (q ∷ rest) t unset =
          let i = px 2 va in
          let j = px 1 va in
          let r₁ = t.mids i p₁ at in
          let used : role p₁ ≢ free = λ e. cc (e, r₁) in
          let table_used : role table ≢ free = λ e. cc (e, t.table_role) in
          let apart : table ≢ p₁ = λ e. cc (t.table_role, ap role e, r₁) in
          rw (step-grow 0 p₁ va m q unset t.free_list.0 t.free_list.1) (
            Walked₀ (with_role role q (leaf i j)) rest (attach p₁ j q (unlink q m)) m₀ q
              (IsTree-grown table q rest role m t p₁ j (leaf i j) used unset (inr (i, r₁, refl)))
              (λ a b c.
                entry-grown table q rest role m t p₁ j (leaf i j) used unset (inr (i, r₁, refl)) a b
                  c
                ∙ same a b c)
              (leaf_page-below (attach p₁ j q (unlink q m)).word table i j p₁ (
                  child-other table q rest role m t p₁ j (leaf i j) used unset table i
                    (in_use table q rest role m t p₁ j (leaf i j) used unset table table_used)
                    (inl apart)
                  ∙ at)
                ∙ child-at table q rest role m t p₁ j (leaf i j) used unset)
              (role-new table q rest role m t p₁ j (leaf i j) used unset q refl))

  -- `walk(table, va, 1)` finds the slot of `va`'s entry, or no page is left for a missing level; either
  -- way the table is still a tree and every entry is what it was.
  pub Walked₂ :
      (role : ℕ → Role) (ps : List ℕ) (m : Memory)
      → IsTree table role ps m
      → let (slot, m') = walk_from true 2 table va m in
        Walked table (px 2 va) (px 1 va) (px 0 va) m slot m'
  Walked₂ role ps m t = elim (Option-cases (child m.word table (px 2 va))) [
    | inr (p₁, at) ↦
        rw (step-down 1 table va m true p₁ at) (Walked₁ role ps m m p₁ t (λ a b c. refl) at)
    | inl unset ↦ missing ps t unset
  ]
    where
      missing :
          (ps : List ℕ)
          → IsTree table role ps m
          → child m.word table (px 2 va) ≡ none
          → let (slot, m') = walk_from true 2 table va m in
            Walked table (px 2 va) (px 1 va) (px 0 va) m slot m'
      missing [] t unset =
          rw (step-out_of_memory 1 table va m unset t.free_list)
            (Walked-none role m m t (λ a b c. refl))
      missing (q ∷ rest) t unset =
          let i = px 2 va in
          let used : role table ≢ free = λ e. cc (e, t.table_role) in
          rw (step-grow 1 table va m q unset t.free_list.0 t.free_list.1) (
            Walked₁ (with_role role q (mid i)) rest (attach table i q (unlink q m)) m q
              (IsTree-grown table q rest role m t table i (mid i) used unset (inl (refl, refl)))
              (entry-grown table q rest role m t table i (mid i) used unset (inl (refl, refl)))
              (child-at table q rest role m t table i (mid i) used unset))

-- Without allocation `walk` changes nothing and finds the entry's slot where the table has one.
pub walk_from-lookup :
    (table va : ℕ) (m : Memory)
    → (walk_from false 2 table va m ≡ (
      elim (leaf_page m.word table (px 2 va) (px 1 va)) [
        | none ↦ none
        | some p ↦ some (p, px 0 va)
      ],
      m,
    ))
unfolding leaf_page walk_from child
walk_from-lookup table va m = ground arith
