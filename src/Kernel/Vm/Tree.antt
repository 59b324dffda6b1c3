-- ===== src/Kernel/Vm/Tree.antt =====
-- The shape of a page table in memory, and the entries that it holds.
use mathlib.Core.Path.{subst}
use mits081_lab.Base.{
  ℕ, ◌%◌, ◌≡◌, ◌∙◌, sym, ap, ap₂, ◌≢◌, inl, inr, false, List, ◌&&◌, Option, none, some, arith, ◌==◌,
  if◌then◌else◌, Option-cases, ℕ_discrete,
}
use mits081_lab.Kernel.Kalloc.{Memory, pgsize, store}
use mits081_lab.Kernel.Kalloc.FreeList.{NotIn, Free, Chain-frame}
use mits081_lab.Kernel.Vm.{pte2pa, is_valid}

-- What a physical page is used for: `mid i` is the page-table page below entry `i` of the root, and
-- `leaf i j` the one below entry `j` of that.
pub data Role : Type 0 where
  free root other : Role
  mid : ℕ → Role
  leaf : ℕ → ℕ → Role

abbrev pub Words : Type 0
Words = ℕ → ℕ → ℕ

-- the page that entry `i` of page `p` points to
unfoldable pub child : Words → ℕ → ℕ → Option ℕ
child w p i = if is_valid (w p i) then some (pte2pa (w p i)) else none

-- the lowest page-table page for indices `i` and `j`
unfoldable pub leaf_page : Words → ℕ → ℕ → ℕ → Option ℕ
leaf_page w table i j = elim (child w table i) [ none ↦ none | some p ↦ child w p j ]

-- The entry that the table holds for indices `i`, `j`, `k`, and 0 where a level is missing.
unfoldable pub entry : Words → ℕ → ℕ → ℕ → ℕ → ℕ
entry w table i j k = elim (leaf_page w table i j) [ none ↦ 0 | some p ↦ w p k ]

-- The page table at `table` is a tree, and the pages `ps` are free.
pub record IsTree (table : ℕ) (role : ℕ → Role) (ps : List ℕ) (m : Memory) : Type 0 where
  pub free_list : Free m ps
  pub free_role : (q : ℕ) → (NotIn q ps → ⊥) → role q ≡ free
  pub aligned : (q : ℕ) → (NotIn q ps → ⊥) → q % pgsize ≡ 0
  pub table_role : role table ≡ root
  pub mids : (i p : ℕ) → child m.word table i ≡ some p → role p ≡ mid i
  pub leaves : (p i j q : ℕ) → role p ≡ mid i → child m.word p j ≡ some q → role q ≡ leaf i j

pub child-same : (v w : Words) (p i : ℕ) → v p i ≡ w p i → child v p i ≡ child w p i
unfolding child
child-same v w p i e = rw e

-- A path through pages that two memories agree on.
pub leaf_page-same :
    (v w : Words) (table i j : ℕ)
    → v table i ≡ w table i
    → ((p : ℕ) → child w table i ≡ some p → v p j ≡ w p j)
    → leaf_page v table i j ≡ leaf_page w table i j
unfolding leaf_page
leaf_page-same v w table i j e below = elim (Option-cases (child w table i)) [
  | inl no_page ↦ ground (arith, child-same v w table i e, no_page)
  | inr (p, at) ↦ ground (arith, child-same v w table i e, at, child-same v w p j (below p at))
]

leaf_unique :
    {role : Role} (i j i' j' : ℕ) → role ≡ leaf i j → role ≡ leaf i' j' → (i ≡ i') × (j ≡ j')
leaf_unique i j i' j' e e' = (cc, cc)

module _ (table : ℕ) (role : ℕ → Role) (ps : List ℕ) (m : Memory) (t : IsTree table role ps m) where
  pub leaf_page_role : (i j p : ℕ) → leaf_page m.word table i j ≡ some p → role p ≡ leaf i j
  unfolding leaf_page
  leaf_page_role i j p e = elim (Option-cases (child m.word table i)) [
    | inl no_page ↦ absurd (ground (arith, no_page))
    | inr (q, at) ↦ t.leaves q i j p (t.mids i q at) (ground (arith, at))
  ]

  module _ (i j k x p : ℕ) (rp : role p ≡ leaf i j) where
    store-word : (q l : ℕ) → q ≢ p → (store m p k x).word q l ≡ m.word q l
    store-word q l ne = ground arith

    -- A write into a leaf page changes no path.
    pub leaf_page-store :
        (i' j' : ℕ) → leaf_page (store m p k x).word table i' j' ≡ leaf_page m.word table i' j'
    leaf_page-store i' j' =
        leaf_page-same (store m p k x).word m.word table i' j'
          (store-word table i' (λ e. cc (ap role e, t.table_role, rp)))
          (λ q at. store-word q j' (λ e. cc (ap role e, t.mids i' q at, rp)))

    pub IsTree-store : IsTree table role ps (store m p k x)
    IsTree-store = record {
      free_list =
          Chain-frame (store m p k x).word m.word m.freelist ps
            (λ q h. store-word q 0 (λ e. cc (ap role e, t.free_role q h, rp))) t.free_list;
      free_role = t.free_role;
      aligned = t.aligned;
      table_role = t.table_role;
      mids = λ l q e. t.mids l q (
          sym (
            child-same (store m p k x).word m.word table l
              (store-word table l (λ f. cc (ap role f, t.table_role, rp))))
          ∙ e);
      leaves = λ q l n r rq e. t.leaves q l n r rq (
          sym (
            child-same (store m p k x).word m.word q n
              (store-word q n (λ f. cc (ap role f, rq, rp))))
          ∙ e);
    }

    apart :
        (i' j' p' : ℕ)
        → leaf_page m.word table i j ≡ some p
        → leaf_page m.word table i' j' ≡ some p'
        → p' ≢ p
        → ((i == i') && (j == j')) ≡ false
    apart i' j' p' at at' ne = elim (ℕ_discrete i i') [
      | no ni ↦ ground (arith, ni)
      | yes ei ↦ elim (ℕ_discrete j j') [
        | no nj ↦ ground (arith, nj)
        | yes ej ↦ absurd (ne (cc (at, at', ap₂ (leaf_page m.word table) ei ej)))
      ]
    ]

    -- It changes the entry of `i`, `j`, `k`, and no other.
    pub entry-store :
        leaf_page m.word table i j ≡ some p
        → (i' j' k' : ℕ)
        → entry (store m p k x).word table i' j' k'
          ≡ (if (i == i') && (j == j') && (k == k') then x else entry m.word table i' j' k')
    unfolding entry
    entry-store at i' j' k' = elim (Option-cases (leaf_page m.word table i' j')) [
      | inl no_page ↦ ground (arith, leaf_page-store i' j', no_page, at)
      | inr (p', at') ↦ elim (ℕ_discrete p' p) [
        | yes e ↦
            let (ei, ej) =
              leaf_unique i j i' j' rp
                (subst (λ q. role q ≡ leaf i' j') e (leaf_page_role i' j' p' at')) in
            ground (arith, leaf_page-store i' j', at', e, ei, ej)
        | no ne ↦
            ground
              (arith, leaf_page-store i' j', at', store-word p' k' ne, apart i' j' p' at at' ne)
      ]
    ]
