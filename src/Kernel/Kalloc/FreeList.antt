-- ===== src/Kernel/Kalloc/FreeList.antt =====
-- The free list: what kalloc and kfree do to the set of free pages.
use mits081_lab.Base.{
  ℕ, ◌%◌, ◌≤◌, ◌<◌, ◌≡◌, refl, sym, ap, ◌≢◌, ◌⊎◌, inl, inr, List, [], ◌∷◌, arith,
}
use mathlib.Core.Path.{subst}
use mits081_lab.Kernel.Panic.{ok, panic}
use mits081_lab.Kernel.Kalloc.{Memory, pgsize, phystop, junk_alloc, link, unlink, kfree, kalloc}

abbrev pub NotIn : ℕ → List ℕ → Type 0
NotIn p [] = Unit
NotIn p (q ∷ ps) = (p ≢ q) × NotIn p ps

-- From `p` on the links lead through the pages `ps`, all different and none at address 0, to the end.
abbrev pub Chain : (ℕ → ℕ → ℕ) → ℕ → List ℕ → Type 0
Chain w p [] = p ≡ 0
Chain w p (q ∷ ps) = (p ≡ q) × (q ≢ 0) × NotIn q ps × Chain w (w q 0) ps

-- The free pages are `ps`, in the order in which they will be handed out.
abbrev pub Free : Memory → List ℕ → Type 0
Free m ps = Chain m.word m.freelist ps

-- A change of pages that are not free leaves the list as it is.
pub Chain-frame :
    (v w : ℕ → ℕ → ℕ) (p : ℕ) (ps : List ℕ)
    → ((q : ℕ) → (NotIn q ps → ⊥) → v q 0 ≡ w q 0)
    → Chain w p ps
    → Chain v p ps
Chain-frame v w p [] same c = c
Chain-frame v w p (q ∷ ps) same (e, ne, out, c) = (
  e,
  ne,
  out,
  rw (same q (λ n. n.0 refl)) (Chain-frame v w (w q 0) ps (λ r i. same r (λ n. i n.1)) c),
)

link-next : (pa : ℕ) (m : Memory) → (link pa m).word pa 0 ≡ m.freelist
link-next pa m = ground arith

link-other : (pa : ℕ) (m : Memory) (q i : ℕ) → q ≢ pa → (link pa m).word q i ≡ m.word q i
link-other pa m q i ne = ground arith

unlink-other : (pa : ℕ) (m : Memory) (q i : ℕ) → q ≢ pa → (unlink pa m).word q i ≡ m.word q i
unlink-other pa m q i ne = ground arith

module _ (kernel_end : ℕ) where
  -- the pages that `kfree` takes
  abbrev pub IsPage : ℕ → Type 0
  IsPage p = (p % pgsize ≡ 0) × (kernel_end ≤ p) × (p < phystop)

  -- `kfree` panics at an address that is no page of the allocator's memory. Otherwise, if the page is not
  -- free already, it becomes the first free page, and no other page's contents change.
  pub kfree_lem :
      (pa : ℕ) (m : Memory) (ps : List ℕ)
      → 0 < kernel_end
      → Free m ps
      → NotIn pa ps
      → (IsPage pa
          → (m' : Memory) × (kfree kernel_end pa m ≡ ok m')
            × Free m' (pa ∷ ps)
            × ((q i : ℕ) → q ≢ pa → m'.word q i ≡ m.word q i))
        × (¬ IsPage pa → kfree kernel_end pa m ≡ panic)
  unfolding kfree
  kfree_lem pa m ps pos c out = (
    λ good. (
      link pa m,
      ground arith,
      (
        refl,
        omega arith,
        out,
        rw (link-next pa m) (
            Chain-frame (link pa m).word m.word m.freelist ps
              (λ q i. link-other pa m q 0 (λ e. i (subst (λ x. NotIn x ps) (sym e) out))) c),
      ),
      link-other pa m,
    ),
    λ bad. ground arith,
  )

pub kalloc-unlink : (m : Memory) (q : ℕ) → m.freelist ≡ q → q ≢ 0 → kalloc m ≡ (q, unlink q m)
unfolding kalloc
kalloc-unlink m q e ne = ground arith

pub kalloc-none : (m : Memory) → m.freelist ≡ 0 → kalloc m ≡ (0, m)
unfolding kalloc
kalloc-none m e = ground arith

pub Free-unlink :
    (m : Memory) (q : ℕ) (ps : List ℕ)
    → NotIn q ps
    → Chain m.word (m.word q 0) ps
    → Free (unlink q m) ps
Free-unlink m q ps out c =
    Chain-frame (unlink q m).word m.word (m.word q 0) ps
      (λ p i. unlink-other q m p 0 (λ e. i (subst (λ x. NotIn x ps) (sym e) out))) c

-- `kalloc` returns 0 and changes nothing if no page is free. Otherwise it returns the page that was freed
-- last, which is free no more; the other pages stay free, and no other page's contents change.
pub kalloc_lem :
    (m : Memory) (ps : List ℕ)
    → Free m ps
    → ((ps ≡ []) × (kalloc m ≡ (0, m)))
      ⊎ ((q : ℕ) × (rest : List ℕ) × (ps ≡ q ∷ rest)
          × ((kalloc m).0 ≡ q)
          × (q ≢ 0)
          × NotIn q rest
          × Free (kalloc m).1 rest
          × ((p i : ℕ) → p ≢ q → (kalloc m).1.word p i ≡ m.word p i)
          × ((i : ℕ) → (kalloc m).1.word q i ≡ junk_alloc))
unfolding kalloc
kalloc_lem m [] c = inl (refl, ground arith)
kalloc_lem m (q ∷ ps) (e, ne, out, c) = inr (
  q,
  ps,
  refl,
  ap (λ r. r.0) (kalloc-unlink m q e ne),
  ne,
  out,
  rw (kalloc-unlink m q e ne) (Free-unlink m q ps out c),
  λ p i other. rw (kalloc-unlink m q e ne) (unlink-other q m p i other),
  λ i. rw (kalloc-unlink m q e ne) (ground arith),
)
