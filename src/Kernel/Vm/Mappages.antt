-- ===== src/Kernel/Vm/Mappages.antt =====
-- mappages: what it does to the entries of a page table.
use mits081_lab.Base.{
  ℕ, zero, suc, ◌+◌, ◌-◌, ◌*◌, ◌/◌, ◌%◌, ◌≤◌, ◌<◌, ◌≡◌, refl, ◌∙◌, sym, ap, Bool, true, false, List,
  [], arith, if◌then◌else◌, ==_false,
}
use mits081_lab.Kernel.Panic.{Run, ok, panic, ◌>>=◌}
use mits081_lab.Kernel.Kalloc.{Memory, pgsize, pgrounddown}
use mits081_lab.Kernel.Vm.{maxva, is_valid, map_one, mappages_from, mappages}
use mits081_lab.Kernel.Vm.Tree.{Role, IsTree}
use mits081_lab.Kernel.Vm.Map.{entry_at, MappedOne, remap, no_memory, mapped, map_one-MappedOne}
use mits081_lab.Kernel.Vm.Range.{Sets, One, Sets-zero, Sets-suc, Sets-One, entry-later, a_zero}

-- What the loop of `mappages` does with `k` pages after the one at `a`.
pub data MappedRange (table k a pa perm : ℕ) (m : Memory) : Run (Bool × Memory) → Type 0 where
  remap_at :
      (j : ℕ)
      → j ≤ k
      → is_valid (entry_at table m (a + j * pgsize)) ≡ true
      → MappedRange table k a pa perm m panic
  out_of_memory :
      {role : ℕ → Role} {m' : Memory} (j : ℕ)
      → j ≤ k
      → IsTree table role [] m'
      → Sets table j a pa perm m m'
      → MappedRange table k a pa perm m (ok (false, m'))
  mapped_all :
      {role : ℕ → Role} {ps : List ℕ} {m' : Memory}
      → IsTree table role ps m'
      → Sets table (suc k) a pa perm m m'
      → MappedRange table k a pa perm m (ok (true, m'))

module _ (table perm : ℕ) where
  grow :
      (k a pa : ℕ) (m m₁ : Memory) (r : Run (Bool × Memory))
      → a % pgsize ≡ 0
      → a + suc k * pgsize < maxva
      → One table perm a pa m m₁
      → MappedRange table k (a + pgsize) (pa + pgsize) perm m₁ r
      → MappedRange table (suc k) a pa perm m r
  grow k a pa m m₁ r h small one (remap_at j le e) =
      remap_at (suc j) (omega arith)
        (ap is_valid (sym (entry-later table perm a pa j m m₁ one (omega arith))) ∙ e)
  grow k a pa m m₁ r h small one (out_of_memory {m' = m'} j le t s) =
      out_of_memory (suc j) (omega arith) t (Sets-suc table perm j a pa m m₁ m' h one s)
  grow k a pa m m₁ r h small one (mapped_all {m' = m'} t s) =
      mapped_all t (Sets-suc table perm (suc k) a pa m m₁ m' h one s)

  last_page :
      (a pa : ℕ) (m : Memory) (r : Run (Bool × Memory))
      → a % pgsize ≡ 0
      → MappedOne table a pa perm m r
      → MappedRange table 0 a pa perm m r
  last_page a pa m r h (remap e) =
      remap_at 0 (omega arith) (ap (λ x. is_valid (entry_at table m x)) (a_zero a) ∙ e)
  last_page a pa m r h (no_memory {m' = m'} t same) =
      out_of_memory 0 (omega arith) t (Sets-zero table perm a pa m m' same)
  last_page a pa m r h (mapped {m' = m'} unset t one) =
      mapped_all t (Sets-One table perm a pa m m' h one)

  -- the rounds after the first
  abbrev rest_of : ℕ → ℕ → ℕ → Bool × Memory → Run (Bool × Memory)
  rest_of k a pa (good, m₁) =
      let rest = mappages_from table k (a + pgsize) (pa + pgsize) perm m₁ in
      if good then rest else ok (false, m₁)

  mappages_from-suc :
      (k a pa : ℕ) (m : Memory)
      → mappages_from table (suc k) a pa perm m ≡ map_one table a pa perm m >>= rest_of k a pa
  unfolding mappages_from
  mappages_from-suc k a pa m = refl

  mappages_from-zero :
      (a pa : ℕ) (m : Memory) → mappages_from table 0 a pa perm m ≡ map_one table a pa perm m
  unfolding mappages_from
  mappages_from-zero a pa m = refl

  first_page :
      (k a pa : ℕ) (m : Memory) (r : Run (Bool × Memory))
      → a % pgsize ≡ 0
      → a + suc k * pgsize < maxva
      → ((role : ℕ → Role) (ps : List ℕ) (m₁ : Memory)
          → IsTree table role ps m₁
          → MappedRange table k
              (a + pgsize)
              (pa + pgsize)
              perm
              m₁
              (mappages_from table k (a + pgsize) (pa + pgsize) perm m₁))
      → MappedOne table a pa perm m r
      → MappedRange table (suc k) a pa perm m (r >>= rest_of k a pa)
  first_page k a pa m r h small rest (remap e) =
      remap_at 0 (omega arith) (ap (λ x. is_valid (entry_at table m x)) (a_zero a) ∙ e)
  first_page k a pa m r h small rest (no_memory {m' = m'} t same) =
      out_of_memory 0 (omega arith) t (Sets-zero table perm a pa m m' same)
  first_page k a pa m r h small rest (mapped {role = role} {ps = ps} {m' = m₁} unset t one) =
      grow k a pa m m₁ _ h small one (rest role ps m₁ t)

  mappages_from-MappedRange :
      (k a pa : ℕ) (role : ℕ → Role) (ps : List ℕ) (m : Memory)
      → a % pgsize ≡ 0
      → a + k * pgsize < maxva
      → IsTree table role ps m
      → MappedRange table k a pa perm m (mappages_from table k a pa perm m)
  mappages_from-MappedRange zero a pa role ps m h small t =
      rw (mappages_from-zero a pa m)
        (last_page a pa m _ h (map_one-MappedOne table a pa perm (omega arith) role ps m t))
  mappages_from-MappedRange (suc k) a pa role ps m h small t = rw (mappages_from-suc k a pa m) (
      first_page k a pa m (map_one table a pa perm m) h small
        (λ role' ps' m₁ t'.
          mappages_from-MappedRange k (a + pgsize) (pa + pgsize) role' ps' m₁ (omega arith)
            (omega arith) t')
        (map_one-MappedOne table a pa perm (omega arith) role ps m t))

-- On a page table that is a tree, for a range of at least one byte below MAXVA, with `k` pages after its first
-- page, one of three cases holds: one of its pages is mapped already and `mappages` panics; it runs out of
-- memory after the first `j` pages and fails; or it succeeds. The pages that it has set go to the physical
-- pages from `pa` on, in order, with the permissions; every other entry is as it was, and the table is a
-- tree.
pub mappages-MappedRange :
    (table va size pa perm : ℕ) (role : ℕ → Role) (ps : List ℕ) (m : Memory)
    → 0 < size
    → va + size ≤ maxva
    → IsTree table role ps m
    → let a = pgrounddown va in
      MappedRange table
        ((pgrounddown (va + size - 1) - a) / pgsize)
        a
        pa
        perm
        m
        (mappages table va size pa perm m)
unfolding mappages
mappages-MappedRange table va size pa perm role ps m some_size small t =
    let a = pgrounddown va in
    let k = (pgrounddown (va + size - 1) - a) / pgsize in
    let aligned : a % pgsize ≡ 0 = omega arith in
    let inside : a + k * pgsize < maxva = omega arith in
    rw (==_false size 0 (λ e. omega (arith, e)))
      (mappages_from-MappedRange table perm k a pa role ps m aligned inside t)
