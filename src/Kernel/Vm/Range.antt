-- ===== src/Kernel/Vm/Range.antt =====
-- The entries of a range of pages.
use mits081_lab.Base.{
  ℕ, suc, ◌+◌, ◌-◌, ◌*◌, ◌/◌, ◌%◌, ◌<◌, ◌≡◌, refl, ◌∙◌, sym, ap, ◌≢◌, inl, inr, Bool, true, false,
  ◌&&◌, arith, ◌==◌, leb, ltb, if◌then◌else◌, Bool-cases, ==_iff, ==_false, ℕ_discrete,
}
use mits081_lab.Kernel.Kalloc.{Memory, pgsize}
use mits081_lab.Kernel.Vm.{maxva, leaf_pte}
use mits081_lab.Kernel.Vm.Map.{entry_at}

-- whether `va` lies in the `j` pages from `a` on
abbrev pub in_range : ℕ → ℕ → ℕ → Bool
in_range a j va = leb a va && ltb va (a + j * pgsize)

-- the physical page for `va`, where `a` goes to `pa`
abbrev pub page_of : ℕ → ℕ → ℕ → ℕ
page_of a pa va = pa + (va / pgsize - a / pgsize) * pgsize

-- In `m'` the `j` pages from `a` on go to those from `pa` on, and the other entries are those of `m`.
abbrev pub Sets : ℕ → ℕ → ℕ → ℕ → ℕ → Memory → Memory → Type 0
Sets table j a pa perm m m' =
    (va : ℕ)
    → va < maxva
    → entry_at table m' va
      ≡ (if in_range a j va then leaf_pte (page_of a pa va) perm else entry_at table m va)

module _ (a j pa va : ℕ) (h : a % pgsize ≡ 0) where
  in_range-rest : in_range (a + pgsize) j va ≡ true → in_range a (suc j) va ≡ true
  in_range-rest e = ground (arith, e)

  in_range-first : a / pgsize ≡ va / pgsize → in_range a (suc j) va ≡ true
  in_range-first e = ground (arith, e)

  in_range-neither :
      in_range (a + pgsize) j va ≡ false → a / pgsize ≢ va / pgsize → in_range a (suc j) va ≡ false
  in_range-neither e ne = ground (arith, e, ne)

  page_of-rest :
      in_range (a + pgsize) j va ≡ true → page_of (a + pgsize) (pa + pgsize) va ≡ page_of a pa va
  page_of-rest e = ground (arith, e)

  page_of-first : a / pgsize ≡ va / pgsize → page_of a pa va ≡ pa
  page_of-first e = omega (arith, e)

  -- the first page of a range, and then the others
  range-suc :
      (perm x x₁ x' : ℕ)
      → x' ≡ (
          if in_range (a + pgsize) j va
          then leaf_pte (page_of (a + pgsize) (pa + pgsize) va) perm
          else x₁)
      → x₁ ≡ (if a / pgsize == va / pgsize then leaf_pte pa perm else x)
      → x' ≡ (if in_range a (suc j) va then leaf_pte (page_of a pa va) perm else x)
  range-suc perm x x₁ x' e e₁ = elim (Bool-cases (in_range (a + pgsize) j va)) [
    | inl rest ↦ rw (in_range-rest rest) (
        e
        ∙ ap (λ b. if b then leaf_pte (page_of (a + pgsize) (pa + pgsize) va) perm else x₁) rest
        ∙ ap (λ q. leaf_pte q perm) (page_of-rest rest))
    | inr out ↦
        let skip =
          e
          ∙ ap (λ b. if b then leaf_pte (page_of (a + pgsize) (pa + pgsize) va) perm else x₁) out
          ∙ e₁ in
        elim (ℕ_discrete (a / pgsize) (va / pgsize)) [
          | yes same ↦ rw (in_range-first same) (
              skip
              ∙ ap (λ b. if b then leaf_pte pa perm else x) ((==_iff _ _).1 same)
              ∙ ap (λ q. leaf_pte q perm) (sym (page_of-first same)))
          | no other ↦
              rw (in_range-neither out other)
                (skip ∙ ap (λ b. if b then leaf_pte pa perm else x) (==_false _ _ other))
        ]
  ]

in_range-zero : (a va : ℕ) → in_range a 0 va ≡ false
in_range-zero a va = ground arith

pub a_zero : (a : ℕ) → a + 0 * pgsize ≡ a
a_zero a = omega arith

module _ (table perm : ℕ) where
  pub Sets-zero :
      (a pa : ℕ) (m m' : Memory)
      → ((va : ℕ) → entry_at table m' va ≡ entry_at table m va)
      → Sets table 0 a pa perm m m'
  Sets-zero a pa m m' same va small = rw (in_range-zero a va) (same va)

  abbrev pub One : ℕ → ℕ → Memory → Memory → Type 0
  One a pa m m' =
      (va : ℕ)
      → va < maxva
      → entry_at table m' va
        ≡ (if a / pgsize == va / pgsize then leaf_pte pa perm else entry_at table m va)

  pub Sets-suc :
      (j a pa : ℕ) (m m₁ m' : Memory)
      → a % pgsize ≡ 0
      → One a pa m m₁
      → Sets table j (a + pgsize) (pa + pgsize) perm m₁ m'
      → Sets table (suc j) a pa perm m m'
  Sets-suc j a pa m m₁ m' h one s va small =
      range-suc a j pa va h perm (entry_at table m va) (entry_at table m₁ va) (entry_at table m' va)
        (s va small) (one va small)

  pub entry-later :
      (a pa j : ℕ) (m m₁ : Memory)
      → One a pa m m₁
      → a + pgsize + j * pgsize < maxva
      → entry_at table m₁ (a + pgsize + j * pgsize) ≡ entry_at table m (a + suc j * pgsize)
  entry-later a pa j m m₁ one small =
      let va = a + pgsize + j * pgsize in
      let other : a / pgsize ≢ va / pgsize = λ e. omega (arith, e) in
      let same : va ≡ a + suc j * pgsize = omega arith in
      one va small
      ∙ ap (λ b. if b then leaf_pte pa perm else entry_at table m va) (==_false _ _ other)
      ∙ ap (entry_at table m) same

  pub Sets-One :
      (a pa : ℕ) (m m' : Memory) → a % pgsize ≡ 0 → One a pa m m' → Sets table 1 a pa perm m m'
  Sets-One a pa m m' h one =
      Sets-suc 0 a pa m m' m' h one (Sets-zero (a + pgsize) (pa + pgsize) m' m' (λ va. refl))
