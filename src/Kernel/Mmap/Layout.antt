-- ===== src/Kernel/Mmap/Layout.antt =====
-- Where a process's mappings lie: within its size, and apart from each other.
use mathlib.Core.Path.{subst}
use mits081_lab.Base.{
  ℕ, zero, suc, ◌+◌, ◌^◌, ◌≤◌, ◌<◌, ◌≡◌, ◌∙◌, sym, ap, ◌≢◌, ◌⊎◌, inl, inr, true, false, arith,
  Bool-cases, ℕ_discrete,
}
use mits081_lab.Kernel.Disk.{update}
use mits081_lab.Kernel.Mmap.{Vma, nvma, find_free}

abbrev pub Inside : ℕ → Vma → Type 0
Inside sz v = (v.len < 2 ^ 31) × (v.addr + v.len ≤ sz)

abbrev pub Apart : Vma → Vma → Type 0
Apart v w = (v.addr + v.len ≤ w.addr) ⊎ (w.addr + w.len ≤ v.addr)

-- The mappings in use lie below the process's size `sz`, and no two of them overlap.
pub record IsLaidOut (sz : ℕ) (vma : ℕ → Vma) : Type 0 where
  pub sz_uint : sz < 2 ^ 64
  pub fits : (i : ℕ) → i < nvma → (vma i).valid ≡ true → Inside sz (vma i)
  pub apart :
      (i j : ℕ)
      → i < nvma
      → j < nvma
      → i ≢ j
      → (vma i).valid ≡ true
      → (vma j).valid ≡ true
      → Apart (vma i) (vma j)

Apart-swap : (v w : Vma) → Apart v w → Apart w v
Apart-swap v w (inl h) = inr h
Apart-swap v w (inr h) = inl h

module _ (sz sz' : ℕ) (vma : ℕ → Vma) (l : IsLaidOut sz vma) (more : sz ≤ sz') (uint : sz' < 2 ^ 64)
    (i : ℕ) (v : Vma) where
  slot_cases : (q : ℕ) → ((q ≡ i) × (update vma i v q ≡ v)) ⊎ ((q ≢ i) × (update vma i v q ≡ vma q))
  slot_cases q = elim (ℕ_discrete q i) [
    | yes e ↦ inl (e, ground (arith, e))
    | no ne ↦ inr (ne, ground (arith, ne))
  ]

  -- a change of slot `i` to a mapping that lies apart from the others
  pub IsLaidOut-update :
      (v.valid ≡ true → Inside sz' v)
      → ((j : ℕ) → j < nvma → j ≢ i → v.valid ≡ true → (vma j).valid ≡ true → Apart v (vma j))
      → IsLaidOut sz' (update vma i v)
  IsLaidOut-update inside away = record {
    sz_uint = uint;
    fits = λ q small. elim (slot_cases q) [
      | inl (e, u) ↦ subst (λ w. w.valid ≡ true → Inside sz' w) (sym u) inside
      | inr (ne, u) ↦
          subst (λ w. w.valid ≡ true → Inside sz' w) (sym u)
            (λ h. let (a, b) = l.fits q small h in (a, omega arith))
    ];
    apart = λ q r hq hr ne. elim (slot_cases q) [
      | inl (eq, uq) ↦ elim (slot_cases r) [
        | inl (er, ur) ↦ absurd (ne (eq ∙ sym er))
        | inr (nr, ur) ↦
            subst
              (λ w. w.valid ≡ true → (update vma i v r).valid ≡ true → Apart w (update vma i v r))
              (sym uq)
              (subst (λ w. v.valid ≡ true → w.valid ≡ true → Apart v w) (sym ur) (away r hr nr))
      ]
      | inr (nq, uq) ↦ elim (slot_cases r) [
        | inl (er, ur) ↦
            subst
              (λ w. w.valid ≡ true → (update vma i v r).valid ≡ true → Apart w (update vma i v r))
              (sym uq)
              (subst (λ w. (vma q).valid ≡ true → w.valid ≡ true → Apart (vma q) w) (sym ur)
                (λ a b. Apart-swap v (vma q) (away q hq nq b a)))
        | inr (nr, ur) ↦
            subst
              (λ w. w.valid ≡ true → (update vma i v r).valid ≡ true → Apart w (update vma i v r))
              (sym uq)
              (subst (λ w. (vma q).valid ≡ true → w.valid ≡ true → Apart (vma q) w) (sym ur)
                (l.apart q r hq hr ne))
      ]
    ];
  }

-- The first slot not in use.
pub record FirstFree (vma : ℕ → Vma) (i end r : ℕ) : Type 0 where
  pub upto : r ≤ end
  pub found : r < end → (vma r).valid ≡ false
  pub before : (j : ℕ) → i ≤ j → j < r → (vma j).valid ≡ true

pub find_free-FirstFree :
    (vma : ℕ → Vma) (k i end : ℕ) → i + k ≡ end → FirstFree vma i end (find_free vma k i)
unfolding find_free
find_free-FirstFree vma zero i end e = record {
  upto = omega arith;
  found = λ h. absurd (omega arith);
  before = λ j lo hi. absurd (omega arith);
}
find_free-FirstFree vma (suc k) i end e = elim (Bool-cases (vma i).valid) [
  | inl used ↦
      let f = find_free-FirstFree vma k (i + 1) end (omega arith) in
      rw used (record {
        upto = f.upto;
        found = f.found;
        before = λ j lo hi. elim (ℕ_discrete j i) [
          | yes eq ↦ ap (λ x. (vma x).valid) eq ∙ used
          | no ne ↦ f.before j (omega arith) hi
        ];
      })
  | inr unused ↦
      rw unused (record {
        upto = omega arith;
        found = λ h. unused;
        before = λ j lo hi. absurd (omega arith);
      })
]
