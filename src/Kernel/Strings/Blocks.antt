-- ===== src/Kernel/Strings/Blocks.antt =====
-- Copies, fills and comparisons of blocks of bytes.
use native.Mathlib.Nat.{add-zero}
use mits081_lab.Base.{
  ℕ, zero, suc, ◌+◌, ◌%◌, ◌^◌, ◌-◌, ◌≤◌, ◌<◌, ◌≡◌, refl, ◌∙◌, sym, ap, ◌≢◌, ◌⊎◌, inl, inr, ◌↔◌,
  ◌&&◌, arith, ◌==◌, ==_iff, ==_ne, ltb, leb, if◌then◌else◌, Bool-cases, ℕ_discrete, dec_lt, pos,
  sub_ℕ-eq-zero,
}
use mits081_lab.Kernel.Disk.{update}
use mits081_lab.Kernel.Strings.{Bytes, memset_from, memset, memcmp, copy_up, copy_down, memmove}

-- `m` with the `k` bytes from `d` on those that `m` has from `s` on
abbrev pub moved : ℕ → ℕ → ℕ → Bytes → Bytes
moved d s k m q = if leb d q && ltb q (d + k) then m (s + (q - d)) else m q

moved_inside :
    (d s k : ℕ) (m : Bytes) (q : ℕ) → d ≤ q → q < d + k → moved d s k m q ≡ m (s + (q - d))
moved_inside d s k m q lo hi = ground arith

moved_below : (d s k : ℕ) (m : Bytes) (q : ℕ) → q < d → moved d s k m q ≡ m q
moved_below d s k m q lo = ground arith

moved_above : (d s k : ℕ) (m : Bytes) (q : ℕ) → d + k ≤ q → moved d s k m q ≡ m q
moved_above d s k m q hi = ground arith

-- the first byte, and then the others
moved-suc :
    (k d s : ℕ) (m : Bytes)
    → (d ≤ s) ⊎ (s + suc k ≤ d)
    → (q : ℕ) → moved (d + 1) (s + 1) k (update m d (m s)) q ≡ moved d s (suc k) m q
moved-suc k d s m apart q = elim (dec_lt d q) [
  | yes above ↦
      let same : s + 1 + (q - (d + 1)) ≡ s + (q - d) = omega arith in ground (arith, ap m same)
  | no low ↦ elim (ℕ_discrete q d) [
    | yes e ↦ let same : s + (q - d) ≡ s = omega arith in ground (arith, ap m same)
    | no ne ↦ ground arith
  ]
]

-- the last byte, and then the others
moved-last :
    (k d s : ℕ) (m : Bytes)
    → (s ≤ d) ⊎ (d + suc k ≤ s)
    → (q : ℕ) → moved d s k (update m (d + k) (m (s + k))) q ≡ moved d s (suc k) m q
moved-last k d s m apart q = elim (ℕ_discrete q (d + k)) [
  | yes e ↦ let same : s + (q - d) ≡ s + k = omega arith in ground (arith, ap m same)
  | no ne ↦ ground arith
]

pub copy_up_lem :
    (k d s : ℕ) (m : Bytes) → (d ≤ s) ⊎ (s + k ≤ d) → (q : ℕ) → copy_up k d s m q ≡ moved d s k m q
unfolding copy_up
copy_up_lem zero d s m apart q = ground arith
copy_up_lem (suc k) d s m apart q =
    copy_up_lem k (d + 1) (s + 1) (update m d (m s)) (omega arith) q ∙ moved-suc k d s m apart q

pub copy_down_lem :
    (k d s : ℕ) (m : Bytes)
    → (s ≤ d) ⊎ (d + k ≤ s)
    → (q : ℕ) → copy_down k (d + k) (s + k) m q ≡ moved d s k m q
unfolding copy_down
copy_down_lem zero d s m apart q = ground arith
copy_down_lem (suc k) d s m apart q =
    let at_d : d + suc k - 1 ≡ d + k = omega arith in
    let at_s : s + suc k - 1 ≡ s + k = omega arith in
    rw (at_d, at_s)
      (copy_down_lem k d s (update m (d + k) (m (s + k))) (omega arith) q
        ∙ moved-last k d s m apart q)

-- `memmove` makes the `n` bytes at `dst` what those at `src` were, whether the two blocks overlap or not,
-- and changes no other byte.
pub memmove_lem : (dst src n : ℕ) (m : Bytes) (q : ℕ) → memmove dst src n m q ≡ moved dst src n m q
unfolding memmove
memmove_lem dst src n m q = elim (Bool-cases (n == 0)) [
  | inl none_left ↦ rw none_left (ground (arith, none_left))
  | inr more ↦ elim (Bool-cases (ltb src dst && ltb dst (src + n))) [
    | inl inside ↦ rw (more, inside) (copy_down_lem n dst src m (ground (arith, inside)) q)
    | inr outside ↦ rw (more, outside) (copy_up_lem n dst src m (ground (arith, outside)) q)
  ]
]

-- `memset` makes each of the `n` bytes at `dst` that value, and changes no other byte.
pub memset_lem :
    (n dst c : ℕ) (m : Bytes) (q : ℕ)
    → memset dst c n m q ≡ (if leb dst q && ltb q (dst + n) then c % 2 ^ 8 else m q)
unfolding memset memset_from
memset_lem zero dst c m q = ground arith
memset_lem (suc n) dst c m q = ground (arith, memset_lem n (dst + 1) c (update m dst (c % 2 ^ 8)) q)

-- The first `n` bytes at two addresses are the same.
abbrev pub Agree : ℕ → ℕ → ℕ → Bytes → Type 0
Agree s₁ s₂ n m = (i : ℕ) → i < n → m (s₁ + i) ≡ m (s₂ + i)

pub Agree-suc :
    (s₁ s₂ n : ℕ) (m : Bytes)
    → Agree s₁ s₂ (suc n) m ↔ ((m s₁ ≡ m s₂) × Agree (s₁ + 1) (s₂ + 1) n m)
Agree-suc s₁ s₂ n m = (
  λ h. (
    simp add-zero at (h 0 (omega arith)),
    λ i small. at_next i ∙ h (suc i) (omega arith) ∙ sym (at_next' i),
  ),
  λ (first, rest) i small. elim (ℕ_discrete i 0) [
    | yes e ↦ simp (e, add-zero) first
    | no ne ↦ sym (ap m (back s₁ i ne)) ∙ rest (i - 1) (omega arith) ∙ ap m (back s₂ i ne)
  ],
)
  where
    at_next : (i : ℕ) → m (s₁ + 1 + i) ≡ m (s₁ + suc i)
    at_next i = ap m (omega arith)

    at_next' : (i : ℕ) → m (s₂ + 1 + i) ≡ m (s₂ + suc i)
    at_next' i = ap m (omega arith)

    back : (s i : ℕ) → i ≢ 0 → s + 1 + (i - 1) ≡ s + i
    back s i ne = omega arith

-- `memcmp` returns 0 exactly if the two blocks hold the same bytes.
pub memcmp_iff : (n s₁ s₂ : ℕ) (m : Bytes) → (memcmp s₁ s₂ n m ≡ pos 0) ↔ Agree s₁ s₂ n m
unfolding memcmp
memcmp_iff zero s₁ s₂ m = (λ _ i h. absurd (omega arith), λ _. refl)
memcmp_iff (suc n) s₁ s₂ m = elim (Bool-cases (m s₁ == m s₂)) [
  | inl same ↦
      let ih = memcmp_iff n (s₁ + 1) (s₂ + 1) m in
      rw same (
        λ e. (Agree-suc s₁ s₂ n m).1 ((==_iff _ _).0 same, ih.0 e),
        λ h. ih.1 ((Agree-suc s₁ s₂ n m).0 h).1,
      )
  | inr other ↦ rw other (
    λ e. absurd (==_ne _ _ other (sub_ℕ-eq-zero _ _ e)),
    λ h. absurd (==_ne _ _ other ((Agree-suc s₁ s₂ n m).0 h).0),
  )
]

-- A block that `memmove` has copied to a place apart from it compares equal to it.
pub memcmp-memmove :
    (dst src n : ℕ) (m : Bytes)
    → (dst + n ≤ src) ⊎ (src + n ≤ dst)
    → memcmp dst src n (memmove dst src n m) ≡ pos 0
memcmp-memmove dst src n m apart = (memcmp_iff n dst src (memmove dst src n m)).1 λ i small.
    let back : dst + i - dst ≡ i = omega arith in
    memmove_lem dst src n m (dst + i)
    ∙ moved_inside dst src n m (dst + i) (omega arith) (omega arith)
    ∙ ap (λ j. m (src + j)) back
    ∙ sym (memmove_lem dst src n m (src + i) ∙ ground (arith, apart))
