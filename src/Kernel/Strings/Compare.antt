-- ===== src/Kernel/Strings/Compare.antt =====
-- What strncmp decides.
use native.Mathlib.Nat.{add-zero}
use mits081_lab.Base.{
  ℕ, zero, suc, ◌+◌, ◌-◌, ◌<◌, ◌≡◌, ◌≢◌, refl, ap, ◌∙◌, ==_iff, ==_false, ℕ_discrete, inl, inr,
  arith, pos, sub_ℕ, Bool-cases, ==_ne, ◌==◌, sub_ℕ-eq-zero,
}
use mits081_lab.Kernel.Strings.{Bytes, strncmp}

-- The bytes at `p` and at `q` agree up to the first zero byte at `p`, or in all `n`.
unfoldable pub SameText : ℕ → ℕ → ℕ → Bytes → Type 0
SameText n p q m = (i : ℕ) → i < n → ((j : ℕ) → j < i → m (p + j) ≢ 0) → m (p + i) ≡ m (q + i)

sub_ℕ-same : (a b : ℕ) → a ≡ b → sub_ℕ a b ≡ pos 0
sub_ℕ-same a b e = rw (e) (ground arith)

SameText-here : (n p q : ℕ) (m : Bytes) → SameText (suc n) p q m → m p ≡ m q
unfolding SameText
SameText-here n p q m same =
    simp add-zero at (same 0 (omega arith) (λ j h. absurd (omega (arith, h))))

SameText-later :
    (n p q : ℕ) (m : Bytes) → m p ≢ 0 → SameText (suc n) p q m → SameText n (p + 1) (q + 1) m
unfolding SameText
SameText-later n p q m nz same i lt no_zero =
    let at_p : p + 1 + i ≡ p + suc i = omega arith in
    let at_q : q + suc i ≡ q + 1 + i = omega arith in
    ap m at_p ∙ (same (suc i) (omega (arith, lt)) before ∙ ap m at_q)
  where
    before : (j : ℕ) → j < suc i → m (p + j) ≢ 0
    before j h e = elim (ℕ_discrete j 0) [
      | yes z ↦ let at : p ≡ p + j = omega (arith, z) in nz (ap m at ∙ e)
      | no ne ↦
          let at : p + 1 + (j - 1) ≡ p + j = omega (arith, ne) in
          no_zero (j - 1) (omega (arith, h, ne)) (ap m at ∙ e)
    ]

SameText-end : (n p q : ℕ) (m : Bytes) → m p ≡ 0 → m p ≡ m q → SameText (suc n) p q m
unfolding SameText
SameText-end n p q m z e i lt no_zero = elim (ℕ_discrete i 0) [
  | yes at ↦ simp (at, add-zero) e
  | no ne ↦ absurd (no_zero 0 (omega (arith, ne)) (simp add-zero z))
]

SameText-cons :
    (n p q : ℕ) (m : Bytes) → m p ≡ m q → SameText n (p + 1) (q + 1) m → SameText (suc n) p q m
unfolding SameText
SameText-cons n p q m e same i lt no_zero = elim (ℕ_discrete i 0) [
  | yes at ↦ simp (at, add-zero) e
  | no ne ↦
      let at_p : p + i ≡ p + 1 + (i - 1) = omega (arith, ne) in
      let at_q : q + 1 + (i - 1) ≡ q + i = omega (arith, ne) in
      ap m at_p ∙ (same (i - 1) (omega (arith, lt, ne)) before ∙ ap m at_q)
]
  where
    before : (j : ℕ) → j < i - 1 → m (p + 1 + j) ≢ 0
    before j h z =
        let at : p + suc j ≡ p + 1 + j = omega arith in
        no_zero (suc j) (omega (arith, h)) (ap m at ∙ z)

SameText-none : (p q : ℕ) (m : Bytes) → SameText 0 p q m
unfolding SameText
SameText-none p q m i lt _ = absurd (omega (arith, lt))

pub strncmp-SameText : (n p q : ℕ) (m : Bytes) → strncmp p q n m ≡ pos 0 → SameText n p q m
unfolding strncmp
strncmp-SameText zero p q m = λ _. SameText-none p q m
strncmp-SameText (suc n) p q m = elim (ℕ_discrete (m p) 0) [
  | yes z ↦ rw ((==_iff (m p) 0).1 z) (λ e. SameText-end n p q m z (sub_ℕ-eq-zero _ _ e))
  | no nz ↦ rw (==_false (m p) 0 nz) (elim (Bool-cases (m p == m q)) [
    | inl same ↦
        rw same (λ e.
          SameText-cons n p q m ((==_iff _ _).0 same) (strncmp-SameText n (p + 1) (q + 1) m e))
    | inr other ↦ rw other (λ e. absurd (==_ne _ _ other (sub_ℕ-eq-zero _ _ e)))
  ])
]

pub SameText-strncmp : (n p q : ℕ) (m : Bytes) → SameText n p q m → strncmp p q n m ≡ pos 0
unfolding strncmp
SameText-strncmp zero p q m same = refl
SameText-strncmp (suc n) p q m same =
    let here = SameText-here n p q m same in
    elim (ℕ_discrete (m p) 0) [
      | yes z ↦ rw ((==_iff (m p) 0).1 z) (sub_ℕ-same _ _ here)
      | no nz ↦
          rw (==_false (m p) 0 nz, (==_iff (m p) (m q)).1 here)
            (SameText-strncmp n (p + 1) (q + 1) m (SameText-later n p q m nz same))
    ]
