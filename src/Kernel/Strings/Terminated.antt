-- ===== src/Kernel/Strings/Terminated.antt =====
-- Functions on NUL-terminated strings.
use native.Mathlib.Nat.{add-zero}
use mits081_lab.Base.{
  ℕ, zero, suc, ◌+◌, ◌-◌, ◌≤◌, ◌<◌, ◌≡◌, refl, ◌∙◌, sym, ap, ◌≢◌, ◌⊎◌, inl, inr, some, arith, ◌==◌,
  ==_iff, ==_false, ==_ne, Bool-cases, ℕ_discrete,
}
use mits081_lab.Kernel.Disk.{update}
use mits081_lab.Kernel.Strings.{Bytes, safestrcpy_from, safestrcpy, strlen_from, strlen}

-- The string at `s` has length `n`.
pub record HasLength (s n : ℕ) (m : Bytes) : Type 0 where
  pub nul : m (s + n) ≡ 0
  pub others : (i : ℕ) → i < n → m (s + i) ≢ 0

strlen_from_lem :
    (fuel s n k : ℕ) (m : Bytes)
    → HasLength s (n + k) m
    → k < fuel
    → strlen_from fuel s n m ≡ some (n + k)
unfolding strlen_from
strlen_from_lem zero s n k m h enough = absurd (omega arith)
strlen_from_lem (suc fuel) s n zero m h enough =
    let here : m (s + n) ≡ 0 = simp add-zero at h.nul in rw ((==_iff _ _).1 here, add-zero) refl
strlen_from_lem (suc fuel) s n (suc k) m h enough =
    let same : n + suc k ≡ n + 1 + k = omega arith in
    rw (==_false (m (s + n)) 0 (h.others n (omega arith)), same)
      (strlen_from_lem fuel s (n + 1) k m (rw same at h) (omega arith))

-- `strlen` returns the length of a string within as many looks as the string has bytes, with its NUL.
pub strlen_lem : (fuel s n : ℕ) (m : Bytes) → HasLength s n m → n < fuel → strlen fuel s m ≡ some n
unfolding strlen
strlen_lem fuel s n m h enough =
    strlen_from_lem fuel s 0 n m (rw zero_add h) enough ∙ ap some zero_add
  where
    zero_add : 0 + n ≡ n
    zero_add = omega arith

-- The loop of `safestrcpy`, with `n` bytes left after the one at `s`, has put the string of length `j` there.
pub record Copied (s t n : ℕ) (m m' : Bytes) : Type 0 where
  pub len : ℕ
  pub within : len ≤ n
  pub string : HasLength s len m'
  pub same : (i : ℕ) → i < len → m' (s + i) ≡ m (t + i)
  pub whole : (len ≡ n) ⊎ ((len < n) × (m (t + len) ≡ 0))
  pub outside : (q : ℕ) → (q < s) ⊎ (s + n < q) → m' q ≡ m q

module _ (n s t : ℕ) (m m' : Bytes) (apart : (s + suc n < t) ⊎ (t + suc n ≤ s)) (more : m t ≢ 0)
    (c : Copied (s + 1) (t + 1) n (update m s (m t)) m') where
  back : (a i : ℕ) → i ≢ 0 → a + 1 + (i - 1) ≡ a + i
  back a i ne = omega arith

  first : (i : ℕ) → i ≡ 0 → (m' (s + i) ≡ m (t + i)) × (m' (s + i) ≢ 0)
  first i e =
      let at : m' s ≡ m t = c.outside s (omega arith) ∙ ground arith in
      simp (e, add-zero) (at, λ z. more (sym at ∙ z))

  bytes : (i : ℕ) → i < suc c.len → (m' (s + i) ≡ m (t + i)) × (m' (s + i) ≢ 0)
  bytes i h = elim (ℕ_discrete i 0) [
    | yes e ↦ first i e
    | no ne ↦
        let at : m' (s + 1 + (i - 1)) ≡ m' (s + i) = ap m' (back s i ne) in
        let far : t + i ≢ s = λ e. omega (arith, e, c.within, apart) in
        (
          sym at
              ∙ c.same (i - 1) (omega arith)
              ∙ ap (update m s (m t)) (back t i ne)
              ∙ ground (arith, far),
          λ z. c.string.others (i - 1) (omega arith) (at ∙ z),
        )
  ]

  Copied-suc : Copied s t (suc n) m m'
  Copied-suc = record {
    len = suc c.len;
    within = omega (arith, c.within);
    string = record { nul = ap m' (next s c.len) ∙ c.string.nul; others = λ i h. (bytes i h).1 };
    same = λ i h. (bytes i h).0;
    whole = elim c.whole [
      | inl e ↦ inl (ap suc e)
      | inr (short, z) ↦
          let far : t + suc c.len ≢ s = λ e. omega (arith, e, short, apart) in
          inr (
            omega arith,
            sym (ap (update m s (m t)) (sym (next t c.len)) ∙ ground (arith, far)) ∙ z,
          )
    ];
    outside = λ q h. c.outside q (omega (arith, h)) ∙ ground (arith, h);
  }
    where
      next : (a k : ℕ) → a + suc k ≡ a + 1 + k
      next a k = omega arith

-- The string at `t` and the `n + 1` bytes at `s` lie apart.
safestrcpy_from-Copied :
    (n s t : ℕ) (m : Bytes) → (s + n < t) ⊎ (t + n ≤ s) → Copied s t n m (safestrcpy_from s t n m)
unfolding safestrcpy_from
safestrcpy_from-Copied zero s t m apart = record {
  len = 0;
  within = omega arith;
  string = record { nul = ground arith; others = λ i h. absurd (omega arith) };
  same = λ i h. absurd (omega arith);
  whole = inl refl;
  outside = λ q h. ground arith;
}
safestrcpy_from-Copied (suc n) s t m apart = elim (Bool-cases (m t == 0)) [
  | inl end ↦ rw end (record {
    len = 0;
    within = omega arith;
    string = record { nul = ground (arith, end); others = λ i h. absurd (omega arith) };
    same = λ i h. absurd (omega arith);
    whole = inr (omega arith, simp add-zero ((==_iff _ _).0 end));
    outside = λ q h. ground arith;
  })
  | inr more ↦ rw more (
      Copied-suc n s t m _ apart (==_ne _ _ more)
        (safestrcpy_from-Copied n (s + 1) (t + 1) (update m s (m t)) (omega arith)))
]

-- For a destination of at least one byte, apart from the `n + 1` bytes at `t`, `safestrcpy` leaves a string there
-- that ends within the destination. It is a prefix of the one at `t`, cut only at the destination's
-- size, and no byte outside the destination changes.
pub safestrcpy-Copied :
    (n s t : ℕ) (m : Bytes) → (s + n < t) ⊎ (t + n ≤ s) → Copied s t n m (safestrcpy s t (suc n) m)
unfolding safestrcpy
safestrcpy-Copied n s t m apart = safestrcpy_from-Copied n s t m apart
