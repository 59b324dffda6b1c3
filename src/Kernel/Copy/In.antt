-- ===== src/Kernel/Copy/In.antt =====
-- What copyin copies.
use mits081_lab.Base.{
  ℕ, zero, suc, ◌+◌, ◌-◌, ◌*◌, ◌/◌, ◌%◌, ◌≤◌, ◌<◌, ◌≡◌, ◌≢◌, ◌⊎◌, inl, inr, refl, sym, ap, ◌∙◌,
  Bool, true, false, ==_iff, ==_false, lt→ltb, dec_lt, ℕ_discrete, arith,
}
use mathlib.Core.Path.{subst}
use mits081_lab.Kernel.Strings.{Bytes, memmove}
use mits081_lab.Kernel.Strings.Blocks.{moved, memmove_lem}
use mits081_lab.Kernel.Copy.{in_page, copyin_from, copyin}

-- The physical address of a process's address.
abbrev pub phys : (ℕ → ℕ) → ℕ → ℕ
phys tr va = tr (va / 4096 * 4096) + va % 4096

-- What `copyin` returns: 0, and the bytes of the process from `srcva` on are at `dst`; or -1, and one of the addresses is not
-- mapped. No other byte changes.
unfoldable pub CopiedIn : (ℕ → ℕ) → ℕ → ℕ → ℕ → Bytes → Bool × Bytes → Type 0
CopiedIn tr dst srcva len m (true, n) =
    ((i : ℕ)
      → i < len
      → (tr ((srcva + i) / 4096 * 4096) ≢ 0) × (n (dst + i) ≡ m (phys tr (srcva + i))))
    × ((q : ℕ) → (q < dst) ⊎ (dst + len ≤ q) → n q ≡ m q)
CopiedIn tr dst srcva len m (false, n) =
    ((i : ℕ) × ((i < len) × (tr ((srcva + i) / 4096 * 4096) ≡ 0)))
    × ((q : ℕ) → (q < dst) ⊎ (dst + len ≤ q) → n q ≡ m q)

-- The bytes that `copyin` reads are not among those that it writes.
unfoldable pub Away : (ℕ → ℕ) → ℕ → ℕ → ℕ → ℕ → Type 0
Away tr dst total srcva len =
    (i : ℕ) → i < len → (phys tr (srcva + i) < dst) ⊎ (dst + total ≤ phys tr (srcva + i))

in_page-bounds :
    (va len : ℕ)
    → 0 < len
    → (0 < in_page va len)
      × (in_page va len ≤ len)
      × (va % 4096 + in_page va len ≤ 4096)
      × (in_page va len < len → va / 4096 * 4096 + 4096 ≡ va + in_page va len)
in_page-bounds va len pos =
    (ground (arith, pos), ground arith, ground arith, λ h. ground (arith, h))

-- A round that copies `n` bytes of one page, and what the rounds after it did.
module _ (tr : ℕ → ℕ) (dst srcva n len : ℕ) (m : Bytes) (small : n ≤ len)
    (fits : srcva % 4096 + n ≤ 4096) (mapped : tr (srcva / 4096 * 4096) ≢ 0)
    (away : Away tr dst len srcva len) where
  abbrev after : Bytes
  after = memmove dst (phys tr srcva) n m

  same_page : (i : ℕ) → i < n → (srcva + i) / 4096 ≡ srcva / 4096
  same_page i lt = omega (arith, lt, fits)

  now : (i : ℕ) → i < n → after (dst + i) ≡ m (phys tr (srcva + i))
  now i lt =
      let place : (srcva + i) % 4096 ≡ srcva % 4096 + i = omega (arith, lt, fits) in
      let back : phys tr srcva + (dst + i - dst) ≡ tr (srcva / 4096 * 4096) + (srcva % 4096 + i) =
        omega arith in
      memmove_lem dst (phys tr srcva) n m (dst + i)
      ∙ (inside i lt ∙ (ap m back ∙ sym (rw (same_page i lt, place) refl)))
    where
      inside :
          (i : ℕ)
          → i < n
          → moved dst (phys tr srcva) n m (dst + i) ≡ m (phys tr srcva + (dst + i - dst))
      inside i lt = ground (arith, lt)

  untouched : (q : ℕ) → (q < dst) ⊎ (dst + n ≤ q) → after q ≡ m q
  untouched q out = memmove_lem dst (phys tr srcva) n m q ∙ outside q out
    where
      outside : (q : ℕ) → (q < dst) ⊎ (dst + n ≤ q) → moved dst (phys tr srcva) n m q ≡ m q
      outside q (inl h) = ground (arith, h)
      outside q (inr h) = ground (arith, h)

  CopiedIn-later :
      (r : Bool × Bytes)
      → CopiedIn tr (dst + n) (srcva + n) (len - n) after r
      → CopiedIn tr dst srcva len m r
  unfolding CopiedIn Away
  CopiedIn-later (true, k) (bytes, rest) =
      (both, λ q out. rest q (outer_of q out) ∙ untouched q (inner_of q out))
    where
      outer_of : (q : ℕ) → (q < dst) ⊎ (dst + len ≤ q) → (q < dst + n) ⊎ (dst + n + (len - n) ≤ q)
      outer_of q (inl h) = inl (omega (arith, h))
      outer_of q (inr h) = inr (omega (arith, h, small))

      inner_of : (q : ℕ) → (q < dst) ⊎ (dst + len ≤ q) → (q < dst) ⊎ (dst + n ≤ q)
      inner_of q (inl h) = inl h
      inner_of q (inr h) = inr (omega (arith, h, small))

      off_both : (x : ℕ) → (x < dst) ⊎ (dst + len ≤ x) → after x ≡ m x
      off_both x out = untouched x (inner_of x out)

      both :
          (i : ℕ)
          → i < len
          → (tr ((srcva + i) / 4096 * 4096) ≢ 0) × (k (dst + i) ≡ m (phys tr (srcva + i)))
      both i lt = elim (dec_lt i n) [
        | yes early ↦ (
          λ z. mapped (ap (λ b. tr (b * 4096)) (sym (same_page i early)) ∙ z),
          rest (dst + i) (inl (omega (arith, early))) ∙ now i early,
        )
        | no late ↦
            let here : srcva + n + (i - n) ≡ srcva + i = omega (arith, late) in
            let there : dst + n + (i - n) ≡ dst + i = omega (arith, late) in
            let (on, byte) = bytes (i - n) (omega (arith, lt, late)) in
            (
              (λ z. on (ap (λ a. tr (a / 4096 * 4096)) here ∙ z)),
              ap k (sym there)
                  ∙ (byte
                      ∙ (ap (λ a. after (phys tr a)) here
                          ∙ off_both (phys tr (srcva + i)) (away i lt))),
            )
      ]
  CopiedIn-later (false, k) ((i, (lt, hole)), rest) =
      let here : srcva + n + i ≡ srcva + (n + i) = omega arith in
      (
        (n + i, (omega (arith, lt), ap (λ a. tr (a / 4096 * 4096)) (sym here) ∙ hole)),
        λ q out. rest q (outer_of q out) ∙ untouched q (inner_of q out),
      )
    where
      outer_of : (q : ℕ) → (q < dst) ⊎ (dst + len ≤ q) → (q < dst + n) ⊎ (dst + n + (len - n) ≤ q)
      outer_of q (inl h) = inl (omega (arith, h))
      outer_of q (inr h) = inr (omega (arith, h, small))

      inner_of : (q : ℕ) → (q < dst) ⊎ (dst + len ≤ q) → (q < dst) ⊎ (dst + n ≤ q)
      inner_of q (inl h) = inl h
      inner_of q (inr h) = inr (omega (arith, h, small))

CopiedIn-none : (tr : ℕ → ℕ) (dst srcva : ℕ) (m : Bytes) → CopiedIn tr dst srcva 0 m (true, m)
unfolding CopiedIn
CopiedIn-none tr dst srcva m = (λ i lt. absurd (omega (arith, lt)), λ q _. refl)

CopiedIn-hole :
    (tr : ℕ → ℕ) (dst srcva len : ℕ) (m : Bytes)
    → 0 < len
    → tr (srcva / 4096 * 4096) ≡ 0
    → CopiedIn tr dst srcva len m (false, m)
unfolding CopiedIn
CopiedIn-hole tr dst srcva len m pos hole =
    let here : srcva + 0 ≡ srcva = omega arith in
    ((0, (pos, ap (λ a. tr (a / 4096 * 4096)) here ∙ hole)), λ q _. refl)

-- The first round, when its page is mapped.
copyin_from_round :
    (tr : ℕ → ℕ) (k dst srcva len : ℕ) (m : Bytes)
    → 0 < len
    → tr (srcva / 4096 * 4096) ≢ 0
    → copyin_from tr (suc k) dst srcva len m
      ≡ copyin_from tr k
          (dst + in_page srcva len)
          (srcva / 4096 * 4096 + 4096)
          (len - in_page srcva len)
          (memmove dst (phys tr srcva) (in_page srcva len) m)
unfolding copyin_from
copyin_from_round tr k dst srcva len m pos mapped =
    let offset : srcva - srcva / 4096 * 4096 ≡ srcva % 4096 = omega arith in
    rw (lt→ltb 0 len pos, ==_false (tr (srcva / 4096 * 4096)) 0 mapped, offset) refl

copyin_from_hole :
    (tr : ℕ → ℕ) (k dst srcva len : ℕ) (m : Bytes)
    → 0 < len
    → tr (srcva / 4096 * 4096) ≡ 0
    → copyin_from tr (suc k) dst srcva len m ≡ (false, m)
unfolding copyin_from
copyin_from_hole tr k dst srcva len m pos hole =
    rw (lt→ltb 0 len pos, (==_iff (tr (srcva / 4096 * 4096)) 0).1 hole) refl

copyin_from_none :
    (tr : ℕ → ℕ) (k dst srcva : ℕ) (m : Bytes) → copyin_from tr k dst srcva 0 m ≡ (true, m)
unfolding copyin_from
copyin_from_none tr zero dst srcva m = refl
copyin_from_none tr (suc k) dst srcva m = refl

Away-later :
    (tr : ℕ → ℕ) (dst srcva n len : ℕ)
    → n ≤ len
    → Away tr dst len srcva len
    → Away tr (dst + n) (len - n) (srcva + n) (len - n)
unfolding Away
Away-later tr dst srcva n len small away i lt =
    let here : srcva + (n + i) ≡ srcva + n + i = omega arith in
    shifted (
      subst (λ a. (phys tr a < dst) ⊎ (dst + len ≤ phys tr a)) here
        (away (n + i) (omega (arith, lt))))
  where
    shifted : {x : ℕ} → (x < dst) ⊎ (dst + len ≤ x) → (x < dst + n) ⊎ (dst + n + (len - n) ≤ x)
    shifted (inl h) = inl (omega (arith, h))
    shifted (inr h) = inr (omega (arith, h, small))

-- The rounds after the first, from what they do at the next page.
CopiedIn-rest :
    (tr : ℕ → ℕ) (k dst srcva n len : ℕ) (m : Bytes)
    → n ≤ len
    → (n < len → srcva / 4096 * 4096 + 4096 ≡ srcva + n)
    → CopiedIn tr
        (dst + n)
        (srcva + n)
        (len - n)
        m
        (copyin_from tr k (dst + n) (srcva + n) (len - n) m)
    → CopiedIn tr
        (dst + n)
        (srcva + n)
        (len - n)
        m
        (copyin_from tr k (dst + n) (srcva / 4096 * 4096 + 4096) (len - n) m)
CopiedIn-rest tr k dst srcva n len m small next rounds = elim (dec_lt n len) [
  | yes more ↦
      subst
        (λ a.
          CopiedIn tr (dst + n) (srcva + n) (len - n) m (copyin_from tr k (dst + n) a (len - n) m))
        (sym (next more)) rounds
  | no all ↦
      let done : 0 ≡ len - n = omega (arith, all, small) in
      subst
        (λ c.
          CopiedIn tr (dst + n) (srcva + n) c m
            (copyin_from tr k (dst + n) (srcva / 4096 * 4096 + 4096) c m))
        done
        (rw (copyin_from_none tr k (dst + n) (srcva / 4096 * 4096 + 4096) m)
          (CopiedIn-none tr (dst + n) (srcva + n) m))
]

copyin_from-CopiedIn :
    (tr : ℕ → ℕ) (k dst srcva len : ℕ) (m : Bytes)
    → len ≤ k
    → Away tr dst len srcva len
    → CopiedIn tr dst srcva len m (copyin_from tr k dst srcva len m)
copyin_from-CopiedIn tr k dst srcva zero m enough away =
    rw (copyin_from_none tr k dst srcva m) (CopiedIn-none tr dst srcva m)
copyin_from-CopiedIn tr zero dst srcva (suc len) m enough away = absurd (omega (arith, enough))
copyin_from-CopiedIn tr (suc k) dst srcva (suc len) m enough away =
    elim (ℕ_discrete (tr (srcva / 4096 * 4096)) 0) [
      | yes hole ↦
          rw (copyin_from_hole tr k dst srcva (suc len) m (omega arith) hole)
            (CopiedIn-hole tr dst srcva (suc len) m (omega arith) hole)
      | no mapped ↦
          let n = in_page srcva (suc len) in
          let b = in_page-bounds srcva (suc len) (omega arith) in
          let next =
            copyin_from-CopiedIn tr k (dst + n) (srcva + n) (suc len - n)
              (memmove dst (phys tr srcva) n m) (omega (arith, enough, b.0))
              (Away-later tr dst srcva n (suc len) b.1 away) in
          rw (copyin_from_round tr k dst srcva (suc len) m (omega arith) mapped) (
            CopiedIn-later tr dst srcva n (suc len) m b.1 b.2 mapped away _ (
              CopiedIn-rest tr k dst srcva n (suc len) (memmove dst (phys tr srcva) n m) b.1 b.3
                next))
    ]

-- For a process whose mapped bytes in the range are not among the `len` bytes at `dst`: `copyin` returns 0, and the bytes of
-- the process at `srcva`, through its page table, are at `dst`; or it returns -1, and one of the addresses is not mapped. No
-- byte but those at `dst` changes.
pub copyin-CopiedIn :
    (tr : ℕ → ℕ) (dst srcva len : ℕ) (m : Bytes)
    → Away tr dst len srcva len
    → CopiedIn tr dst srcva len m (copyin tr dst srcva len m)
unfolding copyin
copyin-CopiedIn tr dst srcva len m away =
    copyin_from-CopiedIn tr len dst srcva len m (omega arith) away
