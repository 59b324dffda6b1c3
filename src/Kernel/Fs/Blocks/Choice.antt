-- ===== src/Kernel/Fs/Blocks/Choice.antt =====
-- Which block balloc chooses.
use mits081_lab.Base.{
  ℕ, zero, suc, ◌+◌, ◌-◌, ◌*◌, ◌/◌, ◌%◌, ◌^◌, ◌≤◌, ◌<◌, ◌≡◌, refl, ◌∙◌, sym, ap, true, false, inl,
  inr, Option-cases, none, some, arith, dec_lt,
}
use mits081_lab.Kernel.Panic.{Run, ok, panic}
use mits081_lab.Kernel.Fs.Blocks.{
  Contents, Superblock, bblock, Fs, log_write, poke, bits_per_block, bzero, balloc_in, balloc_mark,
  balloc_round, balloc_from,
}
use mits081_lab.Kernel.Fs.Blocks.Bits.{is_used}
use mits081_lab.Kernel.Fs.Blocks.Search.{Finds, balloc_in-Finds}

-- The file system after `balloc` has taken block `b`.
unfoldable pub marked : Superblock → ℕ → Fs → Fs
marked sb b s = log_write (bblock sb b) (
    poke (bblock sb b) (b % bits_per_block / 8)
      (s.blocks (bblock sb b) (b % bits_per_block / 8) + 2 ^ (b % bits_per_block % 8)) s)

unfoldable pub taken : Superblock → ℕ → Fs → Fs
taken sb b s = bzero b (marked sb b s)

balloc_mark-taken :
    (sb : Superblock) (j f : ℕ) (s : Fs)
    → f < bits_per_block
    → balloc_mark sb (j * bits_per_block) f s ≡ taken sb (j * bits_per_block + f) s
unfolding balloc_mark taken marked
balloc_mark-taken sb j f s small =
    let number : (j * bits_per_block + f) / bits_per_block ≡ j * bits_per_block / bits_per_block =
      omega (arith, small) in
    let offset : (j * bits_per_block + f) % bits_per_block ≡ f = omega (arith, small) in
    rw (number, offset) refl

-- The block that `balloc` chooses from round `j` of `k` on.
unfoldable pub Chooses : Superblock → Fs → ℕ → ℕ → Run (ℕ × Fs) → Type 0
Chooses sb s j k panic =
    (c : ℕ)
    → j * bits_per_block ≤ c
    → c < (j + k) * bits_per_block
    → c < sb.size
    → is_used sb s.blocks c ≡ true
Chooses sb s j k (ok (b, t)) =
    (b < sb.size)
    × (is_used sb s.blocks b ≡ false)
    × ((c : ℕ) → j * bits_per_block ≤ c → c < b → is_used sb s.blocks c ≡ true)
    × (t ≡ taken sb b s)

balloc_from_found :
    (sb : Superblock) (j k f : ℕ) (s : Fs)
    → f < bits_per_block
    → balloc_in sb bits_per_block (j * bits_per_block) 0 (s.blocks (bblock sb (j * bits_per_block)))
      ≡ some f
    → balloc_from sb (suc k) (j * bits_per_block) s
      ≡ ok (j * bits_per_block + f, taken sb (j * bits_per_block + f) s)
unfolding balloc_from
balloc_from_found sb j k f s small e =
    ap (balloc_round sb (j * bits_per_block) s _) e
    ∙ (ap (λ t. ok (j * bits_per_block + f, t)) (balloc_mark-taken sb j f s small))

balloc_from_missed :
    (sb : Superblock) (j k : ℕ) (s : Fs)
    → balloc_in sb bits_per_block (j * bits_per_block) 0 (s.blocks (bblock sb (j * bits_per_block)))
      ≡ none
    → balloc_from sb (suc k) (j * bits_per_block) s ≡ balloc_from sb k (suc j * bits_per_block) s
unfolding balloc_from
balloc_from_missed sb j k s e =
    let next : j * bits_per_block + bits_per_block ≡ suc j * bits_per_block = omega arith in
    ap (balloc_round sb (j * bits_per_block) s _) e ∙ (ap (λ b. balloc_from sb k b s) next)

-- The offset in a round of a block whose bit the round looks at.
in_round :
    (j c : ℕ)
    → j * bits_per_block ≤ c
    → c < suc j * bits_per_block
    → (o : ℕ) × (o < bits_per_block) × (c ≡ j * bits_per_block + o)
in_round j c lo hi = (c - j * bits_per_block, omega (arith, lo, hi), omega (arith, lo))

round_none :
    (sb : Superblock) (s : Fs) (j : ℕ)
    → Finds sb s.blocks j bits_per_block 0 none
    → (c : ℕ) → j * bits_per_block ≤ c
    → c < suc j * bits_per_block
    → c < sb.size
    → is_used sb s.blocks c ≡ true
unfolding Finds
round_none sb s j all c lo hi small =
    let (o, below, e) = in_round j c lo hi in
    rw (e) (all o (omega arith) (omega (arith, below)) (omega (arith, small, e)))

Chooses-found :
    (sb : Superblock) (s : Fs) (j k f : ℕ)
    → Finds sb s.blocks j bits_per_block 0 (some f)
    → Chooses sb s j k (ok (j * bits_per_block + f, taken sb (j * bits_per_block + f) s))
unfolding Finds Chooses
Chooses-found sb s j k f (_, below, small, free, before) = (
  small,
  free,
  λ c lo hi.
      let (o, _, e) = in_round j c lo (omega (arith, hi, below)) in
      rw (e) (before o (omega arith) (omega (arith, hi, e))),
  refl,
)

Chooses-later :
    (sb : Superblock) (s : Fs) (j k : ℕ) (r : Run (ℕ × Fs))
    → Finds sb s.blocks j bits_per_block 0 none
    → Chooses sb s (suc j) k r
    → Chooses sb s j (suc k) r
unfolding Chooses
Chooses-later sb s j k panic none_here later = λ c lo hi small.
    elim (dec_lt c (suc j * bits_per_block)) [
      | yes here ↦ round_none sb s j none_here c lo here small
      | no there ↦ later c (omega (arith, there)) (omega (arith, hi)) small
    ]
Chooses-later sb s j k (ok (b, t)) none_here (small, free, before, e) = (
  small,
  free,
  λ c lo hi. elim (dec_lt c (suc j * bits_per_block)) [
    | yes here ↦ round_none sb s j none_here c lo here (omega (arith, hi, small))
    | no there ↦ before c (omega (arith, there)) hi
  ],
  e,
)

Finds-small :
    (sb : Superblock) (m : ℕ → Contents) (j f : ℕ)
    → Finds sb m j bits_per_block 0 (some f)
    → f < bits_per_block
unfolding Finds
Finds-small sb m j f (_, below, _, _, _) = below

balloc_from-Chooses_zero :
    (sb : Superblock) (s : Fs) (j : ℕ) → Chooses sb s j 0 (balloc_from sb 0 (j * bits_per_block) s)
unfolding Chooses balloc_from
balloc_from-Chooses_zero sb s j = λ c lo hi. absurd (omega (arith, lo, hi))

pub balloc_from-Chooses :
    (sb : Superblock) (s : Fs) (j k : ℕ)
    → Chooses sb s j k (balloc_from sb k (j * bits_per_block) s)
balloc_from-Chooses sb s j zero = balloc_from-Chooses_zero sb s j
balloc_from-Chooses sb s j (suc k) =
    let found = balloc_in-Finds sb s.blocks j bits_per_block 0 (omega arith) in
    elim (Option-cases (
      balloc_in sb bits_per_block (j * bits_per_block) 0
        (s.blocks (bblock sb (j * bits_per_block))))) [
          | inl e ↦
              rw (balloc_from_missed sb j k s e)
                (Chooses-later sb s j k _ (rw (sym e) found) (balloc_from-Chooses sb s (suc j) k))
          | inr (f, e) ↦
              let here : Finds sb s.blocks j bits_per_block 0 (some f) = rw (sym e) found in
              rw (balloc_from_found sb j k f s (Finds-small sb s.blocks j f here) e)
                (Chooses-found sb s j (suc k) f here)
        ]
