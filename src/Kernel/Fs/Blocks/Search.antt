-- ===== src/Kernel/Fs/Blocks/Search.antt =====
-- What the inner loop of balloc finds.
use mits081_lab.Base.{
  ℕ, zero, suc, ◌+◌, ◌*◌, ◌/◌, ◌%◌, ◌≤◌, ◌<◌, ◌≡◌, refl, true, false, not, Bool-cases, inl, inr,
  Option, none, some, ◌==◌, ltb, ltb→lt, if◌then◌else◌, arith, ℕ_discrete,
}
use mits081_lab.Kernel.Fs.Blocks.{Contents, Superblock, bblock, bit, bits_per_block, balloc_in}
use mits081_lab.Kernel.Fs.Blocks.Bits.{is_used}

-- The bit that `balloc_in` looks at.
bit_at :
    (sb : Superblock) (m : ℕ → Contents) (j bi : ℕ)
    → bi < bits_per_block
    → is_used sb m (j * bits_per_block + bi)
      ≡ not (bit (bi % 8) (m (bblock sb (j * bits_per_block)) (bi / 8)) == 0)
unfolding is_used
bit_at sb m j bi small =
    let number : (j * bits_per_block + bi) / bits_per_block ≡ j * bits_per_block / bits_per_block =
      omega (arith, small) in
    let offset : (j * bits_per_block + bi) % bits_per_block ≡ bi = omega (arith, small) in
    rw (number, offset) refl

-- One round of the inner loop, on whether the free map has its block as in use.
balloc_in_step :
    (sb : Superblock) (m : ℕ → Contents) (j k bi : ℕ)
    → bi < bits_per_block
    → balloc_in sb (suc k) (j * bits_per_block) bi (m (bblock sb (j * bits_per_block))) ≡ (
        if not (ltb (j * bits_per_block + bi) sb.size)
        then none
        else if is_used sb m (j * bits_per_block + bi)
        then balloc_in sb k (j * bits_per_block) (bi + 1) (m (bblock sb (j * bits_per_block)))
        else some bi)
unfolding balloc_in
balloc_in_step sb m j k bi small = rw (bit_at sb m j bi small) ground arith

balloc_in_end :
    (sb : Superblock) (m : ℕ → Contents) (j bi : ℕ)
    → balloc_in sb 0 (j * bits_per_block) bi (m (bblock sb (j * bits_per_block))) ≡ none
unfolding balloc_in
balloc_in_end sb m j bi = refl

ltb_not : {a b : ℕ} → ltb a b ≡ false → ¬ (a < b)
ltb_not h lt = ground (arith, h, lt)

-- What the inner loop finds in the `j`-th block of the free map: the first free bit, or none up to the end of the block and
-- of the disk.
unfoldable pub Finds : Superblock → (ℕ → Contents) → ℕ → ℕ → ℕ → Option ℕ → Type 0
Finds sb m j k bi (some f) =
    (bi ≤ f)
    × (f < bi + k)
    × (j * bits_per_block + f < sb.size)
    × (is_used sb m (j * bits_per_block + f) ≡ false)
    × ((c : ℕ) → bi ≤ c → c < f → is_used sb m (j * bits_per_block + c) ≡ true)
Finds sb m j k bi none =
    (c : ℕ)
    → bi ≤ c
    → c < bi + k
    → j * bits_per_block + c < sb.size
    → is_used sb m (j * bits_per_block + c) ≡ true

Finds-later :
    (sb : Superblock) (m : ℕ → Contents) (j k bi : ℕ) (r : Option ℕ)
    → is_used sb m (j * bits_per_block + bi) ≡ true
    → Finds sb m j k (bi + 1) r
    → Finds sb m j (suc k) bi r
unfolding Finds
Finds-later sb m j k bi (some f) u (above, below, small, free, before) = (
  omega (arith, above),
  omega (arith, below),
  small,
  free,
  λ c lo hi. elim (ℕ_discrete c bi) [
    | yes e ↦ rw e u
    | no ne ↦ before c (omega (arith, lo, ne)) hi
  ],
)
Finds-later sb m j k bi none u all = λ c lo hi small. elim (ℕ_discrete c bi) [
  | yes e ↦ rw e u
  | no ne ↦ all c (omega (arith, lo, ne)) (omega (arith, hi)) small
]

pub balloc_in-Finds :
    (sb : Superblock) (m : ℕ → Contents) (j k bi : ℕ)
    → bi + k ≤ bits_per_block
    → Finds sb m j k bi
        (balloc_in sb k (j * bits_per_block) bi (m (bblock sb (j * bits_per_block))))
unfolding Finds
balloc_in-Finds sb m j zero bi fits =
    rw (balloc_in_end sb m j bi) (λ c lo hi. absurd (omega (arith, lo, hi)))
balloc_in-Finds sb m j (suc k) bi fits =
    rw (balloc_in_step sb m j k bi (omega (arith, fits)))
      (elim (Bool-cases (ltb (j * bits_per_block + bi) sb.size)) [
        | inr off ↦ rw off (λ c lo hi small. absurd (ltb_not off (omega (arith, lo, small))))
        | inl on ↦ rw on (elim (Bool-cases (is_used sb m (j * bits_per_block + bi))) [
          | inl used ↦ rw used (
              Finds-later sb m j k bi _ used
                (balloc_in-Finds sb m j k (bi + 1) (omega (arith, fits))))
          | inr free ↦ rw free (
            omega arith,
            omega arith,
            ltb→lt _ _ on,
            free,
            λ c lo hi. absurd (omega (arith, lo, hi)),
          )
        ])
      ])
