-- ===== src/Kernel/Fs/Blocks/Bits.antt =====
-- Bits of a byte, and of the free map.
use mits081_lab.Base.{
  ℕ, zero, suc, ◌+◌, ◌-◌, ◌*◌, ◌/◌, ◌%◌, ◌^◌, ◌≤◌, ◌≡◌, ◌≢◌, refl, ◌∙◌, sym, ap, Bool, true, false,
  not, ◌==◌, ==_iff, ==_false, if◌then◌else◌, arith, ℕ_discrete,
}
use mits081_lab.Kernel.Disk.{update}
use mits081_lab.Kernel.Fs.Blocks.{Contents, Superblock, bblock, bit, bits_per_block}

bit_le : (k x : ℕ) → bit k x ≤ 1
unfolding bit
bit_le zero x = omega arith
bit_le (suc k) x = bit_le k (x / 2)

pow_suc : (k : ℕ) → 2 ^ suc k ≡ 2 * 2 ^ k
pow_suc k = omega arith

pub bit-bounds : (k x : ℕ) → bit k x ≡ 1 → 2 ^ k ≤ x
unfolding bit
bit-bounds zero x h = omega (arith, h)
bit-bounds (suc k) x h = omega (arith, pow_suc k, bit-bounds k (x / 2) h)

half_add : (x t : ℕ) → ((x + 2 * t) / 2 ≡ x / 2 + t) × ((x + 2 * t) % 2 ≡ x % 2)
half_add x t = omega arith

half_sub : (x t : ℕ) → t ≤ x / 2 → ((x - 2 * t) / 2 ≡ x / 2 - t) × ((x - 2 * t) % 2 ≡ x % 2)
half_sub x t h = omega (arith, h)

-- Setting a clear bit.
pub bit-set : (k j x : ℕ) → bit k x ≡ 0 → bit j (x + 2 ^ k) ≡ (if j == k then 1 else bit j x)
unfolding bit
bit-set zero zero x h = omega (arith, h)
bit-set zero (suc j) x h =
    let same : (x + 1) / 2 ≡ x / 2 = omega (arith, h) in
    rw (same, ==_false (suc j) 0 (omega arith)) refl
bit-set (suc k) zero x h =
    rw (pow_suc k, (half_add x (2 ^ k)).1, ==_false 0 (suc k) (omega arith)) refl
bit-set (suc k) (suc j) x h =
    rw (pow_suc k, (half_add x (2 ^ k)).0) (bit-set k j (x / 2) h ∙ ground arith)

-- Clearing a set bit.
pub bit-clear : (k j x : ℕ) → bit k x ≡ 1 → bit j (x - 2 ^ k) ≡ (if j == k then 0 else bit j x)
unfolding bit
bit-clear zero zero x h = omega (arith, h)
bit-clear zero (suc j) x h =
    let same : (x - 1) / 2 ≡ x / 2 = omega (arith, h) in
    rw (same, ==_false (suc j) 0 (omega arith)) refl
bit-clear (suc k) zero x h =
    rw
      (pow_suc k, (half_sub x (2 ^ k) (bit-bounds k (x / 2) h)).1, ==_false 0 (suc k) (omega arith))
      refl
bit-clear (suc k) (suc j) x h =
    rw (pow_suc k, (half_sub x (2 ^ k) (bit-bounds k (x / 2) h)).0)
      (bit-clear k j (x / 2) h ∙ ground arith)

-- Whether the free map has a block as in use.
unfoldable pub is_used : Superblock → (ℕ → Contents) → ℕ → Bool
is_used sb m b = not (bit (b % bits_per_block % 8) (m (bblock sb b) (b % bits_per_block / 8)) == 0)

-- What a store in the free map does to the bits: `b` is the block whose bit gets the value `v`.
unfoldable pub Marks : Superblock → (ℕ → Contents) → (ℕ → Contents) → ℕ → Bool → Type 0
Marks sb m m' b v = (c : ℕ) → is_used sb m' c ≡ (if c == b then v else is_used sb m c)

same_bit :
    (sb : Superblock) (b c : ℕ)
    → bblock sb c ≡ bblock sb b
    → c % bits_per_block / 8 ≡ b % bits_per_block / 8
    → c % bits_per_block % 8 ≡ b % bits_per_block % 8
    → c ≡ b
same_bit sb b c e f g = omega (arith, e, f, g)

unused_bit :
    (sb : Superblock) (m : ℕ → Contents) (b : ℕ)
    → is_used sb m b ≡ false
    → bit (b % bits_per_block % 8) (m (bblock sb b) (b % bits_per_block / 8)) ≡ 0
unfolding is_used
unused_bit sb m b e = ground (arith, e)

used_bit :
    (sb : Superblock) (m : ℕ → Contents) (b : ℕ)
    → is_used sb m b ≡ true
    → bit (b % bits_per_block % 8) (m (bblock sb b) (b % bits_per_block / 8)) ≡ 1
unfolding is_used
used_bit sb m b e =
    ground (arith, e, bit_le (b % bits_per_block % 8) (m (bblock sb b) (b % bits_per_block / 8)))

-- A store of the byte that holds the bit of `b`.
module _ (sb : Superblock) (m : ℕ → Contents) (b v : ℕ) where
  abbrev pub a : ℕ
  a = bblock sb b

  abbrev pub o : ℕ
  o = b % bits_per_block / 8

  abbrev pub k : ℕ
  k = b % bits_per_block % 8

  stored_elsewhere :
      (c : ℕ) → (a ≢ bblock sb c) → is_used sb (update m a (update (m a) o v)) c ≡ is_used sb m c
  unfolding is_used
  stored_elsewhere c ne = rw (==_false a (bblock sb c) ne) refl

  stored_other :
      (c : ℕ)
      → a ≡ bblock sb c
      → o ≢ c % bits_per_block / 8
      → is_used sb (update m a (update (m a) o v)) c ≡ is_used sb m c
  unfolding is_used
  stored_other c e ne =
      rw ((==_iff a (bblock sb c)).1 e, ==_false o (c % bits_per_block / 8) ne, e) refl

  stored_here :
      (c : ℕ)
      → a ≡ bblock sb c
      → o ≡ c % bits_per_block / 8
      → is_used sb (update m a (update (m a) o v)) c ≡ not (bit (c % bits_per_block % 8) v == 0)
  unfolding is_used
  stored_here c e f =
      rw ((==_iff a (bblock sb c)).1 e, (==_iff o (c % bits_per_block / 8)).1 f) refl

  differs :
      (c : ℕ)
      → is_used sb (update m a (update (m a) o v)) c ≡ is_used sb m c
      → c ≢ b
      → (w : Bool)
      → is_used sb (update m a (update (m a) o v)) c ≡ (if c == b then w else is_used sb m c)
  differs c e ne w = e ∙ rw (==_false c b ne) refl

  old :
      (c : ℕ)
      → a ≡ bblock sb c
      → o ≡ c % bits_per_block / 8
      → not (bit (c % bits_per_block % 8) (m a o) == 0) ≡ is_used sb m c
  unfolding is_used
  old c e f = rw (e, f) refl

  pub Marks-stored :
      (w : Bool)
      → ((j : ℕ) → bit j v ≡ (if j == k then (if w then 1 else 0) else bit j (m a o)))
      → Marks sb m (update m a (update (m a) o v)) b w
  unfolding Marks
  Marks-stored w h c = elim (ℕ_discrete a (bblock sb c)) [
    | no ne ↦ differs c (stored_elsewhere c ne) (λ e. ne (ap (bblock sb) (sym e))) w
    | yes e ↦ elim (ℕ_discrete o (c % bits_per_block / 8)) [
      | no ne ↦
          differs c (stored_other c e ne)
            (λ same. ne (ap (λ (x : ℕ). x % bits_per_block / 8) (sym same))) w
      | yes f ↦ stored_here c e f ∙ elim (ℕ_discrete (c % bits_per_block % 8) k) [
        | yes g ↦
            rw
              (
                h (c % bits_per_block % 8),
                (==_iff (c % bits_per_block % 8) k).1 g,
                (==_iff c b).1 (same_bit sb b c (sym e) (sym f) g),
              )
              (flag w)
        | no ne ↦
            rw
              (
                h (c % bits_per_block % 8),
                ==_false (c % bits_per_block % 8) k ne,
                ==_false c b (λ same. ne (ap (λ (x : ℕ). x % bits_per_block % 8) same)),
              )
              (old c e f)
      ]
    ]
  ]
    where
      flag : (w : Bool) → not ((if w then 1 else 0) == 0) ≡ w
      flag true = refl
      flag false = refl

pub Marks-set :
    (sb : Superblock) (m : ℕ → Contents) (b : ℕ)
    → is_used sb m b ≡ false
    → Marks sb m
        (update m (bblock sb b) (
          update
            (m (bblock sb b))
            (b % bits_per_block / 8)
            (m (bblock sb b) (b % bits_per_block / 8) + 2 ^ (b % bits_per_block % 8))))
        b
        true
Marks-set sb m b e = Marks-stored sb m b _ true (λ j.
    bit-set (b % bits_per_block % 8) j (m (bblock sb b) (b % bits_per_block / 8))
      (unused_bit sb m b e))

pub Marks-clear :
    (sb : Superblock) (m : ℕ → Contents) (b : ℕ)
    → is_used sb m b ≡ true
    → Marks sb m
        (update m (bblock sb b) (
          update
            (m (bblock sb b))
            (b % bits_per_block / 8)
            (m (bblock sb b) (b % bits_per_block / 8) - 2 ^ (b % bits_per_block % 8))))
        b
        false
Marks-clear sb m b e = Marks-stored sb m b _ false (λ j.
    bit-clear (b % bits_per_block % 8) j (m (bblock sb b) (b % bits_per_block / 8))
      (used_bit sb m b e))
