-- ===== src/Kernel/Fs/Blocks/Free.antt =====
-- What bfree does.
use mits081_lab.Base.{
  ℕ, ◌-◌, ◌/◌, ◌%◌, ◌^◌, ◌<◌, ◌≡◌, ◌≢◌, refl, ◌∙◌, sym, ap, true, false, not, Bool-cases, inl, inr,
  ◌||◌, ◌==◌, ==_iff, ==_false, if◌then◌else◌, arith, ℕ_discrete,
}
use mathlib.Core.Path.{subst}
use mits081_lab.Kernel.Panic.{Run, ok, panic, ◌>>◌, panic_if}
use mits081_lab.Kernel.Disk.{update}
use mits081_lab.Kernel.Fs.Blocks.{
  Superblock, bblock, Fs, log_write, mem, poke, bits_per_block, bfree, balloc,
}
use mits081_lab.Kernel.Fs.Blocks.Bits.{is_used, Marks, Marks-clear}
use mits081_lab.Kernel.Fs.Blocks.Alloc.{clash, Allocates, MapUsed, balloc-Allocates}
use mits081_lab.Kernel.Fs.Blocks.Writes.{log_write-blocks, mem-log_write}

-- `bfree` panics if the block is free. Otherwise the block is free afterwards, and nothing else differs but the free map's
-- block, which is logged.
unfoldable pub Frees : Superblock → ℕ → Fs → Run Fs → Type 0
Frees sb b s panic = is_used sb s.blocks b ≡ false
Frees sb b s (ok t) =
    (is_used sb s.blocks b ≡ true)
    × ((c : ℕ) → is_used sb t.blocks c ≡ (if c == b then false else is_used sb s.blocks c))
    × ((c : ℕ) → c ≢ bblock sb b → t.blocks c ≡ s.blocks c)
    × ((c : ℕ) → mem c t.logged ≡ (c == bblock sb b || mem c s.logged))

unfoldable freed : Superblock → ℕ → Fs → Fs
freed sb b s = log_write (bblock sb b) (
    poke (bblock sb b) (b % bits_per_block / 8)
      (s.blocks (bblock sb b) (b % bits_per_block / 8) - 2 ^ (b % bits_per_block % 8)) s)

bfree_cases :
    (sb : Superblock) (b : ℕ) (s : Fs)
    → bfree sb b s ≡ (panic_if (not (is_used sb s.blocks b)) >> ok (freed sb b s))
unfolding bfree freed is_used
bfree_cases sb b s = ground arith

freed-blocks :
    (sb : Superblock) (b : ℕ) (s : Fs)
    → (freed sb b s).blocks
      ≡ update s.blocks (bblock sb b) (
          update
            (s.blocks (bblock sb b))
            (b % bits_per_block / 8)
            (s.blocks (bblock sb b) (b % bits_per_block / 8) - 2 ^ (b % bits_per_block % 8)))
unfolding freed
freed-blocks sb b s = log_write-blocks _ _

mem-freed :
    (sb : Superblock) (b c : ℕ) (s : Fs)
    → mem c (freed sb b s).logged ≡ (c == bblock sb b || mem c s.logged)
unfolding freed
mem-freed sb b c s = mem-log_write c (bblock sb b) _

Frees-freed :
    (sb : Superblock) (b : ℕ) (s : Fs)
    → is_used sb s.blocks b ≡ true
    → Frees sb b s (ok (freed sb b s))
unfolding Frees Marks
Frees-freed sb b s used = (
  used,
  λ c. rw (freed-blocks sb b s) (Marks-clear sb s.blocks b used c),
  λ c ne. rw (freed-blocks sb b s, ==_false (bblock sb b) c (λ e. ne (sym e))) refl,
  λ c. mem-freed sb b c s,
)

Frees-free : (sb : Superblock) (b : ℕ) (s : Fs) → is_used sb s.blocks b ≡ false → Frees sb b s panic
unfolding Frees
Frees-free sb b s e = e

pub bfree-Frees : (sb : Superblock) (b : ℕ) (s : Fs) → Frees sb b s (bfree sb b s)
bfree-Frees sb b s = rw (bfree_cases sb b s) (elim (Bool-cases (is_used sb s.blocks b)) [
  | inl used ↦ rw (used) (Frees-freed sb b s used)
  | inr free ↦ rw (free) (Frees-free sb b s free)
])

-- The free map after `bfree` of the block `b` that `balloc` took.
returns :
    (sb : Superblock) (s t : Fs) (b : ℕ) (r : Run Fs)
    → Allocates sb s (ok (b, t))
    → Frees sb b t r
    → (u : Fs) × ((r ≡ ok u)
        × ((c : ℕ) → c < sb.size → is_used sb u.blocks c ≡ is_used sb s.blocks c))
unfolding Allocates Frees
returns sb s t b panic (small, _, _, marks, _, _, _) free = absurd (
    clash
      (marks b small ∙ ap (λ z. if z then true else is_used sb s.blocks b) ((==_iff b b).1 refl))
      free)
returns sb s t b (ok u) (_, free, _, marks, _, _, _) (_, clears, _, _) = (
  u,
  (
    refl,
    λ c small. clears c ∙ elim (ℕ_discrete c b) [
      | yes e ↦
          ap (λ z. if z then false else is_used sb t.blocks c) ((==_iff c b).1 e)
          ∙ sym (ap (is_used sb s.blocks) e ∙ free)
      | no ne ↦
          ap (λ z. if z then false else is_used sb t.blocks c) (==_false c b ne)
          ∙ (marks c small ∙ ap (λ z. if z then true else is_used sb s.blocks c) (==_false c b ne))
    ],
  ),
)

-- For every disk whose free map is in use: when `balloc` returns a block, `bfree` of it returns too, and the free map is
-- then what it was before.
pub bfree-balloc :
    (sb : Superblock) (s : Fs) {b : ℕ} {t : Fs}
    → MapUsed sb s.blocks
    → balloc sb s ≡ ok (b, t)
    → (u : Fs) × ((bfree sb b t ≡ ok u)
        × ((c : ℕ) → c < sb.size → is_used sb u.blocks c ≡ is_used sb s.blocks c))
bfree-balloc sb s {b = b} {t = t} map e =
    returns sb s t b (bfree sb b t) (subst (Allocates sb s) e (balloc-Allocates sb s map))
      (bfree-Frees sb b t)
