-- ===== src/Kernel/Fs/Blocks/Alloc.antt =====
-- What balloc does.
use mits081_lab.Base.{
  ℕ, ◌+◌, ◌-◌, ◌*◌, ◌/◌, ◌%◌, ◌^◌, ◌≤◌, ◌<◌, ◌≡◌, ◌≢◌, refl, ◌∙◌, sym, ap, Bool, true, false, ◌||◌,
  ◌==◌, ==_iff, ==_false, if◌then◌else◌, arith,
}
use mits081_lab.Kernel.Panic.{Run, ok, panic}
use mits081_lab.Kernel.Disk.{update}
use mits081_lab.Kernel.Fs.Blocks.{
  Contents, Superblock, bblock, Fs, mem, bits_per_block, bzero, balloc,
}
use mits081_lab.Kernel.Fs.Blocks.Bits.{is_used, Marks, Marks-set}
use mits081_lab.Kernel.Fs.Blocks.Choice.{marked, taken, Chooses, balloc_from-Chooses}
use mits081_lab.Kernel.Fs.Blocks.Writes.{log_write-blocks, mem-log_write}

-- The blocks of the free map itself are in use.
unfoldable pub MapUsed : Superblock → (ℕ → Contents) → Type 0
MapUsed sb m = (c : ℕ) → c < sb.size → is_used sb m (bblock sb c) ≡ true

-- The block that `balloc` returns was free, is the first such block, and is zeroed, in use and logged, and nothing else
-- differs but the free map's block; it panics when no block is free.
unfoldable pub Allocates : Superblock → Fs → Run (ℕ × Fs) → Type 0
Allocates sb s panic = (c : ℕ) → c < sb.size → is_used sb s.blocks c ≡ true
Allocates sb s (ok (b, t)) =
    (b < sb.size)
    × (is_used sb s.blocks b ≡ false)
    × ((c : ℕ) → c < b → is_used sb s.blocks c ≡ true)
    × ((c : ℕ)
        → c < sb.size
        → is_used sb t.blocks c ≡ (if c == b then true else is_used sb s.blocks c))
    × ((i : ℕ) → t.blocks b i ≡ 0)
    × ((c : ℕ) → c ≢ b → c ≢ bblock sb b → t.blocks c ≡ s.blocks c)
    × ((c : ℕ) → mem c t.logged ≡ (c == b || (c == bblock sb b || mem c s.logged)))

marked-blocks :
    (sb : Superblock) (b : ℕ) (s : Fs)
    → (marked sb b s).blocks
      ≡ update s.blocks (bblock sb b) (
          update
            (s.blocks (bblock sb b))
            (b % bits_per_block / 8)
            (s.blocks (bblock sb b) (b % bits_per_block / 8) + 2 ^ (b % bits_per_block % 8)))
unfolding marked
marked-blocks sb b s = log_write-blocks _ _

taken-blocks :
    (sb : Superblock) (b : ℕ) (s : Fs)
    → (taken sb b s).blocks ≡ update (marked sb b s).blocks b (λ i. 0)
unfolding taken bzero
taken-blocks sb b s = log_write-blocks _ _

mem-taken :
    (sb : Superblock) (b c : ℕ) (s : Fs)
    → mem c (taken sb b s).logged ≡ (c == b || (c == bblock sb b || mem c s.logged))
unfolding taken bzero marked
mem-taken sb b c s = mem-log_write c b _ ∙ ap (λ x. c == b || x) (mem-log_write c (bblock sb b) _)

-- The free map does not see a store in another block.
pub is_used-update :
    (sb : Superblock) (m : ℕ → Contents) (b : ℕ) (w : Contents) (c : ℕ)
    → b ≢ bblock sb c
    → is_used sb (update m b w) c ≡ is_used sb m c
unfolding is_used
is_used-update sb m b w c ne = rw (==_false b (bblock sb c) ne) refl

is_used-taken :
    (sb : Superblock) (b : ℕ) (s : Fs)
    → is_used sb s.blocks b ≡ false
    → (c : ℕ) → b ≢ bblock sb c
    → is_used sb (taken sb b s).blocks c ≡ (if c == b then true else is_used sb s.blocks c)
unfolding Marks
is_used-taken sb b s free c ne =
    rw
      (
        taken-blocks sb b s,
        is_used-update sb (marked sb b s).blocks b (λ i. 0) c ne,
        marked-blocks sb b s,
      )
      (Marks-set sb s.blocks b free c)

taken_zero : (sb : Superblock) (b : ℕ) (s : Fs) (i : ℕ) → (taken sb b s).blocks b i ≡ 0
taken_zero sb b s i = rw (taken-blocks sb b s, (==_iff b b).1 refl) refl

taken_other :
    (sb : Superblock) (b : ℕ) (s : Fs) (c : ℕ)
    → c ≢ b
    → c ≢ bblock sb b
    → (taken sb b s).blocks c ≡ s.blocks c
taken_other sb b s c ne away =
    rw
      (
        taken-blocks sb b s,
        ==_false b c (λ e. ne (sym e)),
        marked-blocks sb b s,
        ==_false (bblock sb b) c (λ e. away (sym e)),
      )
      refl

pub clash : {x : Bool} → x ≡ true → x ≡ false → ⊥
clash e f = ground (arith, e, f)

Allocates-chosen :
    (sb : Superblock) (s : Fs) (k : ℕ) (r : Run (ℕ × Fs))
    → sb.size ≤ k * bits_per_block
    → MapUsed sb s.blocks
    → Chooses sb s 0 k r
    → Allocates sb s r
unfolding Allocates Chooses MapUsed
Allocates-chosen sb s k panic enough map all =
    λ c small. all c (omega arith) (omega (arith, small, enough)) small
Allocates-chosen sb s k (ok (b, t)) enough map (small, free, before, e) =
    let apart : (c : ℕ) → c < sb.size → b ≢ bblock sb c =
      λ c lt same. clash (map c lt) (ap (is_used sb s.blocks) (sym same) ∙ free) in
    (
      small,
      free,
      λ c lt. before c (omega arith) lt,
      λ c lt. ap (λ (u : Fs). is_used sb u.blocks c) e ∙ is_used-taken sb b s free c (apart c lt),
      λ i. ap (λ (u : Fs). u.blocks b i) e ∙ taken_zero sb b s i,
      λ c ne away. ap (λ (u : Fs). u.blocks c) e ∙ taken_other sb b s c ne away,
      λ c. ap (λ (u : Fs). mem c u.logged) e ∙ mem-taken sb b c s,
    )

-- For a disk whose free map is in use: the block that `balloc` returns was free, and every block before it was in use; it is now
-- in use, all zero and logged, and no other block of the disk differs but the free map's one. `balloc` panics only if all
-- blocks are in use.
pub balloc-Allocates :
    (sb : Superblock) (s : Fs) → MapUsed sb s.blocks → Allocates sb s (balloc sb s)
unfolding balloc
balloc-Allocates sb s map =
    let k = (sb.size + bits_per_block - 1) / bits_per_block in
    Allocates-chosen sb s k _ (omega arith) map (balloc_from-Chooses sb s 0 k)
