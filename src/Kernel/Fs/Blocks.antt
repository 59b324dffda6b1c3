-- ===== src/Kernel/Fs/Blocks.antt =====
-- kernel/fs.c: blocks and the free map. A block is the bytes at its offsets below BSIZE. What `bread` returns for a block
-- is its cached copy, which a store changes in place; brelse changes nothing. `log_write` puts the block's number into the
-- list of the transaction, unless it is there.
pub mod Bits
pub mod Writes
mod Search
mod Choice
pub mod Alloc
pub mod Free
use mits081_lab.Base.{
  ℕ, zero, suc, ◌+◌, ◌-◌, ◌*◌, ◌/◌, ◌%◌, ◌^◌, Bool, true, false, not, ◌||◌, Option, none, some,
  List, [], ◌∷◌, ◌==◌, ltb, if◌then◌else◌,
}
use mits081_lab.Kernel.Panic.{Run, ok, panic, ◌>>=◌, ◌>>◌, panic_if}
use mits081_lab.Kernel.Disk.{update}

abbrev pub Contents : Type 0
Contents = ℕ → ℕ

-- BSIZE, and BPB
abbrev pub bsize : ℕ
bsize = 1024

abbrev pub bits_per_block : ℕ
bits_per_block = 8192

-- `struct superblock`, less what fs.c does not use
pub record Superblock : Type 0 where
  pub magic : ℕ
  pub size : ℕ
  pub ninodes : ℕ
  pub inodestart : ℕ
  pub bmapstart : ℕ

-- BBLOCK
abbrev pub bblock : Superblock → ℕ → ℕ
bblock sb b = b / bits_per_block + sb.bmapstart

pub record Fs : Type 0 where
  pub blocks : ℕ → Contents
  pub logged : List ℕ

abbrev pub mem : ℕ → List ℕ → Bool
mem b [] = false
mem b (c ∷ cs) = b == c || mem b cs

unfoldable pub log_write : ℕ → Fs → Fs
log_write b s = if mem b s.logged then s else record s { logged = b ∷ s.logged }

-- A store of byte `v` at offset `i` of block `b`.
abbrev pub poke : ℕ → ℕ → ℕ → Fs → Fs
poke b i v s = record s { blocks = update s.blocks b (update (s.blocks b) i v) }

-- Bit `k` of a byte: whether `x & (1 << k)` is not 0.
unfoldable pub bit : ℕ → ℕ → ℕ
bit zero x = x % 2
bit (suc k) x = bit k (x / 2)

unfoldable pub bzero : ℕ → Fs → Fs
bzero b s = log_write b (record s { blocks = update s.blocks b (λ i. 0) })

-- The inner loop of `balloc` in the block `m` of the free map, with `k` rounds left at bit `bi`: the first free bit.
unfoldable pub balloc_in : Superblock → ℕ → ℕ → ℕ → Contents → Option ℕ
balloc_in sb zero b bi m = none
balloc_in sb (suc k) b bi m =
    let rest = balloc_in sb k b (bi + 1) m in
    if not (ltb (b + bi) sb.size)
    then none
    else if bit (bi % 8) (m (bi / 8)) == 0
    then some bi
    else rest

-- The body of that loop at a free bit, up to its return.
unfoldable pub balloc_mark : Superblock → ℕ → ℕ → Fs → Fs
balloc_mark sb b bi s =
    let a = bblock sb b in
    bzero (b + bi) (log_write a (poke a (bi / 8) (s.blocks a (bi / 8) + 2 ^ (bi % 8)) s))

-- What a round of the outer loop does about what the inner loop found; `rest` is what the rounds after it return.
abbrev pub balloc_round : Superblock → ℕ → Fs → Run (ℕ × Fs) → Option ℕ → Run (ℕ × Fs)
balloc_round sb b s rest none = rest
balloc_round sb b s rest (some bi) = ok (b + bi, balloc_mark sb b bi s)

-- The outer loop of `balloc`, with `k` rounds left at block `b`.
unfoldable pub balloc_from : Superblock → ℕ → ℕ → Fs → Run (ℕ × Fs)
balloc_from sb zero b s = panic
balloc_from sb (suc k) b s =
    let rest = balloc_from sb k (b + bits_per_block) s in
    balloc_round sb b s rest (balloc_in sb bits_per_block b 0 (s.blocks (bblock sb b)))

unfoldable pub balloc : Superblock → Fs → Run (ℕ × Fs)
balloc sb s = balloc_from sb ((sb.size + bits_per_block - 1) / bits_per_block) 0 s

unfoldable pub bfree : Superblock → ℕ → Fs → Run Fs
bfree sb b s =
    let a = bblock sb b in
    let bi = b % bits_per_block in
    let x = s.blocks a (bi / 8) in
    panic_if (bit (bi % 8) x == 0) >> ok (log_write a (poke a (bi / 8) (x - 2 ^ (bi % 8)) s))
