-- ===== src/Kernel/Fs/Inode.antt =====
-- kernel/fs.c: one inode, on disk and in memory. `Locked` is an inode that the caller holds locked, with the blocks.
pub mod Dinode
pub mod Stored
pub mod Slots
pub mod Extend
pub mod Growth
pub mod Bmap
use mits081_lab.Base.{
  ℕ, zero, suc, ◌+◌, ◌-◌, ◌*◌, ◌/◌, ◌%◌, Bool, true, false, ◌==◌, ltb, if◌then◌else◌,
}
use mits081_lab.Kernel.Panic.{Run, ok, panic, ◌>>=◌, ◌>>◌, panic_if}
use mits081_lab.Kernel.Disk.{update}
use mits081_lab.Kernel.Fs.Blocks.{Contents, Superblock, Fs, log_write, balloc, bfree}
use mits081_lab.Kernel.Fs.Words.{get16, get32, put16, put32}

-- NDIRECT, NINDIRECT and MAXFILE, and IPB
abbrev pub ndirect : ℕ
ndirect = 12

abbrev pub nindirect : ℕ
nindirect = 256

abbrev pub maxfile : ℕ
maxfile = 268

abbrev pub inodes_per_block : ℕ
inodes_per_block = 16

-- IBLOCK
abbrev pub iblock : Superblock → ℕ → ℕ
iblock sb i = i / inodes_per_block + sb.inodestart

-- `struct inode`, less `dev`, `ref`, `lock` and `valid`; a short is the 16 bits that represent it.
pub record Inode : Type 0 where
  pub inum : ℕ
  pub type : ℕ
  pub major : ℕ
  pub minor : ℕ
  pub nlink : ℕ
  pub size : ℕ
  pub addrs : ℕ → ℕ

pub record Locked : Type 0 where
  pub ip : Inode
  pub fs : Fs

-- The offset of an inode in its block.
abbrev pub dinode_at : ℕ → ℕ
dinode_at i = 64 * (i % inodes_per_block)

-- The copy of `k` words of `addrs` to offset `o`.
unfoldable pub put_addrs : ℕ → (ℕ → ℕ) → ℕ → Contents → Contents
put_addrs zero addrs o x = x
put_addrs (suc k) addrs o x = put32 (o + 4 * k) (addrs k) (put_addrs k addrs o x)

-- `struct dinode` at offset `o`
unfoldable pub put_dinode : Inode → ℕ → Contents → Contents
put_dinode ip o x = put_addrs 13 ip.addrs (o + 12) (
    put32 (o + 8) ip.size (
      put16 (o + 6) ip.nlink (put16 (o + 4) ip.minor (put16 (o + 2) ip.major (put16 o ip.type x)))))

unfoldable pub get_dinode : ℕ → ℕ → Contents → Inode
get_dinode i o x = record {
  inum = i;
  type = get16 o x;
  major = get16 (o + 2) x;
  minor = get16 (o + 4) x;
  nlink = get16 (o + 6) x;
  size = get32 (o + 8) x;
  addrs = λ k. get32 (o + 12 + 4 * k) x;
}

unfoldable pub iupdate : Superblock → Inode → Fs → Fs
iupdate sb ip s =
    let b = iblock sb ip.inum in
    log_write b
      (record s { blocks = update s.blocks b (put_dinode ip (dinode_at ip.inum) (s.blocks b)) })

-- What `ilock` reads of the inode `i` that is not valid.
unfoldable pub ilock_read : Superblock → ℕ → Fs → Run Inode
ilock_read sb i s =
    let ip = get_dinode i (dinode_at i) (s.blocks (iblock sb i)) in panic_if (ip.type == 0) >> ok ip

-- `memset(dip, 0, sizeof(*dip))`
abbrev pub blank_dinode : Inode
blank_dinode = record {
  inum = 0;
  type = 0;
  major = 0;
  minor = 0;
  nlink = 0;
  size = 0;
  addrs = λ _. 0;
}

-- The loop of `ialloc`, with `k` rounds left at inode `i`.
unfoldable pub ialloc_from : Superblock → ℕ → ℕ → ℕ → Fs → Run (ℕ × Fs)
ialloc_from sb zero i type s = panic
ialloc_from sb (suc k) i type s =
    let rest = ialloc_from sb k (i + 1) type s in
    let b = iblock sb i in
    let o = dinode_at i in
    if get16 o (s.blocks b) == 0
    then ok (
      i,
      log_write b (record s {
        blocks = update s.blocks b (put16 o type (put_dinode blank_dinode o (s.blocks b)));
      }),
    )
    else rest

-- `ialloc`, up to its call of `iget`
unfoldable pub ialloc : Superblock → ℕ → Fs → Run (ℕ × Fs)
ialloc sb type s = ialloc_from sb (sb.ninodes - 1) 1 type s

-- A word of a block of block numbers.
abbrev pub entry : ℕ → Contents → ℕ
entry n x = get32 (4 * n) x

-- `bmap` in the first NDIRECT blocks, and what it does about `ip->addrs[k]` for the block of block numbers.
unfoldable pub bmap_addr : Superblock → ℕ → Locked → Run (ℕ × Locked)
bmap_addr sb k l =
    let found = ok (l.ip.addrs k, l) in
    let fresh = balloc sb l.fs >>= λ (a, t).
    ok (a, record { ip = record l.ip { addrs = update l.ip.addrs k a }; fs = t }) in
    if l.ip.addrs k == 0 then fresh else found

-- The rest of `bmap`, where `a` is the block of block numbers.
unfoldable pub bmap_entry : Superblock → ℕ → ℕ → Locked → Run (ℕ × Locked)
bmap_entry sb n a l =
    let found = ok (entry n (l.fs.blocks a), l) in
    let fresh = balloc sb l.fs >>= λ (b, t). ok (
      b,
      record l {
        fs = log_write a (record t { blocks = update t.blocks a (put32 (4 * n) b (t.blocks a)) });
      },
    ) in
    if entry n (l.fs.blocks a) == 0 then fresh else found

unfoldable pub bmap : Superblock → ℕ → Locked → Run (ℕ × Locked)
bmap sb bn l =
    if ltb bn ndirect
    then bmap_addr sb bn l
    else if ltb (bn - ndirect) nindirect
    then bmap_addr sb ndirect l >>= (λ (a, k). bmap_entry sb (bn - ndirect) a k)
    else panic

-- The loops of `itrunc`: over the direct blocks from `i` on, and over the entries of a block of block numbers `a`,
-- from `j` on.
unfoldable pub itrunc_direct : Superblock → ℕ → ℕ → Locked → Run Locked
itrunc_direct sb zero i l = ok l
itrunc_direct sb (suc k) i l =
    let drop = bfree sb (l.ip.addrs i) l.fs >>= λ t.
    ok (record { ip = record l.ip { addrs = update l.ip.addrs i 0 }; fs = t }) in
    (if l.ip.addrs i == 0 then ok l else drop) >>= λ m. itrunc_direct sb k (i + 1) m

unfoldable pub itrunc_entries : Superblock → ℕ → ℕ → ℕ → Fs → Run Fs
itrunc_entries sb zero j a s = ok s
itrunc_entries sb (suc k) j a s =
    (if entry j (s.blocks a) == 0 then ok s else bfree sb (entry j (s.blocks a)) s) >>= λ t.
    itrunc_entries sb k (j + 1) a t

-- `itrunc` in its second part, and its end
unfoldable pub itrunc_indirect : Superblock → Locked → Run Locked
itrunc_indirect sb l =
    let a = l.ip.addrs ndirect in
    let drop = itrunc_entries sb nindirect 0 a l.fs >>= λ s.
    bfree sb a s
    >>= (λ t. ok (record { ip = record l.ip { addrs = update l.ip.addrs ndirect 0 }; fs = t })) in
    if a == 0 then ok l else drop

unfoldable pub itrunc_end : Superblock → Locked → Locked
itrunc_end sb l = let ip = record l.ip { size = 0 } in record { ip = ip; fs = iupdate sb ip l.fs }

unfoldable pub itrunc : Superblock → Locked → Run Locked
itrunc sb l =
    itrunc_direct sb ndirect 0 l >>= λ m. itrunc_indirect sb m >>= (λ n. ok (itrunc_end sb n))
