-- ===== src/Kernel/Fs/Tests.antt =====
-- Runs of the file system's code on a disk of eight blocks, and the properties at such a disk.
use mits081_lab.Base.{
  ℕ, ◌+◌, ◌<◌, ◌≡◌, inl, inr, refl, true, Option, some, [], ◌∷◌, Bool-cases, ltb, ◌==◌,
  if◌then◌else◌, arith, ==_false, ==_iff, ℕ_discrete, ◌∙◌, ◌⊎◌, ◌≢◌, sym, ap,
}
use mits081_lab.Kernel.Panic.{Run, ok, panic}
use mits081_lab.Kernel.Disk.{update}
use mits081_lab.Kernel.Fs.Blocks.{
  Contents, Superblock, Fs, bblock, balloc, balloc_from, balloc_in, bit, balloc_mark, bzero,
  log_write,
}
use mits081_lab.Kernel.Fs.Blocks.Bits.{is_used}
use mits081_lab.Kernel.Fs.Blocks.Alloc.{MapUsed, Allocates, balloc-Allocates}
use mits081_lab.Kernel.Fs.Inode.{Inode, Locked}
use mits081_lab.Kernel.Fs.Inode.Slots.{addr_of, Owned, Sound}
use mits081_lab.Kernel.Fs.Blocks.Free.{bfree-balloc}
use mits081_lab.Kernel.Fs.Blocks.{bfree}
use mits081_lab.Kernel.Fs.Inode.{iupdate, ilock_read, bmap, bmap_addr}
use mits081_lab.Kernel.Fs.Inode.Dinode.{Fits}
use mits081_lab.Kernel.Fs.Inode.Stored.{Loads, ilock_read-iupdate}
use mits081_lab.Kernel.Fs.Inode.Bmap.{Maps, bmap-Maps}
use mits081_lab.Kernel.Fs.Content.{
  copyin_kernel, copyout_kernel, writei, writei_from, writei_end, readi,
}
use mits081_lab.Kernel.Fs.Dir.{dirlookup}
use mits081_lab.Kernel.Fs.Dir.Round.{Looks, Whole}
use mits081_lab.Kernel.Fs.Dir.Lookup.{dirlookup-Looks}
use mits081_lab.Kernel.Fs.Content.Writei.{Writes, writei-Writes}
use mits081_lab.Kernel.Fs.Content.ReadBack.{ReadsBack, readi-writei}

-- Block 2 has the inodes, block 3 is the free map, and blocks 4 to 7 are free.
abbrev small_disk : Superblock
small_disk = record { magic = 270544960; size = 8; ninodes = 16; inodestart = 2; bmapstart = 3 }

abbrev small_blocks : ℕ → Contents
small_blocks b i = if b == 3 then if i == 0 then 15 else 0 else 0

abbrev small_fs : Fs
small_fs = record { blocks = small_blocks; logged = [] }

abbrev empty_file : Inode
empty_file = record {
  inum = 1;
  type = 2;
  major = 0;
  minor = 0;
  nlink = 1;
  size = 0;
  addrs = λ _. 0;
}

abbrev taken_fs : Fs
taken_fs = record {
  blocks = update (update small_blocks 3 (update (small_blocks 3) 0 31)) 4 (λ i. 0);
  logged = 4 ∷ (3 ∷ []);
}

small_map : (c : ℕ) → c < 8 → bblock small_disk c ≡ 3
small_map c lt = omega (arith, lt)

small-MapUsed : MapUsed small_disk small_blocks
unfolding MapUsed is_used bit
small-MapUsed c lt = rw (small_map c lt) refl

small_empty : (k : ℕ) → addr_of k empty_file small_blocks ≡ 0
unfolding addr_of
small_empty k = elim (Bool-cases (ltb k 13)) [ inl e ↦ rw e refl | inr e ↦ rw e refl ]

inode_block-Owned : Owned small_disk small_blocks 2
unfolding is_used bit
inode_block-Owned = record {
  inside = omega arith;
  used = refl;
  off_map = λ c lt e. absurd (omega (arith, small_map c lt, e));
}

boot_block_used : is_used small_disk small_blocks 0 ≡ true
unfolding is_used bit
boot_block_used = refl

small-Sound : Sound small_disk empty_file small_blocks
small-Sound = record {
  fits = omega arith;
  boot_used = boot_block_used;
  map_inside = λ c lt. omega (arith, lt);
  map_used = small-MapUsed;
  owned = λ k _ ne. absurd (ne (small_empty k));
  distinct = λ j k _ _ ne. absurd (ne (small_empty j));
  inode_owned = inode_block-Owned;
  inode_apart = λ k _ e. absurd (omega (arith, small_empty k, e));
}

balloc_runs : balloc small_disk small_fs ≡ ok (4, taken_fs)
unfolding balloc balloc_from balloc_in bit balloc_mark bzero log_write
balloc_runs = refl

abbrev opened : Locked
opened = record { ip = empty_file; fs = small_fs }

-- The bytes 5, 6, 7, ... in the kernel's memory.
abbrev some_bytes : Contents
some_bytes i = i + 5

balloc-Allocates_example : Allocates small_disk small_fs (balloc small_disk small_fs)
balloc-Allocates_example = balloc-Allocates small_disk small_fs small-MapUsed

bfree-balloc_example :
    (u : Fs) × ((bfree small_disk 4 taken_fs ≡ ok u)
      × ((c : ℕ) → c < 8 → is_used small_disk u.blocks c ≡ is_used small_disk small_blocks c))
bfree-balloc_example = bfree-balloc small_disk small_fs small-MapUsed balloc_runs

empty_file-Fits : Fits empty_file
unfolding Fits
empty_file-Fits =
    (omega arith, omega arith, omega arith, omega arith, omega arith, λ k _. omega arith)

ilock_read-iupdate_example :
    Loads empty_file (ilock_read small_disk 1 (iupdate small_disk empty_file small_fs))
ilock_read-iupdate_example = ilock_read-iupdate small_disk empty_file small_fs 1 empty_file-Fits

bmap-Maps_example : Maps small_disk 20 opened (bmap small_disk 20 opened)
bmap-Maps_example = bmap-Maps small_disk 20 opened small-Sound

writei-Writes_example :
    Writes small_disk some_bytes 0 0 3 opened
      (writei copyin_kernel some_bytes small_disk 0 0 3 opened)
writei-Writes_example =
    writei-Writes small_disk some_bytes 0 0 3 opened (omega arith) (omega arith) small-Sound

abbrev file_of : Run (Option ℕ × Locked) → Locked
file_of (ok (_, m)) = m
file_of panic = opened

abbrev written_file : Locked
written_file = file_of (writei copyin_kernel some_bytes small_disk 0 0 3 opened)

writei_runs : writei copyin_kernel some_bytes small_disk 0 0 3 opened ≡ ok (some 3, written_file)
unfolding writei writei_from writei_end bmap bmap_addr balloc balloc_from balloc_in bit
    copyin_kernel
writei_runs = refl

readi-writei_example :
    ReadsBack some_bytes 0 100 3 (readi copyout_kernel small_disk 100 0 3 (λ _. 0) written_file)
readi-writei_example =
    readi-writei small_disk some_bytes (λ _. 0) 0 100 0 3 opened (omega arith) (omega arith)
      (omega arith) small-Sound writei_runs

-- A directory with two entries: `.`, which is inode 1, and `a`, which is inode 5. Its block is block 4.
abbrev dir_bytes : Contents
dir_bytes i =
    if i == 0 then 1 else if i == 2 then 46 else if i == 16 then 5 else if i == 18 then 97 else 0

abbrev dir_blocks : ℕ → Contents
dir_blocks b =
    if b == 4 then dir_bytes else if b == 3 then (λ i. if i == 0 then 31 else 0) else (λ _. 0)

abbrev dir_inode : Inode
dir_inode = record {
  inum = 1;
  type = 1;
  major = 0;
  minor = 0;
  nlink = 1;
  size = 32;
  addrs = λ k. if k == 0 then 4 else 0;
}

abbrev dir_opened : Locked
dir_opened = record { ip = dir_inode; fs = record { blocks = dir_blocks; logged = [] } }

dir_slots : (k : ℕ) → addr_of k dir_inode dir_blocks ≡ (if k == 0 then 4 else 0)
unfolding addr_of
dir_slots k = elim (Bool-cases (ltb k 13)) [
  | inl e ↦ rw (e) refl
  | inr e ↦ rw (e) (ground (arith, e))
]

dir_slot_zero : (k : ℕ) → addr_of k dir_inode dir_blocks ≢ 0 → k ≡ 0
dir_slot_zero k ne = elim (ℕ_discrete k 0) [
  | yes z ↦ z
  | no nz ↦ absurd (ne (dir_slots k ∙ ap (λ t. if t then 4 else 0) (==_false k 0 nz)))
]

dir-MapUsed : MapUsed small_disk dir_blocks
unfolding MapUsed is_used bit
dir-MapUsed c lt = rw (small_map c lt) refl

dir_block-Owned : (b : ℕ) → (b ≡ 2) ⊎ (b ≡ 4) → Owned small_disk dir_blocks b
unfolding is_used bit
dir_block-Owned b (inl e) = record {
  inside = omega (arith, e);
  used = rw (e) refl;
  off_map = λ c lt f. absurd (omega (arith, small_map c lt, e, f));
}
dir_block-Owned b (inr e) = record {
  inside = omega (arith, e);
  used = rw (e) refl;
  off_map = λ c lt f. absurd (omega (arith, small_map c lt, e, f));
}

dir_boot_used : is_used small_disk dir_blocks 0 ≡ true
unfolding is_used bit
dir_boot_used = refl

dir_addr : (k : ℕ) → addr_of k dir_inode dir_blocks ≢ 0 → addr_of k dir_inode dir_blocks ≡ 4
dir_addr k ne = dir_slots k ∙ ap (λ t. if t then 4 else 0) ((==_iff k 0).1 (dir_slot_zero k ne))

dir_off_inode : (k : ℕ) → addr_of k dir_inode dir_blocks ≢ 2
dir_off_inode k e = elim (ℕ_discrete (addr_of k dir_inode dir_blocks) 0) [
  | yes z ↦ omega (arith, z, e)
  | no nz ↦ omega (arith, dir_addr k nz, e)
]

dir-Sound : Sound small_disk dir_inode dir_blocks
dir-Sound = record {
  fits = omega arith;
  boot_used = dir_boot_used;
  map_inside = λ c lt. omega (arith, lt);
  map_used = dir-MapUsed;
  owned = λ k _ ne. dir_block-Owned (addr_of k dir_inode dir_blocks) (inr (dir_addr k ne));
  distinct = λ j k _ _ ne e. dir_slot_zero j ne ∙ sym (dir_slot_zero k (λ z. ne (e ∙ z)));
  inode_owned = dir_block-Owned 2 (inl refl);
  inode_apart = λ k _. dir_off_inode k;
}

dir-Whole : Whole dir_opened
unfolding Whole
dir-Whole = (omega arith, omega arith)

-- The name `a`, at address 100
abbrev name_memory : Contents
name_memory i = if i == 100 then 97 else 0

dirlookup-Looks_example :
    Looks small_disk 100 name_memory dir_opened 0
      (dirlookup small_disk 100 200 name_memory dir_opened)
dirlookup-Looks_example =
    dirlookup-Looks small_disk 100 200 name_memory dir_opened refl dir-Whole dir-Sound
      (inr (omega arith))
