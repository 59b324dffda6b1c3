-- ===== src/Kernel/FileWrite/Tests.antt =====
-- A write of four chunks to an empty file, on a disk of 64 blocks.
use mits081_lab.Base.{
  ℕ, ◌<◌, ◌≡◌, inl, inr, refl, Bool-cases, Bool, false, ◌+◌, leb, true, [], ltb, ◌==◌,
  if◌then◌else◌, arith,
}
use mits081_lab.Kernel.Fs.Blocks.{Contents, Superblock, bblock, bit}
use mits081_lab.Kernel.Fs.Blocks.Bits.{is_used}
use mits081_lab.Kernel.Fs.Blocks.Alloc.{MapUsed}
use mits081_lab.Kernel.Fs.Inode.{Inode, Locked}
use mits081_lab.Kernel.Fs.Inode.Slots.{addr_of, Owned, Sound}
use mits081_lab.Kernel.Fs.Content.{copyin_kernel}
use mits081_lab.Kernel.FileWrite.{chunk_of, filewrite_inode}
use mits081_lab.Kernel.FileWrite.Source.{Readable}
use mits081_lab.Kernel.FileWrite.Chunks.{Files, filewrite_inode-Files}

-- Block 2 has the inodes, block 3 is the free map, and blocks 4 to 63 are free.
abbrev disk_64 : Superblock
disk_64 = record { magic = 270544960; size = 64; ninodes = 16; inodestart = 2; bmapstart = 3 }

abbrev blocks_64 : ℕ → Contents
blocks_64 b i = if b == 3 then if i == 0 then 15 else 0 else 0

abbrev empty_inode : Inode
empty_inode = record {
  inum = 1;
  type = 2;
  major = 0;
  minor = 0;
  nlink = 1;
  size = 0;
  addrs = λ _. 0;
}

abbrev opened_64 : Locked
opened_64 = record { ip = empty_inode; fs = record { blocks = blocks_64; logged = [] } }

map_64 : (c : ℕ) → c < 64 → bblock disk_64 c ≡ 3
map_64 c lt = omega (arith, lt)

blocks_64-MapUsed : MapUsed disk_64 blocks_64
unfolding MapUsed is_used bit
blocks_64-MapUsed c lt = rw (map_64 c lt) refl

no_slots : (k : ℕ) → addr_of k empty_inode blocks_64 ≡ 0
unfolding addr_of
no_slots k = elim (Bool-cases (ltb k 13)) [ inl e ↦ rw (e) refl | inr e ↦ rw (e) refl ]

inodes-Owned : Owned disk_64 blocks_64 2
unfolding is_used bit
inodes-Owned = record {
  inside = omega arith;
  used = refl;
  off_map = λ c lt e. absurd (omega (arith, map_64 c lt, e));
}

boot_used_64 : is_used disk_64 blocks_64 0 ≡ true
unfolding is_used bit
boot_used_64 = refl

disk_64-Sound : Sound disk_64 empty_inode blocks_64
disk_64-Sound = record {
  fits = omega arith;
  boot_used = boot_used_64;
  map_inside = λ c lt. omega (arith, lt);
  map_used = blocks_64-MapUsed;
  owned = λ k _ ne. absurd (ne (no_slots k));
  distinct = λ j k _ _ ne. absurd (ne (no_slots j));
  inode_owned = inodes-Owned;
  inode_apart = λ k _ e. absurd (omega (arith, no_slots k, e));
}

last_chunk : chunk_of 784 ≡ 784
last_chunk = refl

-- The memory of a process whose first four pages are mapped: a copy of anything else fails.
abbrev copyin_mapped : Contents → ℕ → Contents → ℕ → ℕ → Contents × Bool
copyin_mapped x o memory src c =
    if leb (src + c) 16384 then copyin_kernel x o memory src c else (x, false)

copyin_mapped-Readable : Readable copyin_mapped (λ i. i) (λ i. i) 0 10000
unfolding Readable
copyin_mapped-Readable x o src c low high = ground (arith, high)

filewrite_inode-Files_example :
    Files disk_64
      (λ i. i)
      0
      0
      10000
      opened_64
      (filewrite_inode copyin_mapped (λ i. i) disk_64 0 0 10000 opened_64)
filewrite_inode-Files_example =
    filewrite_inode-Files copyin_mapped (λ i. i) (λ i. i) disk_64 0 0 10000 opened_64
      copyin_mapped-Readable (omega arith) (omega arith) disk_64-Sound
