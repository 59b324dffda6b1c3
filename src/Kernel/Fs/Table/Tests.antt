-- ===== src/Kernel/Fs/Table/Tests.antt =====
-- Runs on the table of inodes.
use mits081_lab.Base.{ℕ, ◌≡◌, true, false, ◌==◌, if◌then◌else◌, arith}
use mits081_lab.Kernel.Fs.Inode.{Inode}
use mits081_lab.Kernel.Fs.Table.{Itable, is_entry, iget}
use mits081_lab.Kernel.Fs.Table.Get.{Unique, Gives, iget-Gives}

abbrev blank_inode : Inode
blank_inode = record {
  inum = 0;
  type = 0;
  major = 0;
  minor = 0;
  nlink = 0;
  size = 0;
  addrs = λ _. 0;
}

-- Inode 7 of device 1 in entry 3, with two references; the other entries are free.
abbrev one_in_use : Itable
one_in_use i =
    if i == 3
    then record { dev = 1; ref = 2; valid = true; inode = record blank_inode { inum = 7 } }
    else record { dev = 0; ref = 0; valid = false; inode = blank_inode }

only_third : (d n i : ℕ) → is_entry d n (one_in_use i) ≡ true → i ≡ 3
only_third d n i h = ground (arith, h)

one_in_use-Unique : Unique one_in_use
unfolding Unique
one_in_use-Unique d n i j _ _ hi hj = omega (arith, only_third d n i hi, only_third d n j hj)

iget-Gives_example : Gives 1 7 one_in_use (iget 1 7 one_in_use)
iget-Gives_example = iget-Gives 1 7 one_in_use one_in_use-Unique
