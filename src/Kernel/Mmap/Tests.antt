-- ===== src/Kernel/Mmap/Tests.antt =====
-- Concrete processes for mmap and munmap.
use mits081_lab.Base.{ℕ, ◌≡◌, true, false, arith, ◌==◌, if◌then◌else◌}
use mits081_lab.Kernel.File.{FileTable, fd_inode}
use mits081_lab.Kernel.Mmap.{Vma, Proc, nvma, new_vma}
use mits081_lab.Kernel.Panic.{ok}
use mits081_lab.Kernel.Mmap.{fork_vmas}
use mits081_lab.Kernel.Mmap.Fork.{AllOpen, Copied, fork_vmas-Copied}

-- one file with two references
abbrev files : FileTable
files = record {
  ref = λ f. if f == 100 then 2 else 0;
  type_of = λ f. fd_inode;
  writable = λ f. true;
}

abbrev unused : Vma
unused = record (new_vma 0 0 0 0 0 0) { valid = false }

-- a process with that file as descriptor 3, and four of its pages mapped
abbrev process : Proc
process = record {
  sz = 0x9000;
  ofile = λ fd. if fd == 3 then 100 else 0;
  vma = λ i. if i == 0 then new_vma 0x5000 0x4000 3 1 3 100 else unused;
}

only_slot : (i : ℕ) → (process.vma i).valid ≡ true → i ≡ 0
only_slot i used = ground (arith, used)

process_open : AllOpen process.vma files
process_open j used = ground (arith, only_slot j used)

nothing_mapped : ℕ → Vma
nothing_mapped i = unused

fork_vmas-Copied_example :
    (child' : ℕ → Vma) × (t' : FileTable) × (fork_vmas process.vma nvma 0 nothing_mapped files
      ≡ ok (child', t'))
    × Copied process.vma nothing_mapped nvma 0 files child' t'
fork_vmas-Copied_example = fork_vmas-Copied process.vma nvma 0 nothing_mapped files process_open
