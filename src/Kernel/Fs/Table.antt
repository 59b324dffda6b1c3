-- ===== src/Kernel/Fs/Table.antt =====
-- kernel/fs.c: the table of inodes in memory. The table's lock and the sleep locks are left out; each function is one step.
pub mod Scan
pub mod Get
mod Tests
use mits081_lab.Base.{
  ℕ, zero, suc, ◌+◌, ◌-◌, Bool, true, false, not, ◌&&◌, Option, none, some, ◌==◌, ltb,
  if◌then◌else◌,
}
use mits081_lab.Kernel.Panic.{Run, ok, panic, ◌>>=◌, ◌>>◌, panic_if}
use mits081_lab.Kernel.Disk.{update}
use mits081_lab.Kernel.Fs.Blocks.{Superblock, Fs}
use mits081_lab.Kernel.Fs.Inode.{Inode, Locked, itrunc, iupdate, ilock_read, ialloc}

-- NINODE
abbrev pub ninode : ℕ
ninode = 50

-- `struct inode` with what is kept only in memory.
pub record Entry : Type 0 where
  pub dev : ℕ
  pub ref : ℕ
  pub valid : Bool
  pub inode : Inode

abbrev pub Itable : Type 0
Itable = ℕ → Entry

abbrev pub is_entry : ℕ → ℕ → Entry → Bool
is_entry dev inum e = ltb 0 e.ref && (e.dev == dev && (e.inode.inum == inum))

-- `if(empty == 0 && ip->ref == 0) empty = ip`
abbrev pub remember : Option ℕ → ℕ → Entry → Option ℕ
remember none i e = if e.ref == 0 then some i else none
remember (some j) i e = some j

abbrev pub ref_up : Entry → Entry
ref_up e = record e { ref = e.ref + 1 }

abbrev pub taken_entry : ℕ → ℕ → Entry → Entry
taken_entry dev inum e = record {
  dev = dev;
  ref = 1;
  valid = false;
  inode = record e.inode { inum = inum };
}

-- `iget` after its loop
abbrev pub iget_empty : ℕ → ℕ → Itable → Option ℕ → Run (ℕ × Itable)
iget_empty dev inum t none = panic
iget_empty dev inum t (some i) = ok (i, update t i (taken_entry dev inum (t i)))

-- The loop of `iget`, with `k` rounds left at entry `i`.
unfoldable pub iget_from : ℕ → ℕ → Option ℕ → ℕ → ℕ → Itable → Run (ℕ × Itable)
iget_from zero i empty dev inum t = iget_empty dev inum t empty
iget_from (suc k) i empty dev inum t =
    let rest = iget_from k (i + 1) (remember empty i (t i)) dev inum t in
    if is_entry dev inum (t i) then ok (i, update t i (ref_up (t i))) else rest

unfoldable pub iget : ℕ → ℕ → Itable → Run (ℕ × Itable)
iget dev inum t = iget_from ninode 0 none dev inum t

unfoldable pub idup : ℕ → Itable → Itable
idup i t = update t i (ref_up (t i))

-- The whole of `ialloc`
unfoldable pub ialloc_get : Superblock → ℕ → ℕ → Fs → Itable → Run (ℕ × Itable × Fs)
ialloc_get sb dev type s t =
    ialloc sb type s >>= (λ (inum, u). iget dev inum t >>= (λ (i, v). ok (i, v, u)))

unfoldable pub ilock : Superblock → ℕ → Fs → Itable → Run Itable
ilock sb i s t =
    let e = t i in
    let read =
      ilock_read sb e.inode.inum s
      >>= (λ ip. ok (update t i (record e { valid = true; inode = ip }))) in
    panic_if (ltb e.ref 1) >> (if e.valid then ok t else read)

unfoldable pub iunlock : ℕ → Itable → Run Itable
iunlock i t = panic_if (ltb (t i).ref 1) >> ok t

-- `iput` of an inode without links: its blocks and the inode on the disk become free.
unfoldable pub iput_free : Superblock → ℕ → Fs → Itable → Run (Itable × Fs)
iput_free sb i s t = itrunc sb (record { ip = (t i).inode; fs = s }) >>= (λ l.
    let ip = record l.ip { type = 0 } in
    ok (update t i (record (t i) { valid = false; inode = ip }), iupdate sb ip l.fs))

abbrev pub ref_down : ℕ → Itable → Itable
ref_down i t = update t i (record (t i) { ref = (t i).ref - 1 })

unfoldable pub iput : Superblock → ℕ → Fs → Itable → Run (Itable × Fs)
iput sb i s t =
    let e = t i in
    let freed = iput_free sb i s t in
    (if (e.ref == 1) && (e.valid && (e.inode.nlink == 0)) then freed else ok (t, s))
    >>= (λ (u, s'). ok (ref_down i u, s'))

unfoldable pub iunlockput : Superblock → ℕ → Fs → Itable → Run (Itable × Fs)
iunlockput sb i s t = iunlock i t >>= (λ u. iput sb i s u)

-- `struct stat`, and `stati`
pub record Stat : Type 0 where
  pub dev : ℕ
  pub ino : ℕ
  pub type : ℕ
  pub nlink : ℕ
  pub size : ℕ

unfoldable pub stati : Entry → Stat
stati e = record {
  dev = e.dev;
  ino = e.inode.inum;
  type = e.inode.type;
  nlink = e.inode.nlink;
  size = e.inode.size;
}
