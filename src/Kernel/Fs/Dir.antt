-- ===== src/Kernel/Fs/Dir.antt =====
-- kernel/fs.c: directories. `m` is the kernel's memory, with the name that is looked for at `name` and the local `struct dirent`
-- at `de`. A directory that the caller holds locked is `Locked`.
pub mod Entries
pub mod Round
pub mod Lookup
use mits081_lab.Base.{
  ℕ, zero, suc, ◌+◌, ◌-◌, ◌*◌, ◌/◌, Bool, true, false, not, Option, none, some, ◌==◌, ltb,
  if◌then◌else◌, ℤ, pos, negsuc,
}
use mits081_lab.Kernel.Panic.{Run, ok, panic, ◌>>=◌, ◌>>◌, panic_if}
use mits081_lab.Kernel.Strings.{Bytes, strncmp, strncpy}
use mits081_lab.Kernel.Fs.Blocks.{Contents, Superblock}
use mits081_lab.Kernel.Fs.Words.{get16, put16}
use mits081_lab.Kernel.Fs.Inode.{Inode, Locked}
use mits081_lab.Kernel.Fs.Content.{copyin_kernel, copyout_kernel, readi, writei}
use mits081_lab.Kernel.Path.{dirsiz}

-- `sizeof(struct dirent)`, and T_DIR
abbrev pub dirent_size : ℕ
dirent_size = 16

abbrev pub t_dir : ℕ
t_dir = 1

abbrev pub is_zero : ℤ → Bool
is_zero (pos n) = n == 0
is_zero (negsuc n) = false

abbrev pub is_count : Option ℕ → ℕ → Bool
is_count none n = false
is_count (some t) n = t == n

unfoldable pub namecmp : ℕ → ℕ → Bytes → ℤ
namecmp s t m = strncmp s t dirsiz m

-- What a scan of a directory returns: the inode's number and the offset of an entry, or nothing.
abbrev pub Scanned : Type 0
Scanned = Option (ℕ × ℕ) × Contents × Locked

-- A round of the loop of `dirlookup` after its call of `readi`; `rest` is the rounds after it.
abbrev pub dirlookup_round :
    ℕ → ℕ → ℕ → (Contents → Locked → Run Scanned) → Option ℕ × Contents × Locked → Run Scanned
dirlookup_round name de off rest (r, m, l) =
    let inum = get16 de m in
    let later = rest m l in
    panic_if (not (is_count r dirent_size))
    >> (if inum == 0
        then later
        else if is_zero (namecmp name (de + 2) m)
        then ok (some (inum, off), m, l)
        else later)

module _ (sb : Superblock) (name de : ℕ) where
  -- The loop, with `k` rounds left at offset `off`.
  unfoldable pub dirlookup_from : ℕ → ℕ → Contents → Locked → Run Scanned
  dirlookup_from zero off m l = ok (none, m, l)
  dirlookup_from (suc k) off m l =
      let round =
        readi copyout_kernel sb de off dirent_size m l
        >>= dirlookup_round name de off (λ m' l'. dirlookup_from k (off + dirent_size) m' l') in
      if ltb off l.ip.size then round else ok (none, m, l)

  -- `dirlookup`, up to its call of `iget`
  unfoldable pub dirlookup : Contents → Locked → Run Scanned
  dirlookup m l =
      panic_if (not (l.ip.type == t_dir))
      >> dirlookup_from ((l.ip.size + (dirent_size - 1)) / dirent_size) 0 m l

  -- The loop of `dirlink`: the offset of an empty entry, or of the end.
  abbrev pub empty_round :
      ℕ
      → (Contents → Locked → Run (ℕ × Contents × Locked))
      → Option ℕ × Contents × Locked
      → Run (ℕ × Contents × Locked)
  empty_round off rest (r, m, l) =
      let later = rest m l in
      panic_if (not (is_count r dirent_size)) >> (if get16 de m == 0 then ok (off, m, l) else later)

  unfoldable pub empty_from : ℕ → ℕ → Contents → Locked → Run (ℕ × Contents × Locked)
  empty_from zero off m l = ok (off, m, l)
  empty_from (suc k) off m l =
      let round =
        readi copyout_kernel sb de off dirent_size m l
        >>= empty_round off (λ m' l'. empty_from k (off + dirent_size) m' l') in
      if ltb off l.ip.size then round else ok (off, m, l)

  -- `dirlink` after its loop
  unfoldable pub dirlink_write : ℕ → ℕ × Contents × Locked → Run (Bool × Contents × Locked)
  dirlink_write inum (off, m, l) =
      let m' = put16 de inum (strncpy (de + 2) name dirsiz m) in
      writei copyin_kernel m' sb de off dirent_size l
      >>= (λ (r, l'). panic_if (not (is_count r dirent_size)) >> ok (true, m', l'))

  -- `dirlink`; `false` stands for -1. The reference that dirlookup takes by `iget` and `iput` gives back is left out.
  unfoldable pub dirlink_after : ℕ → Scanned → Run (Bool × Contents × Locked)
  dirlink_after inum (some _, m, l) = ok (false, m, l)
  dirlink_after inum (none, m, l) =
      empty_from ((l.ip.size + (dirent_size - 1)) / dirent_size) 0 m l >>= dirlink_write inum

  unfoldable pub dirlink : ℕ → Contents → Locked → Run (Bool × Contents × Locked)
  dirlink inum m l = dirlookup m l >>= dirlink_after inum
