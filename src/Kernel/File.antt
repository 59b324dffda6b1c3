-- ===== src/Kernel/File.antt =====
-- kernel/file.c: the table of open files and its reference counts. A file is named by the address of its
-- `struct file`, and 0 is the null pointer.
use mits081_lab.Base.{ℕ, zero, suc, ◌+◌, ◌-◌, Bool, Option, none, some, ◌==◌, ltb, if◌then◌else◌}
use mits081_lab.Kernel.Panic.{Run, ok, ◌>>◌, panic_if}
use mits081_lab.Kernel.Disk.{update}

pub data FileType : Type 0 where
  fd_none fd_pipe fd_inode fd_device : FileType

-- the fields of `struct file` that the functions below use, by the file's address
pub record FileTable : Type 0 where
  pub ref : ℕ → ℕ
  pub type_of : ℕ → FileType
  pub writable : ℕ → Bool

-- The loop of `filealloc`, with `k` entries left at `f`, each of `size` bytes: the entry it takes, or 0.
pub filealloc_from : ℕ → ℕ → ℕ → FileTable → ℕ × FileTable
filealloc_from size zero f t = (0, t)
filealloc_from size (suc k) f t =
    let rest = filealloc_from size k (f + size) t in
    if t.ref f == 0 then (f, record t { ref = update t.ref f 1 }) else rest

unfoldable pub filedup : ℕ → FileTable → Run FileTable
filedup f t = do panic_if (ltb (t.ref f) 1); ok (record t { ref = update t.ref f (t.ref f + 1) })

-- The type of the file whose pipe or inode `fileclose` releases, if this was the last reference.
unfoldable pub fileclose : ℕ → FileTable → Run (Option FileType × FileTable)
fileclose f t = do
  panic_if (ltb (t.ref f) 1)
  if ltb 0 (t.ref f - 1)
      then ok (none, record t { ref = update t.ref f (t.ref f - 1) })
      else ok (
        some (t.type_of f),
        record t { ref = update t.ref f 0; type_of = update t.type_of f fd_none },
      )
