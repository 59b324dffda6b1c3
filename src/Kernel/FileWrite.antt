-- ===== src/Kernel/FileWrite.antt =====
-- kernel/file.c: filewrite to an inode. The inode is locked and unlocked in each round; no other process writes to it between
-- the rounds. `either_copyin` is the copy from the process, a parameter that may fail.
pub mod Source
pub mod Chunks
mod Tests
use mits081_lab.Base.{
  ℕ, zero, suc, ◌+◌, ◌-◌, ◌*◌, Bool, true, false, not, Option, none, some, ◌==◌, ltb, if◌then◌else◌,
}
use mits081_lab.Kernel.Panic.{Run, ok, ◌>>=◌}
use mits081_lab.Kernel.Fs.Blocks.{Contents, Superblock}
use mits081_lab.Kernel.Fs.Inode.{Locked}
use mits081_lab.Kernel.Fs.Content.{Copied, writei}

-- `max`, where MAXOPBLOCKS is 10 and BSIZE 1024
abbrev pub max_chunk : ℕ
max_chunk = 3072

abbrev pub chunk_of : ℕ → ℕ
chunk_of left = if ltb max_chunk left then max_chunk else left

-- A round after its call of `writei`, at `i`; `rest` is the rounds after it. `none` stands for -1.
abbrev pub filewrite_round :
    ℕ → ℕ → ℕ → (ℕ → ℕ → Locked → Run Copied) → Option ℕ × Locked → Run Copied
filewrite_round i off n1 rest (none, m) = ok (record { tot = i; off = off; locked = m })
filewrite_round i off n1 rest (some r, m) =
    let next = rest (i + r) (off + r) m in
    if r == n1 then next else ok (record { tot = i; off = off + r; locked = m })

module _ {M : Type 0} (either_copyin : Contents → ℕ → M → ℕ → ℕ → Contents × Bool) (memory : M)
    (sb : Superblock) where
  -- The loop, with `k` rounds left, at `i` of `n`.
  unfoldable pub filewrite_from : ℕ → ℕ → ℕ → ℕ → ℕ → Locked → Run Copied
  filewrite_from zero addr i off n l = ok (record { tot = i; off = off; locked = l })
  filewrite_from (suc k) addr i off n l =
      let n1 = chunk_of (n - i) in
      let round =
        writei either_copyin memory sb (addr + i) off n1 l
        >>= filewrite_round i off n1 (λ i' off' m. filewrite_from k addr i' off' n m) in
      if ltb i n then round else ok (record { tot = i; off = off; locked = l })

  -- `filewrite` to an inode: what it returns, and the file's offset and inode.
  unfoldable pub filewrite_inode : ℕ → ℕ → ℕ → Locked → Run (Option ℕ × ℕ × Locked)
  filewrite_inode addr off n l =
      filewrite_from n addr 0 off n l
      >>= (λ r. ok (if r.tot == n then some n else none, r.off, r.locked))
