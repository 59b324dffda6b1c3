-- ===== src/Kernel/Fs/Content.antt =====
-- kernel/fs.c: readi and writei. `M` is the memory outside the buffer cache; `either_copyout` and `either_copyin` of
-- kernel/proc.c copy between it and the data of a buffer, and may fail at a user address. An uint has 32 bits.
pub mod Data
pub mod Bytes
pub mod Write
pub mod Stores
pub mod Writei
pub mod Read
pub mod Readi
pub mod ReadBack
use mits081_lab.Base.{
  ℕ, zero, suc, ◌+◌, ◌-◌, ◌*◌, ◌/◌, ◌%◌, ◌^◌, Bool, true, false, not, ◌&&◌, ◌||◌, Option, none,
  some, ◌==◌, ltb, leb, min, if◌then◌else◌,
}
use mits081_lab.Kernel.Panic.{Run, ok, panic, ◌>>=◌}
use mits081_lab.Kernel.Disk.{update}
use mits081_lab.Kernel.Fs.Blocks.{Contents, Superblock, bsize, Fs, log_write}
use mits081_lab.Kernel.Fs.Inode.{Inode, Locked, maxfile, bmap, iupdate}

-- The length of the copy in a round.
abbrev pub chunk : ℕ → ℕ → ℕ
chunk left off = min left (bsize - off % bsize)

-- How the loops end: `tot`, `off`, and the inode.
pub record Copied : Type 0 where
  pub tot : ℕ
  pub off : ℕ
  pub locked : Locked

-- The data of the buffer after the copy, and log_write if the copy did not fail.
abbrev pub store_data : ℕ → Contents → Locked → Locked
store_data a x l = record l { fs = record l.fs { blocks = update l.fs.blocks a x } }

abbrev pub log_data : ℕ → Locked → Locked
log_data a l = record l { fs = log_write a l.fs }

-- A round of the loop of `writei` after its copy: `rest` is the next round.
abbrev pub writei_next : Bool → Run Copied → Run Copied → Run Copied
writei_next true rest stop = rest
writei_next false rest stop = stop

module _ {M : Type 0} (either_copyin : Contents → ℕ → M → ℕ → ℕ → Contents × Bool) (memory : M)
    (sb : Superblock) where
  -- The loop, with `k` rounds left, at `tot` of `n`.
  unfoldable pub writei_from : ℕ → ℕ → ℕ → ℕ → ℕ → Locked → Run Copied
  writei_from zero src off tot n l = ok (record { tot = tot; off = off; locked = l })
  writei_from (suc k) src off tot n l =
      let round = bmap sb (off / bsize) l >>= (λ (a, m).
        let c = chunk (n - tot) off in
        let copy = either_copyin (m.fs.blocks a) (off % bsize) memory src c in
        let stored = store_data a copy.0 m in
        writei_next copy.1 (writei_from k (src + c) (off + c) (tot + c) n (log_data a stored))
          (ok (record { tot = tot; off = off; locked = stored }))) in
      if ltb tot n then round else ok (record { tot = tot; off = off; locked = l })

  unfoldable pub writei_end : Copied → ℕ × Locked
  writei_end r =
      let ip =
        if ltb r.locked.ip.size r.off then record r.locked.ip { size = r.off } else r.locked.ip in
      (r.tot, record { ip = ip; fs = iupdate sb ip r.locked.fs })

  -- `writei`; `none` stands for -1.
  unfoldable pub writei : ℕ → ℕ → ℕ → Locked → Run (Option ℕ × Locked)
  writei src off n l =
      let written =
        writei_from n src off 0 n l >>= (λ r. ok (some (writei_end r).0, (writei_end r).1)) in
      if ltb l.ip.size off || ltb ((off + n) % 2 ^ 32) off
      then ok (none, l)
      else if ltb (maxfile * bsize) ((off + n) % 2 ^ 32)
      then ok (none, l)
      else written

abbrev pub readi_next :
    {M : Type 0}
    → Bool
    → Run (Option ℕ × M × Locked)
    → Run (Option ℕ × M × Locked)
    → Run (Option ℕ × M × Locked)
readi_next true rest stop = rest
readi_next false rest stop = stop

module _ {M : Type 0} (either_copyout : M → ℕ → Contents → ℕ → ℕ → M × Bool) (sb : Superblock) where
  -- The loop of `readi`, with `k` rounds left, at `tot` of `n`; `none` stands for -1.
  unfoldable pub readi_from : ℕ → ℕ → ℕ → ℕ → ℕ → M → Locked → Run (Option ℕ × M × Locked)
  readi_from zero dst off tot n memory l = ok (some tot, memory, l)
  readi_from (suc k) dst off tot n memory l =
      let round = bmap sb (off / bsize) l >>= (λ (a, m).
        let c = chunk (n - tot) off in
        let copy = either_copyout memory dst (m.fs.blocks a) (off % bsize) c in
        readi_next copy.1 (readi_from k (dst + c) (off + c) (tot + c) n copy.0 m)
          (ok (none, copy.0, m))) in
      if ltb tot n then round else ok (some tot, memory, l)

  unfoldable pub readi : ℕ → ℕ → ℕ → M → Locked → Run (Option ℕ × M × Locked)
  readi dst off n memory l =
      let count = if ltb l.ip.size ((off + n) % 2 ^ 32) then l.ip.size - off else n in
      let read = readi_from count dst off 0 count memory l in
      if ltb l.ip.size off || ltb ((off + n) % 2 ^ 32) off then ok (some 0, memory, l) else read

-- `either_copyin` and `either_copyout` with a kernel address: memmove.
unfoldable pub copyin_kernel : Contents → ℕ → Contents → ℕ → ℕ → Contents × Bool
copyin_kernel x o memory src c =
    ((λ i. if leb o i && ltb i (o + c) then memory (src + (i - o)) else x i), true)

unfoldable pub copyout_kernel : Contents → ℕ → Contents → ℕ → ℕ → Contents × Bool
copyout_kernel memory dst x o c =
    ((λ i. if leb dst i && ltb i (dst + c) then x (o + (i - dst)) else memory i), true)
