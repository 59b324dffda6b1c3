-- ===== src/Kernel/Log.antt =====
-- kernel/log.c: the redo log of the file system. Counters of C's `int` are numbers: they stay between 0
-- and 30.
pub mod Header
pub mod States
pub mod Install
pub mod Commit
pub mod Recover
pub mod Atomic
pub mod Restart
pub mod Absorb
pub mod Reserve
mod Tests
use mits081_lab.Base.{
  ℕ, zero, suc, ◌+◌, ◌-◌, ◌*◌, Bool, true, false, ◌||◌, List, [], ◌==◌, ltb, leb, if◌then◌else◌,
  get_or, set, replicate,
}
use mits081_lab.Kernel.Panic.{Run, ok, ◌>>=◌, ◌>>◌, panic_if}
use mits081_lab.Kernel.Disk.{Block, Disk, Store, boot, bread, fill, bwrite, bpin, bunpin}

abbrev pub max_op_blocks : ℕ
max_op_blocks = 10

abbrev pub log_size : ℕ
log_size = 30

-- `struct logheader`
pub record LogHeader : Type 0 where
  pub n : ℕ
  pub block : List ℕ

-- `struct log`, without its lock and the device, of which there is one.
pub record Log : Type 0 where
  pub start : ℕ
  pub size : ℕ
  pub outstanding : ℕ
  pub committing : Bool
  pub lh : LogHeader

-- the block number that slot `i` of the header holds
abbrev pub slot : LogHeader → ℕ → ℕ
slot lh i = get_or lh.block i 0

-- `for (i = 0; i < n; i++) log.lh.block[i] = lh->block[i]`: word `i + 1` of the block is `block[i]`.
pub load_slots : ℕ → ℕ → Block → List ℕ → List ℕ
load_slots zero i b arr = arr
load_slots (suc k) i b arr = load_slots k (i + 1) b (set arr i (get_or b (i + 1) 0))

-- `for (i = 0; i < n; i++) hb->block[i] = log.lh.block[i]`
store_slots : ℕ → ℕ → List ℕ → Block → Block
store_slots zero i arr b = b
store_slots (suc k) i arr b = store_slots k (i + 1) arr (set b (i + 1) (get_or arr i 0))

pub read_head : Store → Log → Log
unfolding load_slots
read_head s l =
    let b = bread s l.start in
    let n = get_or b 0 0 in record l { lh = record { n = n; block = load_slots n 0 b l.lh.block } }

-- the header block as `write_head` fills it in
pub head_block : LogHeader → Block → Block
unfolding store_slots
head_block lh b = store_slots lh.n 0 lh.block (set b 0 lh.n)

pub write_head : Log → Store → Store
unfolding head_block bwrite
write_head l s = bwrite (fill s l.start (head_block l.lh (bread s l.start))) l.start

-- The loop of `install_trans`, with `k` rounds left at `tail`.
install_from : Bool → Log → ℕ → ℕ → Store → Store
unfolding bwrite bunpin
install_from recovering l zero tail s = s
install_from recovering l (suc k) tail s =
    let dst = slot l.lh tail in
    let s' = bwrite (fill s dst (bread s (l.start + tail + 1))) dst in
    install_from recovering l k (tail + 1) (if recovering then s' else bunpin s' dst)

pub install_trans : Bool → Log → Store → Store
unfolding install_from
install_trans recovering l s = install_from recovering l l.lh.n 0 s

-- The loop of `write_log`, with `k` rounds left at `tail`.
write_log_from : Log → ℕ → ℕ → Store → Store
unfolding bwrite
write_log_from l zero tail s = s
write_log_from l (suc k) tail s =
    let to = l.start + tail + 1 in
    write_log_from l k (tail + 1) (bwrite (fill s to (bread s (slot l.lh tail))) to)

pub write_log : Log → Store → Store
unfolding write_log_from
write_log l s = write_log_from l l.lh.n 0 s

abbrev pub clear : Log → Log
clear l = record l { lh = record (l.lh) { n = 0 } }

pub recover_from_log : Log → Store → Log × Store
unfolding read_head install_trans write_head
recover_from_log l s =
    let l' = read_head s l in
    let s' = install_trans true l' s in (clear l', write_head (clear l') s')

-- `sb->logstart` and `sb->nlog` are arguments; the rest of the log is zeroed memory at boot.
pub initlog : ℕ → ℕ → Store → Log × Store
unfolding recover_from_log
initlog logstart nlog s =
    recover_from_log
      (record {
        start = logstart;
        size = nlog;
        outstanding = 0;
        committing = false;
        lh = record { n = 0; block = replicate log_size 0 };
      })
      s

pub commit : Log → Store → Log × Store
unfolding write_log write_head install_trans
commit l s =
    if ltb 0 l.lh.n
    then (clear l, write_head (clear l) (install_trans false l (write_head l (write_log l s))))
    else (l, s)

-- The loop of `log_write` over the slots: the first slot from `i` on that holds `b`, or the end.
find_slot : LogHeader → ℕ → ℕ → ℕ → ℕ
find_slot lh b zero i = i
find_slot lh b (suc k) i = let rest = find_slot lh b k (i + 1) in if slot lh i == b then i else rest

pub log_write : ℕ → Log → Store → Run (Log × Store)
unfolding find_slot bpin
log_write b l s = do
  panic_if (leb log_size l.lh.n || leb (l.size - 1) l.lh.n)
  panic_if (ltb l.outstanding 1)
  let i = find_slot l.lh b l.lh.n 0
  let lh = record (l.lh) { block = set l.lh.block i b }
  if i == l.lh.n
      then ok (record l { lh = record lh { n = lh.n + 1 } }, bpin s b)
      else ok (record l { lh = lh }, s)

-- What one pass of `begin_op`'s loop does: sleep on the log, or take the reservation and return.
pub data Begin : Type 0 where
  asleep : Begin
  begun : Log → Begin

pub begin_op : Log → Begin
begin_op l =
    if l.committing
    then asleep
    else if ltb log_size (l.lh.n + (l.outstanding + 1) * max_op_blocks)
    then asleep
    else begun (record l { outstanding = l.outstanding + 1 })

-- The first critical section of `end_op`: `true` if this call has to commit. The call follows its own
-- `begin_op`, so `outstanding` is at least 1.
pub end_op_enter : Log → Run (Bool × Log)
end_op_enter l =
    let l' = record l { outstanding = l.outstanding - 1 } in
    panic_if l.committing
    >> (if l'.outstanding == 0 then ok (true, record l' { committing = true }) else ok (false, l'))

-- The whole of `end_op`, when no other process runs between its critical sections.
pub end_op : Log → Store → Run (Log × Store)
unfolding end_op_enter commit
end_op l s = do
  (do_commit, l') ← end_op_enter l
  let r = commit l' s
  if do_commit then ok (record (r.0) { committing = false }, r.1) else ok (l', s)
