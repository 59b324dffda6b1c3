-- ===== src/Kernel/Bio.antt =====
-- kernel/bio.c: the buffer cache. The circular list from `bcache.head` is the list of its buffers, the most recently
-- used first. A buffer that a caller has is named by its device and its block number. There is one disk: the driver does
-- not look at `dev`. The sleep lock of a buffer is left out.
pub mod View
pub mod Reads
pub mod Release
mod Tests
use mits081_lab.Base.{
  ℕ, zero, suc, ◌+◌, ◌-◌, Bool, true, false, not, ◌&&◌, Option, none, some, List, [], ◌∷◌, ◌==◌,
  if◌then◌else◌, replicate,
}
use mits081_lab.Kernel.Panic.{Run, ok, panic}
use mits081_lab.Kernel.Disk.{Block, Disk, update}

abbrev pub nbuf : ℕ
nbuf = 30

-- `struct buf`
pub record Buf : Type 0 where
  pub valid : Bool
  pub dev : ℕ
  pub blockno : ℕ
  pub refcnt : ℕ
  pub contents : Block

-- `bcache` and the disk
pub record Bcache : Type 0 where
  pub bufs : List Buf
  pub disk : Disk

abbrev pub binit : Disk → Bcache
binit d = record {
  bufs = replicate nbuf (record { valid = false; dev = 0; blockno = 0; refcnt = 0; contents = [] });
  disk = d;
}

-- `b->dev == dev && b->blockno == blockno`
unfoldable pub is_for : ℕ → ℕ → Buf → Bool
is_for dev blockno b = b.dev == dev && b.blockno == blockno

-- The buffer of a block is changed.
unfoldable pub change : ℕ → ℕ → (Buf → Buf) → List Buf → List Buf
change dev blockno f [] = []
change dev blockno f (b ∷ bs) =
    let rest = change dev blockno f bs in if is_for dev blockno b then f b ∷ bs else b ∷ rest

-- whether the first loop of `bget` finds the block
unfoldable pub is_cached : ℕ → ℕ → List Buf → Bool
is_cached dev blockno [] = false
is_cached dev blockno (b ∷ bs) =
    let rest = is_cached dev blockno bs in if is_for dev blockno b then true else rest

abbrev pub recycled : ℕ → ℕ → Buf → Buf
recycled dev blockno b = record b { dev = dev; blockno = blockno; valid = false; refcnt = 1 }

-- The second loop of `bget`, from the end of the list.
unfoldable pub recycle : ℕ → ℕ → List Buf → Option (List Buf)
recycle dev blockno [] = none
recycle dev blockno (b ∷ bs) = elim (recycle dev blockno bs) [
  | some bs' ↦ some (b ∷ bs')
  | none ↦ if b.refcnt == 0 then some (recycled dev blockno b ∷ bs) else none
]

abbrev pub retain : Buf → Buf
retain b = record b { refcnt = b.refcnt + 1 }

unfoldable pub bget : ℕ → ℕ → Bcache → Run Bcache
bget dev blockno s =
    if is_cached dev blockno s.bufs
    then ok (record s { bufs = change dev blockno retain s.bufs })
    else elim (recycle dev blockno s.bufs) [ none ↦ panic | some bs ↦ ok (record s { bufs = bs }) ]

-- `virtio_disk_rw(b, 0)`, if the buffer is not valid
abbrev pub load : Disk → Buf → Buf
load d b = if b.valid then b else record b { contents = d b.blockno; valid = true }

-- The data of the buffer that the block has.
unfoldable pub data_of : ℕ → ℕ → List Buf → Block
data_of dev blockno [] = []
data_of dev blockno (b ∷ bs) =
    let rest = data_of dev blockno bs in if is_for dev blockno b then b.contents else rest

-- `bread` after `bget`.
unfoldable pub bread_into : ℕ → ℕ → Bcache → Block × Bcache
bread_into dev blockno s =
    let bs = change dev blockno (load s.disk) s.bufs in
    (data_of dev blockno bs, record s { bufs = bs })

-- The data of the buffer that it returns.
unfoldable pub bread : ℕ → ℕ → Bcache → Run (Block × Bcache)
bread dev blockno s = elim (bget dev blockno s) [
  | ok s' ↦ ok (bread_into dev blockno s')
  | panic ↦ panic
]

-- `virtio_disk_rw(b, 1)`
unfoldable pub bwrite : ℕ → ℕ → Bcache → Bcache
bwrite dev blockno s = record s { disk = update s.disk blockno (data_of dev blockno s.bufs) }

abbrev pub unref : Buf → Buf
unref b = record b { refcnt = b.refcnt - 1 }

-- The buffer of the block, if nobody refers to it, is taken out of the list.
unfoldable pub detach : ℕ → ℕ → List Buf → Option Buf × List Buf
detach dev blockno [] = (none, [])
detach dev blockno (b ∷ bs) =
    let (found, rest) = detach dev blockno bs in
    if is_for dev blockno b
    then (if b.refcnt == 0 then (some b, bs) else (none, b ∷ bs))
    else (found, b ∷ rest)

-- It is put at the head.
abbrev pub to_front : Option Buf × List Buf → List Buf
to_front (none, bs) = bs
to_front (some b, bs) = b ∷ bs

unfoldable pub brelse : ℕ → ℕ → Bcache → Bcache
brelse dev blockno s = record s {
  bufs = to_front (detach dev blockno (change dev blockno unref s.bufs));
}

unfoldable pub bpin : ℕ → ℕ → Bcache → Bcache
bpin dev blockno s = record s { bufs = change dev blockno retain s.bufs }

unfoldable pub bunpin : ℕ → ℕ → Bcache → Bcache
bunpin dev blockno s = record s { bufs = change dev blockno unref s.bufs }
