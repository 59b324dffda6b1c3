-- ===== src/Kernel/Disk.antt =====
-- The disk and the buffer cache, as kernel/log.c sees them through bread and bwrite of kernel/bio.c.
-- A block is the list of its 256 32-bit words (BSIZE is 1024 bytes).
use mits081_lab.Base.{ℕ, ◌+◌, ◌-◌, List, ◌∷◌, [], ◌==◌, if◌then◌else◌}

abbrev pub Block : Type 0
Block = List ℕ

abbrev pub words_per_block : ℕ
words_per_block = 256

abbrev pub Disk : Type 0
Disk = ℕ → Block

abbrev pub update {ℓ} : {A : Type ℓ} → (ℕ → A) → ℕ → A → ℕ → A
update f p v q = if p == q then v else f q

-- `buf b` is what `bread(dev, b)` returns: the cached copy of block `b`, or the disk's block if it is
-- not cached. `pins b` is how many references `bpin` holds. `past` keeps the contents that the disk had
-- before each write, the latest first: what a loss of power could have left.
pub record Store : Type 0 where
  pub disk : Disk
  pub buf : Disk
  pub pins : ℕ → ℕ
  pub past : List Disk

-- The machine after a boot: nothing is cached.
abbrev pub boot : Disk → Store
boot d = record { disk = d; buf = d; pins = λ _. 0; past = [] }

abbrev pub bread : Store → ℕ → Block
bread s b = s.buf b

-- `memmove(b->data, x, BSIZE)`
abbrev pub fill : Store → ℕ → Block → Store
fill s b x = record s { buf = update s.buf b x }

unfoldable pub bwrite : Store → ℕ → Store
bwrite s b = record s { disk = update s.disk b (s.buf b); past = s.disk ∷ s.past }

unfoldable pub bpin : Store → ℕ → Store
bpin s b = record s { pins = update s.pins b (s.pins b + 1) }

unfoldable pub bunpin : Store → ℕ → Store
bunpin s b = record s { pins = update s.pins b (s.pins b - 1) }

-- Every content that the disk has had, the present one first.
abbrev pub disks : Store → List Disk
disks s = s.disk ∷ s.past
