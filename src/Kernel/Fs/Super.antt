-- ===== src/Kernel/Fs/Super.antt =====
-- kernel/fs.c: the super block.
use mits081_lab.Base.{ℕ, not, ◌==◌}
use mits081_lab.Kernel.Panic.{Run, ok, ◌>>◌, panic_if}
use mits081_lab.Kernel.Fs.Blocks.{Superblock, Fs}
use mits081_lab.Kernel.Fs.Words.{get32}

-- FSMAGIC
abbrev fsmagic : ℕ
fsmagic = 270544960

-- `readsb`, from block 1
readsb : Fs → Superblock
unfolding get32
readsb s =
    let x = s.blocks 1 in
    record {
      magic = get32 0 x;
      size = get32 4 x;
      ninodes = get32 12 x;
      inodestart = get32 24 x;
      bmapstart = get32 28 x;
    }

-- `fsinit`, up to its call of `initlog`
fsinit : Fs → Run Superblock
unfolding readsb
fsinit s = let sb = readsb s in panic_if (not (sb.magic == fsmagic)) >> ok sb
