-- ===== src/Kernel/Bio/Tests.antt =====
-- Two blocks in the cache.
use mits081_lab.Base.{◌≡◌, refl, inl, true, [], ◌∷◌}
use mits081_lab.Kernel.Panic.{ok}
use mits081_lab.Kernel.Disk.{Disk}
use mits081_lab.Kernel.Bio.{
  Bcache, bread, brelse, bread_into, bget, is_cached, is_for, recycle, change, data_of,
}
use mits081_lab.Kernel.Bio.View.{Distinct, Clean, IsClean, view}
use mits081_lab.Kernel.Bio.Reads.{Consistent, Same, Reads, bread-Reads}
use mits081_lab.Kernel.Bio.Release.{Settled, brelse-Same}

-- Every block of the disk holds its own number.
abbrev numbered : Disk
numbered n = n ∷ []

-- Block 7 is in use, and block 8 is not.
abbrev two : Bcache
two = record {
  bufs =
      record { valid = true; dev = 1; blockno = 7; refcnt = 1; contents = 7 ∷ [] }
      ∷ (record { valid = true; dev = 1; blockno = 8; refcnt = 0; contents = 8 ∷ [] } ∷ []);
  disk = numbered;
}

two-Consistent : Consistent 1 two
unfolding Distinct Clean IsClean is_cached is_for
two-Consistent = record {
  distinct = (λ _. refl, (λ _. refl, tt));
  clean = (λ _ _ _. refl, (λ _ _ _. refl, tt));
}

-- A third block takes the place of block 8.
evicts :
    bread 1 9 two
    ≡ ok (
      9 ∷ [],
      record two {
        bufs =
            record { valid = true; dev = 1; blockno = 7; refcnt = 1; contents = 7 ∷ [] }
            ∷ (record { valid = true; dev = 1; blockno = 9; refcnt = 1; contents = 9 ∷ [] } ∷ []);
      },
    )
unfolding bread bget is_cached is_for recycle bread_into change data_of
evicts = refl

bread-Reads_example : Reads 1 9 two (bread 1 9 two)
bread-Reads_example = bread-Reads 1 9 two two-Consistent

two-Settled : Settled 1 7 numbered two.bufs
unfolding Settled view is_for
two-Settled = inl refl

brelse-Same_example : Same 1 two (brelse 1 7 two)
brelse-Same_example = brelse-Same 1 7 two two-Consistent two-Settled
