-- ===== src/Kernel/Bio/Reads.antt =====
-- bread and brelse: what they make of the blocks that a device holds.
use mits081_lab.Base.{
  ℕ, ◌≡◌, ◌≢◌, inl, inr, refl, ◌∙◌, ap, true, false, Bool-cases, Option-cases, none, some, List, [],
  ◌∷◌, ◌==◌, ==_iff, ==_ne, arith,
}
use mits081_lab.Kernel.Panic.{Run, ok, panic}
use mits081_lab.Kernel.Disk.{Block, Disk}
use mits081_lab.Kernel.Bio.{
  Buf, Bcache, is_for, change, is_cached, recycled, recycle, retain, bget, load, data_of,
  bread_into, bread,
}
use mits081_lab.Kernel.Bio.View.{
  content, view, Distinct, Clean, IsClean, is_for_iff, is_for-kept, Keeps, view-change,
  is_cached-change, Distinct-change, Clean-change, Recycled, first, further, recycle-Recycled,
  view-Recycled, Distinct-Recycled, Clean-Recycled,
}

-- The cache is consistent for the device.
pub record Consistent (dev : ℕ) (s : Bcache) : Type 0 where
  pub distinct : Distinct dev s.bufs
  pub clean : Clean dev s.disk s.bufs

retain-Keeps : (d : Disk) → Keeps d retain
retain-Keeps d = record { dev = λ b. refl; blockno = λ b. refl; content = λ b. refl }

load-Keeps : (d : Disk) → Keeps d (load d)
load-Keeps d = record {
  dev = λ b. ground arith;
  blockno = λ b. ground arith;
  content = λ b. ground arith;
}

retain-IsClean : (dev : ℕ) (d : Disk) (b : Buf) → IsClean dev d b → IsClean dev d (retain b)
unfolding IsClean
retain-IsClean dev d b h same none_refers valid = absurd (omega (arith, none_refers))

load-IsClean : (dev : ℕ) (d : Disk) (b : Buf) → IsClean dev d b → IsClean dev d (load d b)
unfolding IsClean
load-IsClean dev d b h = elim (Bool-cases b.valid) [
  | inl v ↦ rw v (λ same none_refers _. h same none_refers v)
  | inr v ↦ rw v (λ same none_refers valid. refl)
]

-- A cache before and after: the same blocks, on the same disk.
pub record Same (dev : ℕ) (s s' : Bcache) : Type 0 where
  pub view : (m : ℕ) → view dev s'.disk s'.bufs m ≡ view dev s.disk s.bufs m
  pub disk : s'.disk ≡ s.disk
  pub consistent : Consistent dev s'

bget_hit :
    (dev n : ℕ) (s : Bcache)
    → Consistent dev s
    → Same dev s (record s { bufs = change dev n retain s.bufs })
bget_hit dev n s c = record {
  view = view-change dev n s.disk retain (retain-Keeps s.disk) s.bufs;
  disk = refl;
  consistent = record {
    distinct = Distinct-change dev n s.disk retain (retain-Keeps s.disk) s.bufs c.distinct;
    clean =
        Clean-change dev n s.disk retain (retain-Keeps s.disk) (retain-IsClean dev s.disk) s.bufs
          c.clean;
  };
}

bget_miss :
    (dev n : ℕ) (s : Bcache) {bs : List Buf}
    → is_cached dev n s.bufs ≡ false
    → recycle dev n s.bufs ≡ some bs
    → Consistent dev s
    → Same dev s (record s { bufs = bs })
bget_miss dev n s e r c =
    let h = recycle-Recycled dev n s.bufs r in
    record {
      view = view-Recycled dev n s.disk h e c.distinct c.clean;
      disk = refl;
      consistent = record {
        distinct = Distinct-Recycled dev n h e c.distinct;
        clean = Clean-Recycled dev n s.disk h c.clean;
      };
    }

is_for-recycled_self : (dev n : ℕ) (b : Buf) → is_for dev n (recycled dev n b) ≡ true
unfolding is_for
is_for-recycled_self dev n b = rw ((==_iff dev dev).1 refl, (==_iff n n).1 refl) refl

cached_Recycled :
    (dev n : ℕ) {bs bs' : List Buf} → Recycled dev n bs bs' → is_cached dev n bs' ≡ true
unfolding is_cached
cached_Recycled dev n (first {b = b} free) = rw (is_for-recycled_self dev n b) refl
cached_Recycled dev n (further {b = b} h) = ground (arith, cached_Recycled dev n h)

load_contents : (d : Disk) (b : Buf) → (load d b).contents ≡ content d b.blockno b
load_contents d b = ground arith

-- What `bread` returns once the block has a buffer.
data_of-load :
    (dev n : ℕ) (d : Disk) (bs : List Buf)
    → is_cached dev n bs ≡ true
    → data_of dev n (change dev n (load d) bs) ≡ view dev d bs n
unfolding data_of change view is_cached
data_of-load dev n d [] e = grind (arith, e)
data_of-load dev n d (b ∷ bs) e = elim (Bool-cases (is_for dev n b)) [
  | inl g ↦
      rw (g, is_for-kept dev n d (load d) (load-Keeps d) n b, g)
        (load_contents d b ∙ ap (λ m. content d m b) ((is_for_iff dev n b).0 g).1)
  | inr g ↦ rw (g, g) (data_of-load dev n d bs (rw g at e))
]

-- Somebody refers to every buffer.
unfoldable pub Busy : List Buf → Type 0
Busy [] = Unit
Busy (b ∷ bs) = (b.refcnt ≢ 0) × Busy bs

recycle-Busy : (dev n : ℕ) (bs : List Buf) → recycle dev n bs ≡ none → Busy bs
unfolding recycle Busy
recycle-Busy dev n [] e = tt
recycle-Busy dev n (b ∷ bs) e = elim (Option-cases (recycle dev n bs)) [
  | inl none_further ↦ elim (Bool-cases (b.refcnt == 0)) [
    | inl free ↦ grind (arith, (rw (none_further, free) at e))
    | inr kept ↦ (==_ne _ _ kept, recycle-Busy dev n bs none_further)
  ]
  | inr (bs', found) ↦ grind (arith, (rw found at e))
]

-- `bget` panics if every buffer is busy, and none has the block; otherwise it returns with a buffer for it.
data Got (dev n : ℕ) (s : Bcache) : Run Bcache → Type 0 where
  full : is_cached dev n s.bufs ≡ false → Busy s.bufs → Got dev n s panic
  got : {s' : Bcache} → Same dev s s' → is_cached dev n s'.bufs ≡ true → Got dev n s (ok s')

bget-Got : (dev n : ℕ) (s : Bcache) → Consistent dev s → Got dev n s (bget dev n s)
unfolding bget
bget-Got dev n s c = elim (Bool-cases (is_cached dev n s.bufs)) [
  | inl hit ↦ rw hit (
      got (bget_hit dev n s c)
        (is_cached-change dev n s.disk retain (retain-Keeps s.disk) s.bufs n ∙ hit))
  | inr miss ↦ elim (Option-cases (recycle dev n s.bufs)) [
    | inl none_free ↦ rw (miss, none_free) (full miss (recycle-Busy dev n s.bufs none_free))
    | inr (bs, found) ↦
        rw (miss, found)
          (got (bget_miss dev n s miss found c)
            (cached_Recycled dev n (recycle-Recycled dev n s.bufs found)))
  ]
]

-- What `bread` of block `n` returns.
pub data Reads (dev n : ℕ) (s : Bcache) : Run (Block × Bcache) → Type 0 where
  full : is_cached dev n s.bufs ≡ false → Busy s.bufs → Reads dev n s panic
  returns :
      {s' : Bcache}
      → Same dev s s'
      → is_cached dev n s'.bufs ≡ true
      → Reads dev n s (ok (view dev s.disk s.bufs n, s'))

bread_into-Reads :
    (dev n : ℕ) (s : Bcache) {s' : Bcache}
    → Same dev s s'
    → is_cached dev n s'.bufs ≡ true
    → Reads dev n s (ok (bread_into dev n s'))
unfolding bread_into
bread_into-Reads dev n s {s' = s'} h e =
    let k = load-Keeps s'.disk in
    rw (data_of-load dev n s'.disk s'.bufs e ∙ h.view n) (
      returns
        (record {
          view = λ m. view-change dev n s'.disk (load s'.disk) k s'.bufs m ∙ h.view m;
          disk = h.disk;
          consistent = record {
            distinct = Distinct-change dev n s'.disk (load s'.disk) k s'.bufs h.consistent.distinct;
            clean =
                Clean-change dev n s'.disk (load s'.disk) k (load-IsClean dev s'.disk) s'.bufs
                  h.consistent.clean;
          };
        })
        (is_cached-change dev n s'.disk (load s'.disk) k s'.bufs n ∙ e))

-- On a consistent cache, `bread` returns the cached copy of the block, or the disk's block if it is not cached; it changes
-- neither what any block of the device is nor the disk, and leaves the cache consistent with a buffer
-- for the block. It panics only if the block is not cached and somebody refers to every buffer.
pub bread-Reads : (dev n : ℕ) (s : Bcache) → Consistent dev s → Reads dev n s (bread dev n s)
unfolding bread
bread-Reads dev n s c = after (bget-Got dev n s c)
  where
    after :
        {r : Run Bcache}
        → Got dev n s r
        → Reads dev n s (elim r [ ok s' ↦ ok (bread_into dev n s') | panic ↦ panic ])
    after (full miss busy) = full miss busy
    after (got h e) = bread_into-Reads dev n s h e
