-- ===== src/Kernel/Fs/Content/Write.antt =====
-- What writei does with bytes from the kernel's memory.
use mits081_lab.Base.{
  ℕ, zero, suc, ◌+◌, ◌-◌, ◌*◌, ◌/◌, ◌%◌, ◌≤◌, ◌<◌, ◌≡◌, inl, inr, refl, sym, ap, ◌∙◌, lt→ltb,
  dec_lt, ℕ_discrete, arith,
}
use mathlib.Core.Path.{subst}
use mits081_lab.Kernel.Panic.{Run, ok, panic, ◌>>=◌}
use mits081_lab.Kernel.Fs.Blocks.{Contents, Superblock, bsize}
use mits081_lab.Kernel.Fs.Inode.{Locked, bmap}
use mits081_lab.Kernel.Fs.Inode.Slots.{addr_of, Sound, ltb_off}
use mits081_lab.Kernel.Fs.Inode.Growth.{slot_of}
use mits081_lab.Kernel.Fs.Inode.Bmap.{Maps, bmap-Maps}
use mits081_lab.Kernel.Fs.Content.{chunk, Copied, store_data, log_data, copyin_kernel, writei_from}
use mits081_lab.Kernel.Fs.Content.Bytes.{
  Wrote, Wrote-none, Wrote-trans, Wrote-round, copied, not_copied, slot_of-bounds,
}

-- The end of the loop of `writei` at `off`: all is written up to `hi`. It panics only if the file lacks a block for a byte
-- of the range.
unfoldable pub Written : Superblock → Locked → ℕ → ℕ → (ℕ → ℕ) → ℕ → Run Copied → Type 0
Written sb l off hi f n (ok r) = (r.tot ≡ n) × (r.off ≡ hi) × Wrote sb l r.locked off hi f
Written sb l off hi f n panic =
    (p : ℕ) × ((off ≤ p) × (p < hi) × (addr_of (slot_of (p / bsize)) l.ip l.fs.blocks ≡ 0))

pub chunk-bounds :
    (left off : ℕ)
    → 0 < left
    → (0 < chunk left off) × (chunk left off ≤ left) × (off % bsize + chunk left off ≤ bsize)
chunk-bounds left off h = (omega (arith, h), omega arith, omega arith)

Written-later :
    (sb : Superblock) (l m : Locked) (off mid hi n : ℕ) (f : ℕ → ℕ)
    → off ≤ mid
    → mid ≤ hi
    → hi ≤ 268 * bsize
    → Wrote sb l m off mid f
    → (r : Run Copied) → Written sb m mid hi f n r
    → Written sb l off hi f n r
unfolding Written
Written-later sb l m off mid hi n f first second small w (ok r) (tot, end, v) =
    (tot, end, Wrote-trans sb l m r.locked off mid hi f first second w v)
Written-later sb l m off mid hi n f first second small w panic (p, (lo, below, hole)) =
    (p, (omega (arith, lo, first), below, was_hole))
  where
    was_hole : addr_of (slot_of (p / bsize)) l.ip l.fs.blocks ≡ 0
    was_hole = elim (ℕ_discrete (addr_of (slot_of (p / bsize)) l.ip l.fs.blocks) 0) [
      | yes z ↦ z
      | no nz ↦ absurd (
          w.keeps_addr (slot_of (p / bsize))
            (slot_of-bounds (p / bsize) (omega (arith, below, small))).0 nz hole)
    ]

module _ (sb : Superblock) (memory : Contents) (n : ℕ) (f : ℕ → ℕ) where
  -- The rounds after a round at `off`.
  abbrev rounds : ℕ → ℕ → ℕ → ℕ → ℕ × Locked → Run Copied
  rounds k src off tot (a, m) =
      let c = chunk (n - tot) off in
      writei_from copyin_kernel memory sb k (src + c) (off + c) (tot + c) n
        (log_data a (store_data a (copyin_kernel (m.fs.blocks a) (off % bsize) memory src c).0 m))

  writei_from_end :
      (k src off tot : ℕ) (l : Locked)
      → ¬ (tot < n)
      → writei_from copyin_kernel memory sb k src off tot n l
        ≡ ok (record { tot = tot; off = off; locked = l })
  unfolding writei_from
  writei_from_end zero src off tot l h = refl
  writei_from_end (suc k) src off tot l h = rw (ltb_off tot n h) refl

  writei_from_round :
      (k src off tot : ℕ) (l : Locked)
      → tot < n
      → writei_from copyin_kernel memory sb (suc k) src off tot n l
        ≡ (bmap sb (off / bsize) l >>= rounds k src off tot)
  unfolding writei_from copyin_kernel
  writei_from_round k src off tot l lt = rw (lt→ltb tot n lt) refl

  -- What a round and those after it need: the bytes of the range are in `memory`.
  abbrev pub Supplies : ℕ → ℕ → ℕ → Type 0
  Supplies src off hi = (p : ℕ) → off ≤ p → p < hi → f p ≡ memory (src + (p - off))

  Written-end :
      (off tot : ℕ) (l : Locked)
      → tot ≡ n
      → Sound sb l.ip l.fs.blocks
      → Written sb l off off f n (ok (record { tot = tot; off = off; locked = l }))
  unfolding Written
  Written-end off tot l e sound = (e, refl, Wrote-none sb l off f sound)

  Written-round :
      (k src off tot hi : ℕ) (l : Locked)
      → tot < n
      → hi ≡ off + (n - tot)
      → hi ≤ 268 * bsize
      → Supplies src off hi
      → ((m : Locked)
          → Sound sb m.ip m.fs.blocks
          → Written sb m (off + chunk (n - tot) off) hi f n (
              writei_from copyin_kernel memory sb k
                (src + chunk (n - tot) off)
                (off + chunk (n - tot) off)
                (tot + chunk (n - tot) off)
                n
                m))
      → (r : Run (ℕ × Locked)) → Maps sb (off / bsize) l r
      → Written sb l off hi f n (r >>= rounds k src off tot)
  unfolding Maps Written
  Written-round k src off tot hi l lt end fits new rest panic (inl beyond) =
      absurd (omega (arith, beyond, lt, end, fits))
  Written-round k src off tot hi l lt end fits new rest panic (inr (empty, _)) =
      (off, (omega arith, omega (arith, lt, end), empty))
  Written-round k src off tot hi l lt end fits new rest (ok (a, m)) (sound, keeps, at, nz) =
      let c = chunk (n - tot) off in
      let bounds = chunk-bounds (n - tot) off (omega (arith, lt)) in
      let w =
        Wrote-round sb l m a off c (copyin_kernel (m.fs.blocks a) (off % bsize) memory src c).0
          keeps sound at nz (omega (arith, lt, end, fits)) f bounds.2
          (λ i out. not_copied (m.fs.blocks a) (off % bsize) memory src c i out)
          (λ i lo up.
            copied (m.fs.blocks a) (off % bsize) memory src c i lo up
            ∙ sym (
                new (off + (i - off % bsize)) (omega arith) (omega (arith, up, end, bounds.1))
                ∙ ap (λ j. memory (src + j)) (back i))) in
      Written-later sb l _ off (off + c) hi n f (omega arith) (omega (arith, end, bounds.1)) fits w
        _ (rest _ w.sound)
    where
      back : (i : ℕ) → off + (i - off % bsize) - off ≡ i - off % bsize
      back i = omega arith

pub writei_from-Written :
    (sb : Superblock) (memory : Contents) (n : ℕ) (f : ℕ → ℕ) (k src off tot hi : ℕ) (l : Locked)
    → tot ≤ n
    → n - tot ≤ k
    → hi ≡ off + (n - tot)
    → hi ≤ 268 * bsize
    → Supplies sb memory n f src off hi
    → Sound sb l.ip l.fs.blocks
    → Written sb l off hi f n (writei_from copyin_kernel memory sb k src off tot n l)
writei_from-Written sb memory n f zero src off tot hi l le enough end fits new sound =
    rw (writei_from_end sb memory n f zero src off tot l (omega (arith, enough))) (
      subst (λ h. Written sb l off h f n (ok (record { tot = tot; off = off; locked = l })))
        (omega (arith, end, enough))
        (Written-end sb memory n f off tot l (omega (arith, le, enough)) sound))
writei_from-Written sb memory n f (suc k) src off tot hi l le enough end fits new sound =
    elim (dec_lt tot n) [
      | no full ↦ rw (writei_from_end sb memory n f (suc k) src off tot l full) (
          subst (λ h. Written sb l off h f n (ok (record { tot = tot; off = off; locked = l })))
            (omega (arith, end, full))
            (Written-end sb memory n f off tot l (omega (arith, le, full)) sound))
      | yes lt ↦ rw (writei_from_round sb memory n f k src off tot l lt) (
          Written-round sb memory n f k src off tot hi l lt end fits new
            (λ m s.
              let b = chunk-bounds (n - tot) off (omega (arith, lt)) in
              writei_from-Written sb memory n f k (src + chunk (n - tot) off)
                (off + chunk (n - tot) off) (tot + chunk (n - tot) off) hi m
                (omega (arith, b.1, le)) (omega (arith, enough, b.0)) (omega (arith, end, b.1)) fits
                (λ p lo up.
                  let same : src + chunk (n - tot) off + (p - (off + chunk (n - tot) off))
                      ≡ src + (p - off) =
                    omega (arith, lo) in
                  new p (omega (arith, lo)) up ∙ ap memory (sym same))
                s)
            (bmap sb (off / bsize) l) (bmap-Maps sb (off / bsize) l sound))
    ]
