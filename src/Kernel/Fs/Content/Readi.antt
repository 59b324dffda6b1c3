-- ===== src/Kernel/Fs/Content/Readi.antt =====
-- What readi does with a destination in the kernel's memory.
use mits081_lab.Base.{
  ℕ, zero, suc, ◌+◌, ◌-◌, ◌*◌, ◌/◌, ◌%◌, ◌^◌, ◌≤◌, ◌<◌, ◌≡◌, inl, inr, refl, sym, ap, ◌∙◌, true,
  false, ◌||◌, Option, none, some, ltb, leb, lt→ltb, if◌then◌else◌, dec_lt, ℕ_discrete, min, arith,
}
use mathlib.Core.Path.{subst}
use mits081_lab.Kernel.Panic.{Run, ok, panic, ◌>>=◌}
use mits081_lab.Kernel.Fs.Blocks.{Contents, Superblock, bsize}
use mits081_lab.Kernel.Fs.Inode.{Locked, bmap, maxfile}
use mits081_lab.Kernel.Fs.Inode.Slots.{addr_of, Sound, ltb_off}
use mits081_lab.Kernel.Fs.Inode.Growth.{slot_of}
use mits081_lab.Kernel.Fs.Inode.Bmap.{Maps, bmap-Maps}
use mits081_lab.Kernel.Fs.Content.{chunk, copyout_kernel, readi_from, readi}
use mits081_lab.Kernel.Fs.Content.Bytes.{slot_of-bounds}
use mits081_lab.Kernel.Fs.Content.Write.{chunk-bounds}
use mits081_lab.Kernel.Fs.Content.Read.{Copies, Copies-none, Copies-trans, Copies-round}

-- What the loop of `readi` returns at `dst` and `off` with `c` bytes left. It panics only if the file lacks a block for a
-- byte of the range.
unfoldable pub Read :
    Superblock → Locked → Contents → ℕ → ℕ → ℕ → ℕ → Run (Option ℕ × Contents × Locked) → Type 0
Read sb l m dst off c n (ok (some t, mem, k)) = (t ≡ n) × Copies sb l k m mem dst off c
Read sb l m dst off c n (ok (none, mem, k)) = ⊥
Read sb l m dst off c n panic =
    (p : ℕ) × ((off ≤ p) × (p < off + c) × (addr_of (slot_of (p / bsize)) l.ip l.fs.blocks ≡ 0))

Read-later :
    (sb : Superblock) (l k : Locked) (m mem : Contents) (dst off c d n : ℕ)
    → off + c + d ≤ 268 * bsize
    → Copies sb l k m mem dst off c
    → (r : Run (Option ℕ × Contents × Locked)) → Read sb k mem (dst + c) (off + c) d n r
    → Read sb l m dst off (c + d) n r
unfolding Read
Read-later sb l k m mem dst off c d n small v (ok (some t, mem2, j)) (e, w) =
    (e, Copies-trans sb l k j m mem mem2 dst off c d small v w)
Read-later sb l k m mem dst off c d n small v (ok (none, mem2, j)) never = never
Read-later sb l k m mem dst off c d n small v panic (p, (lo, below, hole)) =
    (p, (omega (arith, lo), omega (arith, below), was_hole))
  where
    was_hole : addr_of (slot_of (p / bsize)) l.ip l.fs.blocks ≡ 0
    was_hole = elim (ℕ_discrete (addr_of (slot_of (p / bsize)) l.ip l.fs.blocks) 0) [
      | yes z ↦ z
      | no nz ↦ absurd (
          nz (
            sym (
              v.keeps.same_addr (slot_of (p / bsize))
                (slot_of-bounds (p / bsize) (omega (arith, below, small))).0 nz)
            ∙ hole))
    ]

module _ (sb : Superblock) (n : ℕ) where
  abbrev rounds : ℕ → ℕ → ℕ → ℕ → Contents → ℕ × Locked → Run (Option ℕ × Contents × Locked)
  rounds k dst off tot m (a, l) =
      let c = chunk (n - tot) off in
      readi_from copyout_kernel sb k (dst + c) (off + c) (tot + c) n
        (copyout_kernel m dst (l.fs.blocks a) (off % bsize) c).0 l

  readi_from_end :
      (k dst off tot : ℕ) (m : Contents) (l : Locked)
      → ¬ (tot < n)
      → readi_from copyout_kernel sb k dst off tot n m l ≡ ok (some tot, m, l)
  unfolding readi_from
  readi_from_end zero dst off tot m l h = refl
  readi_from_end (suc k) dst off tot m l h = rw (ltb_off tot n h) refl

  readi_from_round :
      (k dst off tot : ℕ) (m : Contents) (l : Locked)
      → tot < n
      → readi_from copyout_kernel sb (suc k) dst off tot n m l
        ≡ (bmap sb (off / bsize) l >>= rounds k dst off tot m)
  unfolding readi_from copyout_kernel
  readi_from_round k dst off tot m l lt = rw (lt→ltb tot n lt) refl

  Read-end :
      (k dst off tot : ℕ) (m : Contents) (l : Locked)
      → ¬ (tot < n)
      → tot ≤ n
      → Sound sb l.ip l.fs.blocks
      → Read sb l m dst off (n - tot) n (readi_from copyout_kernel sb k dst off tot n m l)
  unfolding Read
  Read-end k dst off tot m l h le sound =
      let nothing : 0 ≡ n - tot = omega (arith, h, le) in
      rw (readi_from_end k dst off tot m l h) (
        omega (arith, h, le),
        subst (Copies sb l l m m dst off) nothing (Copies-none sb l m dst off sound),
      )

  Read-round :
      (k dst off tot : ℕ) (m : Contents) (l : Locked)
      → tot < n
      → off + (n - tot) ≤ 268 * bsize
      → ((mem : Contents) (j : Locked)
          → Sound sb j.ip j.fs.blocks
          → Read sb j mem
              (dst + chunk (n - tot) off)
              (off + chunk (n - tot) off)
              (n - (tot + chunk (n - tot) off))
              n
              (readi_from copyout_kernel sb k
                (dst + chunk (n - tot) off)
                (off + chunk (n - tot) off)
                (tot + chunk (n - tot) off)
                n
                mem
                j))
      → (r : Run (ℕ × Locked)) → Maps sb (off / bsize) l r
      → Read sb l m dst off (n - tot) n (r >>= rounds k dst off tot m)
  unfolding Maps Read
  Read-round k dst off tot m l lt small rest panic (inl beyond) =
      absurd (omega (arith, beyond, lt, small))
  Read-round k dst off tot m l lt small rest panic (inr (empty, _)) =
      (off, (omega arith, omega (arith, lt), empty))
  Read-round k dst off tot m l lt small rest (ok (a, j)) (sound, keeps, at, nz) =
      let c = chunk (n - tot) off in
      let b = chunk-bounds (n - tot) off (omega (arith, lt)) in
      let sum : c + (n - (tot + c)) ≡ n - tot = omega (arith, b.1) in
      subst (λ d. Read sb l m dst off d n (rounds k dst off tot m (a, j))) sum
        (Read-later sb l j m _ dst off c (n - (tot + c)) n (omega (arith, b.1, small))
          (Copies-round sb l j a dst off c m sound keeps at nz (omega (arith, b.1, small)) b.2) _
          (rest _ j sound))

readi_from-Read :
    (sb : Superblock) (n k dst off tot : ℕ) (m : Contents) (l : Locked)
    → tot ≤ n
    → n - tot ≤ k
    → off + (n - tot) ≤ 268 * bsize
    → Sound sb l.ip l.fs.blocks
    → Read sb l m dst off (n - tot) n (readi_from copyout_kernel sb k dst off tot n m l)
readi_from-Read sb n zero dst off tot m l le enough small sound =
    Read-end sb n zero dst off tot m l (λ lt. omega (arith, lt, enough)) le sound
readi_from-Read sb n (suc k) dst off tot m l le enough small sound = elim (dec_lt tot n) [
  | no full ↦ Read-end sb n (suc k) dst off tot m l full le sound
  | yes lt ↦ rw (readi_from_round sb n k dst off tot m l lt) (
      Read-round sb n k dst off tot m l lt small
        (λ mem j s.
          let b = chunk-bounds (n - tot) off (omega (arith, lt)) in
          readi_from-Read sb n k (dst + chunk (n - tot) off) (off + chunk (n - tot) off)
            (tot + chunk (n - tot) off) mem j (omega (arith, b.1, le)) (omega (arith, enough, b.0))
            (omega (arith, small, b.1)) s)
        (bmap sb (off / bsize) l) (bmap-Maps sb (off / bsize) l sound))
]

-- How much `readi` reads.
abbrev pub amount : ℕ → ℕ → ℕ → ℕ
amount size off n = if ltb size off || leb (2 ^ 32) (off + n) then 0 else min n (size - off)

readi-amount :
    (sb : Superblock) (dst off n : ℕ) (m : Contents) (l : Locked)
    → off < 2 ^ 32
    → n < 2 ^ 32
    → l.ip.size ≤ maxfile * bsize
    → readi copyout_kernel sb dst off n m l
      ≡ readi_from copyout_kernel sb (amount l.ip.size off n) dst off 0 (amount l.ip.size off n) m l
unfolding readi
readi-amount sb dst off n m l a b bound = elim (dec_lt l.ip.size off) [
  | yes past ↦
      rw (lt→ltb l.ip.size off past) (sym (readi_from_end sb 0 0 dst off 0 m l (omega arith)))
  | no inside ↦ rw (ltb_off l.ip.size off inside) (elim (dec_lt (off + n) (2 ^ 32)) [
    | no wraps ↦
        rw
          (
            lt→ltb ((off + n) % 2 ^ 32) off (omega (arith, wraps, a, b)),
            le→leb (2 ^ 32) (off + n) (omega (arith, wraps)),
          )
          (sym (readi_from_end sb 0 0 dst off 0 m l (omega arith)))
    | yes fits ↦
        let same : (off + n) % 2 ^ 32 ≡ off + n = omega (arith, fits) in
        rw
          (
            same,
            ltb_off (off + n) off (omega arith),
            leb_off (2 ^ 32) (off + n) (omega (arith, fits)),
          )
          (ap (λ c. readi_from copyout_kernel sb c dst off 0 c m l) (count (omega (arith, inside))))
  ])
]
  where
    count :
        off ≤ l.ip.size
        → (if ltb l.ip.size (off + n) then l.ip.size - off else n) ≡ min n (l.ip.size - off)
    count h = ground (arith, h)

    le→leb : (x y : ℕ) → x ≤ y → leb x y ≡ true
    le→leb x y h = ground (arith, h)

    leb_off : (x y : ℕ) → y < x → leb x y ≡ false
    leb_off x y h = ground (arith, h)

readi_all-Read :
    (sb : Superblock) (c dst off : ℕ) (m : Contents) (l : Locked)
    → (0 < c → off + c ≤ 268 * bsize)
    → Sound sb l.ip l.fs.blocks
    → Read sb l m dst off c c (readi_from copyout_kernel sb c dst off 0 c m l)
readi_all-Read sb c dst off m l small sound =
    subst (λ d. Read sb l m dst off d c (readi_from copyout_kernel sb c dst off 0 c m l)) left
      (elim (dec_lt 0 c) [
        | no none_left ↦ Read-end sb c c dst off 0 m l none_left (omega arith) sound
        | yes some_left ↦
            readi_from-Read sb c c dst off 0 m l (omega arith) (omega arith)
              (omega (arith, small some_left)) sound
      ])
  where
    left : c - 0 ≡ c
    left = omega arith

amount_fits :
    (size off n : ℕ)
    → size ≤ maxfile * bsize
    → 0 < amount size off n
    → off + amount size off n ≤ 268 * bsize
amount_fits size off n h pos = elim (dec_lt size off) [
  | yes past ↦ absurd (omega (arith, pos, none_past past))
  | no inside ↦ ground (arith, h, inside)
]
  where
    none_past : size < off → amount size off n ≡ 0
    none_past lt = rw (lt→ltb size off lt) refl

-- What `readi` of `n` bytes at the offset `off` of a file returns: how many of them the file has, and that many bytes of the
-- file are at `dst`. The file is the same. It panics only if the file lacks a block for a byte that it would read.
pub readi-Read :
    (sb : Superblock) (dst off n : ℕ) (m : Contents) (l : Locked)
    → off < 2 ^ 32
    → n < 2 ^ 32
    → l.ip.size ≤ maxfile * bsize
    → Sound sb l.ip l.fs.blocks
    → Read sb l m dst off
        (amount l.ip.size off n)
        (amount l.ip.size off n)
        (readi copyout_kernel sb dst off n m l)
readi-Read sb dst off n m l a b bound sound =
    let c = amount l.ip.size off n in
    rw (readi-amount sb dst off n m l a b bound) (
      readi_all-Read sb c dst off m l (λ some_left. amount_fits l.ip.size off n bound some_left)
        sound)
