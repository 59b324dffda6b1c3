-- ===== src/Kernel/FileWrite/Chunks.antt =====
-- What filewrite writes, when it can read all of its source.
use mits081_lab.Base.{
  ℕ, zero, suc, ◌+◌, ◌-◌, ◌*◌, ◌/◌, ◌≤◌, ◌<◌, ◌≡◌, ◌⊎◌, inl, inr, refl, sym, ap, ◌∙◌, Bool, Option,
  none, some, ◌==◌, ==_iff, ltb, lt→ltb, if◌then◌else◌, dec_lt, ℕ_discrete, arith,
}
use mathlib.Core.Path.{subst}
use mits081_lab.Kernel.Panic.{Run, ok, panic, ◌>>=◌}
use mits081_lab.Kernel.Fs.Blocks.{Contents, Superblock, bsize}
use mits081_lab.Kernel.Fs.Inode.{Locked, maxfile}
use mits081_lab.Kernel.Fs.Inode.Slots.{addr_of, Sound, ltb_off}
use mits081_lab.Kernel.Fs.Inode.Growth.{slot_of}
use mits081_lab.Kernel.Fs.Content.{Copied, copyin_kernel, writei}
use mits081_lab.Kernel.Fs.Content.Bytes.{slot_of-bounds}
use mits081_lab.Kernel.Fs.Content.Stores.{Stores}
use mits081_lab.Kernel.Fs.Content.Writei.{Writes, writei-Writes}
use mits081_lab.Kernel.FileWrite.Source.{Readable, filewrite_inode-same}
use mits081_lab.Kernel.FileWrite.{chunk_of, filewrite_round, filewrite_from, filewrite_inode}

Stores-trans :
    (sb : Superblock) (l m n : Locked) (lo mid hi : ℕ) (f : ℕ → ℕ)
    → lo ≤ mid
    → mid ≤ hi
    → Stores sb l m lo mid f
    → Stores sb m n mid hi f
    → Stores sb l n lo hi f
Stores-trans sb l m n lo mid hi f first second v w = record {
  sound = w.sound;
  same_inum = w.same_inum ∙ v.same_inum;
  same_type = w.same_type ∙ v.same_type;
  grown = w.grown ∙ (ap (λ z. if ltb z hi then hi else z) v.grown ∙ sizes l.ip.size);
  keeps_addr = λ j lt ne. w.keeps_addr j lt (v.keeps_addr j lt ne);
  new = λ p small le lt. elim (dec_lt p mid) [
    | yes before ↦ w.old p small (inl before) ∙ v.new p small le before
    | no after ↦ w.new p small (omega (arith, after)) lt
  ];
  present = λ p small le lt. elim (dec_lt p mid) [
    | yes before ↦
        w.keeps_addr (slot_of (p / bsize)) (slot_of-bounds (p / bsize) (omega (arith, small))).0
          (v.present p small le before)
    | no after ↦ w.present p small (omega (arith, after)) lt
  ];
  old = λ p small out. w.old p small (outer_of p out) ∙ v.old p small (inner_of p out);
}
  where
    sizes :
        (s : ℕ)
        → (if ltb (if ltb s mid then mid else s) hi then hi else (if ltb s mid then mid else s))
          ≡ (if ltb s hi then hi else s)
    sizes s = ground (arith, second)

    outer_of : (p : ℕ) → (p < lo) ⊎ (hi ≤ p) → (p < mid) ⊎ (hi ≤ p)
    outer_of p (inl h) = inl (omega (arith, h, first))
    outer_of p (inr h) = inr h

    inner_of : (p : ℕ) → (p < lo) ⊎ (hi ≤ p) → (p < lo) ⊎ (mid ≤ p)
    inner_of p (inl h) = inl h
    inner_of p (inr h) = inr (omega (arith, h, second))

-- The end of the loop: all is written from `off` up to `hi`. It panics only if the file lacks a block for a byte of the range.
unfoldable pub Filed : Superblock → Locked → ℕ → ℕ → (ℕ → ℕ) → ℕ → Run Copied → Type 0
Filed sb l off hi f n (ok r) = (r.tot ≡ n) × (r.off ≡ hi) × Stores sb l r.locked off hi f
Filed sb l off hi f n panic =
    (p : ℕ) × ((off ≤ p) × (p < hi) × (addr_of (slot_of (p / bsize)) l.ip l.fs.blocks ≡ 0))

Filed-later :
    (sb : Superblock) (l m : Locked) (off mid hi n : ℕ) (f : ℕ → ℕ)
    → off ≤ mid
    → mid ≤ hi
    → hi ≤ 268 * bsize
    → Stores sb l m off mid f
    → (r : Run Copied) → Filed sb m mid hi f n r
    → Filed sb l off hi f n r
unfolding Filed
Filed-later sb l m off mid hi n f first second small w (ok r) (tot, end, v) =
    (tot, end, Stores-trans sb l m r.locked off mid hi f first second w v)
Filed-later sb l m off mid hi n f first second small w panic (p, (lo, below, hole)) =
    (p, (omega (arith, lo, first), below, was_hole))
  where
    was_hole : addr_of (slot_of (p / bsize)) l.ip l.fs.blocks ≡ 0
    was_hole = elim (ℕ_discrete (addr_of (slot_of (p / bsize)) l.ip l.fs.blocks) 0) [
      | yes z ↦ z
      | no nz ↦ absurd (
          w.keeps_addr (slot_of (p / bsize))
            (slot_of-bounds (p / bsize) (omega (arith, below, small))).0 nz hole)
    ]

chunk_of-bounds : (left : ℕ) → 0 < left → (0 < chunk_of left) × (chunk_of left ≤ left)
chunk_of-bounds left h = (ground (arith, h), ground arith)

Stores-source :
    (sb : Superblock) (memory : Contents) (addr off₀ i off hi : ℕ) (l m : Locked)
    → off ≡ off₀ + i
    → Stores sb l m off hi (λ p. memory (addr + i + (p - off)))
    → Stores sb l m off hi (λ p. memory (addr + (p - off₀)))
Stores-source sb memory addr off₀ i off hi l m at w = record {
  sound = w.sound;
  same_inum = w.same_inum;
  same_type = w.same_type;
  grown = w.grown;
  keeps_addr = w.keeps_addr;
  new = λ p small le lt.
      let same : addr + i + (p - off) ≡ addr + (p - off₀) = omega (arith, at, le) in
      w.new p small le lt ∙ ap memory same;
  present = w.present;
  old = w.old;
}

Stores-none :
    (sb : Superblock) (l : Locked) (off : ℕ) (f : ℕ → ℕ)
    → off ≤ l.ip.size
    → Sound sb l.ip l.fs.blocks
    → Stores sb l l off off f
Stores-none sb l off f le sound = record {
  sound = sound;
  same_inum = refl;
  same_type = refl;
  grown = kept l.ip.size le;
  keeps_addr = λ j _ ne. ne;
  new = λ p _ lo hi. absurd (omega (arith, lo, hi));
  present = λ p _ lo hi. absurd (omega (arith, lo, hi));
  old = λ p _ _. refl;
}
  where
    kept : (s : ℕ) → off ≤ s → s ≡ (if ltb s off then off else s)
    kept s h = ground (arith, h)

covered :
    (l m : Locked) (off n1 : ℕ)
    → m.ip.size ≡ (if ltb l.ip.size (off + n1) then off + n1 else l.ip.size)
    → off + n1 ≤ m.ip.size
covered l m off n1 e = rw (e) (at_least l.ip.size)
  where
    at_least : (s : ℕ) → off + n1 ≤ (if ltb s (off + n1) then off + n1 else s)
    at_least s = ground arith

-- A round and the rounds after it.
module _ (sb : Superblock) (memory : Contents) (addr off₀ n : ℕ) where
  -- The byte that is to be at offset `p` of the file.
  abbrev pub source : ℕ → ℕ
  source p = memory (addr + (p - off₀))

  Filed-round :
      (i off n1 : ℕ) (l : Locked) (rest : ℕ → ℕ → Locked → Run Copied)
      → off ≡ off₀ + i
      → n1 ≤ n - i
      → off ≤ l.ip.size
      → off₀ + n ≤ 268 * bsize
      → 0 < n1
      → i ≤ n
      → ((m : Locked)
          → Sound sb m.ip m.fs.blocks
          → off + n1 ≤ m.ip.size
          → Filed sb m (off + n1) (off₀ + n) source n (rest (i + n1) (off + n1) m))
      → (r : Run (Option ℕ × Locked)) → Writes sb memory (addr + i) off n1 l r
      → Filed sb l off (off₀ + n) source n (r >>= filewrite_round i off n1 rest)
  unfolding Writes Filed
  Filed-round i off n1 l rest at small le fits pos inside others panic (_, (p, (lo, hi, hole))) =
      (p, (lo, omega (arith, hi, at, small, inside), hole))
  Filed-round i off n1 l rest at small le fits pos inside others (ok (none, m)) (_, inl past) =
      absurd (omega (arith, past, le))
  Filed-round i off n1 l rest at small le fits pos inside others (ok (none, m)) (_, inr large) =
      absurd (omega (arith, large, at, small, fits, inside))
  Filed-round i off n1 l rest at small le fits pos inside others (ok (some t, m))
        (count, _, _, stores) =
      subst (λ c. Filed sb l off (off₀ + n) source n (filewrite_round i off n1 rest (some c, m)))
        (sym count)
        (rw ((==_iff n1 n1).1 refl) (
          Filed-later sb l m off (off + n1) (off₀ + n) n source (omega arith)
            (omega (arith, at, small, inside)) fits
            (Stores-source sb memory addr off₀ i off (off + n1) l m at stores) _
            (others m stores.sound (covered l m off n1 stores.grown))))

  Filed-end :
      (i off : ℕ) (l : Locked)
      → i ≡ n
      → off ≡ off₀ + i
      → off ≤ l.ip.size
      → Sound sb l.ip l.fs.blocks
      → Filed sb l off (off₀ + n) source n (ok (record { tot = i; off = off; locked = l }))
  unfolding Filed
  Filed-end i off l done at le sound =
      let end : off ≡ off₀ + n = omega (arith, done, at) in
      (
        done,
        end,
        subst (λ h. Stores sb l l off h source) end (Stores-none sb l off source le sound),
      )

  filewrite_from_end :
      (k i off : ℕ) (l : Locked)
      → ¬ (i < n)
      → filewrite_from copyin_kernel memory sb k addr i off n l
        ≡ ok (record { tot = i; off = off; locked = l })
  unfolding filewrite_from
  filewrite_from_end zero i off l h = refl
  filewrite_from_end (suc k) i off l h = rw (ltb_off i n h) refl

  filewrite_from_round :
      (k i off : ℕ) (l : Locked)
      → i < n
      → filewrite_from copyin_kernel memory sb (suc k) addr i off n l ≡ (
          writei copyin_kernel memory sb (addr + i) off (chunk_of (n - i)) l
          >>= filewrite_round i off
              (chunk_of (n - i))
              (λ i' off' m. filewrite_from copyin_kernel memory sb k addr i' off' n m))
  unfolding filewrite_from
  filewrite_from_round k i off l lt = rw (lt→ltb i n lt) refl

  pub filewrite_from-Filed :
      (k i off : ℕ) (l : Locked)
      → i ≤ n
      → n - i ≤ k
      → off ≡ off₀ + i
      → off ≤ l.ip.size
      → off₀ + n ≤ 268 * bsize
      → Sound sb l.ip l.fs.blocks
      → Filed sb l off (off₀ + n) source n (filewrite_from copyin_kernel memory sb k addr i off n l)
  filewrite_from-Filed zero i off l inside enough at le fits sound =
      rw (filewrite_from_end zero i off l (λ lt. omega (arith, lt, enough)))
        (Filed-end i off l (omega (arith, inside, enough)) at le sound)
  filewrite_from-Filed (suc k) i off l inside enough at le fits sound = elim (dec_lt i n) [
    | no done ↦
        rw (filewrite_from_end (suc k) i off l done)
          (Filed-end i off l (omega (arith, inside, done)) at le sound)
    | yes lt ↦
        let b = chunk_of-bounds (n - i) (omega (arith, lt)) in
        rw (filewrite_from_round k i off l lt) (
          Filed-round i off (chunk_of (n - i)) l
            (λ i' off' m. filewrite_from copyin_kernel memory sb k addr i' off' n m) at b.1 le fits
            b.0 inside
            (λ m s covers.
              filewrite_from-Filed k (i + chunk_of (n - i)) (off + chunk_of (n - i)) m
                (omega (arith, b.1, inside)) (omega (arith, enough, b.0)) (omega (arith, at)) covers
                fits s)
            _
            (writei-Writes sb memory (addr + i) off (chunk_of (n - i)) l
              (omega (arith, at, fits, lt)) (omega (arith, b.1, fits)) sound))
  ]

-- What `filewrite` of `n` bytes at `addr` to the offset `off` of an inode returns: `n`, and the offset `off + n`; the file has
-- those bytes there, the others that it had, and a size that covers them. It panics only if the file lacks a block for a byte
-- of the range.
unfoldable pub Files :
    Superblock → Contents → ℕ → ℕ → ℕ → Locked → Run (Option ℕ × ℕ × Locked) → Type 0
Files sb memory addr off n l (ok (r, off', m)) =
    (r ≡ some n) × (off' ≡ off + n) × Stores sb l m off (off + n) (source sb memory addr off n)
Files sb memory addr off n l panic =
    (p : ℕ) × ((off ≤ p) × (p < off + n) × (addr_of (slot_of (p / bsize)) l.ip l.fs.blocks ≡ 0))

Files-Filed :
    (sb : Superblock) (memory : Contents) (addr off n : ℕ) (l : Locked) (r : Run Copied)
    → Filed sb l off (off + n) (source sb memory addr off n) n r
    → Files sb memory addr off n l
        (r >>= (λ r. ok (if r.tot == n then some n else none, r.off, r.locked)))
unfolding Filed Files
Files-Filed sb memory addr off n l (ok r) (tot, end, stores) =
    (ap (λ z. if z then some n else none) ((==_iff r.tot n).1 tot), end, stores)
Files-Filed sb memory addr off n l panic hole = hole

copyin_kernel-Files :
    (sb : Superblock) (memory : Contents) (addr off n : ℕ) (l : Locked)
    → off ≤ l.ip.size
    → off + n ≤ maxfile * bsize
    → Sound sb l.ip l.fs.blocks
    → Files sb memory addr off n l (filewrite_inode copyin_kernel memory sb addr off n l)
unfolding filewrite_inode
copyin_kernel-Files sb memory addr off n l le fits sound = Files-Filed sb memory addr off n l _ (
    filewrite_from-Filed sb memory addr off n n 0 off l (omega arith) (omega arith) (omega arith) le
      (omega (arith, fits)) sound)

-- For any memory and any way to copy from it, in which all copies within the `n` addresses from `addr` on succeed: this leaves out
-- the writes in which a copy from the process fails, which return -1. For an inode that agrees with the free map, an offset
-- within the file and a range within the largest file: `filewrite` of the `n` bytes at `addr`, in its chunks of three blocks,
-- returns `n` and moves the offset to the end of the range; the file has those bytes in the range, all other bytes as before, and
-- a size that covers them. It panics only if the file lacks a block for a byte of the range.
pub filewrite_inode-Files :
    {M : Type 0} (either_copyin : Contents → ℕ → M → ℕ → ℕ → Contents × Bool) (memory : M)
    (bytes : Contents) (sb : Superblock) (addr off n : ℕ) (l : Locked)
    → Readable either_copyin memory bytes addr (addr + n)
    → off ≤ l.ip.size
    → off + n ≤ maxfile * bsize
    → Sound sb l.ip l.fs.blocks
    → Files sb bytes addr off n l (filewrite_inode either_copyin memory sb addr off n l)
filewrite_inode-Files either_copyin memory bytes sb addr off n l readable le fits sound =
    let same =
      filewrite_inode-same either_copyin memory bytes sb addr (addr + n) readable addr off n l
        (omega arith) (omega arith) in
    subst (Files sb bytes addr off n l) (sym same)
      (copyin_kernel-Files sb bytes addr off n l le fits sound)
