-- ===== src/Kernel/Fs/Content/ReadBack.antt =====
-- readi after writei.
use mits081_lab.Base.{ℕ, ◌+◌, ◌-◌, ◌*◌, ◌^◌, ◌≤◌, ◌<◌, ◌≡◌, ap, ◌∙◌, Option, none, some, arith}
use mathlib.Core.Path.{subst}
use mits081_lab.Kernel.Panic.{Run, ok, panic}
use mits081_lab.Kernel.Fs.Blocks.{Contents, Superblock, bsize}
use mits081_lab.Kernel.Fs.Inode.{Locked, maxfile}
use mits081_lab.Kernel.Fs.Inode.Slots.{Sound}
use mits081_lab.Kernel.Fs.Content.{copyin_kernel, copyout_kernel, writei, readi}
use mits081_lab.Kernel.Fs.Content.Readi.{Read, amount, readi-Read}
use mits081_lab.Kernel.Fs.Content.Stores.{Stores}
use mits081_lab.Kernel.Fs.Content.Writei.{Writes, writei-Writes}

-- The `n` bytes at `dst` are the ones that were at `src`.
pub ReadsBack : Contents → ℕ → ℕ → ℕ → Run (Option ℕ × Contents × Locked) → Type 0
ReadsBack memory src dst n r =
    (mem : Contents) × (j : Locked) × (r ≡ ok (some n, mem, j))
    × ((i : ℕ) → i < n → mem (dst + i) ≡ memory (src + i))

module _ (sb : Superblock) (memory : Contents) (src off n : ℕ) (l m : Locked)
    (stores : Stores sb l m off (off + n) (λ p. memory (src + (p - off))))
    (fits : off + n ≤ maxfile * bsize) where
  stored_amount : amount m.ip.size off n ≡ n
  stored_amount = rw (stores.grown) (ground (arith, fits))

  stored_size : l.ip.size ≤ maxfile * bsize → m.ip.size ≤ maxfile * bsize
  stored_size h = rw (stores.grown) (ground (arith, h, fits))

  reads :
      (dst : ℕ) (old : Contents) (r : Run (Option ℕ × Contents × Locked))
      → Read sb m old dst off n n r
      → ReadsBack memory src dst n r
  unfolding Read ReadsBack
  reads dst old (ok (some t, mem, j)) (e, copies) = (
    mem,
    j,
    ap (λ x. ok (some x, mem, j)) e,
    λ i lt.
        let place : off + (dst + i - dst) ≡ off + i = omega arith in
        let from : src + (off + (dst + i - dst) - off) ≡ src + i = omega arith in
        copies.into (dst + i) (omega arith) (omega (arith, lt))
        ∙ (stores.new (off + (dst + i - dst)) (omega (arith, lt, fits)) (omega arith)
              (omega (arith, lt))
            ∙ ap memory from),
  )
  reads dst old (ok (none, mem, j)) never = absurd never
  reads dst old panic (p, (lo, hi, hole)) =
      absurd (stores.present p (omega (arith, hi, fits)) lo hi hole)

-- With both ends in the kernel's memory, an inode that agrees with the free map, a file no longer than the largest, and an offset
-- and a length of 32 bits: when `writei` of the `n` bytes at `src` to the offset `off` returns a count, `readi` of `n` bytes at
-- `off` returns `n` and puts those bytes at `dst`, also across blocks and past the old end of the file.
pub readi-writei :
    (sb : Superblock) (memory old : Contents) (src dst off n : ℕ) {t : ℕ} (l : Locked) {m : Locked}
    → off < 2 ^ 32
    → n < 2 ^ 32
    → l.ip.size ≤ maxfile * bsize
    → Sound sb l.ip l.fs.blocks
    → writei copyin_kernel memory sb src off n l ≡ ok (some t, m)
    → ReadsBack memory src dst n (readi copyout_kernel sb dst off n old m)
unfolding Writes
readi-writei sb memory old src dst off n {t = t} l {m = m} a b bound sound e =
    let (_, _, fits, stores) =
      subst (Writes sb memory src off n l) e (writei-Writes sb memory src off n l a b sound) in
    let all : amount m.ip.size off n ≡ n = stored_amount sb memory src off n l m stores fits in
    reads sb memory src off n l m stores fits dst old _ (
      subst (λ c. Read sb m old dst off c c (readi copyout_kernel sb dst off n old m)) all
        (readi-Read sb dst off n old m a b (stored_size sb memory src off n l m stores fits bound)
          stores.sound))
