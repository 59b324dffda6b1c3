-- ===== src/Kernel/Fs/Content/Writei.antt =====
-- The whole of writei.
use mits081_lab.Base.{
  ℕ, ◌+◌, ◌-◌, ◌*◌, ◌/◌, ◌%◌, ◌^◌, ◌≤◌, ◌<◌, ◌≡◌, ◌⊎◌, inl, inr, refl, sym, ap, Bool, true, false,
  Bool-cases, ◌||◌, Option, none, some, ltb, lt→ltb, if◌then◌else◌, dec_lt, arith,
}
use mathlib.Core.Path.{subst}
use mits081_lab.Kernel.Panic.{Run, ok, panic, ◌>>=◌}
use mits081_lab.Kernel.Fs.Blocks.{Contents, Superblock, bsize}
use mits081_lab.Kernel.Fs.Inode.{Inode, Locked, maxfile, iupdate}
use mits081_lab.Kernel.Fs.Inode.Slots.{addr_of, Sound, ltb_off}
use mits081_lab.Kernel.Fs.Inode.Growth.{slot_of}
use mits081_lab.Kernel.Fs.Content.{Copied, copyin_kernel, writei_from, writei_end, writei}
use mits081_lab.Kernel.Fs.Content.Write.{Written, writei_from-Written}
use mits081_lab.Kernel.Fs.Content.Stores.{sized, Stores, Stores-last}

-- What `writei` of the `n` bytes at `src` to the offset `off` of the file returns: -1, with nothing changed, if `off` is past
-- the end of the file or the range past the end of the largest file; else `n`, and the file has those bytes at `off`, the
-- others that it had, and a size that covers them. It panics only if the file lacks a block for a byte of the range.
unfoldable pub Writes :
    Superblock → Contents → ℕ → ℕ → ℕ → Locked → Run (Option ℕ × Locked) → Type 0
Writes sb memory src off n l (ok (none, m)) =
    (m ≡ l) × ((l.ip.size < off) ⊎ (maxfile * bsize < off + n))
Writes sb memory src off n l (ok (some t, m)) =
    (t ≡ n)
    × (off ≤ l.ip.size)
    × (off + n ≤ maxfile * bsize)
    × Stores sb l m off (off + n) (λ p. memory (src + (p - off)))
Writes sb memory src off n l panic =
    (off ≤ l.ip.size)
    × ((p : ℕ) × ((off ≤ p) × (p < off + n) × (addr_of (slot_of (p / bsize)) l.ip l.fs.blocks ≡ 0)))

new_size : Copied → ℕ
new_size r = if ltb r.locked.ip.size r.off then r.off else r.locked.ip.size

end_last :
    (sb : Superblock) (memory : Contents) (r : Copied)
    → (writei_end copyin_kernel memory sb r).1 ≡ record {
      ip = sized r.locked.ip (new_size r);
      fs = iupdate sb (sized r.locked.ip (new_size r)) r.locked.fs;
    }
unfolding writei_end new_size
end_last sb memory r = elim (Bool-cases (ltb r.locked.ip.size r.off)) [
  | inl e ↦ rw e refl
  | inr e ↦ rw e refl
]

new_size_is :
    (r : Copied) {hi z : ℕ}
    → r.off ≡ hi
    → r.locked.ip.size ≡ z
    → new_size r ≡ (if ltb z hi then hi else z)
unfolding new_size
new_size_is r e f = rw (e, f) refl

rejects :
    (sb : Superblock) (memory : Contents) (src off n : ℕ) (l : Locked)
    → (l.ip.size < off) ⊎ (maxfile * bsize < off + n)
    → Writes sb memory src off n l (ok (none, l))
unfolding Writes
rejects sb memory src off n l why = (refl, why)

module _ (sb : Superblock) (memory : Contents) (src off n : ℕ) (l : Locked) where
  writei_past : l.ip.size < off → writei copyin_kernel memory sb src off n l ≡ ok (none, l)
  unfolding writei
  writei_past h = rw (lt→ltb l.ip.size off h) refl

  writei_large :
      off < 2 ^ 32
      → n < 2 ^ 32
      → maxfile * bsize < off + n
      → writei copyin_kernel memory sb src off n l ≡ ok (none, l)
  unfolding writei
  writei_large a b h = elim (dec_lt (off + n) (2 ^ 32)) [
    | yes fits ↦
        let same : (off + n) % 2 ^ 32 ≡ off + n = omega (arith, fits) in
        rw (same, lt→ltb (maxfile * bsize) (off + n) h)
          (either (ltb l.ip.size off || ltb (off + n) off))
    | no wraps ↦
        rw (lt→ltb ((off + n) % 2 ^ 32) off (omega (arith, wraps, a, b)))
          (any (ltb l.ip.size off) _)
  ]
    where
      refused : Run (Option ℕ × Locked)
      refused = ok (none, l)

      either : (x : Bool) → (if x then ok (none, l) else ok (none, l)) ≡ refused
      either true = refl
      either false = refl

      any :
          (x : Bool) (r : Run (Option ℕ × Locked))
          → (if x || true then ok (none, l) else r) ≡ refused
      any true r = refl
      any false r = refl

  writei_loop :
      off ≤ l.ip.size
      → off + n ≤ maxfile * bsize
      → writei copyin_kernel memory sb src off n l ≡ (
          writei_from copyin_kernel memory sb n src off 0 n l >>= (λ r. ok (
            some (writei_end copyin_kernel memory sb r).0,
            (writei_end copyin_kernel memory sb r).1,
          )))
  unfolding writei
  writei_loop le fits =
      let same : (off + n) % 2 ^ 32 ≡ off + n = omega (arith, fits) in
      rw
        (
          same,
          ltb_off l.ip.size off (omega (arith, le)),
          ltb_off (off + n) off (omega arith),
          ltb_off (maxfile * bsize) (off + n) (omega (arith, fits)),
        )
        refl

  Writes-end :
      off ≤ l.ip.size
      → off + n ≤ maxfile * bsize
      → (r : Run Copied) → Written sb l off (off + n) (λ p. memory (src + (p - off))) n r
      → Writes sb memory src off n l (
          r >>= (λ r. ok (
            some (writei_end copyin_kernel memory sb r).0,
            (writei_end copyin_kernel memory sb r).1,
          )))
  unfolding Writes Written writei_end
  Writes-end le fits panic hole = (le, hole)
  Writes-end le fits (ok r) (tot, end, w) = (
    tot,
    le,
    fits,
    subst (λ m. Stores sb l m off (off + n) (λ p. memory (src + (p - off))))
        (sym (end_last sb memory r))
        (Stores-last sb l r.locked off (off + n) (λ p. memory (src + (p - off))) w (new_size r)
          (new_size_is r end (ap Inode.size w.same_meta))),
  )

-- For an inode that agrees with the free map and any range of 32-bit numbers: `writei` from the kernel's memory returns -1 and
-- changes nothing if the offset is past the end of the file, or the range past the end of the largest file. Else it returns
-- `n`; the file has the `n` bytes at `off` and all other bytes as before, its size covers them, and inode and free map agree.
-- It panics only if the file lacks a block for a byte of the range.
pub writei-Writes :
    (sb : Superblock) (memory : Contents) (src off n : ℕ) (l : Locked)
    → off < 2 ^ 32
    → n < 2 ^ 32
    → Sound sb l.ip l.fs.blocks
    → Writes sb memory src off n l (writei copyin_kernel memory sb src off n l)
writei-Writes sb memory src off n l a b sound = elim (dec_lt l.ip.size off) [
  | yes past ↦ rw (writei_past sb memory src off n l past) (rejected (inl past))
  | no inside ↦ elim (dec_lt (maxfile * bsize) (off + n)) [
    | yes large ↦ rw (writei_large sb memory src off n l a b large) (rejected (inr large))
    | no fits ↦
        rw (writei_loop sb memory src off n l (omega (arith, inside)) (omega (arith, fits))) (
          Writes-end sb memory src off n l (omega (arith, inside)) (omega (arith, fits)) _ (
            writei_from-Written sb memory n (λ p. memory (src + (p - off))) n src off 0 (off + n) l
              (omega arith) (omega arith) (omega arith) (omega (arith, fits)) (λ p _ _. refl)
              sound))
  ]
]
  where
    rejected :
        (l.ip.size < off) ⊎ (maxfile * bsize < off + n)
        → Writes sb memory src off n l (ok (none, l))
    rejected why = rejects sb memory src off n l why
