-- ===== src/Kernel/Fs/Dir/Lookup.antt =====
-- What dirlookup finds.
use mits081_lab.Base.{
  ℕ, zero, suc, ◌+◌, ◌*◌, ◌/◌, ◌%◌, ◌≤◌, ◌<◌, ◌≡◌, refl, sym, ap, Option, none, some, ==_iff,
  lt→ltb, dec_lt, arith,
}
use mathlib.Core.Path.{subst}
use mits081_lab.Kernel.Panic.{Run, ok, panic, ◌>>=◌}
use mits081_lab.Kernel.Fs.Blocks.{Contents, Superblock, bsize}
use mits081_lab.Kernel.Fs.Words.{Apart}
use mits081_lab.Kernel.Fs.Inode.{Inode, Locked, maxfile}
use mits081_lab.Kernel.Fs.Inode.Slots.{addr_of, Sound, ltb_off}
use mits081_lab.Kernel.Fs.Inode.Growth.{slot_of, Keeps-refl}
use mits081_lab.Kernel.Fs.Content.{copyout_kernel, readi}
use mits081_lab.Kernel.Fs.Content.Readi.{Read, amount, readi-Read}
use mits081_lab.Kernel.Fs.Dir.{
  Scanned, dirent_size, dirlookup_round, dirlookup_from, dirlookup, t_dir,
}
use mits081_lab.Kernel.Fs.Dir.Entries.{Loaded}
use mits081_lab.Kernel.Fs.Dir.Round.{Looks, Whole, copied-Loaded, Looks-entry}

module _ (sb : Superblock) (name de : ℕ) (m₀ : Contents) where
  Looks-hole :
      (l : Locked) (e p : ℕ)
      → p < l.ip.size
      → addr_of (slot_of (p / bsize)) l.ip l.fs.blocks ≡ 0
      → Looks sb name m₀ l e panic
  unfolding Looks
  Looks-hole l e p lt hole = (p, (lt, hole))

  Looks-end :
      (l : Locked) (e : ℕ) (m : Contents)
      → l.ip.size ≤ 16 * e
      → Sound sb l.ip l.fs.blocks
      → Looks sb name m₀ l e (ok (none, m, l))
  unfolding Looks
  Looks-end l e m past sound =
      (sound, Keeps-refl sb l, λ i le lt. absurd (omega (arith, past, le, lt)))

  Whole-room : (l : Locked) (e : ℕ) → Whole l → 16 * e < l.ip.size → 16 * e + 16 ≤ l.ip.size
  unfolding Whole
  Whole-room l e whole more = omega (arith, whole, more)

  Whole-Keeps : (l j : Locked) → j.ip.size ≡ l.ip.size → Whole l → Whole j
  unfolding Whole
  Whole-Keeps l j same (whole, bound) = (omega (arith, same, whole), omega (arith, same, bound))

  -- `readi` of one entry
  reads_entry :
      (e : ℕ) (m : Contents) (l : Locked)
      → Whole l
      → 16 * e < l.ip.size
      → Sound sb l.ip l.fs.blocks
      → Read sb l m de (16 * e) 16 16 (readi copyout_kernel sb de (16 * e) 16 m l)
  unfolding Whole
  reads_entry e m l whole more sound =
      subst (λ c. Read sb l m de (16 * e) c c (readi copyout_kernel sb de (16 * e) 16 m l))
        (whole_amount l.ip.size more whole)
        (readi-Read sb de (16 * e) 16 m l (omega (arith, more, whole)) (omega arith) whole.1 sound)
    where
      whole_amount :
          (size : ℕ)
          → 16 * e < size
          → (size % 16 ≡ 0) × (size ≤ maxfile * bsize)
          → amount size (16 * e) 16 ≡ 16
      whole_amount size lt w = ground (arith, lt, w)

  dirlookup_from_end :
      (k e : ℕ) (m : Contents) (l : Locked)
      → ¬ (16 * e < l.ip.size)
      → dirlookup_from sb name de k (16 * e) m l ≡ ok (none, m, l)
  unfolding dirlookup_from
  dirlookup_from_end zero e m l h = refl
  dirlookup_from_end (suc k) e m l h = rw (ltb_off (16 * e) l.ip.size h) refl

  dirlookup_from_round :
      (k e : ℕ) (m : Contents) (l : Locked)
      → 16 * e < l.ip.size
      → dirlookup_from sb name de (suc k) (16 * e) m l ≡ (
          readi copyout_kernel sb de (16 * e) dirent_size m l
          >>= dirlookup_round name de
              (16 * e)
              (λ m' l'. dirlookup_from sb name de k (16 * suc e) m' l'))
  unfolding dirlookup_from
  dirlookup_from_round k e m l lt =
      let next : 16 * e + 16 ≡ 16 * suc e = omega arith in
      rw (lt→ltb (16 * e) l.ip.size lt, next) refl

  Looks-round :
      (e : ℕ) (l : Locked) (before : Contents) (rest : Contents → Locked → Run Scanned)
      → Whole l
      → 16 * e < l.ip.size
      → Apart de 16 name 14
      → ((i : ℕ) → i < 14 → before (name + i) ≡ m₀ (name + i))
      → ((m : Contents) (j : Locked)
          → Sound sb j.ip j.fs.blocks
          → j.ip.size ≡ l.ip.size
          → ((i : ℕ) → i < 14 → m (name + i) ≡ m₀ (name + i))
          → Looks sb name m₀ j (suc e) (rest m j))
      → (r : Run (Option ℕ × Contents × Locked)) → Read sb l before de (16 * e) 16 16 r
      → Looks sb name m₀ l e (r >>= dirlookup_round name de (16 * e) rest)
  unfolding Read
  Looks-round e l before rest whole more apart named others (ok (some t, m, j)) (count, copies) =
      subst (λ c. Looks sb name m₀ l e (dirlookup_round name de (16 * e) rest (some c, m, j)))
        (sym count)
        (Looks-entry sb name m₀ e l j copies.keeps whole more de rest m copies.sound loaded
          (others m j copies.sound (ap Inode.size copies.keeps.same_meta) loaded.named))
    where
      loaded : Loaded name de m₀ l e m
      loaded = copied-Loaded sb name m₀ e l j copies.keeps whole more de before m apart named copies
  Looks-round e l before rest whole more apart named others (ok (none, m, j)) never = absurd never
  Looks-round e l before rest whole more apart named others panic (p, (lo, hi, hole)) =
      Looks-hole l e p (omega (arith, Whole-room l e whole more, hi)) hole

  dirlookup_from-Looks :
      (k e : ℕ) (m : Contents) (l : Locked)
      → Whole l
      → Sound sb l.ip l.fs.blocks
      → Apart de 16 name 14
      → ((i : ℕ) → i < 14 → m (name + i) ≡ m₀ (name + i))
      → l.ip.size ≤ 16 * (e + k)
      → Looks sb name m₀ l e (dirlookup_from sb name de k (16 * e) m l)
  dirlookup_from-Looks zero e m l whole sound apart named enough =
      rw (dirlookup_from_end zero e m l (λ lt. omega (arith, lt, enough)))
        (Looks-end l e m (omega (arith, enough)) sound)
  dirlookup_from-Looks (suc k) e m l whole sound apart named enough =
      elim (dec_lt (16 * e) l.ip.size) [
        | no past ↦
            rw (dirlookup_from_end (suc k) e m l past) (Looks-end l e m (omega (arith, past)) sound)
        | yes more ↦ rw (dirlookup_from_round k e m l more) (
            Looks-round e l m (λ m' l'. dirlookup_from sb name de k (16 * suc e) m' l') whole more
              apart named
              (λ m' j s same kept.
                dirlookup_from-Looks k (suc e) m' j (Whole-Keeps l j same whole) s apart kept
                  (omega (arith, same, enough)))
              (readi copyout_kernel sb de (16 * e) dirent_size m l)
              (reads_entry e m l whole more sound))
      ]

-- For a locked directory of whole entries that agrees with the free map, and a name in the kernel's memory apart from the local
-- entry: `dirlookup` returns the number and the offset of the first entry in use that has the name, or nothing when there is
-- none. An entry has the name if their bytes agree up to the first zero byte of the name, or in all 14. The directory's bytes do
-- not change. It panics only if the directory lacks a block.
pub dirlookup-Looks :
    (sb : Superblock) (name de : ℕ) (m : Contents) (l : Locked)
    → l.ip.type ≡ t_dir
    → Whole l
    → Sound sb l.ip l.fs.blocks
    → Apart de 16 name 14
    → Looks sb name m l 0 (dirlookup sb name de m l)
unfolding dirlookup
dirlookup-Looks sb name de m l type whole sound apart = rw ((==_iff l.ip.type t_dir).1 type) (
    dirlookup_from-Looks sb name de m ((l.ip.size + 15) / 16) 0 m l whole sound apart (λ i _. refl)
      (omega arith))
