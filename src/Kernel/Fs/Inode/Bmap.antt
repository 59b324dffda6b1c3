-- ===== src/Kernel/Fs/Inode/Bmap.antt =====
-- What bmap does.
use mits081_lab.Base.{
  ℕ, ◌+◌, ◌-◌, ◌*◌, ◌≤◌, ◌<◌, ◌≡◌, ◌≢◌, ◌⊎◌, inl, inr, refl, sym, ap, ◌∙◌, true, false, ==_iff,
  ==_false, lt→ltb, dec_lt, ℕ_discrete, arith,
}
use mathlib.Core.Path.{subst}
use mits081_lab.Kernel.Panic.{Run, ok, panic, ◌>>=◌}
use mits081_lab.Kernel.Disk.{update}
use mits081_lab.Kernel.Fs.Blocks.{Superblock, Fs, balloc, log_write}
use mits081_lab.Kernel.Fs.Blocks.Bits.{is_used}
use mits081_lab.Kernel.Fs.Blocks.Writes.{log_write-blocks}
use mits081_lab.Kernel.Fs.Blocks.Alloc.{clash}
use mits081_lab.Kernel.Fs.Words.{put32}
use mits081_lab.Kernel.Fs.Inode.{Locked, entry, bmap_entry, bmap, maxfile}
use mits081_lab.Kernel.Fs.Inode.Slots.{
  addr_of, addr_of_low, addr_of_none, addr_of-entry, Sound, Grows, ltb_off,
}
use mits081_lab.Kernel.Fs.Inode.Extend.{Grows-entry}
use mits081_lab.Kernel.Fs.Inode.Growth.{
  Keeps, Keeps-trans, Has, Has-grown, Gets, Gets-found, bmap_addr-Gets, balloc_full, slot_of,
}

-- The inode after a store in the block of block numbers.
abbrev store_entry : ℕ → ℕ → Locked → ℕ × Fs → Run (ℕ × Locked)
store_entry n a l (b, t) = ok (
  b,
  record l {
    fs = log_write a (record t { blocks = update t.blocks a (put32 (4 * n) b (t.blocks a)) });
  },
)

Gets-entry :
    (sb : Superblock) (n : ℕ) (l : Locked)
    → n < 256
    → l.ip.addrs 12 ≢ 0
    → addr_of (n + 13) l.ip l.fs.blocks ≡ 0
    → Sound sb l.ip l.fs.blocks
    → (r : Run (ℕ × Fs)) → balloc sb l.fs ≡ r
    → Gets sb (n + 13) l (r >>= store_entry n (l.ip.addrs 12) l)
unfolding Gets
Gets-entry sb n l small table empty sound panic e = (empty, balloc_full sb l.ip l.fs sound e)
Gets-entry sb n l small table empty sound (ok (b, t)) e =
    let a = l.ip.addrs 12 in
    let x = record t { blocks = update t.blocks a (put32 (4 * n) b (t.blocks a)) } in
    Has-grown sb (n + 13) b l (record l { fs = log_write a x }) sound
      (subst (Grows sb (n + 13) b l.ip l.ip l.fs.blocks) (sym (log_write-blocks a x))
        (Grows-entry sb l.ip l.fs b t sound e n small table empty))
      empty refl (omega (arith, small))

bmap_entry-Gets :
    (sb : Superblock) (n : ℕ) (l : Locked)
    → n < 256
    → l.ip.addrs 12 ≢ 0
    → Sound sb l.ip l.fs.blocks
    → Gets sb (n + 13) l (bmap_entry sb n (l.ip.addrs 12) l)
unfolding bmap_entry
bmap_entry-Gets sb n l small table sound =
    elim (ℕ_discrete (entry n (l.fs.blocks (l.ip.addrs 12))) 0) [
      | yes z ↦
          rw ((==_iff (entry n (l.fs.blocks (l.ip.addrs 12))) 0).1 z)
            (Gets-entry sb n l small table (at ∙ z) sound (balloc sb l.fs) refl)
      | no nz ↦
          rw (==_false (entry n (l.fs.blocks (l.ip.addrs 12))) 0 nz)
            (Gets-found sb (n + 13) l (entry n (l.fs.blocks (l.ip.addrs 12))) sound at nz)
    ]
  where
    at : addr_of (n + 13) l.ip l.fs.blocks ≡ entry n (l.fs.blocks (l.ip.addrs 12))
    at =
        let same : n + 13 - 13 ≡ n = omega arith in
        addr_of-entry (n + 13) l.ip l.fs.blocks (omega arith) table
        ∙ ap (λ i. entry i (l.fs.blocks (l.ip.addrs 12))) same

-- What `bmap` of block `bn` returns: that block's number, which is not 0. The file has the bytes and the blocks that it had,
-- and its inode and the free map still agree. It panics only past the end of the largest file, or if the file has not
-- the block and the disk has not two free blocks.
unfoldable pub Maps : Superblock → ℕ → Locked → Run (ℕ × Locked) → Type 0
Maps sb bn l (ok (a, m)) =
    Sound sb m.ip m.fs.blocks × Keeps sb l m × (addr_of (slot_of bn) m.ip m.fs.blocks ≡ a) × (a ≢ 0)
Maps sb bn l panic =
    (maxfile ≤ bn)
    ⊎ ((addr_of (slot_of bn) l.ip l.fs.blocks ≡ 0)
        × ((c d : ℕ)
            → c < sb.size
            → d < sb.size
            → is_used sb l.fs.blocks c ≡ false
            → is_used sb l.fs.blocks d ≡ false
            → c ≡ d))

Maps-direct :
    (sb : Superblock) (bn : ℕ) (l : Locked)
    → slot_of bn ≡ bn
    → (r : Run (ℕ × Locked)) → Gets sb bn l r
    → Maps sb bn l r
unfolding Gets Maps
Maps-direct sb bn l e (ok (a, m)) h =
    (h.sound, h.keeps, ap (λ k. addr_of k m.ip m.fs.blocks) e ∙ h.is_at, h.nonzero)
Maps-direct sb bn l e panic (empty, full) = inr (
  ap (λ k. addr_of k l.ip l.fs.blocks) e ∙ empty,
  λ c d sc _ free _. absurd (clash (full c sc) free),
)

Maps-second :
    (sb : Superblock) (bn a : ℕ) (l m : Locked)
    → slot_of bn ≡ bn - 12 + 13
    → bn - 12 < 256
    → Has sb 12 a l m
    → (r : Run (ℕ × Locked)) → Gets sb (bn - 12 + 13) m r
    → Maps sb bn l r
unfolding Gets Maps
Maps-second sb bn a l m e small first (ok (b, n)) h = (
  h.sound,
  Keeps-trans sb l m n first.keeps h.keeps,
  ap (λ k. addr_of k n.ip n.fs.blocks) e ∙ h.is_at,
  h.nonzero,
)
Maps-second sb bn a l m e small first panic (empty, full) = inr (
  ap (λ k. addr_of k l.ip l.fs.blocks) e ∙ was_empty,
  λ c d sc sd fc fd. first.lost c d sc sd fc (full c sc) fd (full d sd),
)
  where
    was_empty : addr_of (bn - 12 + 13) l.ip l.fs.blocks ≡ 0
    was_empty = elim (ℕ_discrete (addr_of (bn - 12 + 13) l.ip l.fs.blocks) 0) [
      | yes z ↦ z
      | no nz ↦
          absurd (nz (sym (first.keeps.same_addr (bn - 12 + 13) (omega (arith, small)) nz) ∙ empty))
    ]

Maps-full :
    (sb : Superblock) (bn : ℕ) (l : Locked)
    → addr_of (slot_of bn) l.ip l.fs.blocks ≡ 0
    → ((c : ℕ) → c < sb.size → is_used sb l.fs.blocks c ≡ true)
    → Maps sb bn l panic
unfolding Maps
Maps-full sb bn l empty full = inr (empty, λ c d sc _ free _. absurd (clash (full c sc) free))

Maps-indirect :
    (sb : Superblock) (bn : ℕ) (l : Locked)
    → slot_of bn ≡ bn - 12 + 13
    → bn - 12 < 256
    → (r : Run (ℕ × Locked)) → Gets sb 12 l r
    → Maps sb bn l (r >>= (λ (a, m). bmap_entry sb (bn - 12) a m))
unfolding Gets
Maps-indirect sb bn l e small panic (empty, full) =
    let table : l.ip.addrs 12 ≡ 0 = sym (addr_of_low 12 l.ip l.fs.blocks (omega arith)) ∙ empty in
    Maps-full sb bn l
      (ap (λ k. addr_of k l.ip l.fs.blocks) e
        ∙ addr_of_none (bn - 12 + 13) l.ip l.fs.blocks (omega arith) table)
      full
Maps-indirect sb bn l e small (ok (a, m)) h =
    let low : m.ip.addrs 12 ≡ a = sym (addr_of_low 12 m.ip m.fs.blocks (omega arith)) ∙ h.is_at in
    Maps-second sb bn a l m e small h _ (
      subst (λ x. Gets sb (bn - 12 + 13) m (bmap_entry sb (bn - 12) x m)) low
        (bmap_entry-Gets sb (bn - 12) m small (λ z. h.nonzero (sym low ∙ z)) h.sound))

Maps-beyond : (sb : Superblock) (bn : ℕ) (l : Locked) → maxfile ≤ bn → Maps sb bn l panic
unfolding Maps
Maps-beyond sb bn l le = inl le

slot_direct : (bn : ℕ) → bn < 12 → slot_of bn ≡ bn
unfolding slot_of
slot_direct bn lt = rw (lt→ltb bn 12 lt) refl

slot_indirect : (bn : ℕ) → ¬ (bn < 12) → slot_of bn ≡ bn - 12 + 13
unfolding slot_of
slot_indirect bn le = rw (ltb_off bn 12 le) (omega (arith, le))

-- For an inode that agrees with the free map: `bmap` returns the number of block `bn` of the file, which is not 0; the file has
-- the bytes and the blocks that it had, and inode and free map still agree. It panics only past the end of the largest file,
-- or if the file has not the block and the disk has not two free blocks.
pub bmap-Maps :
    (sb : Superblock) (bn : ℕ) (l : Locked)
    → Sound sb l.ip l.fs.blocks
    → Maps sb bn l (bmap sb bn l)
unfolding bmap
bmap-Maps sb bn l sound = elim (dec_lt bn 12) [
  | yes low ↦ rw (lt→ltb bn 12 low) (
      Maps-direct sb bn l (slot_direct bn low) _
        (bmap_addr-Gets sb bn l (omega (arith, low)) sound))
  | no high ↦ rw (ltb_off bn 12 high) (elim (dec_lt (bn - 12) 256) [
    | yes small ↦ rw (lt→ltb (bn - 12) 256 small) (
        Maps-indirect sb bn l (slot_indirect bn high) small _
          (bmap_addr-Gets sb 12 l (omega arith) sound))
    | no big ↦ rw (ltb_off (bn - 12) 256 big) (Maps-beyond sb bn l (omega (arith, big)))
  ])
]
