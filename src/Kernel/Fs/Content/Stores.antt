-- ===== src/Kernel/Fs/Content/Stores.antt =====
-- What the end of writei changes: the size, and the inode on the disk.
use mits081_lab.Base.{
  ℕ, ◌*◌, ◌/◌, ◌%◌, ◌≤◌, ◌<◌, ◌≡◌, ◌≢◌, ◌⊎◌, refl, sym, ap, ◌∙◌, ltb, if◌then◌else◌, arith,
}
use mits081_lab.Kernel.Fs.Blocks.{Contents, Superblock, Fs, bsize}
use mits081_lab.Kernel.Fs.Inode.{Inode, Locked, iblock, iupdate, put_dinode, dinode_at}
use mits081_lab.Kernel.Fs.Inode.Stored.{iupdate-blocks}
use mits081_lab.Kernel.Fs.Inode.Slots.{addr_of, addr_of_low, Sound}
use mits081_lab.Kernel.Fs.Inode.Growth.{content, slot_of}
use mits081_lab.Kernel.Fs.Content.Data.{stored_addr, Sound-stored, stored_content}
use mits081_lab.Kernel.Fs.Content.Bytes.{byte_at, Wrote, slot_of-bounds}

-- An inode with another size has the same blocks.
abbrev pub sized : Inode → ℕ → Inode
sized ip z = record ip { size = z }

sized_addr : (ip : Inode) (z k : ℕ) (m : ℕ → Contents) → addr_of k (sized ip z) m ≡ addr_of k ip m
unfolding addr_of
sized_addr ip z k m = refl

Sound-sized :
    (sb : Superblock) (ip : Inode) (z : ℕ) (m : ℕ → Contents)
    → Sound sb ip m
    → Sound sb (sized ip z) m
unfolding addr_of
Sound-sized sb ip z m s = record {
  fits = s.fits;
  boot_used = s.boot_used;
  map_inside = s.map_inside;
  map_used = s.map_used;
  owned = s.owned;
  distinct = s.distinct;
  inode_owned = s.inode_owned;
  inode_apart = s.inode_apart;
}

sized_byte :
    (ip : Inode) (z : ℕ) (m : ℕ → Contents) (p : ℕ) → byte_at (sized ip z) m p ≡ byte_at ip m p
unfolding byte_at content addr_of
sized_byte ip z m p = refl

-- `iupdate` changes no block of a file.
module _ (sb : Superblock) (ip : Inode) (s : Fs) (sound : Sound sb ip s.blocks) where
  inode_off_table : ip.addrs 12 ≢ 0 → iblock sb ip.inum ≢ ip.addrs 12
  inode_off_table _ e =
      sound.inode_apart 12 (omega arith) (addr_of_low 12 ip s.blocks (omega arith) ∙ sym e)

  pub iupdate-Sound : Sound sb ip (iupdate sb ip s).blocks
  iupdate-Sound = rw (iupdate-blocks sb ip s) (
      Sound-stored sb ip s.blocks (iblock sb ip.inum)
        (put_dinode ip (dinode_at ip.inum) (s.blocks (iblock sb ip.inum))) sound sound.inode_owned
        inode_off_table)

  pub iupdate-addr : (j : ℕ) → addr_of j ip (iupdate sb ip s).blocks ≡ addr_of j ip s.blocks
  iupdate-addr j = rw (iupdate-blocks sb ip s) (
      stored_addr sb ip s.blocks (iblock sb ip.inum)
        (put_dinode ip (dinode_at ip.inum) (s.blocks (iblock sb ip.inum))) sound sound.inode_owned
        inode_off_table j)

  pub byte_at-iupdate :
      (p : ℕ) → p < 268 * bsize → byte_at ip (iupdate sb ip s).blocks p ≡ byte_at ip s.blocks p
  unfolding byte_at
  byte_at-iupdate p small = rw (iupdate-blocks sb ip s) (
      stored_content sb ip s.blocks (iblock sb ip.inum)
        (put_dinode ip (dinode_at ip.inum) (s.blocks (iblock sb ip.inum))) sound sound.inode_owned
        inode_off_table (slot_of (p / bsize))
        (λ _ e.
          sound.inode_apart (slot_of (p / bsize))
            (slot_of-bounds (p / bsize) (omega (arith, small))).0 (sym e))
        (p % bsize))

-- `Wrote`, with another size.
pub record Stores (sb : Superblock) (l m : Locked) (lo hi : ℕ) (f : ℕ → ℕ) : Type 0 where
  pub sound : Sound sb m.ip m.fs.blocks
  pub same_inum : m.ip.inum ≡ l.ip.inum
  pub same_type : m.ip.type ≡ l.ip.type
  pub grown : m.ip.size ≡ (if ltb l.ip.size hi then hi else l.ip.size)
  pub keeps_addr :
      (j : ℕ) → j < 269 → addr_of j l.ip l.fs.blocks ≢ 0 → addr_of j m.ip m.fs.blocks ≢ 0
  pub new : (p : ℕ) → p < 268 * bsize → lo ≤ p → p < hi → byte_at m.ip m.fs.blocks p ≡ f p
  pub present :
      (p : ℕ)
      → p < 268 * bsize
      → lo ≤ p
      → p < hi
      → addr_of (slot_of (p / bsize)) m.ip m.fs.blocks ≢ 0
  pub old :
      (p : ℕ)
      → p < 268 * bsize
      → (p < lo) ⊎ (hi ≤ p)
      → byte_at m.ip m.fs.blocks p ≡ byte_at l.ip l.fs.blocks p

module _ (sb : Superblock) (l m : Locked) (lo hi : ℕ) (f : ℕ → ℕ) (w : Wrote sb l m lo hi f) where
  -- The end of `writei`, with the size `z`.
  abbrev pub last : ℕ → Locked
  last z = record { ip = sized m.ip z; fs = iupdate sb (sized m.ip z) m.fs }

  last_byte :
      (z p : ℕ)
      → p < 268 * bsize
      → byte_at (last z).ip (last z).fs.blocks p ≡ byte_at m.ip m.fs.blocks p
  last_byte z p small =
      byte_at-iupdate sb (sized m.ip z) m.fs (Sound-sized sb m.ip z m.fs.blocks w.sound) p small
      ∙ sized_byte m.ip z m.fs.blocks p

  last_addr :
      (z j : ℕ) → addr_of j (last z).ip (last z).fs.blocks ≡ 0 → addr_of j m.ip m.fs.blocks ≡ 0
  last_addr z j h =
      sym (sized_addr m.ip z j m.fs.blocks)
      ∙ (sym (iupdate-addr sb (sized m.ip z) m.fs (Sound-sized sb m.ip z m.fs.blocks w.sound) j)
          ∙ h)

  pub Stores-last :
      (z : ℕ) → z ≡ (if ltb l.ip.size hi then hi else l.ip.size) → Stores sb l (last z) lo hi f
  Stores-last z e =
      let s = Sound-sized sb m.ip z m.fs.blocks w.sound in
      record {
        sound = iupdate-Sound sb (sized m.ip z) m.fs s;
        same_inum = ap Inode.inum w.same_meta;
        same_type = ap Inode.type w.same_meta;
        grown = e;
        keeps_addr = λ j lt ne h. w.keeps_addr j lt ne (last_addr z j h);
        new = λ p small le lt. last_byte z p small ∙ w.new p small le lt;
        present = λ p small le lt h. w.present p small le lt (last_addr z (slot_of (p / bsize)) h);
        old = λ p small out. last_byte z p small ∙ w.old p small out;
      }
