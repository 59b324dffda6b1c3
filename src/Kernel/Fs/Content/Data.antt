-- ===== src/Kernel/Fs/Content/Data.antt =====
-- A store in a block of a file's data.
use mits081_lab.Base.{ℕ, ◌-◌, ◌<◌, ◌≡◌, ◌≢◌, sym, ap, ◌∙◌, dec_lt, ℕ_discrete, arith}
use mits081_lab.Kernel.Disk.{update}
use mits081_lab.Kernel.Fs.Blocks.{Contents, Superblock, bblock}
use mits081_lab.Kernel.Fs.Blocks.Bits.{is_used}
use mits081_lab.Kernel.Fs.Blocks.Alloc.{MapUsed, is_used-update}
use mits081_lab.Kernel.Fs.Inode.{Inode, iblock, entry}
use mits081_lab.Kernel.Fs.Inode.Slots.{
  addr_of, addr_of_low, addr_of_none, addr_of-entry, Owned, Sound, pick_no,
}
use mits081_lab.Kernel.Fs.Inode.Growth.{content, content_some, content_none}

-- A store in an owned block that is not the block of block numbers.
module _ (sb : Superblock) (ip : Inode) (m : ℕ → Contents) (a : ℕ) (x : Contents)
    (sound : Sound sb ip m) (own : Owned sb m a)
    (off_table : ip.addrs 12 ≢ 0 → a ≢ ip.addrs 12) where
  pub stored_addr : (j : ℕ) → addr_of j ip (update m a x) ≡ addr_of j ip m
  stored_addr j = elim (dec_lt j 13) [
    | yes low ↦ addr_of_low j ip (update m a x) low ∙ sym (addr_of_low j ip m low)
    | no high ↦ elim (ℕ_discrete (ip.addrs 12) 0) [
      | yes z ↦
          addr_of_none j ip (update m a x) (omega (arith, high)) z
          ∙ sym (addr_of_none j ip m (omega (arith, high)) z)
      | no nz ↦
          addr_of-entry j ip (update m a x) (omega (arith, high)) nz
          ∙ (ap (entry (j - 13)) (pick_no a (ip.addrs 12) x _ (off_table nz))
              ∙ sym (addr_of-entry j ip m (omega (arith, high)) nz))
    ]
  ]

  stored_used : (c : ℕ) → c < sb.size → is_used sb (update m a x) c ≡ is_used sb m c
  stored_used c small = is_used-update sb m a x c (own.off_map c small)

  stored-Owned : (b : ℕ) → Owned sb m b → Owned sb (update m a x) b
  stored-Owned b o = record {
    inside = o.inside;
    used = stored_used b o.inside ∙ o.used;
    off_map = o.off_map;
  }

  stored-MapUsed : MapUsed sb (update m a x)
  unfolding MapUsed
  stored-MapUsed c small =
      stored_used (bblock sb c) (sound.map_inside c small) ∙ sound.map_used c small

  pub Sound-stored : Sound sb ip (update m a x)
  Sound-stored = record {
    fits = sound.fits;
    boot_used = stored_used 0 (omega (arith, own.inside)) ∙ sound.boot_used;
    map_inside = sound.map_inside;
    map_used = stored-MapUsed;
    owned = λ k lt ne.
        rw (stored_addr k)
          (stored-Owned (addr_of k ip m) (sound.owned k lt (λ z. ne (stored_addr k ∙ z))));
    distinct = λ j k lj lk ne e.
        sound.distinct j k lj lk (λ z. ne (stored_addr j ∙ z))
          (sym (stored_addr j) ∙ (e ∙ stored_addr k));
    inode_owned = stored-Owned (iblock sb ip.inum) sound.inode_owned;
    inode_apart = λ k lt e. sound.inode_apart k lt (sym (stored_addr k) ∙ e);
  }

  -- A slot with another block keeps its bytes.
  pub stored_content :
      (j : ℕ)
      → (addr_of j ip m ≢ 0 → a ≢ addr_of j ip m)
      → (i : ℕ) → content j ip (update m a x) i ≡ content j ip m i
  stored_content j ne i = elim (ℕ_discrete (addr_of j ip m) 0) [
    | yes z ↦ content_none j ip (update m a x) i (stored_addr j ∙ z) ∙ sym (content_none j ip m i z)
    | no nz ↦
        content_some j ip (update m a x) i (λ z. nz (sym (stored_addr j) ∙ z))
        ∙ (ap (λ b. update m a x b i) (stored_addr j)
            ∙ (ap (λ (y : Contents). y i) (pick_no a (addr_of j ip m) x _ (ne nz))
                ∙ sym (content_some j ip m i nz)))
  ]
