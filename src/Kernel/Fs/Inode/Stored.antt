-- ===== src/Kernel/Fs/Inode/Stored.antt =====
-- What an inode on the disk is after iupdate.
use mits081_lab.Base.{
  ℕ, ◌+◌, ◌/◌, ◌%◌, ◌<◌, ◌≡◌, ◌≢◌, inl, inr, refl, sym, ap, ◌∙◌, ◌==◌, ==_iff, ==_false,
  if◌then◌else◌, dec_lt, ℕ_discrete, arith,
}
use mits081_lab.Kernel.Panic.{Run, ok, panic}
use mits081_lab.Kernel.Disk.{update}
use mits081_lab.Kernel.Fs.Blocks.{Contents, Superblock, Fs}
use mits081_lab.Kernel.Fs.Blocks.Writes.{log_write-blocks}
use mits081_lab.Kernel.Fs.Words.{Apart}
use mits081_lab.Kernel.Fs.Inode.{
  Inode, iblock, inodes_per_block, dinode_at, put_dinode, get_dinode, iupdate, ilock_read,
}
use mits081_lab.Kernel.Fs.Inode.Dinode.{
  Fits, Same, get_put_dinode, put_dinode_byte, get_dinode_agree,
}

-- The inode `i` on the disk.
abbrev pub stored : Superblock → ℕ → (ℕ → Contents) → Inode
stored sb i m = get_dinode i (dinode_at i) (m (iblock sb i))

pub iupdate-blocks :
    (sb : Superblock) (ip : Inode) (s : Fs)
    → (iupdate sb ip s).blocks
      ≡ update s.blocks
          (iblock sb ip.inum)
          (put_dinode ip (dinode_at ip.inum) (s.blocks (iblock sb ip.inum)))
unfolding iupdate
iupdate-blocks sb ip s = log_write-blocks _ _

-- Two inodes of one block.
inodes-Apart :
    (i j d : ℕ)
    → i ≢ j
    → i / inodes_per_block ≡ j / inodes_per_block
    → d < 64
    → Apart (dinode_at i + d) 1 (dinode_at j) 64
inodes-Apart i j d ne e small = elim (dec_lt (i % inodes_per_block) (j % inodes_per_block)) [
  | yes lt ↦ inl (omega (arith, lt, small))
  | no nlt ↦ inr (omega (arith, nlt, ne, e))
]

stored_here :
    (sb : Superblock) (ip : Inode) (s : Fs)
    → Fits ip
    → Same (stored sb ip.inum (iupdate sb ip s).blocks) ip
stored_here sb ip s fits =
    rw (iupdate-blocks sb ip s, (==_iff (iblock sb ip.inum) (iblock sb ip.inum)).1 refl)
      (get_put_dinode ip (dinode_at ip.inum) (s.blocks (iblock sb ip.inum)) fits)

stored_other :
    (sb : Superblock) (ip : Inode) (s : Fs) (i : ℕ)
    → i ≢ ip.inum
    → Same (stored sb i (iupdate sb ip s).blocks) (stored sb i s.blocks)
stored_other sb ip s i ne =
    get_dinode_agree i (dinode_at i) ((iupdate sb ip s).blocks (iblock sb i))
      (s.blocks (iblock sb i))
      (λ d small. rw (iupdate-blocks sb ip s) (elim (ℕ_discrete (iblock sb ip.inum) (iblock sb i)) [
        | no away ↦ rw (==_false (iblock sb ip.inum) (iblock sb i) away) refl
        | yes e ↦ rw ((==_iff (iblock sb ip.inum) (iblock sb i)).1 e) (
            put_dinode_byte ip (dinode_at i + d) (dinode_at ip.inum) _
              (inodes-Apart i ip.inum d ne (omega (arith, e)) small)
            ∙ ap (λ b. s.blocks b (dinode_at i + d)) e)
      ]))

-- `ilock` reads the inode `ip`, and panics if its type is 0.
unfoldable pub Loads : Inode → Run Inode → Type 0
Loads ip (ok jp) = (ip.type ≢ 0) × Same jp ip
Loads ip panic = ip.type ≡ 0

ilock_read-Loads :
    (sb : Superblock) (i : ℕ) (s : Fs) (ip : Inode)
    → Same (stored sb i s.blocks) ip
    → Loads ip (ilock_read sb i s)
unfolding Loads ilock_read Same
ilock_read-Loads sb i s ip same =
    let (_, type, _, _, _, _, _) = same in
    elim (ℕ_discrete (stored sb i s.blocks).type 0) [
      | yes e ↦ rw ((==_iff (stored sb i s.blocks).type 0).1 e) (sym type ∙ e)
      | no ne ↦ rw (==_false (stored sb i s.blocks).type 0 ne) (λ e. ne (type ∙ e), same)
    ]

-- What `ilock` reads after `iupdate` of the inode `ip`: `ip` under its own number, and under any other number the inode
-- that the disk had there before, also one in the same block.
pub ilock_read-iupdate :
    (sb : Superblock) (ip : Inode) (s : Fs) (i : ℕ)
    → Fits ip
    → Loads (if i == ip.inum then ip else stored sb i s.blocks) (ilock_read sb i (iupdate sb ip s))
ilock_read-iupdate sb ip s i fits =
    ilock_read-Loads sb i (iupdate sb ip s) _ (elim (ℕ_discrete i ip.inum) [
      | yes e ↦ rw ((==_iff i ip.inum).1 e, e) (stored_here sb ip s fits)
      | no ne ↦ rw (==_false i ip.inum ne) (stored_other sb ip s i ne)
    ])
