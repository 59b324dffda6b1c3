-- ===== src/Kernel/Fs/Inode/Growth.antt =====
-- What a call of bmap keeps, and what it adds.
use mits081_lab.Base.{
  ℕ, ◌+◌, ◌<◌, ◌≡◌, ◌≢◌, refl, sym, ap, ◌∙◌, true, false, ◌==◌, ==_iff, ==_false, ltb,
  if◌then◌else◌, ℕ_discrete, arith,
}
use mathlib.Core.Path.{subst}
use mits081_lab.Kernel.Panic.{Run, ok, panic, ◌>>=◌}
use mits081_lab.Kernel.Disk.{update}
use mits081_lab.Kernel.Fs.Blocks.{Contents, Superblock, Fs, balloc}
use mits081_lab.Kernel.Fs.Blocks.Bits.{is_used}
use mits081_lab.Kernel.Fs.Blocks.Alloc.{Allocates, balloc-Allocates, clash}
use mits081_lab.Kernel.Fs.Inode.{Inode, Locked, bmap_addr}
use mits081_lab.Kernel.Fs.Inode.Slots.{
  addr_of, addr_of_low, Sound, Grows, Sound-grows, fresh_nonzero, pick_yes, pick_no,
}
use mits081_lab.Kernel.Fs.Inode.Extend.{Grows-direct}

-- The bytes of the block in a slot, which are zero where it has none.
unfoldable pub content : ℕ → Inode → (ℕ → Contents) → Contents
content k ip m i = if addr_of k ip m == 0 then 0 else m (addr_of k ip m) i

-- An inode without its addresses.
abbrev pub meta : Inode → Inode
meta ip = record ip { addrs = λ _. 0 }

-- The slot of the `bn`-th block of a file.
unfoldable pub slot_of : ℕ → ℕ
slot_of bn = if ltb bn 12 then bn else bn + 1

-- The file has the bytes that it had, and the blocks that it had.
pub record Keeps (sb : Superblock) (l m : Locked) : Type 0 where
  pub same_meta : meta m.ip ≡ meta l.ip
  pub same_content :
      (j : ℕ)
      → j < 269
      → j ≢ 12
      → (i : ℕ) → content j m.ip m.fs.blocks i ≡ content j l.ip l.fs.blocks i
  pub same_addr :
      (j : ℕ)
      → j < 269
      → addr_of j l.ip l.fs.blocks ≢ 0
      → addr_of j m.ip m.fs.blocks ≡ addr_of j l.ip l.fs.blocks
  pub stays_used :
      (c : ℕ) → c < sb.size → is_used sb l.fs.blocks c ≡ true → is_used sb m.fs.blocks c ≡ true

pub Keeps-refl : (sb : Superblock) (l : Locked) → Keeps sb l l
Keeps-refl sb l = record {
  same_meta = refl;
  same_content = λ j _ _ i. refl;
  same_addr = λ j _ _. refl;
  stays_used = λ c _ u. u;
}

pub Keeps-trans : (sb : Superblock) (l m n : Locked) → Keeps sb l m → Keeps sb m n → Keeps sb l n
Keeps-trans sb l m n p q = record {
  same_meta = q.same_meta ∙ p.same_meta;
  same_content = λ j lt ne i. q.same_content j lt ne i ∙ p.same_content j lt ne i;
  same_addr =
      λ j lt ne. q.same_addr j lt (λ z. ne (sym (p.same_addr j lt ne) ∙ z)) ∙ p.same_addr j lt ne;
  stays_used = λ c lt u. q.stays_used c lt (p.stays_used c lt u);
}

pub content_none :
    (k : ℕ) (ip : Inode) (m : ℕ → Contents) (i : ℕ) → addr_of k ip m ≡ 0 → content k ip m i ≡ 0
unfolding content
content_none k ip m i e = pick_yes (addr_of k ip m) 0 0 _ e

pub content_some :
    (k : ℕ) (ip : Inode) (m : ℕ → Contents) (i : ℕ)
    → addr_of k ip m ≢ 0
    → content k ip m i ≡ m (addr_of k ip m) i
unfolding content
content_some k ip m i ne = pick_no (addr_of k ip m) 0 0 _ ne

-- `bmap` found the block `a` in slot `k`, or put it there. At most one block is in use that was not.
pub record Has (sb : Superblock) (k a : ℕ) (l m : Locked) : Type 0 where
  pub sound : Sound sb m.ip m.fs.blocks
  pub keeps : Keeps sb l m
  pub is_at : addr_of k m.ip m.fs.blocks ≡ a
  pub nonzero : a ≢ 0
  pub lost :
      (c d : ℕ)
      → c < sb.size
      → d < sb.size
      → is_used sb l.fs.blocks c ≡ false
      → is_used sb m.fs.blocks c ≡ true
      → is_used sb l.fs.blocks d ≡ false
      → is_used sb m.fs.blocks d ≡ true
      → c ≡ d

module _ (sb : Superblock) (k b : ℕ) (l m : Locked) (sound : Sound sb l.ip l.fs.blocks)
    (grows : Grows sb k b l.ip m.ip l.fs.blocks m.fs.blocks)
    (empty : addr_of k l.ip l.fs.blocks ≡ 0) (same : meta m.ip ≡ meta l.ip) (lt : k < 269) where
  grown_addr :
      (j : ℕ)
      → j < 269
      → addr_of j l.ip l.fs.blocks ≢ 0
      → addr_of j m.ip m.fs.blocks ≡ addr_of j l.ip l.fs.blocks
  grown_addr j lj ne =
      grows.slots j lj
      ∙ pick_no j k b _ (λ e. ne (ap (λ (z : ℕ). addr_of z l.ip l.fs.blocks) e ∙ empty))

  grown_content :
      (j : ℕ)
      → j < 269
      → j ≢ 12
      → (i : ℕ) → content j m.ip m.fs.blocks i ≡ content j l.ip l.fs.blocks i
  grown_content j lj ne i = elim (ℕ_discrete (addr_of j l.ip l.fs.blocks) 0) [
    | no nz ↦
        content_some j m.ip m.fs.blocks i (λ z. nz (sym (grown_addr j lj nz) ∙ z))
        ∙ (ap (λ a. m.fs.blocks a i) (grown_addr j lj nz)
            ∙ (ap (λ (x : Contents). x i) (grows.contents j lj ne nz)
                ∙ sym (content_some j l.ip l.fs.blocks i nz)))
    | yes z ↦ elim (ℕ_discrete j k) [
      | no away ↦
          content_none j m.ip m.fs.blocks i (grows.slots j lj ∙ (pick_no j k b _ away ∙ z))
          ∙ sym (content_none j l.ip l.fs.blocks i z)
      | yes here ↦
          let at : addr_of j m.ip m.fs.blocks ≡ b = grows.slots j lj ∙ pick_yes j k b _ here in
          content_some j m.ip m.fs.blocks i
            (λ e. fresh_nonzero sb k b l.ip m.ip l.fs.blocks m.fs.blocks sound grows (sym at ∙ e))
          ∙ (ap (λ a. m.fs.blocks a i) at
              ∙ (grows.zeroed i ∙ sym (content_none j l.ip l.fs.blocks i z)))
    ]
  ]

  grown_used :
      (c : ℕ) → c < sb.size → is_used sb l.fs.blocks c ≡ true → is_used sb m.fs.blocks c ≡ true
  grown_used c small u =
      grows.marks c small
      ∙ elim (ℕ_discrete c b) [ yes e ↦ pick_yes c b true _ e | no ne ↦ pick_no c b true _ ne ∙ u ]

  new_is :
      (c : ℕ)
      → c < sb.size
      → is_used sb l.fs.blocks c ≡ false
      → is_used sb m.fs.blocks c ≡ true
      → c ≡ b
  new_is c small free used = elim (ℕ_discrete c b) [
    | yes e ↦ e
    | no ne ↦ absurd (clash used (grows.marks c small ∙ (pick_no c b true _ ne ∙ free)))
  ]

  pub Has-grown : Has sb k b l m
  Has-grown = record {
    sound = Sound-grows sb k b l.ip m.ip l.fs.blocks m.fs.blocks sound grows;
    keeps = record {
      same_meta = same;
      same_content = grown_content;
      same_addr = grown_addr;
      stays_used = grown_used;
    };
    is_at = grows.slots k lt ∙ pick_yes k k b _ refl;
    nonzero = fresh_nonzero sb k b l.ip m.ip l.fs.blocks m.fs.blocks sound grows;
    lost = λ c d sc sd fc uc fd ud. new_is c sc fc uc ∙ sym (new_is d sd fd ud);
  }

-- `bmap` finds a block.
Has-found :
    (sb : Superblock) (k a : ℕ) (l : Locked)
    → Sound sb l.ip l.fs.blocks
    → addr_of k l.ip l.fs.blocks ≡ a
    → a ≢ 0
    → Has sb k a l l
Has-found sb k a l sound e ne = record {
  sound = sound;
  keeps = Keeps-refl sb l;
  is_at = e;
  nonzero = ne;
  lost = λ c d _ _ free used. absurd (clash used free);
}

-- What a part of `bmap` returns: a block in slot `k`; it panics when the slot is empty and no block is free.
unfoldable pub Gets : Superblock → ℕ → Locked → Run (ℕ × Locked) → Type 0
Gets sb k l (ok (a, m)) = Has sb k a l m
Gets sb k l panic =
    (addr_of k l.ip l.fs.blocks ≡ 0) × ((c : ℕ) → c < sb.size → is_used sb l.fs.blocks c ≡ true)

pub balloc_full :
    (sb : Superblock) (ip : Inode) (s : Fs)
    → Sound sb ip s.blocks
    → balloc sb s ≡ panic
    → (c : ℕ) → c < sb.size
    → is_used sb s.blocks c ≡ true
unfolding Allocates
balloc_full sb ip s sound e = subst (Allocates sb s) e (balloc-Allocates sb s sound.map_used)

Gets-addr :
    (sb : Superblock) (k : ℕ) (l : Locked)
    → k < 13
    → addr_of k l.ip l.fs.blocks ≡ 0
    → Sound sb l.ip l.fs.blocks
    → (r : Run (ℕ × Fs)) → balloc sb l.fs ≡ r
    → Gets sb k l (
        r >>= λ (a, t).
        ok (a, record { ip = record l.ip { addrs = update l.ip.addrs k a }; fs = t }))
unfolding Gets
Gets-addr sb k l low empty sound panic e = (empty, balloc_full sb l.ip l.fs sound e)
Gets-addr sb k l low empty sound (ok (b, t)) e =
    Has-grown sb k b l (record { ip = record l.ip { addrs = update l.ip.addrs k b }; fs = t }) sound
      (Grows-direct sb l.ip l.fs b t sound e k low empty) empty refl (omega (arith, low))

pub Gets-found :
    (sb : Superblock) (k : ℕ) (l : Locked) (a : ℕ)
    → Sound sb l.ip l.fs.blocks
    → addr_of k l.ip l.fs.blocks ≡ a
    → a ≢ 0
    → Gets sb k l (ok (a, l))
unfolding Gets
Gets-found sb k l a sound e nz = Has-found sb k a l sound e nz

pub bmap_addr-Gets :
    (sb : Superblock) (k : ℕ) (l : Locked)
    → k < 13
    → Sound sb l.ip l.fs.blocks
    → Gets sb k l (bmap_addr sb k l)
unfolding bmap_addr
bmap_addr-Gets sb k l low sound = elim (ℕ_discrete (l.ip.addrs k) 0) [
  | yes z ↦
      rw ((==_iff (l.ip.addrs k) 0).1 z)
        (Gets-addr sb k l low (addr_of_low k l.ip l.fs.blocks low ∙ z) sound (balloc sb l.fs) refl)
  | no nz ↦ rw (==_false (l.ip.addrs k) 0 nz) (found nz)
]
  where
    found : l.ip.addrs k ≢ 0 → Gets sb k l (ok (l.ip.addrs k, l))
    found nz = Gets-found sb k l (l.ip.addrs k) sound (addr_of_low k l.ip l.fs.blocks low) nz
