-- ===== src/Kernel/Fs/Inode/Slots.antt =====
-- The blocks that an inode has, in slots: 0 to 11 are the direct blocks, 12 is the block of block numbers, and 13 + n is the
-- block of its entry n.
use mits081_lab.Base.{
  ℕ, ◌-◌, ◌≤◌, ◌<◌, ◌≡◌, ◌≢◌, refl, sym, ap, ◌∙◌, true, false, ◌==◌, ==_iff, ==_false, ◌^◌, ltb,
  lt→ltb, if◌then◌else◌, ℕ_discrete, arith,
}
use mits081_lab.Kernel.Fs.Blocks.{Contents, Superblock, bblock}
use mits081_lab.Kernel.Fs.Blocks.Bits.{is_used}
use mits081_lab.Kernel.Fs.Blocks.Alloc.{MapUsed, clash}
use mits081_lab.Kernel.Fs.Inode.{Inode, iblock, entry}

pub slots : ℕ
slots = 269

pub ltb_off : (a b : ℕ) → ¬ (a < b) → ltb a b ≡ false
ltb_off a b h = ground (arith, h)

-- The block in a slot, or 0.
unfoldable pub addr_of : ℕ → Inode → (ℕ → Contents) → ℕ
addr_of k ip m =
    if ltb k 13
    then ip.addrs k
    else if ip.addrs 12 == 0
    then 0
    else entry (k - 13) (m (ip.addrs 12))

pub addr_of_low : (k : ℕ) (ip : Inode) (m : ℕ → Contents) → k < 13 → addr_of k ip m ≡ ip.addrs k
unfolding addr_of
addr_of_low k ip m lt = rw (lt→ltb k 13 lt) refl

pub addr_of_none :
    (k : ℕ) (ip : Inode) (m : ℕ → Contents) → 13 ≤ k → ip.addrs 12 ≡ 0 → addr_of k ip m ≡ 0
unfolding addr_of
addr_of_none k ip m le e = rw (ltb_off k 13 (omega (arith, le)), (==_iff (ip.addrs 12) 0).1 e) refl

pub addr_of-entry :
    (k : ℕ) (ip : Inode) (m : ℕ → Contents)
    → 13 ≤ k
    → ip.addrs 12 ≢ 0
    → addr_of k ip m ≡ entry (k - 13) (m (ip.addrs 12))
unfolding addr_of
addr_of-entry k ip m le ne = rw (ltb_off k 13 (omega (arith, le)), ==_false (ip.addrs 12) 0 ne) refl

-- A block that belongs to a file: in use, and not one of the free map.
pub record Owned (sb : Superblock) (m : ℕ → Contents) (a : ℕ) : Type 0 where
  pub inside : a < sb.size
  pub used : is_used sb m a ≡ true
  pub off_map : (c : ℕ) → c < sb.size → a ≢ bblock sb c

-- An inode and the free map agree: block 0 and the free map are in use, block numbers fit their words, the blocks in the
-- slots are owned, each by one slot, and so is the block that has the inode, which is in no slot.
pub record Sound (sb : Superblock) (ip : Inode) (m : ℕ → Contents) : Type 0 where
  pub fits : sb.size ≤ 2 ^ 32
  pub boot_used : is_used sb m 0 ≡ true
  pub map_inside : (c : ℕ) → c < sb.size → bblock sb c < sb.size
  pub map_used : MapUsed sb m
  pub owned : (k : ℕ) → k < 269 → addr_of k ip m ≢ 0 → Owned sb m (addr_of k ip m)
  pub distinct :
      (j k : ℕ) → j < 269 → k < 269 → addr_of j ip m ≢ 0 → addr_of j ip m ≡ addr_of k ip m → j ≡ k
  pub inode_owned : Owned sb m (iblock sb ip.inum)
  pub inode_apart : (k : ℕ) → k < 269 → addr_of k ip m ≢ iblock sb ip.inum

-- Slot `k` got the block `b`, which was free; the other slots kept theirs, with what is in them.
pub record Grows (sb : Superblock) (k b : ℕ) (ip jp : Inode) (m n : ℕ → Contents) : Type 0 where
  pub same_inum : jp.inum ≡ ip.inum
  pub inside : b < sb.size
  pub was_free : is_used sb m b ≡ false
  pub marks : (c : ℕ) → c < sb.size → is_used sb n c ≡ (if c == b then true else is_used sb m c)
  pub slots : (j : ℕ) → j < 269 → addr_of j jp n ≡ (if j == k then b else addr_of j ip m)
  pub zeroed : (i : ℕ) → n b i ≡ 0
  pub contents :
      (j : ℕ) → j < 269 → j ≢ 12 → addr_of j ip m ≢ 0 → n (addr_of j ip m) ≡ m (addr_of j ip m)

-- What `if` tests give.
pub pick_yes : {A : Type 0} (j k : ℕ) (x y : A) → j ≡ k → (if j == k then x else y) ≡ x
pick_yes j k x y e = ap (λ t. if t then x else y) ((==_iff j k).1 e)

pub pick_no : {A : Type 0} (j k : ℕ) (x y : A) → j ≢ k → (if j == k then x else y) ≡ y
pick_no j k x y ne = ap (λ t. if t then x else y) (==_false j k ne)

module _ (sb : Superblock) (k b : ℕ) (ip jp : Inode) (m n : ℕ → Contents) (sound : Sound sb ip m)
    (grows : Grows sb k b ip jp m n) where
  Grows_used : (c : ℕ) → c < sb.size → is_used sb m c ≡ true → is_used sb n c ≡ true
  Grows_used c small u =
      grows.marks c small
      ∙ elim (ℕ_discrete c b) [ yes e ↦ pick_yes c b true _ e | no ne ↦ pick_no c b true _ ne ∙ u ]

  fresh_used : is_used sb n b ≡ true
  fresh_used = grows.marks b grows.inside ∙ pick_yes b b true _ refl

  not_fresh : (a : ℕ) → is_used sb m a ≡ true → a ≢ b
  not_fresh a u e = clash u (ap (is_used sb m) e ∙ grows.was_free)

  pub fresh_nonzero : b ≢ 0
  fresh_nonzero e = not_fresh 0 sound.boot_used (sym e)

  map_used_at : (c : ℕ) → c < sb.size → is_used sb m (bblock sb c) ≡ true
  unfolding MapUsed
  map_used_at c small = sound.map_used c small

  pub fresh-Owned : Owned sb n b
  fresh-Owned = record {
    inside = grows.inside;
    used = fresh_used;
    off_map = λ c small e. not_fresh (bblock sb c) (map_used_at c small) (sym e);
  }

  old-Owned : (a : ℕ) → Owned sb m a → Owned sb n a
  old-Owned a o = record {
    inside = o.inside;
    used = Grows_used a o.inside o.used;
    off_map = o.off_map;
  }

  slot-Owned : (j : ℕ) → j < 269 → addr_of j jp n ≢ 0 → Owned sb n (addr_of j jp n)
  slot-Owned j lt ne = elim (ℕ_discrete j k) [
    | yes e ↦ rw (grows.slots j lt, (==_iff j k).1 e) fresh-Owned
    | no away ↦
        let same : addr_of j jp n ≡ addr_of j ip m = grows.slots j lt ∙ pick_no j k b _ away in
        rw same (old-Owned (addr_of j ip m) (sound.owned j lt (λ z. ne (same ∙ z))))
  ]

  slot_old :
      (i j : ℕ)
      → i < 269
      → j < 269
      → j ≢ k
      → addr_of j ip m ≢ 0
      → addr_of i jp n ≡ addr_of j ip m
      → i ≡ j
  slot_old i j li lj ne nz e = elim (ℕ_discrete i k) [
    | yes same ↦ absurd (
        not_fresh (addr_of j ip m) (sound.owned j lj nz).used
          (sym e ∙ (grows.slots i li ∙ pick_yes i k b _ same)))
    | no away ↦
        sym (sound.distinct j i lj li nz (sym e ∙ (grows.slots i li ∙ pick_no i k b _ away)))
  ]

  slots_distinct :
      (i j : ℕ) → i < 269 → j < 269 → addr_of i jp n ≢ 0 → addr_of i jp n ≡ addr_of j jp n → i ≡ j
  slots_distinct i j li lj nz e = elim (ℕ_discrete j k) [
    | no away ↦
        let same : addr_of j jp n ≡ addr_of j ip m = grows.slots j lj ∙ pick_no j k b _ away in
        slot_old i j li lj away (λ z. nz (e ∙ (same ∙ z))) (e ∙ same)
    | yes here ↦ elim (ℕ_discrete i k) [
      | yes there ↦ there ∙ sym here
      | no away ↦
          let same : addr_of i jp n ≡ addr_of i ip m = grows.slots i li ∙ pick_no i k b _ away in
          sym (slot_old j i lj li away (λ z. nz (same ∙ z)) (sym e ∙ same))
    ]
  ]

  inode_slot : (j : ℕ) → j < 269 → addr_of j jp n ≢ iblock sb jp.inum
  inode_slot j lt e = elim (ℕ_discrete j k) [
    | yes here ↦ not_fresh (iblock sb ip.inum) sound.inode_owned.used (
        ap (iblock sb) (sym grows.same_inum) ∙ (sym e ∙ (grows.slots j lt ∙ pick_yes j k b _ here)))
    | no away ↦
        sound.inode_apart j lt
          (sym (grows.slots j lt ∙ pick_no j k b _ away) ∙ (e ∙ ap (iblock sb) grows.same_inum))
  ]

  inode_block : Owned sb n (iblock sb jp.inum)
  inode_block = rw (grows.same_inum) (old-Owned (iblock sb ip.inum) sound.inode_owned)

  pub Sound-grows : Sound sb jp n
  unfolding MapUsed
  Sound-grows = record {
    fits = sound.fits;
    boot_used = Grows_used 0 (omega (arith, grows.inside)) sound.boot_used;
    map_inside = sound.map_inside;
    map_used = λ c small. Grows_used (bblock sb c) (sound.map_inside c small) (map_used_at c small);
    owned = slot-Owned;
    distinct = slots_distinct;
    inode_owned = inode_block;
    inode_apart = inode_slot;
  }
