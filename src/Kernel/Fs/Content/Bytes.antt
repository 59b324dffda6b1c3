-- ===== src/Kernel/Fs/Content/Bytes.antt =====
-- The bytes of a file, and what a round of writei changes of them.
use mits081_lab.Base.{
  ℕ, ◌+◌, ◌-◌, ◌*◌, ◌/◌, ◌%◌, ◌≤◌, ◌<◌, ◌≡◌, ◌≢◌, ◌⊎◌, inl, inr, refl, sym, ap, ◌∙◌, dec_lt,
  ℕ_discrete, arith,
}
use mathlib.Core.Path.{subst}
use mits081_lab.Kernel.Disk.{update}
use mits081_lab.Kernel.Fs.Blocks.{Contents, Superblock, Fs, bsize, log_write}
use mits081_lab.Kernel.Fs.Blocks.Writes.{log_write-blocks}
use mits081_lab.Kernel.Fs.Inode.{Inode, Locked}
use mits081_lab.Kernel.Fs.Inode.Slots.{addr_of, addr_of_low, Owned, Sound, pick_yes}
use mits081_lab.Kernel.Fs.Inode.Growth.{content, content_some, slot_of, meta, Keeps}
use mits081_lab.Kernel.Fs.Content.{copyin_kernel, store_data, log_data}
use mits081_lab.Kernel.Fs.Content.Data.{stored_addr, Sound-stored, stored_content}

pub slot_of-bounds : (bn : ℕ) → bn < 268 → (slot_of bn < 269) × (slot_of bn ≢ 12)
unfolding slot_of
slot_of-bounds bn lt = ground (arith, lt)

pub slot_of-injective : (b c : ℕ) → slot_of b ≡ slot_of c → b ≡ c
unfolding slot_of
slot_of-injective b c e = ground (arith, e)

-- The byte at offset `p`.
unfoldable pub byte_at : Inode → (ℕ → Contents) → ℕ → ℕ
byte_at ip m p = content (slot_of (p / bsize)) ip m (p % bsize)

pub copied :
    (x : Contents) (o : ℕ) (memory : Contents) (src c i : ℕ)
    → o ≤ i
    → i < o + c
    → (copyin_kernel x o memory src c).0 i ≡ memory (src + (i - o))
unfolding copyin_kernel
copied x o memory src c i lo hi = ground (arith, lo, hi)

pub not_copied :
    (x : Contents) (o : ℕ) (memory : Contents) (src c i : ℕ)
    → (i < o) ⊎ (o + c ≤ i)
    → (copyin_kernel x o memory src c).0 i ≡ x i
unfolding copyin_kernel
not_copied x o memory src c i (inl h) = ground (arith, h)
not_copied x o memory src c i (inr h) = ground (arith, h)

-- From `lo` up to `hi` the file has the bytes `f`, in blocks of its own, elsewhere those that it had.
pub record Wrote (sb : Superblock) (l m : Locked) (lo hi : ℕ) (f : ℕ → ℕ) : Type 0 where
  pub sound : Sound sb m.ip m.fs.blocks
  pub same_meta : meta m.ip ≡ meta l.ip
  pub keeps_addr :
      (j : ℕ) → j < 269 → addr_of j l.ip l.fs.blocks ≢ 0 → addr_of j m.ip m.fs.blocks ≢ 0
  pub new : (p : ℕ) → p < 268 * bsize → lo ≤ p → p < hi → byte_at m.ip m.fs.blocks p ≡ f p
  pub present :
      (p : ℕ)
      → p < 268 * bsize
      → lo ≤ p
      → p < hi
      → addr_of (slot_of (p / bsize)) m.ip m.fs.blocks ≢ 0
  pub old :
      (p : ℕ)
      → p < 268 * bsize
      → (p < lo) ⊎ (hi ≤ p)
      → byte_at m.ip m.fs.blocks p ≡ byte_at l.ip l.fs.blocks p

pub Wrote-none :
    (sb : Superblock) (l : Locked) (lo : ℕ) (f : ℕ → ℕ)
    → Sound sb l.ip l.fs.blocks
    → Wrote sb l l lo lo f
Wrote-none sb l lo f sound = record {
  sound = sound;
  same_meta = refl;
  keeps_addr = λ j _ ne. ne;
  new = λ p _ le lt. absurd (omega (arith, le, lt));
  present = λ p _ le lt. absurd (omega (arith, le, lt));
  old = λ p _ _. refl;
}

pub Wrote-trans :
    (sb : Superblock) (l m n : Locked) (lo mid hi : ℕ) (f : ℕ → ℕ)
    → lo ≤ mid
    → mid ≤ hi
    → Wrote sb l m lo mid f
    → Wrote sb m n mid hi f
    → Wrote sb l n lo hi f
Wrote-trans sb l m n lo mid hi f first second v w = record {
  sound = w.sound;
  same_meta = w.same_meta ∙ v.same_meta;
  keeps_addr = λ j lt ne. w.keeps_addr j lt (v.keeps_addr j lt ne);
  new = λ p small le lt. elim (dec_lt p mid) [
    | yes before ↦ w.old p small (inl before) ∙ v.new p small le before
    | no after ↦ w.new p small (omega (arith, after)) lt
  ];
  present = λ p small le lt. elim (dec_lt p mid) [
    | yes before ↦
        w.keeps_addr (slot_of (p / bsize)) (slot_of-bounds (p / bsize) (omega (arith, small))).0
          (v.present p small le before)
    | no after ↦ w.present p small (omega (arith, after)) lt
  ];
  old = λ p small out. w.old p small (outer_of p out) ∙ v.old p small (inner_of p out);
}
  where
    outer_of : (p : ℕ) → (p < lo) ⊎ (hi ≤ p) → (p < mid) ⊎ (hi ≤ p)
    outer_of p (inl h) = inl (omega (arith, h, first))
    outer_of p (inr h) = inr h

    inner_of : (p : ℕ) → (p < lo) ⊎ (hi ≤ p) → (p < lo) ⊎ (mid ≤ p)
    inner_of p (inl h) = inl h
    inner_of p (inr h) = inr (omega (arith, h, second))

-- A round: the store of `c` bytes at `off` in the block `a` that `bmap` returned.
module _ (sb : Superblock) (l m : Locked) (a off c : ℕ) (x : Contents) (keeps : Keeps sb l m)
    (sound : Sound sb m.ip m.fs.blocks) (at : addr_of (slot_of (off / bsize)) m.ip m.fs.blocks ≡ a)
    (nz : a ≢ 0) (inside : off / bsize < 268) where
  abbrev k : ℕ
  k = slot_of (off / bsize)

  slot_nz : addr_of k m.ip m.fs.blocks ≢ 0
  slot_nz z = nz (sym at ∙ z)

  data-Owned : Owned sb m.fs.blocks a
  data-Owned =
      subst (Owned sb m.fs.blocks) at
        (sound.owned k (slot_of-bounds (off / bsize) inside).0 slot_nz)

  off_table : m.ip.addrs 12 ≢ 0 → a ≢ m.ip.addrs 12
  off_table _ e = (slot_of-bounds (off / bsize) inside).1 (
      sound.distinct k 12 (slot_of-bounds (off / bsize) inside).0 (omega arith) slot_nz
        (at ∙ (e ∙ sym (addr_of_low 12 m.ip m.fs.blocks (omega arith)))))

  abbrev n : ℕ → Contents
  n = update m.fs.blocks a x

  here : (i : ℕ) → content k m.ip n i ≡ x i
  here i =
      let same : addr_of k m.ip n ≡ a =
        stored_addr sb m.ip m.fs.blocks a x sound data-Owned off_table k ∙ at in
      content_some k m.ip n i (λ z. nz (sym same ∙ z))
      ∙ (ap (λ b. n b i) same ∙ ap (λ (y : Contents). y i) (pick_yes a a x _ refl))

  there :
      (j : ℕ)
      → j < 269
      → j ≢ 12
      → j ≢ k
      → (i : ℕ) → content j m.ip n i ≡ content j l.ip l.fs.blocks i
  there j lt ne away i =
      stored_content sb m.ip m.fs.blocks a x sound data-Owned off_table j
        (λ nj e.
          away
            (sym (sound.distinct k j (slot_of-bounds (off / bsize) inside).0 lt slot_nz (at ∙ e))))
        i
      ∙ keeps.same_content j lt ne i

  module _ (f : ℕ → ℕ) (fits : off % bsize + c ≤ bsize)
      (same : (i : ℕ) → (i < off % bsize) ⊎ (off % bsize + c ≤ i) → x i ≡ m.fs.blocks a i)
      (news : (i : ℕ)
        → off % bsize ≤ i
        → i < off % bsize + c
        → x i ≡ f (off + (i - off % bsize))) where
    new_byte : (p : ℕ) → p < 268 * bsize → off ≤ p → p < off + c → byte_at m.ip n p ≡ f p
    unfolding byte_at
    new_byte p small lo hi =
        let block : p / bsize ≡ off / bsize = omega (arith, fits, lo, hi) in
        let place : off + (p % bsize - off % bsize) ≡ p = omega (arith, fits, lo, hi) in
        ap (λ b. content (slot_of b) m.ip n (p % bsize)) block
        ∙ (here (p % bsize)
            ∙ (news (p % bsize) (omega (arith, fits, lo, hi)) (omega (arith, fits, lo, hi))
                ∙ ap f place))

    present_slot : (p : ℕ) → off ≤ p → p < off + c → addr_of (slot_of (p / bsize)) m.ip n ≢ 0
    present_slot p lo hi z =
        let block : p / bsize ≡ off / bsize = omega (arith, fits, lo, hi) in
        slot_nz (
          sym (stored_addr sb m.ip m.fs.blocks a x sound data-Owned off_table k)
          ∙ (ap (λ b. addr_of (slot_of b) m.ip n) (sym block) ∙ z))

    old_byte :
        (p : ℕ)
        → p < 268 * bsize
        → (p < off) ⊎ (off + c ≤ p)
        → byte_at m.ip n p ≡ byte_at l.ip l.fs.blocks p
    unfolding byte_at
    old_byte p small out = elim (ℕ_discrete (p / bsize) (off / bsize)) [
      | no ne ↦
          there (slot_of (p / bsize)) (slot_of-bounds (p / bsize) (omega (arith, small))).0
            (slot_of-bounds (p / bsize) (omega (arith, small))).1
            (λ e. ne (slot_of-injective (p / bsize) (off / bsize) e)) (p % bsize)
      | yes e ↦
          ap (λ b. content (slot_of b) m.ip n (p % bsize)) e
          ∙ (here (p % bsize)
              ∙ (same (p % bsize) (outside out e)
                  ∙ (sym (
                        content_some k m.ip m.fs.blocks (p % bsize) slot_nz
                        ∙ ap (λ b. m.fs.blocks b (p % bsize)) at)
                      ∙ (keeps.same_content k (slot_of-bounds (off / bsize) inside).0
                            (slot_of-bounds (off / bsize) inside).1 (p % bsize)
                          ∙ ap (λ b. content (slot_of b) l.ip l.fs.blocks (p % bsize)) (sym e)))))
    ]
      where
        outside :
            (p < off) ⊎ (off + c ≤ p)
            → p / bsize ≡ off / bsize
            → (p % bsize < off % bsize) ⊎ (off % bsize + c ≤ p % bsize)
        outside (inl h) e = inl (omega (arith, h, e))
        outside (inr h) e = inr (omega (arith, h, e))

    Wrote-stored : (u : Fs) → u.blocks ≡ n → Wrote sb l (record m { fs = u }) off (off + c) f
    Wrote-stored u e = record {
      sound = rw (e) (Sound-stored sb m.ip m.fs.blocks a x sound data-Owned off_table);
      same_meta = keeps.same_meta;
      keeps_addr = λ j lt ne. rw (e) (λ z. ne (
          sym (keeps.same_addr j lt ne)
          ∙ (sym (stored_addr sb m.ip m.fs.blocks a x sound data-Owned off_table j) ∙ z)));
      new = λ p small lo hi. rw (e) (new_byte p small lo hi);
      present = λ p _ lo hi. rw (e) (present_slot p lo hi);
      old = λ p small out. rw (e) (old_byte p small out);
    }

    pub Wrote-round : Wrote sb l (log_data a (store_data a x m)) off (off + c) f
    Wrote-round = Wrote-stored (log_write a (store_data a x m).fs) (log_write-blocks a _)
