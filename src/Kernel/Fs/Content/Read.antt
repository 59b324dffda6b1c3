-- ===== src/Kernel/Fs/Content/Read.antt =====
-- What the loop of readi does with a destination in the kernel's memory.
use mits081_lab.Base.{
  ℕ, ◌+◌, ◌-◌, ◌*◌, ◌/◌, ◌%◌, ◌≤◌, ◌<◌, ◌≡◌, ◌≢◌, ◌⊎◌, inl, inr, refl, sym, ap, ◌∙◌, dec_lt, arith,
}
use mits081_lab.Kernel.Fs.Blocks.{Contents, Superblock, bsize}
use mits081_lab.Kernel.Fs.Inode.{Locked}
use mits081_lab.Kernel.Fs.Inode.Slots.{addr_of, Sound}
use mits081_lab.Kernel.Fs.Inode.Growth.{
  content, content_some, slot_of, Keeps, Keeps-refl, Keeps-trans,
}
use mits081_lab.Kernel.Fs.Content.{copyout_kernel}
use mits081_lab.Kernel.Fs.Content.Bytes.{byte_at, slot_of-bounds}

copied_out :
    (memory : Contents) (dst : ℕ) (x : Contents) (o c i : ℕ)
    → dst ≤ i
    → i < dst + c
    → (copyout_kernel memory dst x o c).0 i ≡ x (o + (i - dst))
unfolding copyout_kernel
copied_out memory dst x o c i lo hi = ground (arith, lo, hi)

not_copied_out :
    (memory : Contents) (dst : ℕ) (x : Contents) (o c i : ℕ)
    → (i < dst) ⊎ (dst + c ≤ i)
    → (copyout_kernel memory dst x o c).0 i ≡ memory i
unfolding copyout_kernel
not_copied_out memory dst x o c i (inl h) = ground (arith, h)
not_copied_out memory dst x o c i (inr h) = ground (arith, h)

-- The `c` bytes of the file from `off` on are at `dst` in the memory `n`, which is else as `m` was; the file is the same.
pub record Copies (sb : Superblock) (l k : Locked) (m n : Contents) (dst off c : ℕ) : Type 0 where
  pub sound : Sound sb k.ip k.fs.blocks
  pub keeps : Keeps sb l k
  pub into : (i : ℕ) → dst ≤ i → i < dst + c → n i ≡ byte_at l.ip l.fs.blocks (off + (i - dst))
  pub rest : (i : ℕ) → (i < dst) ⊎ (dst + c ≤ i) → n i ≡ m i

pub byte_at-Keeps :
    (sb : Superblock) (l k : Locked) (p : ℕ)
    → Keeps sb l k
    → p < 268 * bsize
    → byte_at k.ip k.fs.blocks p ≡ byte_at l.ip l.fs.blocks p
unfolding byte_at
byte_at-Keeps sb l k p keeps small =
    let b = slot_of-bounds (p / bsize) (omega (arith, small)) in
    keeps.same_content (slot_of (p / bsize)) b.0 b.1 (p % bsize)

pub Copies-none :
    (sb : Superblock) (l : Locked) (m : Contents) (dst off : ℕ)
    → Sound sb l.ip l.fs.blocks
    → Copies sb l l m m dst off 0
Copies-none sb l m dst off sound = record {
  sound = sound;
  keeps = Keeps-refl sb l;
  into = λ i lo hi. absurd (omega (arith, lo, hi));
  rest = λ i _. refl;
}

pub Copies-trans :
    (sb : Superblock) (l k j : Locked) (m n o : Contents) (dst off c d : ℕ)
    → off + c + d ≤ 268 * bsize
    → Copies sb l k m n dst off c
    → Copies sb k j n o (dst + c) (off + c) d
    → Copies sb l j m o dst off (c + d)
Copies-trans sb l k j m n o dst off c d small v w = record {
  sound = w.sound;
  keeps = Keeps-trans sb l k j v.keeps w.keeps;
  into = λ i lo hi. elim (dec_lt i (dst + c)) [
    | yes before ↦ w.rest i (inl before) ∙ v.into i lo before
    | no after ↦
        let same : off + c + (i - (dst + c)) ≡ off + (i - dst) = omega (arith, after) in
        w.into i (omega (arith, after)) (omega (arith, hi))
        ∙ (ap (byte_at k.ip k.fs.blocks) same
            ∙ byte_at-Keeps sb l k (off + (i - dst)) v.keeps (omega (arith, hi, after, small)))
  ];
  rest = λ i out. w.rest i (outer_of i out) ∙ v.rest i (inner_of i out);
}
  where
    outer_of : (i : ℕ) → (i < dst) ⊎ (dst + (c + d) ≤ i) → (i < dst + c) ⊎ (dst + c + d ≤ i)
    outer_of i (inl h) = inl (omega (arith, h))
    outer_of i (inr h) = inr (omega (arith, h))

    inner_of : (i : ℕ) → (i < dst) ⊎ (dst + (c + d) ≤ i) → (i < dst) ⊎ (dst + c ≤ i)
    inner_of i (inl h) = inl h
    inner_of i (inr h) = inr (omega (arith, h))

-- The bytes of a block that the file has.
byte_of :
    (k : Locked) (a slot p : ℕ)
    → slot_of (p / bsize) ≡ slot
    → addr_of slot k.ip k.fs.blocks ≡ a
    → a ≢ 0
    → byte_at k.ip k.fs.blocks p ≡ k.fs.blocks a (p % bsize)
unfolding byte_at
byte_of k a slot p e at nz =
    ap (λ z. content z k.ip k.fs.blocks (p % bsize)) e
    ∙ (content_some slot k.ip k.fs.blocks (p % bsize) (λ z. nz (sym at ∙ z))
        ∙ ap (λ b. k.fs.blocks b (p % bsize)) at)

pub Copies-round :
    (sb : Superblock) (l k : Locked) (a dst off c : ℕ) (m : Contents)
    → Sound sb k.ip k.fs.blocks
    → Keeps sb l k
    → addr_of (slot_of (off / bsize)) k.ip k.fs.blocks ≡ a
    → a ≢ 0
    → off + c ≤ 268 * bsize
    → off % bsize + c ≤ bsize
    → Copies sb l k m (copyout_kernel m dst (k.fs.blocks a) (off % bsize) c).0 dst off c
Copies-round sb l k a dst off c m sound keeps at nz small fits = record {
  sound = sound;
  keeps = keeps;
  into = λ i lo hi.
      copied_out m dst (k.fs.blocks a) (off % bsize) c i lo hi
      ∙ (here (i - dst) (omega (arith, lo, hi))
          ∙ byte_at-Keeps sb l k (off + (i - dst)) keeps (omega (arith, lo, hi, small)));
  rest = λ i out. not_copied_out m dst (k.fs.blocks a) (off % bsize) c i out;
}
  where
    here : (d : ℕ) → d < c → k.fs.blocks a (off % bsize + d) ≡ byte_at k.ip k.fs.blocks (off + d)
    here d lt =
        let block : (off + d) / bsize ≡ off / bsize = omega (arith, lt, fits) in
        let place : (off + d) % bsize ≡ off % bsize + d = omega (arith, lt, fits) in
        sym (
          byte_of k a (slot_of (off / bsize)) (off + d) (ap slot_of block) at nz
          ∙ ap (k.fs.blocks a) place)
