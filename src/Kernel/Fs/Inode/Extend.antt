-- ===== src/Kernel/Fs/Inode/Extend.antt =====
-- What a slot's new block changes: `balloc` and the store of the block's number.
use mits081_lab.Base.{
  ℕ, ◌+◌, ◌-◌, ◌*◌, ◌≤◌, ◌<◌, ◌≡◌, ◌≢◌, inl, inr, refl, sym, ap, ◌∙◌, true, false, ◌==◌, ◌^◌,
  if◌then◌else◌, dec_lt, ℕ_discrete, arith,
}
use mathlib.Core.Path.{subst}
use mits081_lab.Kernel.Panic.{ok}
use mits081_lab.Kernel.Disk.{update}
use mits081_lab.Kernel.Fs.Blocks.{Contents, Superblock, Fs, balloc}
use mits081_lab.Kernel.Fs.Blocks.Bits.{is_used}
use mits081_lab.Kernel.Fs.Blocks.Alloc.{Allocates, balloc-Allocates, clash, is_used-update}
use mits081_lab.Kernel.Fs.Words.{Apart, get16, get32, put32, get32-put32, get32_other}
use mits081_lab.Kernel.Fs.Inode.{Inode, entry}
use mits081_lab.Kernel.Fs.Inode.Slots.{
  addr_of, addr_of_low, addr_of_none, addr_of-entry, Owned, Sound, Grows, pick_yes, pick_no,
}

get32_zero : (o : ℕ) (x : Contents) → ((i : ℕ) → x i ≡ 0) → get32 o x ≡ 0
unfolding get32 get16
get32_zero o x h = rw (h o, h (o + 1), h (o + 2), h (o + 2 + 1)) refl

-- What `balloc` returned.
module _ (sb : Superblock) (ip : Inode) (s : Fs) (b : ℕ) (t : Fs) (sound : Sound sb ip s.blocks)
    (e : balloc sb s ≡ ok (b, t)) where
  takes : Allocates sb s (ok (b, t))
  takes = subst (Allocates sb s) e (balloc-Allocates sb s sound.map_used)

  taken_inside : b < sb.size
  unfolding Allocates
  taken_inside = takes.0

  taken_free : is_used sb s.blocks b ≡ false
  unfolding Allocates
  taken_free = takes.1

  taken_marks :
      (c : ℕ)
      → c < sb.size
      → is_used sb t.blocks c ≡ (if c == b then true else is_used sb s.blocks c)
  unfolding Allocates
  taken_marks = takes.3

  taken_zeroed : (i : ℕ) → t.blocks b i ≡ 0
  unfolding Allocates
  taken_zeroed = takes.4

  taken_apart : (a : ℕ) → Owned sb s.blocks a → a ≢ b
  taken_apart a o same = clash o.used (ap (is_used sb s.blocks) same ∙ taken_free)

  taken_nonzero : b ≢ 0
  taken_nonzero z = clash sound.boot_used (ap (is_used sb s.blocks) (sym z) ∙ taken_free)

  taken_same : (a : ℕ) → Owned sb s.blocks a → t.blocks a ≡ s.blocks a
  unfolding Allocates
  taken_same a o = takes.5 a (taken_apart a o) (o.off_map b taken_inside)

  -- The table's block, when there is one, and its entries.
  table_same : ip.addrs 12 ≢ 0 → t.blocks (ip.addrs 12) ≡ s.blocks (ip.addrs 12)
  table_same ne =
      taken_same (ip.addrs 12)
        (subst (Owned sb s.blocks) low (sound.owned 12 (omega arith) (λ z. ne (sym low ∙ z))))
    where
      low : addr_of 12 ip s.blocks ≡ ip.addrs 12
      low = addr_of_low 12 ip s.blocks (omega arith)

  entry_slots : (j : ℕ) → 13 ≤ j → addr_of j ip t.blocks ≡ addr_of j ip s.blocks
  entry_slots j le = elim (ℕ_discrete (ip.addrs 12) 0) [
    | yes z ↦ addr_of_none j ip t.blocks le z ∙ sym (addr_of_none j ip s.blocks le z)
    | no ne ↦
        addr_of-entry j ip t.blocks le ne
        ∙ (ap (entry (j - 13)) (table_same ne) ∙ sym (addr_of-entry j ip s.blocks le ne))
  ]

  -- A direct block, or the block of block numbers.
  module _ (k : ℕ) (low : k < 13) (empty : addr_of k ip s.blocks ≡ 0) where
    abbrev jp : Inode
    jp = record ip { addrs = update ip.addrs k b }

    direct_slots :
        (j : ℕ) → j < 13 → addr_of j jp t.blocks ≡ (if j == k then b else addr_of j ip s.blocks)
    direct_slots j lt = addr_of_low j jp t.blocks lt ∙ elim (ℕ_discrete j k) [
      | yes same ↦ pick_yes k j b (ip.addrs j) (sym same) ∙ sym (pick_yes j k b _ same)
      | no ne ↦
          pick_no k j b (ip.addrs j) (λ z. ne (sym z))
          ∙ (sym (addr_of_low j ip s.blocks lt) ∙ sym (pick_no j k b _ ne))
    ]

    later_slots : (j : ℕ) → 13 ≤ j → addr_of j jp t.blocks ≡ addr_of j ip s.blocks
    later_slots j le = elim (ℕ_discrete k 12) [
      | no ne ↦ same_table (pick_no k 12 b (ip.addrs 12) ne) ∙ entry_slots j le
      | yes same ↦
          addr_of_new (pick_yes k 12 b (ip.addrs 12) same)
          ∙ sym (
              addr_of_none j ip s.blocks le
                (ap ip.addrs (sym same) ∙ (sym (addr_of_low k ip s.blocks low) ∙ empty)))
    ]
      where
        same_table : jp.addrs 12 ≡ ip.addrs 12 → addr_of j jp t.blocks ≡ addr_of j ip t.blocks
        same_table h = elim (ℕ_discrete (ip.addrs 12) 0) [
          | yes z ↦ addr_of_none j jp t.blocks le (h ∙ z) ∙ sym (addr_of_none j ip t.blocks le z)
          | no ne ↦
              addr_of-entry j jp t.blocks le (λ z. ne (sym h ∙ z))
              ∙ (ap (λ a. entry (j - 13) (t.blocks a)) h ∙ sym (addr_of-entry j ip t.blocks le ne))
        ]

        addr_of_new : jp.addrs 12 ≡ b → addr_of j jp t.blocks ≡ 0
        addr_of_new h =
            addr_of-entry j jp t.blocks le (λ z. taken_nonzero (sym h ∙ z))
            ∙ (ap (λ a. entry (j - 13) (t.blocks a)) h
                ∙ get32_zero (4 * (j - 13)) (t.blocks b) taken_zeroed)

    pub Grows-direct : Grows sb k b ip jp s.blocks t.blocks
    Grows-direct = record {
      same_inum = refl;
      inside = taken_inside;
      was_free = taken_free;
      marks = taken_marks;
      zeroed = taken_zeroed;
      slots = λ j lt. elim (dec_lt j 13) [
        | yes small ↦ direct_slots j small
        | no big ↦
            later_slots j (omega (arith, big)) ∙ sym (pick_no j k b _ (omega (arith, big, low)))
      ];
      contents = λ j lt _ ne. taken_same (addr_of j ip s.blocks) (sound.owned j lt ne);
    }

  -- An entry of the block of block numbers.
  module _ (n : ℕ) (small : n < 256) (table : ip.addrs 12 ≢ 0)
      (empty : addr_of (n + 13) ip s.blocks ≡ 0) where
    abbrev blocks : ℕ → Contents
    blocks = update t.blocks (ip.addrs 12) (put32 (4 * n) b (t.blocks (ip.addrs 12)))

    table-Owned : Owned sb s.blocks (ip.addrs 12)
    table-Owned =
        let low : addr_of 12 ip s.blocks ≡ ip.addrs 12 = addr_of_low 12 ip s.blocks (omega arith) in
        subst (Owned sb s.blocks) low (sound.owned 12 (omega arith) (λ z. table (sym low ∙ z)))

    entry_fits : b < 2 ^ 32
    entry_fits = omega (arith, taken_inside, sound.fits)

    entry_stored :
        (j : ℕ) → 13 ≤ j → addr_of j ip blocks ≡ (if j == n + 13 then b else addr_of j ip s.blocks)
    entry_stored j le =
        addr_of-entry j ip blocks le table
        ∙ (ap (entry (j - 13)) (
              pick_yes (ip.addrs 12) (ip.addrs 12) (put32 (4 * n) b (t.blocks (ip.addrs 12))) _
                refl)
            ∙ elim (ℕ_discrete j (n + 13)) [
              | yes e ↦
                  let here : j - 13 ≡ n = omega (arith, e) in
                  ap (λ i. entry i (put32 (4 * n) b (t.blocks (ip.addrs 12)))) here
                  ∙ (get32-put32 (4 * n) b (t.blocks (ip.addrs 12)) entry_fits
                      ∙ sym (pick_yes j (n + 13) b _ e))
              | no ne ↦
                  get32_other (4 * (j - 13)) (4 * n) b (t.blocks (ip.addrs 12)) (apart j le ne)
                  ∙ (sym (addr_of-entry j ip t.blocks le table)
                      ∙ (entry_slots j le ∙ sym (pick_no j (n + 13) b _ ne)))
            ])
      where
        apart : (j : ℕ) → 13 ≤ j → j ≢ n + 13 → Apart (4 * (j - 13)) 4 (4 * n) 4
        apart j le ne = elim (dec_lt j (n + 13)) [
          | yes lt ↦ inl (omega (arith, lt, le))
          | no nlt ↦ inr (omega (arith, nlt, ne))
        ]

    stored_slots :
        (j : ℕ) → j < 269 → addr_of j ip blocks ≡ (if j == n + 13 then b else addr_of j ip s.blocks)
    stored_slots j lt = elim (dec_lt j 13) [
      | yes low ↦
          addr_of_low j ip blocks low
          ∙ (sym (addr_of_low j ip s.blocks low)
              ∙ sym (pick_no j (n + 13) b _ (omega (arith, low))))
      | no big ↦ entry_stored j (omega (arith, big))
    ]

    apart_contents :
        (j : ℕ)
        → j < 269
        → j ≢ 12
        → addr_of j ip s.blocks ≢ 0
        → blocks (addr_of j ip s.blocks) ≡ s.blocks (addr_of j ip s.blocks)
    apart_contents j lt ne nz =
        let low : addr_of 12 ip s.blocks ≡ ip.addrs 12 = addr_of_low 12 ip s.blocks (omega arith) in
        pick_no (ip.addrs 12) (addr_of j ip s.blocks) (put32 (4 * n) b (t.blocks (ip.addrs 12))) _
          (λ e. ne (sound.distinct j 12 lt (omega arith) nz (sym e ∙ sym low)))
        ∙ taken_same (addr_of j ip s.blocks) (sound.owned j lt nz)

    pub Grows-entry : Grows sb (n + 13) b ip ip s.blocks blocks
    Grows-entry = record {
      same_inum = refl;
      inside = taken_inside;
      was_free = taken_free;
      marks = λ c lt.
          is_used-update sb t.blocks (ip.addrs 12) _ c (table-Owned.off_map c lt)
          ∙ taken_marks c lt;
      slots = stored_slots;
      zeroed = λ i.
          ap (λ (x : Contents). x i)
            (pick_no (ip.addrs 12) b (put32 (4 * n) b (t.blocks (ip.addrs 12))) (t.blocks b)
              (taken_apart (ip.addrs 12) table-Owned))
          ∙ taken_zeroed i;
      contents = apart_contents;
    }
