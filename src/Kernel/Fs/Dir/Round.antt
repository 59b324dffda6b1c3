-- ===== src/Kernel/Fs/Dir/Round.antt =====
-- What a round of dirlookup finds.
use mits081_lab.Base.{
  ℕ, suc, ◌+◌, ◌-◌, ◌*◌, ◌/◌, ◌%◌, ◌≤◌, ◌<◌, ◌≡◌, ◌≢◌, ◌⊎◌, inl, inr, refl, sym, ap, ◌∙◌,
  Bool-cases, none, some, ==_iff, ==_false, ℕ_discrete, arith,
}
use mits081_lab.Kernel.Panic.{Run, ok, panic}
use mits081_lab.Kernel.Fs.Blocks.{Contents, Superblock, bsize}
use mits081_lab.Kernel.Fs.Words.{get16, Apart}
use mits081_lab.Kernel.Fs.Inode.{Inode, Locked, maxfile}
use mits081_lab.Kernel.Fs.Inode.Slots.{addr_of, Sound}
use mits081_lab.Kernel.Fs.Inode.Growth.{slot_of, Keeps, Keeps-trans}
use mits081_lab.Kernel.Fs.Content.Bytes.{byte_at, slot_of-bounds}
use mits081_lab.Kernel.Fs.Content.Read.{Copies}
use mits081_lab.Kernel.Fs.Dir.{Scanned, is_zero, namecmp, dirlookup_round}
use mits081_lab.Kernel.Fs.Dir.Entries.{
  number_at, IsNamed, Matches, Differs, number_at-Keeps, IsNamed-Keeps, IsNamed-kept, Loaded,
  number_loaded, is_zero-IsNamed, is_zero-other,
}

-- What the loop of `dirlookup` from entry `e` on returns: the first entry with the name, or nothing if there is none. The
-- directory is the same. It panics only if the directory lacks a block.
unfoldable pub Looks : Superblock → ℕ → Contents → Locked → ℕ → Run Scanned → Type 0
Looks sb name m₀ l e (ok (some (inum, off), m, j)) =
    Sound sb j.ip j.fs.blocks
    × Keeps sb l j
    × ((n : ℕ) × ((e ≤ n)
          × (off ≡ 16 * n)
          × (off < l.ip.size)
          × Matches name m₀ l n inum
          × ((i : ℕ) → e ≤ i → i < n → Differs name m₀ l i)))
Looks sb name m₀ l e (ok (none, m, j)) =
    Sound sb j.ip j.fs.blocks
    × Keeps sb l j
    × ((i : ℕ) → e ≤ i → 16 * i < l.ip.size → Differs name m₀ l i)
Looks sb name m₀ l e panic =
    (p : ℕ) × ((p < l.ip.size) × (addr_of (slot_of (p / bsize)) l.ip l.fs.blocks ≡ 0))

-- A directory is a whole number of entries.
unfoldable pub Whole : Locked → Type 0
Whole l = (l.ip.size % 16 ≡ 0) × (l.ip.size ≤ maxfile * bsize)

module _ (sb : Superblock) (name : ℕ) (m₀ : Contents) (e : ℕ) (l j : Locked) (keeps : Keeps sb l j)
    (whole : Whole l) (more : 16 * e < l.ip.size) where
  same_size : j.ip.size ≡ l.ip.size
  same_size = ap Inode.size keeps.same_meta

  Differs-Keeps : (n : ℕ) → 16 * n < l.ip.size → Differs name m₀ j n → Differs name m₀ l n
  unfolding Differs Whole
  Differs-Keeps n lt (inl free) =
      inl (sym (number_at-Keeps sb l j n keeps (omega (arith, lt, whole))) ∙ free)
  Differs-Keeps n lt (inr other) =
      inr (λ named. other (IsNamed-kept sb l j n keeps (omega (arith, lt, whole)) name m₀ named))

  from_here :
      Differs name m₀ l e
      → (k : ℕ) → ((i : ℕ) → suc e ≤ i → i < k → Differs name m₀ l i)
      → (i : ℕ) → e ≤ i
      → i < k
      → Differs name m₀ l i
  from_here here k others i le lt = elim (ℕ_discrete i e) [
    | yes same ↦ rw (same) here
    | no ne ↦ others i (omega (arith, le, ne)) lt
  ]

  Looks-later :
      Differs name m₀ l e
      → (r : Run Scanned) → Looks sb name m₀ j (suc e) r
      → Looks sb name m₀ l e r
  unfolding Looks Matches Whole
  Looks-later here (ok (some (inum, off), m, k))
        (sound, kept, (n, (le, place, inside, (num, used, same), before))) =
      let small : off < l.ip.size = rw (sym same_size) inside in
      let room : 16 * n + 16 ≤ 268 * bsize = omega (arith, small, place, whole) in
      (
        sound,
        Keeps-trans sb l j k keeps kept,
        (
          n,
          (
            omega (arith, le),
            place,
            small,
            (
              num ∙ number_at-Keeps sb l j n keeps room,
              used,
              IsNamed-Keeps sb l j n keeps room name m₀ same,
            ),
            from_here here n
                (λ i lo hi. Differs-Keeps i (omega (arith, hi, place, small)) (before i lo hi)),
          ),
        ),
      )
  Looks-later here (ok (none, m, k)) (sound, kept, others) = (
    sound,
    Keeps-trans sb l j k keeps kept,
    λ i le lt. elim (ℕ_discrete i e) [
      | yes same ↦ rw (same) here
      | no ne ↦ Differs-Keeps i lt (others i (omega (arith, le, ne)) (rw (same_size) lt))
    ],
  )
  Looks-later here panic (p, (lt, hole)) = (p, (rw (sym same_size) lt, was_hole))
    where
      was_hole : addr_of (slot_of (p / bsize)) l.ip l.fs.blocks ≡ 0
      was_hole = elim (ℕ_discrete (addr_of (slot_of (p / bsize)) l.ip l.fs.blocks) 0) [
        | yes z ↦ z
        | no nz ↦ absurd (
            nz (
              sym (
                keeps.same_addr (slot_of (p / bsize))
                  (slot_of-bounds (p / bsize) (omega (arith, lt, same_size, whole))).0 nz)
              ∙ hole))
      ]

  pub copied-Loaded :
      (de : ℕ) (before m : Contents)
      → Apart de 16 name 14
      → ((i : ℕ) → i < 14 → before (name + i) ≡ m₀ (name + i))
      → Copies sb l j before m de (16 * e) 16
      → Loaded name de m₀ l e m
  copied-Loaded de before m apart named copies = record {
    entry = λ i lt.
        let place : 16 * e + (de + i - de) ≡ 16 * e + i = omega arith in
        copies.into (de + i) (omega arith) (omega (arith, lt))
        ∙ ap (byte_at l.ip l.fs.blocks) place;
    named = λ i lt. copies.rest (name + i) (outside i lt apart) ∙ named i lt;
  }
    where
      outside : (i : ℕ) → i < 14 → Apart de 16 name 14 → (name + i < de) ⊎ (de + 16 ≤ name + i)
      outside i lt (inl h) = inr (omega (arith, h))
      outside i lt (inr h) = inl (omega (arith, h, lt))

  Looks-found :
      (m : Contents) (inum : ℕ)
      → Sound sb j.ip j.fs.blocks
      → inum ≡ number_at l e
      → inum ≢ 0
      → IsNamed name m₀ l e
      → Looks sb name m₀ l e (ok (some (inum, 16 * e), m, j))
  unfolding Looks Matches
  Looks-found m inum sound num used same = (
    sound,
    keeps,
    (e, (omega arith, refl, more, (num, used, same), λ i lo hi. absurd (omega (arith, lo, hi)))),
  )

  pub Looks-entry :
      (de : ℕ) (rest : Contents → Locked → Run Scanned) (m : Contents)
      → Sound sb j.ip j.fs.blocks
      → Loaded name de m₀ l e m
      → Looks sb name m₀ j (suc e) (rest m j)
      → Looks sb name m₀ l e (dirlookup_round name de (16 * e) rest (some 16, m, j))
  unfolding Differs
  Looks-entry de rest m sound loaded others =
      let num = number_loaded name de m₀ l e m loaded in
      elim (ℕ_discrete (get16 de m) 0) [
        | yes free ↦
            rw ((==_iff (get16 de m) 0).1 free)
              (Looks-later (inl (sym num ∙ free)) (rest m j) others)
        | no used ↦
            rw (==_false (get16 de m) 0 used)
              (elim (Bool-cases (is_zero (namecmp name (de + 2) m))) [
                | inl same ↦ rw (same) (
                    Looks-found m (get16 de m) sound num used
                      (is_zero-IsNamed name de m₀ l e m loaded same))
                | inr other ↦ rw (other) (
                    Looks-later (inr (is_zero-other name de m₀ l e m loaded other)) (rest m j)
                      others)
              ])
      ]
