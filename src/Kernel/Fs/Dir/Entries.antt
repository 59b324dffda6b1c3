-- ===== src/Kernel/Fs/Dir/Entries.antt =====
-- The entries of a directory, and an entry in the memory of dirlookup.
use mits081_lab.Base.{
  ℤ, pos, negsuc, ap₂, ℕ, ◌+◌, ◌*◌, ◌≤◌, ◌<◌, ◌≡◌, ◌≢◌, ◌⊎◌, refl, sym, ap, ◌∙◌, true, false,
  ==_iff, arith,
}
use native.Mathlib.Nat.{add-zero}
use mits081_lab.Kernel.Strings.Compare.{SameText, strncmp-SameText, SameText-strncmp}
use mits081_lab.Kernel.Fs.Blocks.{Contents, Superblock, bsize}
use mits081_lab.Kernel.Fs.Words.{get16}
use mits081_lab.Kernel.Fs.Blocks.Alloc.{clash}
use mits081_lab.Kernel.Fs.Inode.{Locked}
use mits081_lab.Kernel.Fs.Inode.Growth.{Keeps}
use mits081_lab.Kernel.Fs.Content.Bytes.{byte_at}
use mits081_lab.Kernel.Fs.Content.Read.{byte_at-Keeps}
use mits081_lab.Kernel.Fs.Dir.{is_zero, namecmp}

-- The inode number in entry `n` of the directory.
unfoldable pub number_at : Locked → ℕ → ℕ
number_at l n = byte_at l.ip l.fs.blocks (16 * n) + 256 * byte_at l.ip l.fs.blocks (16 * n + 1)

-- Entry `n` of the directory has the name at `name` in the memory: their bytes agree up to the first zero byte of the name, or in
-- all 14.
unfoldable pub IsNamed : ℕ → Contents → Locked → ℕ → Type 0
IsNamed name m l n =
    (i : ℕ)
    → i < 14
    → ((j : ℕ) → j < i → m (name + j) ≢ 0)
    → m (name + i) ≡ byte_at l.ip l.fs.blocks (16 * n + 2 + i)

-- Entry `n` is in use with the name at `name`, for the inode `inum`.
unfoldable pub Matches : ℕ → Contents → Locked → ℕ → ℕ → Type 0
Matches name m l n inum = (inum ≡ number_at l n) × (inum ≢ 0) × IsNamed name m l n

-- Entry `n` is free, or it has another name.
unfoldable pub Differs : ℕ → Contents → Locked → ℕ → Type 0
Differs name m l n = (number_at l n ≡ 0) ⊎ (¬ IsNamed name m l n)

module _ (sb : Superblock) (l j : Locked) (n : ℕ) (keeps : Keeps sb l j)
    (small : 16 * n + 16 ≤ 268 * bsize) where
  pub number_at-Keeps : number_at j n ≡ number_at l n
  unfolding number_at
  number_at-Keeps =
      ap₂ (λ x y. x + 256 * y) (byte_at-Keeps sb l j (16 * n) keeps (omega (arith, small)))
        (byte_at-Keeps sb l j (16 * n + 1) keeps (omega (arith, small)))

  pub IsNamed-Keeps : (name : ℕ) (m : Contents) → IsNamed name m j n → IsNamed name m l n
  unfolding IsNamed
  IsNamed-Keeps name m named i lt no_zero =
      named i lt no_zero ∙ byte_at-Keeps sb l j (16 * n + 2 + i) keeps (omega (arith, small, lt))

  pub IsNamed-kept : (name : ℕ) (m : Contents) → IsNamed name m l n → IsNamed name m j n
  unfolding IsNamed
  IsNamed-kept name m named i lt no_zero =
      named i lt no_zero
      ∙ sym (byte_at-Keeps sb l j (16 * n + 2 + i) keeps (omega (arith, small, lt)))

-- The memory `m` has entry `n` of the directory at `de`, and the name that `m₀` has at `name`.
pub record Loaded (name de : ℕ) (m₀ : Contents) (l : Locked) (n : ℕ) (m : Contents) : Type 0 where
  pub entry : (i : ℕ) → i < 16 → m (de + i) ≡ byte_at l.ip l.fs.blocks (16 * n + i)
  pub named : (i : ℕ) → i < 14 → m (name + i) ≡ m₀ (name + i)

is_zero-eq : (z : ℤ) → is_zero z ≡ true → z ≡ pos 0
is_zero-eq (pos n) e = ap pos ((==_iff n 0).0 e)
is_zero-eq (negsuc n) e = absurd (clash e refl)

module _ (name de : ℕ) (m₀ : Contents) (l : Locked) (n : ℕ) (m : Contents)
    (loaded : Loaded name de m₀ l n m) where
  pub number_loaded : get16 de m ≡ number_at l n
  unfolding get16 number_at
  number_loaded =
      ap₂ (λ x y. x + 256 * y) (simp add-zero at (loaded.entry 0 (omega arith)))
        (loaded.entry 1 (omega arith))

  same_place : (i : ℕ) → i < 14 → m (de + 2 + i) ≡ byte_at l.ip l.fs.blocks (16 * n + 2 + i)
  same_place i lt =
      let at : de + 2 + i ≡ de + (2 + i) = omega arith in
      let from : 16 * n + (2 + i) ≡ 16 * n + 2 + i = omega arith in
      ap m at ∙ (loaded.entry (2 + i) (omega (arith, lt)) ∙ ap (byte_at l.ip l.fs.blocks) from)

  IsNamed-SameText : SameText 14 name (de + 2) m → IsNamed name m₀ l n
  unfolding SameText IsNamed
  IsNamed-SameText same i lt no_zero =
      sym (loaded.named i lt)
      ∙ (same i lt (λ j h z. no_zero j h (sym (loaded.named j (omega (arith, h, lt))) ∙ z))
          ∙ same_place i lt)

  SameText-IsNamed : IsNamed name m₀ l n → SameText 14 name (de + 2) m
  unfolding SameText IsNamed
  SameText-IsNamed named i lt no_zero =
      loaded.named i lt
      ∙ (named i lt (λ j h z. no_zero j h (loaded.named j (omega (arith, h, lt)) ∙ z))
          ∙ sym (same_place i lt))

  pub is_zero-IsNamed : is_zero (namecmp name (de + 2) m) ≡ true → IsNamed name m₀ l n
  unfolding namecmp
  is_zero-IsNamed e = IsNamed-SameText (strncmp-SameText 14 name (de + 2) m (is_zero-eq _ e))

  pub is_zero-other : is_zero (namecmp name (de + 2) m) ≡ false → ¬ IsNamed name m₀ l n
  unfolding namecmp
  is_zero-other e named =
      clash (ap is_zero (SameText-strncmp 14 name (de + 2) m (SameText-IsNamed named))) e
