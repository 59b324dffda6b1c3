-- ===== src/Kernel/Fs/Words.antt =====
-- The 16-bit and 32-bit numbers in a block, which the hardware stores with their low byte first: a load and a store through
-- a `short *` or a `uint *` into the data of a buffer (kernel/fs.c).
use mits081_lab.Base.{
  ℕ, ◌+◌, ◌*◌, ◌/◌, ◌%◌, ◌^◌, ◌≤◌, ◌<◌, ◌≡◌, ◌⊎◌, inl, inr, refl, ◌∙◌, ==_iff, ==_false, arith,
}
use mits081_lab.Kernel.Disk.{update}
use mits081_lab.Kernel.Fs.Blocks.{Contents}

unfoldable pub get16 : ℕ → Contents → ℕ
get16 o x = x o + 256 * x (o + 1)

unfoldable pub put16 : ℕ → ℕ → Contents → Contents
put16 o v x = update (update x o (v % 256)) (o + 1) (v / 256 % 256)

unfoldable pub get32 : ℕ → Contents → ℕ
get32 o x = get16 o x + 65536 * get16 (o + 2) x

unfoldable pub put32 : ℕ → ℕ → Contents → Contents
put32 o v x = put16 (o + 2) (v / 65536) (put16 o v x)

-- Two ranges of bytes, of `m` at `p` and of `n` at `q`, share none.
abbrev pub Apart : ℕ → ℕ → ℕ → ℕ → Type 0
Apart p m q n = (p + m ≤ q) ⊎ (q + n ≤ p)

pub put16_byte : (i q v : ℕ) (x : Contents) → Apart i 1 q 2 → put16 q v x i ≡ x i
unfolding put16
put16_byte i q v x (inl h) = ground (arith, h)
put16_byte i q v x (inr h) = ground (arith, h)

pub get16-put16 : (o v : ℕ) (x : Contents) → v < 2 ^ 16 → get16 o (put16 o v x) ≡ v
unfolding get16 put16
get16-put16 o v x small =
    rw ((==_iff o o).1 refl, (==_iff (o + 1) (o + 1)).1 refl, ==_false (o + 1) o (omega arith))
      (omega (arith, small))

pub get16_other : (p q v : ℕ) (x : Contents) → Apart p 2 q 2 → get16 p (put16 q v x) ≡ get16 p x
unfolding get16
get16_other p q v x (inl h) =
    rw
      (
        put16_byte p q v x (inl (omega (arith, h))),
        put16_byte (p + 1) q v x (inl (omega (arith, h))),
      )
      refl
get16_other p q v x (inr h) =
    rw
      (
        put16_byte p q v x (inr (omega (arith, h))),
        put16_byte (p + 1) q v x (inr (omega (arith, h))),
      )
      refl

pub put32_byte : (i q v : ℕ) (x : Contents) → Apart i 1 q 4 → put32 q v x i ≡ x i
unfolding put32
put32_byte i q v x (inl h) =
    put16_byte i (q + 2) (v / 65536) (put16 q v x) (inl (omega (arith, h)))
    ∙ put16_byte i q v x (inl (omega (arith, h)))
put32_byte i q v x (inr h) =
    put16_byte i (q + 2) (v / 65536) (put16 q v x) (inr (omega (arith, h)))
    ∙ put16_byte i q v x (inr (omega (arith, h)))

pub get16-put32 : (p q v : ℕ) (x : Contents) → Apart p 2 q 4 → get16 p (put32 q v x) ≡ get16 p x
unfolding get16
get16-put32 p q v x (inl h) =
    rw
      (
        put32_byte p q v x (inl (omega (arith, h))),
        put32_byte (p + 1) q v x (inl (omega (arith, h))),
      )
      refl
get16-put32 p q v x (inr h) =
    rw
      (
        put32_byte p q v x (inr (omega (arith, h))),
        put32_byte (p + 1) q v x (inr (omega (arith, h))),
      )
      refl

get16_low : (o v : ℕ) (x : Contents) → get16 o (put16 o v x) ≡ v % 65536
unfolding get16 put16
get16_low o v x =
    rw ((==_iff o o).1 refl, (==_iff (o + 1) (o + 1)).1 refl, ==_false (o + 1) o (omega arith))
      (omega arith)

pub get32-put32 : (o v : ℕ) (x : Contents) → v < 2 ^ 32 → get32 o (put32 o v x) ≡ v
unfolding get32 put32
get32-put32 o v x small =
    rw
      (
        get16_other o (o + 2) (v / 65536) (put16 o v x) (inl (omega arith)),
        get16_low o v x,
        get16_low (o + 2) (v / 65536) (put16 o v x),
      )
      (omega (arith, small))

pub get32-put16 : (p q v : ℕ) (x : Contents) → Apart p 4 q 2 → get32 p (put16 q v x) ≡ get32 p x
unfolding get32
get32-put16 p q v x (inl h) =
    rw
      (
        get16_other p q v x (inl (omega (arith, h))),
        get16_other (p + 2) q v x (inl (omega (arith, h))),
      )
      refl
get32-put16 p q v x (inr h) =
    rw
      (
        get16_other p q v x (inr (omega (arith, h))),
        get16_other (p + 2) q v x (inr (omega (arith, h))),
      )
      refl

pub get32_other : (p q v : ℕ) (x : Contents) → Apart p 4 q 4 → get32 p (put32 q v x) ≡ get32 p x
unfolding get32
get32_other p q v x (inl h) =
    rw
      (
        get16-put32 p q v x (inl (omega (arith, h))),
        get16-put32 (p + 2) q v x (inl (omega (arith, h))),
      )
      refl
get32_other p q v x (inr h) =
    rw
      (
        get16-put32 p q v x (inr (omega (arith, h))),
        get16-put32 (p + 2) q v x (inr (omega (arith, h))),
      )
      refl
