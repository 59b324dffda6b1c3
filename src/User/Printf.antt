-- ===== src/User/Printf.antt =====
-- user/printf.c: formatted output of user programs. What is printed is the list of bytes that putc writes.
pub mod Agrees
mod Tests
use mits081_lab.Base.{
  ℕ, zero, suc, ◌+◌, ◌-◌, ◌*◌, ◌/◌, ◌%◌, ◌^◌, Bool, true, false, ◌&&◌, List, [], ◌∷◌, ◌++◌, ◌==◌,
  ltb, leb, if◌then◌else◌,
}
use mits081_lab.Kernel.Printf.{digits_from, ptr_from, max_digits, is_negative, null_text}

-- "0123456789ABCDEF"
abbrev pub digits : List ℕ
digits =
    b'0' ∷ b'1' ∷ b'2' ∷ b'3' ∷ b'4' ∷ b'5' ∷ b'6' ∷ b'7' ∷ b'8' ∷ b'9' ∷ b'A' ∷ b'B' ∷ b'C' ∷ b'D'
    ∷ b'E' ∷ b'F' ∷ []

-- The loops of this file's `printint` and `printptr` are those of the kernel's.
unfoldable pub printint : ℕ → ℕ → Bool → List ℕ
printint xx base sgn =
    if sgn && is_negative xx
    then b'-' ∷ digits_from digits max_digits base (2 ^ 32 - xx) []
    else digits_from digits max_digits base xx []

unfoldable pub printptr : ℕ → List ℕ
printptr x = b'0' ∷ b'x' ∷ ptr_from digits 16 x

module _ (args : ℕ → ℕ) (text : ℕ → List ℕ) where
  -- What `vprintf` prints in the state '%' for the byte `c`, and how many arguments it takes. An argument of
  -- 64 bits is cut to the `int` that `printint` takes.
  pub directive : ℕ → ℕ → List ℕ × ℕ
  unfolding printint printptr
  directive c a =
      if c == b'd'
      then (printint (args a % 2 ^ 32) 10 true, 1)
      else if c == b'l'
      then (printint (args a % 2 ^ 32) 10 false, 1)
      else if c == b'x'
      then (printint (args a % 2 ^ 32) 16 false, 1)
      else if c == b'p'
      then (printptr (args a), 1)
      else if c == b's'
      then ((if args a == 0 then null_text else text (args a)), 1)
      else if c == b'c'
      then (args a % 256 ∷ [], 1)
      else if c == b'%'
      then (c ∷ [], 0)
      else (b'%' ∷ (c ∷ []), 0)

  -- The loop of `vprintf`: whether its state is '%', and how many arguments have been taken.
  pub vprintf_from : Bool → ℕ → List ℕ → List ℕ
  unfolding directive
  vprintf_from percent a [] = []
  vprintf_from false a (c ∷ fmt) =
      let after = vprintf_from true a fmt in
      let plain = vprintf_from false a fmt in if c == b'%' then after else c ∷ plain
  vprintf_from true a (c ∷ fmt) =
      let (out, n) = directive c a in out ++ vprintf_from false (a + n) fmt

  pub vprintf : List ℕ → List ℕ
  unfolding vprintf_from
  vprintf fmt = vprintf_from false 0 fmt
