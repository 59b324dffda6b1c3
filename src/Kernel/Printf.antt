-- ===== src/Kernel/Printf.antt =====
-- kernel/printf.c: formatted output. What is printed is the list of bytes given to consputc. A C `int` is the
-- number of its 32 bits.
use mits081_lab.Base.{
  ℕ, zero, suc, ◌+◌, ◌-◌, ◌*◌, ◌/◌, ◌%◌, ◌^◌, Bool, true, ◌&&◌, List, [], ◌∷◌, ◌++◌, ◌==◌, leb,
  if◌then◌else◌, get_or,
}

-- "0123456789abcdef"
abbrev pub digits : List ℕ
digits =
    b'0' ∷ b'1' ∷ b'2' ∷ b'3' ∷ b'4' ∷ b'5' ∷ b'6' ∷ b'7' ∷ b'8' ∷ b'9' ∷ b'a' ∷ b'b' ∷ b'c' ∷ b'd'
    ∷ b'e' ∷ b'f' ∷ []

-- The do-while loop of `printint`, over at most `fuel` digits; `buf` holds the bytes written before, the latest
-- first, which is the order in which they are printed.
unfoldable pub digits_from : List ℕ → ℕ → ℕ → ℕ → List ℕ → List ℕ
digits_from table zero base x buf = buf
digits_from table (suc fuel) base x buf =
    let buf₁ = get_or table (x % base) 0 ∷ buf in
    let rest = digits_from table fuel base (x / base) buf₁ in if x / base == 0 then buf₁ else rest

-- A 32-bit number has no more than 32 digits in any base.
abbrev pub max_digits : ℕ
max_digits = 32

abbrev pub is_negative : ℕ → Bool
is_negative xx = leb (2 ^ 31) xx

unfoldable pub printint : ℕ → ℕ → Bool → List ℕ
unfolding digits_from
printint xx base sign =
    if sign && is_negative xx
    then b'-' ∷ digits_from digits max_digits base (2 ^ 32 - xx) []
    else digits_from digits max_digits base xx []

-- The loop of `printptr`, with `k` digits left.
unfoldable pub ptr_from : List ℕ → ℕ → ℕ → List ℕ
ptr_from table zero x = []
ptr_from table (suc k) x = get_or table (x / 2 ^ 60) 0 ∷ ptr_from table k (x * 16 % 2 ^ 64)

unfoldable pub printptr : ℕ → List ℕ
unfolding ptr_from
printptr x = b'0' ∷ b'x' ∷ ptr_from digits 16 x

-- "(null)"
abbrev pub null_text : List ℕ
null_text = b'(' ∷ b'n' ∷ b'u' ∷ b'l' ∷ b'l' ∷ b')' ∷ []

-- `args i` is the register or stack word of argument `i`, and `text p` the string at the address `p`.
module _ (args : ℕ → ℕ) (text : ℕ → List ℕ) where
  -- `%s`
  abbrev pub string_at : ℕ → List ℕ
  string_at p = if p == 0 then null_text else text p

  -- One directive: what it prints for the next argument, and how many arguments it takes.
  unfoldable pub directive : ℕ → ℕ → List ℕ × ℕ
  unfolding printint printptr
  directive c a =
      if c == b'd'
      then (printint (args a % 2 ^ 32) 10 true, 1)
      else if c == b'x'
      then (printint (args a % 2 ^ 32) 16 true, 1)
      else if c == b'p'
      then (printptr (args a), 1)
      else if c == b's'
      then (string_at (args a), 1)
      else if c == b'%'
      then (b'%' ∷ [], 0)
      else (b'%' ∷ (c ∷ []), 0)

  -- The loop of `printf` over the format from here on, with `a` arguments taken.
  unfoldable pub printf_from : ℕ → List ℕ → List ℕ
  unfolding directive
  printf_from a [] = []
  printf_from a (c ∷ []) = if c == b'%' then [] else c ∷ []
  printf_from a (c ∷ (d ∷ fmt)) =
      let plain = printf_from a (d ∷ fmt) in
      let (out, n) = directive d a in
      let rest = printf_from (a + n) fmt in if c == b'%' then out ++ rest else c ∷ plain

  unfoldable pub printf : List ℕ → List ℕ
  unfolding printf_from
  printf fmt = printf_from 0 fmt
