-- ===== src/User/Printf/Tests.antt =====
-- A format with a number, a string and a lone percent sign.
use mits081_lab.Base.{ℕ, ◌≡◌, refl, List, [], ◌∷◌, arith, ◌==◌, if◌then◌else◌}
use mits081_lab.Kernel.Printf
use mits081_lab.User.Printf.{vprintf}
use mits081_lab.User.Printf.Agrees.{IsCommon, Common, lone, plain, percent}

abbrev format : List ℕ
format = b'a' ∷ (b'%' ∷ (b'd' ∷ (b'%' ∷ (b's' ∷ (b'%' ∷ [])))))

-- The arguments: the `int` -12, and a pointer to the text at 5000.
abbrev values : ℕ → ℕ
values k = if k == 0 then 0xffff_fff4 else 5000

abbrev text_at : ℕ → List ℕ
text_at p = b'o' ∷ (b'k' ∷ [])

printed : vprintf values text_at format ≡ b'a' ∷ (b'-' ∷ (b'1' ∷ (b'2' ∷ (b'o' ∷ (b'k' ∷ [])))))
unfolding vprintf Printf.digits_from
printed = refl

format_common : Common format
unfolding IsCommon
format_common = plain (omega arith) (
    percent refl (omega arith, omega arith, omega arith, omega arith)
      (percent refl (omega arith, omega arith, omega arith, omega arith) (lone refl)))
