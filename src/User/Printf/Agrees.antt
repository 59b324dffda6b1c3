-- ===== src/User/Printf/Agrees.antt =====
-- The two printf functions agree on the directives that they share.
use mits081_lab.Base.{
  ℕ, zero, suc, ◌+◌, ◌-◌, ◌/◌, ◌%◌, ◌^◌, ◌<◌, ◌≡◌, refl, ap, ◌≢◌, true, false, List, [], ◌∷◌, ◌++◌,
  get_or, arith, ◌==◌, ==_iff, ==_false, if◌then◌else◌,
}
use mits081_lab.Kernel.Printf
use mits081_lab.Kernel.Printf.{digits_from, is_negative, max_digits}
use mits081_lab.User.Printf.{digits, printint, directive, vprintf_from, vprintf}

digit_same : (d : ℕ) → d < 10 → get_or digits d 0 ≡ get_or Printf.digits d 0
digit_same zero h = refl
digit_same (suc zero) h = refl
digit_same (suc (suc zero)) h = refl
digit_same (suc (suc (suc zero))) h = refl
digit_same (suc (suc (suc (suc zero)))) h = refl
digit_same (suc (suc (suc (suc (suc zero))))) h = refl
digit_same (suc (suc (suc (suc (suc (suc zero)))))) h = refl
digit_same (suc (suc (suc (suc (suc (suc (suc zero))))))) h = refl
digit_same (suc (suc (suc (suc (suc (suc (suc (suc zero)))))))) h = refl
digit_same (suc (suc (suc (suc (suc (suc (suc (suc (suc zero))))))))) h = refl
digit_same (suc (suc (suc (suc (suc (suc (suc (suc (suc (suc d)))))))))) h = absurd (omega arith)

digits_from_same :
    (fuel x : ℕ) (s : List ℕ)
    → digits_from digits fuel 10 x s ≡ digits_from Printf.digits fuel 10 x s
unfolding digits_from
digits_from_same zero x s = refl
digits_from_same (suc fuel) x s = rw (digit_same (x % 10) (omega arith)) (
    ap (λ rest. if x / 10 == 0 then get_or Printf.digits (x % 10) 0 ∷ s else rest)
      (digits_from_same fuel (x / 10) (get_or Printf.digits (x % 10) 0 ∷ s)))

printint_same : (xx : ℕ) → printint xx 10 true ≡ Printf.printint xx 10 true
unfolding printint Printf.printint
printint_same xx =
    ground (arith, digits_from_same max_digits (2 ^ 32 - xx) [], digits_from_same max_digits xx [])

-- A directive that both print alike: any but `%x`, `%p`, `%l` and `%c`.
unfoldable pub IsCommon : ℕ → Type 0
IsCommon c = (c ≢ b'x') × (c ≢ b'p') × (c ≢ b'l') × (c ≢ b'c')

-- A format with no other directives.
pub data Common : List ℕ → Type 0 where
  empty : Common []
  lone : {c : ℕ} → c ≡ b'%' → Common (c ∷ [])
  plain : {c : ℕ} {fmt : List ℕ} → c ≢ b'%' → Common fmt → Common (c ∷ fmt)
  percent : {c d : ℕ} {fmt : List ℕ} → c ≡ b'%' → IsCommon d → Common fmt → Common (c ∷ (d ∷ fmt))

percent_same :
    (c : ℕ)
    → ◌≡◌ {A = List ℕ × ℕ}
        (if c == b'%' then (c ∷ [], 0) else (b'%' ∷ (c ∷ []), 0))
        (if c == b'%' then (b'%' ∷ [], 0) else (b'%' ∷ (c ∷ []), 0))
percent_same c = ground arith

module _ (args : ℕ → ℕ) (text : ℕ → List ℕ) where
  directive_same : (c a : ℕ) → IsCommon c → directive args text c a ≡ Printf.directive args text c a
  unfolding directive Printf.directive IsCommon
  directive_same c a h =
      rw
        (
          ==_false c b'x' h.0,
          ==_false c b'p' h.1,
          ==_false c b'l' h.2,
          ==_false c b'c' h.3,
          printint_same (args a % 2 ^ 32),
          percent_same c,
        )
        refl

  vprintf_from_same :
      {fmt : List ℕ}
      → Common fmt
      → (a : ℕ) → vprintf_from args text false a fmt ≡ Printf.printf_from args text a fmt
  unfolding vprintf_from Printf.printf_from
  vprintf_from_same empty a = refl
  vprintf_from_same (lone e) a = rw ((==_iff _ _).1 e) refl
  vprintf_from_same (plain {fmt = []} ne h) a = rw (==_false _ _ ne) refl
  vprintf_from_same (plain {c = c} {fmt = d ∷ fmt} ne h) a =
      rw (==_false _ _ ne) (ap (λ l. c ∷ l) (vprintf_from_same h a))
  vprintf_from_same (percent {c = c} {d = d} {fmt = fmt} e common h) a =
      rw ((==_iff _ _).1 e, directive_same d a common)
        (ap (λ l. (Printf.directive args text d a).0 ++ l)
          (vprintf_from_same h (a + (Printf.directive args text d a).1)))

  -- On a format whose directives are none of `%x`, `%p`, `%l` and `%c`, user programs' printf prints what the
  -- kernel's prints, also for unknown directives and for a `%` at the end.
  pub vprintf-printf :
      (fmt : List ℕ) → Common fmt → vprintf args text fmt ≡ Printf.printf args text fmt
  unfolding vprintf Printf.printf
  vprintf-printf fmt h = vprintf_from_same h 0
