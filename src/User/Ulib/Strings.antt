-- ===== src/User/Ulib/Strings.antt =====
-- Strings and blocks of ulib.c.
use mits081_lab.Base.{
  ℕ, zero, suc, ◌+◌, ◌-◌, ◌*◌, ◌/◌, ◌%◌, ◌^◌, ◌<◌, ◌≡◌, refl, ◌∙◌, ap, ◌≢◌, inl, inr, true, false,
  List, [], ◌∷◌, get_or, arith, ==_iff, ==_false, ltb, leb, Bool-cases, ℕ_discrete,
}
use mits081_lab.Kernel.Strings.{Bytes}
use mits081_lab.Kernel.Strings.Blocks.{moved, copy_up_lem, copy_down_lem}
use mits081_lab.Kernel.Printf.{digits_from}
use mits081_lab.User.Printf.{digits, printint}
use mits081_lab.User.Ulib.{memmove, atoi_from, atoi}

-- The `memmove` of user programs makes the `n` bytes at `dst` what those at `src` were, whether the two blocks
-- overlap or not, and changes no other byte.
pub memmove_lem : (dst src n : ℕ) (m : Bytes) (q : ℕ) → memmove dst src n m q ≡ moved dst src n m q
unfolding memmove
memmove_lem dst src n m q = elim (Bool-cases (ltb dst src)) [
  | inl below ↦ rw below (copy_up_lem n dst src m (ground (arith, below)) q)
  | inr above ↦ rw above (copy_down_lem n dst src m (ground (arith, above)) q)
]

abbrev pow10 : ℕ → ℕ
pow10 zero = 1
pow10 (suc k) = 10 * pow10 k

digit_value : (d : ℕ) → d < 10 → get_or digits d 0 ≡ b'0' + d
digit_value zero h = refl
digit_value (suc zero) h = refl
digit_value (suc (suc zero)) h = refl
digit_value (suc (suc (suc zero))) h = refl
digit_value (suc (suc (suc (suc zero)))) h = refl
digit_value (suc (suc (suc (suc (suc zero))))) h = refl
digit_value (suc (suc (suc (suc (suc (suc zero)))))) h = refl
digit_value (suc (suc (suc (suc (suc (suc (suc zero))))))) h = refl
digit_value (suc (suc (suc (suc (suc (suc (suc (suc zero)))))))) h = refl
digit_value (suc (suc (suc (suc (suc (suc (suc (suc (suc zero))))))))) h = refl
digit_value (suc (suc (suc (suc (suc (suc (suc (suc (suc (suc d)))))))))) h = absurd (omega arith)

atoi_digit :
    (n x : ℕ) (s : List ℕ) → x < 10 → atoi_from n ((b'0' + x) ∷ s) ≡ atoi_from (n * 10 + x) s
unfolding atoi_from
atoi_digit n x s h =
    let same : n * 10 + (b'0' + x) - b'0' ≡ n * 10 + x = omega arith in
    ground (arith, ap (λ k. atoi_from k s) same)

digits-one :
    (fuel x : ℕ) (s : List ℕ)
    → x / 10 ≡ 0
    → digits_from digits (suc fuel) 10 x s ≡ (b'0' + x % 10) ∷ s
unfolding digits_from
digits-one fuel x s e = rw ((==_iff _ _).1 e) (ap (λ d. d ∷ s) (digit_value (x % 10) (omega arith)))

digits-more :
    (fuel x : ℕ) (s : List ℕ)
    → x / 10 ≢ 0
    → digits_from digits (suc fuel) 10 x s
      ≡ digits_from digits fuel 10 (x / 10) ((b'0' + x % 10) ∷ s)
unfolding digits_from
digits-more fuel x s ne =
    rw (==_false _ _ ne)
      (ap (λ d. digits_from digits fuel 10 (x / 10) (d ∷ s)) (digit_value (x % 10) (omega arith)))

atoi-digits_from :
    (fuel x : ℕ) (s : List ℕ)
    → x < pow10 fuel
    → 0 < fuel
    → atoi_from 0 (digits_from digits fuel 10 x s) ≡ atoi_from x s
atoi-digits_from zero x s h pos = absurd (omega arith)
atoi-digits_from (suc fuel) x s h pos = elim (ℕ_discrete (x / 10) 0) [
  | yes e ↦
      let same : 0 * 10 + x % 10 ≡ x = omega arith in
      ap (atoi_from 0) (digits-one fuel x s e)
      ∙ atoi_digit 0 (x % 10) s (omega arith)
      ∙ ap (λ k. atoi_from k s) same
  | no ne ↦
      let same : x / 10 * 10 + x % 10 ≡ x = omega arith in
      ap (atoi_from 0) (digits-more fuel x s ne)
      ∙ atoi-digits_from fuel (x / 10) ((b'0' + x % 10) ∷ s) (omega arith) (more fuel ne h)
      ∙ atoi_digit (x / 10) (x % 10) s (omega arith)
      ∙ ap (λ k. atoi_from k s) same
]
  where
    more : (fuel : ℕ) → x / 10 ≢ 0 → x < pow10 (suc fuel) → 0 < fuel
    more zero ne h = absurd (ne (omega arith))
    more (suc fuel) ne h = omega arith

-- `atoi` reads back what `printf` prints for `%d`: for every number that is not negative.
pub atoi-printint : (xx : ℕ) → xx < 2 ^ 31 → atoi (printint xx 10 true) ≡ xx
unfolding atoi printint
atoi-printint xx h =
    let plain : leb (2 ^ 31) xx ≡ false = ground arith in
    rw plain (atoi-digits_from 32 xx [] (omega arith) (omega arith))
