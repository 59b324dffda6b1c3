-- ===== src/User/Grep/Regex.antt =====
-- What a pattern means: the texts that it matches, as an inductive relation on the pattern's bytes.
use mits081_lab.Base.{ℕ, ◌≡◌, ◌≢◌, true, [], ◌∷◌, ◌++◌, ◌==◌, if◌then◌else◌}
use mits081_lab.User.Grep.{CString, accepts}

-- `Repeats c xs`: every byte of `xs` is one that `c` stands for.
pub data Repeats (c : ℕ) : CString → Type 0 where
  none_left : Repeats c []
  one_more : {t : ℕ} {xs : CString} → accepts c t ≡ true → Repeats c xs → Repeats c (t ∷ xs)

-- `NoStar re`: the first byte of `re`, if there is one, is not `*`.
abbrev pub NoStar : CString → Type 0
NoStar [] = Unit
NoStar (s ∷ re) = s ≢ b'*'

-- `Matches re text`: `re`, read without a leading `^`, matches a prefix of `text`.
pub data Matches : CString → CString → Type 0 where
  done : {text : CString} → Matches [] text
  star :
      {c s : ℕ} {re xs text whole : CString}
      → s ≡ b'*'
      → Repeats c xs
      → Matches re text
      → whole ≡ xs ++ text
      → Matches (c ∷ (s ∷ re)) whole
  at_end : {r : ℕ} → r ≡ b'$' → Matches (r ∷ []) []
  byte :
      {r t : ℕ} {re text : CString}
      → NoStar re
      → ((r ≡ b'$') × (re ≡ []) → ⊥)
      → accepts r t ≡ true
      → Matches re text
      → Matches (r ∷ re) (t ∷ text)

-- `Occurs re text`: `re` matches at some position of `text`.
pub data Occurs (re : CString) : CString → Type 0 where
  here : {text : CString} → Matches re text → Occurs re text
  later : {t : ℕ} {text : CString} → Occurs re text → Occurs re (t ∷ text)

-- What `match` is asked: a `^` in front anchors the pattern to the start of the text.
abbrev pub Finds : CString → CString → Type 0
Finds [] text = Occurs [] text
Finds (r ∷ re) text = if r == b'^' then Matches re text else Occurs (r ∷ re) text
