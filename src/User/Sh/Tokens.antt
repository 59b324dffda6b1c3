-- ===== src/User/Sh/Tokens.antt =====
-- How much of the text a token takes, and what holds of the outcome of a parsing function.
use mits081_lab.Base.{
  ℕ, suc, ◌≤◌, ◌<◌, ◌≡◌, refl, ◌≢◌, ◌⊎◌, inl, inr, Bool, true, false, [], ◌∷◌, arith, if◌then◌else◌,
  Bool-cases, length,
}
use mits081_lab.User.Sh.{
  Text, Parsed, ok, panic, ◌>>=◌, is_space, greater, skip, word, token, gettoken, starts,
}

-- The function has kept within its fuel, and `P` holds of its result if it has one.
pub data Ensures {ℓ κ} {A : Type ℓ} (P : A → Type κ) : Parsed A → Type (ℓ ⊔ κ) where
  holds : {a : A} → P a → Ensures P (ok a)
  stops : Ensures P panic

module _ {ℓ κ} {A : Type ℓ} {P : A → Type κ} where
  pub Ensures-cases : {r : Parsed A} → Ensures P r → (r ≡ panic) ⊎ ((a : A) × (r ≡ ok a) × P a)
  Ensures-cases (holds {a} h) = inr (a, refl, h)
  Ensures-cases stops = inl refl

  pub Ensures-if :
      (b : Bool) {x y : Parsed A}
      → (b ≡ true → Ensures P x)
      → (b ≡ false → Ensures P y)
      → Ensures P (if b then x else y)
  Ensures-if true hx hy = hx refl
  Ensures-if false hx hy = hy refl

  pub Ensures-bind {ℓ' κ'} :
      {B : Type ℓ'} {Q : B → Type κ'} {r : Parsed A} {f : A → Parsed B}
      → Ensures P r
      → ((a : A) → P a → Ensures Q (f a))
      → Ensures Q (r >>= f)
  Ensures-bind (holds {a} h) k = k a h
  Ensures-bind stops k = stops

module _ {ℓ κ} {A : Type ℓ} {P Q : A → Type κ} where
  pub Ensures-weaken : {r : Parsed A} → Ensures P r → ((a : A) → P a → Q a) → Ensures Q r
  Ensures-weaken (holds {a} h) k = holds (k a h)
  Ensures-weaken stops k = stops

pub length-skip : (s : Text) → length (skip s) ≤ length s
unfolding skip
length-skip [] = omega arith
length-skip (c ∷ s) = ground (arith, length-skip s)

-- `skip` stops at the end or at a byte that is no white space.
pub skip-head : (s : Text) {c : ℕ} {s' : Text} → skip s ≡ c ∷ s' → is_space c ≡ false
unfolding skip
skip-head [] e = cc
skip-head (d ∷ s) {c} e = elim (Bool-cases (is_space d)) [
  | inl white ↦ skip-head s (rw white at e)
  | inr black ↦ ground (arith, e, black)
]

length-word : (s : Text) → length (word s).1 ≤ length s
unfolding word
length-word [] = omega arith
length-word (c ∷ s) = ground (arith, length-word s)

length-greater : (s : Text) → length (greater s).2 ≤ length s
unfolding greater
length-greater [] = omega arith
length-greater (d ∷ s) = ground arith

-- A token takes a byte at least.
token-lt : (c : ℕ) (s : Text) → is_space c ≡ false → length (token (c ∷ s)).2 < suc (length s)
unfolding token word
token-lt c s black = ground (arith, black, length-greater s, length-word s)

skip-black : (c : ℕ) (s : Text) → is_space c ≡ false → skip (c ∷ s) ≡ c ∷ s
unfolding skip
skip-black c s black = rw black refl

pub gettoken-lt :
    (s : Text) (c : ℕ) (s' : Text)
    → skip s ≡ c ∷ s'
    → length (gettoken (skip s)).2 < length (skip s)
unfolding gettoken
gettoken-lt s c s' e =
    let stay : skip (c ∷ s') ≡ c ∷ s' = skip-black c s' (skip-head s e) in
    rw (e, stay) (omega (arith, length-skip (token (c ∷ s')).2, token-lt c s' (skip-head s e)))

starts-nil : (toks : Text) → starts toks [] ≡ true → ⊥
unfolding starts
starts-nil toks h = cc

-- A byte of `toks` is there to be taken.
pub starts-lt :
    (toks s : Text) → starts toks (skip s) ≡ true → length (gettoken (skip s)).2 < length (skip s)
starts-lt toks s h = go (skip s) refl h
  where
    go :
        (r : Text)
        → skip s ≡ r
        → starts toks r ≡ true
        → length (gettoken (skip s)).2 < length (skip s)
    go [] e h = absurd (starts-nil toks h)
    go (c ∷ s') e h = gettoken-lt s c s' e

gettoken-nil : (gettoken []).0 ≡ 0
unfolding gettoken skip token
gettoken-nil = refl

-- A token of kind `a` is not empty.
pub word-lt :
    (s : Text) → (gettoken (skip s)).0 ≢ 0 → length (gettoken (skip s)).2 < length (skip s)
word-lt s h = go (skip s) refl h
  where
    go :
        (r : Text)
        → skip s ≡ r
        → (gettoken r).0 ≢ 0
        → length (gettoken (skip s)).2 < length (skip s)
    go [] e h = absurd (h gettoken-nil)
    go (c ∷ s') e h = gettoken-lt s c s' e

length-token : (s : Text) → length (token s).2 ≤ length s
unfolding token
length-token [] = omega arith
length-token (c ∷ s) = ground (arith, length-greater s, length-word (c ∷ s))

pub length-gettoken : (s : Text) → length (gettoken s).2 ≤ length s
unfolding gettoken
length-gettoken s =
    omega (arith, length-skip (token (skip s)).2, length-token (skip s), length-skip s)
