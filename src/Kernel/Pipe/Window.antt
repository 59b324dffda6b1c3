-- ===== src/Kernel/Pipe/Window.antt =====
-- The bytes that a pipe holds, and what one byte in or out does to them.
use mits081_lab.Base.{
  ℕ, zero, suc, ◌+◌, ◌-◌, ◌%◌, ◌^◌, ◌≤◌, ◌<◌, ◌≡◌, refl, ◌∙◌, ap, ap₂, ◌↔◌, true, List, [], ◌∷◌,
  ◌++◌, arith, length, get_or, set, get_or-set_self, get_or-set_ne, ==_iff,
}
use mits081_lab.Kernel.Pipe.{Pipe, pipesize, add_uint, empty, full}

module _ (bytes : List ℕ) where
  -- the `n` bytes from counter `r` on
  abbrev pub window : ℕ → ℕ → List ℕ
  window r zero = []
  window r (suc n) = get_or bytes (r % pipesize) 0 ∷ window (add_uint r 1) n

  length-window : (r n : ℕ) → length (window r n) ≡ n
  length-window r zero = refl
  length-window r (suc n) = ap suc (length-window (add_uint r 1) n)

-- how many bytes the pipe holds: `nwrite - nread` in `uint`
abbrev pub count : Pipe → ℕ
count p = (p.nwrite + 2 ^ 32 - p.nread) % 2 ^ 32

abbrev pub contents : Pipe → List ℕ
contents p = window p.bytes p.nread (count p)

pub record IsValid (p : Pipe) : Type 0 where
  pub room : length p.bytes ≡ pipesize
  pub nread_uint : p.nread < 2 ^ 32
  pub nwrite_uint : p.nwrite < 2 ^ 32
  pub within : count p ≤ pipesize

pub length-contents : (p : Pipe) → length (contents p) ≡ count p
length-contents p = length-window p.bytes p.nread (count p)

-- Writing at the end of a window that is not full extends it by that byte.
pub window-set :
    (bytes : List ℕ) (x n r i : ℕ)
    → length bytes ≡ pipesize
    → n < pipesize
    → i ≡ (r + n) % pipesize
    → window (set bytes i x) r (suc n) ≡ window bytes r n ++ x ∷ []
window-set bytes x zero r i len h e =
    ap (λ y. y ∷ [])
      (ap (λ j. get_or (set bytes i x) j 0) same ∙ get_or-set_self bytes i x 0 (omega arith))
  where
    same : r % pipesize ≡ i
    same = omega arith
window-set bytes x (suc n) r i len h e =
    ap₂ ◌∷◌ (get_or-set_ne bytes i (r % pipesize) x 0 (omega arith))
      (window-set bytes x n (add_uint r 1) i len (omega arith) (omega arith))

pub count-full : (p : Pipe) → IsValid p → (full p ≡ true) ↔ (count p ≡ pipesize)
unfolding full
count-full p v = (λ e. omega (arith, (==_iff _ _).0 e), λ e. (==_iff _ _).1 (omega arith))

pub count-empty : (p : Pipe) → IsValid p → (empty p ≡ true) ↔ (count p ≡ 0)
unfolding empty
count-empty p v = (λ e. omega (arith, (==_iff _ _).0 e), λ e. (==_iff _ _).1 (omega arith))
