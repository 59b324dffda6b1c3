-- ===== src/Kernel/Panic.antt =====
-- A kernel function returns, or calls `panic`, which stops the machine (kernel/printf.c).
use mits081_lab.Base.{Bool, true, false}

pub data Run {ℓ} (A : Type ℓ) : Type ℓ where
  ok : A → Run A
  panic : Run A

infixl 5 ◌>>=◌ ◌>>◌
abbrev pub ◌>>=◌ {ℓ κ} : {A : Type ℓ} {B : Type κ} → Run A → (A → Run B) → Run B
ok a >>= f = f a
panic >>= f = panic

abbrev pub ◌>>◌ {ℓ} : {B : Type ℓ} → Run (Unit {0}) → Run B → Run B
m >> k = m >>= λ _. k

-- `if(b) panic(...)`
abbrev pub panic_if : Bool → Run (Unit {0})
panic_if true = panic
panic_if false = ok tt
