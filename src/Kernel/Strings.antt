-- ===== src/Kernel/Strings.antt =====
-- kernel/string.c: blocks of bytes and NUL-terminated strings, in a memory that gives the byte at each
-- address. `uint` counts and addresses do not wrap round; a loop counts the rounds that are left.
use mits081_lab.Base.{
  ℕ, zero, suc, ◌+◌, ◌-◌, ◌%◌, ◌^◌, Bool, true, false, not, ◌&&◌, Option, none, some, ◌==◌, ltb,
  leb, if◌then◌else◌, ℤ, pos, sub_ℕ,
}
use mits081_lab.Kernel.Disk.{update}
pub mod Compare
pub mod Blocks
pub mod Terminated
mod Tests

abbrev pub Bytes : Type 0
Bytes = ℕ → ℕ

-- The loop of `memset` with `k` bytes left at address `d`; `c` is converted to a `char`.
pub memset_from : ℕ → ℕ → ℕ → Bytes → Bytes
memset_from zero d c m = m
memset_from (suc k) d c m = memset_from k (d + 1) c (update m d (c % 2 ^ 8))

pub memset : ℕ → ℕ → ℕ → Bytes → Bytes
unfolding memset_from
memset dst c n m = memset_from n dst c m

-- The loop of `memcmp` with `k` bytes left.
pub memcmp : ℕ → ℕ → ℕ → Bytes → ℤ
memcmp s₁ s₂ zero m = pos 0
memcmp s₁ s₂ (suc k) m =
    let rest = memcmp (s₁ + 1) (s₂ + 1) k m in
    if not (m s₁ == m s₂) then sub_ℕ (m s₁) (m s₂) else rest

-- `while(n-- > 0) *d++ = *s++;`
unfoldable pub copy_up : ℕ → ℕ → ℕ → Bytes → Bytes
copy_up zero d s m = m
copy_up (suc k) d s m = copy_up k (d + 1) (s + 1) (update m d (m s))

-- `while(n-- > 0) *--d = *--s;`
unfoldable pub copy_down : ℕ → ℕ → ℕ → Bytes → Bytes
copy_down zero d s m = m
copy_down (suc k) d s m = copy_down k (d - 1) (s - 1) (update m (d - 1) (m (s - 1)))

pub memmove : ℕ → ℕ → ℕ → Bytes → Bytes
unfolding copy_up copy_down
memmove dst src n m =
    if n == 0
    then m
    else if ltb src dst && ltb dst (src + n)
    then copy_down n (dst + n) (src + n) m
    else copy_up n dst src m

pub memcpy : ℕ → ℕ → ℕ → Bytes → Bytes
unfolding memmove
memcpy dst src n m = memmove dst src n m

pub strncmp : ℕ → ℕ → ℕ → Bytes → ℤ
strncmp p q zero m = pos 0
strncmp p q (suc n) m =
    let rest = strncmp (p + 1) (q + 1) n m in
    if not (m p == 0) && (m p == m q) then rest else sub_ℕ (m p) (m q)

-- The two loops of `strncpy`, with `n` bytes left; the first copies, the second fills up.
pub fill_zero : ℕ → ℕ → Bytes → Bytes
fill_zero zero s m = m
fill_zero (suc n) s m = fill_zero n (s + 1) (update m s 0)

pub strncpy : ℕ → ℕ → ℕ → Bytes → Bytes
unfolding fill_zero
strncpy s t zero m = m
strncpy s t (suc n) m =
    let m₁ = update m s (m t) in
    let filled = fill_zero n (s + 1) m₁ in
    let rest = strncpy (s + 1) (t + 1) n m₁ in if m t == 0 then filled else rest

-- The loop of `safestrcpy` with `n` bytes left after the one at `s`, and its last write.
pub safestrcpy_from : ℕ → ℕ → ℕ → Bytes → Bytes
safestrcpy_from s t zero m = update m s 0
safestrcpy_from s t (suc n) m =
    let m₁ = update m s (m t) in
    let stop = update m₁ (s + 1) 0 in
    let rest = safestrcpy_from (s + 1) (t + 1) n m₁ in if m t == 0 then stop else rest

pub safestrcpy : ℕ → ℕ → ℕ → Bytes → Bytes
unfolding safestrcpy_from
safestrcpy s t zero m = m
safestrcpy s t (suc n) m = safestrcpy_from s t n m

-- The loop of `strlen` looks at no more than `fuel` bytes.
pub strlen_from : ℕ → ℕ → ℕ → Bytes → Option ℕ
strlen_from zero s n m = none
strlen_from (suc fuel) s n m =
    let rest = strlen_from fuel s (n + 1) m in if m (s + n) == 0 then some n else rest

pub strlen : ℕ → ℕ → Bytes → Option ℕ
unfolding strlen_from
strlen fuel s m = strlen_from fuel s 0 m
