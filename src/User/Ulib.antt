-- ===== src/User/Ulib.antt =====
-- user/ulib.c: the C library of user programs. The memory gives the byte at each address; a loop over a string
-- looks at no more than `fuel` bytes.
pub mod Strings
mod Tests
use mits081_lab.Base.{
  ℕ, zero, suc, ◌+◌, ◌-◌, ◌*◌, Bool, true, false, not, ◌&&◌, ◌||◌, Option, none, some, List, [],
  ◌∷◌, ◌==◌, ltb, leb, if◌then◌else◌, ℤ, sub_ℕ,
}
use mits081_lab.Kernel.Disk.{update}
use mits081_lab.Kernel.Strings.{Bytes, copy_up, copy_down}

pub strcpy : ℕ → ℕ → ℕ → Bytes → Option Bytes
strcpy zero s t m = none
strcpy (suc fuel) s t m =
    let m₁ = update m s (m t) in
    let rest = strcpy fuel (s + 1) (t + 1) m₁ in if m t == 0 then some m₁ else rest

pub strcmp : ℕ → ℕ → ℕ → Bytes → Option ℤ
strcmp zero p q m = none
strcmp (suc fuel) p q m =
    let rest = strcmp fuel (p + 1) (q + 1) m in
    if not (m p == 0) && (m p == m q) then rest else some (sub_ℕ (m p) (m q))

-- The address of the first `c`, or 0.
pub strchr : ℕ → ℕ → ℕ → Bytes → Option ℕ
strchr zero s c m = none
strchr (suc fuel) s c m =
    let rest = strchr fuel (s + 1) c m in
    if m s == 0 then some 0 else if m s == c then some s else rest

-- The loop of `gets` with room for `k` bytes at `s` before the NUL: what is left of the input, and the memory.
-- Each `read` of one byte takes the next byte of the input, or returns 0 or -1 where there is none.
pub gets_from : ℕ → ℕ → List ℕ → Bytes → List ℕ × Bytes
gets_from zero s input m = (input, update m s 0)
gets_from (suc k) s [] m = ([], update m s 0)
gets_from (suc k) s (c ∷ input) m =
    let m₁ = update m s c in
    let rest = gets_from k (s + 1) input m₁ in
    if c == b'\n' || c == b'\r' then (input, update m₁ (s + 1) 0) else rest

-- `max` is at least 1.
pub gets : ℕ → ℕ → List ℕ → Bytes → List ℕ × Bytes
unfolding gets_from
gets buf max input m = gets_from (max - 1) buf input m

-- The loop of `atoi` over a string, given as the list of its bytes before the NUL.
pub atoi_from : ℕ → List ℕ → ℕ
atoi_from n [] = n
atoi_from n (c ∷ s) =
    let rest = atoi_from (n * 10 + c - b'0') s in if leb b'0' c && leb c b'9' then rest else n

pub atoi : List ℕ → ℕ
unfolding atoi_from
atoi s = atoi_from 0 s

pub memmove : ℕ → ℕ → ℕ → Bytes → Bytes
unfolding copy_up copy_down
memmove dst src n m = if ltb dst src then copy_up n dst src m else copy_down n (dst + n) (src + n) m
