-- ===== src/Kernel/Copy.antt =====
-- kernel/vm.c: copies between the kernel and a process. `tr` is what walkaddr returns for the address of a page of the process,
-- 0 where it has none; memory is the bytes at physical addresses, where the kernel's own are the same.
pub mod In
mod Tests
use mits081_lab.Base.{
  ℕ, zero, suc, ◌+◌, ◌-◌, ◌*◌, ◌/◌, ◌%◌, Bool, true, false, ◌==◌, ltb, not, if◌then◌else◌,
}
use mits081_lab.Kernel.Kalloc.{pgsize, pgrounddown}
use mits081_lab.Kernel.Strings.{Bytes, memmove}
use mits081_lab.Kernel.Disk.{update}

-- The length of the copy in a round.
abbrev pub in_page : ℕ → ℕ → ℕ
in_page va len = let n = pgsize - (va - pgrounddown va) in if ltb len n then len else n

module _ (tr : ℕ → ℕ) where
  -- The loops, with `k` rounds left; `false` stands for -1.
  unfoldable pub copyin_from : ℕ → ℕ → ℕ → ℕ → Bytes → Bool × Bytes
  copyin_from zero dst srcva len m = (true, m)
  copyin_from (suc k) dst srcva len m =
      let va0 = pgrounddown srcva in
      let n = in_page srcva len in
      let rest =
        copyin_from k (dst + n) (va0 + pgsize) (len - n)
          (memmove dst (tr va0 + (srcva - va0)) n m) in
      if not (ltb 0 len) then (true, m) else if tr va0 == 0 then (false, m) else rest

  unfoldable pub copyin : ℕ → ℕ → ℕ → Bytes → Bool × Bytes
  copyin dst srcva len m = copyin_from len dst srcva len m

  unfoldable pub copyout_from : ℕ → ℕ → ℕ → ℕ → Bytes → Bool × Bytes
  copyout_from zero dstva src len m = (true, m)
  copyout_from (suc k) dstva src len m =
      let va0 = pgrounddown dstva in
      let n = in_page dstva len in
      let rest =
        copyout_from k (va0 + pgsize) (src + n) (len - n)
          (memmove (tr va0 + (dstva - va0)) src n m) in
      if not (ltb 0 len) then (true, m) else if tr va0 == 0 then (false, m) else rest

  unfoldable pub copyout : ℕ → ℕ → ℕ → Bytes → Bool × Bytes
  copyout dstva src len m = copyout_from len dstva src len m

-- The inner loop of `copyinstr`, over `n` bytes at `p`: whether it met the NUL, and the memory.
unfoldable pub copyinstr_page : ℕ → ℕ → ℕ → Bytes → Bool × Bytes
copyinstr_page zero dst p m = (false, m)
copyinstr_page (suc n) dst p m =
    let rest = copyinstr_page n (dst + 1) (p + 1) (update m dst (m p)) in
    if m p == 0 then (true, update m dst 0) else rest

module _ (tr : ℕ → ℕ) where
  -- A round of `copyinstr` after its inner loop.
  abbrev pub copyinstr_next : Bool × Bytes → (Bytes → Bool × Bytes) → Bool × Bytes
  copyinstr_next (true, m) rest = (true, m)
  copyinstr_next (false, m) rest = rest m

  -- `copyinstr`, with `k` rounds left; a round that does not meet the NUL has copied all its bytes.
  unfoldable pub copyinstr_from : ℕ → ℕ → ℕ → ℕ → Bytes → Bool × Bytes
  copyinstr_from zero dst srcva max m = (false, m)
  copyinstr_from (suc k) dst srcva max m =
      let va0 = pgrounddown srcva in
      let n = in_page srcva max in
      let round =
        copyinstr_next (copyinstr_page n dst (tr va0 + (srcva - va0)) m)
          (λ m'. copyinstr_from k (dst + n) (va0 + pgsize) (max - n) m') in
      if not (ltb 0 max) then (false, m) else if tr va0 == 0 then (false, m) else round

  unfoldable pub copyinstr : ℕ → ℕ → ℕ → Bytes → Bool × Bytes
  copyinstr dst srcva max m = copyinstr_from max dst srcva max m
