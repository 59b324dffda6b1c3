-- ===== src/Kernel/Copy/Tests.antt =====
-- Runs of the copies, for a process whose page 0x1000 is the page at 0x9000.
use mits081_lab.Base.{ℕ, ◌%◌, ◌≡◌, refl, true, false, ◌==◌, if◌then◌else◌, arith}
use mits081_lab.Kernel.Strings.{Bytes}
use mits081_lab.Kernel.Copy.{
  copyin, copyin_from, copyout, copyout_from, copyinstr, copyinstr_from, copyinstr_page,
}
use mits081_lab.Kernel.Copy.In.{Away, CopiedIn, copyin-CopiedIn}

abbrev one_page : ℕ → ℕ
one_page va0 = if va0 == 4096 then 36864 else 0

-- The byte at each address is its last one.
abbrev low_bytes : Bytes
low_bytes a = a % 256

one_page-Away : Away one_page 50000 4 8190 4
unfolding Away
one_page-Away i lt = ground (arith, lt)

-- The last two bytes of the page are there, the next page is not.
copyin-CopiedIn_example :
    CopiedIn one_page 50000 8190 4 low_bytes (copyin one_page 50000 8190 4 low_bytes)
copyin-CopiedIn_example = copyin-CopiedIn one_page 50000 8190 4 low_bytes one_page-Away

copyin_fails : (copyin one_page 50000 8190 4 low_bytes).0 ≡ false
unfolding copyin copyin_from
copyin_fails = refl

copyout_fails : (copyout one_page 100 50001 2 low_bytes).0 ≡ false
unfolding copyout copyout_from
copyout_fails = refl

copyinstr_ends : (copyinstr one_page 50000 4350 100 low_bytes).0 ≡ true
unfolding copyinstr copyinstr_from copyinstr_page
copyinstr_ends = refl
