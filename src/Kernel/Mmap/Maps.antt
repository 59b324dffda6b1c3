-- ===== src/Kernel/Mmap/Maps.antt =====
-- What `sys_mmap` does on each of its branches.
use mits081_lab.Base.{
  ℕ, ◌+◌, ◌%◌, ◌^◌, ◌≤◌, ◌<◌, ◌≡◌, inr, true, false, arith, ◌==◌, if◌then◌else◌, ==_iff, ==_false,
  ℕ_discrete,
}
use mits081_lab.Kernel.Panic.{Run, ok, panic}
use mits081_lab.Kernel.Disk.{update}
use mits081_lab.Kernel.File.{FileTable, filedup}
use mits081_lab.Kernel.Mmap.{
  Proc, nvma, nofile, extend, may_write, is_private, minus_one, find_free, new_vma,
}
use mits081_lab.Kernel.Mmap.Layout.{IsLaidOut, IsLaidOut-update, FirstFree, find_free-FirstFree}

-- What `sys_mmap` does, for a descriptor with file `p.ofile fd`.
pub data Mapped (len prot flag fd : ℕ) (p : Proc) (t : FileTable)
    : Run (ℕ × Proc × FileTable) → Type 0 where
  no_descriptor : nofile ≤ fd → fd < 2 ^ 31 → Mapped len prot flag fd p t (ok (minus_one, p, t))
  no_file : p.ofile fd ≡ 0 → Mapped len prot flag fd p t panic
  read_only :
      t.writable (p.ofile fd) ≡ false
      → may_write prot ≡ true
      → is_private flag ≡ false
      → Mapped len prot flag fd p t (ok (minus_one, p, t))
  closed : t.ref (p.ofile fd) ≡ 0 → Mapped len prot flag fd p t panic
  leaked :
      ((i : ℕ) → i < nvma → (p.vma i).valid ≡ true)
      → (t' : FileTable) → filedup (p.ofile fd) t ≡ ok t'
      → Mapped len prot flag fd p t (ok (minus_one, p, t'))
  mapped :
      (i : ℕ)
      → i < nvma
      → (p.vma i).valid ≡ false
      → IsLaidOut (p.sz + len) (update p.vma i (new_vma p.sz len prot flag fd (p.ofile fd)))
      → (t' : FileTable) → filedup (p.ofile fd) t ≡ ok t'
      → Mapped len prot flag fd p t (
          ok (
            p.sz,
            record p {
              vma = update p.vma i (new_vma p.sz len prot flag fd (p.ofile fd));
              sz = p.sz + len;
            },
            t',
          ))

module _ (len prot flag fd : ℕ) (p : Proc) (t : FileTable) (l : IsLaidOut p.sz p.vma)
    (small : len < 2 ^ 31) (fits : p.sz + len < 2 ^ 64) where
  abbrev f : ℕ
  f = p.ofile fd

  -- a mapping at the end of the process
  IsLaidOut-new :
      (i : ℕ) → IsLaidOut (p.sz + len) (update p.vma i (new_vma p.sz len prot flag fd f))
  IsLaidOut-new i =
      IsLaidOut-update p.sz (p.sz + len) p.vma l (omega arith) fits i
        (new_vma p.sz len prot flag fd f) (λ _. (small, omega arith))
        (λ j hj ne _ used. inr (l.fits j hj used).1)

  first : FirstFree p.vma 0 nvma (find_free p.vma nvma 0)
  first = find_free-FirstFree p.vma nvma 0 nvma (omega arith)

  grown : (p.sz + extend len) % 2 ^ 64 ≡ p.sz + len
  grown = ground arith

  taken :
      (t' : FileTable)
      → filedup f t ≡ ok t'
      → Mapped len prot flag fd p t (
          if find_free p.vma nvma 0 == nvma
          then ok (minus_one, p, t')
          else ok (
            p.sz,
            record p {
              vma = update p.vma (find_free p.vma nvma 0) (new_vma p.sz len prot flag fd f);
              sz = (p.sz + extend len) % 2 ^ 64;
            },
            t',
          ))
  taken t' e = elim (ℕ_discrete (find_free p.vma nvma 0) nvma) [
    | yes none_free ↦
        rw ((==_iff _ _).1 none_free)
          (leaked (λ i h. first.before i (omega arith) (omega arith)) t' e)
    | no free ↦
        rw (==_false _ _ free, grown)
          (mapped (find_free p.vma nvma 0) (omega (arith, first.upto))
            (first.found (omega (arith, first.upto))) (IsLaidOut-new (find_free p.vma nvma 0)) t' e)
  ]
