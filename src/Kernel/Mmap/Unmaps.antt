-- ===== src/Kernel/Mmap/Unmaps.antt =====
-- What `sys_munmap` does on each of its branches.
use mits081_lab.Base.{
  ℕ, ◌+◌, ◌-◌, ◌/◌, ◌≤◌, ◌<◌, ◌≡◌, ◌≢◌, ◌%◌, true, false, Option, none, some, List, [], ◌∷◌, ◌++◌,
}
use mits081_lab.Kernel.Panic.{Run, ok}
use mits081_lab.Kernel.Disk.{update}
use mits081_lab.Kernel.Kalloc.{pgsize}
use mits081_lab.Kernel.File.{FileType, FileTable, fileclose}
use mits081_lab.Kernel.Mmap.{
  Vma, Proc, Call, nvma, minus_one, covers, shrink, unmap, write_back, release,
}
use mits081_lab.Kernel.Mmap.Layout.{IsLaidOut}

-- What is written back of a mapping: the range, if bit 0 of the flags, MAP_SHARED, is set, and else nothing.
pub data WrittenBack (v : Vma) (addr n : ℕ) : List Call → Type 0 where
  shared : v.flag % 2 ≡ 1 → WrittenBack v addr n (write_back v.f addr n ∷ [])
  private : v.flag % 2 ≡ 0 → WrittenBack v addr n []

-- The calls of `fileclose` of `f`: none while there are other references, and the release of the file after the last.
pub data LetGo (f : ℕ) : Option FileType → List Call → Type 0 where
  still_open : LetGo f none []
  let_go : (kind : FileType) → LetGo f (some kind) (release kind f ∷ [])

-- `w` is what is left of the mapping `v` without the range: its beginning moves only if the range begins with it.
pub record LeftOf (addr len : ℕ) (v w : Vma) : Type 0 where
  at_start : addr ≡ v.addr → w.addr ≡ addr + len
  at_end : addr ≢ v.addr → w.addr ≡ v.addr
  length : w.len ≡ v.len - len
  same_file : w.f ≡ v.f
  same_prot : w.prot ≡ v.prot
  same_flag : w.flag ≡ v.flag

-- What `sys_munmap` does to the mapping that covers the range: the first one that does.
pub data Unmapped (addr len : ℕ) (p : Proc) (t : FileTable)
    : Run (ℕ × List Call × Proc × FileTable) → Type 0 where
  not_covered :
      ((i : ℕ) → i < nvma → covers addr len (p.vma i) ≡ false)
      → Unmapped addr len p t (ok (minus_one, [], p, t))
  shortened :
      {back : List Call} (w : Vma) (i : ℕ)
      → i < nvma
      → ((j : ℕ) → j < i → covers addr len (p.vma j) ≡ false)
      → covers addr len (p.vma i) ≡ true
      → len < (p.vma i).len
      → WrittenBack (p.vma i) addr len back
      → LeftOf addr len (p.vma i) w
      → w.valid ≡ true
      → IsLaidOut p.sz (update p.vma i w)
      → Unmapped addr len p t
          (ok (0, back ++ unmap addr (len / pgsize) ∷ [], record p { vma = update p.vma i w }, t))
  removed :
      {kind : Option FileType} {t' : FileTable} {back gone : List Call} (w : Vma) (i : ℕ)
      → i < nvma
      → ((j : ℕ) → j < i → covers addr len (p.vma j) ≡ false)
      → covers addr len (p.vma i) ≡ true
      → (len ≡ (p.vma i).len) × (addr ≡ (p.vma i).addr)
      → WrittenBack (p.vma i) addr len back
      → w.valid ≡ false
      → IsLaidOut p.sz (update p.vma i w)
      → fileclose (p.vma i).f t ≡ ok (kind, t')
      → LetGo (p.vma i).f kind gone
      → Unmapped addr len p t (
          ok (
            0,
            back ++ (gone ++ unmap addr (len / pgsize) ∷ []),
            record p { vma = update p.vma i w },
            t',
          ))

record FirstCovering (addr len : ℕ) (vma : ℕ → Vma) (i end r : ℕ) : Type 0 where
  upto : r ≤ end
  found : r < end → covers addr len (vma r) ≡ true
  before : (j : ℕ) → i ≤ j → j < r → covers addr len (vma j) ≡ false

-- What is left of a mapping lies within it.
record Within (addr len : ℕ) (v : Vma) : Type 0 where
  used : v.valid ≡ true
  start : v.addr ≤ addr
  end : addr + len ≤ v.addr + v.len
  left : (shrink addr len v).len ≡ v.len - len
  lower : v.addr ≤ (shrink addr len v).addr
  upper : (shrink addr len v).addr + (v.len - len) ≤ v.addr + v.len
