-- ===== src/Kernel/Mmap.antt =====
-- mmap and munmap: sys_mmap and sys_munmap of kernel/sysfile.c, and the loops of fork and exit of
-- kernel/proc.c over a process's mappings. A C `int` is the number of its 32 bits, and `extend` is its value
-- as a `uint64`.

pub mod Layout
pub mod Maps
pub mod Unmaps
pub mod Fork
pub mod Exit
mod Tests
use mits081_lab.Base.{
  ℕ, zero, suc, ◌+◌, ◌-◌, ◌*◌, ◌/◌, ◌%◌, ◌^◌, Bool, true, false, not, ◌&&◌, Option, none, some,
  List, [], ◌∷◌, ◌++◌, ◌==◌, ltb, leb, if◌then◌else◌,
}
use mits081_lab.Kernel.Panic.{Run, ok, panic, ◌>>=◌, ◌>>◌, panic_if}
use mits081_lab.Kernel.Disk.{update}
use mits081_lab.Kernel.Kalloc.{pgsize}
use mits081_lab.Kernel.File.{FileType, FileTable, filedup, fileclose}

abbrev pub nofile : ℕ
nofile = 16

-- the length of `vma` in `struct proc`
abbrev pub nvma : ℕ
nvma = 16

-- `struct vm_area_struct`
pub record Vma : Type 0 where
  pub addr : ℕ
  pub len : ℕ
  pub prot : ℕ
  pub flag : ℕ
  pub f : ℕ
  pub offset : ℕ
  pub fd : ℕ
  pub valid : Bool

-- The fields of `struct proc` that mmap uses. `ofile` is what the array's index reads: for a negative `fd`
-- that is whatever lies before the array.
pub record Proc : Type 0 where
  pub sz : ℕ
  pub ofile : ℕ → ℕ
  pub vma : ℕ → Vma

abbrev pub extend : ℕ → ℕ
extend x = if ltb x (2 ^ 31) then x else x + (2 ^ 64 - 2 ^ 32)

-- `int` division by PGSIZE, as a `uint64`
abbrev pub pages : ℕ → ℕ
pages len = if ltb len (2 ^ 31) then len / pgsize else (2 ^ 64 - (2 ^ 32 - len) / pgsize) % 2 ^ 64

-- PROT_WRITE, MAP_SHARED and MAP_PRIVATE
abbrev pub may_write : ℕ → Bool
may_write prot = prot / 2 % 2 == 1

abbrev pub is_shared : ℕ → Bool
is_shared flag = flag % 2 == 1

abbrev pub is_private : ℕ → Bool
is_private flag = flag / 2 % 2 == 1

-- -1 as a `uint64`
abbrev pub minus_one : ℕ
minus_one = 2 ^ 64 - 1

-- The first slot from `i` on that is not in use, with `k` slots left, or the end.
pub find_free : (ℕ → Vma) → ℕ → ℕ → ℕ
find_free vma zero i = i
find_free vma (suc k) i = let rest = find_free vma k (i + 1) in if (vma i).valid then rest else i

abbrev pub new_vma : ℕ → ℕ → ℕ → ℕ → ℕ → ℕ → Vma
new_vma addr len prot flag fd f = record {
  addr = addr;
  len = len;
  prot = prot;
  flag = flag;
  f = f;
  offset = 0;
  fd = fd;
  valid = true;
}

-- What it returns, the process and the file table. A null `f` is a load from address 8, at which the kernel
-- panics (kerneltrap).
pub sys_mmap : ℕ → ℕ → ℕ → ℕ → Proc → FileTable → Run (ℕ × Proc × FileTable)
unfolding find_free
sys_mmap len prot flag fd p t =
    let f = p.ofile fd in
    let i = find_free p.vma nvma 0 in
    let taken = update p.vma i (new_vma p.sz len prot flag fd f) in
    if leb nofile fd && ltb fd (2 ^ 31) then ok (minus_one, p, t) else do
      panic_if (f == 0)
      if not (t.writable f) && may_write prot && not (is_private flag)
          then ok (minus_one, p, t)
          else do
            t' ← filedup f t
            if i == nvma
                then ok (minus_one, p, t')
                else ok (p.sz, record p { vma = taken; sz = (p.sz + extend len) % 2 ^ 64 }, t')

-- What a call does to other parts of the kernel: filewrite; the release of a pipe or an inode by fileclose,
-- of a file of this type; uvmunmap without freeing the pages.
pub data Call : Type 0 where
  write_back : (f addr n : ℕ) → Call
  release : FileType → ℕ → Call
  unmap : (addr npages : ℕ) → Call

-- the condition of `sys_munmap`'s loop
abbrev pub covers : ℕ → ℕ → Vma → Bool
covers addr len v =
    v.valid
    && leb v.addr addr
    && leb ((addr + extend len) % 2 ^ 64) ((v.addr + extend v.len) % 2 ^ 64)

pub find_covering : ℕ → ℕ → (ℕ → Vma) → ℕ → ℕ → ℕ
find_covering addr len vma zero i = i
find_covering addr len vma (suc k) i =
    let rest = find_covering addr len vma k (i + 1) in if covers addr len (vma i) then i else rest

abbrev pub shrink : ℕ → ℕ → Vma → Vma
shrink addr len v = record v {
  addr = if addr == v.addr then (addr + extend len) % 2 ^ 64 else v.addr;
  len = (v.len + 2 ^ 32 - len) % 2 ^ 32;
}

-- the call of fileclose, if it releases a pipe or an inode
abbrev pub released : ℕ → Option FileType → List Call
released f none = []
released f (some kind) = release kind f ∷ []

abbrev pub written : Vma → ℕ → ℕ → List Call
written v addr n = if is_shared v.flag then write_back v.f addr n ∷ [] else []

-- What `sys_munmap` does with the mapping in slot `i`: what it returns, its calls in order, the process and
-- the file table.
pub munmap_at : ℕ → ℕ → ℕ → Proc → FileTable → Run (ℕ × List Call × Proc × FileTable)
munmap_at i addr len p t =
    let v = p.vma i in
    let v₁ = shrink addr len v in
    let kept = record p { vma = update p.vma i v₁ } in
    let gone = record p { vma = update p.vma i (record v₁ { valid = false }) } in
    let back = written v addr len in
    let un = unmap addr (pages len) ∷ [] in
    if not (v₁.len == 0)
    then ok (0, back ++ un, kept, t)
    else do (kind, t') ← fileclose v.f t; ok (0, back ++ (released v.f kind ++ un), gone, t')

pub sys_munmap : ℕ → ℕ → Proc → FileTable → Run (ℕ × List Call × Proc × FileTable)
unfolding find_covering munmap_at
sys_munmap addr len p t =
    let i = find_covering addr len p.vma nvma 0 in
    let done = munmap_at i addr len p t in if i == nvma then ok (minus_one, [], p, t) else done

-- The loop of `fork` over the parent's mappings, with `k` slots left at `i`: the child's, and the table.
pub fork_vmas : (ℕ → Vma) → ℕ → ℕ → (ℕ → Vma) → FileTable → Run ((ℕ → Vma) × FileTable)
fork_vmas vma zero i child t = ok (child, t)
fork_vmas vma (suc k) i child t = elim (vma i).valid [
  | true ↦ do t' ← filedup (vma i).f t; fork_vmas vma k (i + 1) (update child i (vma i)) t'
  | false ↦ fork_vmas vma k (i + 1) child t
]

-- The loop of `exit` over the mappings.
pub exit_vmas : ℕ → ℕ → (ℕ → Vma) → FileTable → Run (List Call × (ℕ → Vma) × FileTable)
exit_vmas zero i vma t = ok ([], vma, t)
exit_vmas (suc k) i vma t =
    let v = vma i in
    elim v.valid [
      | true ↦ do
        (kind, t') ← fileclose v.f t
        (calls, vma', t'') ← exit_vmas k (i + 1) (update vma i (record v { valid = false })) t'
        ok (
          written v v.addr v.len ++ (released v.f kind ++ (unmap v.addr (pages v.len) ∷ calls)),
          vma',
          t'',
        )
      | false ↦ exit_vmas k (i + 1) vma t
    ]
