-- ===== src/Kernel/Mmap/Exit.antt =====
-- The reference counts of files over exit's loop over the mappings.
use mits081_lab.Base.{ℕ, ◌+◌, ◌≤◌, ◌<◌, ◌≡◌, false}
use mits081_lab.Kernel.File.{FileTable}
use mits081_lab.Kernel.Mmap.{Vma}
use mits081_lab.Kernel.Mmap.Fork.{holds}

-- What the loop of `exit` leaves for the `k` slots from `i` on.
pub record Closed (vma : ℕ → Vma) (k i : ℕ) (t : FileTable) (vma' : ℕ → Vma) (t' : FileTable)
    : Type 0 where
  pub counts : (g : ℕ) → t'.ref g + holds vma g k i ≡ t.ref g
  pub gone : (j : ℕ) → i ≤ j → j < i + k → (vma' j).valid ≡ false
  pub before : (j : ℕ) → j < i → vma' j ≡ vma j
