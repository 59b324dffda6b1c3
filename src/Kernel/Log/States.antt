-- ===== src/Kernel/Log/States.antt =====
-- What the disk may hold while a transaction commits, and after a loss of power.
use mits081_lab.Base.{
  ℕ, zero, suc, ◌+◌, ◌≤◌, ◌<◌, ◌≡◌, ◌≢◌, ◌⊎◌, inl, inr, List, [], ◌∷◌, arith, get_or, get_elem?,
  some, ℕ_discrete,
}
use mathlib.Core.Path.{subst}
use mits081_lab.Kernel.Disk.{Disk}
use mits081_lab.Kernel.Log.{Log, slot, log_size}

-- The log occupies the blocks from `start` to `start + size`; block `b` is none of them.
abbrev pub Outside : ℕ → ℕ → ℕ → Type 0
Outside start size b = (b < start) ⊎ (start + size ≤ b)

abbrev pub AllDisks : (Disk → Type 0) → List Disk → Type 0
AllDisks P [] = Unit
AllDisks P (d ∷ ds) = P d × AllDisks P ds

pub AllDisks-mono :
    {P Q : Disk → Type 0} (ds : List Disk)
    → ((d : Disk) → P d → Q d)
    → AllDisks P ds
    → AllDisks Q ds
AllDisks-mono [] f h = tt
AllDisks-mono (d ∷ ds) f h = (f d h.0, AllDisks-mono ds f h.1)

pub AllDisks-get :
    (P : Disk → Type 0) (ds : List Disk) (k : ℕ) (d : Disk)
    → AllDisks P ds
    → get_elem? ds k ≡ some d
    → P d
AllDisks-get P [] k d h e = absurd (ground arith)
AllDisks-get P (x ∷ ds) zero d h e = subst P (ground arith) h.0
AllDisks-get P (x ∷ ds) (suc k) d h e = AllDisks-get P ds k d h.1 e

-- A transaction: where the log is, the `n` blocks that it changes, what the disk held before it, and
-- what it makes of each block.
pub record Transaction : Type 0 where
  pub start : ℕ
  pub size : ℕ
  pub n : ℕ
  pub block : ℕ → ℕ
  pub old : Disk
  pub new : Disk

pub record IsTransaction (t : Transaction) : Type 0 where
  pub count : t.n ≤ log_size
  pub room : t.n < t.size
  pub outside : (i : ℕ) → i < t.n → Outside t.start t.size (t.block i)
  pub distinct : (i j : ℕ) → i < t.n → j < t.n → t.block i ≡ t.block j → i ≡ j
  pub kept :
      (b : ℕ) → Outside t.start t.size b → ((i : ℕ) → i < t.n → t.block i ≢ b) → t.old b ≡ t.new b

abbrev pub NotLogged : Transaction → ℕ → Type 0
NotLogged t b = (i : ℕ) → i < t.n → t.block i ≢ b

-- Before the header is written: the log is empty, and no block outside it has changed.
pub record Uncommitted (t : Transaction) (d : Disk) : Type 0 where
  pub header : get_or (d t.start) 0 0 ≡ 0
  pub home : (b : ℕ) → Outside t.start t.size b → d b ≡ t.old b

-- From the header's write to its erasure: the header names the transaction's blocks, and the log
-- holds them.
pub record Committed (t : Transaction) (d : Disk) : Type 0 where
  pub header : get_or (d t.start) 0 0 ≡ t.n
  pub slots : (j : ℕ) → j < t.n → get_or (d t.start) (j + 1) 0 ≡ t.block j
  pub logged : (j : ℕ) → j < t.n → d (t.start + j + 1) ≡ t.new (t.block j)
  pub home : (b : ℕ) → Outside t.start t.size b → NotLogged t b → d b ≡ t.new b

-- After that: the log is empty, and every block outside it is the new one.
pub record Installed (t : Transaction) (d : Disk) : Type 0 where
  pub header : get_or (d t.start) 0 0 ≡ 0
  pub home : (b : ℕ) → Outside t.start t.size b → d b ≡ t.new b

abbrev pub CrashPoint : Transaction → Disk → Type 0
CrashPoint t d = Uncommitted t d ⊎ Committed t d ⊎ Installed t d

-- The memory's log is about the transaction.
pub record Describes (l : Log) (t : Transaction) : Type 0 where
  pub start : l.start ≡ t.start
  pub size : l.size ≡ t.size
  pub n : l.lh.n ≡ t.n
  pub slots : (j : ℕ) → j < t.n → slot l.lh j ≡ t.block j

-- Whether one of the first `n` blocks of the transaction is `b`.
pub logged_cases :
    (f : ℕ → ℕ) (b n : ℕ) → ((i : ℕ) × (i < n) × (f i ≡ b)) ⊎ ((i : ℕ) → i < n → f i ≢ b)
logged_cases f b zero = inr (λ i h. absurd (omega arith))
logged_cases f b (suc n) = elim (logged_cases f b n) [
  | inl (i, h, e) ↦ inl (i, omega arith, e)
  | inr none_of ↦ elim (ℕ_discrete (f n) b) [
    | yes e ↦ inl (n, omega arith, e)
    | no ne ↦ inr (λ i h e. elim (ℕ_discrete i n) [
      | yes same ↦ ne (rw same at e)
      | no other ↦ none_of i (omega arith) e
    ])
  ]
]
