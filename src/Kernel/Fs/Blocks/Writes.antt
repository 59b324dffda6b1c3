-- ===== src/Kernel/Fs/Blocks/Writes.antt =====
-- What a logged write changes.
use mits081_lab.Base.{ℕ, ◌≡◌, refl, Bool-cases, inl, inr, ◌||◌, ◌==◌, ==_iff, ==_false, ℕ_discrete}
use mits081_lab.Kernel.Fs.Blocks.{Fs, log_write, mem}

pub log_write-blocks : (b : ℕ) (s : Fs) → (log_write b s).blocks ≡ s.blocks
unfolding log_write
log_write-blocks b s = elim (Bool-cases (mem b s.logged)) [ inl e ↦ rw e refl | inr e ↦ rw e refl ]

-- Every block stays in the list, and `b` is in it.
pub mem-log_write : (c b : ℕ) (s : Fs) → mem c (log_write b s).logged ≡ (c == b || mem c s.logged)
unfolding log_write
mem-log_write c b s = elim (Bool-cases (mem b s.logged)) [
  | inr e ↦ rw e refl
  | inl e ↦ rw e (elim (ℕ_discrete c b) [
    | yes same ↦ rw (same, e, (==_iff b b).1 refl) refl
    | no ne ↦ rw (==_false c b ne) refl
  ])
]
