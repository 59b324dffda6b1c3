-- ===== src/Kernel/Log/Atomic.antt =====
-- The contract of the log: a commit is atomic and durable, and recovery can be interrupted.
use mits081_lab.Base.{
  ℕ, ◌≤◌, ◌<◌, ◌≡◌, refl, ◌∙◌, sym, ◌≢◌, ◌⊎◌, inl, inr, [], arith, get_or, length, get_elem?, some,
  dec_lt,
}
use mathlib.Core.Path.{subst}
use mits081_lab.Kernel.Disk.{Disk, Store, boot, disks, words_per_block}
use mits081_lab.Kernel.Log.{Log, slot, commit, initlog, log_size}
use mits081_lab.Kernel.Log.States.{
  Outside, AllDisks, AllDisks-get, Transaction, IsTransaction, Uncommitted, Installed, CrashPoint,
  Describes,
}
use mits081_lab.Kernel.Log.Install.{Finished}
use mits081_lab.Kernel.Log.Commit.{commit-Finished, committed}
use mits081_lab.Kernel.Log.Recover.{initlog-empty, initlog-Finished}

-- What holds when `end_op` calls `commit`: the header on the disk is empty, the logged blocks are few
-- enough, distinct and outside the log, and every block that the cache has changed is logged.
pub record IsReady (l : Log) (s : Store) : Type 0 where
  pub array : length l.lh.block ≡ log_size
  pub count : l.lh.n ≤ log_size
  pub room : l.lh.n < l.size
  pub header_size : length (s.buf l.start) ≡ words_per_block
  pub header_empty : get_or (s.disk l.start) 0 0 ≡ 0
  pub outside : (i : ℕ) → i < l.lh.n → Outside l.start l.size (slot l.lh i)
  pub distinct : (i j : ℕ) → i < l.lh.n → j < l.lh.n → slot l.lh i ≡ slot l.lh j → i ≡ j
  pub clean :
      (b : ℕ)
      → Outside l.start l.size b
      → ((i : ℕ) → i < l.lh.n → slot l.lh i ≢ b)
      → s.disk b ≡ s.buf b

-- The disk after a reboot with disk `d`, when `initlog` has recovered.
abbrev pub after_reboot : Log → Disk → Disk
after_reboot l d = (initlog l.start l.size (boot d)).1.disk

-- Disks `d` and `e` hold the same blocks outside the log.
abbrev pub SameHome : Log → Disk → Disk → Type 0
SameHome l d e = (b : ℕ) → Outside l.start l.size b → d b ≡ e b

module _ (l : Log) (s : Store) where
  abbrev pub transaction : Transaction
  transaction = record {
    start = l.start;
    size = l.size;
    n = l.lh.n;
    block = slot l.lh;
    old = s.disk;
    new = s.buf;
  }

  module _ (r : IsReady l s) where
    pub is_transaction : IsTransaction transaction
    is_transaction = record {
      count = r.count;
      room = r.room;
      outside = r.outside;
      distinct = r.distinct;
      kept = r.clean;
    }

    describes : Describes l transaction
    describes = record { start = refl; size = refl; n = refl; slots = λ j h. refl }

    uncommitted : Uncommitted transaction s.disk
    uncommitted = record { header = r.header_empty; home = λ b out. refl }

    finished :
        0 < l.lh.n
        → s.past ≡ []
        → Finished transaction is_transaction
            (CrashPoint transaction)
            (committed transaction is_transaction)
            (commit l s).1
    finished pos fresh = commit-Finished transaction is_transaction l s describes pos (record {
      on_disk = uncommitted;
      log_disk = λ j h. absurd (omega arith);
      log_buf = λ j h. absurd (omega arith);
      cached = λ b out. refl;
      header_room = omega (arith, r.header_size, r.count);
      crashes = subst (AllDisks (CrashPoint transaction)) (sym fresh) tt;
    })

    -- With nothing logged `commit` does nothing.
    commit-empty : ¬ (0 < l.lh.n) → commit l s ≡ (l, s)
    unfolding commit
    commit-empty none_logged = ground arith

    pub crash_points : s.past ≡ [] → AllDisks (CrashPoint transaction) (disks (commit l s).1)
    crash_points fresh = elim (dec_lt 0 l.lh.n) [
      | yes pos ↦ let f = finished pos fresh in (inr (inr f.on_disk), f.crashes)
      | no zero_logged ↦ rw (commit-empty zero_logged, fresh) (inl uncommitted, tt)
    ]

    -- Recovery from each crash point gives the old disk or the new one.
    after_reboot-cases :
        (d : Disk)
        → CrashPoint transaction d
        → SameHome l (after_reboot l d) s.disk ⊎ SameHome l (after_reboot l d) s.buf
    after_reboot-cases d (inl u) =
        inl (λ b out. (initlog-empty transaction is_transaction d u.header).0 b out ∙ u.home b out)
    after_reboot-cases d (inr (inl c)) = inr (λ b out.
        (initlog-Finished transaction is_transaction d (λ _. Unit) (λ e h. tt) c).on_disk.home b
          out)
    after_reboot-cases d (inr (inr i)) =
        inr (λ b out. (initlog-empty transaction is_transaction d i.header).0 b out ∙ i.home b out)

    -- The log is ready to commit (IsReady). If the power is lost at any moment of `commit`, then the disk after the next boot's recovery holds,
    -- in all blocks outside the log, what it held before the commit, or in all of them what the cache
    -- held: never a mixture. `past` counts the moments from the start of the commit.
    pub commit-atomic :
        s.past ≡ []
        → (k : ℕ) (d : Disk) → get_elem? (disks (commit l s).1) k ≡ some d
        → SameHome l (after_reboot l d) s.disk ⊎ SameHome l (after_reboot l d) s.buf
    commit-atomic fresh k d e =
        after_reboot-cases d (AllDisks-get _ (disks (commit l s).1) k d (crash_points fresh) e)

    Installed-commit : s.past ≡ [] → Installed transaction (commit l s).1.disk
    Installed-commit fresh = elim (dec_lt 0 l.lh.n) [
      | yes pos ↦ (finished pos fresh).on_disk
      | no zero_logged ↦ rw (commit-empty zero_logged) (record {
        header = r.header_empty;
        home = λ b out. r.clean b out (λ i h e. zero_logged (omega arith));
      })
    ]

    n-commit : (commit l s).0.lh.n ≡ 0
    unfolding commit
    n-commit = ground arith

    -- If the log was ready to commit (IsReady), then once `commit` has returned, the disk itself and the disk after a loss of power and recovery hold
    -- what the cache held in every block outside the log; the header on the disk is empty, and so is
    -- the log in memory. `past` counts the moments from the start of the commit.
    pub commit-durable :
        s.past ≡ []
        → SameHome l (commit l s).1.disk s.buf
          × SameHome l (after_reboot l (commit l s).1.disk) s.buf
          × (get_or ((commit l s).1.disk l.start) 0 0 ≡ 0)
          × ((commit l s).0.lh.n ≡ 0)
    commit-durable fresh =
        let i = Installed-commit fresh in
        (
          i.home,
          λ b out. (initlog-empty transaction is_transaction _ i.header).0 b out ∙ i.home b out,
          i.header,
          n-commit,
        )
