-- ===== src/Kernel/Log/Recover.antt =====
-- Recovery after a loss of power, from each disk that a commit can leave.
use mits081_lab.Base.{ℕ, ◌≡◌, refl, ◌∙◌, true, false, [], ◌∷◌, arith, get_or, replicate}
use mits081_lab.Kernel.Disk.{Disk, Store, boot, bwrite}
use mits081_lab.Kernel.Log.{
  Log, read_head, install_from, write_head, install_trans, head_block, store_slots,
  recover_from_log, initlog, log_size,
}
use mits081_lab.Kernel.Log.Header.{load_slots_loaded}
use mits081_lab.Kernel.Log.States.{Outside, Transaction, IsTransaction, Committed, Describes}
use mits081_lab.Kernel.Log.Install.{Finished, install_trans-Finished, get_or-clear}

-- The log in memory before recovery.
abbrev pub zeroed : ℕ → ℕ → Log
zeroed start size = record {
  start = start;
  size = size;
  outstanding = 0;
  committing = false;
  lh = record { n = 0; block = replicate log_size 0 };
}

module _ (t : Transaction) (v : IsTransaction t) (d : Disk) where
  abbrev pub recovered : Log × Store
  recovered = initlog t.start t.size (boot d)

  -- An empty log: recovery only writes the header.
  pub initlog-empty :
      get_or (d t.start) 0 0 ≡ 0
      → ((b : ℕ) → Outside t.start t.size b → recovered.1.disk b ≡ d b)
        × (get_or (recovered.1.disk t.start) 0 0 ≡ 0)
        × (recovered.1.past ≡ d ∷ [])
  unfolding initlog recover_from_log read_head install_trans install_from write_head head_block
      store_slots bwrite
  initlog-empty e =
      rw e (λ b out. ground (arith, v.room), ground (arith, get_or-clear (d t.start) 0), refl)

  Describes-read_head : Committed t d → Describes (read_head (boot d) (zeroed t.start t.size)) t
  unfolding read_head
  Describes-read_head c = record {
    start = refl;
    size = refl;
    n = c.header;
    slots = λ j h.
        load_slots_loaded (get_or (d t.start) 0 0) 0 (d t.start) (replicate log_size 0) j
          (omega arith) (omega (arith, c.header)) (omega (arith, c.header, v.count))
        ∙ c.slots j h;
  }

  -- A committed transaction: recovery finishes it.
  pub initlog-Finished :
      (P : Disk → Type 0) (during : (e : Disk) → Committed t e → P e)
      → Committed t d
      → Finished t v P during recovered.1
  unfolding initlog recover_from_log
  initlog-Finished P during c =
      install_trans-Finished t v P during true (read_head (boot d) (zeroed t.start t.size)) (boot d)
        (Describes-read_head c)
        (record {
          on_disk = c;
          log_buf = c.logged;
          other_buf = c.home;
          done_disk = λ j h. absurd (omega arith);
          done_buf = λ j h. absurd (omega arith);
          crashes = tt;
        })
