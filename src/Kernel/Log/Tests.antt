-- ===== src/Kernel/Log/Tests.antt =====
-- The theorems about the log at concrete transactions, and a schedule that overfills the log that mkfs
-- makes.
use mits081_lab.Base.{
  ◌≡◌, refl, ◌≢◌, ◌⊎◌, inr, false, [], ◌∷◌, arith, get_or, get_elem?, some, replicate, ℕ_discrete,
}
use mits081_lab.Kernel.Panic.{ok, panic}
use mits081_lab.Kernel.Disk.{Block, Disk, Store, boot, disks, update}
use mits081_lab.Kernel.Log.{Log, commit, initlog, log_write, begin_op}
use mits081_lab.Kernel.Log.Atomic.{IsReady, after_reboot, SameHome, commit-atomic, commit-durable}
use mits081_lab.Kernel.Log.Restart.{recovery-restarts}
use mits081_lab.Kernel.Log.Absorb.{Absorbed, log_write-Absorbed}
use mits081_lab.Kernel.Log.Reserve.{System, begin, Reach, here, next, Idle, log_write-ne-panic}

abbrev zeros : Block
zeros = replicate 256 0

abbrev blank : Disk
blank = λ _. zeros

-- Block 40 is changed in the cache and logged.
abbrev one_block : Log
one_block = record {
  start = 2;
  size = 31;
  outstanding = 1;
  committing = false;
  lh = record { n = 1; block = 40 ∷ replicate 29 0 };
}

abbrev changed : Store
changed = record { disk = blank; buf = update blank 40 (7 ∷ zeros); pins = λ _. 0; past = [] }

one_block-IsReady : IsReady one_block changed
one_block-IsReady = record {
  array = refl;
  count = omega arith;
  room = omega arith;
  header_size = refl;
  header_empty = refl;
  outside = λ i h. ground arith;
  distinct = λ i j h h' e. omega arith;
  clean = λ b out not_in. elim (ℕ_discrete b 40) [
    | yes e ↦ absurd (not_in 0 (omega arith) (omega arith))
    | no ne ↦ ground (arith, ne)
  ];
}

-- the disk after the header's write
abbrev mid_commit : Disk
mid_commit = get_or (disks (commit one_block changed).1) 2 blank

mid_commit_at : get_elem? (disks (commit one_block changed).1) 2 ≡ some mid_commit
unfolding commit
mid_commit_at = refl

mid_commit_recovers : get_or (after_reboot one_block mid_commit 40) 0 0 ≡ 7
unfolding commit initlog
mid_commit_recovers = refl

commit-atomic_example :
    SameHome one_block (after_reboot one_block mid_commit) blank
    ⊎ SameHome one_block (after_reboot one_block mid_commit) (update blank 40 (7 ∷ zeros))
commit-atomic_example =
    commit-atomic one_block changed one_block-IsReady refl 2 mid_commit mid_commit_at

commit-durable_example :
    SameHome one_block (commit one_block changed).1.disk (update blank 40 (7 ∷ zeros))
    × SameHome one_block
        (after_reboot one_block (commit one_block changed).1.disk)
        (update blank 40 (7 ∷ zeros))
    × (get_or ((commit one_block changed).1.disk 2) 0 0 ≡ 0)
    × ((commit one_block changed).0.lh.n ≡ 0)
commit-durable_example = commit-durable one_block changed one_block-IsReady refl

-- the disk after recovery has copied block 40 home, before it erases the header
abbrev mid_recovery : Disk
mid_recovery = get_or (disks (initlog 2 31 (boot mid_commit)).1) 1 blank

mid_recovery_at : get_elem? (disks (initlog 2 31 (boot mid_commit)).1) 1 ≡ some mid_recovery
unfolding initlog commit
mid_recovery_at = refl

recovery-restarts_example :
    SameHome one_block (after_reboot one_block mid_recovery) (after_reboot one_block mid_commit)
recovery-restarts_example =
    recovery-restarts one_block changed one_block-IsReady refl 2 mid_commit mid_commit_at 1
      mid_recovery mid_recovery_at

log_write-Absorbed_example :
    (l' : Log) × (s' : Store) × (log_write 41 one_block
        (record changed { buf = update changed.buf 41 zeros })
      ≡ ok (l', s'))
    × Absorbed 41 zeros one_block changed one_block-IsReady (inr (omega arith)) l' s'
log_write-Absorbed_example =
    log_write-Absorbed 41 zeros one_block changed one_block-IsReady (inr (omega arith))
      (omega arith) (omega arith) (omega arith)

-- No system call is in progress.
abbrev idle : System
idle = record {
  log = record one_block { outstanding = 0; lh = record { n = 0; block = replicate 30 0 } };
  store = boot blank;
  left = [];
}

abbrev one_call : Log
one_call = record (idle.log) { outstanding = 1 }

idle-Idle : Idle idle
idle-Idle = record { no_calls = refl; none_left = refl; empty = refl }

Reach-one_call : Reach idle (record { log = one_call; store = boot blank; left = 10 ∷ [] })
unfolding begin_op
Reach-one_call = next here (begin refl)

log_write-ne-panic_example : log_write 40 one_call (boot blank) ≢ panic
log_write-ne-panic_example =
    log_write-ne-panic one_call (boot blank) 9 [] 40 idle-Idle (omega arith) Reach-one_call
