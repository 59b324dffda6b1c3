-- ===== src/Kernel/Log/Commit.antt =====
-- A commit is atomic: whenever the power is lost, recovery gives the old disk or the new one.
use mathlib.Core.Path.{subst}
use mits081_lab.Base.{
  ℕ, zero, suc, ◌+◌, ◌<◌, ◌≡◌, inl, inr, false, arith, length, lt→ltb, ℕ_discrete,
}
use mits081_lab.Kernel.Disk.{Disk, Store, fill, bwrite}
use mits081_lab.Kernel.Log.{Log, write_log_from, write_log, write_head, commit}
use mits081_lab.Kernel.Log.Header.{head_block-n, head_block-slot}
use mits081_lab.Kernel.Log.States.{
  Outside, AllDisks, Transaction, IsTransaction, Uncommitted, Committed, CrashPoint, Describes,
}
use mits081_lab.Kernel.Log.Install.{Installing, Finished, install_trans-Finished}

module _ (t : Transaction) (v : IsTransaction t) where
  pub committed : (d : Disk) → Committed t d → CrashPoint t d
  committed d c = inr (inl c)

  -- The state of `write_log`'s loop with the first `i` blocks in the log.
  pub record Writing (i : ℕ) (s : Store) : Type 0 where
    pub on_disk : Uncommitted t s.disk
    pub log_disk : (j : ℕ) → j < i → s.disk (t.start + j + 1) ≡ t.new (t.block j)
    pub log_buf : (j : ℕ) → j < i → s.buf (t.start + j + 1) ≡ t.new (t.block j)
    pub cached : (b : ℕ) → Outside t.start t.size b → s.buf b ≡ t.new b
    pub header_room : t.n + 1 < length (s.buf t.start)
    pub crashes : AllDisks (CrashPoint t) s.past

  abbrev write_one : ℕ → Store → Store
  write_one i s = bwrite (fill s (t.start + i + 1) (s.buf (t.block i))) (t.start + i + 1)

  Writing-step : (i : ℕ) (s : Store) → i < t.n → Writing i s → Writing (i + 1) (write_one i s)
  unfolding bwrite
  Writing-step i s h w = record {
    on_disk = record {
      header = ground (arith, w.on_disk.header);
      home = λ b out. ground (arith, v.room, w.on_disk.home b out);
    };
    log_disk = λ j hj. elim (ℕ_discrete j i) [
      | yes e ↦ ground (arith, e, w.cached (t.block i) (v.outside i h))
      | no ne ↦ ground (arith, ne, w.log_disk j (omega arith))
    ];
    log_buf = λ j hj. elim (ℕ_discrete j i) [
      | yes e ↦ ground (arith, e, w.cached (t.block i) (v.outside i h))
      | no ne ↦ ground (arith, ne, w.log_buf j (omega arith))
    ];
    cached = λ b out. ground (arith, v.room, w.cached b out);
    header_room = ground (arith, w.header_room);
    crashes = (inl w.on_disk, w.crashes);
  }

  Writing-loop :
      (l : Log) (k i : ℕ) (s : Store)
      → Describes l t
      → i + k ≡ t.n
      → Writing i s
      → Writing t.n (write_log_from l k i s)
  unfolding write_log_from
  Writing-loop l zero i s d e w = let e' : i ≡ t.n = omega arith in subst (λ m. Writing m s) e' w
  Writing-loop l (suc k) i s d e w =
      let h : i < t.n = omega arith in
      rw (d.slots i h, d.start) (Writing-loop l k (i + 1) _ d (omega arith) (Writing-step i s h w))

  -- The header's write is the commit point.
  write_head-Installing :
      (l : Log) (s : Store)
      → Describes l t
      → Writing t.n s
      → Installing t v (CrashPoint t) committed 0 (write_head l s)
  unfolding write_head bwrite
  write_head-Installing l s d w =
      let x = s.buf l.start in
      let room : l.lh.n + 1 < length x = ground (arith, d.start, d.n, w.header_room) in
      record {
        on_disk = record {
          header = ground (arith, d.start, d.n, head_block-n l.lh x room);
          slots = λ j hj. ground (
            arith,
            d.start,
            d.n,
            d.slots j hj,
            head_block-slot l.lh x room j (omega (arith, d.n)),
          );
          logged = λ j hj. ground (arith, d.start, w.log_disk j hj);
          home = λ b out not_in.
              ground (arith, d.start, v.room, w.on_disk.home b out, v.kept b out not_in);
        };
        log_buf = λ j hj. ground (arith, d.start, w.log_buf j hj);
        other_buf = λ b out not_in. ground (arith, d.start, v.room, w.cached b out);
        done_disk = λ j hj. absurd (omega arith);
        done_buf = λ j hj. absurd (omega arith);
        crashes = (inl w.on_disk, w.crashes);
      }

  pub commit-Finished :
      (l : Log) (s : Store)
      → Describes l t
      → 0 < t.n
      → Writing 0 s
      → Finished t v (CrashPoint t) committed (commit l s).1
  unfolding commit write_log
  commit-Finished l s d pos w = rw (lt→ltb 0 l.lh.n (omega (arith, d.n))) (
      install_trans-Finished t v (CrashPoint t) committed false l _ d
        (write_head-Installing l _ d (Writing-loop l l.lh.n 0 s d (omega (arith, d.n)) w)))
