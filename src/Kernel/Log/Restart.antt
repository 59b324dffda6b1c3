-- ===== src/Kernel/Log/Restart.antt =====
-- Recovery can itself be interrupted.
use mathlib.Core.Path.{subst}
use mits081_lab.Base.{ℕ, ◌≡◌, ◌∙◌, sym, inl, inr, [], get_or, get_elem?, some}
use mits081_lab.Kernel.Disk.{Disk, Store, boot, disks}
use mits081_lab.Kernel.Log.{Log, commit, initlog}
use mits081_lab.Kernel.Log.States.{AllDisks, AllDisks-get, Committed}
use mits081_lab.Kernel.Log.Recover.{initlog-empty, initlog-Finished}
use mits081_lab.Kernel.Log.Atomic.{
  IsReady, after_reboot, SameHome, transaction, is_transaction, crash_points,
}

module _ (l : Log) (s : Store) (r : IsReady l s) where
  -- A disk on which recovery would find the old blocks, or the new ones.
  abbrev Yields : Disk → Disk → Type 0
  Yields d e = SameHome l (after_reboot l d) e

  Yields-empty : (d e : Disk) → get_or (d l.start) 0 0 ≡ 0 → SameHome l d e → Yields d e
  Yields-empty d e h same b out =
      (initlog-empty (transaction l s) (is_transaction l s r) d h).0 b out ∙ same b out

  Yields-Committed : (d : Disk) → Committed (transaction l s) d → Yields d s.buf
  Yields-Committed d c =
      (initlog-Finished (transaction l s) (is_transaction l s r) d (λ _. Unit) (λ e h. tt)
        c).on_disk.home

  -- Each disk that recovery from an empty log goes through still has the log empty.
  restart-empty :
      (d e : Disk)
      → get_or (d l.start) 0 0 ≡ 0
      → SameHome l d e
      → AllDisks (λ x. Yields x e) (disks (initlog l.start l.size (boot d)).1)
  restart-empty d e h same =
      let (home, header, past) = initlog-empty (transaction l s) (is_transaction l s r) d h in
      (
        Yields-empty _ e header (λ b out. home b out ∙ same b out),
        subst (AllDisks (λ x. Yields x e)) (sym past) (Yields-empty d e h same, tt),
      )

  restart-Committed :
      (d : Disk)
      → Committed (transaction l s) d
      → AllDisks (λ x. Yields x s.buf) (disks (initlog l.start l.size (boot d)).1)
  restart-Committed d c =
      let f =
        initlog-Finished (transaction l s) (is_transaction l s r) d (λ x. Yields x s.buf)
          Yields-Committed c in
      (Yields-empty _ s.buf f.on_disk.header f.on_disk.home, f.crashes)

  restart-same :
      (d e : Disk)
      → Yields d e
      → AllDisks (λ x. Yields x e) (disks (initlog l.start l.size (boot d)).1)
      → (j : ℕ) (d' : Disk) → get_elem? (disks (initlog l.start l.size (boot d)).1) j ≡ some d'
      → SameHome l (after_reboot l d') (after_reboot l d)
  restart-same d e y all j d' at b out =
      AllDisks-get (λ x. Yields x e) (disks (initlog l.start l.size (boot d)).1) j d' all at b out
      ∙ sym (y b out)

  -- The log is ready to commit (IsReady). If the power is lost at any moment of `commit`, and again at any moment of the recovery that
  -- follows, then recovering once more gives the same blocks outside the log as the first recovery
  -- would have given, had it not been interrupted.
  pub recovery-restarts :
      s.past ≡ []
      → (k : ℕ) (d : Disk) → get_elem? (disks (commit l s).1) k ≡ some d
      → (j : ℕ) (d' : Disk) → get_elem? (disks (initlog l.start l.size (boot d)).1) j ≡ some d'
      → SameHome l (after_reboot l d') (after_reboot l d)
  recovery-restarts fresh k d e j d' e' =
      elim (AllDisks-get _ (disks (commit l s).1) k d (crash_points l s r fresh) e) [
        | inl u ↦
            restart-same d s.disk (Yields-empty d s.disk u.header u.home)
              (restart-empty d s.disk u.header u.home) j d' e'
        | inr (inl c) ↦ restart-same d s.buf (Yields-Committed d c) (restart-Committed d c) j d' e'
        | inr (inr i) ↦
            restart-same d s.buf (Yields-empty d s.buf i.header i.home)
              (restart-empty d s.buf i.header i.home) j d' e'
      ]
