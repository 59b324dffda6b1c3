-- ===== src/Kernel/Log/Install.antt =====
-- install_trans copies the committed blocks home, and a crash meanwhile loses nothing.
use mits081_lab.Base.{
  ℕ, zero, suc, ◌+◌, ◌<◌, ◌≡◌, refl, sym, ap, ◌≢◌, if◌then◌else◌, inl, inr, Bool, true, false, [],
  ◌∷◌, arith, get_or, set, ℕ_discrete,
}
use mathlib.Core.Path.{subst}
use mits081_lab.Kernel.Disk.{Block, Disk, Store, update, fill, bwrite, bunpin}
use mits081_lab.Kernel.Log.{
  Log, install_from, install_trans, write_head, head_block, store_slots, clear,
}
use mits081_lab.Kernel.Log.States.{
  Outside, AllDisks, Transaction, IsTransaction, NotLogged, Committed, Installed, Describes,
  logged_cases,
}

pub get_or-clear : (b : Block) (x : ℕ) → get_or (set b 0 x) 0 x ≡ x
get_or-clear [] x = refl
get_or-clear (w ∷ b) x = refl

-- `P` is what is claimed of the disk at each loss of power; it has to hold once the header is written.
module _ (t : Transaction) (v : IsTransaction t) (P : Disk → Type 0)
    (during : (d : Disk) → Committed t d → P d) where
  -- The state of the loop with the first `i` blocks installed.
  pub record Installing (i : ℕ) (s : Store) : Type 0 where
    pub on_disk : Committed t s.disk
    pub log_buf : (j : ℕ) → j < t.n → s.buf (t.start + j + 1) ≡ t.new (t.block j)
    pub other_buf : (b : ℕ) → Outside t.start t.size b → NotLogged t b → s.buf b ≡ t.new b
    pub done_disk : (j : ℕ) → j < i → s.disk (t.block j) ≡ t.new (t.block j)
    pub done_buf : (j : ℕ) → j < i → s.buf (t.block j) ≡ t.new (t.block j)
    pub crashes : AllDisks P s.past

  abbrev install_one : ℕ → Store → Store
  install_one i s = bwrite (fill s (t.block i) (s.buf (t.start + i + 1))) (t.block i)

  Committed-install :
      (i : ℕ) (x : Block) (d : Disk)
      → i < t.n
      → Committed t d
      → Committed t (update d (t.block i) x)
  Committed-install i x d h c = record {
    header = ground (arith, v.outside i h, c.header, v.room);
    slots = λ j hj. ground (arith, v.outside i h, c.slots j hj, v.room);
    logged = λ j hj. ground (arith, v.outside i h, c.logged j hj, v.room);
    home = λ b out not_in. ground (arith, not_in i h, c.home b out not_in);
  }

  Installing-step :
      (i : ℕ) (s : Store) → i < t.n → Installing i s → Installing (i + 1) (install_one i s)
  unfolding bwrite
  Installing-step i s h inv = record {
    on_disk = Committed-install i _ s.disk h inv.on_disk;
    log_buf = λ j hj. ground (arith, v.outside i h, inv.log_buf j hj, v.room);
    other_buf = λ b out not_in. ground (arith, not_in i h, inv.other_buf b out not_in);
    done_disk = λ j hj. elim (ℕ_discrete (t.block i) (t.block j)) [
      | yes e ↦ ground (arith, inv.log_buf i h, e)
      | no ne ↦ ground (arith, inv.done_disk j (omega (arith, before j hj ne)), ne)
    ];
    done_buf = λ j hj. elim (ℕ_discrete (t.block i) (t.block j)) [
      | yes e ↦ ground (arith, inv.log_buf i h, e)
      | no ne ↦ ground (arith, inv.done_buf j (omega (arith, before j hj ne)), ne)
    ];
    crashes = (during s.disk inv.on_disk, inv.crashes);
  }
    where
      before : (j : ℕ) → j < i + 1 → t.block i ≢ t.block j → j < i
      before j hj ne = elim (ℕ_discrete j i) [
        | yes e ↦ absurd (ne (ap t.block (sym e)))
        | no other ↦ omega arith
      ]

  -- `bunpin` touches neither the disk nor the data in the cache.
  Installing-unpin :
      (i b : ℕ) (recovering : Bool) (s : Store)
      → Installing i s
      → Installing i (if recovering then s else bunpin s b)
  unfolding bunpin
  Installing-unpin i b true s inv = inv
  Installing-unpin i b false s inv = record {
    on_disk = inv.on_disk;
    log_buf = inv.log_buf;
    other_buf = inv.other_buf;
    done_disk = inv.done_disk;
    done_buf = inv.done_buf;
    crashes = inv.crashes;
  }

  Installing-loop :
      (recovering : Bool) (l : Log) (k i : ℕ) (s : Store)
      → Describes l t
      → i + k ≡ t.n
      → Installing i s
      → Installing t.n (install_from recovering l k i s)
  unfolding install_from
  Installing-loop recovering l zero i s d e inv =
      let e' : i ≡ t.n = omega arith in subst (λ m. Installing m s) e' inv
  Installing-loop recovering l (suc k) i s d e inv =
      let h : i < t.n = omega arith in
      rw (d.slots i h, d.start)
        (Installing-loop recovering l k (i + 1) _ d (omega arith)
          (Installing-unpin (i + 1) (t.block i) recovering _ (Installing-step i s h inv)))

  -- Every block outside the log is the new one, on the disk and in the cache, and the log is empty.
  pub record Finished (s : Store) : Type 0 where
    pub on_disk : Installed t s.disk
    pub cached : (b : ℕ) → Outside t.start t.size b → s.buf b ≡ t.new b
    pub crashes : AllDisks P s.past

  Installing-home :
      (s : Store) (b : ℕ)
      → Installing t.n s
      → Outside t.start t.size b
      → (s.disk b ≡ t.new b) × (s.buf b ≡ t.new b)
  Installing-home s b inv out = elim (logged_cases t.block b t.n) [
    | inl (i, h, e) ↦
        let home : (s.disk (t.block i) ≡ t.new (t.block i))
            × (s.buf (t.block i) ≡ t.new (t.block i)) =
          (inv.done_disk i h, inv.done_buf i h) in
        subst (λ c. (s.disk c ≡ t.new c) × (s.buf c ≡ t.new c)) e home
    | inr not_in ↦ (inv.on_disk.home b out not_in, inv.other_buf b out not_in)
  ]

  -- Installing everything and then erasing the header finishes the transaction, and no crash
  -- meanwhile loses it.
  pub install_trans-Finished :
      (recovering : Bool) (l : Log) (s : Store)
      → Describes l t
      → Installing 0 s
      → Finished (write_head (clear l) (install_trans recovering l s))
  unfolding install_trans write_head head_block store_slots bwrite
  install_trans-Finished recovering l s d inv =
      let s' = install_from recovering l l.lh.n 0 s in
      let done : Installing t.n s' =
        Installing-loop recovering l l.lh.n 0 s d (omega (arith, d.n)) inv in
      record {
        on_disk = record {
          header = ground (arith, d.start, get_or-clear (s'.buf l.start) 0);
          home = λ b out. ground (arith, d.start, v.room, Installing-home _ b done out);
        };
        cached = λ b out. ground (arith, d.start, v.room, Installing-home _ b done out);
        crashes = (during s'.disk done.on_disk, done.crashes);
      }
