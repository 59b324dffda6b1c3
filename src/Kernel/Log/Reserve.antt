-- ===== src/Kernel/Log/Reserve.antt =====
-- begin_op's reservations: the interleavings of system calls that use the log.
use mits081_lab.Base.{
  ℕ, suc, ◌+◌, ◌*◌, ◌≤◌, ◌<◌, ◌≡◌, refl, ◌∙◌, sym, ◌≢◌, true, false, List, [], ◌∷◌, ◌++◌, arith,
  length, length-append,
}
use mathlib.Core.Path.{subst}
use mits081_lab.Kernel.Panic.{ok, panic}
use mits081_lab.Kernel.Disk.{Store}
use mits081_lab.Kernel.Log.{
  Log, log_size, max_op_blocks, begun, begin_op, end_op_enter, log_write, commit,
}

-- The log, the disk, and for each system call between `begin_op` and `end_op` how many blocks it may
-- still write.
pub record System : Type 0 where
  pub log : Log
  pub store : Store
  pub left : List ℕ

pub data Step : System → System → Type 0 where
  begin :
      {l l' : Log} {s : Store} {left : List ℕ}
      → begin_op l ≡ begun l'
      → Step
          (record { log = l; store = s; left = left })
          (record { log = l'; store = s; left = max_op_blocks ∷ left })
  -- the call in front writes a block
  write :
      {l l' : Log} {s s' : Store} {k : ℕ} {left : List ℕ} (b : ℕ)
      → log_write b l s ≡ ok (l', s')
      → Step
          (record { log = l; store = s; left = suc k ∷ left })
          (record { log = l'; store = s'; left = k ∷ left })
  -- another call runs
  switch :
      {l : Log} {s : Store} (x : ℕ) (before after : List ℕ)
      → Step
          (record { log = l; store = s; left = before ++ x ∷ after })
          (record { log = l; store = s; left = x ∷ (before ++ after) })
  -- the call in front ends, and others are outstanding
  leave :
      {l l' : Log} {s : Store} {k : ℕ} {left : List ℕ}
      → end_op_enter l ≡ ok (false, l')
      → Step
          (record { log = l; store = s; left = k ∷ left })
          (record { log = l'; store = s; left = left })
  -- the last call ends, and commits
  close :
      {l l' : Log} {s : Store} {k : ℕ} {left : List ℕ}
      → end_op_enter l ≡ ok (true, l')
      → Step
          (record { log = l; store = s; left = k ∷ left })
          (record { log = l'; store = s; left = left })
  finish :
      {l : Log} {s : Store} {left : List ℕ}
      → l.committing ≡ true
      → Step
          (record { log = l; store = s; left = left })
          (record {
            log = record ((commit l s).0) { committing = false };
            store = (commit l s).1;
            left = left;
          })

pub data Reach (s : System) : System → Type 0 where
  here : Reach s s
  next : {t u : System} → Reach s t → Step t u → Reach s u

-- how many blocks the calls in progress may still write
abbrev pub total : List ℕ → ℕ
total [] = 0
total (x ∷ xs) = x + total xs

abbrev pub EachWithin : List ℕ → Type 0
EachWithin [] = Unit
EachWithin (x ∷ xs) = (x ≤ max_op_blocks) × EachWithin xs

-- Every block that a call may still write has its place in the log.
pub record Reserved (y : System) : Type 0 where
  pub calls : y.log.outstanding ≡ length y.left
  pub within : EachWithin y.left
  pub space : y.log.lh.n + total y.left ≤ log_size
  pub quiet : y.log.committing ≡ true → length y.left ≡ 0

total-le : (xs : List ℕ) → EachWithin xs → total xs ≤ max_op_blocks * length xs
total-le [] w = omega arith
total-le (x ∷ xs) w = omega (arith, total-le xs w.1)

total-append : (xs ys : List ℕ) → total (xs ++ ys) ≡ total xs + total ys
total-append [] ys = omega arith
total-append (x ∷ xs) ys = omega (arith, total-append xs ys)

EachWithin-switch :
    (x : ℕ) (before after : List ℕ)
    → EachWithin (before ++ x ∷ after)
    → EachWithin (x ∷ (before ++ after))
EachWithin-switch x [] after w = w
EachWithin-switch x (y ∷ before) after w =
    let ih = EachWithin-switch x before after w.1 in (ih.0, (w.0, ih.1))

-- What `log_write` does to the counters.
log_write-counts :
    (b : ℕ) (l : Log) (s : Store) {l' : Log} {s' : Store}
    → log_write b l s ≡ ok (l', s')
    → (l'.lh.n ≤ l.lh.n + 1)
      × (l'.outstanding ≡ l.outstanding)
      × (l'.committing ≡ l.committing)
      × (l'.size ≡ l.size)
unfolding log_write
log_write-counts b l s e = ground arith

commit-counts :
    (l : Log) (s : Store)
    → ((commit l s).0.lh.n ≡ 0)
      × ((commit l s).0.outstanding ≡ l.outstanding)
      × ((commit l s).0.size ≡ l.size)
unfolding commit
commit-counts l s = ground arith

Step-Reserved : {y z : System} → Step y z → Reserved y → Reserved z
unfolding begin_op end_op_enter
Step-Reserved (begin {left} e) r = ground (arith, total-le left r.within)
Step-Reserved (write {l} {s} b e) r = ground (arith, log_write-counts b l s e)
Step-Reserved (switch x before after) r = record {
  calls = omega (arith, length-append before (x ∷ after), length-append before after, r.calls);
  within = EachWithin-switch x before after r.within;
  space = omega (arith, total-append before (x ∷ after), total-append before after, r.space);
  quiet =
      λ e. omega (arith, length-append before (x ∷ after), length-append before after, r.quiet e);
}
Step-Reserved (leave e) r = ground arith
Step-Reserved (close e) r = ground arith
Step-Reserved (finish {l} {s} e) r = record {
  calls = ground (arith, commit-counts l s);
  within = r.within;
  space = omega (arith, commit-counts l s, total-le _ r.within, r.quiet e, r.space);
  quiet = λ q. r.quiet e;
}

Reach-Reserved : {y z : System} → Reserved y → Reach y z → Reserved z
Reach-Reserved r here = r
Reach-Reserved r (next p st) = Step-Reserved st (Reach-Reserved r p)

Step-size : {y z : System} → Step y z → z.log.size ≡ y.log.size
unfolding begin_op end_op_enter
Step-size (begin e) = ground arith
Step-size (write {l} {s} b e) = omega (arith, log_write-counts b l s e)
Step-size (switch x before after) = refl
Step-size (leave e) = ground arith
Step-size (close e) = ground arith
Step-size (finish {l} {s} e) = omega (arith, commit-counts l s)

Reach-size : {y z : System} → Reach y z → z.log.size ≡ y.log.size
Reach-size here = refl
Reach-size (next p st) = Step-size st ∙ Reach-size p

-- No call is in progress, and nothing is logged.
pub record Idle (y : System) : Type 0 where
  pub no_calls : y.log.outstanding ≡ 0
  pub none_left : y.left ≡ []
  pub empty : y.log.lh.n ≡ 0

Idle-Reserved : {y : System} → Idle y → Reserved y
Idle-Reserved {y} i = record {
  calls = ground (arith, i.no_calls, i.none_left);
  within = subst EachWithin (sym i.none_left) tt;
  space = ground (arith, i.empty, i.none_left);
  quiet = λ e. ground (arith, i.none_left);
}

-- If the log has at least LOGSIZE + 1 blocks, then from a state with no call in progress and an empty log,
-- in whatever order the system calls begin, write, take
-- turns, end and commit, a call that has written fewer than MAXOPBLOCKS blocks can always write one more:
-- `log_write` does not panic.
pub log_write-ne-panic :
    {y : System} (l : Log) (s : Store) (k : ℕ) (left : List ℕ) (b : ℕ)
    → Idle y
    → log_size < y.log.size
    → Reach y (record { log = l; store = s; left = suc k ∷ left })
    → log_write b l s ≢ panic
unfolding log_write
log_write-ne-panic l s k left b idle big p =
    let r = Reach-Reserved (Idle-Reserved idle) p in ground (arith, Reach-size p, r.space, r.calls)

-- From a state with no call in progress and an empty log, in whatever order the system calls begin, write,
-- end and commit, a call that ends never finds a commit under way, so `end_op` does not panic.
pub end_op_enter-ne-panic :
    {y : System} (l : Log) (s : Store) (k : ℕ) (left : List ℕ)
    → Idle y
    → Reach y (record { log = l; store = s; left = k ∷ left })
    → end_op_enter l ≢ panic
unfolding end_op_enter
end_op_enter-ne-panic l s k left idle p =
    let r = Reach-Reserved (Idle-Reserved idle) p in ground (arith, r.quiet)
