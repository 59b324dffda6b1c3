-- ===== src/Kernel/Proc/Similar.antt =====
-- Steps that neither start nor end a process.
use mits081_lab.Base.{
  ℕ, zero, suc, ◌+◌, ◌≡◌, ◌≢◌, ◌≤◌, inl, inr, refl, ◌∙◌, sym, ap, Bool, true, false, Bool-cases,
  Option, none, some, ◌==◌, ==_iff, ==_false, if◌then◌else◌, arith, ℕ_discrete,
}
use mits081_lab.Kernel.Disk.{update}
use mits081_lab.Kernel.Proc.{
  nproc, ProcState, unused, used, sleeping, runnable, running, zombie, is_unused, is_runnable,
  is_sleeping, Channel, Process, Table, Processes, sleep, tidy, yield, wakeup, scheduler, kill,
  kill_from,
}
use mits081_lab.Kernel.Proc.Wakeup.{Rouses, wakeup-Rouses, wakeup_parent}
use mits081_lab.Kernel.Proc.System.{is_alive, HasParent, Sound}

-- `b` is as much a process as `a`.
pub record Similar (a b : Process) : Type 0 where
  pub alive : is_alive b.state ≡ is_alive a.state
  pub unused : is_unused b.state ≡ is_unused a.state
  pub starting : a.state ≡ used → b.state ≡ used
  pub pid : b.pid ≡ a.pid
  pub parent : b.parent ≡ a.parent
  pub free : is_unused a.state ≡ true → b ≡ a

pub Similar-refl : (a : Process) → Similar a a
Similar-refl a = record {
  alive = refl;
  unused = refl;
  starting = λ e. e;
  pid = refl;
  parent = refl;
  free = λ _. refl;
}

pub alive_used : (x : ProcState) → is_alive x ≡ true → is_unused x ≡ false
alive_used unused e = grind (arith, e)
alive_used zombie e = refl
alive_used used e = refl
alive_used sleeping e = refl
alive_used runnable e = refl
alive_used running e = refl

pub bool_clash : {b : Bool} → b ≡ false → b ≡ true → ⊥
bool_clash f t = grind (arith, f, t)

-- A process goes from one state before its exit to another.
alive-Similar :
    {a b : Process}
    → is_alive a.state ≡ true
    → is_alive b.state ≡ true
    → a.state ≢ used
    → b.pid ≡ a.pid
    → b.parent ≡ a.parent
    → Similar a b
alive-Similar {a = a} {b = b} x y other pid parent = record {
  alive = y ∙ sym x;
  unused = alive_used b.state y ∙ sym (alive_used a.state x);
  starting = λ e. absurd (other e);
  pid = pid;
  parent = parent;
  free = λ e. absurd (bool_clash (alive_used a.state x) e);
}

-- The states other than USED that occur below.
pub running_other : {x : ProcState} → x ≡ running → x ≢ used
running_other {x = x} e f = running_ne (sym e ∙ f)
  where
    running_ne : running ≡ used → ⊥
    running_ne h = grind (arith, h)

runnable_other : (x : ProcState) → is_runnable x ≡ true → x ≢ used
runnable_other x e f = bool_clash (ap is_runnable f) e

pub sleeping_other : {x : ProcState} → x ≡ sleeping → x ≢ used
sleeping_other e f = bool_clash (ap is_sleeping f) (ap is_sleeping e)

HasParent-Similar :
    (t u : Table) (i : ℕ) → ((j : ℕ) → Similar (t j) (u j)) → HasParent t i → HasParent u i
unfolding HasParent
HasParent-Similar t u i h (inl (state, parent)) = inl ((h i).starting state, (h i).parent ∙ parent)
HasParent-Similar t u i h (inr (q, p, a)) = inr (q, (h i).parent ∙ p, (h q).alive ∙ a)

-- One slot changes.
pub Similar-update :
    (t : Table) (i : ℕ) (p : Process) → Similar (t i) p → (j : ℕ) → Similar (t j) (update t i p j)
Similar-update t i p h j = elim (ℕ_discrete i j) [
  | yes e ↦ rw (sym e, (==_iff i i).1 refl) h
  | no ne ↦ rw (==_false i j ne) (Similar-refl (t j))
]

pub Similar-Sound :
    {s : Processes} {t : Table} {n : ℕ}
    → ((i : ℕ) → Similar (s.table i) (t i))
    → s.nextpid ≤ n
    → Sound s
    → Sound (record s { table = t; nextpid = n })
Similar-Sound {s = s} {t = t} h more d = record {
  free = λ i e. let f = sym (h i).unused ∙ e in (h i).free f ∙ d.free i f;
  pids = λ i e.
      let (lo, hi, small) = d.pids i (sym (h i).unused ∙ e) in
      rw ((h i).pid) (lo, omega (arith, hi), small);
  distinct = λ i j e f same.
      d.distinct i j (sym (h i).unused ∙ e) (sym (h j).unused ∙ f)
        (sym (h i).pid ∙ same ∙ (h j).pid);
  parents = λ i e ne. HasParent-Similar s.table t i h (d.parents i (sym (h i).unused ∙ e) ne);
  first = (h s.init).alive ∙ d.first;
}

pub sleep-Similar :
    (me : ℕ) (chan : Channel) (t : Table)
    → (t me).state ≡ running
    → (j : ℕ) → Similar (t j) (sleep me chan t j)
unfolding sleep
sleep-Similar me chan t e =
    Similar-update t me _ (alive-Similar (ap is_alive e) refl (running_other e) refl refl)

pub tidy-Similar :
    (me : ℕ) (t : Table) → (t me).state ≡ running → (j : ℕ) → Similar (t j) (tidy me t j)
unfolding tidy
tidy-Similar me t e =
    Similar-update t me _
      (alive-Similar (ap is_alive e) (ap is_alive e) (running_other e) refl refl)

pub yield-Similar :
    (me : ℕ) (t : Table) → (t me).state ≡ running → (j : ℕ) → Similar (t j) (yield me t j)
unfolding yield
yield-Similar me t e =
    Similar-update t me _ (alive-Similar (ap is_alive e) refl (running_other e) refl refl)

pub Rouses-Similar : {a b : Process} → Rouses a b → b.parent ≡ a.parent → Similar a b
Rouses-Similar h p = elim h.state [
  | inl e ↦ record {
    alive = ap is_alive e;
    unused = ap is_unused e;
    starting = λ f. e ∙ f;
    pid = ap {A = Process} (λ x. x.pid) h.same;
    parent = p;
    free = λ _. h.same ∙ rw (e, p) refl;
  }
  | inr (from, to) ↦
      alive-Similar (ap is_alive from) (ap is_alive to) (sleeping_other from)
        (ap {A = Process} (λ x. x.pid) h.same) p
]

pub wakeup-Similar :
    (me : Option ℕ) (chan : Option Channel) (t : Table) (j : ℕ) → Similar (t j) (wakeup me chan t j)
wakeup-Similar me chan t j = Rouses-Similar (wakeup-Rouses me chan t j) (wakeup_parent me chan t j)

runnable_alive : (x : ProcState) → is_runnable x ≡ true → is_alive x ≡ true
runnable_alive unused e = grind (arith, e)
runnable_alive zombie e = grind (arith, e)
runnable_alive used e = refl
runnable_alive sleeping e = refl
runnable_alive runnable e = refl
runnable_alive running e = refl

pub scheduler-Similar : (i : ℕ) (t : Table) (j : ℕ) → Similar (t j) (scheduler i t j)
unfolding scheduler
scheduler-Similar i t j = elim (Bool-cases (is_runnable (t i).state)) [
  | inl e ↦ rw e (
      Similar-update t i _
        (alive-Similar (runnable_alive (t i).state e) refl (runnable_other (t i).state e) refl refl)
        j)
  | inr e ↦ rw e (Similar-refl (t j))
]

abbrev value : Table → Option Table → Table
value t none = t
value t (some u) = u

-- `kill` changes one process with that process id.
kill_from_lem :
    (k i pid : ℕ) (t : Table) {t' : Table}
    → kill_from k i pid t ≡ some t'
    → (j : ℕ) × ((t j).pid ≡ pid)
      × (t'
          ≡ update t j (record (t j) {
            killed = true;
            state = if is_sleeping (t j).state then runnable else (t j).state;
          }))
unfolding kill_from
kill_from_lem zero i pid t e = grind (arith, e)
kill_from_lem (suc k) i pid t {t' = t'} e = elim (Bool-cases ((t i).pid == pid)) [
  | inl found ↦ (i, (==_iff _ _).0 found, sym (ap (value t) (rw found at e)))
  | inr other ↦ kill_from_lem k (i + 1) pid t (rw other at e)
]

killed_state :
    (x : ProcState)
    → (is_alive (if is_sleeping x then runnable else x) ≡ is_alive x)
      × (is_unused (if is_sleeping x then runnable else x) ≡ is_unused x)
killed_state unused = (refl, refl)
killed_state zombie = (refl, refl)
killed_state used = (refl, refl)
killed_state sleeping = (refl, refl)
killed_state runnable = (refl, refl)
killed_state running = (refl, refl)

kill-from : (pid : ℕ) (t : Table) → kill pid t ≡ kill_from nproc 0 pid t
unfolding kill
kill-from pid t = refl

-- No slot that is not in use has the process id 0.
pub kill-Similar :
    {s : Processes} (pid : ℕ) {t : Table}
    → Sound s
    → pid ≢ 0
    → kill pid s.table ≡ some t
    → (j : ℕ) → Similar (s.table j) (t j)
kill-Similar {s = s} pid {t = t} d ne e j =
    let (i, same, changed) = kill_from_lem nproc 0 pid s.table (rw (kill-from pid s.table) at e) in
    let (alive, live) = killed_state (s.table i).state in
    rw changed (
      Similar-update s.table i _
        (record {
          alive = alive;
          unused = live;
          starting = λ f. ap (λ x. if is_sleeping x then runnable else x) f;
          pid = refl;
          parent = refl;
          free = λ f. absurd (ne (sym same ∙ ap {A = Process} (λ x. x.pid) (d.free i f)));
        })
        j)
