-- ===== src/Kernel/Proc/End.antt =====
-- exit and wait keep the process table sound.
use mits081_lab.Base.{
  ℕ, ◌<◌, ◌≡◌, ◌≢◌, inl, inr, refl, ◌∙◌, sym, ap, Bool, true, false, ◌&&◌, none, some, ◌==◌, ==_iff,
  ==_false, ==_ne, ltb, if◌then◌else◌, arith, ℕ_discrete, points_to,
}
use mits081_lab.Kernel.Panic.{Run, ok, panic, ◌>>◌, panic_if}
use mits081_lab.Kernel.Proc.{
  nproc, ProcState, unused, used, sleeping, runnable, running, zombie, is_unused, Process, Table,
  Processes, blank, wakeup, reparent, parent_chan, orphaned, exited, exit,
}
use mits081_lab.Kernel.Proc.Wakeup.{
  Rouses, Rouses-trans, wakeup-Rouses, wakeup_parent, Reparented, reparent-Reparented,
}
use mits081_lab.Kernel.Proc.System.{is_alive, HasParent, Sound}
use mits081_lab.Kernel.Proc.Similar.{alive_used, bool_clash, running_other, sleeping_other}

pid_kept : {a b : Process} → Rouses a b → b.pid ≡ a.pid
pid_kept h = ap {A = Process} (λ x. x.pid) h.same

alive_kept : {a b : Process} → Rouses a b → is_alive b.state ≡ is_alive a.state
alive_kept h = elim h.state [
  | inl e ↦ ap is_alive e
  | inr (from, to) ↦ ap is_alive to ∙ sym (ap is_alive from)
]

unused_kept : {a b : Process} → Rouses a b → is_unused b.state ≡ is_unused a.state
unused_kept h = elim h.state [
  | inl e ↦ ap is_unused e
  | inr (from, to) ↦ ap is_unused to ∙ sym (ap is_unused from)
]

starting_kept : {a b : Process} → Rouses a b → a.state ≡ used → b.state ≡ used
starting_kept h e = elim h.state [
  | inl same ↦ same ∙ e
  | inr (from, to) ↦ absurd (sleeping_other from e)
]

is_unused_lem : (x : ProcState) → is_unused x ≡ true → x ≡ unused
is_unused_lem unused e = refl
is_unused_lem used e = grind (arith, e)
is_unused_lem sleeping e = grind (arith, e)
is_unused_lem runnable e = grind (arith, e)
is_unused_lem running e = grind (arith, e)
is_unused_lem zombie e = grind (arith, e)

-- A guarded result.
guarded : {A : Type 0} (b : Bool) {x y : A} → (panic_if b >> ok x) ≡ ok y → (b ≡ false) × (y ≡ x)
guarded true e = grind (arith, e)
guarded false {x = x} e = (refl, sym (ap (value x) e))
  where
    value : {A : Type 0} → A → Run A → A
    value x (ok y) = y
    value x panic = x

pub exit-exited :
    (me status : ℕ) (s : Processes) {s' : Processes}
    → exit me status s ≡ ok s'
    → (me ≢ s.init) × (s' ≡ exited me status s)
unfolding exit
exit-exited me status s e = let (other, same) = guarded (me == s.init) e in (==_ne _ _ other, same)

module _ (s : Processes) (me : ℕ) where
  -- the table after the children are given away
  pub given : Table
  given = reparent s.init me s.table

  pub orphaned-given : orphaned me s ≡ wakeup (some me) (parent_chan (given me).parent) given
  unfolding orphaned given
  orphaned-given = refl

  pub given-Reparented : (j : ℕ) → Reparented s.init me j (s.table j) (given j)
  unfolding given
  given-Reparented j = reparent-Reparented s.init me s.table j

  orphaned-Rouses : (j : ℕ) → Rouses (s.table j) (orphaned me s j)
  orphaned-Rouses j = rw orphaned-given (
      Rouses-trans (given-Reparented j).rouses
        (wakeup-Rouses (some me) (parent_chan (given me).parent) given j))

  pub orphaned_parent :
      (j : ℕ)
      → (orphaned me s j).parent ≡ (
          if ltb j nproc && points_to (s.table j).parent me
          then some s.init
          else (s.table j).parent)
  orphaned_parent j = rw orphaned-given (
      wakeup_parent (some me) (parent_chan (given me).parent) given j ∙ (given-Reparented j).parent)

  pub exited_at :
      (status j : ℕ)
      → (exited me status s).table j ≡ (
          if me == j
          then record (orphaned me s j) { xstate = status; state = zombie }
          else orphaned me s j)
  unfolding exited
  exited_at status j = elim (ℕ_discrete me j) [
    | yes e ↦ rw (sym e, (==_iff me me).1 refl) refl
    | no ne ↦ rw (==_false me j ne) refl
  ]

  pub exited_parent :
      (status j : ℕ)
      → ((exited me status s).table j).parent ≡ (
          if ltb j nproc && points_to (s.table j).parent me
          then some s.init
          else (s.table j).parent)
  exited_parent status j = elim (ℕ_discrete me j) [
    | yes e ↦ rw (exited_at status j, (==_iff me j).1 e) (orphaned_parent j)
    | no ne ↦ rw (exited_at status j, ==_false me j ne) (orphaned_parent j)
  ]

-- What the table holds for `j` once `me` has exited.
module _ (s : Processes) (me status : ℕ) (d : Sound s) (runs : (s.table me).state ≡ running)
    (other : me ≢ s.init) where
  alive : is_alive (s.table me).state ≡ true
  alive = ap is_alive runs

  not_used : (s.table me).state ≢ used
  not_used = running_other runs

  table : Table
  table = (exited me status s).table

  self_state : (table me).state ≡ zombie
  unfolding table
  self_state = rw (exited_at s me status me, (==_iff me me).1 refl) refl

  self_pid : (table me).pid ≡ (s.table me).pid
  unfolding table
  self_pid =
      rw (exited_at s me status me, (==_iff me me).1 refl) (pid_kept (orphaned-Rouses s me me))

  others : (j : ℕ) → me ≢ j → table j ≡ orphaned me s j
  unfolding table
  others j ne = rw (exited_at s me status j, ==_false me j ne) refl

  table_parent :
      (j : ℕ)
      → (table j).parent ≡ (
          if ltb j nproc && points_to (s.table j).parent me
          then some s.init
          else (s.table j).parent)
  unfolding table
  table_parent j = exited_parent s me status j

  table_unused : (j : ℕ) → is_unused (table j).state ≡ is_unused (s.table j).state
  table_unused j = elim (ℕ_discrete me j) [
    | yes e ↦ rw (sym e) (ap is_unused self_state ∙ sym (alive_used _ alive))
    | no ne ↦ rw (others j ne) (unused_kept (orphaned-Rouses s me j))
  ]

  table_pid : (j : ℕ) → (table j).pid ≡ (s.table j).pid
  table_pid j = elim (ℕ_discrete me j) [
    | yes e ↦ rw (sym e) self_pid
    | no ne ↦ rw (others j ne) (pid_kept (orphaned-Rouses s me j))
  ]

  table_alive : (j : ℕ) → me ≢ j → is_alive (table j).state ≡ is_alive (s.table j).state
  table_alive j ne = rw (others j ne) (alive_kept (orphaned-Rouses s me j))

  used_kept : (j : ℕ) → me ≢ j → (s.table j).state ≡ used → (table j).state ≡ used
  used_kept j ne state = rw (others j ne) (starting_kept (orphaned-Rouses s me j) state)

  table_free : (j : ℕ) → is_unused (table j).state ≡ true → table j ≡ blank
  table_free j e =
      let was : s.table j ≡ blank = d.free j (sym (table_unused j) ∙ e) in
      let ne : me ≢ j = λ same.
        bool_clash (alive_used _ alive)
          (ap (λ i. is_unused (s.table i).state) same ∙ sym (table_unused j) ∙ e) in
      let state : (orphaned me s j).state ≡ unused = is_unused_lem _ (rw (others j ne) at e) in
      let parent : (orphaned me s j).parent ≡ none =
        orphaned_parent s me j ∙ rw was (ground arith) in
      others j ne ∙ (orphaned-Rouses s me j).same ∙ rw (state, parent, was) refl

  -- A process that fork has not yet given its parent stays so, and a child gets the first process as its parent.
  table_parent_of : (j : ℕ) → j < nproc → HasParent s.table j → HasParent table j
  unfolding HasParent
  table_parent_of j small (inl (state, parent)) =
      let ne : me ≢ j = λ same. not_used (ap (λ i. (s.table i).state) same ∙ state) in
      inl (used_kept j ne state, table_parent j ∙ rw (parent) (ground arith))
  table_parent_of j small (inr (q, p, a)) = elim (ℕ_discrete q me) [
    | yes mine ↦ inr (
      s.init,
      table_parent j ∙ rw (p, mine) (ground (arith, small)),
      table_alive s.init other ∙ d.first,
    )
    | no not_mine ↦ inr (
      q,
      table_parent j ∙ rw (p, ==_false q me not_mine) (ground arith),
      table_alive q (λ same. not_mine (sym same)) ∙ a,
    )
  ]

  table_parents : (j : ℕ) → is_unused (table j).state ≡ false → j ≢ s.init → HasParent table j
  table_parents j e ne =
      let live : is_unused (s.table j).state ≡ false = sym (table_unused j) ∙ e in
      let (_, _, small) = d.pids j live in table_parent_of j small (d.parents j live ne)

  table-Sound : Sound (record s { table = table })
  table-Sound = record {
    free = table_free;
    pids = λ j e. rw (table_pid j) (d.pids j (sym (table_unused j) ∙ e));
    distinct = λ i j e f same.
        d.distinct i j (sym (table_unused i) ∙ e) (sym (table_unused j) ∙ f)
          (sym (table_pid i) ∙ same ∙ table_pid j);
    parents = table_parents;
    first = table_alive s.init other ∙ d.first;
  }

  pub exited-Sound : Sound (exited me status s)
  unfolding table exited
  exited-Sound = table-Sound
