-- ===== src/Kernel/Proc/Adopt.antt =====
-- The second and the third part of fork keep the process table sound.
use mits081_lab.Base.{
  ℕ, ◌≡◌, ◌≢◌, inl, inr, refl, ◌∙◌, sym, ap, true, some, ==_iff, ==_false, ℕ_discrete,
}
use mits081_lab.Kernel.Disk.{update}
use mits081_lab.Kernel.Proc.{
  used, running, is_unused, Process, Processes, set_slot, fork_adopt, fork_start,
}
use mits081_lab.Kernel.Proc.System.{is_alive, HasParent, Sound}
use mits081_lab.Kernel.Proc.Similar.{alive_used, bool_clash}

-- The process in slot `i`, which has not exited, becomes a child of `me`, which has not either.
module _ (s : Processes) (i me : ℕ) (p : Process) (d : Sound s)
    (before : is_alive (s.table i).state ≡ true) (after : is_alive p.state ≡ true)
    (pid : p.pid ≡ (s.table i).pid) (parent : p.parent ≡ some me)
    (runs : is_alive (s.table me).state ≡ true) where
  here : update s.table i p i ≡ p
  here = rw ((==_iff i i).1 refl) refl

  other : (j : ℕ) → i ≢ j → update s.table i p j ≡ s.table j
  other j ne = rw (==_false i j ne) refl

  set_alive : (j : ℕ) → is_alive (update s.table i p j).state ≡ is_alive (s.table j).state
  set_alive j = elim (ℕ_discrete i j) [
    | yes e ↦ rw (sym e, here) (after ∙ sym before)
    | no ne ↦ rw (other j ne) refl
  ]

  set_unused : (j : ℕ) → is_unused (update s.table i p j).state ≡ is_unused (s.table j).state
  set_unused j = elim (ℕ_discrete i j) [
    | yes e ↦
        rw (sym e, here) (alive_used p.state after ∙ sym (alive_used (s.table i).state before))
    | no ne ↦ rw (other j ne) refl
  ]

  set_pid : (j : ℕ) → (update s.table i p j).pid ≡ (s.table j).pid
  set_pid j = elim (ℕ_discrete i j) [ yes e ↦ rw (sym e, here) pid | no ne ↦ rw (other j ne) refl ]

  set_free : (j : ℕ) → is_unused (s.table j).state ≡ true → update s.table i p j ≡ s.table j
  set_free j free =
      other j
        (λ e. bool_clash (alive_used _ before) (ap (λ k. is_unused (s.table k).state) e ∙ free))

  kept_parent : (j : ℕ) → i ≢ j → HasParent s.table j → HasParent (update s.table i p) j
  unfolding HasParent
  kept_parent j ne (inl (state, none_yet)) = inl (rw (other j ne) (state, none_yet))
  kept_parent j ne (inr (q, e, a)) = inr (q, rw (other j ne) e, set_alive q ∙ a)

  new_parent : HasParent (update s.table i p) i
  unfolding HasParent
  new_parent = inr (me, rw (here) parent, set_alive me ∙ runs)

  pub adopted-Sound : Sound (set_slot s i p)
  adopted-Sound = record {
    free = λ j e. let f = sym (set_unused j) ∙ e in set_free j f ∙ d.free j f;
    pids = λ j e. rw (set_pid j) (d.pids j (sym (set_unused j) ∙ e));
    distinct = λ j k e f same.
        d.distinct j k (sym (set_unused j) ∙ e) (sym (set_unused k) ∙ f)
          (sym (set_pid j) ∙ same ∙ set_pid k);
    parents = λ j e ne. elim (ℕ_discrete i j) [
      | yes same ↦ rw (sym same) new_parent
      | no away ↦ kept_parent j away (d.parents j (sym (set_unused j) ∙ e) ne)
    ];
    first = set_alive s.init ∙ d.first;
  }

pub fork_adopt-Sound :
    {s : Processes} (me i : ℕ)
    → (s.table me).state ≡ running
    → (s.table i).state ≡ used
    → Sound s
    → Sound (fork_adopt me i s)
unfolding fork_adopt
fork_adopt-Sound {s = s} me i runs state d =
    adopted-Sound s i me _ d (ap is_alive state) (ap is_alive state) refl refl (ap is_alive runs)

pub fork_start-Sound :
    {s : Processes} (me i : ℕ)
    → (s.table me).state ≡ running
    → (s.table i).state ≡ used
    → (s.table i).parent ≡ some me
    → Sound s
    → Sound (fork_start i s)
unfolding fork_start
fork_start-Sound {s = s} me i runs state parent d =
    adopted-Sound s i me _ d (ap is_alive state) refl refl parent (ap is_alive runs)
