-- ===== src/Kernel/Proc/Wakeup.antt =====
-- The loops over the process table, slot by slot: wakeup and reparent.
use mits081_lab.Base.{
  ℕ, zero, suc, ◌+◌, ◌≡◌, ◌⊎◌, inl, inr, refl, ◌∙◌, sym, ap, Bool, true, false, ◌&&◌, ◌||◌,
  Bool-cases, Option, some, ◌==◌, ==_iff, ==_false, ltb, leb, if◌then◌else◌, arith, ℕ_discrete,
  points_to,
}
use mits081_lab.Kernel.Disk.{update}
use mits081_lab.Kernel.Proc.{
  nproc, ProcState, unused, used, sleeping, runnable, running, zombie, is_sleeping, Channel, proc,
  wakes, Process, Table, wakeup_from, wakeup, reparent_from, reparent,
}

-- what `wakeup` makes of the process in slot `i`
pub woken : Option ℕ → Option Channel → ℕ → Process → Process
woken me chan i p = if wakes me chan i p then record p { state = runnable } else p

wakeup_step :
    (i : ℕ) (me : Option ℕ) (chan : Option Channel) (t : Table) (j : ℕ)
    → (if wakes me chan i (t i) then update t i (record (t i) { state = runnable }) else t) j
      ≡ (if i == j then woken me chan j (t j) else t j)
unfolding woken
wakeup_step i me chan t j = elim (ℕ_discrete i j) [
  | yes e ↦ rw (e) (ground arith)
  | no ne ↦ ground (arith, ne)
]

wakeup_from_lem :
    (k i : ℕ) (me : Option ℕ) (chan : Option Channel) (t : Table) (j : ℕ)
    → wakeup_from k i me chan t j
      ≡ (if leb i j && ltb j (i + k) then woken me chan j (t j) else t j)
unfolding wakeup_from
wakeup_from_lem zero i me chan t j = ground arith
wakeup_from_lem (suc k) i me chan t j =
    wakeup_from_lem k (i + 1) me chan _ j ∙ rw (wakeup_step i me chan t j) (ground arith)

-- `wakeup` makes runnable exactly the processes that sleep on the channel, but for the caller, and changes nothing else.
pub wakeup_lem :
    (me : Option ℕ) (chan : Option Channel) (t : Table) (j : ℕ)
    → wakeup me chan t j
      ≡ (if ltb j nproc && wakes me chan j (t j) then record (t j) { state = runnable } else t j)
unfolding wakeup woken
wakeup_lem me chan t j = wakeup_from_lem nproc 0 me chan t j ∙ ground arith

-- The process `b` is `a`, maybe woken, and maybe with another parent.
pub record Rouses (a b : Process) : Type 0 where
  pub state : (b.state ≡ a.state) ⊎ ((a.state ≡ sleeping) × (b.state ≡ runnable))
  pub same : b ≡ record a { state = b.state; parent = b.parent }

pub Rouses-trans : {a b c : Process} → Rouses a b → Rouses b c → Rouses a c
Rouses-trans {a = a} {b = b} {c = c} h k = record {
  state = elim k.state [
    | inl e ↦ elim h.state [ inl d ↦ inl (e ∙ d) | inr (s, d) ↦ inr (s, e ∙ d) ]
    | inr (s, e) ↦ elim h.state [ inl d ↦ inr (sym d ∙ s, e) | inr (s', d) ↦ inr (s', e) ]
  ];
  same =
      k.same
      ∙ ap {A = Process} {B = Process} (λ x. record x { state = c.state; parent = c.parent })
          h.same;
}

is_sleeping_lem : (s : ProcState) → is_sleeping s ≡ true → s ≡ sleeping
is_sleeping_lem unused e = grind (arith, e)
is_sleeping_lem used e = grind (arith, e)
is_sleeping_lem sleeping e = refl
is_sleeping_lem runnable e = grind (arith, e)
is_sleeping_lem running e = grind (arith, e)
is_sleeping_lem zombie e = grind (arith, e)

wakes_sleeping :
    (me : Option ℕ) (chan : Option Channel) (j : ℕ) (p : Process)
    → wakes me chan j p ≡ true
    → p.state ≡ sleeping
unfolding wakes
wakes_sleeping me chan j p e = is_sleeping_lem p.state (ground (arith, e))

wakes_self : (p : ℕ) (chan : Option Channel) (a : Process) → wakes (some p) chan p a ≡ false
unfolding wakes
wakes_self p chan a = ground arith

pub wakeup-Rouses :
    (me : Option ℕ) (chan : Option Channel) (t : Table) (j : ℕ) → Rouses (t j) (wakeup me chan t j)
wakeup-Rouses me chan t j = elim (Bool-cases (ltb j nproc && wakes me chan j (t j))) [
  | inl e ↦
      rw (wakeup_lem me chan t j, e)
        (record {
          state = inr (wakes_sleeping me chan j (t j) (ground (arith, e)), refl);
          same = refl;
        })
  | inr e ↦ rw (wakeup_lem me chan t j, e) (record { state = inl refl; same = refl })
]

pub wakeup_parent :
    (me : Option ℕ) (chan : Option Channel) (t : Table) (j : ℕ)
    → (wakeup me chan t j).parent ≡ (t j).parent
wakeup_parent me chan t j = rw (wakeup_lem me chan t j) (ground arith)

pub wakeup_self : (p : ℕ) (chan : Option Channel) (t : Table) → wakeup (some p) chan t p ≡ t p
wakeup_self p chan t = rw (wakeup_lem (some p) chan t p, wakes_self p chan (t p)) (ground arith)

-- `b` is what `reparent` of the children of `p` makes of `a` in slot `j`, or one round of it if `due` is false for the
-- other slots.
record Adopted (init p j : ℕ) (due : Bool) (a b : Process) : Type 0 where
  rouses : Rouses a b
  parent : b.parent ≡ (if due && points_to a.parent p then some init else a.parent)
  self : j ≡ p → b.state ≡ a.state

Adopted-wakeup :
    (init p j : ℕ) (due : Bool) (a : Process) (chan : Option Channel) (t : Table)
    → Adopted init p j due a (t j)
    → Adopted init p j due a (wakeup (some p) chan t j)
Adopted-wakeup init p j due a chan t h = record {
  rouses = Rouses-trans h.rouses (wakeup-Rouses (some p) chan t j);
  parent = wakeup_parent (some p) chan t j ∙ h.parent;
  self = λ e. caller e ∙ h.self e;
}
  where
    caller : j ≡ p → (wakeup (some p) chan t j).state ≡ (t j).state
    caller e = rw e (ap {A = Process} (λ q. q.state) (wakeup_self p chan t))

Adopted-self :
    (init p j : ℕ) (a : Process)
    → points_to a.parent p ≡ true
    → Adopted init p j true a (record a { parent = some init })
Adopted-self init p j a e = record {
  rouses = record { state = inl refl; same = refl };
  parent = rw e refl;
  self = λ _. refl;
}

Adopted-update :
    (i init p j : ℕ) (t : Table)
    → points_to (t i).parent p ≡ true
    → Adopted init p j (i == j) (t j) (update t i (record (t i) { parent = some init }) j)
Adopted-update i init p j t e = elim (ℕ_discrete i j) [
  | yes same ↦ rw (sym same, (==_iff i i).1 refl) (Adopted-self init p i (t i) e)
  | no ne ↦ rw (==_false i j ne) (record {
    rouses = record { state = inl refl; same = refl };
    parent = refl;
    self = λ _. refl;
  })
]

reparent_step :
    (i init p : ℕ) (t : Table) (j : ℕ)
    → Adopted init p j (i == j) (t j) (
        (if points_to (t i).parent p
            then wakeup
                (some p)
                (some (proc init))
                (update t i (record (t i) { parent = some init }))
            else t)
          j)
reparent_step i init p t j = elim (Bool-cases (points_to (t i).parent p)) [
  | inl e ↦
      rw e (
        Adopted-wakeup init p j (i == j) (t j) (some (proc init)) _ (Adopted-update i init p j t e))
  | inr e ↦ rw e (record {
    rouses = record { state = inl refl; same = refl };
    parent = kept e;
    self = λ _. refl;
  })
]
  where
    kept :
        points_to (t i).parent p ≡ false
        → (t j).parent ≡ (if i == j && points_to (t j).parent p then some init else (t j).parent)
    kept e = elim (ℕ_discrete i j) [
      | yes same ↦ rw (sym same, e) (ground arith)
      | no ne ↦ rw (==_false i j ne) refl
    ]

Adopted-trans :
    (init p j : ℕ) (first rest due : Bool) {a b c : Process}
    → (first ≡ true → rest ≡ false)
    → due ≡ (first || rest)
    → Adopted init p j first a b
    → Adopted init p j rest b c
    → Adopted init p j due a c
Adopted-trans init p j first rest due {a = a} {b = b} h d x y = record {
  rouses = Rouses-trans x.rouses y.rouses;
  parent = y.parent ∙ both;
  self = λ e. y.self e ∙ x.self e;
}
  where
    both :
        (if rest && points_to b.parent p then some init else b.parent)
        ≡ (if due && points_to a.parent p then some init else a.parent)
    both = elim (Bool-cases first) [
      | inl e ↦ rw (d, h e, e) (x.parent ∙ rw e refl)
      | inr e ↦ rw (d, x.parent, e) refl
    ]

reparent_from-suc :
    (k i init p : ℕ) (t : Table)
    → reparent_from (suc k) i init p t
      ≡ reparent_from k (i + 1) init p (
          if points_to (t i).parent p
          then wakeup (some p) (some (proc init)) (update t i (record (t i) { parent = some init }))
          else t)
unfolding reparent_from
reparent_from-suc k i init p t = refl

reparent_from-zero : (i init p : ℕ) (t : Table) → reparent_from 0 i init p t ≡ t
unfolding reparent_from
reparent_from-zero i init p t = refl

-- the slots that the loop of `reparent` reaches
reparent_from_lem :
    (k i init p : ℕ) (t : Table) (j : ℕ)
    → Adopted init p j (leb i j && ltb j (i + k)) (t j) (reparent_from k i init p t j)
reparent_from_lem zero i init p t j =
    let none_left : leb i j && ltb j (i + 0) ≡ false = ground arith in
    rw (reparent_from-zero i init p t, none_left)
      (record {
        rouses = record { state = inl refl; same = refl };
        parent = refl;
        self = λ _. refl;
      })
reparent_from_lem (suc k) i init p t j = rw (reparent_from-suc k i init p t) (
    Adopted-trans init p j (i == j) (leb (i + 1) j && ltb j (i + 1 + k)) _ (λ e. ground (arith, e))
      (ground arith) (reparent_step i init p t j) (reparent_from_lem k (i + 1) init p _ j))

-- What `reparent` of the children of `p` does: they become children of `init`, some processes that sleep may wake, and
-- nothing else changes.
pub record Reparented (init p j : ℕ) (a b : Process) : Type 0 where
  pub rouses : Rouses a b
  pub parent : b.parent ≡ (if ltb j nproc && points_to a.parent p then some init else a.parent)
  pub self : j ≡ p → b.state ≡ a.state

in_table : (j : ℕ) → leb 0 j && ltb j (0 + nproc) ≡ ltb j nproc
in_table j = ground arith

reparent-from : (init p : ℕ) (t : Table) → reparent init p t ≡ reparent_from nproc 0 init p t
unfolding reparent
reparent-from init p t = refl

pub reparent-Reparented :
    (init p : ℕ) (t : Table) (j : ℕ) → Reparented init p j (t j) (reparent init p t j)
reparent-Reparented init p t j = rw (reparent-from init p t) (
    let h = rw (in_table j) at (reparent_from_lem nproc 0 init p t j) in
    record { rouses = h.rouses; parent = h.parent; self = h.self })
