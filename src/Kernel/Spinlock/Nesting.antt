-- ===== src/Kernel/Spinlock/Nesting.antt =====
-- Matched calls of push_off and pop_off.
use mits081_lab.Base.{
  ◌+◌, ◌-◌, ◌≡◌, ◌<◌, refl, ◌∙◌, true, false, arith, ◌==◌, ◌&&◌, inl, inr, Bool-cases,
  if◌then◌else◌,
}
use mits081_lab.Kernel.Panic.{Run, ok, ◌>>=◌}
use mits081_lab.Kernel.Spinlock.{Cpu, push_off, pop_off}

-- A run of code with matched calls: nothing, or a `push_off`, a run, the matching `pop_off`, and a run.
pub data Matched : Type 0 where
  done : Matched
  off : Matched → Matched → Matched

unfoldable pub execute : Matched → Cpu → Run Cpu
execute done c = ok c
execute (off inner after) c = do c₁ ← execute inner (push_off c); c₂ ← pop_off c₁; execute after c₂

-- Between a `push_off` and its `pop_off` interrupts are off.
unfoldable pub IsQuiet : Cpu → Type 0
IsQuiet c = 0 < c.noff → c.enabled ≡ false

-- Matched calls have run from `c` to `c'`: they leave the nesting and the interrupts as they were, and what the
-- outermost `push_off` saved.
pub record Restored (c : Cpu) (r : Run Cpu) : Type 0 where
  pub after : Cpu
  pub result : r ≡ ok after
  pub depth : after.noff ≡ c.noff
  pub interrupts : after.enabled ≡ c.enabled
  pub saved : 0 < c.noff → after.intena ≡ c.intena

-- what `pop_off` leaves
abbrev pub popped : Cpu → Cpu
popped c = record {
  noff = c.noff - 1;
  intena = c.intena;
  enabled = if c.noff - 1 == 0 && c.intena then true else c.enabled;
}

pop_off-popped : (c : Cpu) → c.enabled ≡ false → 0 < c.noff → pop_off c ≡ ok (popped c)
unfolding pop_off
pop_off-popped c e h = ground (arith, e, h)

-- If a run between them has restored the CPU, `pop_off` undoes `push_off`.
popped_restores :
    (c c₁ : Cpu)
    → IsQuiet c
    → c₁.noff ≡ c.noff + 1
    → c₁.enabled ≡ false
    → c₁.intena ≡ (push_off c).intena
    → ((popped c₁).noff ≡ c.noff)
      × ((popped c₁).enabled ≡ c.enabled)
      × (0 < c.noff → (popped c₁).intena ≡ c.intena)
unfolding push_off IsQuiet
popped_restores c c₁ q n e i = elim (Bool-cases (c.noff == 0)) [
  | inl outermost ↦ (
    omega arith,
    elim (Bool-cases c.enabled) [
      | inl on ↦ ground (arith, n, e, i, outermost, on)
      | inr disabled ↦ ground (arith, n, e, i, outermost, disabled)
    ],
    λ h. ground (arith, outermost),
  )
  | inr nested ↦ ground (arith, n, e, i, nested, q)
]

push_off-IsQuiet : (c : Cpu) → IsQuiet (push_off c)
unfolding push_off IsQuiet
push_off-IsQuiet c h = refl

push_off-noff : (c : Cpu) → (push_off c).noff ≡ c.noff + 1
unfolding push_off
push_off-noff c = refl

push_off-enabled : (c : Cpu) → (push_off c).enabled ≡ false
unfolding push_off
push_off-enabled c = refl

push_off-positive : (c : Cpu) → 0 < (push_off c).noff
unfolding push_off
push_off-positive c = omega arith

IsQuiet-same : (c d : Cpu) → IsQuiet c → d.noff ≡ c.noff → d.enabled ≡ c.enabled → IsQuiet d
unfolding IsQuiet
IsQuiet-same c d q n e h = e ∙ q (omega (arith, n, h))

-- Matched calls of `push_off` and `pop_off` do not panic, and leave the nesting and the interrupts as they were; if
-- they run inside others, also what the outermost `push_off` has saved.
pub execute-Restored : (code : Matched) (c : Cpu) → IsQuiet c → Restored c (execute code c)
unfolding execute
execute-Restored done c q = record {
  after = c;
  result = refl;
  depth = refl;
  interrupts = refl;
  saved = λ h. refl;
}
execute-Restored (off inner after) c q =
    let inside = execute-Restored inner (push_off c) (push_off-IsQuiet c) in
    let c₁ = inside.after in
    let n : c₁.noff ≡ c.noff + 1 = inside.depth ∙ push_off-noff c in
    let e : c₁.enabled ≡ false = inside.interrupts ∙ push_off-enabled c in
    let i : c₁.intena ≡ (push_off c).intena = inside.saved (push_off-positive c) in
    let (depth, interrupts, saved) = popped_restores c c₁ q n e i in
    let rest = execute-Restored after (popped c₁) (IsQuiet-same c (popped c₁) q depth interrupts) in
    record {
      after = rest.after;
      result = rw (inside.result) (rw (pop_off-popped c₁ e (omega (arith, n))) rest.result);
      depth = rest.depth ∙ depth;
      interrupts = rest.interrupts ∙ interrupts;
      saved = λ h. rest.saved (omega (arith, depth, h)) ∙ saved h;
    }
