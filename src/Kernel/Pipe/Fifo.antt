-- ===== src/Kernel/Pipe/Fifo.antt =====
-- What the calls on a pipe do to the bytes that it holds.
use mits081_lab.Base.{
  ℕ, zero, suc, ◌+◌, ◌-◌, ◌%◌, ◌≤◌, ◌<◌, ◌≡◌, refl, ◌∙◌, sym, ap, ◌⊎◌, inl, inr, Bool, true, false,
  not, ◌||◌, Option, none, some, List, [], ◌∷◌, ◌++◌, append-nil, append_assoc, arith, length-set,
  Bool-cases, Option-cases, length-replicate,
}
use mits081_lab.Kernel.Pipe.{
  Pipe, pipesize, fresh_pipe, Outcome, minus_one, slept, returned, empty, full, put, front, advance,
  pipewrite_from,
}
use mits081_lab.Kernel.Pipe.Window.{window, count, contents, IsValid, window-set, count-full}

pub fresh_pipe-IsValid : IsValid fresh_pipe × (contents fresh_pipe ≡ [])
unfolding fresh_pipe
fresh_pipe-IsValid = (
  record {
    room = length-replicate {A = ℕ} pipesize 5;
    nread_uint = omega arith;
    nwrite_uint = omega arith;
    within = omega arith;
  },
  refl,
)

put_count : (p : Pipe) (x : ℕ) → IsValid p → full p ≡ false → count (put p x) ≡ suc (count p)
unfolding put full
put_count p x v e = ground arith

put-IsValid : (p : Pipe) (x : ℕ) → IsValid p → full p ≡ false → IsValid (put p x)
unfolding put full
put-IsValid p x v e = ground (arith, length-set p.bytes (p.nwrite % pipesize) x)

count-lt : (p : Pipe) → IsValid p → full p ≡ false → count p < pipesize
unfolding full
count-lt p v e = ground arith

-- A byte that is put in goes behind the others.
contents-put :
    (p : Pipe) (x : ℕ) → IsValid p → full p ≡ false → contents (put p x) ≡ contents p ++ x ∷ []
unfolding put full
contents-put p x v e =
    ap (window (put p x).bytes p.nread) (put_count p x v e)
    ∙ window-set p.bytes x (count p) p.nread (p.nwrite % pipesize) v.room (count-lt p v e)
        (omega arith)

pub advance-IsValid : (p : Pipe) → IsValid p → empty p ≡ false → IsValid (advance p)
unfolding advance empty
advance-IsValid p v e = ground arith

count-advance : (p : Pipe) → IsValid p → empty p ≡ false → count p ≡ suc (count (advance p))
unfolding advance empty
count-advance p v e = ground arith

-- The byte that is taken out is the oldest.
pub contents-advance :
    (p : Pipe) → IsValid p → empty p ≡ false → contents p ≡ front p ∷ contents (advance p)
unfolding advance empty front
contents-advance p v e = ap (window p.bytes p.nread) (count-advance p v e)

-- the `k` bytes that the user offers from `i` on
abbrev pub offered : (ℕ → Option ℕ) → ℕ → ℕ → List ℕ
offered user a zero = []
offered user a (suc k) = get_some (user a) ∷ offered user (a + 1) k
  where
    get_some : Option ℕ → ℕ
    get_some none = 0
    get_some (some x) = x

-- by how many bytes a call that started at `i` has moved on
abbrev pub moved : ℕ → Outcome → ℕ
moved i minus_one = 0
moved i (slept j) = j - i
moved i (returned j) = j - i

module _ (killed : Bool) (addr : ℕ) (user : ℕ → Option ℕ) where
  -- Why a call ended as it did, when it had `k` bytes to go at `i` in pipe `p` and left pipe `p'`.
  abbrev pub Ends : ℕ → ℕ → Pipe → Outcome → Pipe → Type 0
  Ends k i p minus_one p' = ((p.readopen ≡ false) ⊎ (killed ≡ true)) × (p' ≡ p)
  Ends k i p (slept j) p' = (i ≤ j) × (j < i + k) × (count p' ≡ pipesize)
  Ends k i p (returned j) p' = (i ≤ j) × ((j ≡ i + k) ⊎ (j < i + k) × (user (addr + j) ≡ none))

  pub record Wrote (k i : ℕ) (p : Pipe) (o : Outcome) (p' : Pipe) : Type 0 where
    pub valid : IsValid p'
    pub bytes : contents p' ≡ contents p ++ offered user (addr + i) (moved i o)
    pub ends : Ends k i p o p'

  offered-nothing : (a i : ℕ) (l : List ℕ) → l ≡ l ++ offered user a (i - i)
  offered-nothing a i l =
      let none_left : i - i ≡ 0 = omega arith in rw none_left (sym (append-nil l))

  offered-some :
      (i j ch : ℕ)
      → i < j
      → user (addr + i) ≡ some ch
      → offered user (addr + i) (j - i) ≡ ch ∷ offered user (addr + (i + 1)) (j - (i + 1))
  offered-some i j ch h got =
      let more : j - i ≡ suc (j - (i + 1)) = omega arith in
      let next : addr + i + 1 ≡ addr + (i + 1) = omega arith in rw (more, got, next)

  bytes-put :
      (i j ch : ℕ) (p p' : Pipe)
      → IsValid p
      → full p ≡ false
      → i < j
      → user (addr + i) ≡ some ch
      → contents p' ≡ contents (put p ch) ++ offered user (addr + (i + 1)) (j - (i + 1))
      → contents p' ≡ contents p ++ offered user (addr + i) (j - i)
  bytes-put i j ch p p' v e h got w =
      w
      ∙ ap (λ l. l ++ offered user (addr + (i + 1)) (j - (i + 1))) (contents-put p ch v e)
      ∙ append_assoc (contents p) (ch ∷ []) _
      ∙ ap (λ l. contents p ++ l) (sym (offered-some i j ch h got))

  Wrote-put :
      (k i : ℕ) (p : Pipe) (ch : ℕ) (o : Outcome) (p' : Pipe)
      → IsValid p
      → (not p.readopen || killed) ≡ false
      → full p ≡ false
      → user (addr + i) ≡ some ch
      → Wrote k (i + 1) (put p ch) o p'
      → Wrote (suc k) i p o p'
  unfolding put
  Wrote-put k i p ch minus_one p' v alive e got w = absurd (ground (arith, w.ends))
  Wrote-put k i p ch (slept j) p' v alive e got w = record {
    valid = w.valid;
    bytes = bytes-put i j ch p p' v e (omega (arith, w.ends)) got w.bytes;
    ends = ground (arith, w.ends);
  }
  Wrote-put k i p ch (returned j) p' v alive e got w = record {
    valid = w.valid;
    bytes = bytes-put i j ch p p' v e (omega (arith, w.ends)) got w.bytes;
    ends = ground (arith, w.ends);
  }

  -- On a valid pipe, a run of `pipewrite` from byte `i` of the user's buffer, with `k` bytes to go, puts
  -- exactly the bytes that it moves behind those in the pipe, in their order, and keeps the pipe valid.
  -- It returns -1, changing nothing, only if the read end is closed or the process is killed; it sleeps
  -- only on a full pipe; and it returns early only at an address that copyin cannot read.
  pub pipewrite_from-Wrote :
      (k i : ℕ) (p : Pipe)
      → IsValid p
      → let (o, _, p') = pipewrite_from killed addr user k i p in Wrote k i p o p'
  unfolding pipewrite_from
  pipewrite_from-Wrote zero i p v = record {
    valid = v;
    bytes = offered-nothing (addr + i) i (contents p);
    ends = ground arith;
  }
  pipewrite_from-Wrote (suc k) i p v = elim (Bool-cases (not p.readopen || killed)) [
    | inl dead ↦
        rw dead
          (record { valid = v; bytes = sym (append-nil (contents p)); ends = (ground arith, refl) })
    | inr alive ↦ elim (Bool-cases (full p)) [
      | inl e ↦
          rw (alive, e)
            (record {
              valid = v;
              bytes = offered-nothing (addr + i) i (contents p);
              ends = (omega arith, omega arith, (count-full p v).0 e);
            })
      | inr ne ↦ elim (Option-cases (user (addr + i))) [
        | inl fault ↦
            rw (alive, ne, fault)
              (record {
                valid = v;
                bytes = offered-nothing (addr + i) i (contents p);
                ends = (omega arith, inr (omega arith, fault));
              })
        | inr (ch, got) ↦
            rw (alive, ne, got)
              (Wrote-put k i p ch _ _ v alive ne got
                (pipewrite_from-Wrote k (i + 1) (put p ch) (put-IsValid p ch v ne)))
      ]
    ]
  ]
