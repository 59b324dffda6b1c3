-- ===== src/Kernel/Pipe/Read.antt =====
-- What `piperead` takes out of a pipe, and the order of the bytes over any sequence of calls.
use mits081_lab.Base.{
  ℕ, zero, suc, ◌+◌, ◌≤◌, ◌≡◌, refl, ◌∙◌, sym, ap, ◌≢◌, ◌⊎◌, inl, inr, Bool, true, false, List, [],
  ◌∷◌, ◌++◌, append-nil, append_assoc, arith, length, Bool-cases, Option,
}
use mits081_lab.Kernel.Pipe.{
  Pipe, Channel, Outcome, minus_one, slept, returned, empty, front, advance, pipewrite_from,
  copy_from, piperead,
}
use mits081_lab.Kernel.Pipe.Window.{contents, IsValid, count-empty}
use mits081_lab.Kernel.Pipe.Fifo.{
  advance-IsValid, contents-advance, offered, moved, pipewrite_from-Wrote,
}

contents-empty : (p : Pipe) → IsValid p → empty p ≡ true → contents p ≡ []
contents-empty p v e = rw ((count-empty p v).0 e)

contents-ne-nil : (p : Pipe) → IsValid p → empty p ≡ false → contents p ≢ []
contents-ne-nil p v e h = cc (contents-advance p v e)

module _ (killed : Bool) (addr : ℕ) (user : ℕ → Bool) where
  -- The bytes `out` reached the user, and `lost` left the pipe and did not: at most one byte, at an address
  -- that copyout cannot write.
  pub record Took (k i : ℕ) (p : Pipe) (j : ℕ) (out : List ℕ) (p' : Pipe) : Type 0 where
    pub lost : List ℕ
    pub valid : IsValid p'
    pub bytes : contents p ≡ out ++ (lost ++ contents p')
    pub count : j ≡ i + length out
    pub within : j ≤ i + k
    pub stopped :
        ((lost ≡ []) × ((j ≡ i + k) ⊎ (contents p' ≡ [])))
        ⊎ ((length lost ≡ 1) × (user (addr + j) ≡ false))

  copy_from-Took :
      (k i : ℕ) (p : Pipe)
      → IsValid p
      → let (j, out, p') = copy_from killed addr user k i p in Took k i p j out p'
  unfolding copy_from
  copy_from-Took zero i p v = record {
    lost = [];
    valid = v;
    bytes = refl;
    count = omega arith;
    within = omega arith;
    stopped = inl (refl, inl (omega arith));
  }
  copy_from-Took (suc k) i p v = elim (Bool-cases (empty p)) [
    | inl none_left ↦ rw none_left (record {
      lost = [];
      valid = v;
      bytes = refl;
      count = omega arith;
      within = omega arith;
      stopped = inl (refl, inr (contents-empty p v none_left));
    })
    | inr some_left ↦ elim (Bool-cases (user (addr + i))) [
      | inl good ↦
          let ih = copy_from-Took k (i + 1) (advance p) (advance-IsValid p v some_left) in
          rw (some_left, good)
            (record {
              lost = ih.lost;
              valid = ih.valid;
              bytes = contents-advance p v some_left ∙ ap (λ l. front p ∷ l) ih.bytes;
              count = omega (arith, ih.count);
              within = omega (arith, ih.within);
              stopped = elim ih.stopped [
                | inl (e, inl h) ↦ inl (e, inl (omega arith))
                | inl (e, inr h) ↦ inl (e, inr h)
                | inr h ↦ inr h
              ];
            })
      | inr fault ↦
          rw (some_left, fault)
            (record {
              lost = front p ∷ [];
              valid = advance-IsValid p v some_left;
              bytes = contents-advance p v some_left;
              count = omega arith;
              within = omega arith;
              stopped = inr (refl, fault);
            })
    ]
  ]

  -- What a call of `piperead` for `n` bytes does.
  pub data Reads (n : ℕ) (p : Pipe) : Outcome × List ℕ × List Channel × Pipe → Type 0 where
    killed_waiting :
        {w : List Channel}
        → contents p ≡ []
        → p.writeopen ≡ true
        → killed ≡ true
        → Reads n p (minus_one, [], w, p)
    waits :
        {w : List Channel}
        → contents p ≡ []
        → p.writeopen ≡ true
        → killed ≡ false
        → Reads n p (slept 0, [], w, p)
    takes :
        {j : ℕ} {out : List ℕ} {w : List Channel} {p' : Pipe}
        → (contents p ≢ []) ⊎ (p.writeopen ≡ false)
        → Took n 0 p j out p'
        → Reads n p (returned j, out, w, p')

  -- On a valid pipe `piperead` waits, or returns -1 if the process is killed, exactly if the pipe is empty
  -- and its write end open. Otherwise it returns the number of bytes that reached the user, and these are
  -- the oldest bytes of the pipe in their order. It takes them until it has `n` or the pipe is empty, or up
  -- to an address that copyout cannot write, and then the byte for that address is lost.
  pub piperead-Reads : (n : ℕ) (p : Pipe) → IsValid p → Reads n p (piperead killed addr user n p)
  unfolding piperead
  piperead-Reads n p v = elim (Bool-cases (empty p)) [
    | inl none_left ↦ elim (Bool-cases p.writeopen) [
      | inl open_end ↦ elim (Bool-cases killed) [
        | inl dead ↦
            simp (none_left, open_end, dead)
              (killed_waiting (contents-empty p v none_left) open_end refl)
        | inr alive ↦
            simp (none_left, open_end, alive) (waits (contents-empty p v none_left) open_end refl)
      ]
      | inr closed ↦ simp (none_left, closed) (takes (inr closed) (copy_from-Took n 0 p v))
    ]
    | inr some_left ↦
        rw some_left (takes (inl (contents-ne-nil p v some_left)) (copy_from-Took n 0 p v))
  ]

-- The calls that processes make on a pipe, in the order in which they hold its lock; a reader's buffer is
-- one that copyout can write.
pub data Call : Type 0 where
  write : (killed : Bool) (addr : ℕ) (user : ℕ → Option ℕ) (k i : ℕ) → Call
  read : (killed : Bool) (addr n : ℕ) → Call

-- The bytes that the calls have put in, those that they have taken out, and the pipe.
unfoldable pub run : List Call → Pipe → List ℕ × List ℕ × Pipe
run [] p = ([], [], p)
run (write killed addr user k i ∷ calls) p =
    let (o, _, p') = pipewrite_from killed addr user k i p in
    let (sent, got, p'') = run calls p' in (offered user (addr + i) (moved i o) ++ sent, got, p'')
run (read killed addr n ∷ calls) p =
    let (_, out, _, p') = piperead killed addr (λ _. true) n p in
    let (sent, got, p'') = run calls p' in (sent, out ++ got, p'')

-- A reader whose buffer is good loses nothing.
Reads-bytes :
    {killed : Bool} {addr n : ℕ} {p : Pipe} (r : Outcome × List ℕ × List Channel × Pipe)
    → IsValid p
    → Reads killed addr (λ _. true) n p r
    → (contents p ≡ r.1 ++ contents r.3) × IsValid r.3
Reads-bytes r v (killed_waiting e o d) = (refl, v)
Reads-bytes r v (waits e o a) = (refl, v)
Reads-bytes r v (takes {out} {p'} w t) = elim t.stopped [
  | inl (e, h) ↦ (t.bytes ∙ ap (λ l. out ++ (l ++ contents p')) e, t.valid)
  | inr (e, h) ↦ absurd (ground arith)
]

bytes_in : (c x y c' r : List ℕ) → c' ≡ c ++ x → c' ++ y ≡ r → c ++ (x ++ y) ≡ r
bytes_in c x y c' r e h = sym (append_assoc c x y) ∙ ap (λ l. l ++ y) (sym e) ∙ h

bytes_out : (o c c' y g r : List ℕ) → c ≡ o ++ c' → c' ++ y ≡ g ++ r → c ++ y ≡ (o ++ g) ++ r
bytes_out o c c' y g r e h =
    ap (λ l. l ++ y) e ∙ append_assoc o c' y ∙ ap (λ l. o ++ l) h ∙ sym (append_assoc o g r)

-- For a valid pipe and any sequence of calls in which no copyout of a reader fails (a byte for which it fails is lost): the bytes
-- come out in the order in which they went in, and none is lost or made up: those that were in the pipe and those put in are those taken out and those that are left.
pub run-fifo :
    (calls : List Call) (p : Pipe)
    → IsValid p
    → let (sent, got, p') = run calls p in (contents p ++ sent ≡ got ++ contents p') × IsValid p'
unfolding run
run-fifo [] p v = (append-nil (contents p), v)
run-fifo (write killed addr user k i ∷ calls) p v =
    let r = pipewrite_from killed addr user k i p in
    let w = pipewrite_from-Wrote killed addr user k i p v in
    let (ih, v') = run-fifo calls r.2 w.valid in
    (
      bytes_in (contents p) (offered user (addr + i) (moved i r.0)) (run calls r.2).0 (contents r.2)
          ((run calls r.2).1 ++ contents (run calls r.2).2) w.bytes ih,
      v',
    )
run-fifo (read killed addr n ∷ calls) p v =
    let r = piperead killed addr (λ _. true) n p in
    let (e, valid) = Reads-bytes r v (piperead-Reads killed addr (λ _. true) n p v) in
    let (ih, v') = run-fifo calls r.3 valid in
    (
      bytes_out r.1 (contents p) (contents r.3) (run calls r.3).0 (run calls r.3).1
          (contents (run calls r.3).2) e ih,
      v',
    )
