-- ===== src/Kernel/Pipe.antt =====
-- kernel/pipe.c: a byte queue of 512 bytes between a writer and a reader.
-- `nread` and `nwrite` are C's `uint`, so they wrap round at 2 ^ 32. The buffers in user memory are
-- parameters: what copyin and copyout of kernel/vm.c do with one byte at an address.
pub mod Window
pub mod Fifo
pub mod Read
mod Tests
use mits081_lab.Base.{
  ℕ, zero, suc, ◌+◌, ◌-◌, ◌%◌, ◌^◌, Bool, true, false, ◌||◌, ◌&&◌, not, Option, none, some, List,
  [], ◌∷◌, ◌==◌, if◌then◌else◌, get_or, set, replicate,
}

abbrev pub pipesize : ℕ
pipesize = 512

-- `uint` addition
abbrev pub add_uint : ℕ → ℕ → ℕ
add_uint a b = (a + b) % 2 ^ 32

-- `struct pipe`, without its lock
pub record Pipe : Type 0 where
  pub bytes : List ℕ
  pub nread : ℕ
  pub nwrite : ℕ
  pub readopen : Bool
  pub writeopen : Bool

-- the fields that `pipealloc` sets in a fresh page, whose bytes kalloc has filled with 5
pub fresh_pipe : Pipe
fresh_pipe = record {
  bytes = replicate pipesize 5;
  nread = 0;
  nwrite = 0;
  readopen = true;
  writeopen = true;
}

-- the addresses of fields on which a process sleeps
pub data Channel : Type 0 where
  at_nread at_nwrite : Channel

-- How a call ends: it returns -1; or it sleeps, having moved `i` bytes; or it returns `i`.
pub data Outcome : Type 0 where
  minus_one : Outcome
  slept : ℕ → Outcome
  returned : ℕ → Outcome

pub empty : Pipe → Bool
empty p = p.nread == p.nwrite

pub full : Pipe → Bool
full p = p.nwrite == add_uint p.nread pipesize

-- `pi->data[pi->nwrite++ % PIPESIZE] = ch`
pub put : Pipe → ℕ → Pipe
put p ch = record p { bytes = set p.bytes (p.nwrite % pipesize) ch; nwrite = add_uint p.nwrite 1 }

-- `pi->data[pi->nread++ % PIPESIZE]`, and what the increment leaves
pub front : Pipe → ℕ
front p = get_or p.bytes (p.nread % pipesize) 0

pub advance : Pipe → Pipe
advance p = record p { nread = add_uint p.nread 1 }

-- `pipeclose`: the channel that it wakes, whether it frees the page, and the pipe.
pub pipeclose : Pipe → Bool → Channel × Bool × Pipe
pipeclose p true = (at_nread, not p.readopen, record p { writeopen = false })
pipeclose p false = (at_nwrite, not p.writeopen, record p { readopen = false })

module _ (killed : Bool) (addr : ℕ) where
  -- The loop of `pipewrite` with `k` bytes to go at `i`: the outcome, the channels that it wakes, and
  -- the pipe. `user a` is the byte at address `a`, or `none` where copyin fails. A call that slept goes
  -- on here, with the pipe as others have left it.
  pub pipewrite_from : (user : ℕ → Option ℕ) → ℕ → ℕ → Pipe → Outcome × List Channel × Pipe
  unfolding full put
  pipewrite_from user zero i p = (returned i, at_nread ∷ [], p)
  pipewrite_from user (suc k) i p =
      if not p.readopen || killed
      then (minus_one, [], p)
      else if full p
      then (slept i, at_nread ∷ [], p)
      else elim (user (addr + i)) [
        | none ↦ (returned i, at_nread ∷ [], p)
        | some ch ↦ pipewrite_from user k (i + 1) (put p ch)
      ]

  pub pipewrite : (user : ℕ → Option ℕ) → ℕ → Pipe → Outcome × List Channel × Pipe
  unfolding pipewrite_from
  pipewrite user n p = pipewrite_from user n 0 p

  -- The copying loop of `piperead` with `k` bytes to go at `i`: the value of `i` at its end, the bytes
  -- that reach the user, and the pipe. `user a` says whether copyout to address `a` works.
  pub copy_from : (user : ℕ → Bool) → ℕ → ℕ → Pipe → ℕ × List ℕ × Pipe
  unfolding empty front advance
  copy_from user zero i p = (i, [], p)
  copy_from user (suc k) i p =
      let (j, out, p') = copy_from user k (i + 1) (advance p) in
      if empty p
      then (i, [], p)
      else if user (addr + i)
      then (j, front p ∷ out, p')
      else (i, [], advance p)

  -- `piperead` from its first test or from a wakeup on; the bytes are those that reach the user.
  pub piperead : (user : ℕ → Bool) → ℕ → Pipe → Outcome × List ℕ × List Channel × Pipe
  unfolding empty copy_from
  piperead user n p =
      if empty p && p.writeopen
      then if killed then (minus_one, [], [], p) else (slept 0, [], [], p)
      else let (i, out, p') = copy_from user n 0 p in (returned i, out, at_nwrite ∷ [], p')
