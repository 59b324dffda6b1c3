-- ===== src/Kernel/Pipe/Tests.antt =====
-- Runs of the pipe.
use mits081_lab.Base.{
  ℕ, ◌≡◌, refl, true, false, Option, none, some, List, [], ◌∷◌, ◌++◌, arith, replicate, ltb,
  if◌then◌else◌,
}
use mits081_lab.Kernel.Pipe.{Pipe, returned, pipewrite, pipewrite_from, piperead}
use mits081_lab.Kernel.Pipe.Window.{IsValid, contents}
use mits081_lab.Kernel.Pipe.Fifo.{Wrote, pipewrite_from-Wrote}
use mits081_lab.Kernel.Pipe.Read.{Reads, piperead-Reads, Call, write, read, run, run-fifo}

-- The counters are about to wrap round: one byte is in the pipe.
abbrev near_wrap : Pipe
near_wrap = record {
  bytes = replicate 512 9;
  nread = 0xffff_fffe;
  nwrite = 0xffff_ffff;
  readopen = true;
  writeopen = true;
}

-- Addresses below 100 hold their own number.
abbrev memory : ℕ → Option ℕ
memory a = if ltb a 100 then some a else none

near_wrap-IsValid : IsValid near_wrap
near_wrap-IsValid = omega arith

round_the_corner : contents (pipewrite false 5 memory 3 near_wrap).2 ≡ 9 ∷ 5 ∷ 6 ∷ 7 ∷ []
unfolding pipewrite
round_the_corner = refl

stops_at_a_fault : (pipewrite false 98 memory 5 near_wrap).0 ≡ returned 2
unfolding pipewrite
stops_at_a_fault = refl

pipewrite_from-Wrote_example :
    Wrote false 98 memory 5 0 near_wrap
      (pipewrite_from false 98 memory 5 0 near_wrap).0
      (pipewrite_from false 98 memory 5 0 near_wrap).2
pipewrite_from-Wrote_example = pipewrite_from-Wrote false 98 memory 5 0 near_wrap near_wrap-IsValid

piperead-Reads_example :
    Reads false 0 (λ a. ltb a 100) 4 near_wrap (piperead false 0 (λ a. ltb a 100) 4 near_wrap)
piperead-Reads_example = piperead-Reads false 0 (λ a. ltb a 100) 4 near_wrap near_wrap-IsValid

abbrev calls : List Call
calls = write false 1 memory 2 0 ∷ read false 0 2 ∷ write false 8 memory 1 0 ∷ read false 0 9 ∷ []

calls_run : (run calls near_wrap).1 ≡ 9 ∷ 1 ∷ 2 ∷ 8 ∷ []
unfolding run pipewrite_from piperead
calls_run = refl

run-fifo_example :
    (9 ∷ (run calls near_wrap).0 ≡ (run calls near_wrap).1 ++ contents (run calls near_wrap).2)
    × IsValid (run calls near_wrap).2
run-fifo_example = run-fifo calls near_wrap near_wrap-IsValid
