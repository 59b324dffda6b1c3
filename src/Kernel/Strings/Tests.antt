-- ===== src/Kernel/Strings/Tests.antt =====
-- Concrete memories for string.c.
use mits081_lab.Base.{◌≡◌, refl, arith, leb, ltb, if◌then◌else◌}
use mits081_lab.Kernel.Strings.{Bytes, memmove, safestrcpy}
use mits081_lab.Kernel.Strings.Blocks.{memmove_lem, moved}
use mits081_lab.Kernel.Strings.Terminated.{HasLength, Copied, safestrcpy-Copied}

-- The string "ttt" at 100, zeros elsewhere.
abbrev ttt : Bytes
ttt a = if leb 100 a then (if ltb a 103 then b't' else 0) else 0

-- Every address holds its own number.
abbrev own : Bytes
own a = a

overlapping_copy : memmove 12 10 5 own 13 ≡ 11
unfolding memmove
overlapping_copy = refl

cut : safestrcpy 10 100 3 ttt 12 ≡ 0
unfolding safestrcpy
cut = refl

ttt_length : HasLength 100 3 ttt
ttt_length = record { nul = refl; others = λ i h. ground arith }

memmove_example : memmove 12 10 5 own 13 ≡ moved 12 10 5 own 13
memmove_example = memmove_lem 12 10 5 own 13

safestrcpy-Copied_example : Copied 10 100 2 ttt (safestrcpy 10 100 3 ttt)
safestrcpy-Copied_example = safestrcpy-Copied 2 10 100 ttt (omega arith)
