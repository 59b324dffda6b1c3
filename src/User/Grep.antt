-- ===== src/User/Grep.antt =====
-- user/grep.c: the regular-expression matcher of Kernighan and Pike.
-- A C string is the list of its bytes before the NUL, so `*text == '\0'` is the empty list, and
-- `re[1]` of a one-byte string is the NUL.
pub mod Regex
pub mod Decides
mod Tests
use mits081_lab.Base.{ℕ, Bool, true, false, ◌||◌, ◌&&◌, List, [], ◌∷◌, ◌==◌, if◌then◌else◌}

abbrev pub CString : Type 0
CString = List ℕ

-- `*text != '\0' && (re[0] == '.' || re[0] == *text)`
abbrev pub accepts : ℕ → ℕ → Bool
accepts r c = r == b'.' || r == c

-- The loop of `matchstar(c, re, text)`; `here` is `matchhere(re, ·)`.
pub matchstar : (CString → Bool) → ℕ → CString → Bool
matchstar here c [] = here []
matchstar here c (t ∷ text) =
    let rest = matchstar here c text in
    if here (t ∷ text) then true else if t == c || c == b'.' then rest else false

-- `*text == '\0'`
abbrev pub is_end : CString → Bool
is_end [] = true
is_end (t ∷ text) = false

-- `*text != '\0' && accepts(r, *text)`, and then `matchhere(re + 1, text + 1)`, which is `here`.
advance : (CString → Bool) → ℕ → CString → Bool
advance here r [] = false
advance here r (t ∷ text) = if accepts r t then here text else false

-- The last three lines of `matchhere`, at a first byte that no `*` follows.
unstarred : (CString → Bool) → ℕ → CString → CString → Bool
unfolding advance
unstarred here r re text = if r == b'$' && is_end re then is_end text else advance here r text

pub matchhere : CString → CString → Bool
unfolding unstarred matchstar
matchhere [] text = true
matchhere (r ∷ []) text = unstarred (matchhere []) r [] text
matchhere (r ∷ (s ∷ re)) text =
    if s == b'*'
    then matchstar (matchhere re) r text
    else unstarred (matchhere (s ∷ re)) r (s ∷ re) text

-- The do-while loop of `match`.
pub match_loop : CString → CString → Bool
match_loop re [] = matchhere re []
match_loop re (t ∷ text) =
    let rest = match_loop re text in if matchhere re (t ∷ text) then true else rest

pub match : CString → CString → Bool
unfolding matchhere match_loop
match [] text = match_loop [] text
match (r ∷ re) text = if r == b'^' then matchhere re text else match_loop (r ∷ re) text
