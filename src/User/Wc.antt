-- ===== src/User/Wc.antt =====
-- user/wc.c: counting lines, words and bytes. What the calls of read give is a list: the bytes of each call in turn, at
-- most 512, and whether the last call fails; a call that gives no bytes ends the loop. The counters do not overflow.
pub mod Counts
mod Tests
use mits081_lab.Base.{
  ℕ, suc, ◌+◌, Bool, true, false, not, Option, none, some, List, [], ◌∷◌, ◌==◌, if◌then◌else◌,
}
use mits081_lab.User.Sh.{one_of}

-- the variables `l`, `w`, `c` and `inword`
pub record Counters : Type 0 where
  pub l : ℕ
  pub w : ℕ
  pub c : ℕ
  pub inword : Bool

-- `strchr(" \r\t\n\v", b)` as a test: `strchr` of user/ulib.c does not find the NUL.
pub separates : ℕ → Bool
separates b = one_of (b' ' ∷ b'\r' ∷ b'\t' ∷ b'\n' ∷ 11 ∷ []) b

-- One round of the inner loop.
pub count : ℕ → Counters → Counters
count b s = record {
  l = if b == b'\n' then s.l + 1 else s.l;
  w = if separates b then s.w else if not s.inword then s.w + 1 else s.w;
  c = s.c + 1;
  inword = not (separates b);
}

-- The inner loop.
pub count_all : List ℕ → Counters → Counters
count_all [] s = s
count_all (b ∷ bs) s = count_all bs (count b s)

-- The outer loop.
pub wc_from : List (List ℕ) → Counters → Counters
wc_from [] s = s
wc_from ([] ∷ reads) s = s
wc_from ((b ∷ bs) ∷ reads) s = wc_from reads (count_all (b ∷ bs) s)

-- What is printed: the lines, words and bytes, or `none` for the read error.
pub wc : List (List ℕ) → Bool → Option (ℕ × ℕ × ℕ)
wc reads fails =
    let s = wc_from reads (record { l = 0; w = 0; c = 0; inword = false }) in
    if fails then none else some (s.l, s.w, s.c)
