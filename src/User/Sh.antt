-- ===== src/User/Sh.antt =====
-- user/sh.c: the shell's parser. The text from `*ps` to `es` is the list of its bytes, so `*ps` at the NUL is the
-- empty list, and a token is the list of the bytes from `q` to `eq`.
pub mod Tokens
pub mod Total
mod Tests
use mits081_lab.Base.{
  ℕ, zero, suc, ◌+◌, ◌-◌, ◌*◌, Bool, true, false, not, ◌&&◌, ◌||◌, List, [], ◌∷◌, ◌++◌, ◌==◌, ltb,
  leb, if◌then◌else◌, length,
}

abbrev pub Text : Type 0
Text = List ℕ

abbrev pub max_args : ℕ
max_args = 10

-- how `redircmd` opens the file: O_RDONLY, O_WRONLY|O_CREATE|O_TRUNC, O_WRONLY|O_CREATE
pub data Mode : Type 0 where
  read_only create_truncate create : Mode

-- `struct redircmd`, without the command that it redirects
pub record Redir : Type 0 where
  pub file : Text
  pub mode : Mode
  pub fd : ℕ

-- `struct cmd`
pub data Cmd : Type 0 where
  exec : List Text → Cmd
  redir : Redir → Cmd → Cmd
  pipe : Cmd → Cmd → Cmd
  list : Cmd → Cmd → Cmd
  back : Cmd → Cmd

-- The command `c` in the redirections that `parseredirs` has made, the latest outermost.
abbrev pub wrap : List Redir → Cmd → Cmd
wrap [] c = c
wrap (r ∷ rs) c = redir r (wrap rs c)

-- What a parsing function ends in. `panic` stops the shell; `out_of_fuel` has no counterpart in the code.
pub data Parsed {ℓ} (A : Type ℓ) : Type ℓ where
  ok : A → Parsed A
  panic out_of_fuel : Parsed A

infixl 5 ◌>>=◌
abbrev pub ◌>>=◌ {ℓ κ} : {A : Type ℓ} {B : Type κ} → Parsed A → (A → Parsed B) → Parsed B
ok a >>= f = f a
panic >>= f = panic
out_of_fuel >>= f = out_of_fuel

-- `strchr(s, c)` as a test, for a byte `c` that is not 0
abbrev pub one_of : Text → ℕ → Bool
one_of [] c = false
one_of (x ∷ xs) c = x == c || one_of xs c

abbrev pub whitespace : Text
whitespace = b' ' ∷ b'\t' ∷ b'\r' ∷ b'\n' ∷ 11 ∷ []

abbrev pub symbols : Text
symbols = b'<' ∷ b'|' ∷ b'>' ∷ b'&' ∷ b';' ∷ b'(' ∷ b')' ∷ []

pub is_space : ℕ → Bool
is_space c = one_of whitespace c

pub is_symbol : ℕ → Bool
is_symbol c = one_of symbols c

-- `while(s < es && strchr(whitespace, *s)) s++;`
pub skip : Text → Text
unfolding is_space
skip [] = []
skip (c ∷ s) = let rest = skip s in if is_space c then rest else c ∷ s

-- The loop of `gettoken` over a word: the word, and what follows it.
pub word : Text → Text × Text
unfolding is_space is_symbol
word [] = ([], [])
word (c ∷ s) =
    let (w, rest) = word s in if is_space c || is_symbol c then ([], c ∷ s) else (c ∷ w, rest)

-- The case '>' of `gettoken`'s switch, at the byte after it.
pub greater : Text → ℕ × Text × Text
greater [] = (b'>', b'>' ∷ [], [])
greater (d ∷ s) = if d == b'>' then (b'+', b'>' ∷ (b'>' ∷ []), s) else (b'>', b'>' ∷ [], d ∷ s)

-- The switch of `gettoken`: the token's kind, its text, and what follows it.
pub token : Text → ℕ × Text × Text
unfolding word greater
token [] = (0, [], [])
token (c ∷ s) =
    let (w, rest) = word (c ∷ s) in
    if c == b'>' then greater s else if is_symbol c then (c, c ∷ [], s) else (b'a', w, rest)

pub gettoken : Text → ℕ × Text × Text
unfolding skip token
gettoken s = let (kind, w, rest) = token (skip s) in (kind, w, skip rest)

-- The value of `peek`; it leaves `skip s` in `*ps`.
pub starts : Text → Text → Bool
starts toks [] = false
starts toks (c ∷ s) = one_of toks c

-- The loop of `parseredirs`.
pub parseredirs : ℕ → List Redir → Text → Parsed (List Redir × Text)
unfolding gettoken starts
parseredirs zero rs s = out_of_fuel
parseredirs (suc fuel) rs s =
    let (tok, _, s₁) = gettoken (skip s) in
    let (kind, w, s₂) = gettoken s₁ in
    let r =
      if tok == b'<'
      then record { file = w; mode = read_only; fd = 0 }
      else if tok == b'>'
      then record { file = w; mode = create_truncate; fd = 1 }
      else record { file = w; mode = create; fd = 1 } in
    let more = parseredirs fuel (r ∷ rs) s₂ in
    if not (starts (b'<' ∷ b'>' ∷ []) (skip s))
    then ok (rs, skip s)
    else if not (kind == b'a')
    then panic
    else more

-- The loop of `parseline` over `&`.
pub backs : ℕ → Cmd → Text → Parsed (Cmd × Text)
unfolding gettoken starts
backs zero c s = out_of_fuel
backs (suc fuel) c s =
    let more = backs fuel (back c) (gettoken (skip s)).2 in
    if starts (b'&' ∷ []) (skip s) then more else ok (c, skip s)

-- The loop of `parseexec`, with the arguments so far, the latest last.
pub arguments : ℕ → List Text → List Redir → Text → Parsed (List Text × List Redir × Text)
unfolding gettoken starts parseredirs
arguments zero args rs s = out_of_fuel
arguments (suc fuel) args rs s =
    let (kind, w, s₁) = gettoken (skip s) in
    let args₁ = args ++ w ∷ [] in
    let more = do (rs₁, s₂) ← parseredirs (suc (length s₁)) rs s₁; arguments fuel args₁ rs₁ s₂
    in if starts (b'|' ∷ b')' ∷ b'&' ∷ b';' ∷ []) (skip s)
      then ok (args, rs, skip s)
      else if kind == 0
      then ok (args, rs, s₁)
      else if not (kind == b'a')
      then panic
      else if leb max_args (length args₁)
      then panic
      else more

mutual
  unfolding gettoken starts parseredirs backs arguments

  pub parseline : ℕ → Text → Parsed (Cmd × Text)
  parseline zero s = out_of_fuel
  parseline (suc fuel) s = do
    (c, s₁) ← parsepipe fuel s
    (c₁, s₂) ← backs (suc (length s₁)) c s₁
    let more = do (c₂, s₃) ← parseline fuel (gettoken (skip s₂)).2; ok (list c₁ c₂, s₃)
    if starts (b';' ∷ []) (skip s₂) then more else ok (c₁, skip s₂)

  pub parsepipe : ℕ → Text → Parsed (Cmd × Text)
  parsepipe zero s = out_of_fuel
  parsepipe (suc fuel) s = do
    (c, s₁) ← parseexec fuel s
    let more = do (c₁, s₂) ← parsepipe fuel (gettoken (skip s₁)).2; ok (pipe c c₁, s₂)
    if starts (b'|' ∷ []) (skip s₁) then more else ok (c, skip s₁)

  pub parseblock : ℕ → Text → Parsed (Cmd × Text)
  parseblock zero s = out_of_fuel
  parseblock (suc fuel) s =
      let body = do
        (c, s₁) ← parseline fuel (gettoken (skip s)).2
        let s₂ = (gettoken (skip s₁)).2
        let close = do (rs, s₃) ← parseredirs (suc (length s₂)) [] s₂; ok (wrap rs c, s₃)
        if starts (b')' ∷ []) (skip s₁) then close else panic
      in if starts (b'(' ∷ []) (skip s) then body else panic

  pub parseexec : ℕ → Text → Parsed (Cmd × Text)
  parseexec zero s = out_of_fuel
  parseexec (suc fuel) s =
      let block = parseblock fuel (skip s) in
      let simple = do
        (rs, s₁) ← parseredirs (suc (length (skip s))) [] (skip s)
        (args, rs₁, s₂) ← arguments (suc (length s₁)) [] rs s₁
        ok (wrap rs₁ (exec args), s₂)
      in if starts (b'(' ∷ []) (skip s) then block else simple

-- The fuel for a text: a call goes down four functions for each byte that it takes.
pub parsecmd : Text → Parsed Cmd
unfolding parseline
parsecmd s = do
  (c, rest) ← parseline (4 * length s + 4) s
  elim (skip rest) [ [] ↦ ok c | c' ∷ s' ↦ panic ]
