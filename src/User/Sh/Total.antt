-- ===== src/User/Sh/Total.antt =====
-- The parser always ends: its fuel is enough for every text.
use mits081_lab.Base.{
  ℕ, zero, suc, ◌+◌, ◌*◌, ◌≤◌, ◌<◌, ◌≡◌, refl, ◌⊎◌, Bool, true, false, not, List, [], ◌∷◌, ◌++◌,
  arith, ◌==◌, ==_ne, leb, length,
}
use mits081_lab.User.Sh.{
  Text, Redir, Cmd, exec, redir, pipe, list, wrap, max_args, ok, panic, back, skip, gettoken,
  starts, parseredirs, backs, arguments, parseline, parsepipe, parseblock, parseexec, parsecmd,
}
use mits081_lab.User.Sh.Tokens.{
  Ensures, holds, stops, Ensures-cases, Ensures-if, Ensures-bind, Ensures-weaken, length-skip,
  starts-lt, word-lt, length-gettoken,
}

not-false : {b : Bool} → not b ≡ false → b ≡ true
not-false {b = true} e = refl
not-false {b = false} e = cc

parseredirs-Ensures :
    (fuel : ℕ) (rs : List Redir) (s : Text)
    → length s < fuel
    → Ensures (λ (_, rest). length rest ≤ length s) (parseredirs fuel rs s)
unfolding parseredirs
parseredirs-Ensures zero rs s h = absurd (omega arith)
parseredirs-Ensures (suc fuel) rs s h =
    Ensures-if (not (starts (b'<' ∷ b'>' ∷ []) (skip s))) (λ _. holds (length-skip s))
      λ more.
        Ensures-if (not ((gettoken (gettoken (skip s)).2).0 == b'a')) (λ _. stops)
          λ _.
            let lt = starts-lt (b'<' ∷ b'>' ∷ []) s (not-false more) in
            let s₁ = (gettoken (skip s)).2 in
            let le : length (gettoken s₁).2 ≤ length s₁ = length-gettoken s₁ in
            let small : length (skip s) ≤ length s = length-skip s in
            Ensures-weaken (parseredirs-Ensures fuel _ (gettoken s₁).2 (omega arith))
              λ _ h'. omega arith

-- Every command has room for its arguments and the null that ends them.
abbrev pub FewArgs : Cmd → Type 0
FewArgs (exec args) = length args < max_args
FewArgs (redir r c) = FewArgs c
FewArgs (pipe c d) = FewArgs c × FewArgs d
FewArgs (list c d) = FewArgs c × FewArgs d
FewArgs (back c) = FewArgs c

FewArgs-wrap : (rs : List Redir) (c : Cmd) → FewArgs c → FewArgs (wrap rs c)
FewArgs-wrap [] c h = h
FewArgs-wrap (r ∷ rs) c h = FewArgs-wrap rs c h

abbrev Reads : Text → Cmd × Text → Type 0
Reads s (c, rest) = (length rest ≤ length s) × FewArgs c

backs-Ensures :
    (fuel : ℕ) (c : Cmd) (s : Text)
    → length s < fuel
    → FewArgs c
    → Ensures (Reads s) (backs fuel c s)
unfolding backs
backs-Ensures zero c s h few = absurd (omega arith)
backs-Ensures (suc fuel) c s h few =
    Ensures-if (starts (b'&' ∷ []) (skip s))
      (λ more.
        let lt = starts-lt (b'&' ∷ []) s more in
        let small : length (skip s) ≤ length s = length-skip s in
        Ensures-weaken (backs-Ensures fuel (back c) (gettoken (skip s)).2 (omega arith) few)
          λ _ (h', f'). (omega arith, f'))
      (λ _. holds (length-skip s, few))

arguments-Ensures :
    (fuel : ℕ) (args : List Text) (rs : List Redir) (s : Text)
    → length s < fuel
    → length args < max_args
    → Ensures
        (λ (args', _, rest). (length rest ≤ length s) × (length args' < max_args))
        (arguments fuel args rs s)
unfolding arguments
arguments-Ensures zero args rs s h few = absurd (omega arith)
arguments-Ensures (suc fuel) args rs s h few =
    let small : length (skip s) ≤ length s = length-skip s in
    Ensures-if (starts (b'|' ∷ b')' ∷ b'&' ∷ b';' ∷ []) (skip s)) (λ _. holds (small, few))
      λ _.
        Ensures-if ((gettoken (skip s)).0 == 0)
          (λ _. holds (omega (arith, length-gettoken (skip s)), few))
          λ some.
            Ensures-if (not ((gettoken (skip s)).0 == b'a')) (λ _. stops)
              λ _.
                Ensures-if (leb max_args (length (args ++ (gettoken (skip s)).1 ∷ []))) (λ _. stops)
                  λ room.
                    let lt = word-lt s (==_ne _ _ some) in
                    let s₁ = (gettoken (skip s)).2 in
                    Ensures-bind (parseredirs-Ensures (suc (length s₁)) rs s₁ (omega arith))
                      λ (rs₁, s₂) h₂.
                        Ensures-weaken
                          (arguments-Ensures fuel _ rs₁ s₂ (omega arith) (ground (arith, room)))
                          λ _ (h', f'). (omega arith, f')

mutual
  unfolding parseline

  parseline-Ensures :
      (fuel : ℕ) (s : Text) → 4 * length s + 3 < fuel → Ensures (Reads s) (parseline fuel s)
  parseline-Ensures zero s h = absurd (omega arith)
  parseline-Ensures (suc fuel) s h =
      Ensures-bind (parsepipe-Ensures fuel s (omega arith)) λ (c, s₁) (h₁, f₁).
        Ensures-bind (backs-Ensures (suc (length s₁)) c s₁ (omega arith) f₁) λ (c₁, s₂) (h₂, f₂).
          let small : length (skip s₂) ≤ length s₂ = length-skip s₂ in
          Ensures-if (starts (b';' ∷ []) (skip s₂))
            (λ more.
              let lt = starts-lt (b';' ∷ []) s₂ more in
              Ensures-bind (parseline-Ensures fuel (gettoken (skip s₂)).2 (omega arith))
                λ _ (h₃, f₃). holds (omega arith, (f₂, f₃)))
            (λ _. holds (omega arith, f₂))

  parsepipe-Ensures :
      (fuel : ℕ) (s : Text) → 4 * length s + 2 < fuel → Ensures (Reads s) (parsepipe fuel s)
  parsepipe-Ensures zero s h = absurd (omega arith)
  parsepipe-Ensures (suc fuel) s h =
      Ensures-bind (parseexec-Ensures fuel s (omega arith)) λ (c, s₁) (h₁, f₁).
        let small : length (skip s₁) ≤ length s₁ = length-skip s₁ in
        Ensures-if (starts (b'|' ∷ []) (skip s₁))
          (λ more.
            let lt = starts-lt (b'|' ∷ []) s₁ more in
            Ensures-bind (parsepipe-Ensures fuel (gettoken (skip s₁)).2 (omega arith))
              λ _ (h₃, f₃). holds (omega arith, (f₁, f₃)))
          (λ _. holds (omega arith, f₁))

  parseblock-Ensures :
      (fuel : ℕ) (s : Text) → 4 * length s < fuel → Ensures (Reads s) (parseblock fuel s)
  parseblock-Ensures zero s h = absurd (omega arith)
  parseblock-Ensures (suc fuel) s h =
      let small : length (skip s) ≤ length s = length-skip s in
      Ensures-if (starts (b'(' ∷ []) (skip s))
        (λ open_paren.
          let lt = starts-lt (b'(' ∷ []) s open_paren in
          Ensures-bind (parseline-Ensures fuel (gettoken (skip s)).2 (omega arith))
            λ (c, s₁) (h₁, f₁).
              Ensures-if (starts (b')' ∷ []) (skip s₁))
                (λ _.
                  let s₂ = (gettoken (skip s₁)).2 in
                  let le : length s₂ ≤ length (skip s₁) = length-gettoken (skip s₁) in
                  let le₁ : length (skip s₁) ≤ length s₁ = length-skip s₁ in
                  Ensures-bind (parseredirs-Ensures (suc (length s₂)) [] s₂ (omega arith))
                    λ (rs, _) h₃. holds (omega arith, FewArgs-wrap rs c f₁))
                (λ _. stops))
        (λ _. stops)

  parseexec-Ensures :
      (fuel : ℕ) (s : Text) → 4 * length s + 1 < fuel → Ensures (Reads s) (parseexec fuel s)
  parseexec-Ensures zero s h = absurd (omega arith)
  parseexec-Ensures (suc fuel) s h =
      let small : length (skip s) ≤ length s = length-skip s in
      Ensures-if (starts (b'(' ∷ []) (skip s))
        (λ _.
          Ensures-weaken (parseblock-Ensures fuel (skip s) (omega arith))
            λ _ (h', f'). (omega arith, f'))
        (λ _.
          Ensures-bind (parseredirs-Ensures (suc (length (skip s))) [] (skip s) (omega arith))
            λ (rs, s₁) h₁.
              Ensures-bind
                (arguments-Ensures (suc (length s₁)) [] rs s₁ (omega arith) (omega arith))
                λ (args, rs₁, _) (h₂, f₂). holds (omega arith, FewArgs-wrap rs₁ (exec args) f₂))

parsecmd-Ensures : (s : Text) → Ensures FewArgs (parsecmd s)
unfolding parsecmd
parsecmd-Ensures s =
    Ensures-bind (parseline-Ensures (4 * length s + 4) s (omega arith))
      λ (c, rest) (_, few). last c (skip rest) few
  where
    last :
        (c : Cmd) (r : Text) → FewArgs c → Ensures FewArgs (elim r [ [] ↦ ok c | c' ∷ s' ↦ panic ])
    last c [] few = holds few
    last c (c' ∷ s') few = stops

-- The parser ends on every text: in a panic for a syntax error, or with a command, and in that every simple
-- command has fewer than MAXARGS arguments, so that the null pointer after them is within `argv`.
pub parsecmd_lem : (s : Text) → (parsecmd s ≡ panic) ⊎ ((c : Cmd) × (parsecmd s ≡ ok c) × FewArgs c)
parsecmd_lem s = Ensures-cases (parsecmd-Ensures s)
