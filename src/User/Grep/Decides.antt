-- ===== src/User/Grep/Decides.antt =====
-- `match` of grep.c answers 1 exactly on the texts in which the pattern occurs.
use mits081_lab.Base.{
  ℕ, ◌≡◌, refl, ◌↔◌, inl, inr, Bool, true, ◌||◌, [], ◌∷◌, ◌++◌, arith, ◌==◌, Bool-cases, ==_iff,
}
use mits081_lab.User.Grep.{CString, matchstar, unstarred, matchhere, match_loop, match}
use mits081_lab.User.Grep.Regex.{
  Repeats, none_left, one_more, NoStar, Matches, done, star, at_end, byte, Occurs, here, later,
  Finds,
}

-- soundness
matchstar_sound :
    (f : CString → Bool) (c : ℕ) (text : CString)
    → matchstar f c text ≡ true
    → (xs : CString) × (rest : CString) × Repeats c xs × (f rest ≡ true) × (text ≡ xs ++ rest)
unfolding matchstar
matchstar_sound f c [] h = ([], [], none_left, h, refl)
matchstar_sound f c (t ∷ text) h = elim (Bool-cases (f (t ∷ text))) [
  | inl now ↦ ([], t ∷ text, none_left, now, refl)
  | inr more ↦ elim (Bool-cases (t == c || c == b'.')) [
    | inl ok ↦
        let (xs, rest, reps, hit, e) = matchstar_sound f c text (ground arith) in
        (t ∷ xs, rest, one_more (ground arith) reps, hit, cc)
    | inr stop ↦ absurd (ground arith)
  ]
]

matchstar_complete :
    (f : CString → Bool) (c : ℕ) {xs : CString} (rest : CString)
    → Repeats c xs
    → f rest ≡ true
    → matchstar f c (xs ++ rest) ≡ true
unfolding matchstar
matchstar_complete f c [] none_left h = h
matchstar_complete f c (t ∷ rest) none_left h = rw h
matchstar_complete f c rest (one_more {t} {xs} ok reps) h =
    ground (arith, matchstar_complete f c rest reps h)

unstarred_sound :
    (f : CString → Bool) (r : ℕ) (re text : CString)
    → NoStar re
    → ((t : CString) → f t ≡ true → Matches re t)
    → unstarred f r re text ≡ true
    → Matches (r ∷ re) text
unfolding unstarred
unstarred_sound f r [] [] ns ih h = at_end (ground arith)
unstarred_sound f r [] (t ∷ text) ns ih h =
    byte ns (λ e. ground arith) (ground arith) (ih text (ground arith))
unstarred_sound f r (s ∷ re) [] ns ih h = absurd (ground arith)
unstarred_sound f r (s ∷ re) (t ∷ text) ns ih h =
    byte ns (λ e. ground arith) (ground arith) (ih text (ground arith))

matchhere_sound : (re text : CString) → matchhere re text ≡ true → Matches re text
unfolding matchhere
matchhere_sound [] text h = done
matchhere_sound (r ∷ []) text h = unstarred_sound _ r [] text tt (matchhere_sound []) h
matchhere_sound (r ∷ (s ∷ re)) text h = elim (Bool-cases (s == b'*')) [
  | inl starred ↦
      let (xs, rest, reps, hit, e) = matchstar_sound (matchhere re) r text (rw starred at h) in
      star (ground arith) reps (matchhere_sound re rest hit) e
  | inr plain ↦
      unstarred_sound _ r (s ∷ re) text (ground arith) (matchhere_sound (s ∷ re)) (rw plain at h)
]

-- completeness
matchhere_complete : {re text : CString} → Matches re text → matchhere re text ≡ true
unfolding matchhere unstarred
matchhere_complete done = refl
matchhere_complete (star {c} {s} {re} {text = rest} e reps m whole) =
    rw (whole, (==_iff s b'*').1 e)
      (matchstar_complete (matchhere re) c rest reps (matchhere_complete m))
matchhere_complete (at_end e) = ground arith
matchhere_complete (byte {re = []} ns ne ok m) = ground arith
matchhere_complete (byte {re = s ∷ re} ns ne ok m) = ground (arith, matchhere_complete m)

-- The positions that the do-while loop tries.
match_loop_sound : (re text : CString) → match_loop re text ≡ true → Occurs re text
unfolding match_loop
match_loop_sound re [] h = here (matchhere_sound re [] h)
match_loop_sound re (t ∷ text) h = elim (Bool-cases (matchhere re (t ∷ text))) [
  | inl now ↦ here (matchhere_sound re (t ∷ text) now)
  | inr more ↦ later (match_loop_sound re text (rw more at h))
]

match_loop_complete : {re text : CString} → Occurs re text → match_loop re text ≡ true
unfolding match_loop
match_loop_complete {re} {text = []} (here m) = matchhere_complete m
match_loop_complete {re} {text = t ∷ text} (here m) = rw (matchhere_complete m)
match_loop_complete (later o) = ground (arith, match_loop_complete o)

-- `match(re, text)` returns 1 exactly if `Finds re text`: a pattern behind `^` matches at the start of
-- the text, and any other at some position of it. It always returns.
pub match_iff : (re text : CString) → (match re text ≡ true) ↔ Finds re text
unfolding match
match_iff [] text = (match_loop_sound [] text, match_loop_complete)
match_iff (r ∷ re) text = elim (Bool-cases (r == b'^')) [
  | inl anchored ↦ rw anchored (matchhere_sound re text, matchhere_complete)
  | inr free ↦ rw free (match_loop_sound (r ∷ re) text, match_loop_complete)
]
