-- ===== src/User/Wc/Tests.antt =====
-- A text in two calls of read, divided in the middle of a word.
use mits081_lab.Base.{ℕ, ◌≡◌, refl, true, false, none, some, List, [], ◌∷◌}
use mits081_lab.User.Wc.{wc, wc_from, count_all, count, separates}

abbrev reads : List (List ℕ)
reads = (b'a' ∷ (b' ' ∷ (b'b' ∷ []))) ∷ ((b'c' ∷ (b'\n' ∷ [])) ∷ [])

counted : wc reads false ≡ some (1, 2, 5)
unfolding wc wc_from count_all count separates
counted = refl

read_error : wc reads true ≡ none
unfolding wc
read_error = refl
