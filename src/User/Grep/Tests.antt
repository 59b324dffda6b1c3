-- ===== src/User/Grep/Tests.antt =====
-- Runs of grep.c's matcher.
use Prim.Native.Char.{code}
use Prim.Native.String.{String}
use mits081_lab.Base.{ℕ, ◌≡◌, refl, ◌↔◌, true, false, List, [], ◌∷◌}
use mits081_lab.User.Grep.{match}
use mits081_lab.User.Grep.Regex.{Finds}
use mits081_lab.User.Grep.Decides.{match_iff}

abbrev bytes : String → List ℕ
bytes String.[] = []
bytes (String.◌∷◌ c s) = code c ∷ bytes s

star_in_the_middle : match (bytes "^a.*b$") (bytes "axxb") ≡ true
unfolding match
star_in_the_middle = refl

dollar_needs_the_end : match (bytes "a$") (bytes "ab") ≡ false
unfolding match
dollar_needs_the_end = refl

anywhere : match (bytes "b*c") (bytes "xabbc") ≡ true
unfolding match
anywhere = refl

match_iff_example : (match (bytes "b*c") (bytes "abc") ≡ true) ↔ Finds (bytes "b*c") (bytes "abc")
match_iff_example = match_iff (bytes "b*c") (bytes "abc")
