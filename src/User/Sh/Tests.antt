-- ===== src/User/Sh/Tests.antt =====
-- Command lines that the parser reads.
use mits081_lab.Base.{◌≡◌, refl, ◌⊎◌, [], ◌∷◌}
use mits081_lab.User.Sh.{Text, Cmd, exec, pipe, ok, panic, parsecmd}
use mits081_lab.User.Sh.Total.{FewArgs, parsecmd_lem}

-- "ls | wc"
abbrev pipeline : Text
pipeline = b'l' ∷ (b's' ∷ (b' ' ∷ (b'|' ∷ (b' ' ∷ (b'w' ∷ (b'c' ∷ []))))))

pipeline_read :
    parsecmd pipeline
    ≡ ok (pipe (exec ((b'l' ∷ (b's' ∷ [])) ∷ [])) (exec ((b'w' ∷ (b'c' ∷ [])) ∷ [])))
unfolding parsecmd
pipeline_read = refl

-- A block that is not closed.
unclosed : parsecmd (b'(' ∷ pipeline) ≡ panic
unfolding parsecmd
unclosed = refl

parsecmd_example :
    (parsecmd pipeline ≡ panic) ⊎ ((c : Cmd) × (parsecmd pipeline ≡ ok c) × FewArgs c)
parsecmd_example = parsecmd_lem pipeline
