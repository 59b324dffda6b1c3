-- ===== src/Kernel/Path/Tests.antt =====
-- The path "//a/bc/".
use mits081_lab.Base.{ℕ, ◌≡◌, refl, some, List, [], ◌∷◌, map, take, arith}
use mits081_lab.Kernel.Path.{dirsiz, slashes, element, skip_from, skipelem, elements}
use mits081_lab.Kernel.Path.Elements.{
  nil, byte, goes_on, Spells, empty, slash, name, elements-Spells,
}

abbrev path : List ℕ
path = b'/' ∷ (b'/' ∷ (b'a' ∷ (b'/' ∷ (b'b' ∷ (b'c' ∷ (b'/' ∷ []))))))

abbrev names : List (List ℕ)
names = (b'a' ∷ []) ∷ ((b'b' ∷ (b'c' ∷ [])) ∷ [])

first : skipelem path ≡ some (b'b' ∷ (b'c' ∷ (b'/' ∷ [])), b'a' ∷ [])
unfolding skipelem skip_from slashes element
first = refl

path_spelled : Spells names path
path_spelled = slash (
    slash (
      name (byte (omega arith) nil) goes_on
        (slash (name (byte (omega arith) (byte (omega arith) nil)) goes_on (slash empty)))))

elements-Spells_example : elements 8 path ≡ some (map (take dirsiz) names)
elements-Spells_example = elements-Spells path_spelled 8 (omega arith)
