-- ===== src/Kernel/Path.antt =====
-- kernel/fs.c: the division of a path into its elements. A path is the list of its bytes before the NUL, and an element is
-- the list of the bytes in `name`, which end at a NUL or after DIRSIZ bytes.
pub mod Elements
mod Tests
use mits081_lab.Base.{ℕ, zero, suc, Option, none, some, List, [], ◌∷◌, ◌==◌, if◌then◌else◌, take}

abbrev pub dirsiz : ℕ
dirsiz = 14

-- `while(*path == '/') path++;`
unfoldable pub slashes : List ℕ → List ℕ
slashes [] = []
slashes (c ∷ path) = let rest = slashes path in if c == b'/' then rest else c ∷ path

-- `while(*path != '/' && *path != 0) path++;`: the bytes it passes, and the rest.
unfoldable pub element : List ℕ → List ℕ × List ℕ
element [] = ([], [])
element (c ∷ path) =
    let (name, rest) = element path in if c == b'/' then ([], c ∷ path) else (c ∷ name, rest)

-- `skipelem` after its first loop.
unfoldable pub skip_from : List ℕ → Option (List ℕ × List ℕ)
skip_from [] = none
skip_from (c ∷ path) =
    let (name, rest) = element (c ∷ path) in some (slashes rest, take dirsiz name)

-- The rest of the path, and the element, or `none` for 0.
unfoldable pub skipelem : List ℕ → Option (List ℕ × List ℕ)
skipelem path = skip_from (slashes path)

abbrev pub cons_name : List ℕ → Option (List (List ℕ)) → Option (List (List ℕ))
cons_name name none = none
cons_name name (some names) = some (name ∷ names)

-- A round of the loop of `namex`, after its call of skipelem; `rounds` is the rounds after it.
abbrev pub round :
    (List ℕ → Option (List (List ℕ))) → Option (List ℕ × List ℕ) → Option (List (List ℕ))
round rounds none = some []
round rounds (some (rest, name)) = cons_name name (rounds rest)

-- The names that the loop of `namex` looks up, if each is that of a directory that holds the next.
unfoldable pub elements : ℕ → List ℕ → Option (List (List ℕ))
elements zero path = none
elements (suc fuel) path = round (elements fuel) (skipelem path)
