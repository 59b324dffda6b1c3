-- ===== src/Kernel/Path/Elements.antt =====
-- What the elements of a path are.
use mits081_lab.Base.{
  ℕ, zero, suc, ◌≡◌, ◌≢◌, ◌<◌, ◌≤◌, inl, inr, refl, ◌∙◌, ap, Bool-cases, some, List, [], ◌∷◌, ◌++◌,
  ◌==◌, ==_false, arith, length, length-append, take, map,
}
use mits081_lab.Kernel.Path.{
  dirsiz, slashes, element, skip_from, skipelem, cons_name, round, elements,
}

-- The bytes of a name: no slash.
pub data NoSlash : List ℕ → Type 0 where
  nil : NoSlash []
  byte : {c : ℕ} {cs : List ℕ} → c ≢ b'/' → NoSlash cs → NoSlash (c ∷ cs)

-- A path may end here, or goes on with a slash.
pub data AtSlash : List ℕ → Type 0 where
  ends : AtSlash []
  goes_on : {path : List ℕ} → AtSlash (b'/' ∷ path)

-- How a path is spelled: with any number of slashes before, between and after its names.
pub data Spells : List (List ℕ) → List ℕ → Type 0 where
  empty : Spells [] []
  slash : {names : List (List ℕ)} {path : List ℕ} → Spells names path → Spells names (b'/' ∷ path)
  name :
      {c : ℕ} {cs : List ℕ} {names : List (List ℕ)} {path : List ℕ}
      → NoSlash (c ∷ cs)
      → AtSlash path
      → Spells names path
      → Spells ((c ∷ cs) ∷ names) ((c ∷ cs) ++ path)

element_lem : {cs path : List ℕ} → NoSlash cs → AtSlash path → element (cs ++ path) ≡ (cs, path)
unfolding element
element_lem nil ends = refl
element_lem nil goes_on = refl
element_lem (byte {c = c} ne h) a = rw (==_false c b'/' ne, element_lem h a) refl

slashes_twice : (path : List ℕ) → slashes (slashes path) ≡ slashes path
unfolding slashes
slashes_twice [] = refl
slashes_twice (c ∷ path) = elim (Bool-cases (c == b'/')) [
  | inl e ↦ rw e (slashes_twice path)
  | inr e ↦ rw (e, e) refl
]

length-slashes : (path : List ℕ) → length (slashes path) ≤ length path
unfolding slashes
length-slashes [] = omega arith
length-slashes (c ∷ path) = ground (arith, length-slashes path)

skipelem-slashes : (path : List ℕ) → skipelem (slashes path) ≡ skipelem path
unfolding skipelem
skipelem-slashes path = ap skip_from (slashes_twice path)

skipelem_slash : (path : List ℕ) → skipelem (b'/' ∷ path) ≡ skipelem path
unfolding skipelem slashes
skipelem_slash path = refl

slashes_name : {c : ℕ} {path : List ℕ} → c ≢ b'/' → slashes (c ∷ path) ≡ c ∷ path
unfolding slashes
slashes_name {c = c} ne = rw (==_false c b'/' ne) refl

skipelem_name :
    {c : ℕ} {cs path : List ℕ}
    → NoSlash (c ∷ cs)
    → AtSlash path
    → skipelem ((c ∷ cs) ++ path) ≡ some (slashes path, take dirsiz (c ∷ cs))
unfolding skipelem skip_from
skipelem_name {c = c} {cs = cs} {path = path} (byte ne h) a =
    let word : element (c ∷ (cs ++ path)) ≡ (c ∷ cs, path) = element_lem (byte ne h) a in
    ap skip_from (slashes_name ne)
    ∙ ap {A = List ℕ × List ℕ} (λ (w, rest). some (slashes rest, take dirsiz w)) word

elements_same :
    (fuel : ℕ) (p q : List ℕ)
    → skipelem p ≡ skipelem q
    → elements (suc fuel) p ≡ elements (suc fuel) q
unfolding elements
elements_same fuel p q e = ap (round (elements fuel)) e

elements_end : (fuel : ℕ) → elements (suc fuel) [] ≡ some []
unfolding elements skipelem skip_from slashes
elements_end fuel = refl

elements_name :
    (fuel : ℕ) {c : ℕ} {cs path : List ℕ}
    → NoSlash (c ∷ cs)
    → AtSlash path
    → elements (suc fuel) ((c ∷ cs) ++ path)
      ≡ cons_name (take dirsiz (c ∷ cs)) (elements fuel (slashes path))
unfolding elements
elements_name fuel n a = ap (round (elements fuel)) (skipelem_name n a)

elements-slashes :
    (fuel : ℕ) (path : List ℕ)
    → length path < fuel
    → elements fuel (slashes path) ≡ elements fuel path
elements-slashes zero path small = absurd (omega arith)
elements-slashes (suc fuel) path small =
    elements_same fuel (slashes path) path (skipelem-slashes path)

-- Once the loop of `namex` has more rounds than the path has bytes, it ends, having looked up the names that the
-- path spells in turn, each cut to DIRSIZ bytes.
pub elements-Spells :
    {names : List (List ℕ)} {path : List ℕ}
    → Spells names path
    → (fuel : ℕ) → length path < fuel
    → elements fuel path ≡ some (map (take dirsiz) names)
elements-Spells empty zero small = absurd (omega arith)
elements-Spells empty (suc fuel) small = elements_end fuel
elements-Spells (slash h) zero small = absurd (omega arith)
elements-Spells (slash {path = path} h) (suc fuel) small =
    elements_same fuel (b'/' ∷ path) path (skipelem_slash path)
    ∙ elements-Spells h (suc fuel) (omega arith)
elements-Spells (name n a h) zero small = absurd (omega arith)
elements-Spells (name {c = c} {cs = cs} {path = path} n a h) (suc fuel) small =
    let fits : length path < fuel = omega (arith, small, length-append cs path) in
    elements_name fuel n a
    ∙ ap (cons_name (take dirsiz (c ∷ cs)))
        (elements-slashes fuel path fits ∙ elements-Spells h fuel fits)
