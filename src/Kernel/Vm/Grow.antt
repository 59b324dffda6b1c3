-- ===== src/Kernel/Vm/Grow.antt =====
-- A new page-table page under an entry that was not valid: the tree grows, and no entry changes.
use mathlib.Core.Path.{subst}
use mits081_lab.Base.{
  ℕ, ◌≡◌, refl, ◌∙◌, sym, ap, ap₂, ◌≢◌, ◌⊎◌, inl, inr, List, ◌∷◌, none, some, arith, ◌==◌,
  if◌then◌else◌, Option-cases, ℕ_discrete,
}
use mits081_lab.Kernel.Kalloc.{Memory, unlink}
use mits081_lab.Kernel.Kalloc.FreeList.{NotIn, Free, Chain-frame}
use mits081_lab.Kernel.Vm.{attach}
use mits081_lab.Kernel.Vm.Tree.{Role, free, mid, leaf, child, leaf_page, entry, IsTree, child-same}

-- Role `r` for page `q`, and the other roles as they are.
abbrev pub with_role : (ℕ → Role) → ℕ → Role → ℕ → Role
with_role role q r p = if p == q then r else role p

module _ (table q : ℕ) (rest : List ℕ) (role : ℕ → Role) (m : Memory)
    (t : IsTree table role (q ∷ rest) m) where
  -- the first free page
  q_free : role q ≡ free
  q_free = t.free_role q (λ n. n.0 refl)

  -- Page `p` holds an entry that is not valid.
  module _ (p i : ℕ) (r : Role) (in_tree : role p ≢ free) (unset : child m.word p i ≡ none) where
    abbrev pub grown : Memory
    grown = attach p i q (unlink q m)

    ne : p ≢ q
    ne e = in_tree (ap role e ∙ q_free)

    word-grown : (p' l : ℕ) → p' ≢ q → (p' ≢ p) ⊎ (l ≢ i) → grown.word p' l ≡ m.word p' l
    word-grown p' l nq away = ground (arith, away)

    child-new : (l : ℕ) → child grown.word q l ≡ none
    unfolding child
    child-new l = ground (arith, ne)

    pub child-at : child grown.word p i ≡ some q
    unfolding child
    child-at = ground (arith, t.aligned q (λ n. n.0 refl))

    pub child-other :
        (p' l : ℕ) → p' ≢ q → (p' ≢ p) ⊎ (l ≢ i) → child grown.word p' l ≡ child m.word p' l
    child-other p' l nq away = child-same grown.word m.word p' l (word-grown p' l nq away)

    Free-grown : Free grown rest
    Free-grown =
        Chain-frame grown.word m.word (m.word q 0) rest
          (λ x h.
            word-grown x 0 (λ e. h (subst (λ y. NotIn y rest) (sym e) t.free_list.2))
              (inl (λ e. in_tree (ap role (sym e) ∙ t.free_role x (λ n. h n.1)))))
          t.free_list.3

    -- Where page `p` stands in the tree, and so what the new page is.
    abbrev pub Fits : Type 0
    Fits = ((p ≡ table) × (r ≡ mid i)) ⊎ ((a : ℕ) × (role p ≡ mid a) × (r ≡ leaf a i))

    pub in_use : (x : ℕ) → role x ≢ free → x ≢ q
    in_use x h e = h (ap role e ∙ q_free)

    mid-ne-free : (x a : ℕ) → role x ≡ mid a → role x ≢ free
    mid-ne-free x a e f = cc (e, f)

    same_slot : (p' l : ℕ) → ((p' ≡ p) × (l ≡ i)) ⊎ ((p' ≢ p) ⊎ (l ≢ i))
    same_slot p' l = elim (ℕ_discrete p' p) [
      | no np ↦ inr (inl np)
      | yes ep ↦ elim (ℕ_discrete l i) [ no nl ↦ inr (inr nl) | yes el ↦ inl (ep, el) ]
    ]

    -- The new entry leads to the new page.
    new_child : (p' l x : ℕ) → p' ≡ p → l ≡ i → child grown.word p' l ≡ some x → x ≡ q
    new_child p' l x ep el e = cc (e, child-at, ap₂ (child grown.word) ep el)

    old_child :
        (p' l x : ℕ)
        → role p' ≢ free
        → (p' ≢ p) ⊎ (l ≢ i)
        → child grown.word p' l ≡ some x
        → child m.word p' l ≡ some x
    old_child p' l x used away e = sym (child-other p' l (in_use p' used) away) ∙ e

    pub role-new : (x : ℕ) → x ≡ q → with_role role q r x ≡ r
    role-new x e = ground (arith, e)

    role-old : (x : ℕ) → role x ≢ free → with_role role q r x ≡ role x
    role-old x used = ground (arith, in_use x used)

    mid_of_with_role : (x a : ℕ) → with_role role q r x ≡ mid a → x ≢ q → role x ≡ mid a
    mid_of_with_role x a e nq = ground (arith, nq)

    pub table_used : role table ≢ free
    table_used f = cc (t.table_role, f)

    mids-grown : Fits → (l x : ℕ) → child grown.word table l ≡ some x → with_role role q r x ≡ mid l
    mids-grown fits l x e = elim (same_slot table l) [
      | inl (ep, el) ↦
          let ex = new_child table l x ep el e in
          elim fits [
            | inl (_, er) ↦ role-new x ex ∙ er ∙ ap mid (sym el)
            | inr (a, ra, _) ↦ absurd (cc (t.table_role, ap role ep, ra))
          ]
      | inr away ↦
          let rx = t.mids l x (old_child table l x table_used away e) in
          role-old x (mid-ne-free x l rx) ∙ rx
    ]

    leaves-grown :
        Fits
        → (p' a l x : ℕ) → with_role role q r p' ≡ mid a
        → child grown.word p' l ≡ some x
        → with_role role q r x ≡ leaf a l
    leaves-grown fits p' a l x e f = elim (ℕ_discrete p' q) [
      | yes eq ↦ absurd (cc (f, ap (λ y. child grown.word y l) eq, child-new l))
      | no nq ↦
          let rp = mid_of_with_role p' a e nq in
          elim (same_slot p' l) [
            | inl (ep, el) ↦
                let ex = new_child p' l x ep el f in
                elim fits [
                  | inl (et, _) ↦ absurd (cc (t.table_role, ap role (ep ∙ et), rp))
                  | inr (b, rb, er) ↦ role-new x ex ∙ er ∙ cc (ap role ep, rp, rb, el)
                ]
            | inr away ↦
                let rx = t.leaves p' a l x rp (old_child p' l x (mid-ne-free p' a rp) away f) in
                role-old x (λ g. cc (rx, g)) ∙ rx
          ]
    ]

    pub IsTree-grown : Fits → IsTree table (with_role role q r) rest grown
    IsTree-grown fits = record {
      free_list = Free-grown;
      free_role = λ x h. ground (
        arith,
        t.free_role x (λ n. h n.1),
        λ (e : x ≡ q). h (subst (λ y. NotIn y rest) (sym e) t.free_list.2),
      );
      aligned = λ x h. t.aligned x (λ n. h n.1);
      table_role = ground (arith, t.table_role, q_free);
      mids = mids-grown fits;
      leaves = leaves-grown fits;
    }

    word-new : (l : ℕ) → grown.word q l ≡ 0
    word-new l = ground (arith, ne)

    ne-leaf : Fits → (x a b : ℕ) → role x ≡ leaf a b → x ≢ p
    ne-leaf fits x a b rx e = elim fits [
      | inl (et, _) ↦ cc (t.table_role, ap role (e ∙ et), rx)
      | inr (c, rc, _) ↦ cc (ap role e, rc, rx)
    ]

    -- No entry of the table changes.
    pub entry-grown :
        Fits → (i' j' k' : ℕ) → entry grown.word table i' j' k' ≡ entry m.word table i' j' k'
    unfolding entry leaf_page
    entry-grown fits i' j' k' = elim (same_slot table i') [
      | inl (ep, el) ↦
          let now = ap₂ (child grown.word) ep el ∙ child-at in
          let before = ap₂ (child m.word) ep el ∙ unset in ground (arith, now, before, child-new j')
      | inr away ↦
          let same = child-other table i' (in_use table table_used) away in
          elim (Option-cases (child m.word table i')) [
            | inl no_page ↦ ground (arith, same, no_page)
            | inr (p₁, at) ↦
                let r₁ = t.mids i' p₁ at in
                elim (same_slot p₁ j') [
                  | inl (ep, el) ↦
                      let now = ap₂ (child grown.word) ep el ∙ child-at in
                      let before = ap₂ (child m.word) ep el ∙ unset in
                      ground (arith, same, at, now, before, word-new k')
                  | inr away₁ ↦
                      let same₁ = child-other p₁ j' (in_use p₁ (mid-ne-free p₁ i' r₁)) away₁ in
                      elim (Option-cases (child m.word p₁ j')) [
                        | inl no_page ↦ ground (arith, same, at, same₁, no_page)
                        | inr (p₀, at₀) ↦
                            let r₀ = t.leaves p₁ i' j' p₀ r₁ at₀ in
                            let word =
                              word-grown p₀ k' (in_use p₀ (λ f. cc (r₀, f)))
                                (inl (ne-leaf fits p₀ i' j' r₀)) in
                            ground (arith, same, at, same₁, at₀, word)
                      ]
                ]
          ]
    ]
