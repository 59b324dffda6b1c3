-- ===== src/Kernel/Bio/View.antt =====
-- What the buffer cache holds for each block: the cached copy, or the disk's block.
use mits081_lab.Base.{
  ℕ, ◌≡◌, ◌≢◌, ◌↔◌, inl, inr, refl, ◌∙◌, sym, ap, true, false, Bool-cases, Option, Option-cases,
  none, some, List, [], ◌∷◌, ◌==◌, ==_iff, ==_false, if◌then◌else◌, arith, ℕ_discrete,
}
use mits081_lab.Kernel.Disk.{Block, Disk}
use mits081_lab.Kernel.Bio.{Buf, is_for, change, is_cached, recycled, recycle}

abbrev pub content : Disk → ℕ → Buf → Block
content d blockno b = if b.valid then b.contents else d blockno

unfoldable pub view : ℕ → Disk → List Buf → ℕ → Block
view dev d [] blockno = d blockno
view dev d (b ∷ bs) blockno =
    let rest = view dev d bs blockno in if is_for dev blockno b then content d blockno b else rest

-- A block of the device has one buffer at most.
unfoldable pub Distinct : ℕ → List Buf → Type 0
Distinct dev [] = Unit
Distinct dev (b ∷ bs) = (b.dev ≡ dev → is_cached dev b.blockno bs ≡ false) × Distinct dev bs

-- A buffer that nobody refers to holds what the disk does.
unfoldable pub IsClean : ℕ → Disk → Buf → Type 0
IsClean dev d b = b.dev ≡ dev → b.refcnt ≡ 0 → b.valid ≡ true → b.contents ≡ d b.blockno

unfoldable pub Clean : ℕ → Disk → List Buf → Type 0
Clean dev d [] = Unit
Clean dev d (b ∷ bs) = IsClean dev d b × Clean dev d bs

pub is_for_iff : (dev n : ℕ) (b : Buf) → (is_for dev n b ≡ true) ↔ ((b.dev ≡ dev) × (b.blockno ≡ n))
unfolding is_for
is_for_iff dev n b = ground arith

pub view_uncached :
    (dev : ℕ) (d : Disk) (bs : List Buf) (n : ℕ)
    → is_cached dev n bs ≡ false
    → view dev d bs n ≡ d n
unfolding view is_cached
view_uncached dev d [] n e = refl
view_uncached dev d (b ∷ bs) n e = ground (arith, e, view_uncached dev d bs n)

-- A change that keeps each buffer's block and contents.
pub record Keeps (d : Disk) (f : Buf → Buf) : Type 0 where
  pub dev : (b : Buf) → (f b).dev ≡ b.dev
  pub blockno : (b : Buf) → (f b).blockno ≡ b.blockno
  pub content : (b : Buf) → content d b.blockno (f b) ≡ content d b.blockno b

module _ (dev n : ℕ) (d : Disk) (f : Buf → Buf) (k : Keeps d f) where
  pub is_for-kept : (m : ℕ) (b : Buf) → is_for dev m (f b) ≡ is_for dev m b
  unfolding is_for
  is_for-kept m b = rw (k.dev b, k.blockno b) refl

  same_content : (b : Buf) (m : ℕ) → b.blockno ≡ m → content d m (f b) ≡ content d m b
  same_content b m e = rw (sym e) (k.content b)

  pub view-change : (bs : List Buf) (m : ℕ) → view dev d (change dev n f bs) m ≡ view dev d bs m
  unfolding view change
  view-change [] m = refl
  view-change (b ∷ bs) m = elim (Bool-cases (is_for dev n b)) [
    | inl e ↦ rw e (elim (Bool-cases (is_for dev m b)) [
      | inl g ↦ rw (is_for-kept m b, g) (same_content b m ((is_for_iff dev m b).0 g).1)
      | inr g ↦ rw (is_for-kept m b, g) refl
    ])
    | inr e ↦ rw (e, view-change bs m) refl
  ]

  pub is_cached-change :
      (bs : List Buf) (m : ℕ) → is_cached dev m (change dev n f bs) ≡ is_cached dev m bs
  unfolding is_cached change
  is_cached-change [] m = refl
  is_cached-change (b ∷ bs) m = elim (Bool-cases (is_for dev n b)) [
    | inl e ↦ rw (e, is_for-kept m b) refl
    | inr e ↦ rw (e, is_cached-change bs m) refl
  ]

  pub Distinct-change : (bs : List Buf) → Distinct dev bs → Distinct dev (change dev n f bs)
  unfolding Distinct change
  Distinct-change [] h = tt
  Distinct-change (b ∷ bs) (first, rest) = elim (Bool-cases (is_for dev n b)) [
    | inl e ↦ rw e (λ same. rw (k.blockno b) (first (sym (k.dev b) ∙ same)), rest)
    | inr e ↦ rw e (λ same. is_cached-change bs b.blockno ∙ first same, Distinct-change bs rest)
  ]

  pub Clean-change :
      ((b : Buf) → IsClean dev d b → IsClean dev d (f b))
      → (bs : List Buf) → Clean dev d bs
      → Clean dev d (change dev n f bs)
  unfolding Clean change
  Clean-change h [] c = tt
  Clean-change h (b ∷ bs) (first, rest) = elim (Bool-cases (is_for dev n b)) [
    | inl e ↦ rw e (h b first, rest)
    | inr e ↦ rw e (first, Clean-change h bs rest)
  ]

some-same : {A : Type 0} {a b : A} → some a ≡ some b → a ≡ b
some-same {A = A} {a = a} e = ap value e
  where
    value : Option A → A
    value none = a
    value (some x) = x

none-some : {A : Type 0} {b : A} → ◌≡◌ {A = Option A} none (some b) → ⊥
none-some e = grind (arith, e)

pub uncached_cons :
    (dev m : ℕ) (b : Buf) (bs : List Buf)
    → is_cached dev m (b ∷ bs) ≡ false
    → (is_for dev m b ≡ false) × (is_cached dev m bs ≡ false)
unfolding is_cached
uncached_cons dev m b bs e = ground (arith, e)

-- Recycling a buffer for a block that is not cached.
module _ (dev n : ℕ) where
  is_for-recycled : (m : ℕ) (b : Buf) → is_for dev m (recycled dev n b) ≡ (n == m)
  unfolding is_for
  is_for-recycled m b = rw ((==_iff dev dev).1 refl) refl

  -- A buffer is recycled by taking a further one of the list, or the first.
  pub data Recycled : List Buf → List Buf → Type 0 where
    first : {b : Buf} {bs : List Buf} → b.refcnt ≡ 0 → Recycled (b ∷ bs) (recycled dev n b ∷ bs)
    further : {b : Buf} {bs bs' : List Buf} → Recycled bs bs' → Recycled (b ∷ bs) (b ∷ bs')

  pub recycle-Recycled :
      (bs : List Buf) {bs' : List Buf} → recycle dev n bs ≡ some bs' → Recycled bs bs'
  unfolding recycle
  recycle-Recycled [] e = grind (arith, e)
  recycle-Recycled (b ∷ bs) {bs' = out} e = elim (Option-cases (recycle dev n bs)) [
    | inl none_further ↦ elim (Bool-cases (b.refcnt == 0)) [
      | inl free ↦
          let same : recycled dev n b ∷ bs ≡ out = some-same (rw (none_further, free) at e) in
          rw (sym same) (first ((==_iff _ _).0 free))
      | inr kept ↦ absurd (none-some (rw (none_further, kept) at e))
    ]
    | inr (bs', found) ↦
        let same : b ∷ bs' ≡ out = some-same (rw found at e) in
        rw (sym same) (further (recycle-Recycled bs found))
  ]

  -- Which blocks are cached afterwards.
  is_cached-Recycled :
      {bs bs' : List Buf}
      → Recycled bs bs'
      → (m : ℕ) → n ≢ m
      → is_cached dev m bs ≡ false
      → is_cached dev m bs' ≡ false
  unfolding is_cached
  is_cached-Recycled (first {b = b} {bs = bs} free) m ne e =
      rw (is_for-recycled m b, ==_false n m ne) (uncached_cons dev m b bs e).1
  is_cached-Recycled (further {b = b} h) m ne e = ground (arith, e, is_cached-Recycled h m ne)

  content-clean :
      (d : Disk) (m : ℕ) (b : Buf)
      → b.blockno ≡ m
      → (b.valid ≡ true → b.contents ≡ d b.blockno)
      → content d m b ≡ d m
  content-clean d m b number clean = elim (Bool-cases b.valid) [
    | inl v ↦ rw v (clean v ∙ ap d number)
    | inr v ↦ rw v refl
  ]

  pub view-Recycled :
      {bs bs' : List Buf} (d : Disk)
      → Recycled bs bs'
      → is_cached dev n bs ≡ false
      → Distinct dev bs
      → Clean dev d bs
      → (m : ℕ) → view dev d bs' m ≡ view dev d bs m
  unfolding view Distinct Clean IsClean is_cached
  view-Recycled d (first {b = b} {bs = bs} free) e (alone, _) (clean, _) m = elim (ℕ_discrete n m) [
    | yes same ↦
        rw (is_for-recycled m b, (==_iff n m).1 same, sym same, (uncached_cons dev n b bs e).0)
          (sym (view_uncached dev d bs n (uncached_cons dev n b bs e).1))
    | no ne ↦ elim (Bool-cases (is_for dev m b)) [
      | inl g ↦
          let (of_dev, number) = (is_for_iff dev m b).0 g in
          rw (is_for-recycled m b, ==_false n m ne, g)
            (view_uncached dev d bs m (rw number at (alone of_dev))
              ∙ sym (content-clean d m b number (clean of_dev free)))
      | inr g ↦ rw (is_for-recycled m b, ==_false n m ne, g) refl
    ]
  ]
  view-Recycled d (further {b = b} {bs = bs} h) e (_, distinct) (_, clean) m =
      rw (view-Recycled d h (uncached_cons dev n b bs e).1 distinct clean m) refl

  pub Distinct-Recycled :
      {bs bs' : List Buf}
      → Recycled bs bs'
      → is_cached dev n bs ≡ false
      → Distinct dev bs
      → Distinct dev bs'
  unfolding Distinct is_cached
  Distinct-Recycled (first {b = b} {bs = bs} free) e (alone, rest) =
      (λ _. (uncached_cons dev n b bs e).1, rest)
  Distinct-Recycled (further {b = b} {bs = bs} h) e (alone, rest) = (
    λ same. is_cached-Recycled h b.blockno (apart same) (alone same),
    Distinct-Recycled h (uncached_cons dev n b bs e).1 rest,
  )
    where
      apart : b.dev ≡ dev → n ≢ b.blockno
      apart same number =
          grind (arith, (is_for_iff dev n b).1 (same, sym number), (uncached_cons dev n b bs e).0)

  pub Clean-Recycled :
      {bs bs' : List Buf} (d : Disk) → Recycled bs bs' → Clean dev d bs → Clean dev d bs'
  unfolding Clean IsClean
  Clean-Recycled d (first free) (_, rest) =
      (λ _ none_refers. absurd (omega (arith, none_refers)), rest)
  Clean-Recycled d (further h) (clean, rest) = (clean, Clean-Recycled d h rest)
