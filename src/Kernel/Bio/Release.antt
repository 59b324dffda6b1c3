-- ===== src/Kernel/Bio/Release.antt =====
-- brelse: a buffer that nobody refers to any more goes to the head of the list.
use mits081_lab.Base.{
  ℕ, ◌≤◌, ◌≡◌, ◌⊎◌, inl, inr, refl, ◌∙◌, sym, Bool, true, false, Bool-cases, Option, none, some,
  List, [], ◌∷◌, ◌==◌, if◌then◌else◌, arith,
}
use mits081_lab.Kernel.Disk.{Disk}
use mits081_lab.Kernel.Bio.{Buf, Bcache, is_for, change, is_cached, unref, detach, to_front, brelse}
use mits081_lab.Kernel.Bio.View.{
  content, view, Distinct, Clean, IsClean, is_for_iff, Keeps, view-change, Distinct-change,
  uncached_cons,
}
use mits081_lab.Kernel.Bio.Reads.{Consistent, Same}

unref-Keeps : (d : Disk) → Keeps d unref
unref-Keeps d = record { dev = λ b. refl; blockno = λ b. refl; content = λ b. refl }

-- how many refer to the buffer of a block
unfoldable pub references : ℕ → ℕ → List Buf → ℕ
references dev n [] = 0
references dev n (b ∷ bs) =
    let rest = references dev n bs in if is_for dev n b then b.refcnt else rest

-- The block is as on the disk, or it is pinned.
unfoldable pub Settled : ℕ → ℕ → Disk → List Buf → Type 0
Settled dev n d bs = (view dev d bs n ≡ d n) ⊎ (2 ≤ references dev n bs)

unref-IsClean :
    (dev n : ℕ) (d : Disk) (b : Buf)
    → b.blockno ≡ n
    → (content d n b ≡ d n) ⊎ (2 ≤ b.refcnt)
    → IsClean dev d (unref b)
unfolding IsClean
unref-IsClean dev n d b number (inl same) of_dev none_refers valid =
    rw number (sym (rw valid refl) ∙ same)
unref-IsClean dev n d b number (inr pinned) of_dev none_refers valid =
    absurd (omega (arith, pinned, none_refers))

Clean-unref :
    (dev n : ℕ) (d : Disk) (bs : List Buf)
    → Settled dev n d bs
    → Clean dev d bs
    → Clean dev d (change dev n unref bs)
unfolding Settled Clean change view references
Clean-unref dev n d [] h c = tt
Clean-unref dev n d (b ∷ bs) h (clean, rest) = elim (Bool-cases (is_for dev n b)) [
  | inl g ↦ rw g (unref-IsClean dev n d b ((is_for_iff dev n b).0 g).1 (rw g at h), rest)
  | inr g ↦ rw g (clean, Clean-unref dev n d bs (rw g at h) rest)
]

-- The list without the buffer of the block.
data Detached (dev n : ℕ) : List Buf → Buf → List Buf → Type 0 where
  at_head : {b : Buf} {bs : List Buf} → is_for dev n b ≡ true → Detached dev n (b ∷ bs) b bs
  behind :
      {b x : Buf} {bs rest : List Buf}
      → is_for dev n x ≡ false
      → Detached dev n bs b rest
      → Detached dev n (x ∷ bs) b (x ∷ rest)

data Unlinked (dev n : ℕ) (bs : List Buf) : Option Buf × List Buf → Type 0 where
  stays : Unlinked dev n bs (none, bs)
  leaves : {b : Buf} {rest : List Buf} → Detached dev n bs b rest → Unlinked dev n bs (some b, rest)

Unlinked-cons :
    {dev n : ℕ} {x : Buf} {bs : List Buf} {r : Option Buf × List Buf}
    → is_for dev n x ≡ false
    → Unlinked dev n bs r
    → Unlinked dev n (x ∷ bs) (r.0, x ∷ r.1)
Unlinked-cons g stays = stays
Unlinked-cons g (leaves h) = leaves (behind g h)

detach-Unlinked : (dev n : ℕ) (bs : List Buf) → Unlinked dev n bs (detach dev n bs)
unfolding detach
detach-Unlinked dev n [] = stays
detach-Unlinked dev n (b ∷ bs) = elim (Bool-cases (is_for dev n b)) [
  | inl g ↦ elim (Bool-cases (b.refcnt == 0)) [
    | inl free ↦ rw (g, free) (leaves (at_head g))
    | inr kept ↦ rw (g, kept) stays
  ]
  | inr g ↦ rw g (Unlinked-cons g (detach-Unlinked dev n bs))
]

-- A buffer of another block is not for what this one is for.
other_block :
    (dev n m : ℕ) (b x : Buf)
    → is_for dev n b ≡ true
    → is_for dev n x ≡ false
    → is_for dev m x ≡ true
    → is_for dev m b ≡ false
other_block dev n m b x mine other gx = elim (Bool-cases (is_for dev m b)) [
  | inl both ↦
      let same : m ≡ n = sym ((is_for_iff dev m b).0 both).1 ∙ ((is_for_iff dev n b).0 mine).1 in
      absurd (clash other (rw same at gx))
  | inr e ↦ e
]
  where
    clash : {c : Bool} → c ≡ false → c ≡ true → ⊥
    clash f t = grind (arith, f, t)

module _ {dev n : ℕ} where
  Detached-is_for :
      {bs rest : List Buf} {b : Buf} → Detached dev n bs b rest → is_for dev n b ≡ true
  Detached-is_for (at_head g) = g
  Detached-is_for (behind g h) = Detached-is_for h

  view-Detached :
      {bs rest : List Buf} {b : Buf} (d : Disk)
      → Detached dev n bs b rest
      → (m : ℕ) → view dev d (b ∷ rest) m ≡ view dev d bs m
  unfolding view
  view-Detached d (at_head g) m = refl
  view-Detached d (behind {b = b} {x = x} {bs = bs} {rest = rest} g h) m =
      sym (swap (view-Detached d h m))
    where
      swap :
          view dev d (b ∷ rest) m ≡ view dev d bs m
          → view dev d (x ∷ bs) m ≡ view dev d (b ∷ (x ∷ rest)) m
      swap e = elim (Bool-cases (is_for dev m x)) [
        | inl gx ↦ rw (gx, other_block dev n m b x (Detached-is_for h) g gx) refl
        | inr gx ↦ rw gx (sym e)
      ]

  is_cached-Detached :
      {bs rest : List Buf} {b : Buf}
      → Detached dev n bs b rest
      → (m : ℕ) → is_cached dev m bs ≡ false
      → is_cached dev m rest ≡ false
  unfolding is_cached
  is_cached-Detached (at_head {b = b} {bs = bs} g) m e = (uncached_cons dev m b bs e).1
  is_cached-Detached (behind {x = x} {bs = bs} g h) m e =
      let (here, there) = uncached_cons dev m x bs e in rw here (is_cached-Detached h m there)

  Distinct-Detached :
      {bs rest : List Buf} {b : Buf}
      → Detached dev n bs b rest
      → Distinct dev bs
      → Distinct dev (b ∷ rest)
  unfolding Distinct is_cached
  Distinct-Detached (at_head g) h = h
  Distinct-Detached (behind {b = b} {x = x} g k) (alone, h) =
      let (first, rest) = Distinct-Detached k h in
      let number : b.blockno ≡ n = ((is_for_iff dev n b).0 (Detached-is_for k)).1 in
      let other : is_for dev b.blockno x ≡ false = rw number g in
      (λ same. rw other (first same), (λ same. is_cached-Detached k x.blockno (alone same), rest))

  Clean-Detached :
      {bs rest : List Buf} {b : Buf} (d : Disk)
      → Detached dev n bs b rest
      → Clean dev d bs
      → Clean dev d (b ∷ rest)
  unfolding Clean
  Clean-Detached d (at_head g) c = c
  Clean-Detached d (behind g h) (c, cs) =
      let (first, rest) = Clean-Detached d h cs in (first, (c, rest))

  to_front-Same :
      (s : Bcache) {r : Option Buf × List Buf}
      → Unlinked dev n s.bufs r
      → Consistent dev s
      → Same dev s (record s { bufs = to_front r })
  to_front-Same s stays c = record { view = λ m. refl; disk = refl; consistent = c }
  to_front-Same s (leaves h) c = record {
    view = view-Detached s.disk h;
    disk = refl;
    consistent = record {
      distinct = Distinct-Detached h c.distinct;
      clean = Clean-Detached s.disk h c.clean;
    };
  }

-- If the block is as on the disk, or its buffer is pinned, `brelse` changes neither what any block of the device is nor the
-- disk, and leaves the cache consistent.
pub brelse-Same :
    (dev n : ℕ) (s : Bcache)
    → Consistent dev s
    → Settled dev n s.disk s.bufs
    → Same dev s (brelse dev n s)
unfolding brelse
brelse-Same dev n s c h =
    let k = unref-Keeps s.disk in
    let dropped = change dev n unref s.bufs in
    let moved =
      to_front-Same (record s { bufs = dropped }) (detach-Unlinked dev n dropped)
        (record {
          distinct = Distinct-change dev n s.disk unref k s.bufs c.distinct;
          clean = Clean-unref dev n s.disk s.bufs h c.clean;
        }) in
    record {
      view = λ m. moved.view m ∙ view-change dev n s.disk unref k s.bufs m;
      disk = moved.disk;
      consistent = moved.consistent;
    }
