-- ===== src/Kernel/Fs/Inode/Dinode.antt =====
-- An inode in the bytes of its block.
use mits081_lab.Base.{
  ℕ, zero, suc, ◌+◌, ◌-◌, ◌*◌, ◌^◌, ◌≤◌, ◌<◌, ◌≡◌, inl, inr, refl, sym, ◌∙◌, ℕ_discrete, arith,
}
use mits081_lab.Kernel.Fs.Blocks.{Contents}
use mits081_lab.Kernel.Fs.Words.{
  get16, get32, put16, put32, Apart, put16_byte, put32_byte, get16-put16, get16_other, get16-put32,
  get32-put32, get32_other,
}
use mits081_lab.Kernel.Fs.Inode.{Inode, put_addrs, put_dinode, get_dinode}

put_addrs_byte :
    (k i o : ℕ) (addrs : ℕ → ℕ) (x : Contents) → Apart i 1 o (4 * k) → put_addrs k addrs o x i ≡ x i
unfolding put_addrs
put_addrs_byte zero i o addrs x h = refl
put_addrs_byte (suc k) i o addrs x (inl h) =
    put32_byte i (o + 4 * k) (addrs k) (put_addrs k addrs o x) (inl (omega (arith, h)))
    ∙ put_addrs_byte k i o addrs x (inl (omega (arith, h)))
put_addrs_byte (suc k) i o addrs x (inr h) =
    put32_byte i (o + 4 * k) (addrs k) (put_addrs k addrs o x) (inr (omega (arith, h)))
    ∙ put_addrs_byte k i o addrs x (inr (omega (arith, h)))

get16-put_addrs :
    (k p o : ℕ) (addrs : ℕ → ℕ) (x : Contents)
    → p + 2 ≤ o
    → get16 p (put_addrs k addrs o x) ≡ get16 p x
unfolding put_addrs
get16-put_addrs zero p o addrs x h = refl
get16-put_addrs (suc k) p o addrs x h =
    get16-put32 p (o + 4 * k) (addrs k) (put_addrs k addrs o x) (inl (omega (arith, h)))
    ∙ get16-put_addrs k p o addrs x h

get32-put_addrs :
    (k p o : ℕ) (addrs : ℕ → ℕ) (x : Contents)
    → p + 4 ≤ o
    → get32 p (put_addrs k addrs o x) ≡ get32 p x
unfolding put_addrs
get32-put_addrs zero p o addrs x h = refl
get32-put_addrs (suc k) p o addrs x h =
    get32_other p (o + 4 * k) (addrs k) (put_addrs k addrs o x) (inl (omega (arith, h)))
    ∙ get32-put_addrs k p o addrs x h

get_addr :
    (n k o : ℕ) (addrs : ℕ → ℕ) (x : Contents)
    → k < n
    → addrs k < 2 ^ 32
    → get32 (o + 4 * k) (put_addrs n addrs o x) ≡ addrs k
unfolding put_addrs
get_addr zero k o addrs x lt small = absurd (omega (arith, lt))
get_addr (suc n) k o addrs x lt small = elim (ℕ_discrete k n) [
  | yes e ↦
      let top : addrs n < 2 ^ 32 = rw (sym e) small in
      rw (e) (get32-put32 (o + 4 * n) (addrs n) (put_addrs n addrs o x) top)
  | no ne ↦
      get32_other (o + 4 * k) (o + 4 * n) (addrs n) (put_addrs n addrs o x)
        (inl (omega (arith, lt, ne)))
      ∙ get_addr n k o addrs x (omega (arith, lt, ne)) small
]

-- What an inode keeps on the disk, in range.
unfoldable pub Fits : Inode → Type 0
Fits ip =
    (ip.type < 2 ^ 16)
    × (ip.major < 2 ^ 16)
    × (ip.minor < 2 ^ 16)
    × (ip.nlink < 2 ^ 16)
    × (ip.size < 2 ^ 32)
    × ((k : ℕ) → k < 13 → ip.addrs k < 2 ^ 32)

-- The same inode, with the same addresses.
unfoldable pub Same : Inode → Inode → Type 0
Same ip jp =
    (ip.inum ≡ jp.inum)
    × (ip.type ≡ jp.type)
    × (ip.major ≡ jp.major)
    × (ip.minor ≡ jp.minor)
    × (ip.nlink ≡ jp.nlink)
    × (ip.size ≡ jp.size)
    × ((k : ℕ) → k < 13 → ip.addrs k ≡ jp.addrs k)

pub get_put_dinode :
    (ip : Inode) (o : ℕ) (x : Contents)
    → Fits ip
    → Same (get_dinode ip.inum o (put_dinode ip o x)) ip
unfolding Same get_dinode put_dinode Fits
get_put_dinode ip o x (type_fits, major_fits, minor_fits, nlink_fits, size_fits, addrs_fit) =
    let s3 = put16 (o + 4) ip.minor (put16 (o + 2) ip.major (put16 o ip.type x)) in
    let s4 = put16 (o + 6) ip.nlink s3 in
    let s5 = put32 (o + 8) ip.size s4 in
    let through16 : (p : ℕ)
        → p + 2 ≤ o + 8
        → get16 p (put_addrs 13 ip.addrs (o + 12) s5) ≡ get16 p s4 =
      λ p h.
        get16-put_addrs 13 p (o + 12) ip.addrs s5 (omega (arith, h))
        ∙ get16-put32 p (o + 8) ip.size s4 (inl (omega (arith, h))) in
    (
      refl,
      through16 o (omega arith)
          ∙ (get16_other o (o + 6) ip.nlink s3 (inl (omega arith))
              ∙ (get16_other o (o + 4) ip.minor _ (inl (omega arith))
                  ∙ (get16_other o (o + 2) ip.major _ (inl (omega arith))
                      ∙ get16-put16 o ip.type x type_fits))),
      through16 (o + 2) (omega arith)
          ∙ (get16_other (o + 2) (o + 6) ip.nlink s3 (inl (omega arith))
              ∙ (get16_other (o + 2) (o + 4) ip.minor _ (inl (omega arith))
                  ∙ get16-put16 (o + 2) ip.major _ major_fits)),
      through16 (o + 4) (omega arith)
          ∙ (get16_other (o + 4) (o + 6) ip.nlink s3 (inl (omega arith))
              ∙ get16-put16 (o + 4) ip.minor _ minor_fits),
      through16 (o + 6) (omega arith) ∙ get16-put16 (o + 6) ip.nlink s3 nlink_fits,
      get32-put_addrs 13 (o + 8) (o + 12) ip.addrs s5 (omega arith)
          ∙ get32-put32 (o + 8) ip.size s4 size_fits,
      λ k lt. get_addr 13 k (o + 12) ip.addrs s5 lt (addrs_fit k lt),
    )

pub put_dinode_byte :
    (ip : Inode) (i o : ℕ) (x : Contents) → Apart i 1 o 64 → put_dinode ip o x i ≡ x i
unfolding put_dinode
put_dinode_byte ip i o x (inl h) =
    put_addrs_byte 13 i (o + 12) ip.addrs _ (inl (omega (arith, h)))
    ∙ (put32_byte i (o + 8) ip.size _ (inl (omega (arith, h)))
        ∙ (put16_byte i (o + 6) ip.nlink _ (inl (omega (arith, h)))
            ∙ (put16_byte i (o + 4) ip.minor _ (inl (omega (arith, h)))
                ∙ (put16_byte i (o + 2) ip.major _ (inl (omega (arith, h)))
                    ∙ put16_byte i o ip.type x (inl (omega (arith, h)))))))
put_dinode_byte ip i o x (inr h) =
    put_addrs_byte 13 i (o + 12) ip.addrs _ (inr (omega (arith, h)))
    ∙ (put32_byte i (o + 8) ip.size _ (inr (omega (arith, h)))
        ∙ (put16_byte i (o + 6) ip.nlink _ (inr (omega (arith, h)))
            ∙ (put16_byte i (o + 4) ip.minor _ (inr (omega (arith, h)))
                ∙ (put16_byte i (o + 2) ip.major _ (inr (omega (arith, h)))
                    ∙ put16_byte i o ip.type x (inr (omega (arith, h)))))))

-- A dinode is read from its 64 bytes.
pub get_dinode_agree :
    (i o : ℕ) (x y : Contents)
    → ((d : ℕ) → d < 64 → x (o + d) ≡ y (o + d))
    → Same (get_dinode i o x) (get_dinode i o y)
unfolding Same get_dinode get16 get32
get_dinode_agree i o x y h =
    let at : (p : ℕ) → o ≤ p → p < o + 64 → x p ≡ y p = λ p lo hi.
      let e : p ≡ o + (p - o) = omega (arith, lo) in rw (e) (h (p - o) (omega (arith, lo, hi))) in
    let half : (p : ℕ) → o ≤ p → p + 1 < o + 64 → x p + 256 * x (p + 1) ≡ y p + 256 * y (p + 1) =
      λ p lo hi. rw (at p lo (omega (arith, hi)), at (p + 1) (omega (arith, lo)) hi) refl in
    let full : (p : ℕ)
        → o ≤ p
        → p + 3 < o + 64
        → x p + 256 * x (p + 1) + 65536 * (x (p + 2) + 256 * x (p + 2 + 1))
          ≡ y p + 256 * y (p + 1) + 65536 * (y (p + 2) + 256 * y (p + 2 + 1)) =
      λ p lo hi.
        rw (half p lo (omega (arith, hi)), half (p + 2) (omega (arith, lo)) (omega (arith, hi)))
          refl in
    (
      refl,
      half o (omega arith) (omega arith),
      half (o + 2) (omega arith) (omega arith),
      half (o + 4) (omega arith) (omega arith),
      half (o + 6) (omega arith) (omega arith),
      full (o + 8) (omega arith) (omega arith),
      λ k lt. full (o + 12 + 4 * k) (omega arith) (omega (arith, lt)),
    )
