-- ===== src/Kernel/FileWrite/Source.antt =====
-- A source that the copies of filewrite can read: they then do what a copy from the kernel's memory does.
use mits081_lab.Base.{
  ℕ, zero, suc, ◌+◌, ◌-◌, ◌%◌, ◌/◌, ◌≤◌, ◌≡◌, refl, ap, fun_ext, Bool, lt→ltb, dec_lt, arith,
}
use mits081_lab.Kernel.Panic.{◌>>=◌}
use mits081_lab.Kernel.Fs.Blocks.{Contents, Superblock, bsize}
use mits081_lab.Kernel.Fs.Inode.{Locked, bmap}
use mits081_lab.Kernel.Fs.Inode.Slots.{ltb_off}
use mits081_lab.Kernel.Fs.Content.{
  chunk, store_data, log_data, copyin_kernel, writei_from, writei_end, writei,
}
use mits081_lab.Kernel.FileWrite.{chunk_of, filewrite_round, filewrite_from, filewrite_inode}

-- Every copy within the addresses from `lo` up to `hi` succeeds, and its bytes are `bytes`.
unfoldable pub Readable :
    {M : Type 0} → (Contents → ℕ → M → ℕ → ℕ → Contents × Bool) → M → Contents → ℕ → ℕ → Type 0
Readable either_copyin memory bytes lo hi =
    (x : Contents) (o src c : ℕ)
    → lo ≤ src
    → src + c ≤ hi
    → either_copyin x o memory src c ≡ copyin_kernel x o bytes src c

chunk-le : (left off : ℕ) → chunk left off ≤ left
chunk-le left off = omega arith

chunk_of-le : (left : ℕ) → chunk_of left ≤ left
chunk_of-le left = ground arith

module _ {M : Type 0} (either_copyin : Contents → ℕ → M → ℕ → ℕ → Contents × Bool) (memory : M)
    (bytes : Contents) (sb : Superblock) (lo hi : ℕ)
    (readable : Readable either_copyin memory bytes lo hi) where
  readable_at :
      (x : Contents) (o src c : ℕ)
      → lo ≤ src
      → src + c ≤ hi
      → either_copyin x o memory src c ≡ copyin_kernel x o bytes src c
  unfolding Readable
  readable_at = readable

  writei_from-same :
      (k src off tot n : ℕ) (l : Locked)
      → lo ≤ src
      → src + (n - tot) ≤ hi
      → writei_from either_copyin memory sb k src off tot n l
        ≡ writei_from copyin_kernel bytes sb k src off tot n l
  unfolding writei_from
  writei_from-same zero src off tot n l low high = refl
  writei_from-same (suc k) src off tot n l low high = elim (dec_lt tot n) [
    | no done ↦ rw (ltb_off tot n done) refl
    | yes lt ↦ rw (lt→ltb tot n lt) (
        ap (λ f. bmap sb (off / bsize) l >>= f)
          (fun_ext (λ (a, m).
            let c = chunk (n - tot) off in
            let le = chunk-le (n - tot) off in
            let copy = copyin_kernel (m.fs.blocks a) (off % bsize) bytes src c in
            rw
              (
                readable_at (m.fs.blocks a) (off % bsize) src c low (omega (arith, high, le)),
                writei_from-same k (src + c) (off + c) (tot + c) n
                    (log_data a (store_data a copy.0 m)) (omega (arith, low))
                    (omega (arith, high, le, lt)),
              )
              refl)))
  ]

  writei-same :
      (src off n : ℕ) (l : Locked)
      → lo ≤ src
      → src + n ≤ hi
      → writei either_copyin memory sb src off n l ≡ writei copyin_kernel bytes sb src off n l
  unfolding writei writei_end
  writei-same src off n l low high =
      rw (writei_from-same n src off 0 n l low (omega (arith, high))) refl

  filewrite_from-same :
      (k addr i off n : ℕ) (l : Locked)
      → lo ≤ addr
      → addr + n ≤ hi
      → filewrite_from either_copyin memory sb k addr i off n l
        ≡ filewrite_from copyin_kernel bytes sb k addr i off n l
  unfolding filewrite_from
  filewrite_from-same zero addr i off n l low high = refl
  filewrite_from-same (suc k) addr i off n l low high = elim (dec_lt i n) [
    | no done ↦ rw (ltb_off i n done) refl
    | yes lt ↦
        let rounds : (λ i' off' m. filewrite_from either_copyin memory sb k addr i' off' n m)
            ≡ (λ i' off' m. filewrite_from copyin_kernel bytes sb k addr i' off' n m) =
          fun_ext (λ i'.
            fun_ext (λ off'. fun_ext (λ m. filewrite_from-same k addr i' off' n m low high))) in
        rw
          (
            lt→ltb i n lt,
            writei-same (addr + i) off (chunk_of (n - i)) l (omega (arith, low))
                (omega (arith, chunk_of-le (n - i), lt, high)),
          )
          (ap
            (λ rest.
              writei copyin_kernel bytes sb (addr + i) off (chunk_of (n - i)) l
              >>= filewrite_round i off (chunk_of (n - i)) rest)
            rounds)
  ]

  pub filewrite_inode-same :
      (addr off n : ℕ) (l : Locked)
      → lo ≤ addr
      → addr + n ≤ hi
      → filewrite_inode either_copyin memory sb addr off n l
        ≡ filewrite_inode copyin_kernel bytes sb addr off n l
  unfolding filewrite_inode
  filewrite_inode-same addr off n l low high =
      rw (filewrite_from-same n addr 0 off n l low high) refl
