-- ===== src/Kernel/Log/Header.antt =====
-- The header block: what `write_head` stores, `read_head` reads back.
use mits081_lab.Base.{
  ℕ, zero, suc, ◌+◌, ◌≤◌, ◌<◌, ◌≡◌, refl, ◌∙◌, List, arith, dec_lt, length, get_or, set, length-set,
  get_or-set_self, get_or-set_ne,
}
use mits081_lab.Kernel.Disk.{Block, Store}
use mits081_lab.Kernel.Log.{LogHeader, Log, slot, load_slots, store_slots, read_head, head_block}

-- Word `j` is kept, or it is one of the slots that the loop has stored.
store_slots_kept :
    (k i : ℕ) (arr : List ℕ) (b : Block) (j : ℕ)
    → j ≤ i
    → get_or (store_slots k i arr b) j 0 ≡ get_or b j 0
unfolding store_slots
store_slots_kept zero i arr b j h = refl
store_slots_kept (suc k) i arr b j h =
    store_slots_kept k (i + 1) arr (set b (i + 1) (get_or arr i 0)) j (omega arith)
    ∙ get_or-set_ne b (i + 1) j (get_or arr i 0) 0 (omega arith)

store_slots_stored :
    (k i : ℕ) (arr : List ℕ) (b : Block) (j : ℕ)
    → i ≤ j
    → j < i + k
    → i + k < length b
    → get_or (store_slots k i arr b) (j + 1) 0 ≡ get_or arr j 0
unfolding store_slots
store_slots_stored zero i arr b j lo hi fits = absurd (omega arith)
store_slots_stored (suc k) i arr b j lo hi fits = elim (dec_lt i j) [
  | yes past ↦
      store_slots_stored k (i + 1) arr (set b (i + 1) (get_or arr i 0)) j (omega arith)
        (omega arith) (omega (arith, length-set b (i + 1) (get_or arr i 0)))
  | no now ↦
      let e : j ≡ i = omega arith in
      rw e (
        store_slots_kept k (i + 1) arr (set b (i + 1) (get_or arr i 0)) (i + 1) (omega arith)
        ∙ get_or-set_self b (i + 1) (get_or arr i 0) 0 (omega arith))
]

length-store_slots :
    (k i : ℕ) (arr : List ℕ) (b : Block) → length (store_slots k i arr b) ≡ length b
unfolding store_slots
length-store_slots zero i arr b = refl
length-store_slots (suc k) i arr b =
    length-store_slots k (i + 1) arr (set b (i + 1) (get_or arr i 0))
    ∙ length-set b (i + 1) (get_or arr i 0)

load_slots_kept :
    (k i : ℕ) (b : Block) (arr : List ℕ) (j : ℕ)
    → j < i
    → get_or (load_slots k i b arr) j 0 ≡ get_or arr j 0
unfolding load_slots
load_slots_kept zero i b arr j h = refl
load_slots_kept (suc k) i b arr j h =
    load_slots_kept k (i + 1) b (set arr i (get_or b (i + 1) 0)) j (omega arith)
    ∙ get_or-set_ne arr i j (get_or b (i + 1) 0) 0 (omega arith)

pub load_slots_loaded :
    (k i : ℕ) (b : Block) (arr : List ℕ) (j : ℕ)
    → i ≤ j
    → j < i + k
    → i + k ≤ length arr
    → get_or (load_slots k i b arr) j 0 ≡ get_or b (j + 1) 0
unfolding load_slots
load_slots_loaded zero i b arr j lo hi fits = absurd (omega arith)
load_slots_loaded (suc k) i b arr j lo hi fits = elim (dec_lt i j) [
  | yes past ↦
      load_slots_loaded k (i + 1) b (set arr i (get_or b (i + 1) 0)) j (omega arith) (omega arith)
        (omega (arith, length-set arr i (get_or b (i + 1) 0)))
  | no now ↦
      let e : j ≡ i = omega arith in
      rw e (
        load_slots_kept k (i + 1) b (set arr i (get_or b (i + 1) 0)) i (omega arith)
        ∙ get_or-set_self arr i (get_or b (i + 1) 0) 0 (omega arith))
]

module _ (lh : LogHeader) (b : Block) (room : lh.n + 1 < length b) where
  pub head_block-n : get_or (head_block lh b) 0 0 ≡ lh.n
  unfolding head_block
  head_block-n =
      store_slots_kept lh.n 0 lh.block (set b 0 lh.n) 0 (omega arith)
      ∙ get_or-set_self b 0 lh.n 0 (omega arith)

  pub head_block-slot : (j : ℕ) → j < lh.n → get_or (head_block lh b) (j + 1) 0 ≡ slot lh j
  unfolding head_block
  head_block-slot j h =
      store_slots_stored lh.n 0 lh.block (set b 0 lh.n) j (omega arith) (omega arith)
        (omega (arith, length-set b 0 lh.n))

  -- A header block written by `write_head`, whatever the block held, is read back by `read_head` with
  -- its count and its slots, if the count fits the block and the array in memory.
  pub read_head-head_block :
      (s : Store) (l : Log)
      → s.buf l.start ≡ head_block lh b
      → lh.n ≤ length l.lh.block
      → ((read_head s l).lh.n ≡ lh.n) × ((j : ℕ) → j < lh.n → slot (read_head s l).lh j ≡ slot lh j)
  unfolding read_head
  read_head-head_block s l e fits =
      let count : get_or (s.buf l.start) 0 0 ≡ lh.n = rw e head_block-n in
      rw count (
        refl,
        λ j h.
            load_slots_loaded lh.n 0 (s.buf l.start) l.lh.block j (omega arith) (omega arith)
              (omega arith)
            ∙ rw e (head_block-slot j h),
      )

pub length-head_block : (lh : LogHeader) (b : Block) → length (head_block lh b) ≡ length b
unfolding head_block
length-head_block lh b = length-store_slots lh.n 0 lh.block (set b 0 lh.n) ∙ length-set b 0 lh.n
