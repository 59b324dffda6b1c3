-- ===== src/Kernel/Log/Absorb.antt =====
-- log_write: a block is recorded once, however often a transaction changes it.
use mits081_lab.Base.{
  ℕ, zero, suc, ◌+◌, ◌-◌, ◌≤◌, ◌<◌, ◌≡◌, refl, ◌∙◌, sym, ap, ◌≢◌, ◌⊎◌, inl, inr, arith, set, length,
  length-set, get_or-set_self, get_or-set_ne, ◌==◌, Bool-cases, ==_iff, if◌then◌else◌, ℕ_discrete,
}
use mits081_lab.Kernel.Panic.{ok}
use mits081_lab.Kernel.Disk.{Block, Store, fill, bpin}
use mits081_lab.Kernel.Log.{Log, LogHeader, slot, find_slot, log_write, log_size}
use mits081_lab.Kernel.Log.States.{Outside}
use mits081_lab.Kernel.Log.Atomic.{IsReady}

-- The loop stops at the first slot that holds `b`, or at the end.
record Found (lh : LogHeader) (b i end r : ℕ) : Type 0 where
  from : i ≤ r
  upto : r ≤ end
  hit : r < end → slot lh r ≡ b
  missed : (j : ℕ) → i ≤ j → j < r → slot lh j ≢ b

find_slot-Found :
    (lh : LogHeader) (b k i end : ℕ) → i + k ≡ end → Found lh b i end (find_slot lh b k i)
unfolding find_slot
find_slot-Found lh b zero i end e = record {
  from = omega arith;
  upto = omega arith;
  hit = λ h. absurd (omega arith);
  missed = λ j lo hi. absurd (omega arith);
}
find_slot-Found lh b (suc k) i end e = elim (Bool-cases (slot lh i == b)) [
  | inl same ↦ rw same (record {
    from = omega arith;
    upto = omega arith;
    hit = λ h. (==_iff (slot lh i) b).0 same;
    missed = λ j lo hi. absurd (omega arith);
  })
  | inr other ↦
      let f = find_slot-Found lh b k (i + 1) end (omega arith) in
      rw other (record {
        from = omega (arith, f.from);
        upto = f.upto;
        hit = f.hit;
        missed = λ j lo hi. elim (ℕ_discrete j i) [
          | yes e ↦ ground (arith, e, other)
          | no ne ↦ f.missed j (omega arith) hi
        ];
      })
]

module _ (b : ℕ) (x : Block) (l : Log) (s : Store) (r : IsReady l s)
    (out : Outside l.start l.size b) where
  found : Found l.lh b 0 l.lh.n (find_slot l.lh b l.lh.n 0)
  found = find_slot-Found l.lh b l.lh.n 0 l.lh.n (omega arith)

  -- The header after a `log_write` that finds its slot at `i`, with `n` slots in use.
  abbrev with_block : ℕ → ℕ → LogHeader
  with_block i n = record { n = n; block = set l.lh.block i b }

  slot-with_block :
      (i n j : ℕ)
      → i < length l.lh.block
      → slot (with_block i n) j ≡ (if i == j then b else slot l.lh j)
  slot-with_block i n j h = elim (ℕ_discrete i j) [
    | yes e ↦ ground (arith, get_or-set_self l.lh.block i b 0 h, e)
    | no ne ↦ ground (arith, get_or-set_ne l.lh.block i j b 0 ne, ne)
  ]

  -- What a successful `log_write` leaves: a state ready to commit, in which `b` is logged with its new
  -- contents, the disk is as it was, and the log has grown by one block at most.
  pub record Absorbed (l' : Log) (s' : Store) : Type 0 where
    pub ready : IsReady l' s'
    pub logged : (i : ℕ) × (i < l'.lh.n) × (slot l'.lh i ≡ b)
    pub grown : (l'.lh.n ≡ l.lh.n) ⊎ (l'.lh.n ≡ l.lh.n + 1)
    pub contents : s'.buf b ≡ x
    pub disk : s'.disk ≡ s.disk

  abbrev i₀ : ℕ
  i₀ = find_slot l.lh b l.lh.n 0

  -- The block is in the log already.
  Absorbed-again :
      (i : ℕ)
      → i < l.lh.n
      → slot l.lh i ≡ b
      → Absorbed (record l { lh = with_block i l.lh.n }) (fill s b x)
  Absorbed-again i h e = record {
    ready = record {
      array = length-set l.lh.block i b ∙ r.array;
      count = r.count;
      room = r.room;
      header_size = ground (arith, out, r.header_size, r.room);
      header_empty = r.header_empty;
      outside = λ j hj. rw (same j) (r.outside j hj);
      distinct = λ j k hj hk q. r.distinct j k hj hk (sym (same j) ∙ q ∙ same k);
      clean = λ c away not_in. elim (ℕ_discrete b c) [
        | yes q ↦ absurd (not_in i h (same i ∙ e ∙ q))
        | no ne ↦ ground (arith, ne, r.clean c away (λ j hj q. not_in j hj (same j ∙ q)))
      ];
    };
    logged = (i, h, same i ∙ e);
    grown = inl refl;
    contents = ground arith;
    disk = refl;
  }
    where
      same : (j : ℕ) → slot (with_block i l.lh.n) j ≡ slot l.lh j
      same j = ground (arith, slot-with_block i l.lh.n j (omega (arith, r.array, r.count)), e)

  -- The block takes the next free slot.
  Absorbed-new :
      l.lh.n < log_size
      → l.lh.n < l.size - 1
      → ((j : ℕ) → j < l.lh.n → slot l.lh j ≢ b)
      → Absorbed (record l { lh = with_block l.lh.n (l.lh.n + 1) }) (bpin (fill s b x) b)
  unfolding bpin
  Absorbed-new small fits new = record {
    ready = record {
      array = length-set l.lh.block l.lh.n b ∙ r.array;
      count = omega arith;
      room = omega arith;
      header_size = ground (arith, out, r.header_size, r.room);
      header_empty = r.header_empty;
      outside = λ j hj. elim (ℕ_discrete j l.lh.n) [
        | yes e ↦ ground (arith, e, at_end, out)
        | no ne ↦ rw (at_old j (omega arith)) (r.outside j (omega arith))
      ];
      distinct = λ j k hj hk q. elim (ℕ_discrete j l.lh.n) [
        | yes e ↦ elim (ℕ_discrete k l.lh.n) [
          | yes e' ↦ e ∙ sym e'
          | no ne' ↦ absurd (
              new k (omega arith) (sym (at_old k (omega arith)) ∙ sym q ∙ ap (slot lh') e ∙ at_end))
        ]
        | no ne ↦ elim (ℕ_discrete k l.lh.n) [
          | yes e' ↦
              absurd
                (new j (omega arith) (sym (at_old j (omega arith)) ∙ q ∙ ap (slot lh') e' ∙ at_end))
          | no ne' ↦
              r.distinct j k (omega arith) (omega arith)
                (sym (at_old j (omega arith)) ∙ q ∙ at_old k (omega arith))
        ]
      ];
      clean = λ c away not_in. elim (ℕ_discrete b c) [
        | yes q ↦ absurd (not_in l.lh.n (omega arith) (at_end ∙ q))
        | no ne ↦
            ground (arith, ne, r.clean c away (λ j hj q. not_in j (omega arith) (at_old j hj ∙ q)))
      ];
    };
    logged = (l.lh.n, omega arith, at_end);
    grown = inr refl;
    contents = ground arith;
    disk = refl;
  }
    where
      lh' : LogHeader
      lh' = with_block l.lh.n (l.lh.n + 1)

      at_end : slot lh' l.lh.n ≡ b
      at_end = get_or-set_self l.lh.block l.lh.n b 0 (omega (arith, r.array))

      at_old : (j : ℕ) → j < l.lh.n → slot lh' j ≡ slot l.lh j
      at_old j h = get_or-set_ne l.lh.block l.lh.n j b 0 (omega arith)

  -- The log is ready to commit (IsReady), and block `b` is outside it. A system call that has changed `b` in the
  -- cache to `x` calls `log_write`. With room in the log
  -- and an operation outstanding the call returns, and what it leaves is ready to commit: the block is
  -- logged once, whether the transaction had changed it before or not.
  pub log_write-Absorbed :
      l.lh.n < log_size
      → l.lh.n < l.size - 1
      → 0 < l.outstanding
      → (l' : Log) × (s' : Store) × (log_write b l (fill s b x) ≡ ok (l', s')) × Absorbed l' s'
  unfolding log_write
  log_write-Absorbed small fits begun = elim (ℕ_discrete i₀ l.lh.n) [
    | yes e ↦ (
      _,
      _,
      ground (arith, e),
      Absorbed-new small fits (λ j hj. found.missed j (omega arith) (omega (arith, e))),
    )
    | no ne ↦ (
      _,
      _,
      ground (arith, ne),
      Absorbed-again i₀ (omega (arith, found.upto)) (found.hit (omega (arith, found.upto))),
    )
  ]
