-- ===== src/Rtx/MemBox/Laws.antt =====
-- What holds of a memory pool, from _init_box on and after every call.
use remotus_hardware.Base.{
  count, count_self, count-append, ℕ, ◌+◌, ◌≤◌, ◌<◌, ◌≡◌, subst, sym, ◌∙◌, List, [], ◌∷◌, ◌++◌, ltb,
  leb, arith, dec_lt, le→not_ltb, lt→not_leb, not_eq, true, ◌||◌,
}
use remotus_hardware.Rtx.MemBox.{Memory, poke, end_at, blk_size_at, alloc_box, free_box}
use remotus_hardware.Rtx.MemBox.Links.{IsFree, IsFree-poke, poke-same, poke-other}

-- A pool whose free blocks are `free` and whose blocks in use are `used`: the free ones are linked
-- from the head, no block is listed twice, all lie between the structure and the end, and no two
-- overlap.
pub record Holds (mem : Memory) (box_mem : ℕ) (free used : List ℕ) : Type 0 where
  pub chain : IsFree mem (mem box_mem) free
  pub once : (x : ℕ) → count x free + count x used ≤ 1
  pub inside :
      (x : ℕ) → 0 < count x free + count x used → (box_mem + 12 ≤ x) × (x < mem (end_at box_mem))
  pub apart :
      (x y : ℕ)
      → 0 < count x free + count x used
      → 0 < count y free + count y used
      → x < y
      → x + mem (blk_size_at box_mem) ≤ y

-- No address below the blocks is one of them.
outside :
    (mem : Memory) (box_mem : ℕ) (free used : List ℕ) (x : ℕ)
    → Holds mem box_mem free used
    → x < box_mem + 12
    → count x free + count x used ≡ 0
outside mem box_mem free used x h below = elim (dec_lt 0 (count x free + count x used)) [
  | yes k ↦ absurd (omega (arith, h.inside x k))
  | no k ↦ omega arith
]

module _ (mem : Memory) (box_mem : ℕ) (used : List ℕ) where
  -- A pool with a free block: rt_alloc_box gives the first one, which is not in use, and moves it to
  -- those in use.
  pub alloc_box_lem :
      (b : ℕ) (free : List ℕ)
      → Holds mem box_mem (b ∷ free) used
      → (mem' : Memory) × (alloc_box mem box_mem ≡ (b, mem'))
        × (count b used ≡ 0)
        × Holds mem' box_mem free (b ∷ used)
  unfolding alloc_box
  alloc_box_lem b free h =
      let (head, above, chain) = h.chain in
      let alone = h.once b in
      let out = outside mem box_mem (b ∷ free) used box_mem h (omega arith) in
      let own = count_self b free in
      let (low, high) = h.inside b (omega arith) in
      (
        poke mem box_mem (mem b),
        rw (head, not_eq b 0 (omega arith)),
        omega arith,
        record {
          chain =
              rw (poke-same mem box_mem (mem b))
                (IsFree-poke mem box_mem (mem b) (mem b) free (omega (arith, out)) chain);
          once = λ x. omega (arith, h.once x);
          inside = λ x k.
              rw (poke-other mem box_mem (mem b) (end_at box_mem) (omega arith))
                (h.inside x (omega arith));
          apart = λ x y k l lt.
              rw (poke-other mem box_mem (mem b) (blk_size_at box_mem) (omega arith))
                (h.apart x y (omega arith) (omega arith) lt);
        },
      )

  -- A pool without a free block: rt_alloc_box answers NULL and changes nothing.
  pub alloc_box_empty : Holds mem box_mem [] used → alloc_box mem box_mem ≡ (0, mem)
  unfolding alloc_box
  alloc_box_empty h = rw h.chain

-- A block in use: rt_free_box takes it back with result 0, and it is the next one to be given.
pub free_box_lem :
    (mem : Memory) (box_mem : ℕ) (free xs : List ℕ) (b : ℕ) (ys : List ℕ)
    → Holds mem box_mem free (xs ++ (b ∷ ys))
    → (mem' : Memory) × (free_box mem box_mem b ≡ (0, mem'))
      × Holds mem' box_mem (b ∷ free) (xs ++ ys)
unfolding free_box
free_box_lem mem box_mem free xs b ys h =
    let own = count_self b ys in
    let mid = count-append b xs (b ∷ ys) in
    let alone = h.once b in
    let out = outside mem box_mem free (xs ++ (b ∷ ys)) box_mem h (omega arith) in
    let (low, high) = h.inside b (omega arith) in
    let mem1 = poke mem b (mem box_mem) in
    let mem2 = poke mem1 box_mem b in
    let same_end =
      poke-other mem1 box_mem b (end_at box_mem) (omega arith)
      ∙ poke-other mem b (mem box_mem) (end_at box_mem) (omega arith) in
    let same_size =
      poke-other mem1 box_mem b (blk_size_at box_mem) (omega arith)
      ∙ poke-other mem b (mem box_mem) (blk_size_at box_mem) (omega arith) in
    let link = poke-other mem1 box_mem b b (omega arith) ∙ poke-same mem b (mem box_mem) in
    (
      mem2,
      rw (le→not_ltb b box_mem (omega arith), lt→not_leb (mem (end_at box_mem)) b high),
      record {
        chain = (
          poke-same mem1 box_mem b,
          omega arith,
          subst (λ p. IsFree mem2 p free) (sym link)
              (IsFree-poke mem1 box_mem b (mem box_mem) free (omega arith)
                (IsFree-poke mem b (mem box_mem) (mem box_mem) free (omega arith) h.chain)),
        );
        once = λ x. omega (arith, h.once x, count-append x xs ys, count-append x xs (b ∷ ys));
        inside = λ x k.
            rw same_end
              (h.inside x (omega (arith, k, count-append x xs ys, count-append x xs (b ∷ ys))));
        apart = λ x y k l lt. rw same_size (
            h.apart x y (omega (arith, k, count-append x xs ys, count-append x xs (b ∷ ys)))
              (omega (arith, l, count-append y xs ys, count-append y xs (b ∷ ys))) lt);
      },
    )

-- An address before the pool or from its end on: rt_free_box refuses it with result 1 and changes
-- nothing.
pub free_box_outside :
    (mem : Memory) (box_mem box : ℕ)
    → (ltb box box_mem || leb (mem (end_at box_mem)) box) ≡ true
    → free_box mem box_mem box ≡ (1, mem)
unfolding free_box
free_box_outside mem box_mem box h = rw h
