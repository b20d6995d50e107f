-- ===== src/Rtx/MemBox/Clear.antt =====
-- _calloc_box: the block that it gives is cleared and nothing else.
use remotus_hardware.Base.{
  count, count_self, ℕ, zero, suc, ◌+◌, ◌*◌, ◌/◌, ◌≤◌, ◌<◌, ◌≡◌, ◌⊎◌, inl, inr, refl, subst, ◌∙◌,
  List, [], ◌∷◌, arith, not_eq, dec_lt,
}
use remotus_hardware.Rtx.MemBox.{
  Memory, poke, end_at, blk_size_at, alloc_box, clear_words, calloc_box,
}
use remotus_hardware.Rtx.MemBox.Links.{IsFree, poke-same, poke-other}
use remotus_hardware.Rtx.MemBox.Laws.{Holds, alloc_box_lem}

clear_words_kept :
    (words : ℕ) (mem : Memory) (p x : ℕ)
    → (x < p) ⊎ (p + 4 * words ≤ x)
    → clear_words words mem p x ≡ mem x
unfolding clear_words
clear_words_kept zero mem p x h = refl
clear_words_kept (suc words) mem p x h =
    clear_words_kept words (poke mem p 0) (p + 4) x (grind arith)
    ∙ poke-other mem p 0 x (grind arith)

clear_words_zero :
    (words : ℕ) (mem : Memory) (p i : ℕ) → i < words → clear_words words mem p (p + 4 * i) ≡ 0
unfolding clear_words
clear_words_zero zero mem p i h = absurd (omega arith)
clear_words_zero (suc words) mem p zero h =
    clear_words_kept words (poke mem p 0) (p + 4) (p + 4 * 0) (inl (omega arith))
    ∙ rw same (poke-same mem p 0)
  where
    same : p + 4 * 0 ≡ p
    same = omega arith
clear_words_zero (suc words) mem p (suc i) h =
    rw next (clear_words_zero words (poke mem p 0) (p + 4) i (omega arith))
  where
    next : p + 4 * suc i ≡ p + 4 + 4 * i
    next = omega arith

-- A list of free blocks depends on their words only.
pub IsFree-agree :
    (mem mem' : Memory) (p : ℕ) (bs : List ℕ)
    → ((x : ℕ) → 0 < count x bs → mem' x ≡ mem x)
    → IsFree mem p bs
    → IsFree mem' p bs
IsFree-agree mem mem' p [] same c = c
IsFree-agree mem mem' p (b ∷ bs) same (e, above, c) = (
  e,
  above,
  rw (same b (count_self b bs)) (IsFree-agree mem mem' (mem b) bs (λ x k. same x (omega arith)) c),
)

alloc_box-size :
    (mem : Memory) (box_mem : ℕ)
    → 0 < mem box_mem
    → (alloc_box mem box_mem).1 (blk_size_at box_mem) ≡ mem (blk_size_at box_mem)
unfolding alloc_box
alloc_box-size mem box_mem h =
    rw (not_eq (mem box_mem) 0 (omega arith))
      (poke-other mem box_mem (mem (mem box_mem)) (blk_size_at box_mem) (omega arith))

-- A block in use can be cleared.
pub clear_words-Holds :
    (mem : Memory) (box_mem b words : ℕ) (free used : List ℕ)
    → Holds mem box_mem free used
    → 0 < count b used
    → 4 * words ≤ mem (blk_size_at box_mem)
    → Holds (clear_words words mem b) box_mem free used
clear_words-Holds mem box_mem b words free used h own size =
    let (low, high) = h.inside b (omega arith) in
    let header = λ (x : ℕ) (below : x < box_mem + 12).
      clear_words_kept words mem b x (inl (omega (arith, below, low))) in
    let is_head = header box_mem (omega arith) in
    let is_end = header (end_at box_mem) (omega arith) in
    let is_size = header (blk_size_at box_mem) (omega arith) in
    record {
      chain = rw is_head (
          IsFree-agree mem (clear_words words mem b) (mem box_mem) free
            (λ x k. clear_words_kept words mem b x (elsewhere x k)) h.chain);
      once = h.once;
      inside = λ x k. rw is_end (h.inside x k);
      apart = λ x y k l lt. rw is_size (h.apart x y k l lt);
    }
  where
    elsewhere : (x : ℕ) → 0 < count x free → (x < b) ⊎ (b + 4 * words ≤ x)
    elsewhere x k = elim (dec_lt x b) [
      | yes lt ↦ inl lt
      | no ge ↦ elim (dec_lt b x) [
        | yes lt ↦ inr (omega (arith, h.apart b x (omega arith) (omega arith) lt))
        | no le ↦
            let same : x ≡ b = omega arith in
            absurd (omega (arith, h.once b, subst (λ y. 0 < count y free) same k))
      ]
    ]

-- In a pool whose block size is `words` words, with a free block: _calloc_box gives the first one,
-- which is not in use, with all its words 0, and moves it to those in use.
pub calloc_box_lem :
    (mem : Memory) (box_mem : ℕ) (used : List ℕ) (b : ℕ) (free : List ℕ) (words : ℕ)
    → Holds mem box_mem (b ∷ free) used
    → mem (blk_size_at box_mem) ≡ 4 * words
    → (mem' : Memory) × (calloc_box mem box_mem ≡ (b, mem'))
      × (count b used ≡ 0)
      × ((i : ℕ) → i < words → mem' (b + 4 * i) ≡ 0)
      × Holds mem' box_mem free (b ∷ used)
unfolding calloc_box
calloc_box_lem mem box_mem used b free words h size =
    let (mem1, run, fresh, h1) = alloc_box_lem mem box_mem used b free h in
    let (head, above, chain) = h.chain in
    let kept_size =
      subst (λ r. r.1 (blk_size_at box_mem) ≡ mem (blk_size_at box_mem)) run
        (alloc_box-size mem box_mem (omega arith))
      ∙ size in
    let all : mem1 (blk_size_at box_mem) / 4 ≡ words = omega arith in
    let own = count_self b used in
    (
      clear_words words mem1 b,
      rw (run, not_eq b 0 (omega arith), all),
      fresh,
      (λ i k. clear_words_zero words mem1 b i k),
      clear_words-Holds mem1 box_mem b words free (b ∷ used) h1 own (omega (arith, kept_size)),
    )
