-- ===== src/Rtx/MemBox/Runs.antt =====
-- Whatever tasks do with a pool and the blocks that they hold.
use remotus_hardware.Base.{
  count, count_self, count-append, ℕ, suc, ◌+◌, ◌/◌, ◌≤◌, ◌<◌, ◌≡◌, ◌⊎◌, inl, inr, refl, subst, sym,
  ap, ◌∙◌, List, [], ◌∷◌, ◌++◌, arith, not_eq, dec_lt,
}
use remotus_hardware.Rtx.MemBox.{Memory, poke, end_at, blk_size_at, alloc_box, calloc_box, free_box}
use remotus_hardware.Rtx.MemBox.Links.{poke-other}
use remotus_hardware.Rtx.MemBox.Laws.{Holds, alloc_box_lem, alloc_box_empty, free_box_lem}
use remotus_hardware.Rtx.MemBox.Clear.{clear_words-Holds, IsFree-agree}

-- A result of _alloc_box or of _calloc_box.
abbrev pub Answers : Memory → ℕ → ℕ → Memory → Type 0
Answers mem box_mem b mem' =
    (alloc_box mem box_mem ≡ (b, mem')) ⊎ (calloc_box mem box_mem ≡ (b, mem'))

-- What tasks do with a pool, with the blocks in use: they ask for blocks, cleared or not, free blocks in
-- use, and write words into blocks in use.
pub data Reaches (box_mem : ℕ) : Memory → List ℕ → Memory → List ℕ → Type 0 where
  here : {mem : Memory} {used : List ℕ} → Reaches box_mem mem used mem used
  given :
      {mem mem1 mem2 : Memory} {used used1 : List ℕ} (b : ℕ)
      → Reaches box_mem mem used mem1 used1
      → Answers mem1 box_mem (suc b) mem2
      → Reaches box_mem mem used mem2 (suc b ∷ used1)
  denied :
      {mem mem1 mem2 : Memory} {used used1 : List ℕ}
      → Reaches box_mem mem used mem1 used1
      → Answers mem1 box_mem 0 mem2
      → Reaches box_mem mem used mem2 used1
  freed :
      {mem mem1 mem2 : Memory} {used : List ℕ} (xs : List ℕ) (b : ℕ) (ys : List ℕ)
      → Reaches box_mem mem used mem1 (xs ++ (b ∷ ys))
      → free_box mem1 box_mem b ≡ (0, mem2)
      → Reaches box_mem mem used mem2 (xs ++ ys)
  wrote :
      {mem mem1 : Memory} {used used1 : List ℕ} (b x v : ℕ)
      → Reaches box_mem mem used mem1 used1
      → 0 < count b used1
      → b ≤ x
      → x < b + mem1 (blk_size_at box_mem)
      → Reaches box_mem mem used (poke mem1 x v) used1

-- A pool with the same blocks as before, some free and some in use.
abbrev pub Keeps : Memory → ℕ → List ℕ → List ℕ → List ℕ → Type 0
Keeps mem box_mem used free0 used0 =
    (free : List ℕ) × Holds mem box_mem free used
    × ((x : ℕ) → count x free + count x used ≡ count x free0 + count x used0)

-- What an allocation does: it gives the first free block, if there is one.
abbrev Allocates : ℕ × Memory → Memory → ℕ → List ℕ → List ℕ → Type 0
Allocates r mem box_mem used [] = r ≡ (0, mem)
Allocates r mem box_mem used (c ∷ free) =
    (0 < c) × ((mem' : Memory) × (r ≡ (c, mem')) × Holds mem' box_mem free (c ∷ used))

alloc_box-Allocates :
    (mem : Memory) (box_mem : ℕ) (used free : List ℕ)
    → Holds mem box_mem free used
    → Allocates (alloc_box mem box_mem) mem box_mem used free
alloc_box-Allocates mem box_mem used [] h = alloc_box_empty mem box_mem used h
alloc_box-Allocates mem box_mem used (c ∷ free) h =
    let (mem', run, fresh, h') = alloc_box_lem mem box_mem used c free h in
    (h.chain.1, (mem', run, h'))

calloc_box-Allocates :
    (mem : Memory) (box_mem : ℕ) (used free : List ℕ)
    → Holds mem box_mem free used
    → Allocates (calloc_box mem box_mem) mem box_mem used free
unfolding calloc_box
calloc_box-Allocates mem box_mem used [] h = rw (alloc_box_empty mem box_mem used h) refl
calloc_box-Allocates mem box_mem used (c ∷ free) h =
    let (mem', run, fresh, h') = alloc_box_lem mem box_mem used c free h in
    let some_c = h.chain.1 in
    (
      some_c,
      (
        _,
        rw (run, not_eq c 0 (omega arith)) refl,
        clear_words-Holds mem' box_mem c (mem' (blk_size_at box_mem) / 4) free (c ∷ used) h'
            (count_self c used) (omega arith),
      ),
    )

given_step :
    (box_mem : ℕ) (r : ℕ × Memory) (mem mem2 : Memory) (free used : List ℕ) (b : ℕ)
    → Allocates r mem box_mem used free
    → r ≡ (suc b, mem2)
    → Keeps mem2 box_mem (suc b ∷ used) free used
given_step box_mem r mem mem2 [] used b none_left run =
    absurd (omega (arith, ap (λ s. s.0) (sym none_left ∙ run)))
given_step box_mem r mem mem2 (c ∷ free) used b (some_c, (mem', run', h')) run =
    let same = sym run' ∙ run in
    (
      free,
      subst (λ s. Holds (s.1) box_mem free (s.0 ∷ used)) same h',
      (λ x. rw (← ap (λ s. s.0) same) (omega arith)),
    )

denied_step :
    (box_mem : ℕ) (r : ℕ × Memory) (mem mem2 : Memory) (free used : List ℕ)
    → Holds mem box_mem free used
    → Allocates r mem box_mem used free
    → r ≡ (0, mem2)
    → Keeps mem2 box_mem used free used
denied_step box_mem r mem mem2 [] used h none_left run =
    ([], subst (λ s. Holds (s.1) box_mem [] used) (sym none_left ∙ run) h, (λ x. refl))
denied_step box_mem r mem mem2 (c ∷ free) used h (some_c, (mem', run', h')) run =
    absurd (omega (arith, some_c, ap (λ s. s.0) (sym run' ∙ run)))

freed_step :
    (box_mem : ℕ) (mem mem2 : Memory) (free xs : List ℕ) (b : ℕ) (ys : List ℕ)
    → Holds mem box_mem free (xs ++ (b ∷ ys))
    → free_box mem box_mem b ≡ (0, mem2)
    → Keeps mem2 box_mem (xs ++ ys) free (xs ++ (b ∷ ys))
freed_step box_mem mem mem2 free xs b ys h run =
    let (mem', run', h') = free_box_lem mem box_mem free xs b ys h in
    (
      b ∷ free,
      subst (λ r. Holds (r.1) box_mem (b ∷ free) (xs ++ ys)) (sym run' ∙ run) h',
      (λ x. omega (arith, count-append x xs ys, count-append x xs (b ∷ ys))),
    )

-- A word of a block in use can be written.
poke-Holds :
    (mem : Memory) (box_mem b x v : ℕ) (free used : List ℕ)
    → Holds mem box_mem free used
    → 0 < count b used
    → b ≤ x
    → x < b + mem (blk_size_at box_mem)
    → Holds (poke mem x v) box_mem free used
poke-Holds mem box_mem b x v free used h own low high =
    let (below, above) = h.inside b (omega arith) in
    let is_end = poke-other mem x v (end_at box_mem) (omega arith) in
    let is_size = poke-other mem x v (blk_size_at box_mem) (omega arith) in
    record {
      chain = rw (poke-other mem x v box_mem (omega arith)) (
          IsFree-agree mem (poke mem x v) (mem box_mem) free
            (λ y k. poke-other mem x v y (λ e. elsewhere y k e)) h.chain);
      once = h.once;
      inside = λ y k. rw is_end (h.inside y k);
      apart = λ y z k l lt. rw is_size (h.apart y z k l lt);
    }
  where
    elsewhere : (y : ℕ) → 0 < count y free → ¬ (y ≡ x)
    elsewhere y k e = elim (dec_lt y b) [
      | yes lt ↦ absurd (omega arith)
      | no ge ↦ elim (dec_lt b y) [
        | yes lt ↦ absurd (omega (arith, h.apart b y (omega arith) (omega arith) lt))
        | no le ↦
            let same : y ≡ b = omega arith in
            absurd (omega (arith, h.once b, subst (λ z. 0 < count z free) same k))
      ]
    ]

-- Whatever tasks do that ask _alloc_box and _calloc_box for blocks, free only blocks in use, and write
-- only into blocks in use: the pool stays one, every block is either free or in use, none is lost and
-- none is given to two tasks.
pub Reaches-Keeps :
    (box_mem : ℕ) {mem mem' : Memory} (free : List ℕ) {used used' : List ℕ}
    → Reaches box_mem mem used mem' used'
    → Holds mem box_mem free used
    → Keeps mem' box_mem used' free used
Reaches-Keeps box_mem free Reaches.here h = (free, h, λ x. refl)
Reaches-Keeps box_mem free (Reaches.given {mem1} {mem2} {used1 = used1} b r (inl run)) h =
    let (free1, h1, same) = Reaches-Keeps box_mem free r h in
    let (free2, h2, step) =
      given_step box_mem (alloc_box mem1 box_mem) mem1 mem2 free1 used1 b
        (alloc_box-Allocates mem1 box_mem used1 free1 h1) run in
    (free2, h2, λ x. step x ∙ same x)
Reaches-Keeps box_mem free (Reaches.given {mem1} {mem2} {used1 = used1} b r (inr run)) h =
    let (free1, h1, same) = Reaches-Keeps box_mem free r h in
    let (free2, h2, step) =
      given_step box_mem (calloc_box mem1 box_mem) mem1 mem2 free1 used1 b
        (calloc_box-Allocates mem1 box_mem used1 free1 h1) run in
    (free2, h2, λ x. step x ∙ same x)
Reaches-Keeps box_mem free (Reaches.denied {mem1} {mem2} {used1 = used1} r (inl run)) h =
    let (free1, h1, same) = Reaches-Keeps box_mem free r h in
    let (free2, h2, step) =
      denied_step box_mem (alloc_box mem1 box_mem) mem1 mem2 free1 used1 h1
        (alloc_box-Allocates mem1 box_mem used1 free1 h1) run in
    (free2, h2, λ x. step x ∙ same x)
Reaches-Keeps box_mem free (Reaches.denied {mem1} {mem2} {used1 = used1} r (inr run)) h =
    let (free1, h1, same) = Reaches-Keeps box_mem free r h in
    let (free2, h2, step) =
      denied_step box_mem (calloc_box mem1 box_mem) mem1 mem2 free1 used1 h1
        (calloc_box-Allocates mem1 box_mem used1 free1 h1) run in
    (free2, h2, λ x. step x ∙ same x)
Reaches-Keeps box_mem free (Reaches.freed {mem1} {mem2} xs b ys r run) h =
    let (free1, h1, same) = Reaches-Keeps box_mem free r h in
    let (free2, h2, step) = freed_step box_mem mem1 mem2 free1 xs b ys h1 run in
    (free2, h2, λ x. step x ∙ same x)
Reaches-Keeps box_mem free (Reaches.wrote {mem1} {used1 = used1} b x v r own low high) h =
    let (free1, h1, same) = Reaches-Keeps box_mem free r h in
    (free1, poke-Holds mem1 box_mem b x v free1 used1 h1 own low high, same)
