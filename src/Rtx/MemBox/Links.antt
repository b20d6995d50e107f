-- ===== src/Rtx/MemBox/Links.antt =====
-- The free blocks of a pool as a list of addresses, and how the loop of _init_box links them.
use remotus_hardware.Base.{
  count, ℕ, zero, suc, ◌+◌, ◌-◌, ◌^◌, ◌≤◌, ◌<◌, ◌≡◌, refl, ◌∙◌, Option, some, List, [], ◌∷◌, leb,
  if◌then◌else◌, arith, dec_lt, lt→ltb, le→not_ltb, le→leb, lt→not_leb, ==-same, not_eq,
}
use remotus_hardware.Rtx.MemBox.{Memory, poke, add32, link_blocks}

-- The words from `p` on make the list of free blocks `bs`.
abbrev pub IsFree : Memory → ℕ → List ℕ → Type 0
IsFree mem p [] = p ≡ 0
IsFree mem p (b ∷ bs) = (p ≡ b) × (0 < b) × IsFree mem (mem b) bs

pub poke-same : (mem : Memory) (a v : ℕ) → poke mem a v a ≡ v
poke-same mem a v = rw (==-same a)

pub poke-other : (mem : Memory) (a v x : ℕ) → ¬ (x ≡ a) → poke mem a v x ≡ mem x
poke-other mem a v x h = rw (not_eq x a h)

pub count_zero : (a b : ℕ) (bs : List ℕ) → count a (b ∷ bs) ≡ 0 → (¬ (b ≡ a)) × (count a bs ≡ 0)
count_zero a b bs h = (grind arith, grind arith)

-- A word outside the list can be changed.
pub IsFree-poke :
    (mem : Memory) (a v p : ℕ) (bs : List ℕ)
    → count a bs ≡ 0
    → IsFree mem p bs
    → IsFree (poke mem a v) p bs
IsFree-poke mem a v p [] h c = c
IsFree-poke mem a v p (b ∷ bs) h (e, pos, c) =
    let (other, rest) = count_zero a b bs h in
    (e, pos, rw (not_eq b a other) (IsFree-poke mem a v (mem b) bs rest c))

-- The addresses of the blocks of size `size` from `blk` on that lie before `end`.
abbrev pub blocks : ℕ → ℕ → ℕ → ℕ → List ℕ
blocks zero blk size end = []
blocks (suc fuel) blk size end =
    let rest = blocks fuel (blk + size) size end in if leb (blk + size) end then blk ∷ rest else []

blocks_none : (fuel blk size end : ℕ) → end < blk + size → blocks fuel blk size end ≡ []
blocks_none zero blk size end h = refl
blocks_none (suc fuel) blk size end h = rw (lt→not_leb (blk + size) end h)

pub blocks_inside :
    (x fuel blk size end : ℕ)
    → 0 < count x (blocks fuel blk size end)
    → (blk ≤ x) × (x + size ≤ end)
blocks_inside x zero blk size end h = absurd (omega arith)
blocks_inside x (suc fuel) blk size end h =
    grind (arith, blocks_inside x fuel (blk + size) size end)

pub blocks_once : (x fuel blk size end : ℕ) → 0 < size → count x (blocks fuel blk size end) ≤ 1
blocks_once x zero blk size end h = omega arith
blocks_once x (suc fuel) blk size end h =
    grind (
      arith,
      blocks_once x fuel (blk + size) size end h,
      blocks_inside x fuel (blk + size) size end,
    )

-- No two blocks overlap.
pub blocks_apart :
    (x y fuel blk size end : ℕ)
    → 0 < count x (blocks fuel blk size end)
    → 0 < count y (blocks fuel blk size end)
    → x < y
    → x + size ≤ y
blocks_apart x y zero blk size end h k lt = absurd (omega arith)
blocks_apart x y (suc fuel) blk size end h k lt = grind (
  arith,
  blocks_apart x y fuel (blk + size) size end,
  blocks_inside x fuel (blk + size) size end,
  blocks_inside y fuel (blk + size) size end,
)

-- One round of the loop, where the pointer does not wrap.
module _ (fuel : ℕ) (mem : Memory) (blk size last : ℕ) (top : blk + size < 2 ^ 32) where
  no_wrap : add32 blk size ≡ blk + size
  no_wrap = omega arith

  link_last : last < blk + size → link_blocks (suc fuel) mem blk size last ≡ some (poke mem blk 0)
  unfolding link_blocks
  link_last h = rw (no_wrap, lt→ltb last (blk + size) h)

  link_more :
      blk + size ≤ last
      → link_blocks (suc fuel) mem blk size last
        ≡ link_blocks fuel (poke mem blk (blk + size)) (blk + size) size last
  unfolding link_blocks
  link_more h = rw (no_wrap, le→not_ltb last (blk + size) h)

-- Where the loop leaves the memory: the blocks are linked in order, and nothing below `blk` changes.
abbrev pub Linked : Option Memory → Memory → ℕ → List ℕ → Type 0
Linked run mem blk bs =
    (mem' : Memory) × (run ≡ some mem') × IsFree mem' blk bs × ((x : ℕ) → x < blk → mem' x ≡ mem x)

pub link_blocks-blocks :
    (fuel : ℕ) (mem : Memory) (blk size end : ℕ)
    → 0 < size
    → 0 < blk
    → blk + size ≤ end
    → end ≤ blk + fuel
    → end < 2 ^ 32
    → Linked (link_blocks fuel mem blk size (end - size)) mem blk (blocks fuel blk size end)
unfolding link_blocks
link_blocks-blocks zero mem blk size end s b fits enough top = absurd (omega arith)
link_blocks-blocks (suc fuel) mem blk size end s b fits enough top =
    let here = le→leb (blk + size) end fits in
    elim (dec_lt (end - size) (blk + size)) [
      | yes none_left ↦ (
        poke mem blk 0,
        link_last fuel mem blk size (end - size) (omega arith) none_left,
        rw (here, blocks_none fuel (blk + size) size end (omega arith))
            (refl, b, poke-same mem blk 0),
        (λ x below. poke-other mem blk 0 x (omega arith)),
      )
      | no more ↦
          let mem1 = poke mem blk (blk + size) in
          let (mem2, run, chain, kept) =
            link_blocks-blocks fuel mem1 (blk + size) size end s (omega arith) (omega arith)
              (omega arith) top in
          let link = kept blk (omega arith) ∙ poke-same mem blk (blk + size) in
          (
            mem2,
            link_more fuel mem blk size (end - size) (omega arith) (omega arith) ∙ run,
            rw here (refl, b, rw link chain),
            (λ x below. kept x (omega arith) ∙ poke-other mem blk (blk + size) x (omega arith)),
          )
    ]
