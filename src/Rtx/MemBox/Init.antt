-- ===== src/Rtx/MemBox/Init.antt =====
-- The pool that _init_box makes.
use remotus_hardware.Base.{
  ℕ, ◌+◌, ◌-◌, ◌^◌, ◌≤◌, ◌<◌, ◌≡◌, ◌∙◌, some, [], ◌⊎◌, arith, le→not_ltb, not_eq,
}
use remotus_hardware.Rtx.MemBox.{
  Memory, poke, add32, sub32, end_at, blk_size_at, rounded, sizeof_bm, make_box, init_box,
}
use remotus_hardware.Rtx.MemBox.Links.{
  poke-same, poke-other, blocks, blocks_inside, blocks_once, blocks_apart, link_blocks-blocks,
}
use remotus_hardware.Rtx.MemBox.Laws.{Holds}

-- A new pool: all blocks that fit are free and none is in use, and the structure has the end and the
-- size of a block.
abbrev pub IsNew : Memory → ℕ → ℕ → ℕ → ℕ → Type 0
IsNew mem box_mem box_size size header =
    Holds mem box_mem (blocks box_size (box_mem + header) size (box_mem + box_size)) []
    × (mem (end_at box_mem) ≡ box_mem + box_size)
    × (mem (blk_size_at box_mem) ≡ size)

mod_add : (a b : ℕ) → a + b < 2 ^ 32 → add32 a b ≡ a + b
mod_add a b h = omega arith

mod_sub : (a b : ℕ) → b ≤ a → a < 2 ^ 32 → sub32 a b ≡ a - b
mod_sub a b h k = omega arith

header_size : (blk_size : ℕ) → 12 ≤ sizeof_bm blk_size
header_size blk_size = ground arith

module _ (mem : Memory) (box_mem box_size : ℕ) (above : 0 < box_mem)
    (top : box_mem + box_size < 2 ^ 32) where
  make_box_lem :
      (size header : ℕ)
      → 0 < size
      → 12 ≤ header
      → header + size ≤ box_size
      → (mem' : Memory) × (make_box mem box_mem box_size size header ≡ some (0, mem'))
        × IsNew mem' box_mem box_size size header
  unfolding make_box
  make_box_lem size header s h fits =
      let mem1 = poke mem box_mem (box_mem + header) in
      let mem2 = poke mem1 (end_at box_mem) (box_mem + box_size) in
      let mem3 = poke mem2 (blk_size_at box_mem) size in
      let (mem4, run, chain, kept) =
        link_blocks-blocks box_size mem3 (box_mem + header) size (box_mem + box_size) s
          (omega arith) (omega arith) (omega arith) top in
      let head =
        kept box_mem (omega arith)
        ∙ poke-other mem2 (blk_size_at box_mem) size box_mem (omega arith)
        ∙ poke-other mem1 (end_at box_mem) (box_mem + box_size) box_mem (omega arith)
        ∙ poke-same mem box_mem (box_mem + header) in
      let end =
        kept (end_at box_mem) (omega arith)
        ∙ poke-other mem2 (blk_size_at box_mem) size (end_at box_mem) (omega arith)
        ∙ poke-same mem1 (end_at box_mem) (box_mem + box_size) in
      let size_word =
        kept (blk_size_at box_mem) (omega arith) ∙ poke-same mem2 (blk_size_at box_mem) size in
      (
        mem4,
        rw (
          mod_add box_mem header (omega arith),
          mod_add box_mem box_size top,
          mod_sub (box_mem + box_size) size (omega arith) top,
          run,
        ),
        (
          record {
            chain = rw head chain;
            once = λ x.
                omega
                  (arith, blocks_once x box_size (box_mem + header) size (box_mem + box_size) s);
            inside = λ x k.
                let at_blocks =
                  blocks_inside x box_size (box_mem + header) size (box_mem + box_size)
                    (omega arith) in
                rw end (omega (arith, at_blocks));
            apart = λ x y k l lt. rw size_word (
                blocks_apart x y box_size (box_mem + header) size (box_mem + box_size) (omega arith)
                  (omega arith) lt);
          },
          end,
          size_word,
        ),
      )

  -- A block size that does not round to 0, in a box with room for the structure and one block, in the
  -- 32-bit address space: _init_box answers 0 and makes a pool with all blocks that fit free.
  pub init_box_lem :
      (blk_size : ℕ)
      → blk_size < 2 ^ 32
      → 0 < rounded blk_size
      → sizeof_bm blk_size + rounded blk_size ≤ box_size
      → (mem' : Memory) × (init_box mem box_mem box_size blk_size ≡ some (0, mem'))
        × IsNew mem' box_mem box_size (rounded blk_size) (sizeof_bm blk_size)
  unfolding init_box
  init_box_lem blk_size word some_size fits =
      let (mem', run, new) =
        make_box_lem (rounded blk_size) (sizeof_bm blk_size) some_size (header_size blk_size)
          fits in
      (
        mem',
        rw
            (
              not_eq (rounded blk_size) 0 (omega arith),
              mod_add (rounded blk_size) (sizeof_bm blk_size) (omega arith),
              le→not_ltb box_size (rounded blk_size + sizeof_bm blk_size) (omega arith),
            )
            run,
        new,
      )

-- A block size that rounds to 0, or a box without room for the structure and one block: _init_box
-- answers 1 and changes nothing.
pub init_box_refused :
    (mem : Memory) (box_mem box_size blk_size : ℕ)
    → blk_size < 2 ^ 32
    → (rounded blk_size ≡ 0) ⊎ (box_size < sizeof_bm blk_size + rounded blk_size)
    → init_box mem box_mem box_size blk_size ≡ some (1, mem)
unfolding init_box
init_box_refused mem box_mem box_size blk_size word h = ground arith
