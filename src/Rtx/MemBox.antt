-- ===== src/Rtx/MemBox.antt =====
-- mbed-rtos/rtx/TARGET_CORTEX_M/rt_MemBox.c: memory pools of blocks of one size.
-- A pool at the address `box_mem` has the three words of struct OS_BM (free, end, blk_size) and then
-- the blocks; a free block holds the address of the next one. Interrupts are off during the changes,
-- so each function is one step.
pub mod Links
pub mod Laws
pub mod Init
pub mod Clear
pub mod Runs
mod Tests
use remotus_hardware.Base.{
  ℕ, zero, suc, ◌+◌, ◌-◌, ◌*◌, ◌/◌, ◌%◌, ◌^◌, Option, none, some, ◌>>=◌, ltb, leb, ◌==◌, ◌||◌,
  if◌then◌else◌,
}

-- The word at each address.
abbrev pub Memory : Type 0
Memory = ℕ → ℕ

abbrev pub poke : Memory → ℕ → ℕ → Memory
poke mem a v = λ x. if x == a then v else mem x

-- U32 and pointer arithmetic
abbrev pub add32 : ℕ → ℕ → ℕ
add32 a b = (a + b) % 2 ^ 32

abbrev pub sub32 : ℕ → ℕ → ℕ
sub32 a b = (a + 2 ^ 32 - b) % 2 ^ 32

-- `sizeof (struct OS_BM)` and the offsets of `end` and `blk_size`
abbrev pub end_at : ℕ → ℕ
end_at box_mem = box_mem + 4

abbrev pub blk_size_at : ℕ → ℕ
blk_size_at box_mem = box_mem + 8

-- The loop that links the blocks, up to the block at `last`. A round moves `blk` by the size of a
-- block; with no round left the result is `none`.
pub link_blocks : ℕ → Memory → ℕ → ℕ → ℕ → Option Memory
link_blocks zero mem blk blk_size last = none
link_blocks (suc fuel) mem blk blk_size last =
    let next = add32 blk blk_size in
    let rest = link_blocks fuel (poke mem blk next) next blk_size last in
    if ltb last next then some (poke mem blk 0) else rest

-- The sizes, with BOX_ALIGN_8 the top bit of `blk_size`.
abbrev pub is_align_8 : ℕ → ℕ
is_align_8 blk_size = blk_size / 2 ^ 31 % 2

abbrev pub rounded : ℕ → ℕ
rounded blk_size =
    if is_align_8 blk_size == 1
    then (blk_size % 2 ^ 31 + 7) / 8 * 8
    else (blk_size + 3) % 2 ^ 32 / 4 * 4

abbrev pub sizeof_bm : ℕ → ℕ
sizeof_bm blk_size = if is_align_8 blk_size == 1 then 16 else 12

-- from the creation of the structure on
pub make_box : Memory → ℕ → ℕ → ℕ → ℕ → Option (ℕ × Memory)
make_box mem box_mem box_size blk_size header =
    let blk = add32 box_mem header in
    let end = add32 box_mem box_size in
    let mem1 = poke mem box_mem blk in
    let mem2 = poke mem1 (end_at box_mem) end in
    let mem3 = poke mem2 (blk_size_at box_mem) blk_size in
    link_blocks box_size mem3 blk blk_size (sub32 end blk_size) >>= λ mem4. some (0, mem4)

-- The result, 0 if the pool is made and 1 if not, and the memory.
pub init_box : Memory → ℕ → ℕ → ℕ → Option (ℕ × Memory)
init_box mem box_mem box_size blk_size =
    if rounded blk_size == 0
    then some (1, mem)
    else if ltb box_size (add32 (rounded blk_size) (sizeof_bm blk_size))
    then some (1, mem)
    else make_box mem box_mem box_size (rounded blk_size) (sizeof_bm blk_size)

-- The block, 0 if there is none, and the memory.
pub alloc_box : Memory → ℕ → ℕ × Memory
alloc_box mem box_mem =
    let free = mem box_mem in if free == 0 then (free, mem) else (free, poke mem box_mem (mem free))

-- The loop of _calloc_box: the count `i` goes down by 4, which it has as a factor.
pub clear_words : ℕ → Memory → ℕ → Memory
clear_words zero mem p = mem
clear_words (suc words) mem p = clear_words words (poke mem p 0) (p + 4)

-- _alloc_box is rt_alloc_box behind a supervisor call.
pub calloc_box : Memory → ℕ → ℕ × Memory
calloc_box mem box_mem =
    let (free, mem1) = alloc_box mem box_mem in
    if free == 0
    then (free, mem1)
    else (free, clear_words (mem1 (blk_size_at box_mem) / 4) mem1 free)

-- The result, 0 if the block is taken back and 1 if it is not in the pool, and the memory.
pub free_box : Memory → ℕ → ℕ → ℕ × Memory
free_box mem box_mem box =
    if ltb box box_mem || leb (mem (end_at box_mem)) box
    then (1, mem)
    else (0, poke (poke mem box (mem box_mem)) box_mem box)
