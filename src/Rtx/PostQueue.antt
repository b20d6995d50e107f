-- ===== src/Rtx/PostQueue.antt =====
-- mbed-rtos/rtx/TARGET_CORTEX_M/rt_HAL_CM.h, rt_TypeDef.h and rt_List.c: the queue of the requests
-- that interrupts post. Interrupts are off in rt_inc_qi, so it is one step.
pub mod Laws
mod Tests
use remotus_hardware.Base.{ℕ, ◌+◌, ◌%◌, Option, none, some, ◌==◌, ltb, if◌then◌else◌}

-- OS_PSQ; the members but `q` are of type U8.
pub record Psq : Type 0 where
  pub first : ℕ
  pub last : ℕ
  pub count : ℕ
  pub size : ℕ
  pub q : ℕ → ℕ × ℕ

-- rt_inc_qi: what it returns, `*count` and `*first`.
pub inc_qi : ℕ → ℕ → ℕ → ℕ × ℕ × ℕ
inc_qi size count first =
    if ltb count size
    then (first, (count + 1) % 256, if first + 1 == size then 0 else (first + 1) % 256)
    else (count, count, first)

abbrev pub put_entry : (ℕ → ℕ × ℕ) → ℕ → ℕ × ℕ → ℕ → ℕ × ℕ
put_entry q i e = λ j. if j == i then e else q j

-- A full queue is the call of os_error, which does not return: `none`.
pub psq_enq : Psq → ℕ → ℕ → Option Psq
psq_enq p entry arg =
    let (idx, count, first) = inc_qi p.size p.count p.first in
    if ltb idx p.size
    then some (record p { first = first; count = count; q = put_entry p.q idx (entry, arg) })
    else none
